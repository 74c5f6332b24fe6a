-- ===== src/Registrar/Invariant.antt =====
-- The two indices of a registrar describe the same reservations, after any calls.
use cri_t.Prelude.{
  Option-cases, string_eq, nat_eq, ◌==◌, ==_iff, contains, contains-append_one, ◌≤◌, String, ◌≡◌,
  refl, ◌≢◌, inl, inr, Bool, true, false, Option, none, some, List, [], ◌∷◌, arith,
}
use cri_t.Prelude.Maps.{lookup, lookup-delete, lookup-insert}
use cri_t.Registrar.{
  Registrar, new_registrar, listed, reserve_free, reserve, unlist, prune, release_held, release,
  delete_key, Call, reserves, releases, deletes, step, run,
}
use cri_t.Registrar.Indices.{
  count, count-absent, count-append_one, append_one-ne-nil, listed-insert, listed-delete,
  contains-drop_first, count-drop_first-le, lookup-delete_names, listed-prune, listed-unlist,
  lookup-unlist_ne, prune-ne-nil,
}

abbrev pub owns : Option String → String → Bool
owns none key = false
owns (some k) key = k == key

owns_unique :
    (o : Option String) (j k : String) → owns o j ≡ true → owns o k ≡ true → (j == k) ≡ true
owns_unique none j k h g = cc
owns_unique (some x) j k h g = ground (arith, ==_iff x j, ==_iff x k, ==_iff j k)

pub record IsValid (r : Registrar) : Type 0 where
  pub agree : (k n : String) → contains (listed k r.idx) n ≡ owns (lookup n r.names) k
  pub distinct : (k n : String) → count n (listed k r.idx) ≤ 1
  pub pruned : (k : String) → lookup k r.idx ≢ some []

pub new_registrar-IsValid : IsValid new_registrar
unfolding new_registrar lookup
new_registrar-IsValid = record {
  agree = λ k n. refl;
  distinct = λ k n. omega arith;
  pruned = λ k h. cc;
}

module _ (name key : String) (r : Registrar) (v : IsValid r) (k n : String) where
  reserve_free-agree :
      lookup name r.names ≡ none
      → contains (listed k (reserve_free name key r).idx) n
        ≡ owns (lookup n (reserve_free name key r).names) k
  unfolding reserve_free
  reserve_free-agree free =
      rw (listed-insert key k r.idx _, lookup-insert name n key r.names)
        (ground (
          arith,
          v.agree k n,
          v.agree key n,
          contains-append_one (listed key r.idx) name n,
          ==_iff key k,
          ==_iff name n,
        ))

  reserve_free-distinct :
      lookup name r.names ≡ none → count n (listed k (reserve_free name key r).idx) ≤ 1
  unfolding reserve_free
  reserve_free-distinct free = rw (listed-insert key k r.idx _) (
      ground (
        arith,
        v.agree key name,
        count-append_one (listed key r.idx) name n,
        count-absent (listed key r.idx) name,
        v.distinct k n,
        v.distinct key n,
        ==_iff name n,
      ))

reserve_free-IsValid :
    (name key : String) (r : Registrar)
    → IsValid r
    → lookup name r.names ≡ none
    → IsValid (reserve_free name key r)
reserve_free-IsValid name key r v free = record {
  agree = λ k n. reserve_free-agree name key r v k n free;
  distinct = λ k n. reserve_free-distinct name key r v k n free;
  pruned = λ k.
      unfold reserve_free in
      rw (lookup-insert key k _ r.idx)
        (ground (arith, v.pruned k, append_one-ne-nil (listed key r.idx) name));
}

module _ (name key : String) (r : Registrar) (v : IsValid r) (k n : String) where
  release-agree :
      lookup name r.names ≡ some key
      → contains (listed k (release_held name key r).idx) n
        ≡ owns (lookup n (release_held name key r).names) k
  unfolding release_held
  release-agree held =
      rw
        (
          listed-prune key k (unlist name key r.idx),
          listed-unlist key k r.idx name,
          lookup-delete name n r.names,
        )
        (ground (
          arith,
          v.agree k n,
          v.agree key n,
          v.agree key name,
          contains-drop_first (listed key r.idx) name n,
          v.distinct key name,
          ==_iff name n,
          ==_iff key k,
        ))

  release-distinct : count n (listed k (release_held name key r).idx) ≤ 1
  unfolding release_held
  release-distinct =
      rw (listed-prune key k (unlist name key r.idx), listed-unlist key k r.idx name)
        (ground
          (arith, v.distinct k n, v.distinct key n, count-drop_first-le (listed key r.idx) name n))

  release-pruned : lookup k (release_held name key r).idx ≢ some []
  unfolding release_held prune unlist
  release-pruned =
      prune-ne-nil key k (unlist name key r.idx)
        λ h. rw (lookup-unlist_ne key k r.idx name h) (v.pruned k)

  delete_key-agree :
      contains (listed k (delete_key name r).idx) n ≡ owns (lookup n (delete_key name r).names) k
  unfolding delete_key
  delete_key-agree =
      rw (listed-delete name k r.idx, lookup-delete_names (listed name r.idx) n r.names)
        (ground (
          arith,
          v.agree k n,
          v.agree name n,
          owns_unique (lookup n r.names) name k,
          ==_iff name k,
        ))

  delete_key-distinct : count n (listed k (delete_key name r).idx) ≤ 1
  unfolding delete_key
  delete_key-distinct = rw (listed-delete name k r.idx) (ground (arith, v.distinct k n))

  delete_key-pruned : lookup k (delete_key name r).idx ≢ some []
  unfolding delete_key
  delete_key-pruned = rw (lookup-delete name k r.idx) (ground (arith, v.pruned k))

pub reserve-IsValid :
    (name key : String) (r : Registrar) → IsValid r → IsValid (reserve name key r).0
unfolding reserve
reserve-IsValid name key r v = elim (Option-cases (lookup name r.names)) [
  | inl free ↦ rw (free, reserve) (reserve_free-IsValid name key r v free)
  | inr (k, held) ↦ rw (held, reserve) (ground (arith, v))
]

pub release-IsValid : (name : String) (r : Registrar) → IsValid r → IsValid (release name r)
unfolding release
release-IsValid name r v = elim (Option-cases (lookup name r.names)) [
  | inl free ↦ rw (free, release) v
  | inr (key, held) ↦
      rw (held, release)
        (record {
          agree = λ k n. release-agree name key r v k n held;
          distinct = λ k n. release-distinct name key r v k n;
          pruned = λ k. release-pruned name key r v k "";
        })
]

pub delete_key-IsValid : (key : String) (r : Registrar) → IsValid r → IsValid (delete_key key r)
delete_key-IsValid key r v = record {
  agree = λ k n. delete_key-agree key "" r v k n;
  distinct = λ k n. delete_key-distinct key "" r v k n;
  pruned = λ k. delete_key-pruned key "" r v k "";
}

pub step-IsValid : (r : Registrar) (c : Call) → IsValid r → IsValid (step r c)
unfolding step
step-IsValid r (reserves name key) v = reserve-IsValid name key r v
step-IsValid r (releases name) v = release-IsValid name r v
step-IsValid r (deletes key) v = delete_key-IsValid key r v

-- Every call keeps a registrar valid: a name stands under a key in the index exactly when it is
-- reserved to that key, no name stands twice under a key, and no key has an empty list.
pub run-IsValid : (r : Registrar) (cs : List Call) → IsValid r → IsValid (run r cs)
unfolding run
run-IsValid r [] v = v
run-IsValid r (c ∷ cs) v = run-IsValid (step r c) cs (step-IsValid r c v)
