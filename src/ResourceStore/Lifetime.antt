-- ===== src/ResourceStore/Lifetime.antt =====
-- What a sweep reaps, and how many sweeps a resource that nobody fetches survives.
use cri_t.Prelude.{
  Option-cases, is_some, All, string_eq, nat_eq, ==_refl, String, ◌≡◌, refl, ◌⊎◌, inl, inr, true,
  false, Option, none, some, List, [], ◌∷◌, arith,
}
use cri_t.Prelude.Maps.{Map, lookup, lookup-insert, Values}
use cri_t.ResourceStore.{
  Resource, ResourceStore, new_store, was_put, blank, entry_or_blank, is_entry_put, put, fetch, get,
  sweep_entries, sweep,
}
use cri_t.ResourceStore.Cleaner.{ResourceCleaner, cleanup}
use cri_t.ResourceStore.History.{Call, puts, sweeps, step, run}
use cri_t.ResourceStore.Sweep.{
  survive, lookup-sweep_entries, IsSound, IsValid, new_store-IsValid, entry-IsSound, run-IsValid,
}

module _ {C : Type 0} where
  -- What the sweep may hand to the cleanup: a resource that was put, was seen by an earlier sweep,
  -- and has a cleaner to call.
  pub record IsReapable (r : Resource C) : Type 0 where
    pub was_stale : r.stale ≡ true
    pub has_resource : was_put r ≡ true
    pub has_cleaner : is_some r.cleaner ≡ true

  reaped-IsReapable :
      (m : Map String (Resource C)) → Values IsSound m → All IsReapable (sweep_entries m).1
  unfolding sweep_entries
  reaped-IsReapable [] v = tt
  reaped-IsReapable ((j, r) ∷ m) (h, v) = ground (arith, reaped-IsReapable m v, h.cleanable)

  -- After any history from a new store, a sweep reaps only resources that were put, that an earlier
  -- sweep marked as stale, and that have a cleaner: the cleanup never meets a nil cleaner.
  pub sweep-IsReapable : (cs : List (Call C)) → All IsReapable (sweep (run new_store cs)).1
  unfolding sweep
  sweep-IsReapable cs =
      reaped-IsReapable (run new_store cs).resources
        (run-IsValid new_store cs new_store-IsValid).sound

  -- `r` is an element of the list.
  abbrev pub In : Resource C → List (Resource C) → Type 0
  In r [] = ⊥
  In r (x ∷ xs) = (x ≡ r) ⊎ In r xs

  In-sweep_entries :
      (k : String) (r : Resource C) (m : Map String (Resource C))
      → lookup k m ≡ some r
      → was_put r ≡ true
      → r.stale ≡ true
      → In r (sweep_entries m).1
  unfolding sweep_entries lookup
  In-sweep_entries k r [] f p t = cc
  In-sweep_entries k r ((j, x) ∷ m) f p t = ground (arith, In-sweep_entries k r m)

  module _ (name id : String) (c : C) (s : ResourceStore C) where
    -- The entry that a Put leaves.
    abbrev pub entry : Resource C
    entry = record (entry_or_blank (lookup name s.resources)) {
      resource = some id;
      cleaner = some c;
      name = name;
    }

    pub lookup-put :
        is_entry_put (lookup name s.resources) ≡ false
        → lookup name (put name id c s).0.resources ≡ some entry
    unfolding put
    lookup-put free =
        rw free (ground (arith, lookup-insert name name entry s.resources, ==_refl name))

    lookup-sweep :
        (t : ResourceStore C)
        → IsValid t
        → lookup name (sweep t).0.resources ≡ survive (lookup name t.resources)
    unfolding sweep
    lookup-sweep t v = lookup-sweep_entries name t.resources v.unique

  module _ (name id : String) (c : C) (s : ResourceStore C) (v : IsValid s) where
    abbrev placed : ResourceStore C
    placed = (put name id c s).0

    placed-IsValid : IsValid placed
    placed-IsValid = unfold run step in run-IsValid s (puts name id c ∷ []) v

    swept-IsValid : IsValid (sweep placed).0
    swept-IsValid = unfold run step in run-IsValid placed (sweeps ∷ []) placed-IsValid

    entry_fresh : is_entry_put (lookup name s.resources) ≡ false → (entry name id c s).stale ≡ false
    unfolding entry_or_blank blank
    entry_fresh free = ground (arith, (entry-IsSound name s.resources v.sound).fresh)

    lookup-swept :
        is_entry_put (lookup name s.resources) ≡ false
        → lookup name (sweep placed).0.resources
          ≡ some (record (entry name id c s) { stale = true })
    lookup-swept free =
        rw (lookup-sweep name id c s placed placed-IsValid, lookup-put name id c s free)
          (ground (arith, entry_fresh free))

    lookup-swept_twice :
        is_entry_put (lookup name s.resources) ≡ false
        → lookup name (sweep (sweep placed).0).0.resources ≡ none
    lookup-swept_twice free =
        rw (lookup-sweep name id c s (sweep placed).0 swept-IsValid, lookup-swept free) refl

  -- A resource that is put under a free name of a valid store can be fetched after one sweep, and
  -- Get returns its ID; if nobody fetches it, the second sweep drops it and reaps it with its
  -- cleaner, and Get then finds nothing.
  pub put-sweep-sweep :
      (name id : String) (c : C) (s : ResourceStore C)
      → IsValid s
      → is_entry_put (lookup name s.resources) ≡ false
      → let once = (sweep (put name id c s).0).0 in
        let twice = sweep once in
        ((get name once).1 ≡ id)
        × ((get name twice.0).1 ≡ "")
        × ((r : Resource C) × In r twice.1 × (r.resource ≡ some id) × (r.cleaner ≡ some c))
  unfolding get fetch
  put-sweep-sweep name id c s v free = (
    rw (lookup-swept name id c s v free),
    rw (lookup-swept_twice name id c s v free),
    (
      record (entry name id c s) { stale = true },
      unfold sweep in In-sweep_entries name _ _ (lookup-swept name id c s v free) refl refl,
      refl,
      refl,
    ),
  )

-- The loop after the lock is given back: each cleaner runs, and an error is only logged. `none` is a
-- call of Cleanup on a nil cleaner.
unfoldable pub reap : {W E : Type 0} → List (Resource (ResourceCleaner W E)) → W → Option W
reap [] w = some w
reap (r ∷ rs) w = elim r.cleaner [ none ↦ none | some c ↦ reap rs (cleanup c w).1 ]

reap_total :
    {W E : Type 0} (rs : List (Resource (ResourceCleaner W E))) (w : W)
    → All IsReapable rs
    → (w' : W) × (reap rs w ≡ some w')
unfolding reap
reap_total [] w h = (w, refl)
reap_total (r ∷ rs) w (h, hs) = elim (Option-cases r.cleaner) [
  | inl nil ↦ absurd (ground (arith, h.has_cleaner))
  | inr (c, has) ↦ let (w', e) = reap_total rs (cleanup c w).1 hs in (w', rw has e)
]

-- After any history from a new store, the round of the sweep runs the cleaner of every resource that
-- it reaps, whatever errors they return: it never calls a nil cleaner.
pub sweep-reap :
    {W E : Type 0} (cs : List (Call (ResourceCleaner W E))) (w : W)
    → (w' : W) × (reap (sweep (run new_store cs)).1 w ≡ some w')
sweep-reap cs w = reap_total (sweep (run new_store cs)).1 w (sweep-IsReapable cs)
