-- ===== src/ResourceStore/Sweep.antt =====
-- The life of an entry: what one sweep does at each name, and how many sweeps a resource survives.
use cri_t.Prelude.{
  if◌then◌else◌, Bool-cases, Option-cases, is_some, nat_eq, string_eq, ==_iff, String, ◌≡◌, refl,
  inl, inr, true, false, Option, none, some, List, [], ◌∷◌, arith,
}
use cri_t.Prelude.Maps.{
  Map, lookup, delete, insert, Unique, delete-Unique, insert-Unique, Values, delete-Values,
  lookup-Values,
}
use cri_t.ResourceStore.History.{
  Call, puts, gets, deletes, watches, sets_stage, sweeps, closes, step, run,
}
use cri_t.ResourceStore.{
  Resource, ResourceStore, new_store, close, was_put, blank, entry_or_blank, is_entry_put, put,
  fetch, get, delete_entry, watcher_for_resource, set_stage_for_resource, sweep_entries, sweep,
}

module _ {C : Type 0} where
  -- What a sweep leaves of the entry of one name.
  abbrev pub survive : Option (Resource C) → Option (Resource C)
  survive none = none
  survive (some r) =
      if was_put r then (if r.stale then none else some (record r { stale = true })) else some r

  lookup-sweep_entries_absent :
      (k : String) (m : Map String (Resource C))
      → lookup k m ≡ none
      → lookup k (sweep_entries m).0 ≡ none
  unfolding sweep_entries lookup
  lookup-sweep_entries_absent k [] h = refl
  lookup-sweep_entries_absent k ((j, r) ∷ m) h = ground (arith, lookup-sweep_entries_absent k m)

  pub lookup-sweep_entries :
      (k : String) (m : Map String (Resource C))
      → Unique m
      → lookup k (sweep_entries m).0 ≡ survive (lookup k m)
  unfolding sweep_entries lookup
  lookup-sweep_entries k [] u = refl
  lookup-sweep_entries k ((j, r) ∷ m) u =
      ground (arith, lookup-sweep_entries k m u.1, lookup-sweep_entries_absent k m, ==_iff j k)

  sweep_entries-Unique : (m : Map String (Resource C)) → Unique m → Unique (sweep_entries m).0
  unfolding sweep_entries
  sweep_entries-Unique [] u = tt
  sweep_entries-Unique ((j, r) ∷ m) u =
      ground (arith, sweep_entries-Unique m u.1, lookup-sweep_entries_absent j m)

  -- Only what was put can be stale, and what was put has its cleaner.
  pub record IsSound (r : Resource C) : Type 0 where
    pub fresh : was_put r ≡ false → r.stale ≡ false
    pub cleanable : was_put r ≡ true → is_some r.cleaner ≡ true

  pub record IsValid (s : ResourceStore C) : Type 0 where
    pub unique : Unique s.resources
    pub sound : Values IsSound s.resources

  pub new_store-IsValid : IsValid new_store
  unfolding new_store
  new_store-IsValid = record { unique = tt; sound = tt }

  insert-IsValid :
      (m : Map String (Resource C)) (name : String) (r : Resource C)
      → Unique m × Values IsSound m
      → IsSound r
      → Unique (insert name r m) × Values IsSound (insert name r m)
  unfolding insert
  insert-IsValid m name r (u, v) h = (insert-Unique name r m u, (h, delete-Values IsSound name m v))

  delete-IsValid :
      (m : Map String (Resource C)) (name : String)
      → Unique m × Values IsSound m
      → Unique (delete name m) × Values IsSound (delete name m)
  delete-IsValid m name (u, v) = (delete-Unique name m u, delete-Values IsSound name m v)

  sweep_entries-IsSound :
      (m : Map String (Resource C)) → Values IsSound m → Values IsSound (sweep_entries m).0
  unfolding sweep_entries
  sweep_entries-IsSound [] v = tt
  sweep_entries-IsSound ((j, r) ∷ m) (h, v) = ground (arith, sweep_entries-IsSound m v)

  abbrev Kept : ResourceStore C → Type 0
  Kept s = Unique s.resources × Values IsSound s.resources

  blank-IsSound : IsSound blank
  unfolding blank
  blank-IsSound = ground arith

  pub entry-IsSound :
      (name : String) (m : Map String (Resource C))
      → Values IsSound m
      → IsSound (entry_or_blank (lookup name m))
  unfolding entry_or_blank
  entry-IsSound name m v = elim (Option-cases (lookup name m)) [
    | inl out ↦ rw (out, entry_or_blank) blank-IsSound
    | inr (r, found) ↦ rw (found, entry_or_blank) (lookup-Values IsSound name r m v found)
  ]

  put-Kept : (name id : String) (c : C) (s : ResourceStore C) → Kept s → Kept (put name id c s).0
  unfolding put
  put-Kept name id c s v = elim (Bool-cases (is_entry_put (lookup name s.resources))) [
    | inl taken ↦ rw taken v
    | inr free ↦ rw free (insert-IsValid s.resources name _ v (ground arith))
  ]

  get-Kept : (name : String) (s : ResourceStore C) → Kept s → Kept (get name s).0
  unfolding get fetch
  get-Kept name s v = ground (arith, delete-IsValid s.resources name v)

  watch-Kept : (name : String) (s : ResourceStore C) → Kept s → Kept (watcher_for_resource name s).0
  unfolding watcher_for_resource
  watch-Kept name s v = elim (Option-cases (lookup name s.resources)) [
    | inl out ↦
        rw (out, watcher_for_resource)
          (insert-IsValid s.resources name _ v (ground (arith, blank-IsSound)))
    | inr (r, found) ↦
        rw (found, watcher_for_resource)
          (insert-IsValid s.resources name _ v
            (ground (arith, lookup-Values IsSound name r s.resources v.1 found)))
  ]

  set_stage-Kept :
      (name stage : String) (s : ResourceStore C)
      → Kept s
      → Kept (set_stage_for_resource name stage s)
  unfolding set_stage_for_resource
  set_stage-Kept name stage s v = elim (Option-cases (lookup name s.resources)) [
    | inl out ↦
        rw (out, set_stage_for_resource)
          (insert-IsValid s.resources name _ v (ground (arith, blank-IsSound)))
    | inr (r, found) ↦
        rw (found, set_stage_for_resource)
          (insert-IsValid s.resources name _ v
            (ground (arith, lookup-Values IsSound name r s.resources v.1 found)))
  ]

  step-Kept : (s : ResourceStore C) (c : Call C) → Kept s → Kept (step s c)
  unfolding step delete_entry sweep close
  step-Kept s (puts name id c) v = put-Kept name id c s v
  step-Kept s (gets name) v = get-Kept name s v
  step-Kept s (deletes name) v = delete-IsValid s.resources name v
  step-Kept s (watches name) v = watch-Kept name s v
  step-Kept s (sets_stage name stage) v = set_stage-Kept name stage s v
  step-Kept s sweeps v =
      (sweep_entries-Unique s.resources v.0, sweep_entries-IsSound s.resources v.1)
  step-Kept s closes v = ground arith

  pub run-IsValid : (s : ResourceStore C) (cs : List (Call C)) → IsValid s → IsValid (run s cs)
  unfolding run
  run-IsValid s [] v = v
  run-IsValid s (c ∷ cs) v =
      let (u, w) = step-Kept s c (v.unique, v.sound) in
      run-IsValid (step s c) cs (record { unique = u; sound = w })
