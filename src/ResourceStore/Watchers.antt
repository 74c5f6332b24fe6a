-- ===== src/ResourceStore/Watchers.antt =====
-- Who is notified: a channel of capacity 1 is enough for each watcher, since no history sends to it
-- twice, and a watcher that stands at a placeholder is notified by the Put that fills it.
use cri_t.Prelude.{
  ltb, if◌then◌else◌, Option-cases, ◌==◌, nat_eq, string_eq, ℕ, suc, ◌+◌, ◌≤◌, String, ◌≡◌, inl,
  inr, false, Option, none, some, List, [], ◌∷◌, ◌++◌, arith,
}
use cri_t.Prelude.Maps.{Map, lookup, delete, insert, map_laws}
use cri_t.ResourceStore.History.{
  Call, puts, gets, deletes, watches, sets_stage, sweeps, closes, step, run,
}
use cri_t.ResourceStore.{
  Resource, ResourceStore, new_store, close, was_put, blank, entry_or_blank, is_entry_put, put,
  fetch, get, delete_entry, watcher_for_resource, set_stage_for_resource, sweep_entries, sweep,
}

abbrev pub count : ℕ → List ℕ → ℕ
count w [] = 0
count w (v ∷ vs) = let rest = count w vs in if v == w then suc rest else rest

count-append : (w : ℕ) (vs us : List ℕ) → count w (vs ++ us) ≡ count w vs + count w us
count-append w [] us = omega arith
count-append w (v ∷ vs) us = ground (arith, count-append w vs us)

module _ {C : Type 0} where
  -- How often `w` stands among the watchers of an entry that a Put would notify.
  abbrev pub waiting : ℕ → Resource C → ℕ
  waiting w r = if was_put r then 0 else count w r.watchers

  abbrev pub waiting_at : ℕ → Option (Resource C) → ℕ
  waiting_at w none = 0
  waiting_at w (some r) = waiting w r

  pub pending : ℕ → Map String (Resource C) → ℕ
  pending w [] = 0
  pending w ((k, r) ∷ m) = waiting w r + pending w m

  pending-delete :
      (w : ℕ) (k : String) (m : Map String (Resource C))
      → pending w (delete k m) + waiting_at w (lookup k m) ≤ pending w m
  unfolding pending delete lookup
  pending-delete w k [] = omega arith
  pending-delete w k ((j, r) ∷ m) = ground (arith, pending-delete w k m)

  pending-insert :
      (w : ℕ) (k : String) (r : Resource C) (m : Map String (Resource C))
      → pending w (insert k r m) + waiting_at w (lookup k m) ≤ waiting w r + pending w m
  unfolding pending insert
  pending-insert w k r m = omega (arith, pending-delete w k m)

  pending-sweep_entries :
      (w : ℕ) (m : Map String (Resource C)) → pending w (sweep_entries m).0 ≤ pending w m
  unfolding pending sweep_entries
  pending-sweep_entries w [] = omega arith
  pending-sweep_entries w ((j, r) ∷ m) = ground (arith, pending-sweep_entries w m)

  -- A channel that was made is sent to, or waits to be sent to, at most once; others never.
  pub record IsOnce (s : ResourceStore C) : Type 0 where
    pub bounded :
        (w : ℕ) → count w s.sends + pending w s.resources ≤ (if ltb w s.next_watcher then 1 else 0)

  pub new_store-IsOnce : IsOnce new_store
  unfolding new_store pending
  new_store-IsOnce = record { bounded = λ w. omega arith }

  put-IsOnce :
      (name id : String) (c : C) (s : ResourceStore C) → IsOnce s → IsOnce (put name id c s).0
  unfolding put entry_or_blank blank
  put-IsOnce name id c s v = record {
    bounded = λ w. ground (
      arith,
      v.bounded w,
      count-append w s.sends (entry_or_blank (lookup name s.resources)).watchers,
      pending-insert w name
          (record (entry_or_blank (lookup name s.resources)) {
            resource = some id;
            cleaner = some c;
            name = name;
          })
          s.resources,
    );
  }

  get-IsOnce : (name : String) (s : ResourceStore C) → IsOnce s → IsOnce (get name s).0
  unfolding get fetch
  get-IsOnce name s v = record {
    bounded = λ w. ground (arith, v.bounded w, pending-delete w name s.resources);
  }

  watch-IsOnce :
      (name : String) (s : ResourceStore C) → IsOnce s → IsOnce (watcher_for_resource name s).0
  unfolding watcher_for_resource blank
  watch-IsOnce name s v = elim (Option-cases (lookup name s.resources)) [
    | inl out ↦
        rw (out, watcher_for_resource)
          (record {
            bounded = λ w. ground (
              arith,
              v.bounded w,
              pending-insert w name (record blank { watchers = s.next_watcher ∷ []; name = name })
                  s.resources,
            );
          })
    | inr (r, found) ↦
        rw (found, watcher_for_resource)
          (record {
            bounded = λ w. ground (
              arith,
              v.bounded w,
              count-append w r.watchers (s.next_watcher ∷ []),
              pending-insert w name (record r { watchers = r.watchers ++ s.next_watcher ∷ [] })
                  s.resources,
            );
          })
  ]

  set_stage-IsOnce :
      (name stage : String) (s : ResourceStore C)
      → IsOnce s
      → IsOnce (set_stage_for_resource name stage s)
  unfolding set_stage_for_resource blank
  set_stage-IsOnce name stage s v = elim (Option-cases (lookup name s.resources)) [
    | inl out ↦
        rw (out, set_stage_for_resource)
          (record {
            bounded = λ w. ground (
              arith,
              v.bounded w,
              pending-insert w name (record blank { name = name; stage = stage }) s.resources,
            );
          })
    | inr (r, found) ↦
        rw (found, set_stage_for_resource)
          (record {
            bounded = λ w. ground (
              arith,
              v.bounded w,
              pending-insert w name (record r { stage = stage }) s.resources,
            );
          })
  ]

  pub step-IsOnce : (s : ResourceStore C) (c : Call C) → IsOnce s → IsOnce (step s c)
  unfolding step put get fetch delete_entry watcher_for_resource set_stage_for_resource sweep close
  step-IsOnce s (puts name id c) v = put-IsOnce name id c s v
  step-IsOnce s (gets name) v = get-IsOnce name s v
  step-IsOnce s (deletes name) v = record {
    bounded = λ w. omega (arith, v.bounded w, pending-delete w name s.resources);
  }
  step-IsOnce s (watches name) v = watch-IsOnce name s v
  step-IsOnce s (sets_stage name stage) v = set_stage-IsOnce name stage s v
  step-IsOnce s sweeps v = record {
    bounded = λ w. omega (arith, v.bounded w, pending-sweep_entries w s.resources);
  }
  step-IsOnce s closes v = record { bounded = λ w. ground (arith, v.bounded w) }

  pub run-IsOnce : (s : ResourceStore C) (cs : List (Call C)) → IsOnce s → IsOnce (run s cs)
  unfolding run
  run-IsOnce s [] v = v
  run-IsOnce s (c ∷ cs) v = run-IsOnce (step s c) cs (step-IsOnce s c v)

  -- From a new store, whatever is put, fetched, deleted, watched and swept, no watcher's channel is
  -- sent to twice. Its capacity is 1, so no send under the lock waits for a reader.
  pub run-sends-le : (cs : List (Call C)) (w : ℕ) → count w (run new_store cs).sends ≤ 1
  run-sends-le cs w = ground (arith, (run-IsOnce new_store cs new_store-IsOnce).bounded w)

  -- A watcher that is asked for a name under which nothing was put is notified, exactly once, by the
  -- Put that comes next under that name; and that Put succeeds.
  pub watch-put-notifies :
      (name id : String) (c : C) (s : ResourceStore C)
      → IsOnce s
      → is_entry_put (lookup name s.resources) ≡ false
      → let (t, w, stage) = watcher_for_resource name s in
        ((put name id c t).1 ≡ none) × (count w (put name id c t).0.sends ≡ 1)
  unfolding watcher_for_resource put blank entry_or_blank
  watch-put-notifies name id c s v h = elim (Option-cases (lookup name s.resources)) [
    | inl out ↦
        rw (out, watcher_for_resource)
          (simp map_laws (
            ground (
              arith,
              v.bounded s.next_watcher,
              count-append s.next_watcher s.sends (s.next_watcher ∷ []),
            )))
    | inr (r, found) ↦
        rw (found, watcher_for_resource)
          (simp map_laws (
            ground (
              arith,
              v.bounded s.next_watcher,
              pending-delete s.next_watcher name s.resources,
              count-append s.next_watcher s.sends (r.watchers ++ s.next_watcher ∷ []),
              count-append s.next_watcher r.watchers (s.next_watcher ∷ []),
            )))
  ]
