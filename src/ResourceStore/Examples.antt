-- ===== src/ResourceStore/Examples.antt =====
-- Runs of the store and of a cleaner, and the theorems at concrete inputs.
use cri_t.Prelude.{
  ltb, if◌then◌else◌, All, string_eq, nat_eq, ok, err, ℕ, zero, suc, ◌+◌, ◌≤◌, String, ◌≡◌, refl,
  false, none, some, List, [], ◌∷◌, arith,
}
use cri_t.Prelude.Maps.{lookup, delete, insert}
use cri_t.ResourceStore.{
  Resource, ResourceStore, new_store, is_entry_put, put, get, watcher_for_resource,
  set_stage_for_resource, sweep,
}
use cri_t.ResourceStore.History.{Call, puts, watches, sets_stage, sweeps, step, run}
use cri_t.ResourceStore.Watchers.{count, IsOnce, new_store-IsOnce, run-IsOnce, run-sends-le}
use cri_t.ResourceStore.Sweep.{IsValid, new_store-IsValid, run-IsValid}
use cri_t.ResourceStore.Lifetime.{IsReapable, sweep-IsReapable, In, put-sweep-sweep}
use cri_t.ResourceStore.Cleaner.{Func, BackoffFunc, IsBackoff, Fails}

-- A creation that is watched and staged before it completes, while another one waits.
abbrev slow_creation : List (Call ℕ)
slow_creation = watches "a" ∷ sets_stage "a" "pulling" ∷ puts "b" "b1" 7 ∷ sweeps ∷ watches "a" ∷ []

slow : ResourceStore ℕ
slow = run new_store slow_creation

notified : (step slow (puts "a" "a1" 8)).sends ≡ 0 ∷ 1 ∷ []
unfolding slow run step new_store watcher_for_resource set_stage_for_resource put sweep lookup
    insert delete
notified = refl

fetched_too_late : (get "b" (run slow (sweeps ∷ []))).1 ≡ ""
unfolding slow run step new_store watcher_for_resource set_stage_for_resource put sweep lookup
    insert delete get
fetched_too_late = refl

slow-IsOnce : IsOnce slow
unfolding slow
slow-IsOnce = run-IsOnce new_store slow_creation new_store-IsOnce

slow-IsValid : IsValid slow
unfolding slow
slow-IsValid = run-IsValid new_store slow_creation new_store-IsValid

slow_free : is_entry_put (lookup "a" slow.resources) ≡ false
unfolding slow run step new_store watcher_for_resource set_stage_for_resource put sweep lookup
    insert delete
slow_free = refl

run-sends-le_example : count 0 (run new_store slow_creation).sends ≤ 1
run-sends-le_example = run-sends-le slow_creation 0

sweep-IsReapable_example : All IsReapable (sweep (run new_store slow_creation)).1
sweep-IsReapable_example = sweep-IsReapable slow_creation

put-sweep-sweep_example :
    let once = (sweep (put "a" "a1" 8 slow).0).0 in
    let twice = sweep once in
    ((get "a" once).1 ≡ "a1")
    × ((get "a" twice.0).1 ≡ "")
    × ((r : Resource ℕ) × In r twice.1 × (r.resource ≡ some "a1") × (r.cleaner ≡ some 8))
put-sweep-sweep_example = put-sweep-sweep "a" "a1" 8 slow slow-IsValid slow_free

-- A backoff that does what the documentation says.
backoff_loop : {W E : Type 0} → E → BackoffFunc W E
backoff_loop timeout zero condition w = (some timeout, w)
backoff_loop timeout (suc n) condition w =
    let (answer, w') = condition w in
    let rest = backoff_loop timeout n condition w' in
    elim answer [ ok done ↦ if done then (none, w') else rest | err e ↦ (some e, w') ]

backoff_loop-IsBackoff : IsBackoff (backoff_loop {W = ℕ} {E = String} "timeout") "timeout"
unfolding backoff_loop
backoff_loop-IsBackoff = record {
  done = λ n condition w h. ground arith;
  again = λ n condition w h. ground arith;
  last = λ condition w h. ground arith;
}

-- Fails until the world counts 2.
third_time : Func ℕ String
third_time n = (if ltb n 2 then some "busy" else none, n + 1)

always_busy : Func ℕ String
always_busy n = (some "busy", n + 1)

always_busy-Fails : (n w : ℕ) → Fails n always_busy w
unfolding always_busy
always_busy-Fails zero w = tt
always_busy-Fails (suc n) w = (refl, always_busy-Fails n (w + 1))
