-- ===== src/Stop/Machine/Faults.antt =====
-- How a stop ends: every waiting caller is released, and the two ways in which it can go wrong.
use cri_t.Prelude.{
  Bool-cases, is_some, length, ◌≤◌, inl, inr, All, nat_eq, string_eq, contains, ℕ, ◌≡◌, true, List,
  [], ◌∷◌, arith,
}
use cri_t.Stop.{timeout_capacity, StopState, wait_on_stop_timeout}
use cri_t.Stop.Machine.{
  killing, System, initial, Move, enters, gives_up, needs_lock, enter, step, run,
}
use cri_t.Stop.Machine.Invariant.{is_finished, Watched, run-initial-IsValid}

Watched-released :
    (waiting : List ℕ) (t : StopState)
    → t.watchers ≡ []
    → Watched waiting t
    → All (λ i. contains t.released i ≡ true) waiting
Watched-released [] t e h = tt
Watched-released (i ∷ is) t e h = (ground (arith, h.0), Watched-released is t e h.1)

-- When the stop loop is over, every caller that waits has been released, after any moves.
pub finished-released :
    (ms : List Move)
    → is_finished (run initial ms).loop ≡ true
    → All (λ i. contains (run initial ms).stop.released i ≡ true) (run initial ms).waiting
finished-released ms over =
    let v = run-initial-IsValid ms in
    Watched-released (run initial ms).waiting (run initial ms).stop (v.drained over) v.all_watched

-- A caller that found the process living, and enters the wait only when the stop loop is already
-- over, panics the daemon: it sends on the closed channel.
pub late_enter_crashes :
    (ms : List Move) (i timeout : ℕ)
    → is_finished (run initial ms).loop ≡ true
    → contains (run initial ms).entering i ≡ true
    → (step (run initial ms) (enters i timeout)).crashed ≡ true
unfolding step enter wait_on_stop_timeout
late_enter_crashes ms i timeout over here =
    let v = run-initial-IsValid ms in ground (arith, v.started, v.closing, v.blocked)

-- The loop sends SIGKILL and a caller is blocked in its send.
abbrev Halted : StopState → System → Type 0
Halted stop s = (s.loop ≡ killing) × (is_some s.stuck ≡ true) × (s.stop ≡ stop)

step-Halted : (stop : StopState) (s : System) (m : Move) → Halted stop s → Halted stop (step s m)
unfolding step
step-Halted stop s (gives_up i) h = ground (arith, h)
step-Halted stop s m h = elim (Bool-cases (needs_lock m)) [
  | inl locked ↦ ground (arith, h)
  | inr free ↦ ground (arith, h)
]

run-Halted :
    (stop : StopState) (s : System) (ms : List Move) → Halted stop s → Halted stop (run s ms)
unfolding run
run-Halted stop s [] h = h
run-Halted stop s (m ∷ ms) h = run-Halted stop (step s m) ms (step-Halted stop s m h)

enter-Halted :
    (ms : List Move) (i timeout : ℕ)
    → (run initial ms).loop ≡ killing
    → timeout_capacity ≤ length (run initial ms).stop.timeouts
    → contains (run initial ms).entering i ≡ true
    → Halted (run initial ms).stop (step (run initial ms) (enters i timeout))
unfolding step enter wait_on_stop_timeout
enter-Halted ms i timeout kills full here =
    let v = run-initial-IsValid ms in
    ground (arith, v.started, v.closing, v.safe, v.blocked, v.capped)

-- Once SIGKILL is being sent the loop no longer receives timeouts. A caller that then finds as many
-- buffered timeouts as the channel holds stops the stop for good: whatever moves follow, the loop
-- goes on killing and never ends, the set of the callers it has released stays the same, and no exec
-- session is registered or forgotten. A waiting caller returns only if its own context ends.
pub run-killing_stuck :
    (before after : List Move) (i timeout : ℕ)
    → (run initial before).loop ≡ killing
    → timeout_capacity ≤ length (run initial before).stop.timeouts
    → contains (run initial before).entering i ≡ true
    → let s = run (step (run initial before) (enters i timeout)) after in
      (s.loop ≡ killing) × (s.stop ≡ (run initial before).stop)
run-killing_stuck before after i timeout kills full here =
    let (still, held, same) =
      run-Halted (run initial before).stop (step (run initial before) (enters i timeout)) after
        (enter-Halted before i timeout kills full here) in
    (still, same)
