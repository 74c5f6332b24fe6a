-- ===== src/Stop/Examples.antt =====
-- Runs of the stop machine, and the theorems at concrete inputs.
use cri_t.Prelude.{
  eqb, if◌then◌else◌, All, string_eq, nat_eq, contains, ℕ, zero, suc, ◌+◌, ◌≡◌, refl, ◌↔◌, Bool,
  true, false, ◌&&◌, some, List, [], ◌∷◌, ◌++◌, arith,
}
use cri_t.Prelude.Maps.{Map, lookup, delete, insert}
use cri_t.Stop.{
  set_as_stopping, wait_on_stop_timeout, receive_timeout, set_as_done_stopping, add_exec_pid,
}
use cri_t.Stop.Deadline.{
  seconds, new_target_time, LoopEvent, new_timeout, timer_fired, selecting, kills, select_loop,
  deadlines, Reached, select_loop-kills,
}
use cri_t.Stop.ExecPids.{
  Signal, sigint, sigkill, delivered, refused, Kill, is_refused, kill_exec_pids, due,
  kill_exec_pids_total,
}
use cri_t.Stop.Machine.{
  killing, System, initial, Move, marks, enters, gives_up, receives, times_out, ends, execs, step,
  run,
}
use cri_t.Stop.Machine.Invariant.{is_finished, IsValid, run-initial-IsValid}
use cri_t.Stop.Machine.Exec.{run-exec_pids}
use cri_t.Stop.Machine.Faults.{finished-released, late_enter_crashes, run-killing_stuck}

-- Two timeouts come in, 30 s and then 10 s, and the timer fires 10 s after the second.
abbrev impatient : List LoopEvent
impatient =
    new_timeout 1000 30 ∷ new_timeout 2000 10 ∷ timer_fired 5000 ∷ timer_fired 10000002000 ∷ []

impatient_kills : select_loop 31536000000000000 impatient ≡ kills 10000002000
unfolding select_loop new_target_time seconds
impatient_kills = refl

-- The int64 product of ten billion seconds in nanoseconds is negative: the deadline is past.
ten_billion_seconds : new_target_time 1700000000000000000 10000000000 ≡ 0
unfolding new_target_time seconds
ten_billion_seconds = refl

-- The same timeouts before the timer fires for the last time, while the loop still selects.
abbrev awaited : List LoopEvent
awaited = new_timeout 1000 30 ∷ new_timeout 2000 10 ∷ timer_fired 5000 ∷ []

awaited_selects : select_loop 31536000000000000 awaited ≡ selecting 10000002000
unfolding select_loop new_target_time seconds
awaited_selects = refl

select_loop-kills_example :
    (select_loop 31536000000000000 impatient ≡ kills 10000002000)
    ↔ Reached 10000002000 (31536000000000000 ∷ deadlines awaited)
select_loop-kills_example =
    select_loop-kills awaited 31536000000000000 10000002000 10000002000
      (omega arith, (omega arith, tt)) awaited_selects

abbrev two_callers : List Move
two_callers = execs 7 true ∷ marks 1 ∷ marks 2 ∷ enters 1 30 ∷ receives ∷ ends ∷ []

two_callers_finish : is_finished (run initial two_callers).loop ≡ true
unfolding run step initial set_as_stopping wait_on_stop_timeout receive_timeout set_as_done_stopping
    add_exec_pid insert delete
two_callers_finish = refl

two_enters : contains (run initial two_callers).entering 2 ≡ true
unfolding run step initial set_as_stopping wait_on_stop_timeout receive_timeout set_as_done_stopping
    add_exec_pid insert delete
two_enters = refl

run-initial-IsValid_example : IsValid (run initial two_callers)
run-initial-IsValid_example = run-initial-IsValid two_callers

finished-released_example :
    All
      (λ i. contains (run initial two_callers).stop.released i ≡ true)
      (run initial two_callers).waiting
finished-released_example = finished-released two_callers two_callers_finish

late_enter_crashes_example : (step (run initial two_callers) (enters 2 30)).crashed ≡ true
late_enter_crashes_example = late_enter_crashes two_callers 2 30 two_callers_finish two_enters

marks_up_to : ℕ → List Move → List Move
marks_up_to zero rest = rest
marks_up_to (suc n) rest = marks n ∷ marks_up_to n rest

enters_up_to : ℕ → List Move → List Move
enters_up_to zero rest = rest
enters_up_to (suc n) rest = enters n 30 ∷ enters_up_to n rest

-- Ten callers have entered before SIGKILL is sent, and an eleventh is about to.
abbrev crowded : List Move
unfolding marks_up_to enters_up_to
crowded = marks 10 ∷ marks_up_to 10 (enters_up_to 10 (times_out ∷ []))

run-killing_stuck_example :
    (run (step (run initial crowded) (enters 10 30)) (ends ∷ receives ∷ gives_up 3 ∷ [])).loop
    ≡ killing
unfolding run step initial set_as_stopping wait_on_stop_timeout crowded
run-killing_stuck_example =
    (run-killing_stuck crowded (ends ∷ receives ∷ gives_up 3 ∷ []) 10 30 refl (omega arith) refl).0

abbrev before_stop : System
before_stop = run initial (execs 7 true ∷ marks 1 ∷ [])

run-exec_pids_example : lookup 7 before_stop.stop.exec_pids ≡ some true
unfolding run step initial set_as_stopping add_exec_pid insert delete lookup wait_on_stop_timeout
run-exec_pids_example =
    run-exec_pids 7 true (execs 8 false ∷ enters 1 30 ∷ []) before_stop refl refl

-- The first round is refused for PID 7, the second is delivered.
slow_kernel : ℕ → Kill
slow_kernel round pid sig = if eqb round 0 && eqb pid 7 then refused else delivered

tracked : Map ℕ Bool
tracked = (7, true) ∷ (0, true) ∷ (9, false) ∷ []

kill_exec_pids_runs :
    kill_exec_pids 2 slow_kernel 0 tracked ≡ some ((7, sigkill) ∷ (9, sigint) ∷ (7, sigkill) ∷ [])
unfolding kill_exec_pids slow_kernel tracked
kill_exec_pids_runs = refl

slow_kernel_grants : (pid : ℕ) (sig : Signal) → is_refused (slow_kernel (0 + 1) pid sig) ≡ false
unfolding slow_kernel
slow_kernel_grants pid sig = ground arith

kill_exec_pids_total_example :
    (later : List (ℕ × Signal)) × (kill_exec_pids 2 slow_kernel 0 tracked
      ≡ some (due tracked ++ later))
kill_exec_pids_total_example = kill_exec_pids_total 1 slow_kernel 0 tracked slow_kernel_grants
