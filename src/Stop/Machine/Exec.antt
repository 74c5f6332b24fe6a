-- ===== src/Stop/Machine/Exec.antt =====
-- The exec sessions of a container that is being stopped.
use cri_t.Prelude.{
  Bool-cases, is_some, nat_eq, string_eq, ℕ, ◌≡◌, inl, inr, Bool, true, ◌&&◌, ◌||◌, some, List, [],
  ◌∷◌, arith,
}
use cri_t.Prelude.Maps.{lookup, lookup-delete}
use cri_t.Stop.{
  StopState, set_as_stopping, wait_on_stop_timeout, receive_timeout, set_as_done_stopping,
  add_exec_pid, delete_exec_pid,
}
use cri_t.Stop.Machine.{
  System, Move, marks, enters, exec_ends, mark, enter, unblock, receive, end_loop, act, needs_lock,
  step, run,
}

module _ (p : ℕ) (k : Bool) where
  -- The session is in the first map only if it is in the second.
  abbrev From : StopState → StopState → Type 0
  From t u = lookup p t.exec_pids ≡ some k → lookup p u.exec_pids ≡ some k

  act-stopping : (m : Move) (s : System) → s.stop.stopping ≡ true → (act m s).stop.stopping ≡ true
  unfolding mark set_as_stopping enter wait_on_stop_timeout receive receive_timeout end_loop
      set_as_done_stopping add_exec_pid delete_exec_pid unblock
  act-stopping (marks i) s h = ground arith
  act-stopping (enters i t) s h = ground arith
  act-stopping _ s h = ground arith

  act-exec_pids : (m : Move) (s : System) → s.stop.stopping ≡ true → From (act m s).stop s.stop
  unfolding mark set_as_stopping enter wait_on_stop_timeout receive receive_timeout end_loop
      set_as_done_stopping add_exec_pid delete_exec_pid unblock
  act-exec_pids (marks i) s h f = ground arith
  act-exec_pids (exec_ends pid) s h f = ground (arith, lookup-delete pid p s.stop.exec_pids)
  act-exec_pids (enters i t) s h f = ground arith
  act-exec_pids _ s h f = ground arith

  step-stopping : (m : Move) (s : System) → s.stop.stopping ≡ true → (step s m).stop.stopping ≡ true
  unfolding step
  step-stopping m s h = elim (Bool-cases (s.crashed || is_some s.stuck && needs_lock m)) [
    | inl idle ↦ rw idle h
    | inr moves ↦ rw moves (act-stopping m s h)
  ]

  step-exec_pids : (m : Move) (s : System) → s.stop.stopping ≡ true → From (step s m).stop s.stop
  unfolding step
  step-exec_pids m s h = elim (Bool-cases (s.crashed || is_some s.stuck && needs_lock m)) [
    | inl idle ↦ rw idle (λ f. f)
    | inr moves ↦ rw moves (act-exec_pids m s h)
  ]

  -- Once a container is marked as stopping, no moves register an exec session: what is tracked
  -- afterwards, with its way to be killed, was tracked before.
  pub run-exec_pids :
      (ms : List Move) (s : System)
      → s.stop.stopping ≡ true
      → lookup p (run s ms).stop.exec_pids ≡ some k
      → lookup p s.stop.exec_pids ≡ some k
  unfolding run
  run-exec_pids [] s h f = f
  run-exec_pids (m ∷ ms) s h f =
      step-exec_pids m s h (run-exec_pids ms (step s m) (step-stopping m s h) f)
