-- ===== src/Stop/Machine.antt =====
-- Any number of StopContainer callers and the one stop loop, as a step relation: each step is one
-- critical section, or one move of the loop. A caller that has passed the check that the process is
-- living goes on to SetAsStopping and then, in a later step, to WaitOnStopTimeout.
pub mod Invariant
pub mod Exec
pub mod Faults
use cri_t.Prelude.{
  eqb, if◌then◌else◌, is_some, nat_eq, string_eq, contains, ℕ, Bool, true, false, ◌&&◌, ◌||◌,
  Option, none, some, List, [], ◌∷◌, ◌++◌,
}
use cri_t.Stop.{
  StopState, new_stop_state, returns, waits, blocks, panics, set_as_stopping, wait_on_stop_timeout,
  receive_timeout, set_as_done_stopping, add_exec_pid, delete_exec_pid,
}

-- The goroutine of StopLoopForContainer.
pub data Loop : Type 0 where
  not_started selecting_loop killing finished : Loop

pub record System : Type 0 where
  pub stop : StopState
  pub loop : Loop
  -- callers between SetAsStopping and WaitOnStopTimeout, and those that wait
  pub entering : List ℕ
  pub waiting : List ℕ
  -- the caller, if any, that holds the lock in a send on the full channel, and its timeout
  pub stuck : Option (ℕ × ℕ)
  -- the daemon has panicked
  pub crashed : Bool

unfoldable pub initial : System
unfolding new_stop_state
initial = record {
  stop = new_stop_state;
  loop = not_started;
  entering = [];
  waiting = [];
  stuck = none;
  crashed = false;
}

pub data Move : Type 0 where
  -- a caller passed `Living` and calls SetAsStopping; it starts the loop if that returns true
  marks : ℕ → Move
  -- a caller calls WaitOnStopTimeout with a timeout
  enters : ℕ → ℕ → Move
  -- the context of a waiting caller ends, and its call returns
  gives_up : ℕ → Move
  -- the loop receives a timeout, its timer fires, or it returns
  receives times_out ends : Move
  -- an exec session is registered or is over
  execs : ℕ → Bool → Move
  exec_ends : ℕ → Move

unfoldable pub without : ℕ → List ℕ → List ℕ
without i [] = []
without i (j ∷ js) = let rest = without i js in if eqb j i then rest else j ∷ rest

pub mark : ℕ → System → System
mark i s =
    let (t, first) = set_as_stopping s.stop in
    record s {
      stop = t;
      loop = if first then selecting_loop else s.loop;
      entering = i ∷ s.entering;
    }

pub enter : ℕ → ℕ → System → System
unfolding without
enter i timeout s = elim (wait_on_stop_timeout i timeout s.stop) [
  | returns t ↦ record s { stop = t; entering = without i s.entering }
  | waits t ↦ record s { stop = t; entering = without i s.entering; waiting = i ∷ s.waiting }
  | blocks ↦ record s { stuck = some (i, timeout) }
  | panics ↦ record s { crashed = true }
]

-- A send that was blocked goes through: the caller gets its watcher and gives the lock back.
pub unblock : Option (ℕ × ℕ) → System → System
unblock none s = s
unblock (some (i, timeout)) s = record s {
  stop = record s.stop {
    timeouts = s.stop.timeouts ++ timeout ∷ [];
    watchers = s.stop.watchers ++ i ∷ [];
  };
  entering = without i s.entering;
  waiting = i ∷ s.waiting;
  stuck = none;
}

pub receive : System → System
unfolding unblock
receive s = elim (receive_timeout s.stop) [
  | none ↦ s
  | some (t, u) ↦ unblock s.stuck (record s { stop = u })
]

pub end_loop : System → System
end_loop s = elim (set_as_done_stopping s.stop) [
  | returns t ↦ record s { stop = t; loop = finished }
  | waits t ↦ s
  | blocks ↦ s
  | panics ↦ record s { crashed = true }
]

abbrev on_loop : Loop → Move → System → System
on_loop selecting_loop receives s = receive s
on_loop selecting_loop times_out s = record s { loop = killing }
on_loop selecting_loop ends s = end_loop s
on_loop killing ends s = end_loop s
on_loop _ _ s = s

abbrev act : Move → System → System
act (marks i) s = mark i s
act (enters i timeout) s = if contains s.entering i then enter i timeout s else s
act (gives_up i) s = record s { waiting = without i s.waiting }
act (execs pid should_kill) s = record s { stop = (add_exec_pid pid should_kill s.stop).0 }
act (exec_ends pid) s = record s { stop = delete_exec_pid pid s.stop }
act m s = on_loop s.loop m s

-- While a caller holds the lock in a send, only the loop's receive and its timer can move, and
-- callers that wait can give up.
abbrev needs_lock : Move → Bool
needs_lock receives = false
needs_lock times_out = false
needs_lock (gives_up i) = false
needs_lock _ = true

unfoldable pub step : System → Move → System
unfolding mark enter receive end_loop
step s m = if s.crashed || is_some s.stuck && needs_lock m then s else act m s

unfoldable pub run : System → List Move → System
run s [] = s
run s (m ∷ ms) = run (step s m) ms
