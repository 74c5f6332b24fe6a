-- ===== src/Stop.antt =====
-- How a container is stopped: SetAsStopping, WaitOnStopTimeout, SetAsDoneStopping, AddExecPID and
-- DeleteExecPID of internal/oci/container.go, and StopContainer and StopLoopForContainer of
-- internal/oci/runtime_oci.go.
-- The methods of the container are critical sections under `stopLock`; each is one step here. A
-- waiter is the number of its channel. Times are nanoseconds, timeouts are int64 seconds as their
-- bit patterns below 2 ^ 64.
pub mod Deadline
pub mod Machine
pub mod ExecPids
mod Examples
use cri_t.Prelude.{
  ltb, if◌then◌else◌, length, nat_eq, string_eq, ℕ, Bool, true, false, not, Option, none, some,
  List, [], ◌∷◌, ◌++◌,
}
use cri_t.Prelude.Maps.{Map, delete, insert}

-- make(chan int64, 10)
abbrev pub timeout_capacity : ℕ
timeout_capacity = 10

pub record StopState : Type 0 where
  pub stopping : Bool
  -- stopTimeoutChan: what is buffered, oldest first, and whether it is closed
  pub timeouts : List ℕ
  pub closed : Bool
  -- stopWatchers, and the watchers that were closed
  pub watchers : List ℕ
  pub released : List ℕ
  pub exec_pids : Map ℕ Bool

unfoldable pub new_stop_state : StopState
new_stop_state = record {
  stopping = false;
  timeouts = [];
  closed = false;
  watchers = [];
  released = [];
  exec_pids = [];
}

-- What a call does before it returns or waits: `panics` is Go's panic on a closed channel, `blocks`
-- a send on a full channel, during which the caller holds `stopLock`.
pub data Entered : Type 0 where
  returns waits : StopState → Entered
  blocks panics : Entered

unfoldable pub set_as_stopping : StopState → StopState × Bool
set_as_stopping s = if s.stopping then (s, false) else (record s { stopping = true }, true)

-- Up to the `select`: `watcher` is the channel that is made.
unfoldable pub wait_on_stop_timeout : ℕ → ℕ → StopState → Entered
wait_on_stop_timeout watcher timeout s =
    if not s.stopping
    then returns s
    else if s.closed
    then panics
    else if ltb (length s.timeouts) timeout_capacity
    then waits
        (record s { timeouts = s.timeouts ++ timeout ∷ []; watchers = s.watchers ++ watcher ∷ [] })
    else blocks

-- The loop's receive from stopTimeoutChan; `none` where nothing is buffered.
unfoldable pub receive_timeout : StopState → Option (ℕ × StopState)
receive_timeout s = elim s.timeouts [
  | [] ↦ none
  | t ∷ rest ↦ some (t, record s { timeouts = rest })
]

unfoldable pub set_as_done_stopping : StopState → Entered
set_as_done_stopping s =
    if s.closed
    then panics
    else returns (record s { released = s.released ++ s.watchers; watchers = []; closed = true })

pub data ExecError : Type 0 where
  container_is_stopping : ExecError

unfoldable pub add_exec_pid : ℕ → Bool → StopState → StopState × Option ExecError
add_exec_pid pid should_kill s =
    if s.stopping
    then (s, some container_is_stopping)
    else (record s { exec_pids = insert pid should_kill s.exec_pids }, none)

unfoldable pub delete_exec_pid : ℕ → StopState → StopState
delete_exec_pid pid s = record s { exec_pids = delete pid s.exec_pids }
