-- ===== src/Container/Pid.antt =====
-- `pid`, `verifyPid`, `Living` and `ProcessState` of internal/oci/container.go: is the process that
-- has the PID of the container still the container's?
use cri_t.Prelude.{
  eqb, if◌then◌else◌, Bool-cases, ◌==◌, nat_eq, string_eq, ==_iff, ==_refl, ok, err, ◌>>=◌, ◌>>◌,
  Result-cases, ℕ, ◌<◌, String, ◌≡◌, ◌≢◌, ◌↔◌, ◌⊎◌, inl, inr, Bool, true, false, ◌||◌, Option, none,
  some, arith,
}
use cri_t.Container.{
  stopped, ContainerState, Container, ContainerError, not_found, not_initialized, pid_wrap,
  os_error, OsResult,
}

-- What the kernel says of a process: the answer to signal 0, and /proc/PID/stat.
pub record Kernel : Type 0 where
  -- unix.Kill(pid, 0): nil, ESRCH or another error
  pub probe : ℕ → Option (Option String)
  -- the process state and the start time of getPidStatData
  pub stat : ℕ → OsResult (String × String)

verify_pid : Kernel → ContainerState → OsResult String
verify_pid k s = do
  found ← k.stat s.init_pid
  if s.init_start_time == found.1 then ok found.0 else err pid_wrap

-- nil, ESRCH and other errors of the probe
abbrev pub no_such_process : Option (Option String)
no_such_process = some none

check_probe : Option (Option String) → OsResult (Unit {0})
check_probe none = ok tt
check_probe (some none) = err not_found
check_probe (some (some message)) = err (os_error message)

-- runtimes treat dead and defunct processes as gone
unfoldable pub is_gone : String → Bool
is_gone state = state == "X" || state == "Z"

unfoldable pub pid : Kernel → ContainerState → OsResult (ℕ × String)
unfolding verify_pid check_probe is_gone
pid k s =
    if eqb s.init_pid 0 then err not_initialized else if eqb s.pid 0 then err not_found else do
      check_probe (k.probe s.init_pid)
      state ← verify_pid k s
      if is_gone state then err not_found else ok (s.init_pid, state)

unfoldable pub living : Kernel → ContainerState → Option ContainerError
living k s = elim (pid k s) [ ok found ↦ none | err e ↦ some e ]

unfoldable pub process_state : Kernel → ContainerState → OsResult String
process_state k s = do found ← pid k s; ok found.1

-- The container's process: both PIDs are set, the kernel answers for the PID, with the start time
-- that was saved, and it is neither dead nor defunct.
pub record IsAlive (k : Kernel) (s : ContainerState) (state : String) : Type 0 where
  pub initialized : 0 < s.init_pid
  pub running_pid : 0 < s.pid
  pub answers : k.probe s.init_pid ≡ none
  pub same_process : k.stat s.init_pid ≡ ok (state, s.init_start_time)
  pub not_dead : state ≢ "X"
  pub not_zombie : state ≢ "Z"

pid→IsAlive :
    (k : Kernel) (s : ContainerState) (p : ℕ) (state : String)
    → pid k s ≡ ok (p, state)
    → (p ≡ s.init_pid) × IsAlive k s state
unfolding pid
pid→IsAlive k s p state h = elim (Result-cases (k.stat s.init_pid)) [
  | inl (found, e) ↦ ground (
    arith,
    ==_iff s.init_start_time found.1,
    ==_iff found.0 "X",
    ==_iff found.0 "Z",
    ==_refl {K = String} "X",
    ==_refl {K = String} "Z",
  )
  | inr (e, failed) ↦ ground arith
]

IsAlive→pid :
    (k : Kernel) (s : ContainerState) (state : String)
    → IsAlive k s state
    → pid k s ≡ ok (s.init_pid, state)
unfolding pid
IsAlive→pid k s state v =
    ground (arith, ==_refl s.init_start_time, ==_iff state "X", ==_iff state "Z")

-- A PID and a process state are returned exactly when the PID is the container's init PID, which is
-- positive, the runtime's PID is positive too, and the process is the container's: it answers
-- signal 0, its start time is the saved one, and it is neither dead (X) nor a zombie (Z).
pub pid_iff :
    (k : Kernel) (s : ContainerState) (p : ℕ) (state : String)
    → (pid k s ≡ ok (p, state)) ↔ ((p ≡ s.init_pid) × IsAlive k s state)
pid_iff k s p state = (pid→IsAlive k s p state, λ (e, v). rw e (IsAlive→pid k s state v))

-- A container that has stopped in the runtime, or whose PID another process took over, is not
-- living, whatever else the kernel says.
pub living_gone :
    (k : Kernel) (s : ContainerState)
    → (s.pid ≡ 0)
      ⊎ ((state : String) × (t : String) × (k.stat s.init_pid ≡ ok (state, t))
          × (t ≢ s.init_start_time))
    → living k s ≢ none
unfolding living pid
living_gone k s (inl dead) = ground arith
living_gone k s (inr (state, t, e, other)) = ground (arith, ==_iff s.init_start_time t)

-- The start of StopContainer: the container as it is left, and whether the stop loop is needed.
unfoldable pub begin_stop : Kernel → ℕ → Container → Container × Bool
begin_stop k now c =
    if c.spoofed
    then (record c { state = record c.state { status = stopped; finished = some now } }, false)
    else elim (living k c.state) [
      | some e ↦ (record c { state = record c.state { finished = some now } }, false)
      | none ↦ (c, true)
    ]

-- StopContainer goes on to signal a process exactly for a container that is not spoofed and whose
-- process is alive; any other container gets a finish time and keeps its PID.
pub begin_stop-signals :
    (k : Kernel) (now : ℕ) (c : Container)
    → ((begin_stop k now c).1 ≡ true)
        × (c.spoofed ≡ false)
        × ((state : String) × IsAlive k c.state state)
      ⊎ ((begin_stop k now c).1 ≡ false)
        × ((begin_stop k now c).0.state.finished ≡ some now)
        × ((begin_stop k now c).0.state.pid ≡ c.state.pid)
unfolding begin_stop living
begin_stop-signals k now c = elim (Bool-cases c.spoofed) [
  | inl fake ↦ inr (ground arith, ground arith, ground arith)
  | inr real ↦ elim (Result-cases (pid k c.state)) [
    | inl ((p, state), alive) ↦
        inl (ground arith, real, (state, ((pid_iff k c.state p state).0 alive).1))
    | inr (e, dead) ↦ inr (ground arith, ground arith, ground arith)
  ]
]
