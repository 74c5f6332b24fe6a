-- ===== src/Container.antt =====
-- internal/oci/container.go: the data of a container and the operations on its state. Times are
-- nanoseconds, `none` the zero time; PIDs are not negative. What the kernel, the disk and the OCI
-- runtime answer are arguments.
pub mod Pid
pub mod Refresh
mod Examples
use cri_t.Prelude.{
  eqb, if◌then◌else◌, ◌==◌, nat_eq, string_eq, Result, ok, err, ℕ, String, Bool, true, false, ◌&&◌,
  ◌||◌, not, Option, none, some,
}

-- The `status` string: the four that the code names, and any other text.
pub data Status : Type 0 where
  created running paused stopped : Status
  other_status : String → Status

pub record ContainerState : Type 0 where
  pub status : Status
  pub pid : ℕ
  pub created_at : Option ℕ
  pub started : Option ℕ
  pub finished : Option ℕ
  pub exit_code : Option ℕ
  pub oom_killed : Bool
  pub error : String
  pub init_pid : ℕ
  pub init_start_time : String

-- types.ContainerState of the CRI
pub data CriState : Type 0 where
  container_created container_running container_exited container_unknown : CriState

pub record Container : Type 0 where
  pub id : String
  pub sandbox : String
  pub name : String
  pub cri_state : CriState
  pub state : ContainerState
  pub is_created : Bool
  pub spoofed : Bool

pub data ContainerError : Type 0 where
  container_stopped not_found not_initialized : ContainerError
  already_initialized pid_wrap : ContainerError
  os_error : String → ContainerError

-- An error value of the operating system, or nil.
abbrev pub OsResult : Type 0 → Type 0
OsResult A = Result ContainerError A

unfoldable pub empty_state : ContainerState
empty_state = record {
  status = other_status "";
  pid = 0;
  created_at = none;
  started = none;
  finished = none;
  exit_code = none;
  oom_killed = false;
  error = "";
  init_pid = 0;
  init_start_time = "";
}

unfoldable pub new_container : String → String → String → ℕ → Container
unfolding empty_state
new_container id name sandbox now = record {
  id = id;
  sandbox = sandbox;
  name = name;
  cri_state = container_created;
  state = record empty_state { created_at = some now };
  is_created = false;
  spoofed = false;
}

unfoldable pub new_spoofed_container : String → String → String → ℕ → Container
unfolding empty_state
new_spoofed_container id name sandbox now = record {
  id = id;
  sandbox = sandbox;
  name = name;
  cri_state = container_created;
  state = record empty_state { created_at = some now; started = some now };
  is_created = false;
  spoofed = true;
}

-- The state that a status is reported as.
unfoldable pub cri_status : Status → CriState
cri_status created = container_created
cri_status running = container_running
cri_status paused = container_running
cri_status stopped = container_exited
cri_status (other_status s) = container_unknown

-- CRIContainer: the message that is returned, and is kept for the next call.
unfoldable pub cri_container : Container → Container
unfolding cri_status
cri_container c = record c { cri_state = cri_status c.state.status }

unfoldable pub set_created : Container → Container
set_created c = record c { is_created = true }

-- `message` is err.Error(), `none` where err is nil.
unfoldable pub set_start_failed : Option String → Container → Container
set_start_failed message c = record c {
  state = record c.state {
    finished = c.state.created_at;
    started = c.state.created_at;
    error = elim message [ none ↦ c.state.error | some e ↦ e ];
  };
}

-- SetInitPid keeps the PID that it wrote also where the start time cannot be read.
unfoldable pub set_init_pid :
    ℕ → OsResult String → ContainerState → ContainerState × Option ContainerError
set_init_pid pid start_time s =
    if not (eqb s.init_pid 0) || not (s.init_start_time == "")
    then (s, some already_initialized)
    else elim start_time [
      | ok t ↦ (record s { init_pid = pid; init_start_time = t }, none)
      | err e ↦ (record s { init_pid = pid }, some e)
    ]

-- A state file from before InitPid was recorded.
is_upgrade : ContainerState → Bool
is_upgrade s = eqb s.init_pid 0 && s.init_start_time == "" && not (eqb s.pid 0)

abbrev adopt :
    Container → ContainerState × Option ContainerError → Container × Option ContainerError
adopt c (s, none) = (record c { state = s }, none)
adopt c (s, some e) = (c, some e)

-- FromDisk: `file` is the decoded state file, `start_time` what the kernel says of its Pid.
unfoldable pub from_disk :
    OsResult ContainerState → OsResult String → Container → Container × Option ContainerError
unfolding is_upgrade set_init_pid
from_disk (err e) start_time c = (c, some e)
from_disk (ok saved) start_time c =
    adopt c (if is_upgrade saved then set_init_pid saved.pid start_time saved else (saved, none))

unfoldable pub is_infra : Container → Bool
is_infra c = c.id == c.sandbox
