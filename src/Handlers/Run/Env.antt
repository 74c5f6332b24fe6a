-- ===== src/Handlers/Run/Env.antt =====
-- What a request of RunPodSandbox is given and what the calls out of the daemon answer it, with the
-- functions its cleaner has after each addition: server/sandbox_run_linux.go.
use cri_t.Prelude.{
  if◌then◌else◌, string_eq, nat_eq, String, Bool, false, Option, none, List, [], ◌∷◌, ◌++◌,
}
use cri_t.Server.{Ctr, Sandbox}
use cri_t.Handlers.{
  Undo, release_name, delete_storage, delete_id, delete_runtime, release_pod_name, delete_pod_id,
  unmount_shm, stop_network, remove_namespaces, drop_sandbox, drop_infra, halt_infra,
}

pub record RunEnv : Type 0 where
  -- whether SetConfig accepts the configuration, and GenerateNameAndID makes the name
  pub config_ok : Bool
  pub id : String
  pub name : String
  -- the name of the infra container, and the ID under which it is reserved
  pub ctr_name : String
  pub reserved_id : String
  pub host_network : Bool
  pub host_ipc : Bool
  -- CNIPluginReadyOrError, or what the watcher receives
  pub cni_ready : Bool
  -- the runtime handler and its annotations
  pub handler_ok : Bool
  -- CreatePodSandbox of the storage, and the label that it gives
  pub stores : Bool
  pub process_label : String
  -- the log directory, the infra container's specification, the labels
  pub spec_ok : Bool
  pub mounts_shm : Bool
  pub labels_mount : Bool
  -- from the log path to the pod that the builder returns
  pub settings_ok : Bool
  pub makes_namespaces : Bool
  pub starts_network : Bool
  -- from the result of CNI to the saved specification, without what follows
  pub prepares : Bool
  -- NeedsInfra, or a kernel separated pod: the infra container is kept, and not spoofed
  pub keeps_infra : Bool
  -- NewContainer and KVMLabel, where it is kept; CreateSandboxCgroup, where it is spoofed
  pub makes_infra : Bool
  pub makes_cgroup : Bool
  -- CreateContainer of the runtime, and whether one that fails leaves the container there, since its
  -- deferred DeleteContainer fails too, which is only logged
  pub launches : Bool
  pub launch_leaves : Bool
  pub hooks_found : Bool
  pub pre_starts : Bool
  pub starts : Bool
  pub nri_runs : Bool
  pub context_ended : Bool
  pub undo_fails : Undo → Bool

abbrev pub new_pod : RunEnv → Sandbox
new_pod env = record {
  id = env.id;
  name = env.name;
  process_label = env.process_label;
  containers = [];
  infra_container = none;
  is_created = false;
  is_stopped = false;
}

abbrev pub infra_of : RunEnv → Ctr
infra_of env = record { id = env.id; name = env.ctr_name; sandbox_id = env.id }

-- What the runtime has once it has created, or started, the infra container: CreateContainer and
-- StartContainer of a spoofed container do nothing.
abbrev pub with_infra : RunEnv → List String → List String
with_infra env ids = if env.keeps_infra then ids ++ env.id ∷ [] else ids

-- The cleaner after each of its additions, the last one first.
abbrev pub undo_pod_name : RunEnv → List Undo
undo_pod_name env = release_pod_name env.name ∷ []

abbrev pub undo_ctr_name : RunEnv → List Undo
undo_ctr_name env = release_name env.ctr_name ∷ undo_pod_name env

abbrev pub undo_pod_storage : RunEnv → List Undo
undo_pod_storage env = delete_storage env.id ∷ undo_ctr_name env

unfoldable pub undo_shm : RunEnv → List Undo
undo_shm env =
    if env.host_ipc then undo_pod_storage env else unmount_shm env.id ∷ undo_pod_storage env

abbrev pub undo_ctr_id : RunEnv → List Undo
undo_ctr_id env = delete_id env.id ∷ undo_shm env

abbrev pub undo_sandbox : (String → Option String) → RunEnv → List Undo
undo_sandbox level_of env = drop_sandbox level_of env.id ∷ undo_ctr_id env

abbrev pub undo_pod_id : (String → Option String) → RunEnv → List Undo
undo_pod_id level_of env = delete_pod_id env.id ∷ undo_sandbox level_of env

abbrev pub undo_namespaces : (String → Option String) → RunEnv → List Undo
undo_namespaces level_of env = remove_namespaces env.id ∷ undo_pod_id level_of env

abbrev pub undo_network : (String → Option String) → RunEnv → List Undo
undo_network level_of env = stop_network env.id ∷ undo_namespaces level_of env

abbrev pub undo_infra : (String → Option String) → RunEnv → List Undo
undo_infra level_of env = drop_infra (infra_of env) ∷ undo_network level_of env

abbrev pub undo_start : (String → Option String) → RunEnv → List Undo
undo_start level_of env =
    halt_infra (infra_of env) ∷ delete_runtime env.id ∷ undo_infra level_of env
