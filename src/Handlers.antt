-- ===== src/Handlers.antt =====
-- server/: the handlers that create, start, stop and remove containers, over the registrar of
-- names, the resource store, the tables of the container server, the indices of IDs, the storage and
-- the OCI runtime.
-- `World` is what they share. The index is a parameter: truncindex of containers/storage. The
-- storage and the runtime are the IDs that they hold, and `running` those of the containers that
-- were started and not stopped; whether a call of them succeeds is an argument. A container is
-- created once its ID stands in `created`, of the handler or of the resource store.
pub mod Index
pub mod Cleaner
pub mod Create
pub mod Remove
pub mod Run
mod Exact
mod Examples
use cri_t.Prelude.{
  if◌then◌else◌, filter, string_eq, nat_eq, ◌==◌, contains, Result, ok, err, String, Bool, true,
  false, ◌||◌, not, Option, none, some, List, [], ◌∷◌,
}
use cri_t.Registrar.{Registrar, release}
use cri_t.ResourceStore.{ResourceStore}
use cri_t.Server.{
  Ctr, Server, get_container, remove_container, remove_infra_container, remove_sandbox,
}
use cri_t.Handlers.Index.{not_exist, ambiguous, IdIndex}

-- The functions that CreateContainer and RunPodSandbox add to their cleaners. The function that
-- stops the network and then removes the namespaces is two here, and so is the one that stops the
-- infra container and then deletes it. `drop_sandbox` has the level of a label with it.
pub data Undo : Type 0 where
  release_name delete_storage delete_id delete_runtime : String → Undo
  drop_container : Ctr → Undo
  release_pod_name delete_pod_id unmount_shm stop_network remove_namespaces : String → Undo
  drop_sandbox : (String → Option String) → String → Undo
  drop_infra halt_infra : Ctr → Undo

pub record World (I : Type 0) : Type 0 where
  pub ctr_names : Registrar
  pub resources : ResourceStore (List Undo)
  pub tables : Server
  pub ctr_ids : I
  pub pod_names : Registrar
  pub pod_ids : I
  pub storage : List String
  pub runtime : List String
  pub running : List String
  pub created : List String

pub data HandlerError : Type 0 where
  bad_request id_empty not_indexed not_found not_yet_created sandbox_stopped : HandlerError
  name_error retry_later create_failed timed_out : HandlerError
  not_created_state hook_failed stop_failed start_failed runtime_failed : HandlerError
  exit_file_failed storage_failed index_failed shm_failed cgroup_failed : HandlerError
  network_failed namespaces_failed nil_dereference : HandlerError

abbrev pub without : String → List String → List String
without id = filter (λ j. not (j == id))

module _ {I : Type 0} where
  unfoldable pub is_ctr_created : String → World I → Bool
  is_ctr_created id w = contains w.created id || contains w.resources.created id

module _ {I : Type 0} (index : IdIndex I) where
  -- GetContainerFromShortID
  unfoldable pub container_from_short_id : String → World I → Result HandlerError Ctr
  container_from_short_id cid w =
      if cid == "" then err id_empty else elim (index.find cid w.ctr_ids) [
        | err not_exist ↦ err not_indexed
        | err ambiguous ↦ err not_found
        | ok id ↦ elim (get_container id w.tables) [
          | none ↦ err not_found
          | some c ↦ if is_ctr_created id w then ok c else err not_yet_created
        ]
      ]

  unfoldable pub undo : Undo → World I → World I
  undo (release_name n) w = record w { ctr_names = release n w.ctr_names }
  undo (delete_storage id) w = record w { storage = without id w.storage }
  undo (drop_container c) w = record w { tables = remove_container c w.tables }
  -- that the index has no such ID is no error here
  undo (delete_id id) w = record w {
    ctr_ids = elim (index.remove id w.ctr_ids) [ none ↦ w.ctr_ids | some ids ↦ ids ];
  }
  undo (delete_runtime id) w = record w { runtime = without id w.runtime }
  undo (release_pod_name n) w = record w { pod_names = release n w.pod_names }
  undo (delete_pod_id id) w = record w {
    pod_ids = elim (index.remove id w.pod_ids) [ none ↦ w.pod_ids | some ids ↦ ids ];
  }
  undo (drop_sandbox level_of id) w = record w { tables = (remove_sandbox level_of id w.tables).0 }
  undo (drop_infra c) w = record w { tables = remove_infra_container c w.tables }
  undo (halt_infra c) w = record w { running = without c.id w.running }
  -- mounts, networks and namespaces are outside of the daemon
  undo (unmount_shm id) w = w
  undo (stop_network id) w = w
  undo (remove_namespaces id) w = w

  -- ResourceCleaner.Cleanup; `fails` says which functions fail in all their retries.
  unfoldable pub run_undos : (Undo → Bool) → List Undo → World I → World I
  unfolding undo
  run_undos fails [] w = w
  run_undos fails (u ∷ us) w = elim (fails u) [ true ↦ w | false ↦ run_undos fails us (undo u w) ]
