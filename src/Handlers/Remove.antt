-- ===== src/Handlers/Remove.antt =====
-- StopContainer, StartContainer and RemoveContainer of server/container_stop.go,
-- server/container_start.go and server/container_remove.go. An answer of a call out of the daemon
-- is a field of an environment; errors that are only logged (of NRI, of hooks after a stop, of
-- writing a state) change nothing here. A method of a pod that is nil is `nil_dereference`.
pub mod Effect
pub mod Requests
pub mod Pod
use cri_t.Prelude.{
  if◌then◌else◌, string_eq, nat_eq, ok, err, String, Bool, true, false, ◌&&◌, not, Option, none,
  some, [], ◌∷◌, ◌++◌,
}
use cri_t.Prelude.Maps.{lookup, delete, insert}
use cri_t.Registrar.{release, deletes}
use cri_t.Server.{Ctr, Sandbox, Server, remove_container, get_sandbox}
use cri_t.Handlers.Index.{IdIndex}
use cri_t.Handlers.{
  World, HandlerError, not_indexed, not_created_state, hook_failed, stop_failed, start_failed,
  runtime_failed, exit_file_failed, storage_failed, index_failed, nil_dereference, without,
  container_from_short_id,
}

pub record StopEnv : Type 0 where
  -- GetRuntimeHandlerHooks, PreStop, the runtime's StopContainer and NRI's
  pub hooks_found : Bool
  pub pre_stops : Bool
  pub stops : Bool
  pub nri_stops : Bool

pub record RemoveEnv : Type 0 where
  pub stopping : StopEnv
  -- the runtime's DeleteContainer; the exit file, which may be missing; the storage's
  -- DeleteContainer, which may not know the container
  pub deletes : Bool
  pub removes_exit_file : Bool
  pub deletes_storage : Bool

pub record StartEnv : Type 0 where
  pub is_created_state : Bool
  pub hooks_found : Bool
  pub pre_starts : Bool
  pub starts : Bool
  -- of the removal after a failed start
  pub removing : RemoveEnv

-- errors.Is(err, truncindex.ErrNotExist)
abbrev is_not_exist : HandlerError → Bool
is_not_exist not_indexed = true
is_not_exist _ = false

abbrev pub Outcome : Type 0 → Type 0
Outcome I = World I × Option HandlerError

-- sb.RemoveContainer
unfoldable pub remove_from_pod : Ctr → Server → Server
remove_from_pod c s = elim (lookup c.sandbox_id s.sandboxes) [
  | none ↦ s
  | some sb ↦ record s {
    sandboxes =
        insert c.sandbox_id (record sb { containers = delete c.name sb.containers }) s.sandboxes;
  }
]

module _ {I : Type 0} where
  unfoldable pub stop_container : StopEnv → Ctr → World I → Outcome I
  stop_container env c w = elim (get_sandbox c.sandbox_id w.tables) [
    | none ↦ (w, some nil_dereference)
    | some sb ↦
        if not (env.hooks_found && env.pre_stops)
        then (w, some hook_failed)
        else if not env.stops
        then (w, some stop_failed)
        else (
          record w { running = without c.id w.running },
          if env.nri_stops then none else some stop_failed,
        )
  ]

module _ {I : Type 0} (index : IdIndex I) where
  -- From the release of the name on.
  unfoldable pub forget : Ctr → World I → Outcome I
  forget c w =
      let w' = record w {
        ctr_names = release c.name w.ctr_names;
        tables = remove_container c w.tables;
      } in
      elim (index.remove c.id w.ctr_ids) [
        | none ↦ (w', some index_failed)
        | some ids ↦ (record w' { ctr_ids = ids; tables = remove_from_pod c w'.tables }, none)
      ]

  -- After the container is stopped.
  unfoldable pub delete_stopped : RemoveEnv → Ctr → World I → Outcome I
  unfolding forget
  delete_stopped env c w =
      let w' = record w { runtime = without c.id w.runtime } in
      if not env.deletes
      then (w, some runtime_failed)
      else if not env.removes_exit_file
      then (w', some exit_file_failed)
      else if not env.deletes_storage
      then (w', some storage_failed)
      else forget c (record w' { storage = without c.id w'.storage })

  unfoldable pub remove_container_in_pod : RemoveEnv → Sandbox → Ctr → World I → Outcome I
  unfolding delete_stopped stop_container
  remove_container_in_pod env sb c w =
      if sb.is_stopped
      then delete_stopped env c w
      else let (stopped, failure) = stop_container env.stopping c w in
        elim failure [ some e ↦ (stopped, some e) | none ↦ delete_stopped env c stopped ]

  unfoldable pub stop_container_request : StopEnv → String → World I → Outcome I
  unfolding stop_container
  stop_container_request env request w = elim (container_from_short_id index request w) [
    | err e ↦ (w, if is_not_exist e then none else some e)
    | ok c ↦ stop_container env c w
  ]

  unfoldable pub remove_container_request : RemoveEnv → String → World I → Outcome I
  unfolding remove_container_in_pod
  remove_container_request env request w = elim (container_from_short_id index request w) [
    | err e ↦ (w, if is_not_exist e then none else some e)
    | ok c ↦ elim (get_sandbox c.sandbox_id w.tables) [
      | none ↦ (w, some nil_dereference)
      | some sb ↦ remove_container_in_pod env sb c w
    ]
  ]

  -- The deferred function of a start that failed.
  unfoldable pub after_failed_start : StartEnv → Sandbox → Ctr → HandlerError → World I → Outcome I
  unfolding remove_container_in_pod
  after_failed_start env sb c e w = ((remove_container_in_pod env.removing sb c w).0, some e)

  unfoldable pub start_container_request : StartEnv → String → World I → Outcome I
  unfolding after_failed_start
  start_container_request env request w = elim (container_from_short_id index request w) [
    | err e ↦ (w, some e)
    | ok c ↦
        if not env.is_created_state
        then (w, some not_created_state)
        else elim (get_sandbox c.sandbox_id w.tables) [
          | none ↦ (w, some nil_dereference)
          | some sb ↦
              if not env.hooks_found
              then (w, some hook_failed)
              else if not env.pre_starts
              then after_failed_start env sb c hook_failed w
              else if not env.starts
              then after_failed_start env sb c start_failed w
              else (record w { running = w.running ++ c.id ∷ [] }, none)
        ]
  ]
