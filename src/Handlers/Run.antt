-- ===== src/Handlers/Run.antt =====
-- RunPodSandbox: server/sandbox_run_linux.go, with ReserveSandboxContainerIDAndName of
-- server/naming.go and waitForCNIPlugin of server/sandbox_network.go. `RunEnv` of
-- Handlers/Run/Env is the request and what the calls out of the daemon answer. The generator of the
-- specification and the fields of the pod that no handler here reads are left out.
pub mod Env
pub mod Undone
pub mod Rollback
pub mod Started
pub mod Outcomes
pub mod Late
pub mod Unstarted
pub mod Removed
pub mod Undoing
mod Examples
use cri_t.Prelude.{
  if◌then◌else◌, string_eq, nat_eq, ok, err, String, true, ◌&&◌, ◌||◌, not, Option, none, some,
  List, [], ◌∷◌, ◌++◌,
}
use cri_t.Prelude.Maps.{lookup, insert}
use cri_t.Registrar.{reserve, get as holder_of}
use cri_t.ResourceStore.{put, delete_entry, set_stage_for_resource}
use cri_t.Server.{Ctr, Server, set_infra_container, add_infra_container, get_sandbox, add_sandbox}
use cri_t.Handlers.Index.{IdIndex}
use cri_t.Handlers.{Undo, World, bad_request, name_error, create_failed, timed_out, run_undos}
use cri_t.Handlers.Create.{Answer, resource_or_wait}
unfoldable pub use cri_t.Handlers.Run.Env.{undo_shm}
pub use cri_t.Handlers.Run.Env.{
  RunEnv, new_pod, infra_of, with_infra, undo_pod_name, undo_ctr_name, undo_pod_storage,
  undo_ctr_id, undo_sandbox, undo_pod_id, undo_namespaces, undo_network, undo_infra, undo_start,
}

-- SetCreated, on the pod of the table
unfoldable pub mark_created : String → Server → Server
mark_created id s = elim (lookup id s.sandboxes) [
  | none ↦ s
  | some sb ↦ record s { sandboxes = insert id (record sb { is_created = true }) s.sandboxes }
]

-- SetInfraContainer, on the pod of the table, and addInfraContainer
unfoldable pub attach_infra : Ctr → Server → Server
attach_infra c s = add_infra_container c (elim (lookup c.sandbox_id s.sandboxes) [
  | none ↦ s
  | some sb ↦ record s { sandboxes = insert c.sandbox_id (set_infra_container c sb).0 s.sandboxes }
])

module _ {I : Type 0} where
  abbrev pub enter : RunEnv → String → World I → World I
  enter env stage w = record w { resources = set_stage_for_resource env.name stage w.resources }

  -- The resource that is fetched is the pod of the table.
  unfoldable pub mark_fetched : Answer I → Answer I
  unfolding mark_created
  mark_fetched (err e, w) = (err e, w)
  mark_fetched (ok id, w) = (ok id, record w { tables = mark_created id w.tables })

  unfoldable pub fetch_pod : String → World I → Answer I
  unfolding resource_or_wait mark_fetched
  fetch_pod name w = mark_fetched (resource_or_wait name w)

  -- The name is reserved already.
  unfoldable pub duplicate_pod : String → World I → Answer I
  unfolding fetch_pod
  duplicate_pod name w = elim (holder_of name w.pod_names) [
    | err e ↦ (err name_error, w)
    | ok id ↦ elim (get_sandbox id w.tables) [
      | some sb ↦ if sb.is_created then (ok id, w) else fetch_pod name w
      | none ↦ fetch_pod name w
    ]
  ]

  -- From the start of NRI to the end.
  unfoldable pub finish : RunEnv → List Undo → World I → Answer I
  unfolding mark_created
  finish env undos w =
      if env.context_ended
      then (err timed_out, record w { resources = (put env.name env.id undos w.resources).0 })
      else (
        ok env.id,
        record w {
          resources = delete_entry env.name w.resources;
          tables = mark_created env.id w.tables;
        },
      )

module _ {I : Type 0} (index : IdIndex I) (level_of : String → Option String) where
  abbrev give_up : RunEnv → List Undo → World I → Answer I
  give_up env undos w = (err create_failed, run_undos index env.undo_fails undos w)

  -- From the hooks on.
  unfoldable pub start_infra : RunEnv → World I → Answer I
  unfolding finish
  start_infra env w =
      if not (env.hooks_found && env.pre_starts && (not env.keeps_infra || env.starts))
      then give_up env (undo_infra level_of env) w
      else let w' = record w { running = with_infra env w.running } in
        if env.nri_runs
        then finish env (undo_start level_of env) w'
        else give_up env (undo_start level_of env) w'

  unfoldable pub create_infra : RunEnv → World I → Answer I
  unfolding start_infra
  create_infra env w =
      if not env.keeps_infra || env.launches
      then start_infra env (record w { runtime = with_infra env w.runtime })
      else give_up env (undo_infra level_of env)
          (record w { runtime = if env.launch_leaves then with_infra env w.runtime else w.runtime })

  unfoldable pub prepare_infra : RunEnv → World I → Answer I
  unfolding create_infra attach_infra
  prepare_infra env w =
      if env.prepares && (if env.keeps_infra then env.makes_infra else env.makes_cgroup)
      then create_infra env (
          enter env "sandbox container runtime creation"
            (record w { tables = attach_infra (infra_of env) w.tables }))
      else give_up env (undo_network level_of env) w

  unfoldable pub connect : RunEnv → World I → Answer I
  unfolding prepare_infra
  connect env w =
      let w' = enter env "sandbox namespace creation" w in
      if not env.makes_namespaces
      then give_up env (undo_namespaces level_of env) w'
      else let w'' = enter env "sandbox network creation" w' in
        if env.starts_network
        then prepare_infra env (enter env "sandbox storage start" w'')
        else give_up env (undo_namespaces level_of env) w''

  unfoldable pub index_pod : RunEnv → World I → Answer I
  unfolding connect
  index_pod env w = elim (index.add env.id w.pod_ids) [
    | none ↦ give_up env (undo_sandbox level_of env) w
    | some ids ↦ connect env (record w { pod_ids = ids })
  ]

  -- The pod is in the table also where addSandbox fails.
  unfoldable pub add_pod : RunEnv → World I → Answer I
  unfolding index_pod
  add_pod env w =
      let (tables, failure) = add_sandbox level_of (new_pod env) w.tables in
      elim failure [
        | some e ↦ give_up env (undo_ctr_id env) (record w { tables = tables })
        | none ↦ index_pod env (record w { tables = tables })
      ]

  unfoldable pub index_infra : RunEnv → World I → Answer I
  unfolding add_pod
  index_infra env w =
      if not env.labels_mount
      then give_up env (undo_shm env) w
      else elim (index.add env.id w.ctr_ids) [
        | none ↦ give_up env (undo_shm env) w
        | some ids ↦
            let w' = record w { ctr_ids = ids } in
            if env.settings_ok then add_pod env w' else give_up env (undo_ctr_id env) w'
      ]

  unfoldable pub mount_shm : RunEnv → World I → Answer I
  unfolding index_infra
  mount_shm env w =
      if not env.spec_ok
      then give_up env (undo_pod_storage env) w
      else let w' = enter env "sandbox shm creation" w in
        if env.host_ipc || env.mounts_shm
        then index_infra env (enter env "sandbox spec configuration" w')
        else give_up env (undo_pod_storage env) w'

  unfoldable pub create_storage : RunEnv → World I → Answer I
  unfolding mount_shm
  create_storage env w =
      let w' = enter env "sandbox storage creation" w in
      if env.stores
      then mount_shm env (record w' { storage = w'.storage ++ env.id ∷ [] })
      else give_up env (undo_ctr_name env) w'

  -- ReserveSandboxContainerIDAndName
  unfoldable pub reserve_infra : RunEnv → World I → Answer I
  unfolding create_storage
  reserve_infra env w =
      let (names, failure) = reserve env.ctr_name env.reserved_id w.ctr_names in
      elim failure [
        | some e ↦ give_up env (undo_pod_name env) w
        | none ↦ create_storage env (record w { ctr_names = names })
      ]

  unfoldable pub await_network : RunEnv → World I → Answer I
  unfolding reserve_infra
  await_network env w =
      let w' = enter env "sandbox creating" w in
      if not (env.host_network || env.cni_ready)
      then give_up env (undo_pod_name env) w'
      else let w'' = enter env "sandbox network ready" w' in
        if env.handler_ok then reserve_infra env w'' else give_up env (undo_pod_name env) w''

  unfoldable pub run_pod_sandbox : RunEnv → World I → Answer I
  unfolding await_network duplicate_pod
  run_pod_sandbox env w =
      if not env.config_ok
      then (err bad_request, w)
      else (let (names, failure) = reserve env.name env.id w.pod_names in
          elim failure [
            | some e ↦ duplicate_pod env.name w
            | none ↦ await_network env (record w { pod_names = names })
          ])
