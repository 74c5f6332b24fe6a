-- ===== src/Handlers/Run/Started.antt =====
-- server/sandbox_run_linux.go: the state in which a RunPodSandbox without a failure starts its pod.
use cri_t.Prelude.{
  if◌then◌else◌, then_branch, else_branch, string_eq, nat_eq, String, ◌≡◌, refl, ap, ◌∙◌, true,
  ◌&&◌, ◌||◌, not, Option, none, some, List, [], ◌∷◌, ◌++◌,
}
use cri_t.Prelude.Maps.{lookup}
use cri_t.Registrar.{reserve}
use cri_t.ResourceStore.{ResourceStore, set_stage_for_resource}
use cri_t.Server.{add_sandbox}
use cri_t.Handlers.Index.{IdIndex}
use cri_t.Handlers.{Undo, World}
use cri_t.Handlers.Run.{
  RunEnv, new_pod, infra_of, with_infra, attach_infra, undo_start, enter, finish, start_infra,
  create_infra, prepare_infra, connect, index_pod, add_pod, index_infra, mount_shm, create_storage,
  reserve_infra, await_network, run_pod_sandbox,
}

-- Every call out of the daemon is answered well, up to the creation of the infra container.
pub record IsLaunched (env : RunEnv) : Type 0 where
  pub configured : env.config_ok ≡ true
  pub network_ready : env.host_network || env.cni_ready ≡ true
  pub handled : env.handler_ok ≡ true
  pub stored : env.stores ≡ true
  pub specified : env.spec_ok ≡ true
  pub mounted : env.host_ipc || env.mounts_shm ≡ true
  pub labelled : env.labels_mount ≡ true
  pub set_up : env.settings_ok ≡ true
  pub isolated : env.makes_namespaces ≡ true
  pub connected : env.starts_network ≡ true
  pub prepared :
      env.prepares && (if env.keeps_infra then env.makes_infra else env.makes_cgroup) ≡ true
  pub launched : not env.keeps_infra || env.launches ≡ true

-- Every call out of the daemon is answered well.
pub record IsFine (env : RunEnv) : Type 0 where
  pub launching : IsLaunched env
  pub started : env.hooks_found && env.pre_starts && (not env.keeps_infra || env.starts) ≡ true
  pub announced : env.nri_runs ≡ true

abbrev pub resources_at : RunEnv → ResourceStore (List Undo) → ResourceStore (List Undo)
resources_at env s =
    let at = set_stage_for_resource env.name in
    at "sandbox container runtime creation" (
      at "sandbox storage start" (
        at "sandbox network creation" (
          at "sandbox namespace creation" (
            at "sandbox spec configuration" (
              at "sandbox shm creation" (
                at "sandbox storage creation"
                  (at "sandbox network ready" (at "sandbox creating" s))))))))

-- The infra container is created, and the request goes on with the hooks.
abbrev pub with_launched :
    {I : Type 0} → (String → Option String) → RunEnv → I → I → World I → World I
with_launched level_of env ids pods w = record {
  ctr_names = (reserve env.ctr_name env.reserved_id w.ctr_names).0;
  resources = resources_at env w.resources;
  tables = attach_infra (infra_of env) (add_sandbox level_of (new_pod env) w.tables).0;
  ctr_ids = ids;
  pod_names = (reserve env.name env.id w.pod_names).0;
  pod_ids = pods;
  storage = w.storage ++ env.id ∷ [];
  runtime = with_infra env w.runtime;
  running = w.running;
  created = w.created;
}

-- The pod runs, and the request goes on with the check of its context.
abbrev pub with_pod : {I : Type 0} → (String → Option String) → RunEnv → I → I → World I → World I
with_pod level_of env ids pods w = record (with_launched level_of env ids pods w) {
  running = with_infra env w.running;
}

module _ {I : Type 0} (index : IdIndex I) (level_of : String → Option String) (env : RunEnv)
    (fine : IsLaunched env) where
  create_infra-start_infra :
      (w : World I)
      → create_infra index level_of env w
        ≡ start_infra index level_of env (record w { runtime = with_infra env w.runtime })
  unfolding create_infra
  create_infra-start_infra w = then_branch _ _ fine.launched

  prepare_infra-create_infra :
      (w : World I)
      → prepare_infra index level_of env w
        ≡ create_infra index level_of env (
            enter env "sandbox container runtime creation"
              (record w { tables = attach_infra (infra_of env) w.tables }))
  unfolding prepare_infra
  prepare_infra-create_infra w = then_branch _ _ fine.prepared

  connect-prepare_infra :
      (w : World I)
      → connect index level_of env w
        ≡ prepare_infra index level_of env (
            enter env "sandbox storage start"
              (enter env "sandbox network creation" (enter env "sandbox namespace creation" w)))
  unfolding connect
  connect-prepare_infra w = else_branch _ _ (ap not fine.isolated) ∙ then_branch _ _ fine.connected

  index_pod-connect :
      (w : World I) (pods : I)
      → index.add env.id w.pod_ids ≡ some pods
      → index_pod index level_of env w ≡ connect index level_of env (record w { pod_ids = pods })
  unfolding index_pod
  index_pod-connect w pods added = rw (added, index_pod) refl

  add_pod-index_pod :
      (w : World I) (level : String)
      → level_of env.process_label ≡ some level
      → add_pod index level_of env w
        ≡ index_pod index level_of env
            (record w { tables = (add_sandbox level_of (new_pod env) w.tables).0 })
  unfolding add_pod add_sandbox
  add_pod-index_pod w level levelled = rw (levelled, add_pod) refl

  index_infra-add_pod :
      (w : World I) (ids : I)
      → index.add env.id w.ctr_ids ≡ some ids
      → index_infra index level_of env w ≡ add_pod index level_of env (record w { ctr_ids = ids })
  unfolding index_infra
  index_infra-add_pod w ids added =
      else_branch _ _ (ap not fine.labelled) ∙ rw added (then_branch _ _ fine.set_up)

  mount_shm-index_infra :
      (w : World I)
      → mount_shm index level_of env w
        ≡ index_infra index level_of env
            (enter env "sandbox spec configuration" (enter env "sandbox shm creation" w))
  unfolding mount_shm
  mount_shm-index_infra w = else_branch _ _ (ap not fine.specified) ∙ then_branch _ _ fine.mounted

  create_storage-mount_shm :
      (w : World I)
      → create_storage index level_of env w
        ≡ mount_shm index level_of env
            (enter env "sandbox storage creation" (record w { storage = w.storage ++ env.id ∷ [] }))
  unfolding create_storage
  create_storage-mount_shm w = then_branch _ _ fine.stored

  reserve_infra-create_storage :
      (w : World I)
      → lookup env.ctr_name w.ctr_names.names ≡ none
      → reserve_infra index level_of env w
        ≡ create_storage index level_of env
            (record w { ctr_names = (reserve env.ctr_name env.reserved_id w.ctr_names).0 })
  unfolding reserve_infra reserve
  reserve_infra-create_storage w free = rw (free, reserve_infra) refl

  await_network-reserve_infra :
      (w : World I)
      → await_network index level_of env w
        ≡ reserve_infra index level_of env
            (enter env "sandbox network ready" (enter env "sandbox creating" w))
  unfolding await_network
  await_network-reserve_infra w =
      else_branch _ _ (ap not fine.network_ready) ∙ then_branch _ _ fine.handled

  run_pod_sandbox-await_network :
      (w : World I)
      → lookup env.name w.pod_names.names ≡ none
      → run_pod_sandbox index level_of env w
        ≡ await_network index level_of env
            (record w { pod_names = (reserve env.name env.id w.pod_names).0 })
  unfolding run_pod_sandbox reserve
  run_pod_sandbox-await_network w free = else_branch _ _ (ap not fine.configured) ∙ rw free refl

  -- All the steps up to the hooks.
  pub run_pod_sandbox-start_infra :
      (w : World I) (ids pods : I) (level : String)
      → lookup env.name w.pod_names.names ≡ none
      → lookup env.ctr_name w.ctr_names.names ≡ none
      → level_of env.process_label ≡ some level
      → index.add env.id w.ctr_ids ≡ some ids
      → index.add env.id w.pod_ids ≡ some pods
      → run_pod_sandbox index level_of env w
        ≡ start_infra index level_of env (with_launched level_of env ids pods w)
  run_pod_sandbox-start_infra w ids pods level free ctr_free levelled added pod_added =
      run_pod_sandbox-await_network w free
      ∙ await_network-reserve_infra _
      ∙ reserve_infra-create_storage _ ctr_free
      ∙ create_storage-mount_shm _
      ∙ mount_shm-index_infra _
      ∙ index_infra-add_pod _ ids added
      ∙ add_pod-index_pod _ level levelled
      ∙ index_pod-connect _ pods pod_added
      ∙ connect-prepare_infra _
      ∙ prepare_infra-create_infra _
      ∙ create_infra-start_infra _

module _ {I : Type 0} (index : IdIndex I) (level_of : String → Option String) (env : RunEnv)
    (fine : IsFine env) where
  start_infra-finish :
      (w : World I)
      → start_infra index level_of env w
        ≡ finish env (undo_start level_of env) (record w { running = with_infra env w.running })
  unfolding start_infra
  start_infra-finish w = else_branch _ _ (ap not fine.started) ∙ then_branch _ _ fine.announced

  -- All the steps up to the check of the context.
  pub run_pod_sandbox-finish :
      (w : World I) (ids pods : I) (level : String)
      → lookup env.name w.pod_names.names ≡ none
      → lookup env.ctr_name w.ctr_names.names ≡ none
      → level_of env.process_label ≡ some level
      → index.add env.id w.ctr_ids ≡ some ids
      → index.add env.id w.pod_ids ≡ some pods
      → run_pod_sandbox index level_of env w
        ≡ finish env (undo_start level_of env) (with_pod level_of env ids pods w)
  run_pod_sandbox-finish w ids pods level free ctr_free levelled added pod_added =
      run_pod_sandbox-start_infra index level_of env fine.launching w ids pods level free ctr_free
        levelled added pod_added
      ∙ start_infra-finish _
