-- ===== src/Handlers/Run/Rollback.antt =====
-- server/sandbox_run_linux.go: a RunPodSandbox that fails leaves no pod in the daemon's tables.
use cri_t.Prelude.{
  if◌then◌else◌, Bool-cases, branches, Option-cases, string_eq, nat_eq, ◌==◌, ==_iff, ==_refl, ok,
  err, String, ◌≡◌, refl, inl, inr, false, ◌&&◌, ◌||◌, not, Option, none, some, List, arith,
}
use cri_t.Prelude.Maps.{lookup, lookup-insert}
use cri_t.Registrar.{reserve}
use cri_t.Server.{get_infra_container, add_sandbox}
use cri_t.Handlers.Index.{IdIndex}
use cri_t.Handlers.{Undo, World, HandlerError, create_failed, run_undos}
use cri_t.Handlers.Cleaner.{undo_each, run_undos-undo_each}
use cri_t.Handlers.Create.{Answer}
use cri_t.Handlers.Run.{
  RunEnv, new_pod, undo_pod_name, undo_ctr_name, undo_pod_storage, undo_shm, undo_ctr_id,
  undo_sandbox, undo_namespaces, undo_network, undo_infra, undo_start, finish, start_infra,
  create_infra, prepare_infra, connect, index_pod, add_pod, index_infra, mount_shm, create_storage,
  reserve_infra, await_network, run_pod_sandbox,
}
use cri_t.Handlers.Run.Undone.{
  IsPodAbsent, BeforeStart, BeforeInfra, BeforePodId, BeforeId, BeforeStorage, IsTabled,
  undo_pod_name-IsPodAbsent, undo_ctr_name-IsPodAbsent, undo_pod_storage-IsPodAbsent,
  undo_shm-IsPodAbsent, undo_ctr_id-IsPodAbsent, undo_sandbox-IsPodAbsent,
  undo_namespaces-IsPodAbsent, undo_network-IsPodAbsent, undo_infra-IsPodAbsent,
  undo_start-IsPodAbsent, attach_infra-IsTabled,
}

-- A request that fails cleans up, if no function of the cleaner fails for good.
module _ {I : Type 0} (index : IdIndex I) (level_of : String → Option String) (env : RunEnv)
    (level : String) (levelled : level_of env.process_label ≡ some level)
    (undos_work : (u : Undo) → env.undo_fails u ≡ false) (lasts : env.context_ended ≡ false) where
  abbrev Clean : Option String → Answer I → Type 0
  Clean holder (ok id, w) = Unit
  Clean holder (err e, w) = IsPodAbsent index env holder w

  give_up-Clean :
      (us : List Undo) (w : World I) (holder : Option String)
      → IsPodAbsent index env holder (undo_each index us w)
      → Clean holder (err create_failed, run_undos index env.undo_fails us w)
  give_up-Clean us w holder h = rw (run_undos-undo_each index env.undo_fails undos_work us w) h

  finish-Clean : (us : List Undo) (w : World I) → Clean none (finish env us w)
  unfolding finish
  finish-Clean us w =
      branches (Clean none) env.context_ended (λ late. absurd (ground (arith, late, lasts)))
        (λ e. tt)

  start_infra-Clean :
      (w : World I)
      → IsTabled env w
      → BeforeStart index env w
      → Clean none (start_infra index level_of env w)
  unfolding start_infra
  start_infra-Clean w tabled before =
      branches (Clean none)
        (not (env.hooks_found && env.pre_starts && (not env.keeps_infra || env.starts)))
        (λ bad.
          give_up-Clean (undo_infra level_of env) w none
            (undo_infra-IsPodAbsent index env level_of level levelled w tabled before))
        (λ good.
          branches (Clean none) env.nri_runs (λ runs. finish-Clean _ _)
            (λ stuck.
              give_up-Clean (undo_start level_of env) _ none
                (undo_start-IsPodAbsent index env level_of level levelled _ tabled)))

  create_infra-Clean :
      (w : World I)
      → IsTabled env w
      → BeforeStart index env w
      → Clean none (create_infra index level_of env w)
  unfolding create_infra
  create_infra-Clean w tabled before =
      branches (Clean none) (not env.keeps_infra || env.launches)
        (λ good. start_infra-Clean _ tabled before)
        (λ bad.
          give_up-Clean (undo_infra level_of env) _ none
            (undo_infra-IsPodAbsent index env level_of level levelled _ tabled before))

  prepare_infra-Clean :
      (w : World I)
      → IsTabled env w
      → BeforeInfra index env w
      → Clean none (prepare_infra index level_of env w)
  unfolding prepare_infra
  prepare_infra-Clean w tabled before =
      branches (Clean none)
        (env.prepares && (if env.keeps_infra then env.makes_infra else env.makes_cgroup))
        (λ good. create_infra-Clean _ (attach_infra-IsTabled env w tabled) before.1)
        (λ bad.
          give_up-Clean (undo_network level_of env) w none
            (undo_network-IsPodAbsent index env level_of level levelled w tabled before))

  connect-Clean :
      (w : World I)
      → IsTabled env w
      → BeforeInfra index env w
      → Clean none (connect index level_of env w)
  unfolding connect
  connect-Clean w tabled before =
      branches (Clean none) (not env.makes_namespaces)
        (λ bad.
          give_up-Clean (undo_namespaces level_of env) _ none
            (undo_namespaces-IsPodAbsent index env level_of level levelled _ tabled before))
        (λ made.
          branches (Clean none) env.starts_network (λ good. prepare_infra-Clean _ tabled before)
            (λ bad.
              give_up-Clean (undo_namespaces level_of env) _ none
                (undo_namespaces-IsPodAbsent index env level_of level levelled _ tabled before)))

  index_pod-Clean :
      (w : World I)
      → IsTabled env w
      → BeforePodId index env w
      → Clean none (index_pod index level_of env w)
  unfolding index_pod
  index_pod-Clean w tabled before = elim (Option-cases (index.add env.id w.pod_ids)) [
    | inl full ↦
        rw (full, index_pod)
          (give_up-Clean (undo_sandbox level_of env) w none
            (undo_sandbox-IsPodAbsent index env level_of level levelled w tabled before))
    | inr (ids, added) ↦ rw (added, index_pod) (connect-Clean _ tabled before.1)
  ]

  add_pod-Clean :
      (w : World I) → BeforePodId index env w → Clean none (add_pod index level_of env w)
  unfolding add_pod add_sandbox get_infra_container
  add_pod-Clean w before =
      rw (levelled, add_pod)
        (index_pod-Clean _
          (
            new_pod env,
            ground (
              arith,
              lookup-insert env.id env.id (new_pod env) w.tables.sandboxes,
              ==_refl env.id,
              levelled,
            ),
            refl,
          )
          (before.0, (ground (arith, levelled, before.1.0), before.1.1)))

  index_infra-Clean :
      (w : World I) → BeforeId index env w → Clean none (index_infra index level_of env w)
  unfolding index_infra
  index_infra-Clean w before =
      let shm = give_up-Clean (undo_shm env) w none (undo_shm-IsPodAbsent index env w before) in
      branches (Clean none) (not env.labels_mount) (λ bad. shm)
        (λ labels. elim (Option-cases (index.add env.id w.ctr_ids)) [
          | inl full ↦ rw full shm
          | inr (ids, added) ↦ rw added (
              branches (Clean none) env.settings_ok (λ good. add_pod-Clean _ before.1.1)
                (λ bad.
                  give_up-Clean (undo_ctr_id env) _ none
                    (undo_ctr_id-IsPodAbsent index env _ before.1)))
        ])

  mount_shm-Clean :
      (w : World I) → BeforeId index env w → Clean none (mount_shm index level_of env w)
  unfolding mount_shm
  mount_shm-Clean w before =
      branches (Clean none) (not env.spec_ok)
        (λ bad.
          give_up-Clean (undo_pod_storage env) w none
            (undo_pod_storage-IsPodAbsent index env w before))
        (λ good.
          branches (Clean none) (env.host_ipc || env.mounts_shm)
            (λ mounted. index_infra-Clean _ before)
            (λ bad.
              give_up-Clean (undo_pod_storage env) _ none
                (undo_pod_storage-IsPodAbsent index env _ before)))

  create_storage-Clean :
      (w : World I) → BeforeStorage index env w → Clean none (create_storage index level_of env w)
  unfolding create_storage
  create_storage-Clean w before =
      branches (Clean none) env.stores (λ good. mount_shm-Clean _ before.1)
        (λ bad.
          give_up-Clean (undo_ctr_name env) _ none (undo_ctr_name-IsPodAbsent index env _ before))

  reserve_infra-Clean :
      (w : World I) (holder : Option String)
      → lookup env.ctr_name w.ctr_names.names ≡ holder
      → (holder ≡ some env.reserved_id → ⊥)
      → BeforeStorage index env w
      → Clean holder (reserve_infra index level_of env w)
  unfolding reserve_infra reserve
  reserve_infra-Clean w none held other before =
      rw (held, reserve_infra) (create_storage-Clean _ before)
  reserve_infra-Clean w (some key) held other before = elim (Bool-cases (key == env.reserved_id)) [
    | inl same ↦ absurd (other (ground (arith, same, ==_iff key env.reserved_id)))
    | inr differs ↦
        rw (held, differs, reserve_infra)
          (give_up-Clean (undo_pod_name env) w (some key)
            (undo_pod_name-IsPodAbsent index env w (some key) held before))
  ]

  await_network-Clean :
      (w : World I) (holder : Option String)
      → lookup env.ctr_name w.ctr_names.names ≡ holder
      → (holder ≡ some env.reserved_id → ⊥)
      → BeforeStorage index env w
      → Clean holder (await_network index level_of env w)
  unfolding await_network
  await_network-Clean w holder held other before =
      branches (Clean holder) (not (env.host_network || env.cni_ready))
        (λ bad.
          give_up-Clean (undo_pod_name env) _ holder
            (undo_pod_name-IsPodAbsent index env _ holder held before))
        (λ ready.
          branches (Clean holder) env.handler_ok
            (λ good. reserve_infra-Clean _ holder held other before)
            (λ bad.
              give_up-Clean (undo_pod_name env) _ holder
                (undo_pod_name-IsPodAbsent index env _ holder held before)))

  run_pod_sandbox-Clean :
      (w : World I) (holder : Option String)
      → (holder ≡ some env.reserved_id → ⊥)
      → IsPodAbsent index env holder w
      → Clean holder (run_pod_sandbox index level_of env w)
  unfolding run_pod_sandbox reserve
  run_pod_sandbox-Clean w holder other a =
      branches (Clean holder) (not env.config_ok) (λ bad. a)
        (λ good. rw a.pod_free (
          await_network-Clean _ holder a.ctr_held other (
            a.unstored,
            (a.unindexed, (a.untabled, (a.pod_unindexed, (a.infra_untabled, a.unstarted)))),
          )))

  Clean-IsPodAbsent :
      (holder : Option String) (r : Answer I) (e : HandlerError)
      → Clean holder r
      → r.0 ≡ err e
      → IsPodAbsent index env holder r.1
  Clean-IsPodAbsent holder (ok id, w) e clean failed = absurd (ground (arith, failed))
  Clean-IsPodAbsent holder (err x, w) e clean failed = clean

-- After a RunPodSandbox that fails, for another reason than the end of its context, the name of the
-- pod is free, its ID is in neither index, neither the pod nor its infra container is in a table, the
-- storage does not have it, and it does not run; and the name of its infra container is held by whom
-- it was held. This holds wherever it fails, if it was so before, the name of the infra container is
-- not reserved under the ID that is made for it, the label of the pod has a level, and no function of
-- the cleaner fails in all its retries. The containers that the runtime has created, and the entry
-- that the resource store has for the stage of the request, are not meant.
pub run_pod_sandbox-IsPodAbsent :
    {I : Type 0} (index : IdIndex I) (level_of : String → Option String) (env : RunEnv)
    (w : World I) (e : HandlerError) (level : String) (holder : Option String)
    → level_of env.process_label ≡ some level
    → ((u : Undo) → env.undo_fails u ≡ false)
    → env.context_ended ≡ false
    → (holder ≡ some env.reserved_id → ⊥)
    → IsPodAbsent index env holder w
    → (run_pod_sandbox index level_of env w).0 ≡ err e
    → IsPodAbsent index env holder (run_pod_sandbox index level_of env w).1
run_pod_sandbox-IsPodAbsent index level_of env w e level holder levelled undos_work lasts other a =
    Clean-IsPodAbsent index level_of env level levelled undos_work lasts holder
      (run_pod_sandbox index level_of env w) e
      (run_pod_sandbox-Clean index level_of env level levelled undos_work lasts w holder other a)
