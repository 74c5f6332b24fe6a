-- ===== src/Handlers/Run/Unstarted.antt =====
-- server/sandbox_run_linux.go: what the cleaner of RunPodSandbox does not undo.
use mathlib.Core.Path.{subst}
use cri_t.Prelude.{
  branches, then_branch, string_eq, nat_eq, ==_refl, contains, contains-append_one, err, String,
  ◌≡◌, refl, sym, ap, ◌∙◌, true, false, ◌&&◌, ◌||◌, not, Option, none, some, arith,
}
use cri_t.Server.{get_sandbox, add_sandbox}
use cri_t.Handlers.Index.{IdIndex}
use cri_t.Handlers.{Undo, delete_id, World, create_failed, undo, run_undos}
use cri_t.Handlers.Cleaner.{undo_each, run_undos-undo_each}
use cri_t.Handlers.Create.{Answer}
use cri_t.Handlers.Run.Undone.{IsPodAbsent}
use cri_t.Handlers.Run.Rollback.{run_pod_sandbox-IsPodAbsent}
use cri_t.Handlers.Run.Started.{IsLaunched, with_launched, run_pod_sandbox-start_infra}
use cri_t.Handlers.Run.Outcomes.{lookup-add_sandbox}
use cri_t.Handlers.Run.{
  undo_shm, RunEnv, new_pod, undo_ctr_id, undo_infra, start_infra, add_pod, run_pod_sandbox,
}

module _ {I : Type 0} (index : IdIndex I) (level_of : String → Option String) (env : RunEnv)
    (undos_work : (u : Undo) → env.undo_fails u ≡ false) where
  runtime-undo_shm : (w : World I) → (undo_each index (undo_shm env) w).runtime ≡ w.runtime
  unfolding undo_each undo undo_shm
  runtime-undo_shm w =
      branches (λ us. (undo_each index us w).runtime ≡ w.runtime) env.host_ipc (λ host. refl)
        (λ own. refl)

  runtime-undo_infra :
      (w : World I)
      → (run_undos index env.undo_fails (undo_infra level_of env) w).runtime ≡ w.runtime
  unfolding undo_each undo
  runtime-undo_infra w =
      rw (run_undos-undo_each index env.undo_fails undos_work (undo_infra level_of env) w)
        (runtime-undo_shm _)

  tables-undo_ctr_id :
      (w : World I) → (run_undos index env.undo_fails (undo_ctr_id env) w).tables ≡ w.tables
  unfolding undo_each undo undo_shm
  tables-undo_ctr_id w =
      rw (run_undos-undo_each index env.undo_fails undos_work (undo_ctr_id env) w) (
        branches (λ us. (undo_each index us (undo index (delete_id env.id) w)).tables ≡ w.tables)
          env.host_ipc (λ host. refl) (λ own. refl))

  start_infra-leaves :
      (w : World I)
      → env.hooks_found && env.pre_starts && (not env.keeps_infra || env.starts) ≡ false
      → let after = start_infra index level_of env w in
        (after.0 ≡ err create_failed) × (after.1.runtime ≡ w.runtime)
  unfolding start_infra
  start_infra-leaves w unstarted =
      subst (λ (r : Answer I). (r.0 ≡ err create_failed) × (r.1.runtime ≡ w.runtime))
        (sym (then_branch _ _ (ap not unstarted))) (refl, runtime-undo_infra w)

  -- A RunPodSandbox whose label has no level fails and leaves its pod in the table, where the pod is
  -- found by its ID, also if every function of the cleaner works.
  pub add_pod-leaves :
      (w : World I)
      → level_of env.process_label ≡ none
      → let after = add_pod index level_of env w in
        (after.0 ≡ err create_failed) × (get_sandbox env.id after.1.tables ≡ some (new_pod env))
  unfolding add_pod add_sandbox get_sandbox
  add_pod-leaves w unlevelled =
      let before : World I = record w {
        tables = (add_sandbox level_of (new_pod env) w.tables).0;
      } in
      rw (unlevelled, add_pod)
        (
          refl,
          ap (get_sandbox env.id) (tables-undo_ctr_id before)
              ∙ lookup-add_sandbox level_of (new_pod env) w.tables,
        )

-- A RunPodSandbox with a kept infra container that the runtime has created, whose hooks or whose
-- start then fail, returns an error and leaves nothing of the pod in the daemon's tables, its indices,
-- its registrars and the storage, but the infra container stays in the runtime, also if every function
-- of the cleaner works. Nothing of the pod was there before, its label has a level, the indices take
-- its ID, its context lasts, and every call before the hooks is answered well.
pub run_pod_sandbox-leaves :
    {I : Type 0} (index : IdIndex I) (level_of : String → Option String) (env : RunEnv)
    (w : World I) (ids pods : I) (level : String)
    → ((u : Undo) → env.undo_fails u ≡ false)
    → env.keeps_infra ≡ true
    → IsLaunched env
    → env.hooks_found && env.pre_starts && (not env.keeps_infra || env.starts) ≡ false
    → env.context_ended ≡ false
    → level_of env.process_label ≡ some level
    → index.add env.id w.ctr_ids ≡ some ids
    → index.add env.id w.pod_ids ≡ some pods
    → IsPodAbsent index env none w
    → let after = run_pod_sandbox index level_of env w in
      (after.0 ≡ err create_failed)
      × IsPodAbsent index env none after.1
      × (contains after.1.runtime env.id ≡ true)
run_pod_sandbox-leaves index level_of env w ids pods level undos_work kept launched unstarted lasts
      levelled added pod_added absent =
    let same =
      run_pod_sandbox-start_infra index level_of env launched w ids pods level absent.pod_free
        absent.ctr_held levelled added pod_added in
    let (failed, left) =
      start_infra-leaves index level_of env undos_work (with_launched level_of env ids pods w)
        unstarted in
    let fails = ap (λ r. r.0) same ∙ failed in
    (
      fails,
      run_pod_sandbox-IsPodAbsent index level_of env w create_failed level none levelled undos_work
          lasts (λ e. absurd (ground (arith, e))) absent fails,
      ap (λ r. contains r.1.runtime env.id) same
          ∙ ap (λ l. contains l env.id) left
          ∙ ground (arith, kept, contains-append_one w.runtime env.id env.id, ==_refl env.id),
    )
