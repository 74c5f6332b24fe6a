-- ===== src/Handlers/Run/Removed.antt =====
-- server/sandbox_run_linux.go and server/sandbox_remove.go: RemovePodSandbox of a pod that
-- RunPodSandbox has made.
use mathlib.Core.Path.{subst}
use cri_t.Prelude.{
  branches, Option-cases, string_eq, nat_eq, ==_refl, contains, String, ◌≡◌, refl, sym, ap, ◌∙◌,
  inl, inr, true, false, ◌&&◌, not, Option, none, some, arith,
}
use cri_t.Server.{
  Ctr, Sandbox, Server, get_infra_container, remove_container, remove_infra_container, get_sandbox,
}
use cri_t.Handlers.Index.{IdIndex}
use cri_t.Handlers.{World}
use cri_t.Handlers.Cleaner.{contains-without}
use cri_t.Prelude.Maps.{lookup, lookup-delete}
use cri_t.Handlers.Run.{RunEnv, infra_of}
use cri_t.Handlers.Run.Undone.{IsPodAbsent, infra_containers-remove_sandbox}
use cri_t.Handlers.Run.Outcomes.{running_pod, IsPodKnown}
use cri_t.Handlers.Remove.{
  StopEnv, RemoveEnv, Outcome, remove_from_pod, stop_container, forget, delete_stopped,
  remove_container_in_pod,
}
use cri_t.Handlers.Remove.Effect.{
  deleted, remove_container_in_pod-cases, remove_container_in_pod-IsAbsent,
}
use cri_t.Handlers.Remove.Pod.{
  RemovePodEnv, remove_all, forget_pod, tear_down, remove_infra, remove_pod_sandbox,
}
use cri_t.Handlers.Remove.Pod.Monotone.{step-Has}
use cri_t.Handlers.Remove.Pod.TearDown.{tear_down-none, forget_pod-IsGone, forget_pod-IsAbsent}

infra_containers-remove_container :
    (c : Ctr) (s : Server) → (remove_container c s).infra_containers ≡ s.infra_containers
unfolding remove_container
infra_containers-remove_container c s = ground arith

infra_containers-remove_from_pod :
    (c : Ctr) (s : Server) → (remove_from_pod c s).infra_containers ≡ s.infra_containers
unfolding remove_from_pod
infra_containers-remove_from_pod c s = ground arith

module _ {I : Type 0} (index : IdIndex I) (c : Ctr) where
  infra_containers-forget :
      (w : World I) → (forget index c w).0.tables.infra_containers ≡ w.tables.infra_containers
  unfolding forget
  infra_containers-forget w =
      let removed = infra_containers-remove_container c w.tables in
      elim (Option-cases (index.remove c.id w.ctr_ids)) [
        | inl out ↦ rw (out, forget) removed
        | inr (ids, hit) ↦
            rw (hit, forget)
              (infra_containers-remove_from_pod c (remove_container c w.tables) ∙ removed)
      ]

  running-forget : (w : World I) → (forget index c w).0.running ≡ w.running
  unfolding forget
  running-forget w = elim (Option-cases (index.remove c.id w.ctr_ids)) [
    | inl out ↦ rw (out, forget) refl
    | inr (ids, hit) ↦ rw (hit, forget) refl
  ]

  running-delete_stopped :
      (env : RemoveEnv) (w : World I) → (delete_stopped index env c w).0.running ≡ w.running
  unfolding delete_stopped
  running-delete_stopped env w =
      let P : Outcome I → Type 0 = λ out. out.0.running ≡ w.running in
      branches P (not env.deletes) (λ h. refl)
        (λ h.
          branches P (not env.removes_exit_file) (λ h. refl)
            (λ h. branches P (not env.deletes_storage) (λ h. refl) (λ h. running-forget _)))

  abbrev Stopped : Outcome I → Type 0
  Stopped out = out.1 ≡ none → contains out.0.running c.id ≡ false

  stop_container-Stopped : (env : StopEnv) (w : World I) → Stopped (stop_container env c w)
  unfolding stop_container
  stop_container-Stopped env w = elim (Option-cases (get_sandbox c.sandbox_id w.tables)) [
    | inl out ↦ rw (out, stop_container) (λ good. absurd (ground (arith, good)))
    | inr (sb, found) ↦
        rw (found, stop_container)
          (branches Stopped (not (env.hooks_found && env.pre_stops))
            (λ bad good. absurd (ground (arith, good)))
            (λ fine.
              branches Stopped (not env.stops) (λ bad good. absurd (ground (arith, good)))
                (λ stops good. ground (arith, contains-without c.id c.id w.running, ==_refl c.id))))
  ]

  delete_stopped-Stopped :
      (env : RemoveEnv) (r : Outcome I)
      → Stopped r
      → Stopped (elim r.1 [ some e ↦ (r.0, some e) | none ↦ delete_stopped index env c r.0 ])
  delete_stopped-Stopped env (w, none) stopped good =
      ap (λ l. contains l c.id) (running-delete_stopped env w) ∙ stopped refl
  delete_stopped-Stopped env (w, some e) stopped good = absurd (ground (arith, good))

  -- Of a pod that is not stopped.
  remove_container_in_pod-Stopped :
      (env : RemoveEnv) (sb : Sandbox) (w : World I)
      → sb.is_stopped ≡ false
      → Stopped (remove_container_in_pod index env sb c w)
  unfolding remove_container_in_pod
  remove_container_in_pod-Stopped env sb w runs =
      branches Stopped sb.is_stopped (λ stopped. absurd (ground (arith, stopped, runs)))
        (λ h.
          delete_stopped-Stopped env (stop_container env.stopping c w)
            (stop_container-Stopped env.stopping w))

  infra_containers-remove_container_in_pod :
      (env : RemoveEnv) (sb : Sandbox) (w : World I)
      → (remove_container_in_pod index env sb c w).0.tables.infra_containers
        ≡ w.tables.infra_containers
  infra_containers-remove_container_in_pod env sb w =
      elim (remove_container_in_pod-cases index c env sb w) [
        | inl (e, bad, kept) ↦ ap (λ s. s.infra_containers) kept.1
        | inr (v, kept, all) ↦
            ap (λ r. r.0.tables.infra_containers) all
            ∙ infra_containers-forget (deleted index c v)
            ∙ ap (λ s. s.infra_containers) kept.1
      ]

module _ {I : Type 0} (index : IdIndex I) (level_of : String → Option String) where
  tear_down-forget_pod :
      (env : RemovePodEnv) (sb : Sandbox) (r : Outcome I)
      → let out : Outcome I = elim r.1 [
        | some e ↦ (r.0, some e)
        | none ↦ tear_down index level_of env sb r.0
      ] in
        out.1 ≡ none → (r.1 ≡ none) × (out ≡ forget_pod index level_of sb r.0)
  tear_down-forget_pod env sb (w, none) good = (refl, tear_down-none index level_of env sb w good)
  tear_down-forget_pod env sb (w, some e) good = absurd (ground (arith, good))

module _ {I : Type 0} (index : IdIndex I) (level_of : String → Option String) (env : RunEnv)
    (renv : RemovePodEnv) (w : World I) where
  -- RemoveContainer of the infra container, out of its table.
  abbrev without_infra : Outcome I
  without_infra =
      remove_container_in_pod index (renv.removing env.id) (running_pod true env) (infra_of env)
        (record w { tables = remove_infra_container (infra_of env) w.tables })

  remove_pod_sandbox-forget_pod :
      let out = remove_pod_sandbox index level_of renv (running_pod true env) w in
      out.1 ≡ none
      → (without_infra.1 ≡ none)
        × (out ≡ forget_pod index level_of (running_pod true env) without_infra.0)
  unfolding remove_pod_sandbox remove_infra remove_all
  remove_pod_sandbox-forget_pod =
      branches
        (λ (out : Outcome I).
          out.1 ≡ none
          → (without_infra.1 ≡ none)
            × (out ≡ forget_pod index level_of (running_pod true env) without_infra.0))
        (not renv.unmounts_shm) (λ bad good. absurd (ground (arith, good)))
        (λ fine. tear_down-forget_pod index level_of renv (running_pod true env) without_infra)

  infra_containers-forget_pod :
      (v : World I)
      → (forget_pod index level_of (running_pod true env) v).0.tables.infra_containers
        ≡ v.tables.infra_containers
  unfolding forget_pod
  infra_containers-forget_pod v = elim (Option-cases (index.remove env.id v.pod_ids)) [
    | inl out ↦ rw (out, forget_pod) (infra_containers-remove_sandbox level_of env.id v.tables)
    | inr (ids, hit) ↦
        rw (hit, forget_pod) (infra_containers-remove_sandbox level_of env.id v.tables)
  ]

  running-forget_pod :
      (v : World I) → (forget_pod index level_of (running_pod true env) v).0.running ≡ v.running
  unfolding forget_pod
  running-forget_pod v = elim (Option-cases (index.remove env.id v.pod_ids)) [
    | inl out ↦ rw (out, forget_pod) refl
    | inr (ids, hit) ↦ rw (hit, forget_pod) refl
  ]

  -- If a pod runs whose RunPodSandbox is known, its label has a level, and RemovePodSandbox of
  -- the pod succeeds, then nothing of it is left.
  pub remove_pod_sandbox-IsPodAbsent :
      (level : String)
      → level_of env.process_label ≡ some level
      → IsPodKnown index env w
      → let out = remove_pod_sandbox index level_of renv (running_pod true env) w in
        out.1 ≡ none → IsPodAbsent index env none out.0
  unfolding get_infra_container get_sandbox remove_infra_container
  remove_pod_sandbox-IsPodAbsent level parses r good =
      let sb = running_pod true env in
      let (done, same) = remove_pod_sandbox-forget_pod good in
      let v : World I = without_infra.0 in
      let last : (forget_pod index level_of sb v).1 ≡ none = ap (λ o. o.1) (sym same) ∙ good in
      let gone =
        forget_pod-IsGone index level_of sb env.process_label level v parses
          (step-Has index (renv.removing env.id) sb (infra_of env) env.process_label env.id
            (record w { tables = remove_infra_container (infra_of env) w.tables })
            (sb, r.tabled, refl))
          last in
      let absent = forget_pod-IsAbsent index level_of sb env.id env.ctr_name v (
        remove_container_in_pod-IsAbsent index (infra_of env) (renv.removing env.id) sb sb
          (record w { tables = remove_infra_container (infra_of env) w.tables }) r.tabled done) in
      subst (λ (out : Outcome I). IsPodAbsent index env none out.0) (sym same)
        (record {
          pod_free = gone.free;
          ctr_held = absent.free;
          unstored = absent.unstored;
          unindexed = absent.unindexed;
          untabled = gone.untabled;
          pod_unindexed = gone.unindexed;
          infra_untabled =
              ap (lookup env.id) (
                infra_containers-forget_pod v
                ∙ infra_containers-remove_container_in_pod index (infra_of env)
                    (renv.removing env.id) sb
                    (record w { tables = remove_infra_container (infra_of env) w.tables }))
              ∙ ground
                  (arith, lookup-delete env.id env.id w.tables.infra_containers, ==_refl env.id);
          unstarted =
              ap (λ l. contains l env.id) (running-forget_pod v)
              ∙ remove_container_in_pod-Stopped index (infra_of env) (renv.removing env.id) sb _
                  refl done;
        })
