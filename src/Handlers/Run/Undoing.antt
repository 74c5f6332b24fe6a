-- ===== src/Handlers/Run/Undoing.antt =====
-- server/sandbox_run.go and server/sandbox_remove.go: a pod that runs, and the request that removes
-- it.
use mathlib.Core.Path.{subst}
use cri_t.Prelude.{
  else_branch, string_eq, nat_eq, ◌==◌, ok, String, ◌≡◌, refl, sym, ap, ◌∙◌, true, false, Option,
  none, some,
}
use cri_t.Prelude.Maps.{lookup}
use cri_t.Handlers.Index.{IdIndex}
use cri_t.Handlers.{World}
use cri_t.Handlers.Create.{pod_from_request}
use cri_t.Handlers.Remove.{Outcome}
use cri_t.Handlers.Remove.Pod.{
  RemovePodEnv, find_pod, remove_pod_sandbox, remove_pod_sandbox_request,
}
use cri_t.Handlers.Run.{RunEnv, run_pod_sandbox}
use cri_t.Handlers.Run.Undone.{IsPodAbsent}
use cri_t.Handlers.Run.Started.{IsFine}
use cri_t.Handlers.Run.Outcomes.{running_pod, IsPodKnown, run_pod_sandbox-IsPodKnown}
use cri_t.Handlers.Run.Removed.{remove_pod_sandbox-IsPodAbsent}

pod_from_request-IsPodKnown :
    {I : Type 0} (index : IdIndex I) (level_of : String → Option String) (env : RunEnv)
    (w : World I)
    → IsPodKnown index env w
    → (env.id == "") ≡ false
    → index.find env.id w.pod_ids ≡ ok env.id
    → pod_from_request (find_pod index level_of w) env.id w.tables ≡ ok (running_pod true env)
unfolding pod_from_request find_pod
pod_from_request-IsPodKnown index level_of env w r full found =
    else_branch _ _ full ∙ rw (found, pod_from_request) (rw (r.tabled, pod_from_request) refl)

remove_pod_sandbox_request-IsPodKnown :
    {I : Type 0} (index : IdIndex I) (level_of : String → Option String) (env : RunEnv)
    (renv : RemovePodEnv) (w : World I)
    → IsPodKnown index env w
    → (env.id == "") ≡ false
    → index.find env.id w.pod_ids ≡ ok env.id
    → remove_pod_sandbox_request index level_of renv env.id w
      ≡ remove_pod_sandbox index level_of renv (running_pod true env) w
unfolding remove_pod_sandbox_request
remove_pod_sandbox_request-IsPodKnown index level_of env renv w r full found =
    rw (pod_from_request-IsPodKnown index level_of env w r full found, remove_pod_sandbox_request)
      refl

-- A RunPodSandbox without a failure and with free names and a free ID, and then a RemovePodSandbox of
-- the ID that succeeds, leave nothing of the pod: its names are free, its ID is in no table and no
-- index, the storage does not have it, and its infra container does not run. Its label has a level,
-- the ID is not empty and the index finds it by itself.
pub run_pod_sandbox-remove_pod_sandbox_request :
    {I : Type 0} (index : IdIndex I) (level_of : String → Option String) (env : RunEnv)
    (renv : RemovePodEnv) (w : World I) (ids pods : I) (level : String)
    → level_of env.process_label ≡ some level
    → IsFine env
    → env.context_ended ≡ false
    → lookup env.name w.pod_names.names ≡ none
    → lookup env.ctr_name w.ctr_names.names ≡ none
    → index.add env.id w.ctr_ids ≡ some ids
    → index.add env.id w.pod_ids ≡ some pods
    → (env.id == "") ≡ false
    → let after = (run_pod_sandbox index level_of env w).1 in
      let out = remove_pod_sandbox_request index level_of renv env.id after in
      index.find env.id after.pod_ids ≡ ok env.id → out.1 ≡ none → IsPodAbsent index env none out.0
run_pod_sandbox-remove_pod_sandbox_request {I = I} index level_of env renv w ids pods level levelled
      fine lasts free ctr_free added pod_added full found good =
    let after = (run_pod_sandbox index level_of env w).1 in
    let r =
      (run_pod_sandbox-IsPodKnown index level_of env w ids pods level fine lasts free ctr_free
        levelled added pod_added).1 in
    let same = remove_pod_sandbox_request-IsPodKnown index level_of env renv after r full found in
    subst (λ (out : Outcome I). IsPodAbsent index env none out.0) (sym same)
      (remove_pod_sandbox-IsPodAbsent index level_of env renv after level levelled r
        (ap (λ o. o.1) (sym same) ∙ good))
