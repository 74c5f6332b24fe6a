-- ===== src/Handlers/Run/Late.antt =====
-- server/sandbox_run_linux.go: what the second RunPodSandbox of a name gets after the first ran out
-- of time.
use mathlib.Core.Path.{subst}
use cri_t.Prelude.{
  then_branch, else_branch, string_eq, nat_eq, ◌==◌, ok, err, String, ◌≡◌, refl, sym, ap, ◌∙◌, true,
  false, not, Option, none, some, List,
}
use cri_t.Prelude.Maps.{lookup}
use cri_t.Registrar.{reserve, get as holder_of}
use cri_t.Registrar.Lookups.{lookup-reserve}
use cri_t.ResourceStore.{ResourceStore, is_entry_put, put, get as fetch_resource}
use cri_t.ResourceStore.Waiting.{is_entry_put-set_stage_for_resource, get-put}
use cri_t.Server.{get_sandbox}
use cri_t.Handlers.Index.{IdIndex}
use cri_t.Handlers.{Undo, World, timed_out}
use cri_t.Handlers.Create.{Answer, resource_or_wait}
use cri_t.Handlers.Run.{
  RunEnv, undo_start, mark_fetched, fetch_pod, duplicate_pod, finish, run_pod_sandbox,
}
use cri_t.Handlers.Run.Started.{IsFine, resources_at, with_pod, run_pod_sandbox-finish}
use cri_t.Handlers.Run.Outcomes.{running_pod, get_sandbox-mark_created, lookup-with_pod}

is_entry_put-resources_at :
    (env : RunEnv) (s : ResourceStore (List Undo))
    → is_entry_put (lookup env.name (resources_at env s).resources)
      ≡ is_entry_put (lookup env.name s.resources)
is_entry_put-resources_at env s =
    let stage = is_entry_put-set_stage_for_resource env.name in
    stage _ _
    ∙ stage _ _
    ∙ stage _ _
    ∙ stage _ _
    ∙ stage _ _
    ∙ stage _ _
    ∙ stage _ _
    ∙ stage _ _
    ∙ stage _ _

-- The pod waits under its name for a request that fetches it.
record IsPodWaiting {I : Type 0} (env : RunEnv) (w : World I) : Type 0 where
  held : lookup env.name w.pod_names.names ≡ some env.id
  tabled : lookup env.id w.tables.sandboxes ≡ some (running_pod false env)
  stored : (fetch_resource env.name w.resources).1 ≡ env.id

module _ {I : Type 0} (env : RunEnv) (w : World I) (waits : IsPodWaiting env w) where
  resource_or_wait-IsPodWaiting :
      (env.id == "") ≡ false
      → resource_or_wait env.name w
        ≡ (ok env.id, record w { resources = (fetch_resource env.name w.resources).0 })
  unfolding resource_or_wait
  resource_or_wait-IsPodWaiting full =
      let stored : (fetch_resource env.name w.resources).1 == "" ≡ false =
        ap (λ id. id == "") waits.stored ∙ full in
      then_branch _ _ (ap not stored) ∙ rw (waits.stored, resource_or_wait) refl

  duplicate_pod-fetch_pod : duplicate_pod env.name w ≡ fetch_pod env.name w
  unfolding duplicate_pod holder_of get_sandbox
  duplicate_pod-fetch_pod = rw (waits.held, duplicate_pod) (rw (waits.tabled, duplicate_pod) refl)

  -- The second request.
  duplicate_pod-IsPodWaiting :
      (env.id == "") ≡ false
      → let after = duplicate_pod env.name w in
        (after.0 ≡ ok env.id) × (get_sandbox env.id after.1.tables ≡ some (running_pod true env))
  unfolding fetch_pod mark_fetched
  duplicate_pod-IsPodWaiting full =
      let made = get_sandbox-mark_created env.id w.tables (running_pod false env) waits.tabled in
      subst
        (λ (r : Answer I).
          (r.0 ≡ ok env.id) × (get_sandbox env.id r.1.tables ≡ some (running_pod true env)))
        (sym (duplicate_pod-fetch_pod ∙ ap mark_fetched (resource_or_wait-IsPodWaiting full)))
        (refl, made)

run_pod_sandbox-duplicate_pod :
    {I : Type 0} (index : IdIndex I) (level_of : String → Option String) (env : RunEnv)
    (w : World I) (id : String)
    → env.config_ok ≡ true
    → lookup env.name w.pod_names.names ≡ some id
    → (id == env.id) ≡ false
    → run_pod_sandbox index level_of env w ≡ duplicate_pod env.name w
unfolding run_pod_sandbox reserve
run_pod_sandbox-duplicate_pod index level_of env w id fine held other =
    else_branch _ _ (ap not fine) ∙ rw (held, run_pod_sandbox) (rw other refl)

-- If a RunPodSandbox ends after its context, with all its steps good, its names and its ID free,
-- nothing put under its name and a label that has a level, the caller gets an error and the pod is
-- kept: the next RunPodSandbox of the name, with another ID, gets the ID of the first pod, which is
-- then in the table, created and with its infra container.
pub run_pod_sandbox-timed_out :
    {I : Type 0} (index : IdIndex I) (level_of : String → Option String) (env env' : RunEnv)
    (w : World I) (ids pods : I) (level : String)
    → IsFine env
    → env.context_ended ≡ true
    → lookup env.name w.pod_names.names ≡ none
    → lookup env.ctr_name w.ctr_names.names ≡ none
    → is_entry_put (lookup env.name w.resources.resources) ≡ false
    → level_of env.process_label ≡ some level
    → index.add env.id w.ctr_ids ≡ some ids
    → index.add env.id w.pod_ids ≡ some pods
    → (env.id == "") ≡ false
    → env'.config_ok ≡ true
    → env'.name ≡ env.name
    → (env.id == env'.id) ≡ false
    → let first = run_pod_sandbox index level_of env w in
      let second = run_pod_sandbox index level_of env' first.1 in
      (first.0 ≡ err timed_out)
      × (second.0 ≡ ok env.id)
      × (get_sandbox env.id second.1.tables ≡ some (running_pod true env))
unfolding finish
run_pod_sandbox-timed_out {I = I} index level_of env env' w ids pods level fine late free ctr_free
      fresh levelled added pod_added full fine' same other =
    let after = with_pod level_of env ids pods w in
    let stored : World I = record after {
      resources = (put env.name env.id (undo_start level_of env) after.resources).0;
    } in
    let ran : run_pod_sandbox index level_of env w ≡ (err timed_out, stored) =
      run_pod_sandbox-finish index level_of env fine w ids pods level free ctr_free levelled added
        pod_added
      ∙ then_branch _ _ late in
    let held = lookup-reserve env.name env.id w.pod_names free in
    let (gets, marked) =
      get-put env.name env.id (undo_start level_of env) after.resources
        (is_entry_put-resources_at env w.resources ∙ fresh) in
    let (out, made) =
      duplicate_pod-IsPodWaiting env stored
        (record {
          held = held;
          tabled =
              lookup-with_pod index level_of env w ids pods level free ctr_free levelled added
                pod_added;
          stored = gets;
        })
        full in
    let again : run_pod_sandbox index level_of env' stored ≡ duplicate_pod env.name stored =
      run_pod_sandbox-duplicate_pod index level_of env' stored env.id fine' (rw same held) other
      ∙ ap (λ n. duplicate_pod n stored) same in
    subst
      (λ r.
        (r.0 ≡ err timed_out)
        × ((run_pod_sandbox index level_of env' r.1).0 ≡ ok env.id)
        × (get_sandbox env.id (run_pod_sandbox index level_of env' r.1).1.tables
            ≡ some (running_pod true env)))
      (sym ran)
      (refl, ap (λ r. r.0) again ∙ out, ap (λ r. get_sandbox env.id r.1.tables) again ∙ made)
