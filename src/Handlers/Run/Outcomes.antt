-- ===== src/Handlers/Run/Outcomes.antt =====
-- server/sandbox_run_linux.go: the pod after a RunPodSandbox of which no step fails.
use mathlib.Core.Path.{subst}
use cri_t.Prelude.{
  else_branch, Option-cases, string_eq, nat_eq, ==_refl, contains, contains-append_one, ok, String,
  ◌≡◌, refl, sym, ap, ◌∙◌, inl, inr, Bool, true, false, Option, none, some, List, arith,
}
use cri_t.Prelude.Maps.{lookup, lookup-insert}
use cri_t.Registrar.Lookups.{lookup-reserve}
use cri_t.ResourceStore.{ResourceStore}
use cri_t.Server.{
  Sandbox, Server, set_infra_container, add_infra_container, get_infra_container, get_sandbox,
  add_sandbox,
}
use cri_t.Handlers.Index.{IdIndex}
use cri_t.Handlers.{Undo, World}
use cri_t.Handlers.Run.{
  RunEnv, new_pod, infra_of, with_infra, mark_created, attach_infra, finish, run_pod_sandbox,
}
use cri_t.Handlers.Run.Started.{IsFine, with_pod, run_pod_sandbox-finish}

abbrev pub running_pod : Bool → RunEnv → Sandbox
running_pod made env = record (new_pod env) {
  infra_container = some (infra_of env);
  is_created = made;
}

-- The daemon knows the pod wherever it looks.
pub record IsPodKnown {I : Type 0} (index : IdIndex I) (env : RunEnv) (w : World I) : Type 0 where
  pub named : lookup env.name w.pod_names.names ≡ some env.id
  pub infra_named : lookup env.ctr_name w.ctr_names.names ≡ some env.reserved_id
  pub tabled : get_sandbox env.id w.tables ≡ some (running_pod true env)
  pub infra_tabled : get_infra_container env.id w.tables ≡ some (infra_of env)
  pub indexed : index.holds env.id w.ctr_ids ≡ true
  pub pod_indexed : index.holds env.id w.pod_ids ≡ true
  pub stored : contains w.storage env.id ≡ true

lookup-attach_infra :
    (env : RunEnv) (s : Server) (sb : Sandbox)
    → lookup env.id s.sandboxes ≡ some sb
    → lookup env.id (attach_infra (infra_of env) s).sandboxes
      ≡ some (set_infra_container (infra_of env) sb).0
unfolding attach_infra add_infra_container
lookup-attach_infra env s sb found = ground (
  arith,
  found,
  lookup-insert env.id env.id (set_infra_container (infra_of env) sb).0 s.sandboxes,
  ==_refl env.id,
)

get_infra_container-attach_infra :
    (env : RunEnv) (s : Server)
    → get_infra_container env.id (attach_infra (infra_of env) s) ≡ some (infra_of env)
unfolding attach_infra add_infra_container get_infra_container
get_infra_container-attach_infra env s = elim (Option-cases (lookup env.id s.sandboxes)) [
  | inl out ↦
      ground
        (arith, out, lookup-insert env.id env.id (infra_of env) s.infra_containers, ==_refl env.id)
  | inr (sb, found) ↦
      ground (
        arith,
        found,
        lookup-insert env.id env.id (infra_of env) s.infra_containers,
        ==_refl env.id,
      )
]

-- Also where the label has no level.
pub lookup-add_sandbox :
    (level_of : String → Option String) (sb : Sandbox) (s : Server)
    → lookup sb.id (add_sandbox level_of sb s).0.sandboxes ≡ some sb
unfolding add_sandbox
lookup-add_sandbox level_of sb s =
    let found = lookup-insert sb.id sb.id sb s.sandboxes in
    elim (Option-cases (level_of sb.process_label)) [
      | inl bad ↦ ground (arith, bad, found, ==_refl sb.id)
      | inr (level, good) ↦ ground (arith, good, found, ==_refl sb.id)
    ]

infra_containers-mark_created :
    (id : String) (s : Server) → (mark_created id s).infra_containers ≡ s.infra_containers
unfolding mark_created
infra_containers-mark_created id s = elim (Option-cases (lookup id s.sandboxes)) [
  | inl out ↦ ground (arith, out)
  | inr (sb, found) ↦ ground (arith, found)
]

pub get_sandbox-mark_created :
    (id : String) (s : Server) (sb : Sandbox)
    → lookup id s.sandboxes ≡ some sb
    → get_sandbox id (mark_created id s) ≡ some (record sb { is_created = true })
unfolding mark_created get_sandbox
get_sandbox-mark_created id s sb found =
    ground
      (arith, found, lookup-insert id id (record sb { is_created = true }) s.sandboxes, ==_refl id)

module _ {I : Type 0} (index : IdIndex I) (level_of : String → Option String) (env : RunEnv)
    (w : World I) (ids pods : I) (level : String) (free : lookup env.name w.pod_names.names ≡ none)
    (ctr_free : lookup env.ctr_name w.ctr_names.names ≡ none)
    (levelled : level_of env.process_label ≡ some level)
    (added : index.add env.id w.ctr_ids ≡ some ids)
    (pod_added : index.add env.id w.pod_ids ≡ some pods) where
  pub lookup-with_pod :
      lookup env.id (with_pod level_of env ids pods w).tables.sandboxes
      ≡ some (running_pod false env)
  unfolding set_infra_container
  lookup-with_pod =
      lookup-attach_infra env (add_sandbox level_of (new_pod env) w.tables).0 (new_pod env)
        (lookup-add_sandbox level_of (new_pod env) w.tables)

  with_pod-IsPodKnown :
      (store : ResourceStore (List Undo))
      → let after = with_pod level_of env ids pods w in
        IsPodKnown index env
          (record after { resources = store; tables = mark_created env.id after.tables })
  unfolding get_infra_container
  with_pod-IsPodKnown store = record {
    named = lookup-reserve env.name env.id w.pod_names free;
    infra_named = lookup-reserve env.ctr_name env.reserved_id w.ctr_names ctr_free;
    tabled =
        get_sandbox-mark_created env.id (with_pod level_of env ids pods w).tables
          (running_pod false env) lookup-with_pod;
    infra_tabled =
        ap (lookup env.id) (infra_containers-mark_created env.id _)
        ∙ get_infra_container-attach_infra env (add_sandbox level_of (new_pod env) w.tables).0;
    indexed = ground (arith, index.add_holds env.id env.id w.ctr_ids ids added, ==_refl env.id);
    pod_indexed =
        ground (arith, index.add_holds env.id env.id w.pod_ids pods pod_added, ==_refl env.id);
    stored = ground (arith, contains-append_one w.storage env.id env.id, ==_refl env.id);
  }

-- If every call out of the daemon is answered well, the names and the ID of a pod are free, its
-- label has a level and its context lasts, then RunPodSandbox returns the ID of the pod, and the
-- daemon knows the pod: it stands in the table with its infra container, created, and its ID and that
-- of its infra container, which are the same, in the indices and the storage. The runtime has created
-- and started the infra container if it is kept, and is left as it was if it is spoofed.
pub run_pod_sandbox-IsPodKnown :
    {I : Type 0} (index : IdIndex I) (level_of : String → Option String) (env : RunEnv)
    (w : World I) (ids pods : I) (level : String)
    → IsFine env
    → env.context_ended ≡ false
    → lookup env.name w.pod_names.names ≡ none
    → lookup env.ctr_name w.ctr_names.names ≡ none
    → level_of env.process_label ≡ some level
    → index.add env.id w.ctr_ids ≡ some ids
    → index.add env.id w.pod_ids ≡ some pods
    → let after = run_pod_sandbox index level_of env w in
      (after.0 ≡ ok env.id)
      × IsPodKnown index env after.1
      × (after.1.runtime ≡ with_infra env w.runtime)
      × (after.1.running ≡ with_infra env w.running)
unfolding finish
run_pod_sandbox-IsPodKnown index level_of env w ids pods level fine lasts free ctr_free levelled
      added pod_added =
    subst
      (λ r.
        (r.0 ≡ ok env.id)
        × IsPodKnown index env r.1
        × (r.1.runtime ≡ with_infra env w.runtime)
        × (r.1.running ≡ with_infra env w.running))
      (sym (
        run_pod_sandbox-finish index level_of env fine w ids pods level free ctr_free levelled added
          pod_added
        ∙ else_branch _ _ lasts))
      (
        refl,
        with_pod-IsPodKnown index level_of env w ids pods level free ctr_free levelled added
            pod_added _,
        refl,
        refl,
      )
