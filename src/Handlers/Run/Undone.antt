-- ===== src/Handlers/Run/Undone.antt =====
-- server/sandbox_run_linux.go: what the functions of the cleaner of RunPodSandbox undo.
use cri_t.Prelude.{
  branches, Option-cases, string_eq, nat_eq, ==_refl, contains, String, ◌≡◌, ap, ◌∙◌, inl, inr,
  false, Option, none, some, arith,
}
use cri_t.Prelude.Maps.{lookup, lookup-delete, lookup-insert}
use cri_t.Server.{
  Sandbox, Server, set_infra_container, add_infra_container, get_infra_container,
  remove_infra_container, get_sandbox, remove_sandbox,
}
use cri_t.Handlers.Index.{IdIndex}
use cri_t.Handlers.Cleaner.{
  lookup-release, contains-without, undo-delete_id, undo-delete_pod_id, undo_each,
}
use cri_t.Handlers.{
  release_name, delete_storage, delete_id, delete_runtime, delete_pod_id, drop_sandbox, drop_infra,
  halt_infra, World, undo,
}
use cri_t.Handlers.Run.{
  RunEnv, infra_of, attach_infra, undo_pod_name, undo_ctr_name, undo_pod_storage, undo_shm,
  undo_ctr_id, undo_sandbox, undo_pod_id, undo_namespaces, undo_network, undo_infra, undo_start,
}

-- Nothing of a pod is left, and the name of its infra container is held as before.
pub record IsPodAbsent {I : Type 0} (index : IdIndex I) (env : RunEnv) (holder : Option String)
    (w : World I) : Type 0 where
  pub pod_free : lookup env.name w.pod_names.names ≡ none
  pub ctr_held : lookup env.ctr_name w.ctr_names.names ≡ holder
  pub unstored : contains w.storage env.id ≡ false
  pub unindexed : index.holds env.id w.ctr_ids ≡ false
  pub untabled : get_sandbox env.id w.tables ≡ none
  pub pod_unindexed : index.holds env.id w.pod_ids ≡ false
  pub infra_untabled : get_infra_container env.id w.tables ≡ none
  pub unstarted : contains w.running env.id ≡ false

-- What the request has still not changed, after each of its steps from the last one on.
module _ {I : Type 0} (index : IdIndex I) (env : RunEnv) where
  abbrev pub BeforeStart : World I → Type 0
  BeforeStart w = contains w.running env.id ≡ false

  abbrev pub BeforeInfra : World I → Type 0
  BeforeInfra w = (get_infra_container env.id w.tables ≡ none) × BeforeStart w

  abbrev pub BeforePodId : World I → Type 0
  BeforePodId w = (index.holds env.id w.pod_ids ≡ false) × BeforeInfra w

  abbrev pub BeforeTable : World I → Type 0
  BeforeTable w = (get_sandbox env.id w.tables ≡ none) × BeforePodId w

  abbrev pub BeforeId : World I → Type 0
  BeforeId w = (index.holds env.id w.ctr_ids ≡ false) × BeforeTable w

  abbrev pub BeforeStorage : World I → Type 0
  BeforeStorage w = (contains w.storage env.id ≡ false) × BeforeId w

-- The pod stands in the table with its label.
abbrev pub IsTabled : {I : Type 0} → RunEnv → World I → Type 0
IsTabled env w =
    (now : Sandbox) × (lookup env.id w.tables.sandboxes ≡ some now)
    × (now.process_label ≡ env.process_label)

pub get_sandbox-remove_sandbox :
    (level_of : String → Option String) (level id : String) (now : Sandbox) (s : Server)
    → lookup id s.sandboxes ≡ some now
    → level_of now.process_label ≡ some level
    → get_sandbox id (remove_sandbox level_of id s).0 ≡ none
unfolding get_sandbox remove_sandbox
get_sandbox-remove_sandbox level_of level id now s found levelled =
    ground (arith, found, levelled, lookup-delete id id s.sandboxes, ==_refl id)

pub infra_containers-remove_sandbox :
    (level_of : String → Option String) (id : String) (s : Server)
    → (remove_sandbox level_of id s).0.infra_containers ≡ s.infra_containers
unfolding remove_sandbox
infra_containers-remove_sandbox level_of id s = elim (Option-cases (lookup id s.sandboxes)) [
  | inl out ↦ ground (arith, out)
  | inr (sb, found) ↦ elim (Option-cases (level_of sb.process_label)) [
    | inl bad ↦ ground (arith, found, bad)
    | inr (level, good) ↦ ground (arith, found, good)
  ]
]

-- The cleaner from each of its functions on.
module _ {I : Type 0} (index : IdIndex I) (env : RunEnv) where
  pub undo_pod_name-IsPodAbsent :
      (w : World I) (holder : Option String)
      → lookup env.ctr_name w.ctr_names.names ≡ holder
      → BeforeStorage index env w
      → IsPodAbsent index env holder (undo_each index (undo_pod_name env) w)
  unfolding undo_each undo
  undo_pod_name-IsPodAbsent w holder held (s, (i, (t, (p, (f, r))))) = record {
    pod_free = ground (arith, lookup-release env.name env.name w.pod_names, ==_refl env.name);
    ctr_held = held;
    unstored = s;
    unindexed = i;
    untabled = t;
    pod_unindexed = p;
    infra_untabled = f;
    unstarted = r;
  }

  pub undo_ctr_name-IsPodAbsent :
      (w : World I)
      → BeforeStorage index env w
      → IsPodAbsent index env none (undo_each index (undo_ctr_name env) w)
  unfolding undo_each undo
  undo_ctr_name-IsPodAbsent w before =
      undo_pod_name-IsPodAbsent (undo index (release_name env.ctr_name) w) none
        (ground (arith, lookup-release env.ctr_name env.ctr_name w.ctr_names, ==_refl env.ctr_name))
        before

  pub undo_pod_storage-IsPodAbsent :
      (w : World I)
      → BeforeId index env w
      → IsPodAbsent index env none (undo_each index (undo_pod_storage env) w)
  unfolding undo_each undo
  undo_pod_storage-IsPodAbsent w before =
      undo_ctr_name-IsPodAbsent (undo index (delete_storage env.id) w)
        (ground (arith, contains-without env.id env.id w.storage, ==_refl env.id), before)

  pub undo_shm-IsPodAbsent :
      (w : World I)
      → BeforeId index env w
      → IsPodAbsent index env none (undo_each index (undo_shm env) w)
  unfolding undo_each undo undo_shm
  undo_shm-IsPodAbsent w before =
      let stored = undo_pod_storage-IsPodAbsent w before in
      branches (λ us. IsPodAbsent index env none (undo_each index us w)) env.host_ipc
        (λ host. stored) (λ own. stored)

  pub undo_ctr_id-IsPodAbsent :
      (w : World I)
      → BeforeTable index env w
      → IsPodAbsent index env none (undo_each index (undo_ctr_id env) w)
  unfolding undo_each undo
  undo_ctr_id-IsPodAbsent w before =
      undo_shm-IsPodAbsent (undo index (delete_id env.id) w) (undo-delete_id index env.id w, before)

-- From here on the pod is in the table, with a label that has a level.
module _ {I : Type 0} (index : IdIndex I) (env : RunEnv) (level_of : String → Option String)
    (level : String) (levelled : level_of env.process_label ≡ some level) where
  pub undo_sandbox-IsPodAbsent :
      (w : World I)
      → IsTabled env w
      → BeforePodId index env w
      → IsPodAbsent index env none (undo_each index (undo_sandbox level_of env) w)
  unfolding undo_each undo get_infra_container
  undo_sandbox-IsPodAbsent w (now, found, same) (p, (f, r)) =
      undo_ctr_id-IsPodAbsent index env (undo index (drop_sandbox level_of env.id) w) (
        get_sandbox-remove_sandbox level_of level env.id now w.tables found
            (ap level_of same ∙ levelled),
        (p, (ap (lookup env.id) (infra_containers-remove_sandbox level_of env.id w.tables) ∙ f, r)),
      )

  pub undo_pod_id-IsPodAbsent :
      (w : World I)
      → IsTabled env w
      → BeforeInfra index env w
      → IsPodAbsent index env none (undo_each index (undo_pod_id level_of env) w)
  unfolding undo_each undo
  undo_pod_id-IsPodAbsent w tabled before =
      undo_sandbox-IsPodAbsent (undo index (delete_pod_id env.id) w) tabled
        (undo-delete_pod_id index env.id w, before)

  pub undo_namespaces-IsPodAbsent :
      (w : World I)
      → IsTabled env w
      → BeforeInfra index env w
      → IsPodAbsent index env none (undo_each index (undo_namespaces level_of env) w)
  unfolding undo_each undo
  undo_namespaces-IsPodAbsent w = undo_pod_id-IsPodAbsent w

  pub undo_network-IsPodAbsent :
      (w : World I)
      → IsTabled env w
      → BeforeInfra index env w
      → IsPodAbsent index env none (undo_each index (undo_network level_of env) w)
  unfolding undo_each undo
  undo_network-IsPodAbsent w = undo_namespaces-IsPodAbsent w

  pub undo_infra-IsPodAbsent :
      (w : World I)
      → IsTabled env w
      → BeforeStart index env w
      → IsPodAbsent index env none (undo_each index (undo_infra level_of env) w)
  unfolding undo_each undo get_infra_container remove_infra_container
  undo_infra-IsPodAbsent w tabled before =
      undo_network-IsPodAbsent (undo index (drop_infra (infra_of env)) w) tabled (
        ground (arith, lookup-delete env.id env.id w.tables.infra_containers, ==_refl env.id),
        before,
      )

  pub undo_start-IsPodAbsent :
      (w : World I)
      → IsTabled env w
      → IsPodAbsent index env none (undo_each index (undo_start level_of env) w)
  unfolding undo_each undo
  undo_start-IsPodAbsent w tabled =
      undo_infra-IsPodAbsent
        (undo index (delete_runtime env.id) (undo index (halt_infra (infra_of env)) w)) tabled
        (ground (arith, contains-without env.id env.id w.running, ==_refl env.id))

pub attach_infra-IsTabled :
    {I : Type 0} (env : RunEnv) (w : World I)
    → IsTabled env w
    → IsTabled env (record w { tables = attach_infra (infra_of env) w.tables })
unfolding attach_infra add_infra_container set_infra_container
attach_infra-IsTabled env w (now, found, same) = (
  (set_infra_container (infra_of env) now).0,
  ground (
    arith,
    found,
    lookup-insert env.id env.id (set_infra_container (infra_of env) now).0 w.tables.sandboxes,
    ==_refl env.id,
  ),
  ground (arith, same),
)
