-- ===== src/Handlers/Create/Swept.antt =====
-- server/container_create.go and internal/resourcestore: the cleaner of a container whose request ran
-- out of time, which the sweep runs if nobody fetches the container.
use cri_t.Prelude.{string_eq, nat_eq, ◌≡◌, refl, ◌∙◌, Bool, true, false, none, some, List}
use cri_t.Prelude.Maps.{lookup}
use cri_t.ResourceStore.{Resource, is_entry_put}
use cri_t.ResourceStore.Lifetime.{lookup-put, entry}
use cri_t.ResourceStore.Lifetime.{lookup-put, entry}
use cri_t.ResourceStore.Waiting.{is_entry_put-set_stage_for_resource}
use cri_t.Registrar.{reserve}
use cri_t.Server.{Sandbox}
use cri_t.Handlers.Index.{IdIndex}
use cri_t.Handlers.Cleaner.{run_undos-undo_each}
use cri_t.Handlers.{Undo, World, run_undos}
use cri_t.Handlers.Create.{
  CreateEnv, conclude, made_container, undo_all, launch, register, build, create_in,
}
use cri_t.Handlers.Create.Undone.{IsAbsent, undo_all-IsAbsent, lookup-add_container}

module _ {I : Type 0} (index : IdIndex I) (sb : Sandbox) (env : CreateEnv)
    (builds : env.builds ≡ true) (launches : env.launches ≡ true)
    (late : env.context_ended ≡ true) where
  -- The whole cleaner is in the store, and the pod in the table.
  abbrev Stores : World I → Type 0
  Stores w =
      ((r : Resource (List Undo)) × (lookup env.name w.resources.resources ≡ some r)
        × (r.cleaner ≡ some (undo_all sb env)))
      × ((now : Sandbox) × (lookup sb.id w.tables.sandboxes ≡ some now))

  abbrev Fresh : World I → Type 0
  Fresh w = is_entry_put (lookup env.name w.resources.resources) ≡ false

  conclude-Stores :
      (w : World I) (now : Sandbox)
      → Fresh w
      → lookup sb.id w.tables.sandboxes ≡ some now
      → Stores (conclude env (undo_all sb env) w).1
  unfolding conclude
  conclude-Stores w now fresh pod =
      rw (late, conclude)
        (
          (
            entry env.name env.id (undo_all sb env) w.resources,
            lookup-put env.name env.id (undo_all sb env) w.resources fresh,
            refl,
          ),
          (now, pod),
        )

  launch-Stores :
      (w : World I) (now : Sandbox)
      → Fresh w
      → lookup sb.id w.tables.sandboxes ≡ some now
      → Stores (launch index sb env w).1
  unfolding launch
  launch-Stores w now fresh pod = rw (launches, launch) (conclude-Stores _ now fresh pod)

  register-Stores :
      (w : World I) (now : Sandbox) (ids : I)
      → index.add env.id w.ctr_ids ≡ some ids
      → Fresh w
      → lookup sb.id w.tables.sandboxes ≡ some now
      → Stores (register index sb env w).1
  unfolding register
  register-Stores w now ids added fresh pod =
      let (later, here) = lookup-add_container (made_container sb env) w.tables now pod in
      rw (added, register)
        (launch-Stores _ later (is_entry_put-set_stage_for_resource env.name w.resources _ ∙ fresh)
          here)

  build-Stores :
      (w : World I) (now : Sandbox) (ids : I)
      → index.add env.id w.ctr_ids ≡ some ids
      → Fresh w
      → lookup sb.id w.tables.sandboxes ≡ some now
      → Stores (build index sb env w).1
  unfolding build
  build-Stores w now ids added fresh pod =
      rw (builds, build) (register-Stores _ now ids added fresh pod)

  create_in-Stores :
      (w : World I) (now : Sandbox) (ids : I)
      → lookup env.name w.ctr_names.names ≡ none
      → Fresh w
      → index.add env.id w.ctr_ids ≡ some ids
      → lookup sb.id w.tables.sandboxes ≡ some now
      → Stores (create_in index sb env w).1
  unfolding create_in reserve
  create_in-Stores w now ids free fresh added pod =
      rw (free, create_in)
        (build-Stores _ now ids added
          (is_entry_put-set_stage_for_resource env.name w.resources _ ∙ fresh) pod)

-- If a CreateContainer ends after its context, with all its steps good, a name that was free and
-- nothing put under it, and its pod in the table, then the resource store has under the name a
-- cleaner that, run in that state without a failure, as the sweep runs it, leaves nothing of the
-- container.
pub create_in-swept :
    {I : Type 0} (index : IdIndex I) (sb now : Sandbox) (env : CreateEnv) (w : World I) (ids : I)
    (fails : Undo → Bool)
    → env.builds ≡ true
    → env.launches ≡ true
    → env.context_ended ≡ true
    → lookup env.name w.ctr_names.names ≡ none
    → is_entry_put (lookup env.name w.resources.resources) ≡ false
    → index.add env.id w.ctr_ids ≡ some ids
    → lookup sb.id w.tables.sandboxes ≡ some now
    → ((u : Undo) → fails u ≡ false)
    → let after = (create_in index sb env w).1 in
      (r : Resource (List Undo)) × (us : List Undo) × (lookup env.name after.resources.resources
        ≡ some r)
      × (r.cleaner ≡ some us)
      × IsAbsent index env.id env.name (run_undos index fails us after)
create_in-swept index sb now env w ids fails builds launches late free fresh added pod work =
    let after = (create_in index sb env w).1 in
    let ((r, there, cleans), (later, held)) =
      create_in-Stores index sb env builds launches late w now ids free fresh added pod in
    (
      r,
      undo_all sb env,
      there,
      cleans,
      rw (run_undos-undo_each index fails work (undo_all sb env) after)
          (undo_all-IsAbsent index sb env after later held),
    )
