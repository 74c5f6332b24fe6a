-- ===== src/Handlers/Create/Undone.antt =====
-- server/container_create.go: what the functions of the cleaner of CreateContainer undo.
use cri_t.Prelude.{string_eq, nat_eq, ==_refl, contains, String, ◌≡◌, false, none, some, arith}
use cri_t.Prelude.Maps.{lookup, insert, lookup-delete, lookup-insert}
use cri_t.Handlers.Index.{IdIndex}
use cri_t.Handlers.Cleaner.{lookup-release, contains-without, undo-delete_id, undo_each}
use cri_t.Handlers.Create.{
  CreateEnv, made_container, undo_name, undo_storage, undo_table, undo_id, undo_all,
}
use cri_t.Server.{Ctr, Sandbox, Server, add_container, get_container, remove_container}
use cri_t.Handlers.{delete_storage, delete_id, delete_runtime, drop_container, World, undo}

-- Nothing of a container is left.
pub record IsAbsent {I : Type 0} (index : IdIndex I) (id name : String) (w : World I) : Type 0 where
  pub free : lookup name w.ctr_names.names ≡ none
  pub untabled : get_container id w.tables ≡ none
  pub unindexed : index.holds id w.ctr_ids ≡ false
  pub unstored : contains w.storage id ≡ false
  pub unlaunched : contains w.runtime id ≡ false

pub get_container-remove_container :
    (c : Ctr) (tables : Server) (sb : Sandbox)
    → lookup c.sandbox_id tables.sandboxes ≡ some sb
    → get_container c.id (remove_container c tables) ≡ none
unfolding get_container remove_container
get_container-remove_container c tables sb found =
    ground (arith, found, lookup-delete c.id c.id tables.containers, ==_refl c.id)

-- The cleaner from each of its functions on, and what must be gone before.
module _ {I : Type 0} (index : IdIndex I) (sb : Sandbox) (env : CreateEnv) where
  pub undo_name-IsAbsent :
      (w : World I)
      → get_container env.id w.tables ≡ none
      → index.holds env.id w.ctr_ids ≡ false
      → contains w.storage env.id ≡ false
      → contains w.runtime env.id ≡ false
      → IsAbsent index env.id env.name (undo_each index (undo_name env) w)
  unfolding undo_each undo
  undo_name-IsAbsent w t i s r = record {
    free = ground (arith, lookup-release env.name env.name w.ctr_names, ==_refl env.name);
    untabled = t;
    unindexed = i;
    unstored = s;
    unlaunched = r;
  }

  undo_storage-IsAbsent :
      (w : World I)
      → get_container env.id w.tables ≡ none
      → index.holds env.id w.ctr_ids ≡ false
      → contains w.runtime env.id ≡ false
      → IsAbsent index env.id env.name (undo_each index (undo_storage env) w)
  unfolding undo_each undo
  undo_storage-IsAbsent w t i r =
      undo_name-IsAbsent (undo index (delete_storage env.id) w) t i
        (ground (arith, contains-without env.id env.id w.storage, ==_refl env.id)) r

  pub undo_table-IsAbsent :
      (w : World I) (now : Sandbox)
      → lookup sb.id w.tables.sandboxes ≡ some now
      → index.holds env.id w.ctr_ids ≡ false
      → contains w.runtime env.id ≡ false
      → IsAbsent index env.id env.name (undo_each index (undo_table sb env) w)
  unfolding undo_each undo
  undo_table-IsAbsent w now found i r =
      undo_storage-IsAbsent (undo index (drop_container (made_container sb env)) w)
        (get_container-remove_container (made_container sb env) w.tables now found) i r

  pub undo_id-IsAbsent :
      (w : World I) (now : Sandbox)
      → lookup sb.id w.tables.sandboxes ≡ some now
      → contains w.runtime env.id ≡ false
      → IsAbsent index env.id env.name (undo_each index (undo_id sb env) w)
  unfolding undo_each undo
  undo_id-IsAbsent w now found r =
      undo_table-IsAbsent (undo index (delete_id env.id) w) now found
        (undo-delete_id index env.id w) r

  -- After the whole cleaner: only the pod has to be in the table.
  pub undo_all-IsAbsent :
      (w : World I) (now : Sandbox)
      → lookup sb.id w.tables.sandboxes ≡ some now
      → IsAbsent index env.id env.name (undo_each index (undo_all sb env) w)
  unfolding undo_each undo
  undo_all-IsAbsent w now found =
      undo_id-IsAbsent (undo index (delete_runtime env.id) w) now found
        (ground (arith, contains-without env.id env.id w.runtime, ==_refl env.id))

pub lookup-add_container :
    (c : Ctr) (tables : Server) (sb : Sandbox)
    → lookup c.sandbox_id tables.sandboxes ≡ some sb
    → (now : Sandbox) × (lookup c.sandbox_id (add_container c tables).sandboxes ≡ some now)
unfolding add_container
lookup-add_container c tables sb found = (
  record sb { containers = insert c.name c sb.containers },
  rw (found, add_container)
      (ground (
        arith,
        ==_refl c.sandbox_id,
        lookup-insert c.sandbox_id c.sandbox_id
            (record sb { containers = insert c.name c sb.containers }) tables.sandboxes,
      )),
)
