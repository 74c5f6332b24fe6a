-- ===== src/Server/Orphans.antt =====
-- internal/lib/container_server.go: the containers of a pod that is removed.
use cri_t.Prelude.{
  Option-cases, string_eq, nat_eq, ==_refl, String, ◌≡◌, inl, inr, Option, none, some, arith,
}
use cri_t.Prelude.Maps.{lookup, lookup-delete}
use cri_t.Server.{Ctr, Server, get_container, remove_container, remove_sandbox}

-- Once a pod's removal has succeeded, RemoveContainer changes nothing for a container of that pod:
-- one that was not removed before the pod stays in the table, where GetContainer still finds it.
pub remove_sandbox-remove_container :
    (level_of : String → Option String) (c : Ctr) (s : Server)
    → (remove_sandbox level_of c.sandbox_id s).1 ≡ none
    → get_container c.id s ≡ some c
    → let gone = (remove_sandbox level_of c.sandbox_id s).0 in
      (remove_container c gone ≡ gone) × (get_container c.id (remove_container c gone) ≡ some c)
unfolding remove_sandbox remove_container get_container
remove_sandbox-remove_container level_of c s done known =
    elim (Option-cases (lookup c.sandbox_id s.sandboxes)) [
      | inl missing ↦ (ground arith, ground arith)
      | inr (sb, found) ↦ elim (Option-cases (level_of sb.process_label)) [
        | inl bad ↦ absurd (ground arith)
        | inr (level, good) ↦
            let out = lookup-delete c.sandbox_id c.sandbox_id s.sandboxes in
            let here = ==_refl c.sandbox_id in (ground arith, ground arith)
      ]
    ]
