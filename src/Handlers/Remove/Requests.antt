-- ===== src/Handlers/Remove/Requests.antt =====
-- server/container_remove.go and server/container_start.go: RemoveContainer from the request on,
-- and its second try.
use cri_t.Prelude.{
  Bool-cases, Option-cases, string_eq, nat_eq, ok, String, ◌≡◌, refl, ◌∙◌, inl, inr, true, none,
  some, arith,
}
use cri_t.Prelude.Maps.{lookup}
use cri_t.Server.{Ctr, Sandbox, get_sandbox}
use cri_t.Handlers.Index.{IdIndex}
use cri_t.Handlers.{World, HandlerError, is_ctr_created, container_from_short_id}
use cri_t.Handlers.Create.Undone.{IsAbsent}
use cri_t.Handlers.Remove.{
  RemoveEnv, stop_container, forget, delete_stopped, remove_container_in_pod,
  remove_container_request,
}
use cri_t.Handlers.Remove.Effect.{
  Kept, stop_container-Kept, deleted, remove_container_in_pod-cases,
  remove_container_in_pod-IsAbsent,
}

module _ {I : Type 0} (index : IdIndex I) where
  -- A request finds what it found before a removal that failed.
  with_parts :
      (request : String) (w w' : World I)
      → Kept w w'
      → container_from_short_id index request (record w {
        tables = w'.tables;
        ctr_ids = w'.ctr_ids;
        created = w'.created;
        resources = w'.resources;
      })
        ≡ container_from_short_id index request w
  with_parts request w w' (names, tables, ids, created, resources) =
      rw (tables, ids, created, resources) refl

  container_from_short_id-Kept :
      (request : String) (w w' : World I)
      → Kept w w'
      → container_from_short_id index request w' ≡ container_from_short_id index request w
  unfolding container_from_short_id is_ctr_created
  container_from_short_id-Kept = with_parts

  -- If RemoveContainer finds a container and succeeds, nothing of the container is left: its name is
  -- free, and its ID is in none of the table, the index, the storage and the runtime.
  pub remove_container_request-IsAbsent :
      (env : RemoveEnv) (request : String) (c : Ctr) (w : World I)
      → container_from_short_id index request w ≡ ok c
      → (remove_container_request index env request w).1 ≡ none
      → IsAbsent index c.id c.name (remove_container_request index env request w).0
  unfolding remove_container_request get_sandbox
  remove_container_request-IsAbsent env request c w found =
      elim (Option-cases (lookup c.sandbox_id w.tables.sandboxes)) [
        | inl out ↦
            rw (found, out, remove_container_request) (λ good. absurd (ground (arith, good)))
        | inr (sb, held) ↦
            rw (found, held, remove_container_request)
              (remove_container_in_pod-IsAbsent index c env sb sb w held)
      ]

  -- Every step of a removal succeeds.
  abbrev pub IsGood : RemoveEnv → Type 0
  IsGood env =
      (env.stopping.hooks_found ≡ true)
      × (env.stopping.pre_stops ≡ true)
      × (env.stopping.stops ≡ true)
      × (env.stopping.nri_stops ≡ true)
      × (env.deletes ≡ true)
      × (env.removes_exit_file ≡ true)
      × (env.deletes_storage ≡ true)

  forget-good :
      (c : Ctr) (w : World I) → index.holds c.id w.ctr_ids ≡ true → (forget index c w).1 ≡ none
  unfolding forget
  forget-good c w held = elim (Option-cases (index.remove c.id w.ctr_ids)) [
    | inl out ↦ absurd (ground (arith, held, index.remove_fails c.id w.ctr_ids out))
    | inr (ids, out) ↦ rw (out, forget) refl
  ]

  delete_stopped-good :
      (env : RemoveEnv) (c : Ctr) (w : World I)
      → IsGood env
      → index.holds c.id w.ctr_ids ≡ true
      → (delete_stopped index env c w).1 ≡ none
  unfolding delete_stopped
  delete_stopped-good env c w (h, p, s, n, d, x, st) held =
      rw (d, x, st, delete_stopped) (forget-good c (deleted index c w) held)

  stop_container-good :
      (env : RemoveEnv) (c : Ctr) (sb : Sandbox) (w : World I)
      → IsGood env
      → lookup c.sandbox_id w.tables.sandboxes ≡ some sb
      → (stop_container env.stopping c w).1 ≡ none
  unfolding stop_container get_sandbox
  stop_container-good env c sb w (h, p, s, n, d, x, st) pod =
      rw (pod, h, p, s, n, stop_container) refl

  remove_container_request-good :
      (env : RemoveEnv) (request : String) (c : Ctr) (sb : Sandbox) (w : World I)
      → IsGood env
      → container_from_short_id index request w ≡ ok c
      → lookup c.sandbox_id w.tables.sandboxes ≡ some sb
      → index.holds c.id w.ctr_ids ≡ true
      → (remove_container_request index env request w).1 ≡ none
  unfolding remove_container_request remove_container_in_pod get_sandbox
  remove_container_request-good env request c sb w good found pod held =
      elim (Bool-cases sb.is_stopped) [
        | inl stopped ↦
            rw (found, pod, stopped, remove_container_request)
              (delete_stopped-good env c w good held)
        | inr runs ↦
            rw (found, pod, runs, stop_container-good env c sb w good pod, remove_container_request)
              (delete_stopped-good env c (stop_container env.stopping c w).0 good
                (rw (stop_container-Kept c w env.stopping).2 held))
      ]

  remove_container_request-Kept :
      (env : RemoveEnv) (request : String) (c : Ctr) (w : World I) (e : HandlerError)
      → container_from_short_id index request w ≡ ok c
      → index.holds c.id w.ctr_ids ≡ true
      → (remove_container_request index env request w).1 ≡ some e
      → Kept w (remove_container_request index env request w).0
  unfolding remove_container_request get_sandbox
  remove_container_request-Kept env request c w e found held =
      elim (Option-cases (lookup c.sandbox_id w.tables.sandboxes)) [
        | inl out ↦
            rw (found, out, remove_container_request) (λ bad. (refl, refl, refl, refl, refl))
        | inr (sb, pod) ↦
            rw (found, pod, remove_container_request)
              (λ bad. elim (remove_container_in_pod-cases index c env sb w) [
                | inl (x, same, kept) ↦ kept
                | inr (v, kept, all) ↦
                    let over : (remove_container_in_pod index env sb c w).1 ≡ none =
                      rw all (forget-good c (deleted index c v) (rw kept.2 held)) in
                    absurd (ground (arith, bad, over))
              ])
      ]

  -- If RemoveContainer finds a container that the index holds, whose pod is in the table, and fails,
  -- it leaves the name, the tables and the index as they were, and a second RemoveContainer with
  -- the same request, of which every step succeeds, succeeds and leaves nothing of the container.
  pub remove_container_request-again :
      (env env' : RemoveEnv) (request : String) (c : Ctr) (sb : Sandbox) (w : World I)
      (e : HandlerError)
      → IsGood env'
      → container_from_short_id index request w ≡ ok c
      → lookup c.sandbox_id w.tables.sandboxes ≡ some sb
      → index.holds c.id w.ctr_ids ≡ true
      → (remove_container_request index env request w).1 ≡ some e
      → let first = (remove_container_request index env request w).0 in
        let second = remove_container_request index env' request first in
        Kept w first × (second.1 ≡ none) × IsAbsent index c.id c.name second.0
  remove_container_request-again env env' request c sb w e good found pod held bad =
      let first = (remove_container_request index env request w).0 in
      let kept = remove_container_request-Kept env request c w e found held bad in
      let found' : container_from_short_id index request first ≡ ok c =
        container_from_short_id-Kept request w first kept ∙ found in
      let works =
        remove_container_request-good env' request c sb first good found' (rw kept.1 pod)
          (rw kept.2 held) in
      (kept, works, remove_container_request-IsAbsent env' request c first found' works)
