-- ===== src/Handlers/Remove/Pod/Monotone.antt =====
-- server/container_remove.go: what is gone before the removal of a container is gone after it, and
-- the pod stays in the table.
use cri_t.Prelude.{
  Bool-cases, Option-cases, string_eq, nat_eq, ◌==◌, ==_iff, contains, String, ◌≡◌, inl, inr, false,
  none, some, arith,
}
use cri_t.Prelude.Maps.{lookup, delete, lookup-delete, lookup-insert}
use cri_t.Server.{Ctr, Sandbox, Server, get_container, remove_container}
use cri_t.Registrar.{release}
use cri_t.Handlers.Index.{IdIndex}
use cri_t.Handlers.{World}
use cri_t.Handlers.Create.Undone.{IsAbsent}
use cri_t.Handlers.Cleaner.{lookup-release, contains-without}
use cri_t.Handlers.Remove.{
  RemoveEnv, remove_from_pod, stop_container, forget, delete_stopped, remove_container_in_pod,
}
use cri_t.Handlers.Remove.Effect.{
  containers-remove_from_pod, deleted, remove_container_in_pod-cases,
}
use cri_t.Handlers.Remove.Pod.Unindexed.{step-unindexed}

-- A removal adds nothing to the tables.
get_container-none :
    (c : Ctr) (id : String) (s : Server)
    → get_container id s ≡ none
    → get_container id (remove_container c s) ≡ none
unfolding get_container remove_container
get_container-none c id s out = elim (Option-cases (lookup c.sandbox_id s.sandboxes)) [
  | inl miss ↦ rw (miss, remove_container) out
  | inr (sb, found) ↦
      rw (found, remove_container) (ground (arith, lookup-delete c.id id s.containers, out))
]

-- A pod stays in the table, with its label, while its containers go.
abbrev pub Has : String → String → Server → Type 0
Has label k s = (sb : Sandbox) × (lookup k s.sandboxes ≡ some sb) × (sb.process_label ≡ label)

Has-remove_container :
    (c : Ctr) (label k : String) (s : Server) → Has label k s → Has label k (remove_container c s)
unfolding remove_container
Has-remove_container c label k s (sb, found, same_label) =
    elim (Option-cases (lookup c.sandbox_id s.sandboxes)) [
      | inl miss ↦ rw (miss, remove_container) (sb, found, same_label)
      | inr (own, here) ↦
          let own' = record own { containers = delete c.name own.containers } in
          rw (here, remove_container)
            (elim (Bool-cases (c.sandbox_id == k)) [
              | inl same ↦ (
                own',
                ground (arith, lookup-insert c.sandbox_id k own' s.sandboxes, same),
                ground (arith, ==_iff c.sandbox_id k, same, here, found, same_label),
              )
              | inr other ↦ (
                sb,
                ground (arith, lookup-insert c.sandbox_id k own' s.sandboxes, other, found),
                same_label,
              )
            ])
    ]

Has-remove_from_pod :
    (c : Ctr) (label k : String) (s : Server) → Has label k s → Has label k (remove_from_pod c s)
unfolding remove_from_pod
Has-remove_from_pod c label k s (sb, found, same_label) =
    elim (Option-cases (lookup c.sandbox_id s.sandboxes)) [
      | inl miss ↦ rw (miss, remove_from_pod) (sb, found, same_label)
      | inr (own, here) ↦
          let own' = record own { containers = delete c.name own.containers } in
          rw (here, remove_from_pod)
            (elim (Bool-cases (c.sandbox_id == k)) [
              | inl same ↦ (
                own',
                ground (arith, lookup-insert c.sandbox_id k own' s.sandboxes, same),
                ground (arith, ==_iff c.sandbox_id k, same, here, found, same_label),
              )
              | inr other ↦ (
                sb,
                ground (arith, lookup-insert c.sandbox_id k own' s.sandboxes, other, found),
                same_label,
              )
            ])
    ]

module _ {I : Type 0} (index : IdIndex I) where
  step-unstored :
      (env : RemoveEnv) (sb : Sandbox) (c : Ctr) (id : String) (w : World I)
      → contains w.storage id ≡ false
      → contains w.runtime id ≡ false
      → (contains (remove_container_in_pod index env sb c w).0.storage id ≡ false)
        × (contains (remove_container_in_pod index env sb c w).0.runtime id ≡ false)
  unfolding remove_container_in_pod stop_container delete_stopped forget
  step-unstored env sb c id w s r = (
    ground (arith, contains-without c.id id w.storage),
    ground (arith, contains-without c.id id w.runtime),
  )

  forget-Has :
      (c : Ctr) (label k : String) (w : World I)
      → Has label k w.tables
      → Has label k (forget index c w).0.tables
  unfolding forget
  forget-Has c label k w has = elim (Option-cases (index.remove c.id w.ctr_ids)) [
    | inl miss ↦ rw (miss, forget) (Has-remove_container c label k w.tables has)
    | inr (ids, hit) ↦
        rw (hit, forget)
          (Has-remove_from_pod c label k (remove_container c w.tables)
            (Has-remove_container c label k w.tables has))
  ]

  pub step-Has :
      (env : RemoveEnv) (sb : Sandbox) (c : Ctr) (label k : String) (w : World I)
      → Has label k w.tables
      → Has label k (remove_container_in_pod index env sb c w).0.tables
  step-Has env sb c label k w has = elim (remove_container_in_pod-cases index c env sb w) [
    | inl (e, bad, kept) ↦ rw kept.1 has
    | inr (v, kept, all) ↦ rw all (forget-Has c label k (deleted index c v) (rw kept.1 has))
  ]

  forget-untabled :
      (c : Ctr) (id name : String) (w : World I)
      → lookup name w.ctr_names.names ≡ none
      → get_container id w.tables ≡ none
      → (lookup name (forget index c w).0.ctr_names.names ≡ none)
        × (get_container id (forget index c w).0.tables ≡ none)
  unfolding forget get_container
  forget-untabled c id name w free out =
      let gone : lookup name (release c.name w.ctr_names).names ≡ none =
        ground (arith, lookup-release c.name name w.ctr_names, free) in
      elim (Option-cases (index.remove c.id w.ctr_ids)) [
        | inl miss ↦ rw (miss, forget) (gone, get_container-none c id w.tables out)
        | inr (ids, hit) ↦
            rw (hit, forget)
              (
                gone,
                rw (containers-remove_from_pod c (remove_container c w.tables))
                    (get_container-none c id w.tables out),
              )
      ]

  -- What is gone stays gone.
  pub step-IsAbsent :
      (env : RemoveEnv) (sb : Sandbox) (c : Ctr) (id name : String) (w : World I)
      → IsAbsent index id name w
      → IsAbsent index id name (remove_container_in_pod index env sb c w).0
  step-IsAbsent env sb c id name w a =
      let (stored, launched) = step-unstored env sb c id w a.unstored a.unlaunched in
      let (free, tabled) : (lookup name (remove_container_in_pod index env sb c w).0.ctr_names.names
            ≡ none)
          × (get_container id (remove_container_in_pod index env sb c w).0.tables ≡ none) =
        elim (remove_container_in_pod-cases index c env sb w) [
          | inl (e, bad, kept) ↦ (rw kept.0 a.free, rw kept.1 a.untabled)
          | inr (v, kept, all) ↦ rw all (
              forget-untabled c id name (deleted index c v) (rw kept.0 a.free)
                (rw kept.1 a.untabled))
        ] in
      record {
        free = free;
        untabled = tabled;
        unindexed = step-unindexed index env sb c w id a.unindexed;
        unstored = stored;
        unlaunched = launched;
      }
