-- ===== src/Handlers/Remove/Effect.antt =====
-- server/container_remove.go: what a RemoveContainer that succeeds removes, and what one that fails
-- keeps.
use cri_t.Prelude.{
  Bool-cases, Option-cases, string_eq, nat_eq, ==_refl, contains, ◌≡◌, refl, sym, ◌∙◌, ◌⊎◌, inl,
  inr, false, ◌&&◌, not, none, some, arith,
}
use cri_t.Prelude.Maps.{lookup}
use cri_t.Server.{Ctr, Sandbox, Server, get_container, remove_container, get_sandbox}
use cri_t.Handlers.Index.{IdIndex}
use cri_t.Handlers.{World, HandlerError, runtime_failed, exit_file_failed, storage_failed, without}
use cri_t.Handlers.Create.Undone.{IsAbsent, get_container-remove_container}
use cri_t.Handlers.Cleaner.{lookup-release, contains-without}
use cri_t.Handlers.Remove.{
  StopEnv, RemoveEnv, Outcome, remove_from_pod, stop_container, forget, delete_stopped,
  remove_container_in_pod,
}

pub containers-remove_from_pod :
    (c : Ctr) (s : Server) → (remove_from_pod c s).containers ≡ s.containers
unfolding remove_from_pod
containers-remove_from_pod c s = elim (Option-cases (lookup c.sandbox_id s.sandboxes)) [
  | inl out ↦ ground (arith, out)
  | inr (sb, found) ↦ ground (arith, found)
]

-- What a removal that fails keeps: all that a request reads to find a container.
abbrev pub Kept : {I : Type 0} → World I → World I → Type 0
Kept w w' =
    (w'.ctr_names ≡ w.ctr_names)
    × (w'.tables ≡ w.tables)
    × (w'.ctr_ids ≡ w.ctr_ids)
    × (w'.created ≡ w.created)
    × (w'.resources ≡ w.resources)

module _ {I : Type 0} (c : Ctr) (w : World I) where
  pub stop_container-Kept : (env : StopEnv) → Kept w (stop_container env c w).0
  unfolding stop_container
  stop_container-Kept env = elim (Option-cases (get_sandbox c.sandbox_id w.tables)) [
    | inl out ↦ rw (out, stop_container) (refl, refl, refl, refl, refl)
    | inr (sb, found) ↦ elim (Bool-cases (not (env.hooks_found && env.pre_stops))) [
      | inl bad ↦ rw (found, bad, stop_container) (refl, refl, refl, refl, refl)
      | inr good ↦ elim (Bool-cases (not env.stops)) [
        | inl bad ↦ rw (found, good, bad, stop_container) (refl, refl, refl, refl, refl)
        | inr fine ↦ rw (found, good, fine, stop_container) (refl, refl, refl, refl, refl)
      ]
    ]
  ]

module _ {I : Type 0} (index : IdIndex I) (c : Ctr) where
  forget-IsAbsent :
      (w : World I) (sb : Sandbox)
      → lookup c.sandbox_id w.tables.sandboxes ≡ some sb
      → contains w.storage c.id ≡ false
      → contains w.runtime c.id ≡ false
      → (forget index c w).1 ≡ none
      → IsAbsent index c.id c.name (forget index c w).0
  unfolding forget get_container
  forget-IsAbsent w sb found s r = elim (Option-cases (index.remove c.id w.ctr_ids)) [
    | inl out ↦ rw (out, forget) (λ bad. absurd (ground (arith, bad)))
    | inr (ids, out) ↦
        rw (out, forget)
          (λ good. record {
            free = ground (arith, lookup-release c.name c.name w.ctr_names, ==_refl c.name);
            untabled =
                rw (containers-remove_from_pod c (remove_container c w.tables))
                  (get_container-remove_container c w.tables sb found);
            unindexed =
                ground (arith, index.remove_holds c.id c.id w.ctr_ids ids out, ==_refl c.id);
            unstored = s;
            unlaunched = r;
          })
  ]

  -- The container without its place in the runtime and in the storage.
  abbrev pub deleted : World I → World I
  deleted w = record w { runtime = without c.id w.runtime; storage = without c.id w.storage }

  -- It fails and keeps what a request reads,
  abbrev FailsKept : World I → Outcome I → Type 0
  FailsKept w r = (e : HandlerError) × (r.1 ≡ some e) × Kept w r.0

  -- or it comes to the release of the name.
  abbrev Forgets : World I → Outcome I → Type 0
  Forgets w r = (v : World I) × Kept w v × (r ≡ forget index c (deleted v))

  delete_stopped-cases :
      (env : RemoveEnv) (w : World I)
      → FailsKept w (delete_stopped index env c w) ⊎ Forgets w (delete_stopped index env c w)
  unfolding delete_stopped
  delete_stopped-cases env w = elim (Bool-cases (not env.deletes)) [
    | inl bad ↦
        rw (bad, delete_stopped) (inl (runtime_failed, refl, (refl, refl, refl, refl, refl)))
    | inr good ↦ elim (Bool-cases (not env.removes_exit_file)) [
      | inl bad ↦
          rw (good, bad, delete_stopped)
            (inl (exit_file_failed, refl, (refl, refl, refl, refl, refl)))
      | inr fine ↦ elim (Bool-cases (not env.deletes_storage)) [
        | inl bad ↦
            rw (good, fine, bad, delete_stopped)
              (inl (storage_failed, refl, (refl, refl, refl, refl, refl)))
        | inr well ↦
            rw (good, fine, well, delete_stopped) (inr (w, (refl, refl, refl, refl, refl), refl))
      ]
    ]
  ]

  Kept-trans : (u v w : World I) → Kept u v → Kept v w → Kept u w
  Kept-trans u v w (a, b, d, e, f) (a', b', d', e', f') = (a' ∙ a, b' ∙ b, d' ∙ d, e' ∙ e, f' ∙ f)

  later-cases :
      (u w : World I) (r : Outcome I)
      → Kept u w
      → FailsKept w r ⊎ Forgets w r
      → FailsKept u r ⊎ Forgets u r
  later-cases u w r kept (inl (e, bad, there)) = inl (e, bad, Kept-trans u w r.0 kept there)
  later-cases u w r kept (inr (v, there, all)) = inr (v, Kept-trans u w v kept there, all)

  -- RemoveContainer after the container is found.
  pub remove_container_in_pod-cases :
      (env : RemoveEnv) (sb : Sandbox) (w : World I)
      → let r = remove_container_in_pod index env sb c w in FailsKept w r ⊎ Forgets w r
  unfolding remove_container_in_pod
  remove_container_in_pod-cases env sb w = elim (Bool-cases sb.is_stopped) [
    | inl stopped ↦ rw (stopped, remove_container_in_pod) (delete_stopped-cases env w)
    | inr runs ↦ elim (Option-cases (stop_container env.stopping c w).1) [
      | inl good ↦
          rw (runs, good, remove_container_in_pod)
            (later-cases w (stop_container env.stopping c w).0 _
              (stop_container-Kept c w env.stopping)
              (delete_stopped-cases env (stop_container env.stopping c w).0))
      | inr (e, bad) ↦
          rw (runs, bad, remove_container_in_pod)
            (inl (e, refl, stop_container-Kept c w env.stopping))
    ]
  ]

  -- Of the container and its pod in the table.
  pub remove_container_in_pod-IsAbsent :
      (env : RemoveEnv) (sb now : Sandbox) (w : World I)
      → lookup c.sandbox_id w.tables.sandboxes ≡ some now
      → (remove_container_in_pod index env sb c w).1 ≡ none
      → IsAbsent index c.id c.name (remove_container_in_pod index env sb c w).0
  remove_container_in_pod-IsAbsent env sb now w found good =
      elim (remove_container_in_pod-cases env sb w) [
        | inl (e, bad, kept) ↦ absurd (ground (arith, bad, good))
        | inr (v, kept, all) ↦ rw all (
            forget-IsAbsent (deleted v) now (rw kept.1 found)
              (ground (arith, contains-without c.id c.id v.storage, ==_refl c.id))
              (ground (arith, contains-without c.id c.id v.runtime, ==_refl c.id))
              (rw (sym all) good))
      ]
