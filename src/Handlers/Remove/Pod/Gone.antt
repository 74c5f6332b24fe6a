-- ===== src/Handlers/Remove/Pod/Gone.antt =====
-- server/sandbox_remove.go: what a RemovePodSandbox that succeeds removes.
use cri_t.Prelude.{
  Bool-cases, Option-cases, All, string_eq, nat_eq, String, ◌≡◌, refl, sym, inl, inr, Option, none,
  some, List, [], ◌∷◌, arith,
}
use mathlib.Core.Path.{subst}
use cri_t.Prelude.Maps.{lookup}
use cri_t.Server.{Ctr, Sandbox, get_container, remove_infra_container}
use cri_t.Handlers.Index.{IdIndex}
use cri_t.Handlers.{World}
use cri_t.Handlers.Create.Undone.{IsAbsent}
use cri_t.Handlers.Remove.{Outcome, remove_container_in_pod}
use cri_t.Handlers.Remove.Effect.{remove_container_in_pod-IsAbsent}
use cri_t.Handlers.Remove.Pod.{
  RemovePodEnv, ctrs_of, remove_all, forget_pod, remove_infra, remove_pod_sandbox,
}
use cri_t.Handlers.Remove.Pod.Monotone.{Has, step-Has, step-IsAbsent}
use cri_t.Handlers.Remove.Pod.TearDown.{
  tear_down-none, IsGone, forget_pod-IsGone, forget_pod-IsAbsent,
}

-- A container of a pod, by the ID of the pod.
abbrev pub IsOf : String → Ctr → Type 0
IsOf id c = c.sandbox_id ≡ id

module _ {I : Type 0} (index : IdIndex I) (level_of : String → Option String) where
  remove_all-IsAbsent :
      (env : RemovePodEnv) (sb : Sandbox) (cs : List Ctr) (id name : String) (w : World I)
      → IsAbsent index id name w
      → IsAbsent index id name (remove_all index level_of env sb cs w).0
  unfolding remove_all
  remove_all-IsAbsent env sb [] id name w a = a
  remove_all-IsAbsent env sb (c ∷ cs) id name w a =
      let next = remove_container_in_pod index (env.removing c.id) sb c w in
      let still = step-IsAbsent index (env.removing c.id) sb c id name w a in
      elim (Option-cases next.1) [
        | inl good ↦ rw (good, remove_all) (remove_all-IsAbsent env sb cs id name next.0 still)
        | inr (e, bad) ↦ rw (bad, remove_all) still
      ]

  -- Nothing of the container is left.
  abbrev pub AllAbsent : World I → List Ctr → Type 0
  AllAbsent w = All (λ c. IsAbsent index c.id c.name w)

  remove_all-next :
      (env : RemovePodEnv) (sb : Sandbox) (c : Ctr) (cs : List Ctr) (w : World I)
      → (remove_container_in_pod index (env.removing c.id) sb c w).1 ≡ none
      → remove_all index level_of env sb (c ∷ cs) w
        ≡ remove_all index level_of env sb cs
            (remove_container_in_pod index (env.removing c.id) sb c w).0
  unfolding remove_all
  remove_all-next env sb c cs w good = rw (good, remove_all) refl

  abbrev Done : String → String → List Ctr → Outcome I → Type 0
  Done label id cs r = AllAbsent r.0 cs × Has label id r.0.tables

  remove_all-AllAbsent :
      (env : RemovePodEnv) (sb : Sandbox) (label id : String) (cs : List Ctr) (w : World I)
      → All (IsOf id) cs
      → Has label id w.tables
      → (remove_all index level_of env sb cs w).1 ≡ none
      → Done label id cs (remove_all index level_of env sb cs w)
  unfolding remove_all
  remove_all-AllAbsent env sb label id [] w of has = λ good. (tt, has)
  remove_all-AllAbsent env sb label id (c ∷ cs) w (here, of) (now, found, same) =
      let next = remove_container_in_pod index (env.removing c.id) sb c w in
      elim (Option-cases next.1) [
        | inl good ↦
            subst (λ r. r.1 ≡ none → Done label id (c ∷ cs) r)
              (sym (remove_all-next env sb c cs w good))
              (λ rest.
                let gone =
                  remove_container_in_pod-IsAbsent index c (env.removing c.id) sb now w
                    (rw here found) good in
                let (others, has) =
                  remove_all-AllAbsent env sb label id cs next.0 of
                    (step-Has index (env.removing c.id) sb c label id w (now, found, same)) rest in
                ((remove_all-IsAbsent env sb cs c.id c.name next.0 gone, others), has))
        | inr (e, bad) ↦ rw (bad, remove_all) (λ good. absurd (ground (arith, good)))
      ]

  remove_infra-none :
      (env : RemovePodEnv) (sb : Sandbox) (w : World I)
      → (remove_infra index level_of env sb w).1 ≡ none
      → (c : Ctr) × (remove_infra index level_of env sb w
          ≡ forget_pod index level_of sb
              (remove_container_in_pod index
                (env.removing c.id)
                sb
                c
                (record w { tables = remove_infra_container c w.tables })).0)
  unfolding remove_infra remove_container_in_pod
  remove_infra-none env sb w = elim (Option-cases sb.infra_container) [
    | inl none_set ↦ rw (none_set, remove_infra) (λ good. absurd (ground (arith, good)))
    | inr (c, infra) ↦
        let next =
          remove_container_in_pod index (env.removing c.id) sb c
            (record w { tables = remove_infra_container c w.tables }) in
        elim (Option-cases next.1) [
          | inl fine ↦
              rw (infra, fine, remove_infra)
                (λ good. (c, tear_down-none index level_of env sb next.0 good))
          | inr (e, bad) ↦ rw (infra, bad, remove_infra) (λ good. absurd (ground (arith, good)))
        ]
  ]

  without_infra-IsAbsent :
      (c : Ctr) (id name : String) (w : World I)
      → IsAbsent index id name w
      → IsAbsent index id name (record w { tables = remove_infra_container c w.tables })
  unfolding remove_infra_container get_container
  without_infra-IsAbsent c id name w a = record {
    free = a.free;
    untabled = a.untabled;
    unindexed = a.unindexed;
    unstored = a.unstored;
    unlaunched = a.unlaunched;
  }

  AllAbsent-mono :
      (w w' : World I) (cs : List Ctr)
      → ((c : Ctr) → IsAbsent index c.id c.name w → IsAbsent index c.id c.name w')
      → AllAbsent w cs
      → AllAbsent w' cs
  AllAbsent-mono w w' [] mono all = tt
  AllAbsent-mono w w' (c ∷ cs) mono (a, all) = (mono c a, AllAbsent-mono w w' cs mono all)

  abbrev Removed : Sandbox → List Ctr → World I → Type 0
  Removed sb cs w = AllAbsent w cs × IsGone index level_of sb w

  -- The infra container and the pod, once the others are gone.
  remove_infra-Removed :
      (env : RemovePodEnv) (sb : Sandbox) (label level : String) (cs : List Ctr) (w : World I)
      → level_of label ≡ some level
      → Has label sb.id w.tables
      → AllAbsent w cs
      → (remove_infra index level_of env sb w).1 ≡ none
      → Removed sb cs (remove_infra index level_of env sb w).0
  unfolding remove_infra_container
  remove_infra-Removed env sb label level cs w parses has all good =
      let (c, same) = remove_infra-none env sb w good in
      let before = record w { tables = remove_infra_container c w.tables } in
      let after = (remove_container_in_pod index (env.removing c.id) sb c before).0 in
      subst (λ r. r.1 ≡ none → Removed sb cs r.0) (sym same)
        (λ fine. (
          AllAbsent-mono w (forget_pod index level_of sb after).0 cs
              (λ d a. forget_pod-IsAbsent index level_of sb d.id d.name after (
                step-IsAbsent index (env.removing c.id) sb c d.id d.name before
                  (without_infra-IsAbsent c d.id d.name w a)))
              all,
          forget_pod-IsGone index level_of sb label level after parses
              (step-Has index (env.removing c.id) sb c label sb.id before has) fine,
        ))
        good

  remove_pod_sandbox-none :
      (env : RemovePodEnv) (sb : Sandbox) (w : World I)
      → (remove_pod_sandbox index level_of env sb w).1 ≡ none
      → let all = remove_all index level_of env sb (ctrs_of sb.containers) w in
        (all.1 ≡ none)
        × (remove_pod_sandbox index level_of env sb w ≡ remove_infra index level_of env sb all.0)
  unfolding remove_pod_sandbox
  remove_pod_sandbox-none env sb w =
      let all = remove_all index level_of env sb (ctrs_of sb.containers) w in
      elim (Option-cases all.1) [
        | inr (e, bad) ↦ rw (bad, remove_pod_sandbox) (λ good. absurd (ground (arith, good)))
        | inl done ↦ elim (Bool-cases env.unmounts_shm) [
          | inl fine ↦ rw (done, fine, remove_pod_sandbox) (λ good. (refl, refl))
          | inr bad ↦ rw (done, bad, remove_pod_sandbox) (λ good. absurd (ground (arith, good)))
        ]
      ]

  -- If RemovePodSandbox succeeds for a pod of the table, whose containers name it and whose label has
  -- a level, then nothing is left of its containers, and the pod is out of the table and of its
  -- index and its name is free.
  pub remove_pod_sandbox-Removed :
      (env : RemovePodEnv) (sb now : Sandbox) (level : String) (w : World I)
      → level_of now.process_label ≡ some level
      → All (IsOf sb.id) (ctrs_of sb.containers)
      → lookup sb.id w.tables.sandboxes ≡ some now
      → (remove_pod_sandbox index level_of env sb w).1 ≡ none
      → let after = (remove_pod_sandbox index level_of env sb w).0 in
        All (λ c. IsAbsent index c.id c.name after) (ctrs_of sb.containers)
        × IsGone index level_of sb after
  remove_pod_sandbox-Removed env sb now level w parses of found good =
      let all = remove_all index level_of env sb (ctrs_of sb.containers) w in
      let (done, same) = remove_pod_sandbox-none env sb w good in
      let (gone, has) =
        remove_all-AllAbsent env sb now.process_label sb.id (ctrs_of sb.containers) w of
          (now, found, refl) done in
      subst (λ r. r.1 ≡ none → Removed sb (ctrs_of sb.containers) r.0) (sym same)
        (remove_infra-Removed env sb now.process_label level (ctrs_of sb.containers) all.0 parses
          has gone)
        good
