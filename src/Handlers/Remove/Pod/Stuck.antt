-- ===== src/Handlers/Remove/Pod/Stuck.antt =====
-- server/sandbox_remove.go: a pod that RemovePodSandbox can never remove.
use cri_t.Prelude.{
  Bool-cases, Option-cases, string_eq, nat_eq, ==_refl, String, ◌≡◌, refl, sym, inl, inr, Bool,
  true, false, Option, none, some, List, [], ◌∷◌, arith,
}
use cri_t.Server.{Ctr, Sandbox, remove_infra_container}
use cri_t.Handlers.Index.{IdIndex}
use cri_t.Handlers.{
  World, HandlerError, index_failed, shm_failed, cgroup_failed, network_failed, namespaces_failed,
}
use cri_t.Handlers.Remove.{
  RemoveEnv, Outcome, stop_container, forget, delete_stopped, remove_container_in_pod,
}
use cri_t.Handlers.Remove.Effect.{deleted, remove_container_in_pod-cases}
use cri_t.Handlers.Remove.Pod.Unindexed.{forget-unindexed, forget-fails, step-unindexed}
use cri_t.Handlers.Remove.Pod.{
  RemovePodEnv, ctrs_of, remove_all, forget_pod, tear_down, remove_infra, remove_pod_sandbox,
}

-- The errors after the removal of the infra container.
abbrev pub is_late : HandlerError → Bool
is_late cgroup_failed = true
is_late network_failed = true
is_late namespaces_failed = true
is_late _ = false

module _ {I : Type 0} (index : IdIndex I) (level_of : String → Option String) where
  remove_all-unindexed :
      (env : RemovePodEnv) (sb : Sandbox) (cs : List Ctr) (w : World I) (id : String)
      → index.holds id w.ctr_ids ≡ false
      → index.holds id (remove_all index level_of env sb cs w).0.ctr_ids ≡ false
  unfolding remove_all
  remove_all-unindexed env sb [] w id out = out
  remove_all-unindexed env sb (c ∷ cs) w id out =
      let next = (remove_container_in_pod index (env.removing c.id) sb c w) in
      let there = step-unindexed index (env.removing c.id) sb c w id out in
      elim (Option-cases next.1) [
        | inl good ↦ rw (good, remove_all) (remove_all-unindexed env sb cs next.0 id there)
        | inr (e, bad) ↦ rw (bad, remove_all) there
      ]

  -- What a RemovePodSandbox whose infra container is out of the index does: it fails, and the
  -- container stays out.
  abbrev pub Fails : Ctr → Outcome I → Type 0
  Fails c r = ((e : HandlerError) × (r.1 ≡ some e)) × (index.holds c.id r.0.ctr_ids ≡ false)

  step-Fails :
      (env : RemoveEnv) (sb : Sandbox) (c : Ctr) (w : World I)
      → index.holds c.id w.ctr_ids ≡ false
      → Fails c (remove_container_in_pod index env sb c w)
  step-Fails env sb c w out = elim (remove_container_in_pod-cases index c env sb w) [
    | inl (e, bad, kept) ↦ ((e, bad), rw kept.2 out)
    | inr (v, kept, all) ↦ rw all (
      (index_failed, forget-fails index c (deleted index c v) (rw kept.2 out)),
      forget-unindexed index c (deleted index c v) c.id (rw kept.2 out),
    )
  ]

  remove_infra-Fails :
      (env : RemovePodEnv) (sb : Sandbox) (c : Ctr) (w : World I)
      → sb.infra_container ≡ some c
      → index.holds c.id w.ctr_ids ≡ false
      → Fails c (remove_infra index level_of env sb w)
  unfolding remove_infra
  remove_infra-Fails env sb c w infra out =
      let w' = record w { tables = remove_infra_container c w.tables } in
      let ((e, bad), there) = step-Fails (env.removing c.id) sb c w' out in
      rw (infra, bad, remove_infra) ((e, refl), there)

  remove_pod_sandbox-Fails :
      (env : RemovePodEnv) (sb : Sandbox) (c : Ctr) (w : World I)
      → sb.infra_container ≡ some c
      → index.holds c.id w.ctr_ids ≡ false
      → Fails c (remove_pod_sandbox index level_of env sb w)
  unfolding remove_pod_sandbox
  remove_pod_sandbox-Fails env sb c w infra out =
      let all = remove_all index level_of env sb (ctrs_of sb.containers) w in
      let there = remove_all-unindexed env sb (ctrs_of sb.containers) w c.id out in
      elim (Option-cases all.1) [
        | inr (e, bad) ↦ rw (bad, remove_pod_sandbox) ((e, refl), there)
        | inl good ↦ elim (Bool-cases env.unmounts_shm) [
          | inl fine ↦
              rw (good, fine, remove_pod_sandbox) (remove_infra-Fails env sb c all.0 infra there)
          | inr bad ↦ rw (good, bad, remove_pod_sandbox) ((shm_failed, refl), there)
        ]
      ]

  -- The first failure.
  early :
      (env : RemoveEnv) (sb : Sandbox) (c : Ctr) (w : World I) (e : HandlerError)
      → (remove_container_in_pod index env sb c w).1 ≡ some e
      → is_late e ≡ false
  unfolding remove_container_in_pod stop_container delete_stopped forget
  early env sb c w e bad = ground arith

  remove_all-early :
      (env : RemovePodEnv) (sb : Sandbox) (cs : List Ctr) (w : World I) (e : HandlerError)
      → (remove_all index level_of env sb cs w).1 ≡ some e
      → is_late e ≡ false
  unfolding remove_all
  remove_all-early env sb [] w e = λ bad. absurd (ground (arith, bad))
  remove_all-early env sb (c ∷ cs) w e =
      let next = (remove_container_in_pod index (env.removing c.id) sb c w) in
      elim (Option-cases next.1) [
        | inl good ↦ rw (good, remove_all) (remove_all-early env sb cs next.0 e)
        | inr (x, bad) ↦
            rw (bad, remove_all)
              (λ same. ground (arith, same, early (env.removing c.id) sb c w x bad))
      ]

  ctr_ids-tear_down :
      (env : RemovePodEnv) (sb : Sandbox) (w : World I)
      → (tear_down index level_of env sb w).0.ctr_ids ≡ w.ctr_ids
  unfolding tear_down forget_pod
  ctr_ids-tear_down env sb w = ground arith

  forgotten :
      (c : Ctr) (w : World I)
      → (forget index c w).1 ≡ none
      → index.holds c.id (forget index c w).0.ctr_ids ≡ false
  unfolding forget
  forgotten c w = elim (Option-cases (index.remove c.id w.ctr_ids)) [
    | inl miss ↦ rw (miss, forget) (λ bad. absurd (ground (arith, bad)))
    | inr (ids, hit) ↦
        rw (hit, forget)
          (λ good. ground (arith, index.remove_holds c.id c.id w.ctr_ids ids hit, ==_refl c.id))
  ]

  removed-unindexed :
      (env : RemoveEnv) (sb : Sandbox) (c : Ctr) (w : World I)
      → (remove_container_in_pod index env sb c w).1 ≡ none
      → index.holds c.id (remove_container_in_pod index env sb c w).0.ctr_ids ≡ false
  removed-unindexed env sb c w good = elim (remove_container_in_pod-cases index c env sb w) [
    | inl (e, bad, kept) ↦ absurd (ground (arith, bad, good))
    | inr (v, kept, all) ↦ rw all (forgotten c (deleted index c v) (rw (sym all) good))
  ]

  -- The first failure comes after the removal of the infra container.
  remove_infra-late :
      (env : RemovePodEnv) (sb : Sandbox) (c : Ctr) (w : World I) (e : HandlerError)
      → sb.infra_container ≡ some c
      → (remove_infra index level_of env sb w).1 ≡ some e
      → is_late e ≡ true
      → index.holds c.id (remove_infra index level_of env sb w).0.ctr_ids ≡ false
  unfolding remove_infra
  remove_infra-late env sb c w e infra =
      let w' = record w { tables = remove_infra_container c w.tables } in
      let next = remove_container_in_pod index (env.removing c.id) sb c w' in
      elim (Option-cases next.1) [
        | inl good ↦
            rw (infra, good, remove_infra)
              (λ bad late.
                rw (ctr_ids-tear_down env sb next.0)
                  (removed-unindexed (env.removing c.id) sb c w' good))
        | inr (x, bad) ↦
            rw (infra, bad, remove_infra)
              (λ same late.
                absurd (ground (arith, same, late, early (env.removing c.id) sb c w' x bad)))
      ]

  remove_pod_sandbox-late :
      (env : RemovePodEnv) (sb : Sandbox) (c : Ctr) (w : World I) (e : HandlerError)
      → sb.infra_container ≡ some c
      → (remove_pod_sandbox index level_of env sb w).1 ≡ some e
      → is_late e ≡ true
      → index.holds c.id (remove_pod_sandbox index level_of env sb w).0.ctr_ids ≡ false
  unfolding remove_pod_sandbox
  remove_pod_sandbox-late env sb c w e infra =
      let all = remove_all index level_of env sb (ctrs_of sb.containers) w in
      elim (Option-cases all.1) [
        | inr (x, bad) ↦
            rw (bad, remove_pod_sandbox)
              (λ same late. absurd (
                ground
                  (arith, same, late, remove_all-early env sb (ctrs_of sb.containers) w x bad)))
        | inl good ↦ elim (Bool-cases env.unmounts_shm) [
          | inl fine ↦
              rw (good, fine, remove_pod_sandbox) (remove_infra-late env sb c all.0 e infra)
          | inr bad ↦
              rw (good, bad, remove_pod_sandbox) (λ same late. absurd (ground (arith, same, late)))
        ]
      ]

  -- The tries of RemovePodSandbox, one after the other, each with the pod that it finds.
  unfoldable pub tries : List (RemovePodEnv × Sandbox) → World I → World I
  unfolding remove_pod_sandbox
  tries [] w = w
  tries ((env, sb) ∷ rest) w = tries rest (remove_pod_sandbox index level_of env sb w).0

  -- The pods of the tries have this infra container.
  abbrev pub AllOf : Ctr → List (RemovePodEnv × Sandbox) → Type 0
  AllOf c [] = Unit
  AllOf c ((env, sb) ∷ rest) = (sb.infra_container ≡ some c) × AllOf c rest

  tries-unindexed :
      (c : Ctr) (rest : List (RemovePodEnv × Sandbox)) (w : World I)
      → AllOf c rest
      → index.holds c.id w.ctr_ids ≡ false
      → index.holds c.id (tries rest w).ctr_ids ≡ false
  unfolding tries
  tries-unindexed c [] w all out = out
  tries-unindexed c ((env, sb) ∷ rest) w (infra, all) out =
      tries-unindexed c rest (remove_pod_sandbox index level_of env sb w).0 all
        (remove_pod_sandbox-Fails env sb c w infra out).1

  -- If RemovePodSandbox fails at the cgroup, the network or the namespaces of the pod, its infra
  -- container is out of the index, and every later RemovePodSandbox of the pod fails, whatever the
  -- calls answer then.
  pub remove_pod_sandbox-again :
      (env env' : RemovePodEnv) (sb sb' : Sandbox) (c : Ctr) (w : World I) (e : HandlerError)
      (between : List (RemovePodEnv × Sandbox))
      → sb.infra_container ≡ some c
      → sb'.infra_container ≡ some c
      → AllOf c between
      → (remove_pod_sandbox index level_of env sb w).1 ≡ some e
      → is_late e ≡ true
      → let later = tries between (remove_pod_sandbox index level_of env sb w).0 in
        (index.holds c.id later.ctr_ids ≡ false)
        × ((x : HandlerError) × ((remove_pod_sandbox index level_of env' sb' later).1 ≡ some x))
  remove_pod_sandbox-again env env' sb sb' c w e between infra infra' all bad late =
      let first = (remove_pod_sandbox index level_of env sb w).0 in
      let out =
        tries-unindexed c between first all (remove_pod_sandbox-late env sb c w e infra bad late) in
      (out, (remove_pod_sandbox-Fails env' sb' c (tries between first) infra' out).0)
