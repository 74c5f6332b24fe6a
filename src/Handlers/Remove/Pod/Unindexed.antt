-- ===== src/Handlers/Remove/Pod/Unindexed.antt =====
-- server/container_remove.go: an ID that is out of the index stays out.
use cri_t.Prelude.{Option-cases, string_eq, nat_eq, String, ◌≡◌, refl, inl, inr, false, some, arith}
use cri_t.Server.{Ctr, Sandbox}
use cri_t.Handlers.Index.{IdIndex}
use cri_t.Handlers.{World, index_failed}
use cri_t.Handlers.Remove.{RemoveEnv, forget, remove_container_in_pod}
use cri_t.Handlers.Remove.Effect.{deleted, remove_container_in_pod-cases}

module _ {I : Type 0} (index : IdIndex I) where
  -- Once an ID is out of the index, no removal brings it back.
  pub forget-unindexed :
      (c : Ctr) (w : World I) (id : String)
      → index.holds id w.ctr_ids ≡ false
      → index.holds id (forget index c w).0.ctr_ids ≡ false
  unfolding forget
  forget-unindexed c w id out = elim (Option-cases (index.remove c.id w.ctr_ids)) [
    | inl miss ↦ rw (miss, forget) out
    | inr (ids, hit) ↦
        rw (hit, forget) (ground (arith, index.remove_holds c.id id w.ctr_ids ids hit, out))
  ]

  -- A container that the index does not have cannot be removed.
  pub forget-fails :
      (c : Ctr) (w : World I)
      → index.holds c.id w.ctr_ids ≡ false
      → (forget index c w).1 ≡ some index_failed
  unfolding forget
  forget-fails c w out = rw (index.remove_absent c.id w.ctr_ids out, forget) refl

  pub step-unindexed :
      (env : RemoveEnv) (sb : Sandbox) (c : Ctr) (w : World I) (id : String)
      → index.holds id w.ctr_ids ≡ false
      → index.holds id (remove_container_in_pod index env sb c w).0.ctr_ids ≡ false
  step-unindexed env sb c w id out = elim (remove_container_in_pod-cases index c env sb w) [
    | inl (e, bad, kept) ↦ rw kept.2 out
    | inr (v, kept, all) ↦ rw all (forget-unindexed c (deleted index c v) id (rw kept.2 out))
  ]
