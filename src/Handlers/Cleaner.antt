-- ===== src/Handlers/Cleaner.antt =====
-- server/: what the functions of a cleaner undo, for the handlers that create containers and pods.
use cri_t.Prelude.{
  if◌then◌else◌, Option-cases, string_eq, nat_eq, ◌==◌, ==_iff, ==_refl, contains, String, ◌≡◌,
  refl, inl, inr, Bool, false, none, List, [], ◌∷◌, arith,
}
use cri_t.Prelude.Maps.{lookup, lookup-delete}
use cri_t.Registrar.{Registrar, release}
use cri_t.Handlers.Index.{IdIndex}
use cri_t.Handlers.{Undo, delete_id, delete_pod_id, World, without, undo, run_undos}

pub lookup-release :
    (name k : String) (r : Registrar)
    → lookup k (release name r).names ≡ (if name == k then none else lookup k r.names)
unfolding release
lookup-release name k r = elim (Option-cases (lookup name r.names)) [
  | inl free ↦ ground (arith, free, ==_iff name k)
  | inr (key, held) ↦ ground (arith, held, lookup-delete name k r.names)
]

pub contains-without :
    (id j : String) (l : List String)
    → contains (without id l) j ≡ (if id == j then false else contains l j)
contains-without id j [] = ground arith
contains-without id j (x ∷ l) =
    ground (arith, contains-without id j l, ==_iff x id, ==_iff x j, ==_iff id j)

pub undo-delete_id :
    {I : Type 0} (index : IdIndex I) (id : String) (w : World I)
    → index.holds id (undo index (delete_id id) w).ctr_ids ≡ false
unfolding undo
undo-delete_id index id w = elim (Option-cases (index.remove id w.ctr_ids)) [
  | inl missing ↦ ground (arith, index.remove_fails id w.ctr_ids)
  | inr (ids, out) ↦ ground (arith, index.remove_holds id id w.ctr_ids ids out, ==_refl id)
]

pub undo-delete_pod_id :
    {I : Type 0} (index : IdIndex I) (id : String) (w : World I)
    → index.holds id (undo index (delete_pod_id id) w).pod_ids ≡ false
unfolding undo
undo-delete_pod_id index id w = elim (Option-cases (index.remove id w.pod_ids)) [
  | inl missing ↦ ground (arith, index.remove_fails id w.pod_ids)
  | inr (ids, out) ↦ ground (arith, index.remove_holds id id w.pod_ids ids out, ==_refl id)
]

-- Every function of the cleaner, in the order of the list.
unfoldable pub undo_each : {I : Type 0} → IdIndex I → List Undo → World I → World I
undo_each index [] w = w
undo_each index (u ∷ us) w = undo_each index us (undo index u w)

pub run_undos-undo_each :
    {I : Type 0} (index : IdIndex I) (fails : Undo → Bool)
    → ((u : Undo) → fails u ≡ false)
    → (us : List Undo) (w : World I) → run_undos index fails us w ≡ undo_each index us w
unfolding run_undos undo_each
run_undos-undo_each index fails none_fails [] w = refl
run_undos-undo_each index fails none_fails (u ∷ us) w =
    rw (none_fails u, run_undos) (run_undos-undo_each index fails none_fails us (undo index u w))
