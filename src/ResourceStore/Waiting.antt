-- ===== src/ResourceStore/Waiting.antt =====
-- What a Get returns after a Put, and what a change of the stage keeps.
use cri_t.Prelude.{
  Option-cases, string_eq, nat_eq, ==_refl, contains, contains-append_one, String, ◌≡◌, refl, inl,
  inr, true, false, arith,
}
use cri_t.Prelude.Maps.{lookup, lookup-insert}
use cri_t.ResourceStore.{
  ResourceStore, blank, is_entry_put, put, fetch, get, set_stage_for_resource,
}
use cri_t.ResourceStore.Lifetime.{lookup-put}

module _ {C : Type 0} (name : String) (s : ResourceStore C) where
  pub is_entry_put-set_stage_for_resource :
      (stage : String)
      → is_entry_put (lookup name (set_stage_for_resource name stage s).resources)
        ≡ is_entry_put (lookup name s.resources)
  unfolding set_stage_for_resource blank
  is_entry_put-set_stage_for_resource stage = elim (Option-cases (lookup name s.resources)) [
    | inl out ↦ ground (
      arith,
      out,
      ==_refl name,
      lookup-insert name name (record blank { name = name; stage = stage }) s.resources,
    )
    | inr (r, found) ↦ ground (
      arith,
      found,
      ==_refl name,
      lookup-insert name name (record r { stage = stage }) s.resources,
    )
  ]

pub get-put :
    {C : Type 0} (name id : String) (c : C) (s : ResourceStore C)
    → is_entry_put (lookup name s.resources) ≡ false
    → ((get name (put name id c s).0).1 ≡ id)
      × (contains (get name (put name id c s).0).0.created id ≡ true)
unfolding get fetch
get-put name id c s free =
    rw (lookup-put name id c s free)
      (refl, ground (arith, contains-append_one (put name id c s).0.created id id, ==_refl id))
