-- ===== src/Registrar/Lookups.antt =====
-- A registrar seen as a partial function from names to keys, and what each method answers.
use mathlib.Core.Path.{fun_ext}
use cri_t.Prelude.{
  if◌then◌else◌, Bool-cases, Option-cases, ◌==◌, nat_eq, string_eq, ==_iff, ==_refl, contains,
  Result, ok, err, String, ◌≡◌, refl, ◌≢◌, ◌⊎◌, inl, inr, Bool, false, Option, none, some, List, [],
  ◌∷◌, arith,
}
use cri_t.Prelude.Maps.{lookup, lookup-delete, lookup-insert}
use cri_t.Registrar.{
  RegistrarError, name_reserved, Registrar, listed, reserve_free, reserve, release, delete_key,
  get_names, get, Call, reserves, releases, deletes, step, run,
}
use cri_t.Registrar.Indices.{lookup-delete_names}
use cri_t.Registrar.Invariant.{owns, IsValid, step-IsValid}

-- The contract: who holds each name.
abbrev pub Holders : Type 0
Holders = String → Option String

unfoldable pub holders : Registrar → Holders
holders r name = lookup name r.names

unfoldable pub spec_step : Holders → Call → Holders
spec_step f (reserves name key) n = elim (f name) [
  | some k ↦ f n
  | none ↦ if name == n then some key else f n
]
spec_step f (releases name) n = if name == n then none else f n
spec_step f (deletes key) n = if owns (f n) key then none else f n

unfoldable pub spec_run : Holders → List Call → Holders
spec_run f [] = f
spec_run f (c ∷ cs) = spec_run (spec_step f c) cs

holders-step :
    (r : Registrar) (c : Call) (n : String)
    → IsValid r
    → holders (step r c) n ≡ spec_step (holders r) c n
unfolding holders step spec_step reserve release delete_key
holders-step r (reserves name key) n v = ground (arith, lookup-insert name n key r.names)
holders-step r (releases name) n v = ground (arith, lookup-delete name n r.names, ==_iff name n)
holders-step r (deletes key) n v =
    ground (arith, lookup-delete_names (listed key r.idx) n r.names, v.agree key n)

-- A valid registrar refines the contract: after any calls, each name is held by whom the partial
-- function from names to keys says, when it is updated by the same calls.
pub holders-run :
    (r : Registrar) (cs : List Call) → IsValid r → holders (run r cs) ≡ spec_run (holders r) cs
unfolding run spec_run
holders-run r [] v = refl
holders-run r (c ∷ cs) v =
    rw (holders-run (step r c) cs (step-IsValid r c v), fun_ext (λ n. holders-step r c n v))

pub lookup-reserve :
    (name key : String) (r : Registrar)
    → lookup name r.names ≡ none
    → lookup name (reserve name key r).0.names ≡ some key
unfolding reserve reserve_free
lookup-reserve name key r free =
    ground (arith, free, lookup-insert name name key r.names, ==_refl name)

-- Reserve of a name for a key succeeds exactly when the name is free or held by that key, and then
-- Get returns the key; otherwise the registrar is unchanged and Get returns the other key.
pub reserve-get :
    (name key : String) (r : Registrar)
    → ((reserve name key r).1 ≡ none) × (get name (reserve name key r).0 ≡ ok key)
      ⊎ ((reserve name key r).1 ≡ some name_reserved)
        × ((reserve name key r).0 ≡ r)
        × ((k : String) × (get name r ≡ ok k) × (k ≢ key))
unfolding reserve get reserve_free
reserve-get name key r = elim (Option-cases (lookup name r.names)) [
  | inl free ↦
      inl (ground (arith), ground (arith, lookup-insert name name key r.names, ==_refl name))
  | inr (k, held) ↦ elim (Bool-cases (k == key)) [
    | inl same ↦ inl (ground arith, ground (arith, ==_iff k key))
    | inr other ↦ inr (ground arith, ground arith, (k, ground arith, ground (arith, ==_iff k key)))
  ]
]

abbrev pub lists : Result RegistrarError (List String) → String → Bool
lists (ok ns) n = contains ns n
lists (err e) n = false

abbrev pub answers : Result RegistrarError String → String → Bool
answers (ok k) key = k == key
answers (err e) key = false

-- In a valid registrar GetNames of a key lists a name exactly when Get of the name returns the key,
-- and it never returns an empty list: a key that holds no name is an error.
pub get_names-get :
    (key n : String) (r : Registrar)
    → IsValid r
    → (lists (get_names key r) n ≡ answers (get n r) key) × (get_names key r ≢ ok [])
unfolding get_names get
get_names-get key n r v = (ground (arith, v.agree key n), ground (arith, v.pruned key))
