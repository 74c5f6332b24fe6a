-- ===== src/Prelude/Maps.antt =====
-- Go's `map`: a finite map with comparable keys, as an association list. The order of the entries
-- stands for the order in which a `range` loop meets them, which Go leaves open.
use mathlib.Core.Path.{◌≡◌}
use mathlib.Core.List.{List, [], ◌∷◌}
use mathlib.Core.Option.{Option, none, some}
use native.Mathlib.Omega.{arith}
use mathlib.Core.Logic.{inl, inr}
use cri_t.Prelude.Tests.{if◌then◌else◌, Bool-cases}
use cri_t.Prelude.Classes.{Comparable, ◌==◌, nat_eq, string_eq, ==_refl}

abbrev pub Map {ℓ κ} : Type ℓ → Type κ → Type (ℓ ⊔ κ)
Map K V = List (K × V)

module _ {ℓ κ} {K : Type ℓ} {V : Type κ} ⦃e : Comparable K⦄ where
  -- v, ok := m[k]
  unfoldable pub lookup : K → Map K V → Option V
  lookup k [] = none
  lookup k ((j, v) ∷ m) = if j == k then some v else lookup k m

  -- delete(m, k)
  unfoldable pub delete : K → Map K V → Map K V
  delete k [] = []
  delete k ((j, v) ∷ m) = let rest = delete k m in if j == k then rest else (j, v) ∷ rest

  -- m[k] = v
  unfoldable pub insert : K → V → Map K V → Map K V
  insert k v m = (k, v) ∷ delete k m

  pub lookup-delete :
      (k j : K) (m : Map K V) → lookup j (delete k m) ≡ (if k == j then none else lookup j m)
  unfolding lookup delete
  lookup-delete k j [] = ground arith
  lookup-delete k j ((i, v) ∷ m) =
      ground (arith, lookup-delete k j m, e.same_iff i k, e.same_iff i j, e.same_iff k j)

  pub lookup-insert :
      (k j : K) (v : V) (m : Map K V)
      → lookup j (insert k v m) ≡ (if k == j then some v else lookup j m)
  unfolding lookup insert
  lookup-insert k j v m = ground (arith, lookup-delete k j m)

pub ruleset map_laws = (lookup-delete, lookup-insert, ==_refl)

module _ {ℓ κ} {K : Type ℓ} {V : Type κ} ⦃e : Comparable K⦄ where
  -- No key stands twice: what `insert` and `delete` keep.
  abbrev pub Unique : Map K V → Type κ
  Unique [] = Unit
  Unique ((k, v) ∷ m) = (lookup k m ≡ none) × Unique m

  pub delete-Unique : (k : K) (m : Map K V) → Unique m → Unique (delete k m)
  unfolding delete
  delete-Unique k [] u = tt
  delete-Unique k ((j, v) ∷ m) (fresh, u) = elim (Bool-cases (j == k)) [
    | inl hit ↦ rw hit (delete-Unique k m u)
    | inr miss ↦ rw miss (ground (arith, lookup-delete k j m), delete-Unique k m u)
  ]

  pub insert-Unique : (k : K) (v : V) (m : Map K V) → Unique m → Unique (insert k v m)
  unfolding insert
  insert-Unique k v m u = (ground (arith, lookup-delete k k m, ==_refl k), delete-Unique k m u)

module _ {ℓ κ μ} {K : Type ℓ} {V : Type κ} ⦃e : Comparable K⦄ (P : V → Type μ) where
  -- A predicate on every value.
  abbrev pub Values : Map K V → Type μ
  Values [] = Unit
  Values ((k, v) ∷ m) = P v × Values m

  pub delete-Values : (k : K) (m : Map K V) → Values m → Values (delete k m)
  unfolding delete
  delete-Values k [] h = tt
  delete-Values k ((j, v) ∷ m) (p, h) = elim (Bool-cases (j == k)) [
    | inl hit ↦ rw hit (delete-Values k m h)
    | inr miss ↦ rw miss (p, delete-Values k m h)
  ]

  pub lookup-Values : (k : K) (v : V) (m : Map K V) → Values m → lookup k m ≡ some v → P v
  unfolding lookup
  lookup-Values k v [] h f = absurd (cc)
  lookup-Values k v ((j, w) ∷ m) (p, h) f = elim (Bool-cases (j == k)) [
    | inl hit ↦ let same : w ≡ v = ground arith in rw (← same) p
    | inr miss ↦ lookup-Values k v m h (ground arith)
  ]
