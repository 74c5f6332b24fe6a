-- ===== src/Prelude/Classes.antt =====
-- Go's comparable types: the keys of maps and what `==` compares, as an instance. Names, IDs and
-- annotations are strings; PIDs and channels are numbers.
use Prim.Native.Nat.{ℕ}
use Prim.Native.String.{String}
use mathlib.Core.Path.{◌≡◌, refl}
use mathlib.Core.Logic.{◌↔◌}
use mathlib.Core.Bool.{Bool, true, false, ◌||◌}
use mathlib.Core.List.{List, [], ◌∷◌, ◌++◌}
use native.Mathlib.Omega.{arith}
use text.Mathlib.Text.{◌==◌ as text_same}
use text.Mathlib.TextEquality.{eq_iff}
use cri_t.Prelude.Tests.{eqb, eqb_iff}

pub record Comparable {ℓ} (K : Type ℓ) : Type ℓ where
  pub same : K → K → Bool
  pub same_iff : (j k : K) → (same j k ≡ true) ↔ (j ≡ k)

instance abbrev pub string_eq : Comparable String
string_eq = record { same_iff = eq_iff; same = text_same }

instance abbrev pub nat_eq : Comparable ℕ
nat_eq = record { same_iff = eqb_iff; same = eqb }

module _ {ℓ} {K : Type ℓ} ⦃e : Comparable K⦄ where
  infix 50 ◌==◌
  abbrev pub ◌==◌ : K → K → Bool
  j == k = e.same j k

  pub ==_iff : (j k : K) → ((j == k) ≡ true) ↔ (j ≡ k)
  ==_iff = e.same_iff

  pub ==_refl : (k : K) → (k == k) ≡ true
  ==_refl k = (e.same_iff k k).1 refl

  -- Membership of a slice, as a loop over it decides it.
  abbrev pub contains : List K → K → Bool
  contains [] k = false
  contains (j ∷ js) k = j == k || contains js k

  pub contains-append_one :
      (l : List K) (n m : K) → contains (l ++ n ∷ []) m ≡ (contains l m || n == m)
  contains-append_one [] n m = ground arith
  contains-append_one (x ∷ l) n m = ground (arith, contains-append_one l n m)
