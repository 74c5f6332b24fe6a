-- ===== src/Prelude/Bytes.antt =====
-- A Go string as the list of its bytes, with the functions of Go's strings package that the source
-- calls: equality, Split and SplitN at one byte, HasPrefix.
use Prim.Native.Nat.{ℕ}
use mathlib.Core.Path.{◌≡◌, refl, subst}
use mathlib.Core.Logic.{◌↔◌}
use mathlib.Core.Bool.{Bool, true, false, ◌&&◌}
use mathlib.Core.Option.{Option, none, some}
use mathlib.Core.List.{List, [], ◌∷◌, ◌++◌}
use native.Mathlib.Omega.{arith}
use cri_t.Prelude.Tests.{eqb, eqb_iff, if◌then◌else◌}
use cri_t.Prelude.Lists.{All}
use cri_t.Prelude.Classes.{Comparable}

abbrev pub Bytes : Type 0
Bytes = List ℕ

abbrev pub same_bytes : Bytes → Bytes → Bool
same_bytes [] [] = true
same_bytes [] (d ∷ t) = false
same_bytes (c ∷ s) [] = false
same_bytes (c ∷ s) (d ∷ t) = eqb c d && same_bytes s t

pub same_bytes_to : (s t : Bytes) → same_bytes s t ≡ true → s ≡ t
same_bytes_to [] [] h = refl
same_bytes_to [] (d ∷ t) h = absurd (ground (arith, h))
same_bytes_to (c ∷ s) [] h = absurd (ground (arith, h))
same_bytes_to (c ∷ s) (d ∷ t) h = ground (arith, h, eqb_iff c d, same_bytes_to s t)

pub same_bytes_refl : (s : Bytes) → same_bytes s s ≡ true
same_bytes_refl [] = refl
same_bytes_refl (c ∷ s) = ground (arith, same_bytes_refl s)

pub same_bytes_iff : (s t : Bytes) → (same_bytes s t ≡ true) ↔ (s ≡ t)
same_bytes_iff s t =
    (same_bytes_to s t, λ p. subst (λ u. same_bytes s u ≡ true) p (same_bytes_refl s))

instance abbrev pub bytes_eq : Comparable Bytes
bytes_eq = record { same_iff = same_bytes_iff; same = same_bytes }

abbrev pub has_prefix : Bytes → Bytes → Bool
has_prefix s [] = true
has_prefix [] (d ∷ t) = false
has_prefix (c ∷ s) (d ∷ t) = eqb c d && has_prefix s t

-- c before the first part
abbrev pub onto_first : ℕ → List Bytes → List Bytes
onto_first c [] = (c ∷ []) ∷ []
onto_first c (p ∷ ps) = (c ∷ p) ∷ ps

-- strings.Split(s, sep)
abbrev pub split : ℕ → Bytes → List Bytes
split sep [] = [] ∷ []
split sep (c ∷ s) = let rest = split sep s in if eqb c sep then [] ∷ rest else onto_first c rest

-- strings.SplitN(s, sep, 2), as the part before the first sep and the rest where there is one
abbrev pub split_once : ℕ → Bytes → Bytes × Option Bytes
split_once sep [] = ([], none)
split_once sep (c ∷ s) =
    let (before, after) = split_once sep s in
    if eqb c sep then ([], some s) else (c ∷ before, after)

abbrev pub Lacks : ℕ → Bytes → Type 0
Lacks sep = All (λ c. eqb c sep ≡ false)

pub split-append :
    (sep : ℕ) (s t : Bytes) → Lacks sep s → split sep (s ++ sep ∷ t) ≡ s ∷ split sep t
split-append sep [] t h = ground arith
split-append sep (c ∷ s) t (other, h) = rw (other, split-append sep s t h) refl

pub split-Lacks : (sep : ℕ) (s : Bytes) → Lacks sep s → split sep s ≡ s ∷ []
split-Lacks sep [] h = refl
split-Lacks sep (c ∷ s) (other, h) = rw (other, split-Lacks sep s h) refl

pub split_once-append :
    (sep : ℕ) (s t : Bytes) → Lacks sep s → split_once sep (s ++ sep ∷ t) ≡ (s, some t)
split_once-append sep [] t h = ground arith
split_once-append sep (c ∷ s) t (other, h) = rw (other, split_once-append sep s t h) refl
