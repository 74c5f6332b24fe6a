-- ===== src/Irq/Format.antt =====
-- internal/runtimehandlerhooks/utils_linux.go: the commas of a mask that is printed and read again.
use mathlib.Core.Path.{◌≡◌, refl}
use cri_t.Prelude.{
  leb, eqb, length, take, drop, All, nat_eq, string_eq, ℕ, zero, suc, ◌+◌, ◌%◌, ◌≤◌, ◌<◌, ◌≡◌, refl,
  true, false, some, List, [], ◌∷◌, ◌++◌, arith,
}
use cri_t.Irq.{comma, strip_commas, groups, with_commas}

abbrev pub NoComma : List ℕ → Type 0
NoComma = All (λ c. eqb c comma ≡ false)

strip_commas-cons :
    (c : ℕ) (s t : List ℕ) → eqb c comma ≡ false → strip_commas s ≡ t → strip_commas (c ∷ s) ≡ c ∷ t
unfolding strip_commas
strip_commas-cons c s t p h = ground (arith, p, h)

strip_commas-take :
    (n : ℕ) (s u : List ℕ)
    → NoComma s
    → strip_commas u ≡ drop n s
    → strip_commas (take n s ++ u) ≡ s
strip_commas-take zero s u h rest = rest
strip_commas-take (suc n) [] u h rest = rest
strip_commas-take (suc n) (c ∷ s) u (p, h) rest =
    strip_commas-cons c (take n s ++ u) s p (strip_commas-take n s u h rest)

drop-NoComma : (n : ℕ) (s : List ℕ) → NoComma s → NoComma (drop n s)
drop-NoComma zero s h = h
drop-NoComma (suc n) [] h = tt
drop-NoComma (suc n) (c ∷ s) (p, h) = drop-NoComma n s h

length-drop : (n : ℕ) (s : List ℕ) → n ≤ length s → n + length (drop n s) ≡ length s
length-drop zero s le = omega arith
length-drop (suc n) [] le = absurd (omega (arith, le))
length-drop (suc n) (c ∷ s) le = omega (arith, length-drop n s (omega (arith, le)))

strip_commas-groups :
    (fuel : ℕ) (s : List ℕ)
    → length s ≤ fuel
    → length s % 8 ≡ 0
    → NoComma s
    → strip_commas (groups fuel s) ≡ s
unfolding groups strip_commas
strip_commas-groups zero [] le whole h = refl
strip_commas-groups zero (c ∷ s) le whole h = absurd (omega (arith, le))
strip_commas-groups (suc fuel) [] le whole h = refl
strip_commas-groups (suc fuel) (c ∷ s) le whole h =
    let long : 8 ≤ length (c ∷ s) = omega (arith, whole) in
    let test : leb 8 (length (c ∷ s)) ≡ true = ground arith in
    let len = length-drop 8 (c ∷ s) long in
    let later =
      strip_commas-groups fuel (drop 8 (c ∷ s)) (omega (arith, le, len)) (omega (arith, whole, len))
        (drop-NoComma 8 (c ∷ s) h) in
    rw test (strip_commas-take 8 (c ∷ s) (groups fuel (drop 8 (c ∷ s))) h later)

-- For a mask of one or more whole groups of 8 characters without a comma, printing it in groups
-- succeeds, and removing the commas, as the next update does, gives the mask back: the fuel is
-- enough and no character is lost.
pub with_commas-strip_commas :
    (s : List ℕ)
    → 0 < length s
    → length s % 8 ≡ 0
    → NoComma s
    → (t : List ℕ) × (with_commas s ≡ some t) × (strip_commas t ≡ s)
unfolding with_commas
with_commas-strip_commas s pos whole h =
    let long : 8 ≤ length s = omega (arith, pos, whole) in
    let test : leb 8 (length s) ≡ true = ground arith in
    let len = length-drop 8 s long in
    let later =
      strip_commas-groups (length s) (drop 8 s) (omega (arith, len)) (omega (arith, whole, len))
        (drop-NoComma 8 s h) in
    (
      take 8 s ++ groups (length s) (drop 8 s),
      rw test refl,
      strip_commas-take 8 s (groups (length s) (drop 8 s)) h later,
    )
