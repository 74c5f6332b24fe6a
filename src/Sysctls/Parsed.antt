-- ===== src/Sysctls/Parsed.antt =====
-- pkg/config/sysctl.go: what is parsed is what was written.
use cri_t.Prelude.{
  eqb, Bool-cases, Option-cases, string_eq, nat_eq, ◌==◌, ok, Result-cases, ℕ, ◌≡◌, sym, ap, ◌∙◌,
  inl, inr, some, List, [], ◌∷◌, ◌++◌, map, arith,
}
use cri_t.Prelude.Bytes.{Bytes, bytes_eq, split_once, Lacks}
use mathlib.Core.Path.{subst}
use cri_t.Sysctls.{Sysctl, equals, sysctl_of, sysctls}

-- KEY=VALUE
abbrev pub printed : Sysctl → Bytes
printed s = s.key ++ equals ∷ s.value

split_once-some :
    (sep : ℕ) (s after : Bytes)
    → (split_once sep s).1 ≡ some after
    → (s ≡ (split_once sep s).0 ++ sep ∷ after) × Lacks sep (split_once sep s).0
split_once-some sep [] after = λ cut. absurd (ground (arith, cut))
split_once-some sep (c ∷ s) after = elim (Bool-cases (eqb c sep)) [
  | inl hit ↦ rw hit (λ cut. (ground (arith, cut, hit), tt))
  | inr miss ↦ rw miss (λ cut.
      let (whole, lacks) = split_once-some sep s after cut in
      (ap (λ t. c ∷ t) whole, (miss, lacks)))
]

-- A sysctl that is parsed is KEY=VALUE, and its key has no equals sign.
abbrev pub IsParsed : Bytes → Sysctl → Type 0
IsParsed entry s = (printed s ≡ entry) × Lacks equals s.key

sysctl_of-IsParsed :
    (trim : Bytes → Bytes) (entry : Bytes) (s : Sysctl)
    → sysctl_of trim entry ≡ ok s
    → IsParsed entry s
unfolding sysctl_of
sysctl_of-IsParsed trim entry s = elim (Option-cases (split_once equals entry).1) [
  | inl out ↦ rw (out, sysctl_of) (λ good. absurd (ground (arith, good)))
  | inr (value, found) ↦
      let (whole, lacks) = split_once-some equals entry value found in
      let key = (split_once equals entry).0 in
      elim (Bool-cases (trim key ++ equals ∷ trim value == entry)) [
        | inr spaces ↦ rw (found, spaces, sysctl_of) (λ good. absurd (ground (arith, good)))
        | inl tight ↦
            rw (found, tight, sysctl_of)
              (λ good.
                let same : record { key = key; value = value } ≡ s = ground (arith, good) in
                subst (IsParsed entry) same (sym whole, lacks))
      ]
]

-- The entries that are not empty.
abbrev pub filled : List Bytes → List Bytes
filled [] = []
filled ([] ∷ entries) = filled entries
filled ((c ∷ entry) ∷ entries) = (c ∷ entry) ∷ filled entries

-- If Sysctls accepts the entries of the configuration, the sysctls that it returns, written as
-- KEY=VALUE, are the entries that are not empty, in their order.
pub sysctls-printed :
    (trim : Bytes → Bytes) (entries : List Bytes) (ss : List Sysctl)
    → sysctls trim entries ≡ ok ss
    → map printed ss ≡ filled entries
unfolding sysctls
sysctls-printed trim [] ss =
    λ good. let same : ss ≡ [] = ground (arith, good) in ap (λ l. map printed l) same
sysctls-printed trim ([] ∷ entries) ss = sysctls-printed trim entries ss
sysctls-printed trim ((c ∷ entry) ∷ entries) ss = elim (Result-cases (sysctl_of trim (c ∷ entry))) [
  | inr (e, bad) ↦ rw (bad, sysctls) (λ good. absurd (ground (arith, good)))
  | inl (s, fine) ↦ elim (Result-cases (sysctls trim entries)) [
    | inr (e, bad) ↦ rw (fine, bad, sysctls) (λ good. absurd (ground (arith, good)))
    | inl (rest, rest_fine) ↦
        rw (fine, rest_fine, sysctls)
          (λ good.
            let same : s ∷ rest ≡ ss = ground (arith, good) in
            let here = (sysctl_of-IsParsed trim (c ∷ entry) s fine).0 in
            let later = sysctls-printed trim entries rest rest_fine in
            ap (λ l. map printed l) (sym same)
            ∙ ap (λ p. p ∷ map printed rest) here
            ∙ ap (λ l. (c ∷ entry) ∷ l) later)
  ]
]
