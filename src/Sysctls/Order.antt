-- ===== src/Sysctls/Order.antt =====
-- pkg/config/sysctl.go: that the order of the prefixes does not matter.
use cri_t.Prelude.{
  eqb, Bool-cases, Option-cases, is_some, All, string_eq, nat_eq, ℕ, ◌≡◌, refl, sym, ap, ◌∙◌, ◌⊎◌,
  inl, inr, Bool, true, false, some, List, [], ◌∷◌, arith,
}
use cri_t.Prelude.Bytes.{Bytes, bytes_eq, has_prefix}
use mathlib.Core.Path.{subst}
use cri_t.Sysctls.{
  Sysctl, Namespace, ipc_namespace, net_namespace, prefix_namespaces, first_match, validate,
}

abbrev pub In : Bytes × Namespace → List (Bytes × Namespace) → Type 0
In e [] = ⊥
In e (x ∷ order) = (x ≡ e) ⊎ In e order

-- The same entries, in any order and any number.
abbrev pub IsOrder : List (Bytes × Namespace) → Type 0
IsOrder order = All (λ e. In e prefix_namespaces) order × All (λ e. In e order) prefix_namespaces

abbrev is_net : Namespace → Bool
is_net ipc_namespace = false
is_net net_namespace = true

-- Whether the first letter is n.
abbrev starts_n : Bytes → Bool
starts_n [] = false
starts_n (c ∷ key) = eqb c 110

has_prefix-letter :
    (key rest : Bytes) (d : ℕ) → has_prefix key (d ∷ rest) ≡ true → eqb d 110 ≡ starts_n key
has_prefix-letter [] rest d h = absurd (ground (arith, h))
has_prefix-letter (c ∷ key) rest d h = ground (arith, h)

by_letter :
    (key rest : Bytes) (d : ℕ) (ns : Namespace) (e : Bytes × Namespace)
    → (d ∷ rest, ns) ≡ e
    → is_net ns ≡ eqb d 110
    → has_prefix key e.0 ≡ true
    → is_net e.1 ≡ starts_n key
by_letter key rest d ns e same letter =
    subst (λ x. has_prefix key x.0 ≡ true → is_net x.1 ≡ starts_n key) same
      (λ hit. letter ∙ has_prefix-letter key rest d hit)

-- Only "net." starts with this letter.
is_net-starts_n :
    (key : Bytes) (e : Bytes × Namespace)
    → In e prefix_namespaces
    → has_prefix key e.0 ≡ true
    → is_net e.1 ≡ starts_n key
is_net-starts_n key e (inl same) = by_letter key _ _ _ e same refl
is_net-starts_n key e (inr (inl same)) = by_letter key _ _ _ e same refl
is_net-starts_n key e (inr (inr (inl same))) = by_letter key _ _ _ e same refl
is_net-starts_n key e (inr (inr (inr (inl same)))) = by_letter key _ _ _ e same refl
is_net-starts_n key e (inr (inr (inr (inr none_left)))) = absurd none_left

is_net-equal : (ns ms : Namespace) → is_net ns ≡ is_net ms → ns ≡ ms
is_net-equal ipc_namespace ipc_namespace h = refl
is_net-equal ipc_namespace net_namespace h = absurd (ground (arith, h))
is_net-equal net_namespace ipc_namespace h = absurd (ground (arith, h))
is_net-equal net_namespace net_namespace h = refl

first_match-In :
    (order : List (Bytes × Namespace)) (key : Bytes) (ns : Namespace)
    → first_match order key ≡ some ns
    → (p : Bytes) × In (p, ns) order × (has_prefix key p ≡ true)
unfolding first_match
first_match-In [] key ns = λ found. absurd (ground (arith, found))
first_match-In ((p, ms) ∷ order) key ns = elim (Bool-cases (has_prefix key p)) [
  | inl hit ↦ rw hit (λ found. (p, inl (ground (arith, found)), hit))
  | inr miss ↦
      rw miss
        (λ found. let (q, there, here) = first_match-In order key ns found in (q, inr there, here))
]

first_match-is_some :
    (order : List (Bytes × Namespace)) (key p : Bytes) (ns : Namespace)
    → In (p, ns) order
    → has_prefix key p ≡ true
    → is_some (first_match order key) ≡ true
unfolding first_match
first_match-is_some [] key p ns there hit = absurd there
first_match-is_some ((q, ms) ∷ order) key p ns (inr there) hit =
    ground (arith, first_match-is_some order key p ns there hit)
first_match-is_some ((q, ms) ∷ order) key p ns (inl same) hit =
    let here : has_prefix key q ≡ true = subst (λ e. has_prefix key e.0 ≡ true) (sym same) hit in
    rw here refl

All-In :
    (P : Bytes × Namespace → Type 0) (e : Bytes × Namespace) (order : List (Bytes × Namespace))
    → All P order
    → In e order
    → P e
All-In P e [] all there = absurd there
All-In P e (x ∷ order) (here, all) (inl same) = subst P same here
All-In P e (x ∷ order) (here, all) (inr there) = All-In P e order all there

-- In whichever order the loop meets the prefixes, the first that matches gives the same namespace.
first_match-order :
    (order : List (Bytes × Namespace)) (key : Bytes)
    → IsOrder order
    → first_match order key ≡ first_match prefix_namespaces key
first_match-order order key (sound, complete) = elim (Option-cases (first_match order key)) [
  | inr (ns, found) ↦
      let (p, there, hit) = first_match-In order key ns found in
      let listed = All-In (λ e. In e prefix_namespaces) (p, ns) order sound there in
      elim (Option-cases (first_match prefix_namespaces key)) [
        | inl out ↦
            absurd (ground (arith, out, first_match-is_some prefix_namespaces key p ns listed hit))
        | inr (ms, other) ↦
            let (q, second, match) = first_match-In prefix_namespaces key ms other in
            found
            ∙ ap (λ n. some n)
                (is_net-equal ns ms (
                  is_net-starts_n key (p, ns) listed hit
                  ∙ sym (is_net-starts_n key (q, ms) second match)))
            ∙ sym other
      ]
  | inl out ↦ elim (Option-cases (first_match prefix_namespaces key)) [
    | inl other ↦ out ∙ sym other
    | inr (ms, other) ↦
        let (q, second, hit) = first_match-In prefix_namespaces key ms other in
        let there = All-In (λ e. In e order) (q, ms) prefix_namespaces complete second in
        absurd (ground (arith, out, first_match-is_some order key q ms there hit))
  ]
]

-- Validate gives the same answer in whichever order the loop meets the prefixes.
pub validate-order :
    (order : List (Bytes × Namespace)) (host_net host_ipc : Bool) (s : Sysctl)
    → IsOrder order
    → validate order host_net host_ipc s ≡ validate prefix_namespaces host_net host_ipc s
unfolding validate
validate-order order host_net host_ipc s same = rw (first_match-order order s.key same) refl
