-- ===== src/LoadBalancing/Nested.antt =====
-- internal/runtimehandlerhooks/high_performance_hooks_linux.go: when load balancing is switched off, no
-- cgroup ever claims a CPU for itself that the cgroup above it does not claim.
use cri_t.Prelude.{
  Bool-cases, branches, Option-cases, string_eq, nat_eq, ℕ, ◌≡◌, sym, ap, ◌∙◌, inl, inr, Bool, true,
  false, none, some, List, [], ◌∷◌, arith,
}
use cri_t.LoadBalancing.Changes.{Adds, Removes, add_cpus-Adds, remove_cpus-Removes}
use cri_t.LoadBalancing.{
  CpuSets, Cgroup, FileAnswers, Changed, ChangedAll, reverse_onto, add_cpus, remove_cpus,
  change_each, add_or_remove_cpuset_from_managers, isolate_last, set_cpu_load_balancing,
}

module _ {S : Type 0} (sets : CpuSets S) where
  -- From top to bottom: the CPUs of the first cgroup satisfy P, and those of each other one are CPUs
  -- of the one before.
  abbrev pub Below : (ℕ → Type 0) → List (Cgroup S) → Type 0
  Below P [] = Unit
  Below P (g ∷ gs) =
      ((k : ℕ) → sets.has k g.exclusive ≡ true → P k)
      × Below (λ k. sets.has k g.exclusive ≡ true) gs

  -- From bottom to top.
  abbrev pub Above : (ℕ → Type 0) → List (Cgroup S) → Type 0
  Above P [] = Unit
  Above P (g ∷ gs) =
      ((k : ℕ) → P k → sets.has k g.exclusive ≡ true)
      × Above (λ k. sets.has k g.exclusive ≡ true) gs

  -- All are to own the same CPUs.
  abbrev pub Desires : S → List (Cgroup S) → Type 0
  Desires s [] = Unit
  Desires s (g ∷ gs) = (g.exclusive_cpus ≡ s) × Desires s gs

  Below-mono :
      (P Q : ℕ → Type 0) (gs : List (Cgroup S)) → ((k : ℕ) → P k → Q k) → Below P gs → Below Q gs
  Below-mono P Q [] le b = tt
  Below-mono P Q (g ∷ gs) le (here, below) = (λ k h. le k (here k h), below)

  Above-mono :
      (P Q : ℕ → Type 0) (gs : List (Cgroup S)) → ((k : ℕ) → Q k → P k) → Above P gs → Above Q gs
  Above-mono P Q [] le a = tt
  Above-mono P Q (g ∷ gs) le (here, above) = (λ k h. here k (le k h), above)

  change_each-Below :
      (s : S) (change : Cgroup S → Changed S) (P : ℕ → Type 0) (gs : List (Cgroup S))
      → ((g : Cgroup S) → Adds sets g.exclusive_cpus g (change g))
      → Desires s gs
      → ((k : ℕ) → sets.has k s ≡ true → P k)
      → Below P gs
      → Below P (change_each sets change gs).0
  unfolding change_each
  change_each-Below s change P [] adds wants within below = tt
  change_each-Below s change P (g ∷ gs) adds (here, wants) within (own, below) =
      let a = adds g in
      let now : ℕ → Type 0 = λ k. sets.has k (change g).0.exclusive ≡ true in
      let old : ℕ → Type 0 = λ k. sets.has k g.exclusive ≡ true in
      let first : (k : ℕ) → now k → P k = λ k h. elim (a.only k h) [
        | inl there ↦ own k there
        | inr new ↦ within k (ap (sets.has k) (sym here) ∙ new)
      ] in
      let lower = Below-mono old now gs a.keeps below in
      elim (Option-cases (change g).1) [
        | inr (e, bad) ↦ rw (bad, change_each) (first, lower)
        | inl good ↦
            rw (good, change_each)
              (
                first,
                change_each-Below s change now gs adds wants
                    (λ k h. a.done good k (ap (sets.has k) here ∙ h)) lower,
              )
      ]

  change_each-Above :
      (s : S) (change : Cgroup S → Changed S) (P : ℕ → Type 0) (gs : List (Cgroup S))
      → ((g : Cgroup S) → Removes sets g.exclusive_cpus g (change g))
      → Desires s gs
      → ((k : ℕ) → P k → sets.has k s ≡ false)
      → Above P gs
      → Above P (change_each sets change gs).0
  unfolding change_each
  change_each-Above s change P [] removes wants outside above = tt
  change_each-Above s change P (g ∷ gs) removes (here, wants) outside (own, above) =
      let r = removes g in
      let now : ℕ → Type 0 = λ k. sets.has k (change g).0.exclusive ≡ true in
      let old : ℕ → Type 0 = λ k. sets.has k g.exclusive ≡ true in
      let first : (k : ℕ) → P k → now k =
        λ k h. r.keeps k (own k h) (ap (sets.has k) here ∙ outside k h) in
      let upper = Above-mono old now gs r.only above in
      elim (Option-cases (change g).1) [
        | inr (e, bad) ↦ rw (bad, change_each) (first, upper)
        | inl good ↦
            rw (good, change_each)
              (
                first,
                change_each-Above s change now gs removes wants
                    (λ k h. elim (Bool-cases (sets.has k s)) [
                      | inr out ↦ out
                      | inl there ↦
                          absurd (ground (arith, h, r.done good k (ap (sets.has k) here ∙ there)))
                    ])
                    upper,
              )
      ]

  change_each-Desires :
      (s : S) (change : Cgroup S → Changed S) (gs : List (Cgroup S))
      → ((g : Cgroup S) → (change g).0.exclusive_cpus ≡ g.exclusive_cpus)
      → Desires s gs
      → Desires s (change_each sets change gs).0
  unfolding change_each
  change_each-Desires s change [] keeps wants = tt
  change_each-Desires s change (g ∷ gs) keeps (here, wants) = elim (Option-cases (change g).1) [
    | inr (e, bad) ↦ rw (bad, change_each) (keeps g ∙ here, wants)
    | inl good ↦
        rw (good, change_each) (keeps g ∙ here, change_each-Desires s change gs keeps wants)
  ]

  reverse_onto-Above :
      (P : ℕ → Type 0) (acc gs : List (Cgroup S))
      → ((Q : ℕ → Type 0) → ((k : ℕ) → Q k → P k) → Above Q acc)
      → Below P gs
      → Above (λ k. ⊥) (reverse_onto acc gs)
  unfolding reverse_onto
  reverse_onto-Above P acc [] above below = above (λ k. ⊥) (λ k h. absurd h)
  reverse_onto-Above P acc (g ∷ gs) above (own, below) =
      reverse_onto-Above (λ k. sets.has k g.exclusive ≡ true) (g ∷ acc) gs
        (λ Q le. (le, above (λ k. sets.has k g.exclusive ≡ true) own)) below

  pub reverse_onto-Desires :
      (s : S) (acc gs : List (Cgroup S))
      → Desires s acc
      → Desires s gs
      → Desires s (reverse_onto acc gs)
  unfolding reverse_onto
  reverse_onto-Desires s acc [] there wants = there
  reverse_onto-Desires s acc (g ∷ gs) there (here, wants) =
      reverse_onto-Desires s (g ∷ acc) gs (here, there) wants

  isolate_last-Below :
      (P : ℕ → Type 0) (gs : List (Cgroup S)) → Below P gs → Below P (isolate_last sets gs)
  unfolding isolate_last
  isolate_last-Below P [] below = tt
  isolate_last-Below P (g ∷ []) below = below
  isolate_last-Below P (g ∷ h ∷ gs) (own, below) =
      (own, isolate_last-Below (λ k. sets.has k g.exclusive ≡ true) (h ∷ gs) below)

  -- From top to bottom the CPUs of each cgroup are CPUs of the one before.
  abbrev pub IsNested : List (Cgroup S) → Type 0
  IsNested = Below (λ k. Unit)

  -- The same for a list from bottom to top.
  abbrev pub IsNestedUp : List (Cgroup S) → Type 0
  IsNestedUp = Above (λ k. ⊥)

  -- By the direction in which the cgroups are listed.
  abbrev pub StaysNested : ChangedAll S → Type 0
  StaysNested (gs, none) = IsNested gs
  StaysNested (gs, some e) = IsNestedUp gs

  module _ (answers later : FileAnswers) (isolates : Bool) (s : S) where
    revert-IsNestedUp :
        (gs : List (Cgroup S))
        → Desires s gs
        → IsNested gs
        → IsNestedUp (add_or_remove_cpuset_from_managers sets later false gs).0
    unfolding add_or_remove_cpuset_from_managers
    revert-IsNestedUp gs wants nested =
        change_each-Above s (remove_cpus sets later) (λ k. ⊥) (reverse_onto [] gs)
          (remove_cpus-Removes sets later) (reverse_onto-Desires s [] gs tt wants) (λ k h. absurd h)
          (reverse_onto-Above (λ k. Unit) [] gs (λ Q le. tt) nested)

-- Switching load balancing off keeps the cgroups nested: if every cgroup is to own the same CPUs, and
-- each owned only CPUs that the one above it owned, then this holds afterwards, whether it succeeds
-- or fails at any file and whether the revert succeeds or fails. After a revert the cgroups are
-- listed from bottom to top.
pub set_cpu_load_balancing-StaysNested :
    {S : Type 0} (sets : CpuSets S) (answers later : FileAnswers) (isolates : Bool) (s : S)
    (gs : List (Cgroup S))
    → Desires sets s gs
    → IsNested sets gs
    → StaysNested sets (set_cpu_load_balancing sets answers later isolates false gs)
unfolding set_cpu_load_balancing add_or_remove_cpuset_from_managers
set_cpu_load_balancing-StaysNested sets answers later isolates s [] wants nested = tt
set_cpu_load_balancing-StaysNested sets answers later isolates s (g ∷ gs) wants nested =
    let first = change_each sets (add_cpus sets answers) (g ∷ gs) in
    let on =
      change_each-Below sets s (add_cpus sets answers) (λ k. Unit) (g ∷ gs)
        (add_cpus-Adds sets answers) wants (λ k h. tt) nested in
    let wants' =
      change_each-Desires sets s (add_cpus sets answers) (g ∷ gs)
        (λ h. Adds.same (add_cpus-Adds sets answers h)) wants in
    let reverted = revert-IsNestedUp sets answers later isolates s first.0 wants' on in
    elim (Option-cases first.1) [
      | inr (e, bad) ↦ rw (bad, set_cpu_load_balancing) reverted
      | inl good ↦
          rw (good, set_cpu_load_balancing)
            (branches (StaysNested sets) isolates
              (λ h. isolate_last-Below sets (λ k. Unit) first.0 on) (λ h. reverted))
    ]
