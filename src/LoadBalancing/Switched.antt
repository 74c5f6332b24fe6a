-- ===== src/LoadBalancing/Switched.antt =====
-- internal/runtimehandlerhooks/high_performance_hooks_linux.go: what a switch of load balancing that
-- succeeds has done.
use mathlib.Core.Path.{subst}
use cri_t.Prelude.{
  branches, Option-cases, All, string_eq, nat_eq, ℕ, ◌≡◌, refl, sym, ap, ◌∙◌, inl, inr, Bool, true,
  false, none, some, List, [], ◌∷◌, arith,
}
use cri_t.LoadBalancing.Changes.{Adds, Removes, add_cpus-Adds, remove_cpus-Removes}
use cri_t.LoadBalancing.{
  CpuSets, Cgroup, FileAnswers, Changed, ChangedAll, reverse_onto, add_cpus, remove_cpus,
  change_each, add_or_remove_cpuset_from_managers, isolate_last, set_cpu_load_balancing,
}
use cri_t.LoadBalancing.Nested.{Desires, reverse_onto-Desires}

module _ {S : Type 0} (sets : CpuSets S) where
  -- The cgroup owns all the CPUs alone, or none of them.
  abbrev pub Owns : Bool → S → Cgroup S → Type 0
  Owns all s g = (k : ℕ) → sets.has k s ≡ true → sets.has k g.exclusive ≡ all

  change_each-All :
      (s : S) (all : Bool) (change : Cgroup S → Changed S) (gs : List (Cgroup S))
      → ((g : Cgroup S) → g.exclusive_cpus ≡ s → (change g).1 ≡ none → Owns all s (change g).0)
      → Desires sets s gs
      → (change_each sets change gs).1 ≡ none
      → All (Owns all s) (change_each sets change gs).0
  unfolding change_each
  change_each-All s all change [] owns wants = λ good. tt
  change_each-All s all change (g ∷ gs) owns (here, wants) = elim (Option-cases (change g).1) [
    | inr (e, bad) ↦ rw (bad, change_each) (λ good. absurd (ground (arith, good)))
    | inl fine ↦
        rw (fine, change_each)
          (λ good. (owns g here fine, change_each-All s all change gs owns wants good))
  ]

  isolate_last-All :
      (s : S) (gs : List (Cgroup S))
      → All (Owns true s) gs
      → All (Owns true s) (isolate_last sets gs)
  unfolding isolate_last
  isolate_last-All s [] all = tt
  isolate_last-All s (g ∷ []) all = all
  isolate_last-All s (g ∷ h ∷ gs) (own, all) = (own, isolate_last-All s (h ∷ gs) all)

  abbrev IsLastIsolated : List (Cgroup S) → Type 0
  IsLastIsolated [] = ⊥
  IsLastIsolated (g ∷ []) = g.is_isolated ≡ true
  IsLastIsolated (g ∷ h ∷ gs) = IsLastIsolated (h ∷ gs)

  isolate_last-IsLastIsolated :
      (g : Cgroup S) (gs : List (Cgroup S)) → IsLastIsolated (isolate_last sets (g ∷ gs))
  unfolding isolate_last
  isolate_last-IsLastIsolated g [] = refl
  isolate_last-IsLastIsolated g (h ∷ []) = refl
  isolate_last-IsLastIsolated g (h ∷ i ∷ gs) = isolate_last-IsLastIsolated h (i ∷ gs)

  -- What a switch has done, if it succeeded.
  abbrev pub Switches : Bool → S → ChangedAll S → Type 0
  Switches enables s (gs, some e) = Unit
  Switches true s (gs, none) = All (Owns false s) gs
  Switches false s (gs, none) = All (Owns true s) gs × IsLastIsolated gs

  change_each-cons :
      (change : Cgroup S → Changed S) (g : Cgroup S) (gs : List (Cgroup S))
      → (h : Cgroup S) × (hs : List (Cgroup S)) × ((change_each sets change (g ∷ gs)).0 ≡ h ∷ hs)
  unfolding change_each
  change_each-cons change g gs = elim (Option-cases (change g).1) [
    | inr (e, bad) ↦ ((change g).0, gs, rw (bad, change_each) refl)
    | inl good ↦ ((change g).0, (change_each sets change gs).0, rw (good, change_each) refl)
  ]

  isolated :
      (s : S) (changed : List (Cgroup S)) (g : Cgroup S) (gs : List (Cgroup S))
      → changed ≡ g ∷ gs
      → All (Owns true s) changed
      → Switches false s (isolate_last sets changed, none)
  isolated s changed g gs same all = (
    isolate_last-All s changed all,
    subst (λ l. IsLastIsolated (isolate_last sets l)) (sym same) (isolate_last-IsLastIsolated g gs),
  )

-- A switch of load balancing that succeeds, of cgroups that are to own the same CPUs: switched off,
-- every cgroup owns all these CPUs alone, and the last one is an isolated partition; switched on, no
-- cgroup owns one of them.
pub set_cpu_load_balancing-Switches :
    {S : Type 0} (sets : CpuSets S) (answers later : FileAnswers) (isolates enables : Bool) (s : S)
    (gs : List (Cgroup S))
    → Desires sets s gs
    → Switches sets enables s (set_cpu_load_balancing sets answers later isolates enables gs)
unfolding set_cpu_load_balancing add_or_remove_cpuset_from_managers
set_cpu_load_balancing-Switches sets answers later isolates enables s [] wants = tt
set_cpu_load_balancing-Switches sets answers later isolates true s (g ∷ gs) wants =
    let change = remove_cpus sets answers in
    let first = change_each sets change (reverse_onto [] (g ∷ gs)) in
    elim (Option-cases first.1) [
      | inr (e, bad) ↦ rw (bad, set_cpu_load_balancing) tt
      | inl good ↦
          rw (good, set_cpu_load_balancing)
            (change_each-All sets s false change (reverse_onto [] (g ∷ gs))
              (λ h here fine k there.
                Removes.done (remove_cpus-Removes sets answers h) fine k
                  (ap (sets.has k) here ∙ there))
              (reverse_onto-Desires sets s [] (g ∷ gs) tt wants) good)
    ]
set_cpu_load_balancing-Switches sets answers later isolates false s (g ∷ gs) wants =
    let change = add_cpus sets answers in
    let first = change_each sets change (g ∷ gs) in
    let (h, hs, same) = change_each-cons sets change g gs in
    elim (Option-cases first.1) [
      | inr (e, bad) ↦ rw (bad, set_cpu_load_balancing) tt
      | inl good ↦
          rw (good, set_cpu_load_balancing)
            (branches (Switches sets false s) isolates
              (λ on. isolated sets s first.0 h hs same (
                change_each-All sets s true change (g ∷ gs)
                  (λ h here fine k there.
                    Adds.done (add_cpus-Adds sets answers h) fine k (ap (sets.has k) here ∙ there))
                  wants good))
              (λ off. tt))
    ]
