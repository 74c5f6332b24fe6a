-- ===== src/LoadBalancing/Changes.antt =====
-- internal/runtimehandlerhooks/high_performance_hooks_linux.go: what one change of the files of a cgroup does
-- to the CPUs that it owns alone.
use cri_t.Prelude.{
  if◌then◌else◌, branches, Option-cases, string_eq, nat_eq, ℕ, ◌≡◌, refl, sym, ap, ◌∙◌, ◌⊎◌, inl,
  inr, Bool, true, false, not, Option, none, some, arith,
}
use cri_t.LoadBalancing.{
  CpuSets, cpuset_cpus, cpuset_cpus_exclusive, Cgroup, CgroupError, unreadable, unwritable,
  FileAnswers, Changed, add_or_remove_cpuset_from_manager, add_cpus, remove_cpus,
}

module _ {S : Type 0} (sets : CpuSets S) where
  -- What one change does to the exclusive CPUs of a cgroup, whether it fails or not.
  pub record Adds (s : S) (g : Cgroup S) (r : Changed S) : Type 0 where
    pub same : r.0.exclusive_cpus ≡ g.exclusive_cpus
    pub keeps : (k : ℕ) → sets.has k g.exclusive ≡ true → sets.has k r.0.exclusive ≡ true
    pub only :
        (k : ℕ)
        → sets.has k r.0.exclusive ≡ true
        → (sets.has k g.exclusive ≡ true) ⊎ (sets.has k s ≡ true)
    pub done : r.1 ≡ none → (k : ℕ) → sets.has k s ≡ true → sets.has k r.0.exclusive ≡ true

  pub record Removes (s : S) (g : Cgroup S) (r : Changed S) : Type 0 where
    pub same : r.0.exclusive_cpus ≡ g.exclusive_cpus
    pub only : (k : ℕ) → sets.has k r.0.exclusive ≡ true → sets.has k g.exclusive ≡ true
    pub keeps :
        (k : ℕ)
        → sets.has k g.exclusive ≡ true
        → sets.has k s ≡ false
        → sets.has k r.0.exclusive ≡ true
    pub done : r.1 ≡ none → (k : ℕ) → sets.has k s ≡ true → sets.has k r.0.exclusive ≡ false

  record Same (g : Cgroup S) (r : Changed S) : Type 0 where
    owns : r.0.exclusive ≡ g.exclusive
    wants : r.0.exclusive_cpus ≡ g.exclusive_cpus

  unchanged-Same : (g : Cgroup S) (failure : Option CgroupError) → Same g (g, failure)
  unchanged-Same g failure = record { owns = refl; wants = refl }

  -- A change of cpuset.cpus leaves cpuset.cpus.exclusive as it is.
  cpus-Same :
      (answers : FileAnswers) (adds : Bool) (s : S) (g : Cgroup S)
      → Same g (add_or_remove_cpuset_from_manager sets answers adds cpuset_cpus s g)
  unfolding add_or_remove_cpuset_from_manager
  cpus-Same answers adds s g =
      let target = if adds then sets.union g.allowed s else sets.difference g.allowed s in
      branches (Same g) (not (answers.reads g.path cpuset_cpus)) (λ h. unchanged-Same g _)
        (λ h.
          branches (Same g) (sets.equals target g.allowed) (λ h. unchanged-Same g _)
            (λ h.
              branches (Same g) (not (answers.writes g.path cpuset_cpus)) (λ h. unchanged-Same g _)
                (λ h.
                  branches (λ x. Same g (x, none)) (sets.is_empty target)
                    (λ h. unchanged-Same g none) (λ h. record { owns = refl; wants = refl }))))

  exclusive-Adds :
      (answers : FileAnswers) (s : S) (g : Cgroup S)
      → Adds s g (add_or_remove_cpuset_from_manager sets answers true cpuset_cpus_exclusive s g)
  unfolding add_or_remove_cpuset_from_manager
  exclusive-Adds answers s g =
      let failed : (e : CgroupError) → Adds s g (g, some e) = λ e. record {
        same = refl;
        keeps = λ k h. h;
        only = λ k h. inl h;
        done = λ h. absurd (ground (arith, h));
      } in
      branches (Adds s g) (not (answers.reads g.path cpuset_cpus_exclusive))
        (λ h. failed unreadable)
        (λ h.
          branches (Adds s g) (sets.equals (sets.union g.exclusive s) g.exclusive)
            (λ same. record {
              same = refl;
              keeps = λ k h. h;
              only = λ k h. inl h;
              done = λ h k there. ground (
                arith,
                there,
                sets.equals_has k (sets.union g.exclusive s) g.exclusive same,
                sets.union_has k g.exclusive s,
              );
            })
            (λ new.
              branches (Adds s g) (not (answers.writes g.path cpuset_cpus_exclusive))
                (λ h. failed unwritable)
                (λ h. record {
                  same = refl;
                  keeps = λ k h. ground (arith, h, sets.union_has k g.exclusive s);
                  only = λ k h. ground (arith, h, sets.union_has k g.exclusive s);
                  done = λ h k there. ground (arith, there, sets.union_has k g.exclusive s);
                })))

  exclusive-Removes :
      (answers : FileAnswers) (s : S) (g : Cgroup S)
      → Removes s g (add_or_remove_cpuset_from_manager sets answers false cpuset_cpus_exclusive s g)
  unfolding add_or_remove_cpuset_from_manager
  exclusive-Removes answers s g =
      let failed : (e : CgroupError) → Removes s g (g, some e) = λ e. record {
        same = refl;
        only = λ k h. h;
        keeps = λ k h out. h;
        done = λ h. absurd (ground (arith, h));
      } in
      branches (Removes s g) (not (answers.reads g.path cpuset_cpus_exclusive))
        (λ h. failed unreadable)
        (λ h.
          branches (Removes s g) (sets.equals (sets.difference g.exclusive s) g.exclusive)
            (λ same. record {
              same = refl;
              only = λ k h. h;
              keeps = λ k h out. h;
              done = λ h k there. ground (
                arith,
                there,
                sets.equals_has k (sets.difference g.exclusive s) g.exclusive same,
                sets.difference_has k g.exclusive s,
              );
            })
            (λ new.
              branches (Removes s g) (not (answers.writes g.path cpuset_cpus_exclusive))
                (λ h. failed unwritable)
                (λ h. record {
                  same = refl;
                  only = λ k h. ground (arith, h, sets.difference_has k g.exclusive s);
                  keeps = λ k h out. ground (arith, h, out, sets.difference_has k g.exclusive s);
                  done = λ h k there. ground (arith, there, sets.difference_has k g.exclusive s);
                })))

  pub add_cpus-Adds :
      (answers : FileAnswers) (g : Cgroup S) → Adds g.exclusive_cpus g (add_cpus sets answers g)
  unfolding add_cpus
  add_cpus-Adds answers g =
      let first = add_or_remove_cpuset_from_manager sets answers true cpuset_cpus g.cpus g in
      let kept = cpus-Same answers true g.cpus g in
      let same = kept.owns in
      let wants = kept.wants in
      let next = exclusive-Adds answers g.exclusive_cpus first.0 in
      elim (Option-cases first.1) [
        | inr (e, bad) ↦
            rw (bad, add_cpus)
              (record {
                same = wants;
                keeps = λ k h. ap (sets.has k) same ∙ h;
                only = λ k h. inl (ap (sets.has k) (sym same) ∙ h);
                done = λ h. absurd (ground (arith, h));
              })
        | inl good ↦
            rw (good, add_cpus)
              (record {
                same = next.same ∙ wants;
                keeps = λ k h. next.keeps k (ap (sets.has k) same ∙ h);
                only = λ k h. ground (arith, next.only k h, ap (sets.has k) same);
                done = next.done;
              })
      ]

  pub remove_cpus-Removes :
      (answers : FileAnswers) (g : Cgroup S)
      → Removes g.exclusive_cpus g (remove_cpus sets answers g)
  unfolding remove_cpus
  remove_cpus-Removes answers g =
      let s = g.exclusive_cpus in
      let first = add_or_remove_cpuset_from_manager sets answers false cpuset_cpus_exclusive s g in
      let h = exclusive-Removes answers s g in
      let kept = cpus-Same answers false g.cpus first.0 in
      let same = kept.owns in
      let wants = kept.wants in
      elim (Option-cases first.1) [
        | inr (e, bad) ↦
            rw (bad, remove_cpus)
              (record {
                same = h.same;
                only = h.only;
                keeps = h.keeps;
                done = λ good. absurd (ground (arith, good));
              })
        | inl good ↦
            rw (good, remove_cpus)
              (branches (Removes s g) (sets.equals s g.cpus)
                (λ all. record {
                  same = wants ∙ h.same;
                  only = λ k there. h.only k (ap (sets.has k) (sym same) ∙ there);
                  keeps = λ k there out. ap (sets.has k) same ∙ h.keeps k there out;
                  done = λ d k there. ap (sets.has k) same ∙ h.done good k there;
                })
                (λ shared. record {
                  same = h.same;
                  only = h.only;
                  keeps = h.keeps;
                  done = λ d. h.done good;
                }))
      ]
