-- ===== src/HighPerformance/Steps.antt =====
-- internal/runtimehandlerhooks/high_performance_hooks_linux.go: which actions stand in the lists of
-- steps, and which of them a run has done.
use cri_t.Prelude.{
  if◌then◌else◌, branches, Option-cases, is_some, any, string_eq, nat_eq, ◌==◌, Result-cases, ℕ,
  String, ◌≡◌, refl, ap, inl, inr, Bool, true, false, ◌&&◌, ◌||◌, not, Option, none, some, List, [],
  ◌∷◌, ◌++◌, arith,
}
use cri_t.HighPerformance.{
  cpu_load_balancing_annotation, cpu_quota_annotation, irq_load_balancing_annotation,
  cpu_c_states_annotation, cpu_freq_governor_annotation, should_be_disabled, should_be_configured,
  requested_shared_cpus, should_run_hooks, no_managers, Action, shares_cpus, injects_quota,
  drops_quota, balances, balances_irqs, sets_latency, sets_governor, Step, act, refuse, HookEnv,
  Ran, run_steps, when, convert_annotation_to_latency, c_states_steps, start_steps, pre_start,
  stop_steps, pre_stop,
}

abbrev pub any_step : (Action → Bool) → List Step → Bool
any_step p [] = false
any_step p (refuse e ∷ ss) = any_step p ss
any_step p (act a ∷ ss) = p a || any_step p ss

-- A run that succeeds has done all its steps.
any-run_steps :
    (p fails : Action → Bool) (ss : List Step)
    → (run_steps fails ss).1 ≡ none
    → any p (run_steps fails ss).0 ≡ any_step p ss
unfolding run_steps
any-run_steps p fails [] = λ good. refl
any-run_steps p fails (refuse e ∷ ss) = λ good. absurd (ground (arith, good))
any-run_steps p fails (act a ∷ ss) =
    branches (λ (r : Ran). r.1 ≡ none → any p r.0 ≡ any_step p (act a ∷ ss)) (fails a)
      (λ bad good. absurd (ground (arith, good)))
      (λ fine good. ap (◌||◌ (p a)) (any-run_steps p fails ss good))

any_step-append :
    (p : Action → Bool) (ss ts : List Step) → any_step p (ss ++ ts) ≡ any_step p ss || any_step p ts
any_step-append p [] ts = refl
any_step-append p (refuse e ∷ ss) ts = any_step-append p ss ts
any_step-append p (act a ∷ ss) ts = ground (arith, any_step-append p ss ts)

any_step-when :
    (p : Action → Bool) (c : Bool) (ss : List Step) → any_step p (when c ss) ≡ c && any_step p ss
any_step-when p true ss = refl
any_step-when p false ss = refl

-- What was done stands in the steps, also after an error.
any-run_steps_done :
    (p fails : Action → Bool) (ss : List Step)
    → any p (run_steps fails ss).0 ≡ true
    → any_step p ss ≡ true
unfolding run_steps
any-run_steps_done p fails [] = λ h. h
any-run_steps_done p fails (refuse e ∷ ss) = λ h. absurd (ground (arith, h))
any-run_steps_done p fails (act a ∷ ss) =
    branches (λ (r : Ran). any p r.0 ≡ true → any_step p (act a ∷ ss) ≡ true) (fails a)
      (λ bad h. absurd (ground (arith, h)))
      (λ fine h. ground (arith, h, any-run_steps_done p fails ss))

module _ (atoi : String → Option ℕ) (itoa : ℕ → String) (env : HookEnv) where
  -- What is done is done by a run that reaches its steps.
  abbrev pub IsStep : (Action → Bool) → Ran → Type 0
  IsStep p r =
      any p r.0 ≡ true
      → (should_run_hooks env.cgroup_parent env.shares ≡ true)
        × (env.finds_managers ≡ true)
        × (any_step p (start_steps atoi itoa env) ≡ true)

  pub pre_start-done : (p : Action → Bool) → IsStep p (pre_start atoi itoa env)
  unfolding pre_start
  pre_start-done p =
      branches (IsStep p) (not (should_run_hooks env.cgroup_parent env.shares))
        (λ skips h. absurd (ground (arith, h)))
        (λ runs.
          branches (IsStep p) (not env.finds_managers) (λ lost h. absurd (ground (arith, h)))
            (λ found h. (
              ground (arith, runs),
              ground (arith, found),
              any-run_steps_done p env.fails (start_steps atoi itoa env) h,
            )))

pub pre_stop-all :
    (env : HookEnv) (p : Action → Bool)
    → should_run_hooks env.cgroup_parent env.shares ≡ true
    → (pre_stop env).1 ≡ none
    → any p (pre_stop env).0 ≡ any_step p (stop_steps env)
unfolding pre_stop
pre_stop-all env p runs =
    branches (λ (r : Ran). r.1 ≡ none → any p r.0 ≡ any_step p (stop_steps env))
      (not (should_run_hooks env.cgroup_parent env.shares))
      (λ skips. absurd (ground (arith, skips, runs)))
      (λ h good. any-run_steps p env.fails (stop_steps env) good)

module _ (atoi : String → Option ℕ) (itoa : ℕ → String) (env : HookEnv) where
  -- The steps for the latency do nothing else.
  pub any_step-c_states_steps :
      (p : Action → Bool)
      → any_step p (c_states_steps atoi itoa env.annotations) ≡ true
      → (is_some (should_be_configured cpu_c_states_annotation env.annotations) ≡ true)
        × ((v : String) × (p (sets_latency v) ≡ true))
  unfolding c_states_steps
  any_step-c_states_steps p =
      elim (Option-cases (should_be_configured cpu_c_states_annotation env.annotations)) [
        | inl out ↦ rw (out, c_states_steps) (λ h. absurd (ground (arith, h)))
        | inr (v, there) ↦ elim (Result-cases (convert_annotation_to_latency atoi itoa v)) [
          | inr (e, bad) ↦ rw (there, bad, c_states_steps) (λ h. absurd (ground (arith, h)))
          | inl (l, good) ↦
              rw (there, good, c_states_steps)
                (branches
                  (λ ss.
                    any_step p ss ≡ true
                    → (true ≡ true) × ((v : String) × (p (sets_latency v) ≡ true)))
                  (l == "") (λ empty h. absurd (ground (arith, h)))
                  (λ full h. (refl, (l, ground (arith, h)))))
        ]
      ]

  abbrev pub governor_steps : List Step
  governor_steps = elim (should_be_configured cpu_freq_governor_annotation env.annotations) [
    | none ↦ []
    | some value ↦ act (sets_governor value) ∷ []
  ]

  pub any_step-governor_steps :
      (p : Action → Bool)
      → any_step p governor_steps ≡ true
      → (is_some (should_be_configured cpu_freq_governor_annotation env.annotations) ≡ true)
        × ((v : String) × (p (sets_governor v) ≡ true))
  any_step-governor_steps p =
      elim (Option-cases (should_be_configured cpu_freq_governor_annotation env.annotations)) [
        | inl out ↦ rw (out, any_step) (λ h. absurd (ground (arith, h)))
        | inr (v, there) ↦ rw (there, any_step) (λ h. (refl, (v, ground (arith, h))))
      ]

  pub any_step-start_steps :
      (p : Action → Bool)
      → any_step p (start_steps atoi itoa env) ≡ (
          requested_shared_cpus env.annotations env.ctr_name
            && any_step p (act shares_cpus ∷ act injects_quota ∷ [])
          || should_be_disabled cpu_load_balancing_annotation env.annotations
            && any_step p
                (act (balances (requested_shared_cpus env.annotations env.ctr_name) false) ∷ [])
          || should_be_disabled irq_load_balancing_annotation env.annotations
            && any_step p (act (balances_irqs false) ∷ [])
          || should_be_disabled cpu_quota_annotation env.annotations
            && any_step p
                (act (drops_quota (requested_shared_cpus env.annotations env.ctr_name)) ∷ [])
          || any_step p (c_states_steps atoi itoa env.annotations)
          || any_step p governor_steps)
  unfolding start_steps
  any_step-start_steps p = simp (any_step-append, any_step-when) refl

pub any_step-stop_steps :
    (env : HookEnv) (p : Action → Bool)
    → any_step p (stop_steps env)
      ≡ (should_be_disabled irq_load_balancing_annotation env.annotations
          && (p (balances_irqs true) || false))
        || ((should_be_disabled cpu_load_balancing_annotation env.annotations
              && any_step p (
                  if env.finds_managers
                  then act (balances false true) ∷ []
                  else refuse no_managers ∷ []))
            || ((is_some (should_be_configured cpu_c_states_annotation env.annotations)
                  && (p (sets_latency "") || false))
                || (is_some (should_be_configured cpu_freq_governor_annotation env.annotations)
                    && (p (sets_governor "") || false))))
unfolding stop_steps
any_step-stop_steps env p = simp (any_step-append, any_step-when) (ground arith)
