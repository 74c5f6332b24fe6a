-- ===== src/HighPerformance/Chosen.antt =====
-- internal/runtimehandlerhooks/runtime_handler_hooks_linux.go: a container whose annotations ask for
-- something has the high performance hooks.
use text.Mathlib.Text.{starts_with}
use text.Mathlib.TextPositions.{starts_with-append}
use Prim.Native.String.{◌++◌ as str_append}
use cri_t.Prelude.{
  Bool-cases, Option-cases, is_some, any, string_eq, nat_eq, ◌==◌, ==_iff, ℕ, String, ◌≡◌, refl, ap,
  ◌∙◌, ◌≢◌, inl, inr, Bool, true, ◌||◌, Option, some, List, [], ◌∷◌, arith,
}
use cri_t.Prelude.Maps.{lookup}
use cri_t.HighPerformance.Steps.{
  pre_start-done, any_step-c_states_steps, any_step-governor_steps, any_step-start_steps,
}
use cri_t.HighPerformance.{
  cpu_load_balancing_annotation, cpu_quota_annotation, irq_load_balancing_annotation,
  cpu_c_states_annotation, cpu_freq_governor_annotation, cpu_shared_annotation, Annotations,
  should_be_disabled, should_be_configured, shared_key, requested_shared_cpus, Action, HookEnv,
  pre_start, high_performance, feature_annotations, high_performance_annotations_specified,
  get_runtime_handler_hooks,
}

lookup-specified :
    (k v : String) (m : Annotations)
    → any (starts_with k) feature_annotations ≡ true
    → lookup k m ≡ some v
    → high_performance_annotations_specified m ≡ true
unfolding high_performance_annotations_specified lookup
lookup-specified k v [] feature there = absurd (ground (arith, there))
lookup-specified k v ((j, w) ∷ m) feature there = elim (Bool-cases (j == k)) [
  | inl same ↦
      let e : j ≡ k = (==_iff j k).0 same in
      ap (λ i. any (starts_with i) feature_annotations || high_performance_annotations_specified m)
        e
      ∙ ap (λ b. b || high_performance_annotations_specified m) feature
  | inr other ↦ ground (arith, lookup-specified k v m feature (ground (arith, there, other)))
]

should_be_disabled-specified :
    (k : String) (m : Annotations)
    → any (starts_with k) feature_annotations ≡ true
    → should_be_disabled k m ≡ true
    → high_performance_annotations_specified m ≡ true
unfolding should_be_disabled
should_be_disabled-specified k m feature asked = elim (Option-cases (lookup k m)) [
  | inl out ↦ absurd (ground (arith, asked, out))
  | inr (v, there) ↦ lookup-specified k v m feature there
]

should_be_configured-specified :
    (k : String) (m : Annotations)
    → any (starts_with k) feature_annotations ≡ true
    → is_some (should_be_configured k m) ≡ true
    → high_performance_annotations_specified m ≡ true
unfolding should_be_configured
should_be_configured-specified k m feature asked = elim (Option-cases (lookup k m)) [
  | inl out ↦ absurd (ground (arith, asked, out))
  | inr (v, there) ↦ lookup-specified k v m feature there
]

requested_shared_cpus-specified :
    (m : Annotations) (ctr_name : String)
    → requested_shared_cpus m ctr_name ≡ true
    → high_performance_annotations_specified m ≡ true
unfolding requested_shared_cpus
requested_shared_cpus-specified m ctr_name asked =
    let k = shared_key ctr_name in
    elim (Option-cases (lookup k m)) [
      | inl out ↦ absurd (ground (arith, asked, out))
      | inr (v, there) ↦
          lookup-specified k v m
            (ground (arith, starts_with-append cpu_shared_annotation (str_append "/" ctr_name)))
            there
    ]

any-not_empty : (l : List Action) → l ≢ [] → any (λ a. true) l ≡ true
any-not_empty [] full = absurd (full refl)
any-not_empty (a ∷ l) full = refl

-- If the hooks before the start of a container do anything for its annotations, then the daemon has
-- chosen these hooks for it, whatever its handler is called and the configuration allows.
pub get_runtime_handler_hooks-pre_start :
    (atoi : String → Option ℕ) (itoa : ℕ → String) (env : HookEnv) (allowed : List String)
    (handler : String)
    → (pre_start atoi itoa env).0 ≢ []
    → get_runtime_handler_hooks allowed handler env.annotations ≡ some high_performance
unfolding get_runtime_handler_hooks
get_runtime_handler_hooks-pre_start atoi itoa env allowed handler acts =
    let m = env.annotations in
    let every : Action → Bool = λ a. true in
    let (runs, found, steps) = pre_start-done atoi itoa env every (any-not_empty _ acts) in
    let specified : high_performance_annotations_specified m ≡ true = ground (
      arith,
      steps,
      any_step-start_steps atoi itoa env every,
      any_step-c_states_steps atoi itoa env every,
      any_step-governor_steps atoi itoa env every,
      requested_shared_cpus-specified m env.ctr_name,
      should_be_disabled-specified cpu_load_balancing_annotation m refl,
      should_be_disabled-specified cpu_quota_annotation m refl,
      should_be_disabled-specified irq_load_balancing_annotation m refl,
      should_be_configured-specified cpu_c_states_annotation m refl,
      should_be_configured-specified cpu_freq_governor_annotation m refl,
    ) in
    ground (arith, specified)
