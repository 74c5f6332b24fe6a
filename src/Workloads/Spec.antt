-- ===== src/Workloads/Spec.antt =====
-- MutateSpecGivenAnnotations of pkg/config/workloads.go: which value each CPU setting gets.
use Prim.Native.String.{◌++◌ as str_append}
use cri_t.Prelude.{
  eqb, half_word, ◌*◌, ◌<◌, ◌⊎◌, Bool-cases, if◌then◌else◌, Option-cases, ◌==◌, nat_eq, string_eq,
  ok, ℕ, String, ◌≡◌, refl, inl, inr, not, Option, none, some, List, arith,
}
use cri_t.Prelude.Maps.{Map, lookup}
use cri_t.Workloads.{
  Resources, milli_cpu_to_quota, or_default, with_defaults, apply_limit, WorkloadConfig, LinuxCpu,
  mutate_spec, workload_given_activation_annotation, resources_from_annotation,
  mutate_spec_given_annotations,
}
use cri_t.Workloads.Quota.{milli_cpu_to_quota-ge, period_of, IsQuota, milli_cpu_to_quota-IsQuota}

-- The first value that is not 0: the annotation's, the workload's default, the specification's own.
abbrev pub first_set : ℕ → ℕ → Option ℕ → Option ℕ
first_set given default own =
    if not (eqb given 0) then some given else if not (eqb default 0) then some default else own

abbrev pub annotation_key : WorkloadConfig → String → String
annotation_key wc ctr_name = str_append wc.annotation_prefix (str_append "/" ctr_name)

-- The limit in thousandths of a CPU and the period of one CPU, the annotation's or the default's.
abbrev pub limit_of : Resources → Resources → ℕ
limit_of r d = or_default r.cpu_limit d.cpu_limit

abbrev pub override_period : Resources → Resources → ℕ
override_period r d = period_of (or_default r.cpu_period d.cpu_period)

-- What the settings are to be.
pub record IsOverride (r d : Resources) (spec spec' : LinuxCpu) : Type 0 where
  pub cpus_set : spec'.cpus ≡ (
      if not (r.cpu_set == "")
      then some r.cpu_set
      else if not (d.cpu_set == "")
      then some d.cpu_set
      else spec.cpus)
  pub shares_set : spec'.shares ≡ first_set r.cpu_shares d.cpu_shares spec.shares
  pub period_set : spec'.period ≡ first_set r.cpu_period d.cpu_period spec.period
  pub quota_set :
      (limit_of r d ≡ 0) × (spec'.quota ≡ first_set r.cpu_quota d.cpu_quota spec.quota)
      ⊎ (0 < limit_of r d)
        × ((quota : ℕ) × (spec'.quota ≡ some quota)
            × IsQuota (limit_of r d) (override_period r d) quota)

mutate_spec-IsOverride :
    (r d : Resources) (spec : LinuxCpu)
    → limit_of r d * override_period r d < half_word
    → IsOverride r d spec (mutate_spec (some (apply_limit (with_defaults r d))) spec)
unfolding mutate_spec apply_limit with_defaults
mutate_spec-IsOverride r d spec fits = record {
  cpus_set = ground arith;
  shares_set = ground arith;
  period_set = ground arith;
  quota_set = elim (Bool-cases (eqb (limit_of r d) 0)) [
    | inl unlimited ↦ inl (ground arith, ground arith)
    | inr limited ↦ inr (
      ground arith,
      (
        milli_cpu_to_quota (limit_of r d) (or_default r.cpu_period d.cpu_period),
        ground (arith, milli_cpu_to_quota-ge (limit_of r d) (or_default r.cpu_period d.cpu_period)),
        milli_cpu_to_quota-IsQuota (limit_of r d) (or_default r.cpu_period d.cpu_period)
            (ground arith) fits,
      ),
    )
  ];
}

-- For a pod that activates a workload with default resources, whose annotation for the container
-- decodes to an object: the change succeeds; each of the settings gets the annotation's value, or
-- where that is 0 or empty the workload's default, or where that is too the value it had; but a CPU
-- limit, of the annotation or else of the default, replaces the quota, also one of the annotation, by
-- the share of the period that it stands for, at least 1 ms. The limit is not negative, and its
-- product with the period fits an int64.
pub mutate_spec_given_annotations-IsOverride :
    (unmarshal : String → Option (Option Resources)) (w : List WorkloadConfig) (ctr_name : String)
    (spec : LinuxCpu) (annotations : Map String String) (wc : WorkloadConfig) (value : String)
    (r d : Resources)
    → workload_given_activation_annotation w annotations ≡ some wc
    → wc.resources ≡ some d
    → lookup (annotation_key wc ctr_name) annotations ≡ some value
    → unmarshal value ≡ some (some r)
    → limit_of r d * override_period r d < half_word
    → (spec' : LinuxCpu) × (mutate_spec_given_annotations unmarshal w ctr_name spec annotations
        ≡ some (ok spec'))
      × IsOverride r d spec spec'
unfolding mutate_spec_given_annotations resources_from_annotation
mutate_spec_given_annotations-IsOverride unmarshal w ctr_name spec annotations wc value r d active
      defaults found decoded fits =
    (
      mutate_spec (some (apply_limit (with_defaults r d))) spec,
      rw (active, mutate_spec_given_annotations) (rw (found, decoded, defaults) refl),
      mutate_spec-IsOverride r d spec fits,
    )

-- Where the change ends in a nil dereference, some workload has no default resources.
pub mutate_spec_given_annotations-panics :
    (unmarshal : String → Option (Option Resources)) (w : List WorkloadConfig) (ctr_name : String)
    (spec : LinuxCpu) (annotations : Map String String)
    → mutate_spec_given_annotations unmarshal w ctr_name spec annotations ≡ none
    → (wc : WorkloadConfig) × (value : String) × (r : Resources)
      × (workload_given_activation_annotation w annotations ≡ some wc)
      × (wc.resources ≡ none)
      × (lookup (annotation_key wc ctr_name) annotations ≡ some value)
      × (unmarshal value ≡ some (some r))
unfolding mutate_spec_given_annotations resources_from_annotation
mutate_spec_given_annotations-panics unmarshal w ctr_name spec annotations crash =
    elim (Option-cases (workload_given_activation_annotation w annotations)) [
      | inl idle ↦ absurd (ground arith)
      | inr (wc, active) ↦ elim (Option-cases (lookup (annotation_key wc ctr_name) annotations)) [
        | inl missing ↦ absurd (ground arith)
        | inr (value, found) ↦ elim (Option-cases (unmarshal value)) [
          | inl bad ↦ absurd (ground arith)
          | inr (none, null) ↦ absurd (ground arith)
          | inr (some r, decoded) ↦ elim (Option-cases wc.resources) [
            | inl nil ↦ (wc, value, r, active, nil, found, decoded)
            | inr (d, given) ↦ absurd (ground arith)
          ]
        ]
      ]
    ]
