-- ===== src/Workloads.antt =====
-- pkg/config/workloads.go: what a workload does to the resources of a container's specification.
-- A map of workloads is a list, in the order in which `range` meets it. int64 and uint64 are their
-- bit patterns below 2 ^ 64. `json.Unmarshal` and `cpuset.Parse` are parameters, and the generator
-- of the specification is the record of the four settings that are written.
pub mod Quota
pub mod Spec
pub mod Annotations
mod Examples
use Prim.Native.String.{◌++◌ as str_append}
use cri_t.Prelude.{
  ltb, eqb, if◌then◌else◌, is_some, ◌==◌, nat_eq, string_eq, Result, ok, err, word, half_word,
  signed_ltb, ℕ, ◌-◌, ◌*◌, ◌/◌, ◌%◌, String, Bool, ◌&&◌, not, Option, none, some, List, [], ◌∷◌,
}
use cri_t.Prelude.Maps.{Map, lookup}

-- x / 1000 on int64, which rounds toward zero
unfoldable pub signed_div_1000 : ℕ → ℕ
signed_div_1000 x = if ltb x half_word then x / 1000 else (word - (word - x) / 1000) % word

pub record Resources : Type 0 where
  pub cpu_shares : ℕ
  pub cpu_quota : ℕ
  pub cpu_period : ℕ
  pub cpu_set : String
  pub cpu_limit : ℕ

abbrev pub default_quota_period : ℕ
default_quota_period = 100000

abbrev pub min_quota_period : ℕ
min_quota_period = 1000

unfoldable pub milli_cpu_to_quota : ℕ → ℕ → ℕ
unfolding signed_ltb signed_div_1000
milli_cpu_to_quota milli_cpu period =
    if eqb milli_cpu 0
    then 0
    else let p = if eqb period 0 then default_quota_period else period in
      let quota = signed_div_1000 ((milli_cpu * p) % word) in
      if signed_ltb quota min_quota_period then min_quota_period else quota

abbrev pub or_default : ℕ → ℕ → ℕ
or_default given default = if eqb given 0 then default else given

-- The annotation's values over the defaults, before the limit is converted.
with_defaults : Resources → Resources → Resources
with_defaults r d = record {
  cpu_set = if r.cpu_set == "" then d.cpu_set else r.cpu_set;
  cpu_shares = or_default r.cpu_shares d.cpu_shares;
  cpu_quota = or_default r.cpu_quota d.cpu_quota;
  cpu_period = or_default r.cpu_period d.cpu_period;
  cpu_limit = or_default r.cpu_limit d.cpu_limit;
}

apply_limit : Resources → Resources
unfolding milli_cpu_to_quota
apply_limit r =
    if eqb r.cpu_limit 0
    then r
    else record r { cpu_quota = milli_cpu_to_quota r.cpu_limit r.cpu_period }

pub data WorkloadError : Type 0 where
  bad_json : WorkloadError
  empty_activation bad_cpuset quota_below_shares period_below_minimum : WorkloadError

pub record WorkloadConfig : Type 0 where
  pub activation_annotation : String
  pub annotation_prefix : String
  pub resources : Option Resources

-- The settings of the specification: `none` where nothing is set.
pub record LinuxCpu : Type 0 where
  pub cpus : Option String
  pub shares : Option ℕ
  pub quota : Option ℕ
  pub period : Option ℕ

unfoldable pub mutate_spec : Option Resources → LinuxCpu → LinuxCpu
mutate_spec none spec = spec
mutate_spec (some r) spec = record {
  cpus = if r.cpu_set == "" then spec.cpus else some r.cpu_set;
  shares = if eqb r.cpu_shares 0 then spec.shares else some r.cpu_shares;
  quota = if eqb r.cpu_quota 0 then spec.quota else some r.cpu_quota;
  period = if eqb r.cpu_period 0 then spec.period else some r.cpu_period;
}

-- `wc.ActivationAnnotation == annotation` for some annotation of the pod
abbrev pub is_active : Map String String → WorkloadConfig → Bool
is_active annotations wc = is_some (lookup wc.activation_annotation annotations)

unfoldable pub workload_given_activation_annotation :
    List WorkloadConfig → Map String String → Option WorkloadConfig
workload_given_activation_annotation [] annotations = none
workload_given_activation_annotation (wc ∷ w) annotations =
    if is_active annotations wc then some wc else workload_given_activation_annotation w annotations

-- `null` decodes to nil.
module _ (unmarshal : String → Option (Option Resources)) where
  -- The outer `none` is the nil dereference of `defaultResources`.
  unfoldable pub resources_from_annotation :
      String
      → String
      → Map String String
      → Option Resources
      → Option (Result WorkloadError (Option Resources))
  unfolding with_defaults apply_limit
  resources_from_annotation prefix ctr_name annotations default_resources =
      elim (lookup (str_append prefix (str_append "/" ctr_name)) annotations) [
        | none ↦ some (ok default_resources)
        | some value ↦ elim (unmarshal value) [
          | none ↦ some (err bad_json)
          | some none ↦ some (ok none)
          | some (some r) ↦ elim default_resources [
            | none ↦ none
            | some d ↦ some (ok (some (apply_limit (with_defaults r d))))
          ]
        ]
      ]

  unfoldable pub mutate_spec_given_annotations :
      List WorkloadConfig
      → String
      → LinuxCpu
      → Map String String
      → Option (Result WorkloadError LinuxCpu)
  unfolding workload_given_activation_annotation resources_from_annotation mutate_spec
  mutate_spec_given_annotations w ctr_name spec annotations =
      elim (workload_given_activation_annotation w annotations) [
        | none ↦ some (ok spec)
        | some wc ↦
            elim (resources_from_annotation wc.annotation_prefix ctr_name annotations
              wc.resources) [
                | none ↦ none
                | some (err e) ↦ some (err e)
                | some (ok resources) ↦ some (ok (mutate_spec resources spec))
              ]
      ]

unfoldable pub validate_defaults : (String → Bool) → Option Resources → Option WorkloadError
unfolding signed_ltb
validate_defaults parses none = none
validate_defaults parses (some r) =
    if not (parses r.cpu_set)
    then some bad_cpuset
    else if not (eqb r.cpu_quota 0) && signed_ltb r.cpu_quota r.cpu_shares
    then some quota_below_shares
    else if not (eqb r.cpu_period 0) && ltb r.cpu_period min_quota_period
    then some period_below_minimum
    else none
