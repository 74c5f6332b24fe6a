-- ===== src/Workloads/Examples.antt =====
-- Runs of pkg/config/workloads.go, and the theorems at concrete inputs.
use mathlib.Core.Path.{◌≡◌, refl}
use cri_t.Prelude.{
  arith, if◌then◌else◌, string_eq, nat_eq, ◌==◌, ok, signed_ltb, ◌-◌, ◌^◌, String, ◌≡◌, refl,
  Option, none, some, List, [], ◌∷◌,
}
use cri_t.Prelude.Maps.{Map, lookup, delete, insert}
use cri_t.Workloads.{
  signed_div_1000, Resources, milli_cpu_to_quota, WorkloadConfig, LinuxCpu,
  workload_given_activation_annotation, mutate_spec_given_annotations,
}
use cri_t.Workloads.Annotations.{
  all_disallowed, mark_allowed, unmarked, generate_disallowed, remove_prefixed,
  filter_disallowed_annotations,
}
use cri_t.Workloads.Spec.{IsOverride, mutate_spec_given_annotations-IsOverride}

half_a_cpu : milli_cpu_to_quota 500 0 ≡ 50000
unfolding milli_cpu_to_quota signed_ltb signed_div_1000
half_a_cpu = refl

-- -5 thousandths of a CPU
negative_limit : milli_cpu_to_quota (2 ^ 64 - 5) 100000 ≡ 1000
unfolding milli_cpu_to_quota signed_ltb signed_div_1000
negative_limit = refl

abbrev defaults : Resources
defaults = record {
  cpu_shares = 0;
  cpu_quota = 0;
  cpu_period = 50000;
  cpu_set = "0-1";
  cpu_limit = 0;
}

abbrev given : Resources
given = record { cpu_shares = 512; cpu_quota = 0; cpu_period = 0; cpu_set = ""; cpu_limit = 200 }

abbrev management : WorkloadConfig
management = record {
  activation_annotation = "target.workload";
  annotation_prefix = "io.workload";
  resources = some defaults;
}

abbrev bare : WorkloadConfig
bare = record management { resources = none }

abbrev pod : Map String String
pod = ("target.workload", "") ∷ ("io.workload/web", "{...}") ∷ []

abbrev decode : String → Option (Option Resources)
decode text = if text == "{...}" then some (some given) else none

abbrev unset : LinuxCpu
unset = record { cpus = none; shares = some 1024; quota = none; period = none }

mutate_spec_given_annotations-IsOverride_example :
    (spec' : LinuxCpu) × (mutate_spec_given_annotations decode (management ∷ []) "web" unset pod
      ≡ some (ok spec'))
    × IsOverride given defaults unset spec'
unfolding workload_given_activation_annotation lookup
mutate_spec_given_annotations-IsOverride_example =
    mutate_spec_given_annotations-IsOverride decode (management ∷ []) "web" unset pod management
      "{...}" given defaults refl refl refl refl (omega arith)

abbrev known : List String
known = "run.oci." ∷ "bundle" ∷ []

abbrev asked : Map String String
asked = ("run.oci.handler", "krun") ∷ ("bundle", "/b") ∷ ("app", "web") ∷ []

filter_disallowed_annotations_runs :
    filter_disallowed_annotations known ("bundle" ∷ []) asked
    ≡ some (("bundle", "/b") ∷ ("app", "web") ∷ [])
unfolding filter_disallowed_annotations generate_disallowed all_disallowed mark_allowed unmarked
    remove_prefixed lookup insert delete
filter_disallowed_annotations_runs = refl

abbrev left_over : Map String String
left_over = ("bundle", "/b") ∷ ("app", "web") ∷ []
