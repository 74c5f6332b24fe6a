-- ===== src/HighPerformance.antt =====
-- internal/runtimehandlerhooks: which hooks a container has (runtime_handler_hooks_linux.go), what the
-- high performance hooks do before a start and before a stop, and the quotas of shared CPUs
-- (high_performance_hooks_linux.go). What an action does is in LoadBalancing, Irq and CpuSettings;
-- whether it fails is an argument. Integers are bit patterns below 2 ^ 64; `strconv.Atoi` and `Itoa`
-- are parameters.
pub mod Steps
pub mod Undone
pub mod Chosen
pub mod Quotas
mod Examples
use Prim.Native.String.{◌++◌ as str_append, len, slice}
use text.Mathlib.Text.{starts_with, find?}
use cri_t.Prelude.{
  eqb, if◌then◌else◌, is_some, any, string_eq, nat_eq, ◌==◌, Result, ok, err, signed_ltb, ℕ, ◌%◌,
  String, Bool, true, false, ◌&&◌, ◌||◌, not, Option, none, some, List, [], ◌∷◌, ◌++◌,
}
use cri_t.Prelude.Maps.{Map, lookup}

-- strings.Contains
abbrev contains_text : String → String → Bool
contains_text s part = is_some (find? s part)

abbrev pub cpu_load_balancing_annotation : String
cpu_load_balancing_annotation = "cpu-load-balancing.crio.io"

abbrev pub cpu_quota_annotation : String
cpu_quota_annotation = "cpu-quota.crio.io"

abbrev pub irq_load_balancing_annotation : String
irq_load_balancing_annotation = "irq-load-balancing.crio.io"

abbrev pub cpu_c_states_annotation : String
cpu_c_states_annotation = "cpu-c-states.crio.io"

abbrev pub cpu_freq_governor_annotation : String
cpu_freq_governor_annotation = "cpu-freq-governor.crio.io"

abbrev pub cpu_shared_annotation : String
cpu_shared_annotation = "cpu-shared.crio.io"

abbrev pub Annotations : Type 0
Annotations = Map String String

-- shouldCPULoadBalancingBeDisabled, shouldCPUQuotaBeDisabled and shouldIRQLoadBalancingBeDisabled
unfoldable pub should_be_disabled : String → Annotations → Bool
should_be_disabled annotation annotations = elim (lookup annotation annotations) [
  | none ↦ false
  | some v ↦ v == "true" || v == "disable"
]

-- shouldCStatesBeConfigured and shouldFreqGovernorBeConfigured
unfoldable pub should_be_configured : String → Annotations → Option String
should_be_configured annotation annotations = lookup annotation annotations

abbrev pub shared_key : String → String
shared_key ctr_name = str_append cpu_shared_annotation (str_append "/" ctr_name)

unfoldable pub requested_shared_cpus : Annotations → String → Bool
requested_shared_cpus annotations ctr_name = elim (lookup (shared_key ctr_name) annotations) [
  | none ↦ false
  | some v ↦ v == "enable"
]

-- shouldRunHooks, by the parent cgroup and the CPU shares
unfoldable pub should_run_hooks : String → ℕ → Bool
should_run_hooks cgroup_parent shares =
    not (contains_text cgroup_parent "burstable")
    && not (contains_text cgroup_parent "besteffort")
    && eqb (shares % 1024) 0

pub data HookError : Type 0 where
  bad_latency no_managers failed : HookError

pub data Action : Type 0 where
  -- setSharedCPUs, which adds a child cgroup to the managers, and the quota with all of them
  shares_cpus injects_quota : Action
  -- whether the child cgroup is among the managers
  drops_quota : Bool → Action
  -- the same, and whether load balancing of the CPUs is enabled
  balances : Bool → Bool → Action
  -- whether load balancing of the IRQs is enabled
  balances_irqs : Bool → Action
  -- "" restores
  sets_latency sets_governor : String → Action

pub data Step : Type 0 where
  act : Action → Step
  refuse : HookError → Step

pub record HookEnv : Type 0 where
  pub cgroup_parent : String
  pub shares : ℕ
  pub ctr_name : String
  pub annotations : Annotations
  -- whether libctrManagersForPodAndContainerCgroup finds the cgroups
  pub finds_managers : Bool
  pub fails : Action → Bool

abbrev pub Ran : Type 0
Ran = List Action × Option HookError

-- The actions that were done, up to the first error.
unfoldable pub run_steps : (Action → Bool) → List Step → Ran
run_steps fails [] = ([], none)
run_steps fails (refuse e ∷ ss) = ([], some e)
run_steps fails (act a ∷ ss) =
    let rest = run_steps fails ss in if fails a then ([], some failed) else (a ∷ rest.0, rest.1)

abbrev pub when : Bool → List Step → List Step
when true ss = ss
when false ss = []

module _ (atoi : String → Option ℕ) (itoa : ℕ → String) where
  abbrev latency_prefix : String
  latency_prefix = "max_latency:"

  unfoldable pub convert_annotation_to_latency : String → Result HookError String
  unfolding signed_ltb
  convert_annotation_to_latency annotation =
      if annotation == "enable"
      then ok "0"
      else if annotation == "disable"
      then ok "n/a"
      else if starts_with annotation latency_prefix
      then elim (atoi (slice annotation (len latency_prefix) (len annotation))) [
        | none ↦ err bad_latency
        | some latency ↦ if signed_ltb 0 latency then ok (itoa latency) else err bad_latency
      ]
      else err bad_latency

  unfoldable pub c_states_steps : Annotations → List Step
  unfolding convert_annotation_to_latency should_be_configured
  c_states_steps annotations = elim (should_be_configured cpu_c_states_annotation annotations) [
    | none ↦ []
    | some value ↦ elim (convert_annotation_to_latency value) [
      | err e ↦ refuse e ∷ []
      | ok latency ↦ if latency == "" then [] else act (sets_latency latency) ∷ []
    ]
  ]

  unfoldable pub start_steps : HookEnv → List Step
  unfolding requested_shared_cpus should_be_disabled should_be_configured c_states_steps
  start_steps env =
      let a = env.annotations in
      let child = requested_shared_cpus a env.ctr_name in
      when child (act shares_cpus ∷ act injects_quota ∷ [])
      ++ when (should_be_disabled cpu_load_balancing_annotation a) (act (balances child false) ∷ [])
      ++ when (should_be_disabled irq_load_balancing_annotation a) (act (balances_irqs false) ∷ [])
      ++ when (should_be_disabled cpu_quota_annotation a) (act (drops_quota child) ∷ [])
      ++ c_states_steps a
      ++ elim (should_be_configured cpu_freq_governor_annotation a) [
        | none ↦ []
        | some value ↦ act (sets_governor value) ∷ []
      ]

  unfoldable pub pre_start : HookEnv → Ran
  unfolding should_run_hooks start_steps run_steps
  pre_start env =
      if not (should_run_hooks env.cgroup_parent env.shares)
      then ([], none)
      else if not env.finds_managers
      then ([], some no_managers)
      else run_steps env.fails (start_steps env)

unfoldable pub stop_steps : HookEnv → List Step
unfolding should_be_disabled should_be_configured
stop_steps env =
    let a = env.annotations in
    when (should_be_disabled irq_load_balancing_annotation a) (act (balances_irqs true) ∷ [])
    ++ when (should_be_disabled cpu_load_balancing_annotation a)
        (if env.finds_managers then act (balances false true) ∷ [] else refuse no_managers ∷ [])
    ++ when (is_some (should_be_configured cpu_c_states_annotation a)) (act (sets_latency "") ∷ [])
    ++ when (is_some (should_be_configured cpu_freq_governor_annotation a))
        (act (sets_governor "") ∷ [])

unfoldable pub pre_stop : HookEnv → Ran
unfolding should_run_hooks stop_steps run_steps
pre_stop env =
    if not (should_run_hooks env.cgroup_parent env.shares)
    then ([], none)
    else run_steps env.fails (stop_steps env)

pub data Hooks : Type 0 where
  high_performance default_cpu_load_balance : Hooks

abbrev pub feature_annotations : List String
feature_annotations =
    cpu_load_balancing_annotation ∷ cpu_quota_annotation ∷ irq_load_balancing_annotation
    ∷ cpu_c_states_annotation ∷ cpu_freq_governor_annotation ∷ cpu_shared_annotation ∷ []

unfoldable pub high_performance_annotations_specified : Annotations → Bool
high_performance_annotations_specified [] = false
high_performance_annotations_specified ((k, v) ∷ m) =
    any (starts_with k) feature_annotations || high_performance_annotations_specified m

-- `allowed` are the allowed annotations of all runtimes and workloads.
unfoldable pub get_runtime_handler_hooks : List String → String → Annotations → Option Hooks
unfolding high_performance_annotations_specified
get_runtime_handler_hooks allowed handler annotations =
    if contains_text handler "high-performance"
    then some high_performance
    else if high_performance_annotations_specified annotations
    then some high_performance
    else if any (λ a. a == cpu_load_balancing_annotation) allowed
    then some default_cpu_load_balance
    else none
