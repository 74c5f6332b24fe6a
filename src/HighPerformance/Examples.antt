-- ===== src/HighPerformance/Examples.antt =====
-- Tests of the hooks and the quotas, and their theorems at concrete containers.
use cri_t.Prelude.{
  eqb, if◌then◌else◌, any, string_eq, nat_eq, ◌==◌, signed_ltb, ℕ, String, ◌≡◌, refl, ap, true,
  false, Option, none, some, [], ◌∷◌, arith,
}
use cri_t.Prelude.Maps.{lookup}
use cri_t.HighPerformance.{
  should_be_disabled, should_be_configured, requested_shared_cpus, should_run_hooks, failed,
  shares_cpus, injects_quota, balances, balances_irqs, sets_latency, HookEnv, run_steps,
  convert_annotation_to_latency, c_states_steps, start_steps, pre_start, stop_steps, pre_stop,
  high_performance, get_runtime_handler_hooks,
}
use cri_t.HighPerformance.Undone.{
  turns_irqs, turns_cpus, is_latency, is_governor, is_restored_latency, is_restored_governor,
  pre_stop-undoes,
}
use cri_t.HighPerformance.Chosen.{get_runtime_handler_hooks-pre_start}
use cri_t.HighPerformance.Quotas.{
  calculate_maximal_quota, CpuQuotas, QuotaAnswers, calculate_pod_quota,
  inject_quota_given_shared_cpus, HasQuotas, inject_quota_given_shared_cpus-HasQuotas,
}

-- It reads and prints a few numbers.
abbrev atoi : String → Option ℕ
atoi s = if s == "10" then some 10 else if s == "50000" then some 50000 else none

abbrev itoa : ℕ → String
itoa n = if eqb n 10 then "10" else "?"

-- The governor cannot be written.
abbrev tuned : HookEnv
tuned = record {
  cgroup_parent = "kubepods-pod1.slice";
  shares = 2048;
  ctr_name = "web";
  annotations =
      ("cpu-load-balancing.crio.io", "disable")
      ∷ ("irq-load-balancing.crio.io", "true")
      ∷ ("cpu-c-states.crio.io", "max_latency:10")
      ∷ ("cpu-freq-governor.crio.io", "performance")
      ∷ ("cpu-shared.crio.io/web", "enable")
      ∷ [];
  finds_managers = true;
  fails = λ a. is_governor a;
}

tuned_starts : pre_start atoi itoa tuned ≡ (
  shares_cpus ∷ injects_quota ∷ balances true false ∷ balances_irqs false ∷ sets_latency "10" ∷ [],
  some failed,
)
unfolding pre_start start_steps should_run_hooks requested_shared_cpus should_be_disabled
    should_be_configured c_states_steps convert_annotation_to_latency run_steps lookup signed_ltb
tuned_starts = refl

burstable_skips :
    pre_start atoi itoa (record tuned { cgroup_parent = "kubepods-burstable-pod1" }) ≡ ([], none)
unfolding pre_start should_run_hooks
burstable_skips = refl

tuned_stops : (pre_stop (record tuned { fails = λ a. false })).1 ≡ none
unfolding pre_stop stop_steps should_run_hooks should_be_disabled should_be_configured run_steps
    lookup
tuned_stops = refl

tuned_opposites :
    let start = (pre_start atoi itoa tuned).0 in
    let stop = (pre_stop (record tuned { fails = λ a. false })).0 in
    (any (turns_irqs false) start ≡ true → any (turns_irqs true) stop ≡ true)
    × (any (turns_cpus false) start ≡ true → any (turns_cpus true) stop ≡ true)
    × (any is_latency start ≡ true → any is_restored_latency stop ≡ true)
    × (any is_governor start ≡ true → any is_restored_governor stop ≡ true)
tuned_opposites = pre_stop-undoes atoi itoa tuned (λ a. false) tuned_stops

get_runtime_handler_hooks-pre_start_example :
    get_runtime_handler_hooks [] "runc" tuned.annotations ≡ some high_performance
get_runtime_handler_hooks-pre_start_example =
    get_runtime_handler_hooks-pre_start atoi itoa tuned [] "runc"
      (λ none_done. absurd (ground (arith, none_done, ap (λ r. r.0) tuned_starts)))

abbrev all_set : QuotaAnswers
all_set = record { sets_pod = true; has_manager = true; sets_ctr = true }

abbrev before : CpuQuotas
before = record { pod = 50000; ctr = 0 }

quotas_injected :
    inject_quota_given_shared_cpus atoi all_set 2 6 "50000" 100000 before
    ≡ (record { pod = 250000; ctr = 600000 }, none)
unfolding inject_quota_given_shared_cpus calculate_pod_quota calculate_maximal_quota
quotas_injected = refl

inject_quota_given_shared_cpus-HasQuotas_example :
    HasQuotas atoi 2 6 "50000" 100000
      (inject_quota_given_shared_cpus atoi all_set 2 6 "50000" 100000 before).0
inject_quota_given_shared_cpus-HasQuotas_example =
    inject_quota_given_shared_cpus-HasQuotas atoi all_set 2 6 "50000" 100000 before (omega arith)
      (omega arith) (omega arith) (ap (λ r. r.1) quotas_injected)
