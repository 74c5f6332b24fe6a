-- ===== src/HighPerformance/Undone.antt =====
-- internal/runtimehandlerhooks: what the hooks before a stop do about what the hooks before the start
-- have done.
use cri_t.Prelude.{
  if◌then◌else◌, any, string_eq, nat_eq, ◌==◌, ℕ, String, ◌≡◌, ◌∙◌, Bool, true, false, not, Option,
  none, arith,
}
use cri_t.HighPerformance.{
  Action, balances, balances_irqs, sets_latency, sets_governor, HookEnv, start_steps, pre_start,
  stop_steps, pre_stop,
}
use cri_t.HighPerformance.Steps.{
  any_step, pre_start-done, pre_stop-all, any_step-c_states_steps, any_step-governor_steps,
  any_step-start_steps, any_step-stop_steps,
}

-- The actions that last beyond the cgroups of the container.
abbrev pub turns_irqs : Bool → Action → Bool
turns_irqs b (balances_irqs c) = if b then c else not c
turns_irqs b _ = false

abbrev pub turns_cpus : Bool → Action → Bool
turns_cpus b (balances child c) = if b then c else not c
turns_cpus b _ = false

abbrev pub is_latency : Action → Bool
is_latency (sets_latency v) = true
is_latency _ = false

abbrev pub is_governor : Action → Bool
is_governor (sets_governor v) = true
is_governor _ = false

abbrev pub is_restored_latency : Action → Bool
is_restored_latency (sets_latency v) = v == ""
is_restored_latency _ = false

abbrev pub is_restored_governor : Action → Bool
is_restored_governor (sets_governor v) = v == ""
is_restored_governor _ = false

-- Hooks before the stop of a container that come to their end call the opposite of what the hooks
-- before its start have called, whether those came to their end or not: load balancing of interrupts
-- and of CPUs is switched on if it was switched off, and the latency and the governor of the CPUs are
-- restored if they were set. The shares of the container are the same at both times. With shared CPUs
-- the cgroups are not the same: the child cgroup is among the managers only before the start.
pub pre_stop-undoes :
    (atoi : String → Option ℕ) (itoa : ℕ → String) (env : HookEnv) (later : Action → Bool)
    → (pre_stop (record env { fails = later })).1 ≡ none
    → let start = (pre_start atoi itoa env).0 in
      let stop = (pre_stop (record env { fails = later })).0 in
      (any (turns_irqs false) start ≡ true → any (turns_irqs true) stop ≡ true)
      × (any (turns_cpus false) start ≡ true → any (turns_cpus true) stop ≡ true)
      × (any is_latency start ≡ true → any is_restored_latency stop ≡ true)
      × (any is_governor start ≡ true → any is_restored_governor stop ≡ true)
pre_stop-undoes atoi itoa env later good =
    let env' : HookEnv = record env { fails = later } in
    let undoes : (p q : Action → Bool)
        → (env.finds_managers ≡ true
            → any_step p (start_steps atoi itoa env) ≡ true
            → any_step q (stop_steps env') ≡ true)
        → any p (pre_start atoi itoa env).0 ≡ true
        → any q (pre_stop env').0 ≡ true =
      λ p q steps h.
        let (runs, found, stands) = pre_start-done atoi itoa env p h in
        pre_stop-all env' q runs good ∙ steps found stands in
    (
      undoes (turns_irqs false) (turns_irqs true) (λ found h. ground (
        arith,
        h,
        found,
        any_step-start_steps atoi itoa env (turns_irqs false),
        any_step-stop_steps env' (turns_irqs true),
        any_step-c_states_steps atoi itoa env (turns_irqs false),
        any_step-governor_steps atoi itoa env (turns_irqs false),
      )),
      undoes (turns_cpus false) (turns_cpus true) (λ found h. ground (
        arith,
        h,
        found,
        any_step-start_steps atoi itoa env (turns_cpus false),
        any_step-stop_steps env' (turns_cpus true),
        any_step-c_states_steps atoi itoa env (turns_cpus false),
        any_step-governor_steps atoi itoa env (turns_cpus false),
      )),
      undoes is_latency is_restored_latency (λ found h. ground (
        arith,
        h,
        found,
        any_step-start_steps atoi itoa env is_latency,
        any_step-stop_steps env' is_restored_latency,
        any_step-c_states_steps atoi itoa env is_latency,
        any_step-governor_steps atoi itoa env is_latency,
      )),
      undoes is_governor is_restored_governor (λ found h. ground (
        arith,
        h,
        found,
        any_step-start_steps atoi itoa env is_governor,
        any_step-stop_steps env' is_restored_governor,
        any_step-c_states_steps atoi itoa env is_governor,
        any_step-governor_steps atoi itoa env is_governor,
      )),
    )
