-- ===== src/LinuxResources/Reports.antt =====
-- What a container reports after an update of its resources.
use cri_t.Prelude.{
  Option-cases, string_eq, nat_eq, ℕ, ◌≡◌, refl, inl, inr, Option, none, some, arith,
}
use cri_t.LinuxResources.{
  Cpu, Memory, LinuxResources, Spec, or_new, new_cpu, new_memory, spec_resources, set_given,
  set_text, update_cpu, update_memory, update_linux_resources, Reported, report, set_resources,
}

-- A value that the update gives, or else the one that was reported.
abbrev pub changed : Option ℕ → ℕ → ℕ
changed none old = old
changed (some n) old = n

-- What is reported next, from the update and what was reported.
pub record IsUpdated (cpu : Cpu) (memory : Memory) (old new : Reported) : Type 0 where
  pub periods : new.cpu_period ≡ changed cpu.period old.cpu_period
  pub quotas : new.cpu_quota ≡ changed cpu.quota old.cpu_quota
  pub shares_kept : new.cpu_shares ≡ changed cpu.shares old.cpu_shares
  pub cpu_sets : new.cpuset_cpus ≡ set_text cpu.cpus old.cpuset_cpus
  pub mem_sets : new.cpuset_mems ≡ set_text cpu.mems old.cpuset_mems
  pub limits : new.memory_limit ≡ changed memory.limit old.memory_limit
  pub swaps : new.memory_swap_limit ≡ changed memory.swap old.memory_swap_limit
  pub scores : new.oom_score_adj ≡ old.oom_score_adj
  pub unified_kept : new.reported_unified ≡ old.reported_unified
  pub hugepages_kept : new.reported_hugepages ≡ old.reported_hugepages

changed-set_given :
    (given old : Option ℕ) → or_new 0 (set_given given old) ≡ changed given (or_new 0 old)
changed-set_given none old = refl
changed-set_given (some n) old = refl

-- The resources as the update leaves them.
updated : Cpu → Memory → LinuxResources → LinuxResources
updated cpu memory old = record old {
  cpu = some (update_cpu cpu (or_new new_cpu old.cpu));
  memory = some (update_memory memory (or_new new_memory old.memory));
}

report-IsUpdated :
    (cpu : Cpu) (memory : Memory) (r : LinuxResources) (process : Option (Option ℕ))
    → IsUpdated cpu memory (report r process) (report (updated cpu memory r) process)
unfolding report updated update_cpu update_memory
report-IsUpdated cpu memory r process = record {
  periods = changed-set_given cpu.period (or_new new_cpu r.cpu).period;
  quotas = changed-set_given cpu.quota (or_new new_cpu r.cpu).quota;
  shares_kept = changed-set_given cpu.shares (or_new new_cpu r.cpu).shares;
  cpu_sets = refl;
  mem_sets = refl;
  limits = changed-set_given memory.limit (or_new new_memory r.memory).limit;
  swaps = changed-set_given memory.swap (or_new new_memory r.memory).swap;
  scores = refl;
  unified_kept = refl;
  hugepages_kept = refl;
}

-- For a container that reports the resources of its specification: an update with a CPU and a
-- memory part succeeds, and SetResources on the updated specification reports every value that the
-- update gives and what was reported before for every other.
pub update_linux_resources-set_resources :
    (r : LinuxResources) (s : Spec) (cpu : Cpu) (memory : Memory) (old : Reported)
    → r.cpu ≡ some cpu
    → r.memory ≡ some memory
    → set_resources s none ≡ some old
    → (s' : Spec) × (new : Reported) × (update_linux_resources r s ≡ some s')
      × (set_resources s' (some old) ≡ some new)
      × IsUpdated cpu memory old new
unfolding update_linux_resources set_resources spec_resources updated
update_linux_resources-set_resources r s cpu memory old has_cpu has_memory reports =
    elim (Option-cases (or_new none s.linux)) [
      | inl nothing ↦ absurd (ground arith)
      | inr (before, found) ↦
          let same : report before s.process ≡ old = ground arith in
          (
            record s { linux = some (some (updated cpu memory before)) },
            report (updated cpu memory before) s.process,
            rw (has_cpu, update_linux_resources) (rw (has_memory, found) refl),
            refl,
            rw (← same) (report-IsUpdated cpu memory before s.process),
          )
    ]
