-- ===== src/LinuxResources.antt =====
-- UpdateContainerLinuxResources of internal/lib/container_server.go and SetResources of
-- internal/oci/container.go: a change of a running container's resources, and what the status of the
-- container reports. int64 and uint64 are bit patterns below 2 ^ 64, so a conversion between them
-- changes nothing. `none` stands for a nil pointer.
pub mod Reports
mod Examples
use cri_t.Prelude.{if◌then◌else◌, string_eq, nat_eq, ◌==◌, ℕ, String, Option, none, some, List, []}
use cri_t.Prelude.Maps.{Map}

pub record Cpu : Type 0 where
  pub shares : Option ℕ
  pub quota : Option ℕ
  pub period : Option ℕ
  pub cpus : String
  pub mems : String

pub record Memory : Type 0 where
  pub limit : Option ℕ
  pub swap : Option ℕ

pub record LinuxResources : Type 0 where
  pub cpu : Option Cpu
  pub memory : Option Memory
  pub unified : Map String String
  pub hugepage_limits : List (String × ℕ)

-- spec.Linux, spec.Linux.Resources, and spec.Process with its OOMScoreAdj
pub record Spec : Type 0 where
  pub linux : Option (Option LinuxResources)
  pub process : Option (Option ℕ)

abbrev pub or_new {ℓ} : {A : Type ℓ} → A → Option A → A
or_new new none = new
or_new new (some a) = a

unfoldable pub new_cpu : Cpu
new_cpu = record { shares = none; quota = none; period = none; cpus = ""; mems = "" }

unfoldable pub new_memory : Memory
new_memory = record { limit = none; swap = none }

unfoldable pub new_resources : LinuxResources
new_resources = record { cpu = none; memory = none; unified = []; hugepage_limits = [] }

-- The resources of a specification, a new one where a pointer on the way is nil.
unfoldable pub spec_resources : Spec → LinuxResources
unfolding new_resources
spec_resources s = or_new new_resources (or_new none s.linux)

-- if given != nil { field = given }
abbrev pub set_given : Option ℕ → Option ℕ → Option ℕ
set_given none old = old
set_given (some n) old = some n

abbrev pub set_text : String → String → String
set_text given old = if given == "" then old else given

unfoldable pub update_cpu : Cpu → Cpu → Cpu
update_cpu given old = record {
  shares = set_given given.shares old.shares;
  quota = set_given given.quota old.quota;
  period = set_given given.period old.period;
  cpus = set_text given.cpus old.cpus;
  mems = set_text given.mems old.mems;
}

unfoldable pub update_memory : Memory → Memory → Memory
update_memory given old = record {
  limit = set_given given.limit old.limit;
  swap = set_given given.swap old.swap;
}

-- `none` is the nil dereference of resources.CPU or resources.Memory.
unfoldable pub update_linux_resources : LinuxResources → Spec → Option Spec
unfolding spec_resources new_cpu new_memory update_cpu update_memory
update_linux_resources r s = elim r.cpu [
  | none ↦ none
  | some cpu ↦ elim r.memory [
    | none ↦ none
    | some memory ↦
        let old = spec_resources s in
        some (record s {
          linux = some (
              some (record old {
                cpu = some (update_cpu cpu (or_new new_cpu old.cpu));
                memory = some (update_memory memory (or_new new_memory old.memory));
              }));
        })
  ]
]

-- types.ContainerResources
pub record Reported : Type 0 where
  pub cpu_period : ℕ
  pub cpu_quota : ℕ
  pub cpu_shares : ℕ
  pub cpuset_cpus : String
  pub cpuset_mems : String
  pub memory_limit : ℕ
  pub memory_swap_limit : ℕ
  pub oom_score_adj : ℕ
  pub reported_unified : Map String String
  pub reported_hugepages : List (String × ℕ)

report : LinuxResources → Option (Option ℕ) → Reported
unfolding new_cpu new_memory
report r process =
    let cpu = or_new new_cpu r.cpu in
    let memory = or_new new_memory r.memory in
    record {
      cpu_period = or_new 0 cpu.period;
      cpu_quota = or_new 0 cpu.quota;
      cpu_shares = or_new 0 cpu.shares;
      cpuset_cpus = cpu.cpus;
      cpuset_mems = cpu.mems;
      memory_limit = or_new 0 memory.limit;
      memory_swap_limit = or_new 0 memory.swap;
      oom_score_adj = or_new 0 (or_new none process);
      reported_unified = r.unified;
      reported_hugepages = r.hugepage_limits;
    }

-- What the container reports after SetResources; `old` is what it reported.
unfoldable pub set_resources : Spec → Option Reported → Option Reported
unfolding report
set_resources s old = elim (or_new none s.linux) [ none ↦ old | some r ↦ some (report r s.process) ]
