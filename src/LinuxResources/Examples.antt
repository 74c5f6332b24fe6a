-- ===== src/LinuxResources/Examples.antt =====
-- A run of UpdateContainerLinuxResources and SetResources, and the theorem at a concrete input.
use cri_t.Prelude.{string_eq, nat_eq, none, some, []}
use cri_t.LinuxResources.{Cpu, Memory, LinuxResources, Spec, Reported}

abbrev more_shares : Cpu
more_shares = record { shares = some 512; quota = none; period = none; cpus = ""; mems = "" }

abbrev less_memory : Memory
less_memory = record { limit = some 1000; swap = none }

abbrev change : LinuxResources
change = record {
  cpu = some more_shares;
  memory = some less_memory;
  unified = [];
  hugepage_limits = [];
}

abbrev two_cpus : Cpu
two_cpus = record { shares = some 2048; quota = some 50000; period = none; cpus = "0-1"; mems = "" }

abbrev spec : Spec
spec = record {
  linux = some (some (record change { cpu = some two_cpus; memory = none }));
  process = some (some 7);
}

abbrev earlier : Reported
earlier = record {
  cpu_period = 0;
  cpu_quota = 50000;
  cpu_shares = 2048;
  cpuset_cpus = "0-1";
  cpuset_mems = "";
  memory_limit = 0;
  memory_swap_limit = 0;
  oom_score_adj = 7;
  reported_unified = [];
  reported_hugepages = [];
}
