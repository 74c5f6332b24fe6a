-- ===== src/CgroupStats/Examples.antt =====
-- The theorems on the memory statistics at concrete numbers.
use cri_t.Prelude.{string_eq, nat_eq, ◌≡◌, refl, true, false, [], ◌∷◌}
use cri_t.Prelude.Maps.{lookup}
use cri_t.CgroupStats.{LibctrMemoryStats, working_set, available, cgroup_mem_stats}

abbrev read : LibctrMemoryStats
read = record {
  usage = 600;
  max_usage = 700;
  limit = 1000;
  failcnt = 2;
  cache = 50;
  swap_usage = 640;
  swap_limit = 2000;
  kernel_usage = 10;
  kernel_tcp_usage = 1;
  use_hierarchy = false;
  stats = ("anon", 300) ∷ ("inactive_file", 100) ∷ ("pgfault", 7) ∷ [];
}

-- The limit was lowered below the usage.
abbrev tight : LibctrMemoryStats
tight = record read { limit = 400 }

tight_available : (cgroup_mem_stats true tight).available_bytes ≡ 18446744073709551516
unfolding cgroup_mem_stats working_set available lookup
tight_available = refl
