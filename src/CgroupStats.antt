-- ===== src/CgroupStats.antt =====
-- internal/config/cgmgr/stats_linux.go: the memory statistics of a cgroup. The numbers are uint64,
-- so a difference wraps around. `MemoryStats` is what libcontainer read; its map of counters is an
-- association list, where a missing counter is 0.
pub mod Memory
mod Examples
use cri_t.Prelude.{
  ltb, leb, eqb, if◌then◌else◌, string_eq, nat_eq, ℕ, ◌+◌, ◌-◌, String, Bool, Option, none, some,
}
use cri_t.Prelude.Maps.{Map, lookup}

-- the fields of libcontainer's MemoryStats that are read
pub record LibctrMemoryStats : Type 0 where
  pub usage : ℕ
  pub max_usage : ℕ
  pub limit : ℕ
  pub failcnt : ℕ
  pub cache : ℕ
  pub swap_usage : ℕ
  pub swap_limit : ℕ
  pub kernel_usage : ℕ
  pub kernel_tcp_usage : ℕ
  pub use_hierarchy : Bool
  pub stats : Map String ℕ

pub record MemoryStats : Type 0 where
  pub usage : ℕ
  pub cache : ℕ
  pub limit : ℕ
  pub max_usage : ℕ
  pub working_set_bytes : ℕ
  pub rss_bytes : ℕ
  pub page_faults : ℕ
  pub major_page_faults : ℕ
  pub available_bytes : ℕ
  pub kernel_usage : ℕ
  pub kernel_tcp_usage : ℕ
  pub swap_usage : ℕ
  pub swap_limit : ℕ
  pub file_mapped : ℕ
  pub failcnt : ℕ

-- math.MaxUint64
abbrev pub max_uint64 : ℕ
max_uint64 = 18446744073709551615

-- a - b on uint64
abbrev pub minus : ℕ → ℕ → ℕ
minus a b = if leb b a then a - b else max_uint64 + 1 - (b - a)

abbrev pub is_memory_unlimited : ℕ → Bool
is_memory_unlimited v = eqb v max_uint64

abbrev pub stat : String → Map String ℕ → ℕ
stat name stats = elim (lookup name stats) [ none ↦ 0 | some v ↦ v ]

unfoldable pub working_set : ℕ → Option ℕ → ℕ
working_set usage none = usage
working_set usage (some v) = if ltb usage v then 0 else usage - v

unfoldable pub available : ℕ → ℕ → ℕ
available limit used = if is_memory_unlimited limit then 0 else minus limit used

-- `v2` is whether the node has cgroups of version 2
unfoldable pub cgroup_mem_stats : Bool → LibctrMemoryStats → MemoryStats
unfolding working_set available
cgroup_mem_stats v2 m =
    let inactive_file = if v2 then "inactive_file" else "total_inactive_file" in
    let used = working_set m.usage (lookup inactive_file m.stats) in
    record {
      usage = m.usage;
      cache = m.cache;
      limit = m.limit;
      max_usage = m.max_usage;
      working_set_bytes = used;
      rss_bytes = stat (if v2 then "anon" else "total_rss") m.stats;
      page_faults = if v2 then stat "pgfault" m.stats else 0;
      major_page_faults = if v2 then stat "pgmajfault" m.stats else 0;
      available_bytes = available m.limit used;
      kernel_usage = m.kernel_usage;
      kernel_tcp_usage = m.kernel_tcp_usage;
      swap_usage = if v2 then minus m.swap_usage m.usage else m.swap_usage;
      swap_limit = m.swap_limit;
      file_mapped =
          if v2
          then stat "file_mapped" m.stats
          else if m.use_hierarchy
          then stat "total_mapped_file" m.stats
          else stat "mapped_file" m.stats;
      failcnt = if v2 then 0 else m.failcnt;
    }

-- MemLimitGivenSystem; `none` is that Sysinfo failed
unfoldable pub mem_limit_given_system : Option ℕ → ℕ → ℕ
mem_limit_given_system none cgroup_limit = cgroup_limit
mem_limit_given_system (some physical) cgroup_limit =
    if ltb physical cgroup_limit then physical else cgroup_limit
