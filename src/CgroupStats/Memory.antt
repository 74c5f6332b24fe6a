-- ===== src/CgroupStats/Memory.antt =====
-- internal/config/cgmgr/stats_linux.go: how the memory statistics add up.
use cri_t.Prelude.{
  if◌then◌else◌, string_eq, nat_eq, ℕ, ◌+◌, ◌≤◌, ◌<◌, ◌≡◌, refl, Bool, true, false, Option, none,
  some, arith,
}
use cri_t.Prelude.Maps.{lookup}
use cri_t.CgroupStats.{
  LibctrMemoryStats, max_uint64, is_memory_unlimited, working_set, available, cgroup_mem_stats,
}

working_set-le : (usage : ℕ) (inactive : Option ℕ) → working_set usage inactive ≤ usage
unfolding working_set
working_set-le usage none = omega arith
working_set-le usage (some v) = ground arith

available-add :
    (limit used : ℕ)
    → is_memory_unlimited limit ≡ false
    → used ≤ limit
    → available limit used + used ≡ limit
unfolding available
available-add limit used limited within = ground arith

available-wraps :
    (limit used : ℕ)
    → used ≤ max_uint64
    → limit < used
    → (available limit used + used ≡ limit + max_uint64 + 1) × (limit < available limit used)
unfolding available
available-wraps limit used small above = (ground arith, ground arith)

-- The working set of a cgroup is at most its usage. If the cgroup has a limit, its working set is
-- within it and, with version 2, the swap counter is not below the usage, then what is available and
-- the working set add up to the limit, and the swap is that counter, less the usage with version 2.
pub cgroup_mem_stats-adds_up :
    (v2 : Bool) (m : LibctrMemoryStats)
    → is_memory_unlimited m.limit ≡ false
    → (cgroup_mem_stats v2 m).working_set_bytes ≤ m.limit
    → (v2 ≡ true → m.usage ≤ m.swap_usage)
    → let s = cgroup_mem_stats v2 m in
      (s.working_set_bytes ≤ m.usage)
      × (s.available_bytes + s.working_set_bytes ≡ m.limit)
      × (s.swap_usage + (if v2 then m.usage else 0) ≡ m.swap_usage)
unfolding cgroup_mem_stats
cgroup_mem_stats-adds_up true m limited within swap =
    let inactive = lookup "inactive_file" m.stats in
    (
      working_set-le m.usage inactive,
      available-add m.limit (working_set m.usage inactive) limited within,
      ground (arith, swap refl),
    )
cgroup_mem_stats-adds_up false m limited within swap =
    let inactive = lookup "total_inactive_file" m.stats in
    (
      working_set-le m.usage inactive,
      available-add m.limit (working_set m.usage inactive) limited within,
      omega arith,
    )

-- If the usage of a cgroup is a uint64 and its working set is above its limit, what is available
-- wraps around: it is reported as above the limit, and it is 2^64 less the excess.
pub cgroup_mem_stats-wraps :
    (v2 : Bool) (m : LibctrMemoryStats)
    → m.usage ≤ max_uint64
    → m.limit < (cgroup_mem_stats v2 m).working_set_bytes
    → let s = cgroup_mem_stats v2 m in
      (s.available_bytes + s.working_set_bytes ≡ m.limit + max_uint64 + 1)
      × (m.limit < s.available_bytes)
unfolding cgroup_mem_stats
cgroup_mem_stats-wraps v2 m small above =
    let inactive = lookup (if v2 then "inactive_file" else "total_inactive_file") m.stats in
    available-wraps m.limit (working_set m.usage inactive)
      (omega (arith, working_set-le m.usage inactive, small)) above
