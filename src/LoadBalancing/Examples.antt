-- ===== src/LoadBalancing/Examples.antt =====
-- Tests of the switch of load balancing, and its theorems on sets of the CPUs 0 and 1.
use cri_t.Prelude.{
  if◌then◌else◌, string_eq, nat_eq, ◌==◌, ℕ, zero, suc, String, ◌≡◌, refl, Bool, true, false, ◌&&◌,
  ◌||◌, not, List, [], ◌∷◌, map, arith,
}
use cri_t.LoadBalancing.{
  CpuSets, Cgroup, FileAnswers, ChangedAll, reverse_onto, add_or_remove_cpuset_from_manager,
  add_cpus, remove_cpus, change_each, add_or_remove_cpuset_from_managers, isolate_last,
  set_cpu_load_balancing,
}
use cri_t.LoadBalancing.Nested.{StaysNested, set_cpu_load_balancing-StaysNested}
use cri_t.LoadBalancing.Switched.{Switches, set_cpu_load_balancing-Switches}

abbrev Pair : Type 0
Pair = Bool × Bool

abbrev same_bool : Bool → Bool → Bool
same_bool a b = if a then b else not b

abbrev has_cpu : ℕ → Pair → Bool
has_cpu zero s = s.0
has_cpu (suc zero) s = s.1
has_cpu (suc (suc k)) s = false

union_has : (k : ℕ) (a b : Pair) → has_cpu k (a.0 || b.0, a.1 || b.1) ≡ has_cpu k a || has_cpu k b
union_has zero a b = refl
union_has (suc zero) a b = refl
union_has (suc (suc k)) a b = refl

difference_has :
    (k : ℕ) (a b : Pair)
    → has_cpu k (a.0 && not b.0, a.1 && not b.1) ≡ has_cpu k a && not (has_cpu k b)
difference_has zero a b = refl
difference_has (suc zero) a b = refl
difference_has (suc (suc k)) a b = refl

equals_has :
    (k : ℕ) (a b : Pair) → same_bool a.0 b.0 && same_bool a.1 b.1 ≡ true → has_cpu k a ≡ has_cpu k b
equals_has zero (x, y) (z, w) h = ground arith
equals_has (suc zero) (x, y) (z, w) h = ground arith
equals_has (suc (suc k)) a b h = refl

is_empty_has : (k : ℕ) (a : Pair) → not (a.0 || a.1) ≡ true → has_cpu k a ≡ false
is_empty_has zero (x, y) h = ground arith
is_empty_has (suc zero) (x, y) h = ground arith
is_empty_has (suc (suc k)) a h = refl

abbrev two_cpus : CpuSets Pair
two_cpus = record {
  has = has_cpu;
  union = λ a b. (a.0 || b.0, a.1 || b.1);
  difference = λ a b. (a.0 && not b.0, a.1 && not b.1);
  equals = λ a b. same_bool a.0 b.0 && same_bool a.1 b.1;
  is_empty = λ a. not (a.0 || a.1);
  union_has = union_has;
  difference_has = difference_has;
  equals_has = equals_has;
  is_empty_has = is_empty_has;
}

abbrev cgroup : String → Pair → Cgroup Pair
cgroup path allowed = record {
  path = path;
  exclusive_cpus = (false, true);
  cpus = allowed;
  allowed = allowed;
  exclusive = (false, false);
  is_isolated = false;
}

-- The container in the last cgroup has the CPU 1.
abbrev chain : List (Cgroup Pair)
chain =
    cgroup "kubepods.slice" (true, true)
    ∷ cgroup "pod.slice" (true, true)
    ∷ cgroup "crio.scope" (false, true)
    ∷ []

abbrev works : FileAnswers
works = record { reads = λ p f. true; writes = λ p f. true }

-- The cgroup of the pod cannot be written.
abbrev stuck_pod : FileAnswers
stuck_pod = record { reads = λ p f. true; writes = λ p f. not (p == "pod.slice") }

abbrev stuck_top : FileAnswers
stuck_top = record { reads = λ p f. true; writes = λ p f. not (p == "kubepods.slice") }

set_cpu_load_balancing-StaysNested_example :
    StaysNested two_cpus (set_cpu_load_balancing two_cpus stuck_pod works true false chain)
set_cpu_load_balancing-StaysNested_example =
    set_cpu_load_balancing-StaysNested two_cpus stuck_pod works true (false, true) chain
      (refl, (refl, (refl, tt))) (λ k h. tt, (λ k h. h, (λ k h. h, tt)))

set_cpu_load_balancing-Switches_example :
    Switches two_cpus false
      (false, true)
      (set_cpu_load_balancing two_cpus works works true false chain)
set_cpu_load_balancing-Switches_example =
    set_cpu_load_balancing-Switches two_cpus works works true false (false, true) chain
      (refl, (refl, (refl, tt)))

abbrev owned : ChangedAll Pair → List Pair
owned r = map (λ g. g.exclusive) r.0

switched_off :
    owned (set_cpu_load_balancing two_cpus works works true false chain)
    ≡ (false, true) ∷ (false, true) ∷ (false, true) ∷ []
unfolding set_cpu_load_balancing add_or_remove_cpuset_from_managers change_each add_cpus
    add_or_remove_cpuset_from_manager isolate_last
switched_off = refl

-- The cgroups after load balancing was switched off.
abbrev owning : List (Cgroup Pair)
owning = map (λ (g : Cgroup Pair). record g { exclusive = (false, true) }) chain

-- Switching on fails at the top, and the revert, which goes from bottom to top like the switch, fails
-- at the pod: the container then owns a CPU that its pod does not own.
half_reverted :
    owned (set_cpu_load_balancing two_cpus stuck_top stuck_pod true true owning)
    ≡ (false, true) ∷ (false, false) ∷ (false, true) ∷ []
unfolding set_cpu_load_balancing add_or_remove_cpuset_from_managers change_each add_cpus remove_cpus
    add_or_remove_cpuset_from_manager reverse_onto
half_reverted = refl
