-- ===== src/LoadBalancing.antt =====
-- internal/runtimehandlerhooks/high_performance_hooks_linux.go: which CPUs the cgroups from the root
-- to a container own alone, when the load balancing of these CPUs is switched off and on again
-- (setCPULoadBalancingV2). A cgroup is its desired state and its files; the content of a file is a
-- set of CPUs, and whether a file can be read, parsed and written is an answer. `cpuset` of
-- Kubernetes is a parameter. An empty set that is given to libcontainer leaves the file as it is.
pub mod Changes
pub mod Nested
pub mod Switched
mod Examples
use cri_t.Prelude.{
  if◌then◌else◌, string_eq, nat_eq, ℕ, String, ◌≡◌, Bool, true, false, ◌&&◌, ◌||◌, not, Option,
  none, some, List, [], ◌∷◌, ◌++◌, map,
}

-- cpuset.CPUSet, with the laws of its documentation
pub record CpuSets (S : Type 0) : Type 0 where
  pub has : ℕ → S → Bool
  pub union : S → S → S
  pub difference : S → S → S
  pub equals : S → S → Bool
  pub is_empty : S → Bool
  pub union_has : (k : ℕ) (a b : S) → has k (union a b) ≡ has k a || has k b
  pub difference_has : (k : ℕ) (a b : S) → has k (difference a b) ≡ has k a && not (has k b)
  pub equals_has : (k : ℕ) (a b : S) → equals a b ≡ true → has k a ≡ has k b
  pub is_empty_has : (k : ℕ) (a : S) → is_empty a ≡ true → has k a ≡ false

pub data CpusetFile : Type 0 where
  cpuset_cpus cpuset_cpus_exclusive : CpusetFile

pub record Cgroup (S : Type 0) : Type 0 where
  pub path : String
  -- desiredManagerCPUSetState
  pub exclusive_cpus : S
  pub cpus : S
  -- the files
  pub allowed : S
  pub exclusive : S
  pub is_isolated : Bool

pub data CgroupError : Type 0 where
  unreadable unwritable no_managers : CgroupError

pub record FileAnswers : Type 0 where
  pub reads : String → CpusetFile → Bool
  pub writes : String → CpusetFile → Bool

abbrev pub Changed : Type 0 → Type 0
Changed S = Cgroup S × Option CgroupError

abbrev pub ChangedAll : Type 0 → Type 0
ChangedAll S = List (Cgroup S) × Option CgroupError

unfoldable pub reverse_onto {ℓ} : {A : Type ℓ} → List A → List A → List A
reverse_onto acc [] = acc
reverse_onto acc (x ∷ xs) = reverse_onto (x ∷ acc) xs

module _ {S : Type 0} (sets : CpuSets S) where
  abbrev content : CpusetFile → Cgroup S → S
  content cpuset_cpus g = g.allowed
  content cpuset_cpus_exclusive g = g.exclusive

  abbrev write_file : CpusetFile → S → Cgroup S → Cgroup S
  write_file cpuset_cpus s g = if sets.is_empty s then g else record g { allowed = s }
  write_file cpuset_cpus_exclusive s g = record g { exclusive = s }

  -- addOrRemoveCpusetFromManager
  unfoldable pub add_or_remove_cpuset_from_manager :
      FileAnswers → Bool → CpusetFile → S → Cgroup S → Changed S
  add_or_remove_cpuset_from_manager answers adds file s g =
      let current = content file g in
      let target = if adds then sets.union current s else sets.difference current s in
      if not (answers.reads g.path file)
      then (g, some unreadable)
      else if sets.equals target current
      then (g, none)
      else if not (answers.writes g.path file)
      then (g, some unwritable)
      else (write_file file target g, none)

  -- One round of the loop of addOrRemoveCpusetFromManagers, when CPUs are added and when they are
  -- removed.
  unfoldable pub add_cpus : FileAnswers → Cgroup S → Changed S
  unfolding add_or_remove_cpuset_from_manager
  add_cpus answers g =
      let (g', failure) = add_or_remove_cpuset_from_manager answers true cpuset_cpus g.cpus g in
      elim failure [
        | some e ↦ (g', some e)
        | none ↦
            add_or_remove_cpuset_from_manager answers true cpuset_cpus_exclusive g.exclusive_cpus g'
      ]

  unfoldable pub remove_cpus : FileAnswers → Cgroup S → Changed S
  unfolding add_or_remove_cpuset_from_manager
  remove_cpus answers g =
      let (g', failure) =
        add_or_remove_cpuset_from_manager answers false cpuset_cpus_exclusive g.exclusive_cpus g in
      elim failure [
        | some e ↦ (g', some e)
        | none ↦
            if sets.equals g.exclusive_cpus g.cpus
            then add_or_remove_cpuset_from_manager answers false cpuset_cpus g.cpus g'
            else (g', none)
      ]

  unfoldable pub change_each : (Cgroup S → Changed S) → List (Cgroup S) → ChangedAll S
  change_each change [] = ([], none)
  change_each change (g ∷ gs) =
      let rest = change_each change gs in
      let (g', failure) = change g in
      elim failure [ some e ↦ (g' ∷ gs, some e) | none ↦ (g' ∷ rest.0, rest.1) ]

  -- addOrRemoveCpusetFromManagers; the slice that the caller holds is reversed with it.
  unfoldable pub add_or_remove_cpuset_from_managers :
      FileAnswers → Bool → List (Cgroup S) → ChangedAll S
  unfolding change_each add_cpus remove_cpus reverse_onto
  add_or_remove_cpuset_from_managers answers adds gs =
      if adds
      then change_each (add_cpus answers) gs
      else change_each (remove_cpus answers) (reverse_onto [] gs)

  -- The last cgroup becomes a partition.
  unfoldable pub isolate_last : List (Cgroup S) → List (Cgroup S)
  isolate_last [] = []
  isolate_last (g ∷ []) = record g { is_isolated = true } ∷ []
  isolate_last (g ∷ h ∷ gs) = g ∷ isolate_last (h ∷ gs)

  -- setCPULoadBalancingV2 from the cgroups on; `later` answers the attempt to revert.
  unfoldable pub set_cpu_load_balancing :
      (answers later : FileAnswers) → Bool → Bool → List (Cgroup S) → ChangedAll S
  unfolding add_or_remove_cpuset_from_managers isolate_last
  set_cpu_load_balancing answers later isolates enables [] = ([], some no_managers)
  set_cpu_load_balancing answers later isolates enables (g ∷ gs) =
      let (changed, failure) = add_or_remove_cpuset_from_managers answers (not enables) (g ∷ gs) in
      elim failure [
        | some e ↦ ((add_or_remove_cpuset_from_managers later enables changed).0, some e)
        | none ↦
            if enables
            then (changed, none)
            else if isolates
            then (isolate_last changed, none)
            else ((add_or_remove_cpuset_from_managers later enables changed).0, some unwritable)
      ]

  -- The cgroups with their desired states, from top to bottom.
  abbrev desire : S → S → Cgroup S → Cgroup S
  desire exclusive cpus g = record g { exclusive_cpus = exclusive; cpus = cpus }

  pub desire_last : S → List (Cgroup S) → List (Cgroup S)
  desire_last exclusive [] = []
  desire_last exclusive (g ∷ []) = desire exclusive exclusive g ∷ []
  desire_last exclusive (g ∷ h ∷ gs) = g ∷ desire_last exclusive (h ∷ gs)

  -- `shared` are the shared CPUs where the container requests them.
  unfoldable pub desired_managers :
      (all exclusive : S)
      → Option S
      → (parents containers : List (Cgroup S)) → Option (List (Cgroup S))
  unfolding desire_last
  desired_managers all exclusive none parents containers =
      some (map (desire exclusive all) parents ++ map (desire exclusive exclusive) containers)
  desired_managers all exclusive (some shared) parents [] = none
  desired_managers all exclusive (some shared) parents (c ∷ cs) = some (
      map (desire exclusive all) parents
      ++ desire_last exclusive (map (desire exclusive (sets.union exclusive shared)) (c ∷ cs)))
