-- ===== src/Handlers/Remove/Pod.antt =====
-- StopPodSandbox and RemovePodSandbox: server/sandbox_stop.go, server/sandbox_stop_linux.go and
-- server/sandbox_remove.go. The containers of a pod are stopped in parallel, and every stop runs
-- whatever the others do: here one after the other. What networkStop, the namespaces, the shared
-- memory, the cgroup and NRI answer are fields of an environment.
pub mod Unindexed
pub mod Monotone
pub mod Stuck
pub mod TearDown
pub mod Gone
use cri_t.Prelude.{
  if◌then◌else◌, is_some, string_eq, nat_eq, ok, err, String, Bool, true, false, ◌&&◌, ◌||◌, not,
  Option, none, some, List, [], ◌∷◌,
}
use cri_t.Prelude.Maps.{Map, insert}
use cri_t.Registrar.{release}
use cri_t.Server.{Ctr, Sandbox, remove_infra_container, remove_sandbox}
use cri_t.Handlers.Index.{IdIndex}
use cri_t.Handlers.{
  World, HandlerError, id_empty, not_yet_created, stop_failed, index_failed, shm_failed,
  cgroup_failed, network_failed, namespaces_failed, nil_dereference,
}
use cri_t.Handlers.Create.{pod_from_request}
use cri_t.Handlers.Remove.{StopEnv, RemoveEnv, Outcome, stop_container, remove_container_in_pod}

pub record StopPodEnv : Type 0 where
  pub stops_network : Bool
  -- of the container with the ID
  pub was_stopped : String → Bool
  pub stopping : String → StopEnv
  -- storage.ErrContainerUnknown
  pub infra_unknown : Bool
  pub removes_namespaces : Bool
  pub unmounts_shm : Bool
  pub nri_stops : Bool

pub record RemovePodEnv : Type 0 where
  pub removing : String → RemoveEnv
  pub unmounts_shm : Bool
  pub is_spoofed : Bool
  pub removes_cgroup : Bool
  pub stops_network : Bool
  pub removes_namespaces : Bool

abbrev pub ctrs_of : Map String Ctr → List Ctr
ctrs_of [] = []
ctrs_of ((name, c) ∷ m) = c ∷ ctrs_of m

module _ {I : Type 0} where
  -- The stops of the containers, and whether one of them failed.
  unfoldable pub stop_all : StopPodEnv → List Ctr → World I → World I × Bool
  stop_all env [] w = (w, false)
  stop_all env (c ∷ cs) w =
      let (stopped, failure) =
        if env.was_stopped c.id then (w, none) else stop_container (env.stopping c.id) c w in
      let (rest, failed) = stop_all env cs stopped in (rest, is_some failure || failed)

  -- From the stop of the infra container on.
  unfoldable pub stop_infra : StopPodEnv → Sandbox → World I → Outcome I
  stop_infra env sb w = elim sb.infra_container [
    | none ↦ (w, some nil_dereference)
    | some c ↦
        let (stopped, failure) = stop_container (env.stopping c.id) c w in
        if is_some failure && not env.infra_unknown
        then (stopped, some stop_failed)
        else if not env.removes_namespaces
        then (stopped, some namespaces_failed)
        else if not env.unmounts_shm
        then (stopped, some shm_failed)
        else if not env.nri_stops
        then (stopped, some stop_failed)
        else (
          record stopped {
            tables = record stopped.tables {
              sandboxes = insert sb.id (record sb { is_stopped = true }) stopped.tables.sandboxes;
            };
          },
          none,
        )
  ]

  unfoldable pub stop_pod_sandbox : StopPodEnv → Sandbox → World I → Outcome I
  unfolding stop_all stop_infra
  stop_pod_sandbox env sb w =
      if not env.stops_network
      then (w, some network_failed)
      else if sb.is_stopped
      then (w, none)
      else let (stopped, failed) = stop_all env (ctrs_of sb.containers) w in
        if failed then (stopped, some stop_failed) else stop_infra env sb stopped

module _ {I : Type 0} (index : IdIndex I) (level_of : String → Option String) where
  unfoldable pub find_pod : World I → String → Option String
  find_pod w request = elim (index.find request w.pod_ids) [ err e ↦ none | ok id ↦ some id ]

  -- A pod that is not found counts as stopped and as removed.
  abbrev is_reported : HandlerError → Bool
  is_reported id_empty = true
  is_reported not_yet_created = true
  is_reported _ = false

  unfoldable pub stop_pod_sandbox_request : StopPodEnv → String → World I → Outcome I
  unfolding stop_pod_sandbox find_pod
  stop_pod_sandbox_request env request w = elim (pod_from_request (find_pod w) request w.tables) [
    | err e ↦ (w, if is_reported e then some e else none)
    | ok sb ↦ stop_pod_sandbox env sb w
  ]

  unfoldable pub remove_all : RemovePodEnv → Sandbox → List Ctr → World I → Outcome I
  remove_all env sb [] w = (w, none)
  remove_all env sb (c ∷ cs) w =
      let (removed, failure) = remove_container_in_pod index (env.removing c.id) sb c w in
      elim failure [ some e ↦ (removed, some e) | none ↦ remove_all env sb cs removed ]

  -- From the release of the pod's name on; an error of removeSandbox is only logged.
  unfoldable pub forget_pod : Sandbox → World I → Outcome I
  forget_pod sb w =
      let w' = record w {
        pod_names = release sb.name w.pod_names;
        tables = (remove_sandbox level_of sb.id w.tables).0;
      } in
      elim (index.remove sb.id w.pod_ids) [
        | none ↦ (w', some index_failed)
        | some ids ↦ (record w' { pod_ids = ids }, none)
      ]

  -- After the infra container is removed.
  unfoldable pub tear_down : RemovePodEnv → Sandbox → World I → Outcome I
  unfolding forget_pod
  tear_down env sb w =
      if env.is_spoofed && not env.removes_cgroup
      then (w, some cgroup_failed)
      else if not env.stops_network
      then (w, some network_failed)
      else if not env.removes_namespaces
      then (w, some namespaces_failed)
      else forget_pod sb w

  unfoldable pub remove_infra : RemovePodEnv → Sandbox → World I → Outcome I
  unfolding tear_down
  remove_infra env sb w = elim sb.infra_container [
    | none ↦ (w, some nil_dereference)
    | some c ↦
        let (removed, failure) =
          remove_container_in_pod index (env.removing c.id) sb c
            (record w { tables = remove_infra_container c w.tables }) in
        elim failure [ some e ↦ (removed, some e) | none ↦ tear_down env sb removed ]
  ]

  unfoldable pub remove_pod_sandbox : RemovePodEnv → Sandbox → World I → Outcome I
  unfolding remove_all remove_infra
  remove_pod_sandbox env sb w =
      let (removed, failure) = remove_all env sb (ctrs_of sb.containers) w in
      elim failure [
        | some e ↦ (removed, some e)
        | none ↦
            if not env.unmounts_shm then (removed, some shm_failed) else remove_infra env sb removed
      ]

  unfoldable pub remove_pod_sandbox_request : RemovePodEnv → String → World I → Outcome I
  unfolding remove_pod_sandbox find_pod
  remove_pod_sandbox_request env request w = elim (pod_from_request (find_pod w) request w.tables) [
    | err e ↦ (w, if is_reported e then some e else none)
    | ok sb ↦ remove_pod_sandbox env sb w
  ]
