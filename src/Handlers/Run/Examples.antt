-- ===== src/Handlers/Run/Examples.antt =====
-- Tests of RunPodSandbox, and its theorems at a concrete index and state.
use cri_t.Prelude.{
  if◌then◌else◌, string_eq, nat_eq, ◌==◌, contains, ok, err, String, ◌≡◌, refl, Bool, true, false,
  Option, none, some, List, [], ◌∷◌, arith,
}
use cri_t.Prelude.Maps.{lookup, delete, insert}
use cri_t.Registrar.{reserve}
use cri_t.Server.{
  set_infra_container, add_infra_container, get_infra_container, remove_container,
  remove_infra_container, get_sandbox, add_sandbox, remove_sandbox,
}
use cri_t.Handlers.Exact.{exact}
use cri_t.Handlers.{World, create_failed, timed_out, undo, run_undos}
use cri_t.Handlers.Create.{pod_from_request}
use cri_t.Handlers.Remove.{
  remove_from_pod, stop_container, forget, delete_stopped, remove_container_in_pod,
}
use cri_t.Handlers.Remove.Pod.{
  RemovePodEnv, find_pod, remove_all, forget_pod, tear_down, remove_infra, remove_pod_sandbox,
  remove_pod_sandbox_request,
}
use cri_t.Handlers.Run.{
  undo_shm, RunEnv, mark_created, attach_infra, finish, start_infra, create_infra, prepare_infra,
  connect, index_pod, add_pod, index_infra, mount_shm, create_storage, reserve_infra, await_network,
  run_pod_sandbox,
}
use cri_t.Handlers.Run.Undone.{IsPodAbsent}
use cri_t.Handlers.Run.Rollback.{run_pod_sandbox-IsPodAbsent}
use cri_t.Handlers.Run.Started.{IsLaunched, IsFine}
use cri_t.Handlers.Run.Outcomes.{running_pod, IsPodKnown, run_pod_sandbox-IsPodKnown}
use cri_t.Handlers.Run.Late.{run_pod_sandbox-timed_out}
use cri_t.Handlers.Run.Unstarted.{run_pod_sandbox-leaves}
use cri_t.Handlers.Run.Undoing.{run_pod_sandbox-remove_pod_sandbox_request}

-- Nothing runs yet; the name k8s_POD_b is held by another container.
abbrev start : World (List String)
start = record {
  ctr_names = record { idx = ("x", "k8s_POD_b" ∷ []) ∷ []; names = ("k8s_POD_b", "x") ∷ [] };
  resources = record { resources = []; closed = false; next_watcher = 0; sends = []; created = [] };
  tables = record {
    containers = [];
    infra_containers = [];
    sandboxes = [];
    process_levels = [];
    released = [];
  };
  ctr_ids = [];
  pod_names = record { idx = []; names = [] };
  pod_ids = [];
  storage = [];
  runtime = [];
  running = [];
  created = [];
}

abbrev one_level : String → Option String
one_level label = if label == "l" then some "s0" else none

-- A request for the pod p1.
abbrev web : RunEnv
web = record {
  config_ok = true;
  id = "p1";
  name = "k8s_web";
  ctr_name = "k8s_POD_web";
  reserved_id = "r1";
  host_network = false;
  host_ipc = false;
  cni_ready = true;
  handler_ok = true;
  stores = true;
  process_label = "l";
  spec_ok = true;
  mounts_shm = true;
  labels_mount = true;
  settings_ok = true;
  makes_namespaces = true;
  starts_network = true;
  prepares = true;
  keeps_infra = true;
  makes_infra = true;
  makes_cgroup = false;
  launches = true;
  launch_leaves = false;
  hooks_found = true;
  pre_starts = true;
  starts = true;
  nri_runs = true;
  context_ended = false;
  undo_fails = λ u. false;
}

web-IsLaunched :
    (hooked ended : Bool) → IsLaunched (record web { pre_starts = hooked; context_ended = ended })
web-IsLaunched hooked ended = record {
  configured = refl;
  network_ready = refl;
  handled = refl;
  stored = refl;
  specified = refl;
  mounted = refl;
  labelled = refl;
  set_up = refl;
  isolated = refl;
  connected = refl;
  prepared = refl;
  launched = refl;
}

web-IsFine : IsFine web
web-IsFine = record { launching = web-IsLaunched true false; started = refl; announced = refl }

-- The default: the infra container is dropped.
abbrev dropped : RunEnv
dropped = record web { keeps_infra = false; makes_cgroup = true; launches = false; starts = false }

dropped_runs :
    let after = run_pod_sandbox exact one_level dropped start in
    (after.0 ≡ ok "p1") × (after.1.runtime ≡ [])
unfolding run_pod_sandbox await_network reserve_infra create_storage mount_shm index_infra add_pod
    index_pod connect prepare_infra create_infra start_infra finish reserve add_sandbox attach_infra
    mark_created add_infra_container set_infra_container lookup insert undo_shm
dropped_runs = (refl, refl)

-- NRI refuses the pod when its infra container runs already.
abbrev refused : RunEnv
refused = record web { nri_runs = false }

start-IsPodAbsent :
    (hooked announced : Bool)
    → IsPodAbsent exact (record web { pre_starts = hooked; nri_runs = announced }) none start
unfolding get_sandbox get_infra_container lookup
start-IsPodAbsent hooked announced = record {
  pod_free = refl;
  ctr_held = refl;
  unstored = refl;
  unindexed = refl;
  untabled = refl;
  pod_unindexed = refl;
  infra_untabled = refl;
  unstarted = refl;
}

refused_fails : (run_pod_sandbox exact one_level refused start).0 ≡ err create_failed
unfolding run_pod_sandbox await_network reserve_infra create_storage mount_shm index_infra add_pod
    index_pod connect prepare_infra create_infra start_infra reserve add_sandbox lookup
refused_fails = refl

run_pod_sandbox-IsPodAbsent_example :
    IsPodAbsent exact refused none (run_pod_sandbox exact one_level refused start).1
run_pod_sandbox-IsPodAbsent_example =
    run_pod_sandbox-IsPodAbsent exact one_level refused start create_failed "s0" none refl
      (λ u. refl) refl (λ e. absurd (ground (arith, e))) (start-IsPodAbsent true false)
      refused_fails

-- The name of the infra container is held by another one.
abbrev taken : RunEnv
taken = record web { ctr_name = "k8s_POD_b" }

taken_fails :
    let after = run_pod_sandbox exact one_level taken start in
    (after.0 ≡ err create_failed) × (lookup "k8s_POD_b" after.1.ctr_names.names ≡ some "x")
unfolding run_pod_sandbox await_network reserve_infra reserve run_undos undo lookup
taken_fails = (refl, refl)

run_pod_sandbox-IsPodKnown_example :
    let after = run_pod_sandbox exact one_level web start in
    (after.0 ≡ ok "p1")
    × IsPodKnown exact web after.1
    × (after.1.runtime ≡ "p1" ∷ [])
    × (after.1.running ≡ "p1" ∷ [])
unfolding lookup
run_pod_sandbox-IsPodKnown_example =
    run_pod_sandbox-IsPodKnown exact one_level web start ("p1" ∷ []) ("p1" ∷ []) "s0" web-IsFine
      refl refl refl refl refl refl

-- The context ends before the request does; the second request has other IDs.
abbrev late : RunEnv
late = record web { context_ended = true }

abbrev again : RunEnv
again = record web { id = "p2"; reserved_id = "r2" }

late-IsFine : IsFine late
late-IsFine = record { launching = web-IsLaunched true true; started = refl; announced = refl }

run_pod_sandbox-timed_out_example :
    let first = run_pod_sandbox exact one_level late start in
    let second = run_pod_sandbox exact one_level again first.1 in
    (first.0 ≡ err timed_out)
    × (second.0 ≡ ok "p1")
    × (get_sandbox "p1" second.1.tables ≡ some (running_pod true late))
unfolding lookup
run_pod_sandbox-timed_out_example =
    run_pod_sandbox-timed_out exact one_level late again start ("p1" ∷ []) ("p1" ∷ []) "s0"
      late-IsFine refl refl refl refl refl refl refl refl refl refl refl

-- A PreStart hook fails.
abbrev unhooked : RunEnv
unhooked = record web { pre_starts = false }

run_pod_sandbox-leaves_example :
    let after = run_pod_sandbox exact one_level unhooked start in
    (after.0 ≡ err create_failed)
    × IsPodAbsent exact unhooked none after.1
    × (contains after.1.runtime "p1" ≡ true)
run_pod_sandbox-leaves_example =
    run_pod_sandbox-leaves exact one_level unhooked start ("p1" ∷ []) ("p1" ∷ []) "s0" (λ u. refl)
      refl (web-IsLaunched false false) refl refl refl refl refl (start-IsPodAbsent false true)

-- Every answer of the removal is good.
abbrev fine_removal : RemovePodEnv
fine_removal = record {
  removing = λ id. record {
    stopping = record { hooks_found = true; pre_stops = true; stops = true; nri_stops = true };
    deletes = true;
    removes_exit_file = true;
    deletes_storage = true;
  };
  unmounts_shm = true;
  is_spoofed = false;
  removes_cgroup = true;
  stops_network = true;
  removes_namespaces = true;
}

web_removed :
    let after = (run_pod_sandbox exact one_level web start).1 in
    (exact.find "p1" after.pod_ids ≡ ok "p1")
    × ((remove_pod_sandbox_request exact one_level fine_removal "p1" after).1 ≡ none)
unfolding run_pod_sandbox await_network reserve_infra create_storage mount_shm index_infra add_pod
    index_pod connect prepare_infra create_infra start_infra finish reserve add_sandbox lookup
    remove_pod_sandbox_request find_pod pod_from_request get_sandbox mark_created attach_infra
    add_infra_container set_infra_container insert remove_pod_sandbox remove_all remove_infra
    remove_container_in_pod stop_container delete_stopped forget remove_container remove_from_pod
    delete remove_infra_container tear_down forget_pod remove_sandbox
web_removed = (refl, refl)

run_pod_sandbox-remove_pod_sandbox_request_example :
    let after = (run_pod_sandbox exact one_level web start).1 in
    IsPodAbsent exact web none
      (remove_pod_sandbox_request exact one_level fine_removal "p1" after).0
unfolding lookup
run_pod_sandbox-remove_pod_sandbox_request_example =
    run_pod_sandbox-remove_pod_sandbox_request exact one_level web fine_removal start ("p1" ∷ [])
      ("p1" ∷ []) "s0" refl web-IsFine refl refl refl refl refl refl web_removed.0 web_removed.1
