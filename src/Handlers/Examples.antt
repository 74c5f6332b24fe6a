-- ===== src/Handlers/Examples.antt =====
-- Tests of the handlers, and the theorems at a concrete index and state.
use mathlib.Core.Path.{◌≡◌, refl}
use cri_t.Prelude.{
  if◌then◌else◌, All, string_eq, nat_eq, ◌==◌, ==_iff, ok, err, String, ◌≡◌, refl, true, false,
  Option, none, some, List, [], ◌∷◌, arith,
}
use cri_t.Prelude.Maps.{lookup, delete, insert}
use cri_t.Registrar.{reserve}
use cri_t.Server.{
  Ctr, Sandbox, get_container, remove_container, remove_infra_container, get_sandbox,
}
use cri_t.Handlers.Exact.{exact}
use cri_t.Handlers.{
  Undo, World, HandlerError, create_failed, timed_out, storage_failed, network_failed,
  is_ctr_created, container_from_short_id, run_undos,
}
use cri_t.Handlers.Create.{
  CreateEnv, pod_from_request, launch, register, build, create_in, create_container,
}
use cri_t.Handlers.Create.Rollback.{IsKeyed, create_container-IsAbsent}
use cri_t.Handlers.Create.Undone.{IsAbsent}
use cri_t.ResourceStore.{Resource}
use cri_t.Handlers.Create.Swept.{create_in-swept}
use cri_t.Handlers.Create.Retry.{create_in-timed_out}
use cri_t.Handlers.Remove.{
  RemoveEnv, remove_from_pod, stop_container, forget, delete_stopped, remove_container_in_pod,
  remove_container_request,
}
use cri_t.Handlers.Remove.Effect.{Kept}
use cri_t.Handlers.Remove.Requests.{remove_container_request-again}
use cri_t.Handlers.Remove.Pod.{
  RemovePodEnv, remove_all, forget_pod, tear_down, remove_infra, remove_pod_sandbox,
}
use cri_t.Handlers.Remove.Pod.Stuck.{tries, remove_pod_sandbox-again}
use cri_t.Handlers.Remove.Pod.Gone.{remove_pod_sandbox-Removed}
use cri_t.Handlers.Remove.Pod.TearDown.{IsGone}

abbrev infra : Ctr
infra = record { id = "p1"; name = "POD"; sandbox_id = "p1" }

abbrev pod : Sandbox
pod = record {
  id = "p1";
  name = "pod";
  process_label = "l";
  containers = [];
  infra_container = some infra;
  is_created = true;
  is_stopped = false;
}

-- A pod and its infra container.
abbrev start : World (List String)
start = record {
  ctr_names = record { idx = ("p1", "POD" ∷ []) ∷ []; names = ("POD", "p1") ∷ [] };
  resources = record { resources = []; closed = false; next_watcher = 0; sends = []; created = [] };
  tables = record {
    containers = [];
    infra_containers = ("p1", infra) ∷ [];
    sandboxes = ("p1", pod) ∷ [];
    process_levels = ("s0", 1) ∷ [];
    released = [];
  };
  ctr_ids = "p1" ∷ [];
  pod_names = record { idx = ("p1", "pod" ∷ []) ∷ []; names = ("pod", "p1") ∷ [] };
  pod_ids = "p1" ∷ [];
  storage = "p1" ∷ [];
  runtime = "p1" ∷ [];
  running = "p1" ∷ [];
  created = "p1" ∷ [];
}

-- A request for the container web of the pod.
abbrev good : CreateEnv
good = record {
  request_ok = true;
  pod_request = "p1";
  config_ok = true;
  id = "c1";
  name = "web";
  builds = true;
  build_leaves = false;
  launches = true;
  launch_leaves = false;
  context_ended = false;
  undo_fails = λ u. false;
}

abbrev find : String → Option String
find request = if request == "p1" then some "p1" else none

-- The runtime refuses the container.
abbrev refused : CreateEnv
refused = record good { launches = false }

start-IsKeyed : IsKeyed start.tables
unfolding lookup
start-IsKeyed k sb found = ground (arith, found, ==_iff "p1" k)

start-IsAbsent : IsAbsent exact "c1" "web" start
unfolding get_container lookup
start-IsAbsent = record {
  free = refl;
  untabled = refl;
  unindexed = refl;
  unstored = refl;
  unlaunched = refl;
}

refused_fails : (create_container exact find refused start).0 ≡ err create_failed
unfolding create_container pod_from_request get_sandbox create_in build register launch reserve
    lookup
refused_fails = refl

create_container-IsAbsent_example :
    IsAbsent exact "c1" "web" (create_container exact find refused start).1
create_container-IsAbsent_example =
    create_container-IsAbsent exact find refused start create_failed (λ u. refl) refl refl refl
      start-IsKeyed start-IsAbsent refused_fails

-- The context of the request ends before the request does; the second request has another ID.
abbrev late : CreateEnv
late = record good { context_ended = true }

abbrev second : CreateEnv
second = record good { id = "c2" }

create_in-timed_out_example :
    let first = create_in exact pod late start in
    let next = create_in exact pod second first.1 in
    (first.0 ≡ err timed_out) × (next.0 ≡ ok "c1") × (is_ctr_created "c1" next.1 ≡ true)
create_in-timed_out_example =
    create_in-timed_out exact pod pod late second start ("p1" ∷ "c1" ∷ []) refl refl refl
      (unfold lookup in refl) (unfold lookup in refl) refl refl refl refl

abbrev web : Ctr
web = record { id = "c1"; name = "web"; sandbox_id = "p1" }

abbrev pod_with_web : Sandbox
pod_with_web = record pod { containers = ("web", web) ∷ [] }

-- The container web is there and runs.
abbrev serving : World (List String)
serving = record start {
  ctr_names = record {
    idx = ("c1", "web" ∷ []) ∷ ("p1", "POD" ∷ []) ∷ [];
    names = ("web", "c1") ∷ ("POD", "p1") ∷ [];
  };
  tables = record start.tables {
    containers = ("c1", web) ∷ [];
    sandboxes = ("p1", pod_with_web) ∷ [];
  };
  ctr_ids = "p1" ∷ "c1" ∷ [];
  storage = "p1" ∷ "c1" ∷ [];
  runtime = "p1" ∷ "c1" ∷ [];
  running = "p1" ∷ "c1" ∷ [];
  created = "p1" ∷ "c1" ∷ [];
}

abbrev removes : RemoveEnv
removes = record {
  stopping = record { hooks_found = true; pre_stops = true; stops = true; nri_stops = true };
  deletes = true;
  removes_exit_file = true;
  deletes_storage = true;
}

found_web : container_from_short_id exact "c1" serving ≡ ok web
unfolding container_from_short_id is_ctr_created get_container lookup
found_web = refl

removes_web : (remove_container_request exact removes "c1" serving).1 ≡ none
unfolding remove_container_request container_from_short_id is_ctr_created get_container get_sandbox
    remove_container_in_pod stop_container delete_stopped forget lookup
removes_web = refl

-- The storage is busy.
abbrev busy : RemoveEnv
busy = record removes { deletes_storage = false }

busy_fails : (remove_container_request exact busy "c1" serving).1 ≡ some storage_failed
unfolding remove_container_request container_from_short_id is_ctr_created get_container get_sandbox
    remove_container_in_pod stop_container delete_stopped forget lookup
busy_fails = refl

remove_container_request-again_example :
    let first = (remove_container_request exact busy "c1" serving).0 in
    let next = remove_container_request exact removes "c1" first in
    Kept serving first × (next.1 ≡ none) × IsAbsent exact "c1" "web" next.0
remove_container_request-again_example =
    remove_container_request-again exact busy removes "c1" web pod_with_web serving storage_failed
      (refl, refl, refl, refl, refl, refl, refl) found_web (unfold lookup in refl) refl busy_fails

abbrev removes_pod : RemovePodEnv
removes_pod = record {
  removing = λ id. removes;
  unmounts_shm = true;
  is_spoofed = false;
  removes_cgroup = true;
  stops_network = true;
  removes_namespaces = true;
}

abbrev level : String → Option String
level label = if label == "l" then some "s0" else none

pod_removed : (remove_pod_sandbox exact level removes_pod pod_with_web serving).1 ≡ none
unfolding remove_pod_sandbox remove_all remove_infra tear_down forget_pod get_sandbox
    remove_container_in_pod stop_container delete_stopped forget remove_container remove_from_pod
    remove_infra_container insert delete lookup
pod_removed = refl

remove_pod_sandbox-Removed_example :
    let after = (remove_pod_sandbox exact level removes_pod pod_with_web serving).0 in
    All (λ c. IsAbsent exact c.id c.name after) (web ∷ []) × IsGone exact level pod_with_web after
remove_pod_sandbox-Removed_example =
    remove_pod_sandbox-Removed exact level removes_pod pod_with_web pod_with_web "s0" serving refl
      (refl, tt) (unfold lookup in refl) pod_removed

-- The network of the pod cannot be torn down.
abbrev network_stays : RemovePodEnv
network_stays = record removes_pod { stops_network = false }

network_fails :
    (remove_pod_sandbox exact level network_stays pod_with_web serving).1 ≡ some network_failed
unfolding remove_pod_sandbox remove_all remove_infra tear_down forget_pod get_sandbox
    remove_container_in_pod stop_container delete_stopped forget remove_container remove_from_pod
    remove_infra_container insert delete lookup
network_fails = refl

-- The calls answer well from then on, and still the pod stays.
remove_pod_sandbox-again_example :
    let first = (remove_pod_sandbox exact level network_stays pod_with_web serving).0 in
    let later = tries exact level ((removes_pod, pod) ∷ []) first in
    (exact.holds "p1" later.ctr_ids ≡ false)
    × ((x : HandlerError) × ((remove_pod_sandbox exact level removes_pod pod later).1 ≡ some x))
remove_pod_sandbox-again_example =
    remove_pod_sandbox-again exact level network_stays removes_pod pod_with_web pod infra serving
      network_failed ((removes_pod, pod) ∷ []) refl refl (refl, tt) network_fails refl

create_in-swept_example :
    let after = (create_in exact pod late start).1 in
    (r : Resource (List Undo)) × (us : List Undo) × (lookup "web" after.resources.resources
      ≡ some r)
    × (r.cleaner ≡ some us)
    × IsAbsent exact "c1" "web" (run_undos exact (λ u. false) us after)
create_in-swept_example =
    create_in-swept exact pod pod late start ("p1" ∷ "c1" ∷ []) (λ u. false) refl refl refl
      (unfold lookup in refl) (unfold lookup in refl) refl (unfold lookup in refl) (λ u. refl)
