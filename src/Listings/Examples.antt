-- ===== src/Listings/Examples.antt =====
-- Requests of server/container_list.go and server/sandbox_list.go, and the theorems at concrete
-- inputs.
use mathlib.Core.Path.{◌≡◌, refl}
use cri_t.Prelude.{
  if◌then◌else◌, All, string_eq, nat_eq, ◌==◌, String, ◌≡◌, refl, Bool, true, false, Option, none,
  some, List, [], ◌∷◌,
}
use cri_t.Container.{created, running, stopped, container_running, cri_status}
use cri_t.Listings.{
  Labels, Ctr, ContainerFilter, same_state, filter_container, filter_container_list,
  list_containers, Pod, PodFilter, is_ready, filter_sandbox, filter_sandbox_list, list_pod_sandbox,
}
use cri_t.Listings.Containers.{IsAskedFor, list_containers-IsAskedFor}

abbrev any_labels : Labels → Labels → Bool
any_labels selector labels = true

abbrev web : Ctr
web = record { id = "c1"; sandbox = "pod1"; is_created = true; status = running; labels = [] }

abbrev old : Ctr
old = record web { id = "c2"; status = stopped }

abbrev short : String → Option Ctr
short id = if id == "c1" then some web else none

abbrev no_pods : String → Option (List Ctr)
no_pods id = none

abbrev everything : ContainerFilter
everything = record {
  id = "";
  pod_sandbox_id = "";
  state = some container_running;
  label_selector = none;
}

abbrev one : ContainerFilter
one = record everything { id = "c1"; pod_sandbox_id = "pod" }

list_containers_runs :
    list_containers any_labels short no_pods (some everything) (web ∷ old ∷ []) ≡ web ∷ []
unfolding list_containers filter_container filter_container_list same_state cri_status
list_containers_runs = refl

list_containers-IsAskedFor_example :
    All
      (IsAskedFor any_labels short no_pods everything)
      (list_containers any_labels short no_pods (some everything) (web ∷ old ∷ []))
list_containers-IsAskedFor_example =
    list_containers-IsAskedFor any_labels short no_pods everything (web ∷ old ∷ [])

abbrev ready_pod : Pod
ready_pod = record {
  id = "pod1";
  labels = [];
  is_created = true;
  is_stopped = false;
  infra = some (true, created);
}

abbrev stopped_pod : Pod
stopped_pod = record ready_pod { id = "pod2"; is_stopped = true }

abbrev ready_ones : PodFilter
ready_ones = record { id = ""; ready = some true; label_selector = none }

list_pod_sandbox_runs :
    list_pod_sandbox any_labels (λ id. none) (some ready_ones) (stopped_pod ∷ ready_pod ∷ [])
    ≡ ready_pod ∷ []
unfolding list_pod_sandbox filter_sandbox_list filter_sandbox is_ready
list_pod_sandbox_runs = refl
