-- ===== src/Listings.antt =====
-- server/container_list.go, server/sandbox_list.go and the state of a pod in
-- internal/lib/sandbox/sandbox.go: what a list request returns. The index of short IDs and the
-- matching of a label selector are parameters; a nil selector and a nil state are `none`.
pub mod Containers
pub mod Pods
mod Examples
use text.Mathlib.Text.{starts_with}
use cri_t.Prelude.{
  if◌then◌else◌, filter, string_eq, nat_eq, ◌==◌, String, Bool, true, false, ◌&&◌, not, Option,
  none, some, List, [], ◌∷◌,
}
use cri_t.Prelude.Maps.{Map}
use cri_t.Container.{
  Status, running, CriState, container_created, container_running, container_exited,
  container_unknown, cri_status,
}

abbrev pub Labels : Type 0
Labels = Map String String

-- What the handlers read of a container.
pub record Ctr : Type 0 where
  pub id : String
  pub sandbox : String
  pub is_created : Bool
  pub status : Status
  pub labels : Labels

pub record ContainerFilter : Type 0 where
  pub id : String
  pub pod_sandbox_id : String
  pub state : Option CriState
  pub label_selector : Option Labels

unfoldable pub same_state : CriState → CriState → Bool
same_state container_created container_created = true
same_state container_running container_running = true
same_state container_exited container_exited = true
same_state container_unknown container_unknown = true
same_state _ _ = false

-- `short_id` is GetContainerFromShortID, `pod_containers` getPodSandboxFromRequest and the list of
-- the pod's containers; `none` is an error.
module _ (matches : Labels → Labels → Bool) (short_id : String → Option Ctr)
    (pod_containers : String → Option (List Ctr)) where
  unfoldable pub filter_container : Option ContainerFilter → Ctr → Bool
  unfolding same_state cri_status
  filter_container none c = true
  filter_container (some f) c =
      elim f.state [ none ↦ true | some s ↦ same_state (cri_status c.status) s ]
      && elim f.label_selector [ none ↦ true | some sel ↦ matches sel c.labels ]

  unfoldable pub filter_container_list : ContainerFilter → List Ctr → List Ctr
  filter_container_list f orig =
      if not (f.id == "")
      then elim (short_id f.id) [
        | none ↦ []
        | some c ↦
            if f.pod_sandbox_id == ""
            then c ∷ []
            else if starts_with c.sandbox f.pod_sandbox_id
            then c ∷ []
            else []
      ]
      else if not (f.pod_sandbox_id == "")
      then elim (pod_containers f.pod_sandbox_id) [ none ↦ [] | some cs ↦ cs ]
      else orig

  unfoldable pub list_containers : Option ContainerFilter → List Ctr → List Ctr
  unfolding filter_container filter_container_list
  list_containers f orig =
      filter (λ c. c.is_created && filter_container f c)
        (elim f [ none ↦ orig | some g ↦ filter_container_list g orig ])

-- What the handlers read of a pod: of the infra container, whether it is spoofed, and its status.
pub record Pod : Type 0 where
  pub id : String
  pub labels : Labels
  pub is_created : Bool
  pub is_stopped : Bool
  pub infra : Option (Bool × Status)

pub record PodFilter : Type 0 where
  pub id : String
  -- whether the state asked for is ready
  pub ready : Option Bool
  pub label_selector : Option Labels

abbrev is_running : Status → Bool
is_running running = true
is_running _ = false

unfoldable pub is_ready : Pod → Bool
is_ready p = elim p.infra [
  | none ↦ false
  | some (spoofed, status) ↦ if spoofed then p.is_created && not p.is_stopped else is_running status
]

abbrev agrees : Bool → Bool → Bool
agrees true b = b
agrees false b = not b

-- `find` is the index of pod IDs and then the table of pods; `none` is an error or nil.
module _ (matches : Labels → Labels → Bool) (find : String → Option Pod) where
  unfoldable pub filter_sandbox : PodFilter → Pod → Bool
  unfolding is_ready
  filter_sandbox f p =
      elim f.ready [ none ↦ true | some r ↦ agrees (is_ready p) r ]
      && elim f.label_selector [ none ↦ true | some sel ↦ matches sel p.labels ]

  unfoldable pub filter_sandbox_list : Option PodFilter → List Pod → List Pod
  unfolding filter_sandbox
  filter_sandbox_list none pods = pods
  filter_sandbox_list (some f) pods =
      filter (λ p. p.is_created && filter_sandbox f p)
        (if f.id == "" then pods else elim (find f.id) [ none ↦ [] | some p ↦ p ∷ [] ])

  unfoldable pub list_pod_sandbox : Option PodFilter → List Pod → List Pod
  unfolding filter_sandbox_list
  list_pod_sandbox f pods =
      filter (λ p. p.is_created && elim f [ none ↦ true | some g ↦ filter_sandbox g p ])
        (filter_sandbox_list f pods)
