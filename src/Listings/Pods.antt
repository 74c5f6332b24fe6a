-- ===== src/Listings/Pods.antt =====
-- server/sandbox_list.go: what ListPodSandbox returns.
use cri_t.Prelude.{
  filter, string_eq, nat_eq, String, ◌≡◌, refl, Bool, ◌&&◌, Option, some, List, [], ◌∷◌, arith,
}
use cri_t.Listings.{Labels, Pod, PodFilter, filter_sandbox, filter_sandbox_list, list_pod_sandbox}

filter-filter : (p : Pod → Bool) (pods : List Pod) → filter p (filter p pods) ≡ filter p pods
filter-filter p [] = refl
filter-filter p (x ∷ pods) = ground (arith, filter-filter p pods)

module _ (matches : Labels → Labels → Bool) (find : String → Option Pod) where
  -- Without the ID of a pod, one pass over the pods does what the two passes of the handler do: the
  -- pods that are created and have the state and the labels asked for, in their order.
  pub list_pod_sandbox-filter :
      (f : PodFilter) (pods : List Pod)
      → f.id ≡ ""
      → list_pod_sandbox matches find (some f) pods
        ≡ filter (λ p. p.is_created && filter_sandbox matches find f p) pods
  unfolding list_pod_sandbox filter_sandbox_list
  list_pod_sandbox-filter f pods any_id =
      rw any_id (filter-filter (λ p. p.is_created && filter_sandbox matches find f p) pods)
