-- ===== src/Listings/Containers.antt =====
-- server/container_list.go: what ListContainers returns.
use text.Mathlib.Text.{starts_with}
use cri_t.Prelude.{
  Bool-cases, Option-cases, All, filter, string_eq, nat_eq, ◌==◌, ==_iff, String, ◌≡◌, refl, ◌≢◌,
  ◌⊎◌, inl, inr, Bool, true, false, ◌&&◌, Option, some, List, [], ◌∷◌, arith,
}
use cri_t.Container.{CriState, cri_status}
use cri_t.Listings.{
  Labels, Ctr, ContainerFilter, same_state, filter_container, filter_container_list,
  list_containers,
}

filter-All :
    (p : Ctr → Bool) (Q : Ctr → Type 0) (cs : List Ctr)
    → ((c : Ctr) → p c ≡ true → Q c)
    → All Q (filter p cs)
filter-All p Q [] law = tt
filter-All p Q (c ∷ cs) law = elim (Bool-cases (p c)) [
  | inl hit ↦ rw hit (law c hit, filter-All p Q cs law)
  | inr miss ↦ rw miss (filter-All p Q cs law)
]

same_state-eq : (a b : CriState) → same_state a b ≡ true → a ≡ b
unfolding same_state
same_state-eq a b h = ground arith

module _ (matches : Labels → Labels → Bool) (short_id : String → Option Ctr)
    (pod_containers : String → Option (List Ctr)) where
  -- What a request asks of a container.
  pub record IsAskedFor (f : ContainerFilter) (c : Ctr) : Type 0 where
    pub was_created : c.is_created ≡ true
    pub in_state : (s : CriState) → f.state ≡ some s → cri_status c.status ≡ s
    pub has_labels : (sel : Labels) → f.label_selector ≡ some sel → matches sel c.labels ≡ true

  -- Every container that is listed has been created, and has the state and the labels that the
  -- request asks for.
  pub list_containers-IsAskedFor :
      (f : ContainerFilter) (orig : List Ctr)
      → All (IsAskedFor f) (list_containers matches short_id pod_containers (some f) orig)
  unfolding list_containers filter_container
  list_containers-IsAskedFor f orig =
      filter-All _ (IsAskedFor f) (filter_container_list matches short_id pod_containers f orig)
        (λ c h. record {
          was_created = ground arith;
          in_state = λ s eq. same_state-eq (cri_status c.status) s (ground (arith, h, eq));
          has_labels = λ sel eq. ground arith;
        })

  abbrev pub InPod : ContainerFilter → Ctr → Type 0
  InPod f c = (f.pod_sandbox_id ≡ "") ⊎ (starts_with c.sandbox f.pod_sandbox_id ≡ true)

  filter_container_list-short_id :
      (f : ContainerFilter) (orig : List Ctr)
      → f.id ≢ ""
      → (filter_container_list matches short_id pod_containers f orig ≡ [])
        ⊎ ((c : Ctr) × (short_id f.id ≡ some c)
            × InPod f c
            × (filter_container_list matches short_id pod_containers f orig ≡ c ∷ []))
  unfolding filter_container_list
  filter_container_list-short_id f orig asks =
      let given : (f.id == "") ≡ false = ground (arith, asks, ==_iff f.id "") in
      elim (Option-cases (short_id f.id)) [
        | inl missing ↦ inl (rw (given, filter_container_list) (rw missing refl))
        | inr (c, found) ↦ elim (Bool-cases (f.pod_sandbox_id == "")) [
          | inl any_pod ↦ inr (
            c,
            found,
            inl ((==_iff f.pod_sandbox_id "").0 any_pod),
            rw (given, filter_container_list) (rw (found, any_pod) refl),
          )
          | inr one_pod ↦ elim (Bool-cases (starts_with c.sandbox f.pod_sandbox_id)) [
            | inl inside ↦ inr (
              c,
              found,
              inr inside,
              rw (given, filter_container_list) (rw (found, one_pod, inside) refl),
            )
            | inr outside ↦
                inl (rw (given, filter_container_list) (rw (found, one_pod, outside) refl))
          ]
        ]
      ]

  -- A request with the ID of a container lists at most the container that the index has for it, and
  -- with the ID of a pod as well only if the ID of the container's pod begins with it.
  pub list_containers-short_id :
      (f : ContainerFilter) (orig : List Ctr)
      → f.id ≢ ""
      → (list_containers matches short_id pod_containers (some f) orig ≡ [])
        ⊎ ((c : Ctr) × (short_id f.id ≡ some c)
            × InPod f c
            × (list_containers matches short_id pod_containers (some f) orig ≡ c ∷ []))
  unfolding list_containers
  list_containers-short_id f orig asks = elim (filter_container_list-short_id f orig asks) [
    | inl none_left ↦ inl (rw (none_left, list_containers) refl)
    | inr (c, found, inside, one) ↦
        elim (Bool-cases
          (c.is_created && filter_container matches short_id pod_containers (some f) c)) [
            | inl kept ↦ inr (c, found, inside, rw (one, list_containers) (rw kept refl))
            | inr dropped ↦ inl (rw (one, list_containers) (rw dropped refl))
          ]
  ]
