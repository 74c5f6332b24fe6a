-- ===== src/Handlers/Remove/Pod/TearDown.antt =====
-- server/sandbox_remove.go: the end of RemovePodSandbox, after the containers.
use cri_t.Prelude.{
  Bool-cases, Option-cases, string_eq, nat_eq, ==_refl, String, ◌≡◌, refl, ap, ◌∙◌, inl, inr, false,
  ◌&&◌, not, Option, none, some, arith,
}
use cri_t.Prelude.Maps.{lookup, lookup-delete}
use cri_t.Server.{Sandbox, Server, get_container, get_sandbox, remove_sandbox}
use cri_t.Handlers.Index.{IdIndex}
use cri_t.Handlers.{World}
use cri_t.Handlers.Create.Undone.{IsAbsent}
use cri_t.Handlers.Cleaner.{lookup-release}
use cri_t.Handlers.Remove.Pod.Monotone.{Has}
use cri_t.Handlers.Remove.Pod.{RemovePodEnv, forget_pod, tear_down}

module _ {I : Type 0} (index : IdIndex I) (level_of : String → Option String) where
  -- From the release of the pod's name on: only the tables of pods change.
  pub tear_down-none :
      (env : RemovePodEnv) (sb : Sandbox) (w : World I)
      → (tear_down index level_of env sb w).1 ≡ none
      → tear_down index level_of env sb w ≡ forget_pod index level_of sb w
  unfolding tear_down
  tear_down-none env sb w = elim (Bool-cases (env.is_spoofed && not env.removes_cgroup)) [
    | inl bad ↦ rw (bad, tear_down) (λ good. absurd (ground (arith, good)))
    | inr fine ↦ elim (Bool-cases (not env.stops_network)) [
      | inl bad ↦ rw (fine, bad, tear_down) (λ good. absurd (ground (arith, good)))
      | inr off ↦ elim (Bool-cases (not env.removes_namespaces)) [
        | inl bad ↦ rw (fine, off, bad, tear_down) (λ good. absurd (ground (arith, good)))
        | inr gone ↦ rw (fine, off, gone, tear_down) (λ good. refl)
      ]
    ]
  ]

  containers-remove_sandbox :
      (id : String) (s : Server) → (remove_sandbox level_of id s).0.containers ≡ s.containers
  unfolding remove_sandbox
  containers-remove_sandbox id s = ground arith

  -- The pod is out of its index, its name is free, and the table does not have it.
  pub record IsGone (sb : Sandbox) (w : World I) : Type 0 where
    pub unindexed : index.holds sb.id w.pod_ids ≡ false
    pub free : lookup sb.name w.pod_names.names ≡ none
    pub untabled : get_sandbox sb.id w.tables ≡ none

  sandboxes-remove_sandbox :
      (id label level : String) (s : Server)
      → level_of label ≡ some level
      → Has label id s
      → get_sandbox id (remove_sandbox level_of id s).0 ≡ none
  unfolding remove_sandbox get_sandbox
  sandboxes-remove_sandbox id label level s parses (sb, found, same) =
      let parsed : level_of sb.process_label ≡ some level = ap level_of same ∙ parses in
      rw (found, parsed, remove_sandbox)
        (ground (arith, lookup-delete id id s.sandboxes, ==_refl id))

  pub forget_pod-IsGone :
      (sb : Sandbox) (label level : String) (w : World I)
      → level_of label ≡ some level
      → Has label sb.id w.tables
      → (forget_pod index level_of sb w).1 ≡ none
      → IsGone sb (forget_pod index level_of sb w).0
  unfolding forget_pod
  forget_pod-IsGone sb label level w parses has =
      elim (Option-cases (index.remove sb.id w.pod_ids)) [
        | inl miss ↦ rw (miss, forget_pod) (λ bad. absurd (ground (arith, bad)))
        | inr (ids, hit) ↦
            rw (hit, forget_pod)
              (λ good. record {
                unindexed =
                    ground (arith, index.remove_holds sb.id sb.id w.pod_ids ids hit, ==_refl sb.id);
                free = ground (arith, lookup-release sb.name sb.name w.pod_names, ==_refl sb.name);
                untabled = sandboxes-remove_sandbox sb.id label level w.tables parses has;
              })
      ]

  pub forget_pod-IsAbsent :
      (sb : Sandbox) (id name : String) (w : World I)
      → IsAbsent index id name w
      → IsAbsent index id name (forget_pod index level_of sb w).0
  unfolding forget_pod get_container
  forget_pod-IsAbsent sb id name w a =
      let same = containers-remove_sandbox sb.id w.tables in
      elim (Option-cases (index.remove sb.id w.pod_ids)) [
        | inl miss ↦
            rw (miss, forget_pod)
              (record {
                free = a.free;
                untabled = rw same a.untabled;
                unindexed = a.unindexed;
                unstored = a.unstored;
                unlaunched = a.unlaunched;
              })
        | inr (ids, hit) ↦
            rw (hit, forget_pod)
              (record {
                free = a.free;
                untabled = rw same a.untabled;
                unindexed = a.unindexed;
                unstored = a.unstored;
                unlaunched = a.unlaunched;
              })
      ]
