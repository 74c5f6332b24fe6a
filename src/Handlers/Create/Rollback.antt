-- ===== src/Handlers/Create/Rollback.antt =====
-- server/container_create.go: what a CreateContainer that fails leaves.
use cri_t.Prelude.{
  Bool-cases, Option-cases, string_eq, nat_eq, ◌==◌, contains, ok, err, Result-cases, String, ◌≡◌,
  inl, inr, false, Option, none, some, List, arith,
}
use cri_t.Prelude.Maps.{lookup}
use cri_t.Registrar.{reserve}
use cri_t.Handlers.Index.{IdIndex}
use cri_t.Handlers.Cleaner.{undo_each, run_undos-undo_each}
use cri_t.Handlers.Create.{
  CreateEnv, Answer, pod_from_request, made_container, undo_name, undo_table, undo_id, launch,
  register, build, create_in, create_container,
}
use cri_t.Server.{Sandbox, Server, add_container, get_container, get_sandbox}
use cri_t.Handlers.{Undo, World, HandlerError, create_failed, run_undos}
use cri_t.Handlers.Create.Undone.{
  IsAbsent, undo_name-IsAbsent, undo_table-IsAbsent, undo_id-IsAbsent, lookup-add_container,
}

-- A request that fails cleans up, if no function of the cleaner fails for good.
module _ {I : Type 0} (index : IdIndex I) (sb : Sandbox) (env : CreateEnv)
    (undos_work : (u : Undo) → env.undo_fails u ≡ false) (unbuilt : env.build_leaves ≡ false)
    (unlaunched : env.launch_leaves ≡ false) where
  abbrev Clean : Answer I → Type 0
  Clean (ok id, w) = Unit
  Clean (err e, w) = IsAbsent index env.id env.name w

  fail-Clean :
      (us : List Undo) (w : World I)
      → IsAbsent index env.id env.name (undo_each index us w)
      → Clean (err create_failed, run_undos index env.undo_fails us w)
  fail-Clean us w h = rw (run_undos-undo_each index env.undo_fails undos_work us w) h

  launch-Clean :
      (w : World I) (now : Sandbox)
      → env.context_ended ≡ false
      → lookup sb.id w.tables.sandboxes ≡ some now
      → contains w.runtime env.id ≡ false
      → Clean (launch index sb env w)
  unfolding launch
  launch-Clean w now lasts found r = elim (Bool-cases env.launches) [
    | inl good ↦ rw (good, launch) (rw lasts tt)
    | inr bad ↦
        rw (bad, unlaunched, launch)
          (fail-Clean (undo_id sb env) w (undo_id-IsAbsent index sb env w now found r))
  ]

  register-Clean :
      (w : World I) (now : Sandbox)
      → env.context_ended ≡ false
      → lookup sb.id w.tables.sandboxes ≡ some now
      → index.holds env.id w.ctr_ids ≡ false
      → contains w.runtime env.id ≡ false
      → Clean (register index sb env w)
  unfolding register
  register-Clean w now lasts found i r =
      let c = made_container sb env in
      let (later, here) = lookup-add_container (made_container sb env) w.tables now found in
      elim (Option-cases (index.add env.id w.ctr_ids)) [
        | inl full ↦
            rw (full, register)
              (fail-Clean (undo_table sb env)
                (record w { tables = add_container (made_container sb env) w.tables })
                (undo_table-IsAbsent index sb env
                  (record w { tables = add_container (made_container sb env) w.tables }) later here
                  i r))
        | inr (ids, added) ↦ rw (added, register) (launch-Clean _ later lasts here r)
      ]

  build-Clean :
      (w : World I) (now : Sandbox)
      → env.context_ended ≡ false
      → lookup sb.id w.tables.sandboxes ≡ some now
      → get_container env.id w.tables ≡ none
      → index.holds env.id w.ctr_ids ≡ false
      → contains w.storage env.id ≡ false
      → contains w.runtime env.id ≡ false
      → Clean (build index sb env w)
  unfolding build
  build-Clean w now lasts found t i s r = elim (Bool-cases env.builds) [
    | inl good ↦ rw (good, build) (register-Clean _ now lasts found i r)
    | inr bad ↦
        rw (bad, unbuilt, build)
          (fail-Clean (undo_name env) w (undo_name-IsAbsent index sb env w t i s r))
  ]

  create_in-Clean :
      (w : World I) (now : Sandbox)
      → env.context_ended ≡ false
      → lookup sb.id w.tables.sandboxes ≡ some now
      → IsAbsent index env.id env.name w
      → Clean (create_in index sb env w)
  unfolding create_in reserve
  create_in-Clean w now lasts found a =
      rw (a.free, create_in)
        (build-Clean _ now lasts found a.untabled a.unindexed a.unstored a.unlaunched)

  Clean-IsAbsent :
      (r : Answer I) (e : HandlerError) → Clean r → r.0 ≡ err e → IsAbsent index env.id env.name r.1
  Clean-IsAbsent (ok id, w) e clean failed = absurd (ground (arith, failed))
  Clean-IsAbsent (err x, w) e clean failed = clean

-- The table of pods has every pod under its ID.
abbrev pub IsKeyed : Server → Type 0
IsKeyed tables = (k : String) (sb : Sandbox) → lookup k tables.sandboxes ≡ some sb → sb.id ≡ k

-- The pod of a request stands in the table.
pod_from_request-lookup :
    (find : String → Option String) (request : String) (tables : Server) (sb : Sandbox)
    → pod_from_request find request tables ≡ ok sb
    → (id : String) × (lookup id tables.sandboxes ≡ some sb)
unfolding pod_from_request get_sandbox
pod_from_request-lookup find request tables sb given = elim (Bool-cases (request == "")) [
  | inl empty ↦ absurd (ground (arith, given, empty))
  | inr full ↦ elim (Option-cases (find request)) [
    | inl out ↦ absurd (ground (arith, given, full, out))
    | inr (id, found) ↦ elim (Option-cases (lookup id tables.sandboxes)) [
      | inl out ↦ absurd (ground (arith, given, full, found, out))
      | inr (there, held) ↦ elim (Bool-cases there.is_created) [
        | inl made ↦ (id, ground (arith, given, full, found, held, made))
        | inr unmade ↦ absurd (ground (arith, given, full, found, held, unmade))
      ]
    ]
  ]
]

-- After a CreateContainer that fails, for another reason than the end of its context, the name of
-- the container is free, and its ID is in none of the table, the index, the storage and the runtime.
-- This holds wherever it fails, if none of it was there before, the pods stand in their table under
-- their IDs, no function of the cleaner fails in all its retries, and a failing createSandboxContainer
-- or createContainerPlatform deletes what it has made. The entry that the resource store has for the
-- stage of the request is not meant.
pub create_container-IsAbsent :
    {I : Type 0} (index : IdIndex I) (find : String → Option String) (env : CreateEnv) (w : World I)
    (e : HandlerError)
    → ((u : Undo) → env.undo_fails u ≡ false)
    → env.build_leaves ≡ false
    → env.launch_leaves ≡ false
    → env.context_ended ≡ false
    → IsKeyed w.tables
    → IsAbsent index env.id env.name w
    → (create_container index find env w).0 ≡ err e
    → IsAbsent index env.id env.name (create_container index find env w).1
unfolding create_container
create_container-IsAbsent index find env w e undos_work unbuilt unlaunched lasts keyed a =
    elim (Bool-cases env.request_ok) [
      | inr bad ↦ rw (bad, create_container) (λ failed. a)
      | inl good ↦ elim (Result-cases (pod_from_request find env.pod_request w.tables)) [
        | inr (x, none_found) ↦ rw (good, none_found, create_container) (λ failed. a)
        | inl (sb, given) ↦ elim (Bool-cases sb.is_stopped) [
          | inl stopped ↦ rw (good, given, stopped, create_container) (λ failed. a)
          | inr runs ↦ elim (Bool-cases env.config_ok) [
            | inr bad ↦ rw (good, given, runs, bad, create_container) (λ failed. a)
            | inl fine ↦
                let (id, held) = pod_from_request-lookup find env.pod_request w.tables sb given in
                rw (good, given, runs, fine, create_container)
                  (Clean-IsAbsent index sb env undos_work unbuilt unlaunched
                    (create_in index sb env w) e
                    (create_in-Clean index sb env undos_work unbuilt unlaunched w sb lasts
                      (ground (arith, held, keyed id sb held)) a))
          ]
        ]
      ]
    ]
