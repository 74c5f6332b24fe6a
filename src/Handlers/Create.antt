-- ===== src/Handlers/Create.antt =====
-- CreateContainer of server/container_create.go, with getPodSandboxFromRequest of server/server.go
-- and getResourceOrWait of server/utils.go. `CreateEnv` is the request, with the ID that is made
-- for the container, and what the calls out of the daemon answer. The wait of a duplicate request
-- ends in an error however it ends: `retry_later`.
pub mod Undone
pub mod Rollback
pub mod Retry
pub mod Swept
use cri_t.Prelude.{
  if◌then◌else◌, string_eq, nat_eq, ◌==◌, Result, ok, err, String, Bool, ◌&&◌, not, Option, none,
  some, List, [], ◌∷◌, ◌++◌,
}
use cri_t.Registrar.{reserve, get as holder_of}
use cri_t.ResourceStore.{put, get, delete_entry, watcher_for_resource, set_stage_for_resource}
use cri_t.Server.{Ctr, Sandbox, Server, add_container, has_container, get_sandbox}
use cri_t.Handlers.{
  Undo, release_name, delete_storage, delete_id, delete_runtime, drop_container, World,
  HandlerError, bad_request, id_empty, not_found, not_yet_created, sandbox_stopped, name_error,
  retry_later, create_failed, timed_out, is_ctr_created, run_undos,
}
use cri_t.Handlers.Index.{IdIndex}

pub record CreateEnv : Type 0 where
  -- whether the parts of the request that are read are there
  pub request_ok : Bool
  pub pod_request : String
  -- whether SetConfig accepts the configuration, and SetNameAndID makes the name
  pub config_ok : Bool
  pub id : String
  pub name : String
  -- createSandboxContainer, and whether one that fails leaves the container in the storage, since
  -- its deferred DeleteContainer fails too, which is only logged
  pub builds : Bool
  pub build_leaves : Bool
  -- createContainerPlatform, and whether one that fails leaves the container in the runtime, likewise
  pub launches : Bool
  pub launch_leaves : Bool
  pub context_ended : Bool
  pub undo_fails : Undo → Bool

abbrev pub Answer : Type 0 → Type 0
Answer I = Result HandlerError String × World I

-- getPodSandboxFromRequest; `find` is PodIDIndex().Get.
unfoldable pub pod_from_request :
    (String → Option String) → String → Server → Result HandlerError Sandbox
pod_from_request find request tables = if request == "" then err id_empty else elim (find request) [
  | none ↦ err not_found
  | some id ↦ elim (get_sandbox id tables) [
    | none ↦ err not_found
    | some sb ↦ if sb.is_created then ok sb else err not_yet_created
  ]
]

module _ {I : Type 0} where
  -- getResourceOrWait
  unfoldable pub resource_or_wait : String → World I → Answer I
  resource_or_wait name w =
      let (store, cached) = get name w.resources in
      let w' = record w { resources = store } in
      if not (cached == "")
      then (ok cached, w')
      else let (watched, watcher, stage) = watcher_for_resource name store in
        (err retry_later, record w' { resources = watched })

  -- The name is reserved already.
  unfoldable pub duplicate : String → World I → Answer I
  unfolding resource_or_wait
  duplicate name w = elim (holder_of name w.ctr_names) [
    | err e ↦ (err name_error, w)
    | ok id ↦
        if has_container id w.tables && is_ctr_created id w
        then (ok id, w)
        else resource_or_wait name w
  ]

  -- From the check of the context to the end.
  unfoldable pub conclude : CreateEnv → List Undo → World I → Answer I
  conclude env undos w =
      if env.context_ended
      then (err timed_out, record w { resources = (put env.name env.id undos w.resources).0 })
      else (
        ok env.id,
        record w {
          resources = delete_entry env.name w.resources;
          created = w.created ++ env.id ∷ [];
        },
      )

abbrev pub made_container : Sandbox → CreateEnv → Ctr
made_container sb env = record { id = env.id; name = env.name; sandbox_id = sb.id }

-- The cleaner after each of its five additions, the last one first.
abbrev pub undo_name : CreateEnv → List Undo
undo_name env = release_name env.name ∷ []

abbrev pub undo_storage : CreateEnv → List Undo
undo_storage env = delete_storage env.id ∷ undo_name env

abbrev pub undo_table : Sandbox → CreateEnv → List Undo
undo_table sb env = drop_container (made_container sb env) ∷ undo_storage env

abbrev pub undo_id : Sandbox → CreateEnv → List Undo
undo_id sb env = delete_id env.id ∷ undo_table sb env

abbrev pub undo_all : Sandbox → CreateEnv → List Undo
undo_all sb env = delete_runtime env.id ∷ undo_id sb env

module _ {I : Type 0} (index : IdIndex I) where
  abbrev fail : CreateEnv → List Undo → World I → Answer I
  fail env undos w = (err create_failed, run_undos index env.undo_fails undos w)

  abbrev stage_set : CreateEnv → String → World I → World I
  stage_set env stage w = record w { resources = set_stage_for_resource env.name stage w.resources }

  unfoldable pub launch : Sandbox → CreateEnv → World I → Answer I
  unfolding conclude
  launch sb env w =
      if env.launches
      then conclude env (undo_all sb env) (record w { runtime = w.runtime ++ env.id ∷ [] })
      else fail env (undo_id sb env)
          (record w { runtime = if env.launch_leaves then w.runtime ++ env.id ∷ [] else w.runtime })

  unfoldable pub register : Sandbox → CreateEnv → World I → Answer I
  unfolding launch
  register sb env w =
      let w' = record w { tables = add_container (made_container sb env) w.tables } in
      elim (index.add env.id w.ctr_ids) [
        | none ↦ fail env (undo_table sb env) w'
        | some ids ↦
            launch sb env (stage_set env "container runtime creation" (record w' { ctr_ids = ids }))
      ]

  unfoldable pub build : Sandbox → CreateEnv → World I → Answer I
  unfolding register
  build sb env w =
      if env.builds
      then register sb env (record w { storage = w.storage ++ env.id ∷ [] })
      else fail env (undo_name env)
          (record w { storage = if env.build_leaves then w.storage ++ env.id ∷ [] else w.storage })

  unfoldable pub create_in : Sandbox → CreateEnv → World I → Answer I
  unfolding build duplicate
  create_in sb env w =
      let (names, failure) = reserve env.name env.id w.ctr_names in
      elim failure [
        | some e ↦ duplicate env.name w
        | none ↦ build sb env (stage_set env "container creating" (record w { ctr_names = names }))
      ]

  unfoldable pub create_container : (String → Option String) → CreateEnv → World I → Answer I
  unfolding create_in pod_from_request
  create_container find env w =
      if not env.request_ok
      then (err bad_request, w)
      else elim (pod_from_request find env.pod_request w.tables) [
        | err e ↦ (err e, w)
        | ok sb ↦
            if sb.is_stopped
            then (err sandbox_stopped, w)
            else if not env.config_ok
            then (err bad_request, w)
            else create_in sb env w
      ]
