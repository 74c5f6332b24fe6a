-- ===== src/Handlers/Create/Retry.antt =====
-- server/container_create.go: what the second CreateContainer of a name gets after the first ran
-- out of time.
use cri_t.Prelude.{
  Bool-cases, string_eq, nat_eq, ◌==◌, contains, ok, err, String, ◌≡◌, refl, ◌∙◌, inl, inr, true,
  false, ◌&&◌, none, some, List, arith,
}
use cri_t.Prelude.Maps.{lookup}
use cri_t.Registrar.Lookups.{lookup-reserve}
use cri_t.Registrar.{reserve, get as holder_of}
use cri_t.ResourceStore.{is_entry_put, get as fetch_resource}
use cri_t.ResourceStore.Waiting.{is_entry_put-set_stage_for_resource, get-put}
use cri_t.Server.{Sandbox, has_container}
use cri_t.Handlers.Index.{IdIndex}
use cri_t.Handlers.{Undo, World, timed_out, is_ctr_created}
use cri_t.Handlers.Create.{
  CreateEnv, Answer, resource_or_wait, duplicate, conclude, undo_all, launch, register, build,
  create_in,
}

-- The container waits under its name for a request that fetches it.
record IsWaiting {I : Type 0} (id name : String) (w : World I) : Type 0 where
  held : lookup name w.ctr_names.names ≡ some id
  stored : (fetch_resource name w.resources).1 ≡ id
  marked : contains (fetch_resource name w.resources).0.created id ≡ true

-- The first request: a free name, every step good, and the context over at the end.
module _ {I : Type 0} (index : IdIndex I) (sb : Sandbox) (env : CreateEnv)
    (builds : env.builds ≡ true) (launches : env.launches ≡ true)
    (late : env.context_ended ≡ true) where
  abbrev TimesOut : Answer I → Type 0
  TimesOut r = (r.0 ≡ err timed_out) × IsWaiting env.id env.name r.1

  abbrev Free : World I → Type 0
  Free w =
      (lookup env.name w.ctr_names.names ≡ some env.id)
      × (is_entry_put (lookup env.name w.resources.resources) ≡ false)

  conclude-TimesOut : (us : List Undo) (w : World I) → Free w → TimesOut (conclude env us w)
  unfolding conclude
  conclude-TimesOut us w (held, fresh) =
      let (stored, marked) = get-put env.name env.id us w.resources fresh in
      rw (late, conclude) (refl, record { held = held; stored = stored; marked = marked })

  launch-TimesOut : (w : World I) → Free w → TimesOut (launch index sb env w)
  unfolding launch
  launch-TimesOut w free = rw (launches, launch) (conclude-TimesOut (undo_all sb env) _ free)

  register-TimesOut :
      (w : World I) (ids : I)
      → index.add env.id w.ctr_ids ≡ some ids
      → Free w
      → TimesOut (register index sb env w)
  unfolding register
  register-TimesOut w ids added (held, fresh) =
      rw (added, register)
        (launch-TimesOut _
          (held, is_entry_put-set_stage_for_resource env.name w.resources _ ∙ fresh))

  build-TimesOut :
      (w : World I) (ids : I)
      → index.add env.id w.ctr_ids ≡ some ids
      → Free w
      → TimesOut (build index sb env w)
  unfolding build
  build-TimesOut w ids added free = rw (builds, build) (register-TimesOut _ ids added free)

  create_in-TimesOut :
      (w : World I) (ids : I)
      → lookup env.name w.ctr_names.names ≡ none
      → is_entry_put (lookup env.name w.resources.resources) ≡ false
      → index.add env.id w.ctr_ids ≡ some ids
      → TimesOut (create_in index sb env w)
  unfolding create_in reserve
  create_in-TimesOut w ids free fresh added =
      rw (free, create_in)
        (build-TimesOut _ ids added (
          lookup-reserve env.name env.id w.ctr_names free,
          is_entry_put-set_stage_for_resource env.name w.resources _ ∙ fresh,
        ))

-- The second request.
duplicate-IsWaiting :
    {I : Type 0} (id name : String) (w : World I)
    → IsWaiting id name w
    → (id == "") ≡ false
    → ((duplicate name w).0 ≡ ok id) × (is_ctr_created id (duplicate name w).1 ≡ true)
unfolding duplicate resource_or_wait holder_of is_ctr_created
duplicate-IsWaiting id name w waits full =
    elim (Bool-cases (has_container id w.tables && is_ctr_created id w)) [
      | inl made ↦ rw (waits.held, duplicate) (rw made (refl, ground (arith, made)))
      | inr unmade ↦
          rw (waits.held, duplicate)
            (rw (unmade, resource_or_wait)
              (rw (waits.stored, full) (refl, ground (arith, waits.marked))))
    ]

create_in-duplicate :
    {I : Type 0} (index : IdIndex I) (sb : Sandbox) (env : CreateEnv) (w : World I) (id : String)
    → lookup env.name w.ctr_names.names ≡ some id
    → (id == env.id) ≡ false
    → create_in index sb env w ≡ duplicate env.name w
unfolding create_in reserve
create_in-duplicate index sb env w id held other = rw (held, create_in) (rw other refl)

-- If a CreateContainer ends after its context, with all its steps good, a name that was free and
-- nothing put under it, the caller gets an error and the container is kept: the next
-- CreateContainer that passes the checks with this name and another ID gets the ID of the first
-- container, and marks it as created.
pub create_in-timed_out :
    {I : Type 0} (index : IdIndex I) (sb sb' : Sandbox) (env env' : CreateEnv) (w : World I)
    (ids : I)
    → env.builds ≡ true
    → env.launches ≡ true
    → env.context_ended ≡ true
    → lookup env.name w.ctr_names.names ≡ none
    → is_entry_put (lookup env.name w.resources.resources) ≡ false
    → index.add env.id w.ctr_ids ≡ some ids
    → (env.id == "") ≡ false
    → env'.name ≡ env.name
    → (env.id == env'.id) ≡ false
    → let first = create_in index sb env w in
      let second = create_in index sb' env' first.1 in
      (first.0 ≡ err timed_out) × (second.0 ≡ ok env.id) × (is_ctr_created env.id second.1 ≡ true)
create_in-timed_out index sb sb' env env' w ids builds launches late free fresh added full same
      other =
    let (out, waits) =
      create_in-TimesOut index sb env builds launches late w ids free fresh added in
    let (gets, made) =
      duplicate-IsWaiting env.id env.name (create_in index sb env w).1 waits full in
    let again =
      create_in-duplicate index sb' env' (create_in index sb env w).1 env.id (rw same waits.held)
        other in
    (out, rw (again, same) gets, rw (again, same) made)
