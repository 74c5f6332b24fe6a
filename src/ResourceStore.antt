-- ===== src/ResourceStore.antt =====
-- internal/resourcestore/resourcestore.go: resources that wait to be fetched, their watchers, and
-- the sweep that drops what nobody fetched. Every method holds the mutex from its first line to
-- its last, and so does one round of the sweep: a history is a list of operations.
-- A watcher is the number of its channel; `sends` is the log of all sends to such channels.
-- A resource (`IdentifiableCreatable`) is its ID; `created` is the log of the SetCreated calls.
pub mod Cleaner
pub mod History
pub mod Sweep
pub mod Lifetime
pub mod Watchers
pub mod Waiting
mod Examples
use cri_t.Prelude.{
  if◌then◌else◌, is_some, nat_eq, string_eq, ℕ, ◌+◌, String, Bool, true, false, Option, none, some,
  List, [], ◌∷◌, ◌++◌,
}
use cri_t.Prelude.Maps.{Map, lookup, delete, insert}

pub record Resource (C : Type 0) : Type 0 where
  pub resource : Option String
  pub cleaner : Option C
  pub watchers : List ℕ
  pub stale : Bool
  pub name : String
  pub stage : String

pub record ResourceStore (C : Type 0) : Type 0 where
  pub resources : Map String (Resource C)
  pub closed : Bool
  pub next_watcher : ℕ
  pub sends : List ℕ
  pub created : List String

pub data StoreError : Type 0 where
  entry_exists : String → StoreError

abbrev pub stage_unknown : String
stage_unknown = "unknown"

module _ {C : Type 0} where
  unfoldable pub new_store : ResourceStore C
  new_store = record { resources = []; closed = false; next_watcher = 0; sends = []; created = [] }

  unfoldable pub close : ResourceStore C → ResourceStore C
  close s = if s.closed then s else record s { closed = true }

  -- r != nil && r.resource != nil; the entries of the map are never nil
  abbrev pub was_put : Resource C → Bool
  was_put r = is_some r.resource

  -- &Resource{}
  pub blank : Resource C
  blank = record {
    resource = none;
    cleaner = none;
    watchers = [];
    stale = false;
    name = "";
    stage = "";
  }

  pub entry_or_blank : Option (Resource C) → Resource C
  unfolding blank
  entry_or_blank none = blank
  entry_or_blank (some r) = r

  abbrev pub is_entry_put : Option (Resource C) → Bool
  is_entry_put none = false
  is_entry_put (some r) = was_put r

  unfoldable pub put : String → String → C → ResourceStore C → ResourceStore C × Option StoreError
  unfolding entry_or_blank
  put name id cleaner s =
      let found = lookup name s.resources in
      let r = entry_or_blank found in
      if is_entry_put found then (s, some (entry_exists name)) else (
        record s {
          resources =
              insert name (record r { resource = some id; cleaner = some cleaner; name = name })
                s.resources;
          sends = s.sends ++ r.watchers;
        },
        none,
      )

  -- The ID that the method returns; "" where nothing was put under the name.
  unfoldable pub fetch : String → Option (Resource C) → ResourceStore C → ResourceStore C × String
  fetch name none s = (s, "")
  fetch name (some r) s = elim r.resource [
    | none ↦ (s, "")
    | some id ↦
        (record s { resources = delete name s.resources; created = s.created ++ id ∷ [] }, id)
  ]

  unfoldable pub get : String → ResourceStore C → ResourceStore C × String
  unfolding fetch
  get name s = fetch name (lookup name s.resources) s

  unfoldable pub delete_entry : String → ResourceStore C → ResourceStore C
  delete_entry name s = record s { resources = delete name s.resources }

  unfoldable pub watcher_for_resource : String → ResourceStore C → ResourceStore C × ℕ × String
  unfolding blank
  watcher_for_resource name s = elim (lookup name s.resources) [
    | none ↦ (
      record s {
        resources =
            insert name (record blank { watchers = s.next_watcher ∷ []; name = name }) s.resources;
        next_watcher = s.next_watcher + 1;
      },
      s.next_watcher,
      stage_unknown,
    )
    | some r ↦ (
      record s {
        resources =
            insert name (record r { watchers = r.watchers ++ s.next_watcher ∷ [] }) s.resources;
        next_watcher = s.next_watcher + 1;
      },
      s.next_watcher,
      r.stage,
    )
  ]

  unfoldable pub set_stage_for_resource : String → String → ResourceStore C → ResourceStore C
  unfolding blank
  set_stage_for_resource name stage s = elim (lookup name s.resources) [
    | none ↦ record s {
      resources = insert name (record blank { name = name; stage = stage }) s.resources;
    }
    | some r ↦ record s { resources = insert name (record r { stage = stage }) s.resources }
  ]

  -- One round of cleanupStaleResources under the lock: the entries that stay, and those to reap.
  pub sweep_entries : Map String (Resource C) → Map String (Resource C) × List (Resource C)
  sweep_entries [] = ([], [])
  sweep_entries ((name, r) ∷ rest) =
      let (kept, reaped) = sweep_entries rest in
      if was_put r
      then if r.stale
        then (kept, r ∷ reaped)
        else ((name, record r { stale = true }) ∷ kept, reaped)
      else ((name, r) ∷ kept, reaped)

  unfoldable pub sweep : ResourceStore C → ResourceStore C × List (Resource C)
  unfolding sweep_entries
  sweep s =
      let (kept, reaped) = sweep_entries s.resources in (record s { resources = kept }, reaped)
