-- ===== src/Server.antt =====
-- internal/lib/container_server.go, internal/lib/container_server_linux.go and the container table
-- of internal/lib/sandbox/sandbox.go: which containers and pods the daemon knows, and how many pods
-- use an SELinux level. Each method is one step. A sandbox stands in the table under its ID, and a
-- change of a sandbox that the table holds is a change there. A count is a natural number: int does
-- not overflow by pods, and `before 0` is -1 as a bit pattern. `selinux.NewContext` is a parameter:
-- the level of a label.
pub mod Levels
pub mod Orphans
mod Examples
use cri_t.Prelude.{
  eqb, if◌then◌else◌, is_some, string_eq, nat_eq, word, ℕ, ◌+◌, ◌-◌, String, ◌≡◌, Bool, true, false,
  Option, none, some, List, [], ◌∷◌, ◌++◌,
}
use cri_t.Prelude.Maps.{Map, lookup, delete, insert}

pub record Ctr : Type 0 where
  pub id : String
  pub name : String
  pub sandbox_id : String

pub record Sandbox : Type 0 where
  pub id : String
  pub name : String
  pub process_label : String
  -- by name
  pub containers : Map String Ctr
  pub infra_container : Option Ctr
  pub is_created : Bool
  pub is_stopped : Bool

pub data ServerError : Type 0 where
  bad_label already_infra : ServerError

-- containerServerState, and the labels that were released, in order
pub record Server : Type 0 where
  pub containers : Map String Ctr
  pub infra_containers : Map String Ctr
  pub sandboxes : Map String Sandbox
  pub process_levels : Map String ℕ
  pub released : List String

unfoldable pub new_server : Server
new_server = record {
  containers = [];
  infra_containers = [];
  sandboxes = [];
  process_levels = [];
  released = [];
}

unfoldable pub set_infra_container : Ctr → Sandbox → Sandbox × Option ServerError
set_infra_container c sb =
    if is_some sb.infra_container
    then (sb, some already_infra)
    else (record sb { infra_container = some c }, none)

-- AddContainer of the sandbox and of the server
unfoldable pub add_container : Ctr → Server → Server
add_container c s = elim (lookup c.sandbox_id s.sandboxes) [
  | none ↦ s
  | some sb ↦ record s {
    sandboxes =
        insert c.sandbox_id (record sb { containers = insert c.name c sb.containers }) s.sandboxes;
    containers = insert c.id c s.containers;
  }
]

unfoldable pub add_infra_container : Ctr → Server → Server
add_infra_container c s = record s { infra_containers = insert c.id c s.infra_containers }

unfoldable pub get_container : String → Server → Option Ctr
get_container id s = lookup id s.containers

unfoldable pub get_infra_container : String → Server → Option Ctr
get_infra_container id s = lookup id s.infra_containers

unfoldable pub has_container : String → Server → Bool
has_container id s = is_some (lookup id s.containers)

-- RemoveContainer of the sandbox and of the server; statistics and the PID namespace are left out.
unfoldable pub remove_container : Ctr → Server → Server
remove_container c s = elim (lookup c.sandbox_id s.sandboxes) [
  | none ↦ s
  | some sb ↦ record s {
    sandboxes =
        insert c.sandbox_id (record sb { containers = delete c.name sb.containers }) s.sandboxes;
    containers = delete c.id s.containers;
  }
]

unfoldable pub remove_infra_container : Ctr → Server → Server
remove_infra_container c s = record s { infra_containers = delete c.id s.infra_containers }

unfoldable pub get_sandbox : String → Server → Option Sandbox
get_sandbox id s = lookup id s.sandboxes

unfoldable pub get_sandbox_container : String → Server → Option Ctr
get_sandbox_container id s = elim (lookup id s.sandboxes) [
  | none ↦ none
  | some sb ↦ sb.infra_container
]

unfoldable pub has_sandbox : String → Server → Bool
has_sandbox id s = is_some (lookup id s.sandboxes)

-- processLevels[level], 0 where it is missing
abbrev pub users : String → Map String ℕ → ℕ
users level levels = elim (lookup level levels) [ none ↦ 0 | some n ↦ n ]

abbrev before : ℕ → ℕ
before n = if eqb n 0 then word - 1 else n - 1

-- The counts after a pod of the level is gone, and whether its label is released.
pub release_level : String → Map String ℕ → Map String ℕ × Bool
release_level level levels = elim (lookup level levels) [
  | none ↦ (levels, false)
  | some n ↦
      if eqb (before n) 0
      then (delete level levels, true)
      else (insert level (before n) levels, false)
]

module _ (level_of : String → Option String) where
  unfoldable pub add_sandbox : Sandbox → Server → Server × Option ServerError
  add_sandbox sb s =
      let added = record s { sandboxes = insert sb.id sb s.sandboxes } in
      elim (level_of sb.process_label) [
        | none ↦ (added, some bad_label)
        | some level ↦ (
          record added {
            process_levels = insert level (users level s.process_levels + 1) s.process_levels;
          },
          none,
        )
      ]

  unfoldable pub remove_sandbox : String → Server → Server × Option ServerError
  unfolding release_level
  remove_sandbox id s = elim (lookup id s.sandboxes) [
    | none ↦ (s, none)
    | some sb ↦ elim (level_of sb.process_label) [
      | none ↦ (s, some bad_label)
      | some level ↦
          let (levels, last) = release_level level s.process_levels in
          (
            record s {
              sandboxes = delete id s.sandboxes;
              process_levels = levels;
              released = if last then s.released ++ sb.process_label ∷ [] else s.released;
            },
            none,
          )
    ]
  ]

pub data Call : Type 0 where
  adds removes adds_infra removes_infra : Ctr → Call
  adds_sandbox : Sandbox → Call
  removes_sandbox : String → Call

module _ (level_of : String → Option String) where
  unfoldable pub step : Server → Call → Server
  step s (adds c) = add_container c s
  step s (removes c) = remove_container c s
  step s (adds_infra c) = add_infra_container c s
  step s (removes_infra c) = remove_infra_container c s
  step s (adds_sandbox sb) = (add_sandbox level_of sb s).0
  step s (removes_sandbox id) = (remove_sandbox level_of id s).0

  unfoldable pub run : Server → List Call → Server
  run s [] = s
  run s (c ∷ cs) = run (step s c) cs

  -- No pod is added under the ID of one that the server has: IDs are random.
  abbrev pub IsFresh : Server → Call → Type 0
  IsFresh s (adds_sandbox sb) = lookup sb.id s.sandboxes ≡ none
  IsFresh s _ = Unit

  unfoldable pub AllFresh : Server → List Call → Type 0
  unfolding step
  AllFresh s [] = Unit
  AllFresh s (c ∷ cs) = IsFresh s c × AllFresh (step s c) cs
