-- ===== src/Server/Examples.antt =====
-- Runs of internal/lib/container_server.go, and the theorems at concrete inputs.
use mathlib.Core.Path.{◌≡◌, refl}
use cri_t.Prelude.{
  if◌then◌else◌, string_eq, nat_eq, ◌==◌, String, ◌≡◌, refl, true, false, Option, none, some, List,
  [], ◌∷◌,
}
use cri_t.Prelude.Maps.{lookup, delete, insert}
use cri_t.Server.{
  Ctr, Sandbox, Server, new_server, add_container, add_sandbox, remove_sandbox, Call, adds,
  adds_sandbox, removes_sandbox, step, run, AllFresh,
}
use cri_t.Server.Levels.{IsCounted, run-new_server-IsCounted}

abbrev pod_a : Sandbox
pod_a = record {
  id = "a";
  name = "p";
  process_label = "u:r:t:c1";
  containers = [];
  infra_container = none;
  is_created = true;
  is_stopped = false;
}

abbrev pod_b : Sandbox
pod_b = record pod_a { id = "b" }

abbrev web : Ctr
web = record { id = "1"; name = "web"; sandbox_id = "a" }

abbrev level_of : String → Option String
level_of label = if label == "u:r:t:c1" then some "c1" else none

abbrev history : List Call
history = adds_sandbox pod_a ∷ adds_sandbox pod_b ∷ adds web ∷ removes_sandbox "b" ∷ []

history_runs : (run level_of new_server history).process_levels ≡ ("c1", 1) ∷ []
unfolding run step new_server add_sandbox add_container remove_sandbox insert delete lookup
history_runs = refl

history-AllFresh : AllFresh level_of new_server history
unfolding AllFresh step new_server add_sandbox add_container remove_sandbox insert delete lookup
history-AllFresh = (refl, (refl, (tt, (tt, tt))))

run-new_server-IsCounted_example : IsCounted level_of (run level_of new_server history)
run-new_server-IsCounted_example = run-new_server-IsCounted level_of history history-AllFresh

abbrev pod_a_now : Sandbox
pod_a_now = record pod_a { containers = ("web", web) ∷ [] }

abbrev busy : Server
busy = run level_of new_server history
