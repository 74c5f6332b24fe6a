-- ===== src/CniManager/Examples.antt =====
-- The theorems on the CNI manager at concrete histories.
use mathlib.Core.Path.{◌≡◌, refl}
use cri_t.Prelude.{
  get_elem?, string_eq, nat_eq, String, ◌≡◌, refl, true, false, none, some, List, [], ◌∷◌,
}
use cri_t.CniManager.{
  CniManager, send_all, received, new_manager, do_gc, poll_func, add_watcher, shut_down, gc, Event,
  polls, adds, collects, receives, step, run,
}
use cri_t.CniManager.Quiet.{run-send_all}
use cri_t.CniManager.Late.{poll_func-shut_down}

abbrev history : List (Event String)
history = adds ∷ polls (some "no network") true ∷ collects true ∷ receives 0 ∷ []

abbrev waiting : CniManager String
waiting = record {
  last_error = some "no network";
  watchers = [] ∷ [];
  shutdown = false;
  has_lister = true;
  polling = true;
  collected = 0;
}

history_runs : run (new_manager "uninitialized") history ≡ some waiting
unfolding run step new_manager poll_func add_watcher gc received
history_runs = refl

run-send_all_example :
    ((c' : CniManager String) × (poll_func none true waiting ≡ some c'))
    × ((c' : CniManager String) × (shut_down waiting ≡ some c'))
run-send_all_example = run-send_all "uninitialized" history waiting none true history_runs refl refl

abbrev ready : CniManager String
ready = record waiting {
  last_error = none;
  watchers = (true ∷ []) ∷ [];
  polling = false;
  collected = 1;
}

becomes_ready : poll_func none true waiting ≡ some ready
unfolding poll_func send_all do_gc
becomes_ready = refl

poll_func-shut_down_example :
    (get_elem? ready.watchers 0 ≡ some (true ∷ [])) × (shut_down ready ≡ none)
poll_func-shut_down_example = poll_func-shut_down true waiting ready 0 [] refl refl becomes_ready

abbrev later : List (Event String)
later = receives 0 ∷ polls none true ∷ receives 1 ∷ []

abbrev ended : CniManager String
ended = record ready { watchers = [] ∷ [] ∷ [] }

later_runs : run (add_watcher ready) later ≡ some ended
unfolding run step add_watcher received
later_runs = refl
