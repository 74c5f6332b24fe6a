-- ===== src/ResourceStore/History.antt =====
-- Histories of a resource store: the calls of its clients and the rounds of its sweep, in the order
-- in which they take the mutex.
use cri_t.Prelude.{nat_eq, string_eq, String, List, [], ◌∷◌}
use cri_t.ResourceStore.{
  ResourceStore, close, put, get, delete_entry, watcher_for_resource, set_stage_for_resource, sweep,
}

-- The operations that a client or the sweep makes, for histories.
pub data Call (C : Type 0) : Type 0 where
  puts : String → String → C → Call C
  gets deletes watches : String → Call C
  sets_stage : String → String → Call C
  sweeps closes : Call C

module _ {C : Type 0} where
  unfoldable pub step : ResourceStore C → Call C → ResourceStore C
  step s (puts name id c) = (put name id c s).0
  step s (gets name) = (get name s).0
  step s (deletes name) = delete_entry name s
  step s (watches name) = (watcher_for_resource name s).0
  step s (sets_stage name stage) = set_stage_for_resource name stage s
  step s sweeps = (sweep s).0
  step s closes = close s

  unfoldable pub run : ResourceStore C → List (Call C) → ResourceStore C
  run s [] = s
  run s (c ∷ cs) = run (step s c) cs
