-- ===== src/CniManager.antt =====
-- internal/config/cnimgr/cnimgr.go: the manager that waits until the CNI plugin is ready. A watcher
-- is its channel, of capacity 1: the list of the values that wait in it. Each method holds the mutex
-- from its first line to its last, so a history is a list of events; `none` is a send that finds a
-- channel full, which keeps the mutex. What the plugin and the lister of pods answer is an argument,
-- and `collected` counts the calls of the plugin's GC.
pub mod Quiet
pub mod Late
mod Examples
use cri_t.Prelude.{
  if◌then◌else◌, is_some, string_eq, nat_eq, ℕ, zero, suc, ◌+◌, Bool, true, false, ◌&&◌, Option,
  none, some, List, [], ◌∷◌, ◌++◌,
}

pub record CniManager (E : Type 0) : Type 0 where
  pub last_error : Option E
  pub watchers : List (List Bool)
  pub shutdown : Bool
  -- whether there is a list of pods, and whether the goroutine of pollUntilReady runs
  pub has_lister : Bool
  pub polling : Bool
  pub collected : ℕ

-- watcher <- v for each of the watchers
unfoldable pub send_all : Bool → List (List Bool) → Option (List (List Bool))
send_all v [] = some []
send_all v ([] ∷ watchers) = elim (send_all v watchers) [
  | none ↦ none
  | some sent ↦ some ((v ∷ []) ∷ sent)
]
send_all v ((u ∷ waiting) ∷ watchers) = none

-- A receive from the channel of the watcher with the number; nothing where none waits.
unfoldable pub received : ℕ → List (List Bool) → List (List Bool)
received i [] = []
received zero ([] ∷ watchers) = [] ∷ watchers
received zero ((v ∷ waiting) ∷ watchers) = waiting ∷ watchers
received (suc i) (w ∷ watchers) = w ∷ received i watchers

module _ {E : Type 0} where
  -- New, before the goroutine runs; `e` is "plugin status uninitialized".
  unfoldable pub new_manager : E → CniManager E
  new_manager e = record {
    last_error = some e;
    watchers = [];
    shutdown = false;
    has_lister = false;
    polling = true;
    collected = 0;
  }

  -- doGC; `lists` is that the lister succeeds
  unfoldable pub do_gc : Bool → CniManager E → CniManager E
  do_gc lists c = if c.has_lister && lists then record c { collected = c.collected + 1 } else c

  -- pollFunc; `status` is the error of the plugin
  unfoldable pub poll_func : Option E → Bool → CniManager E → Option (CniManager E)
  unfolding do_gc send_all
  poll_func status lists c =
      if c.shutdown then some (record c { polling = false }) else elim status [
        | some e ↦ some (record c { last_error = some e })
        | none ↦ elim (send_all true c.watchers) [
          | none ↦ none
          | some sent ↦
              some (record (do_gc lists c) { last_error = none; watchers = sent; polling = false })
        ]
      ]

  unfoldable pub add_watcher : CniManager E → CniManager E
  add_watcher c = record c { watchers = c.watchers ++ [] ∷ [] }

  unfoldable pub shut_down : CniManager E → Option (CniManager E)
  unfolding send_all
  shut_down c = elim (send_all false c.watchers) [
    | none ↦ none
    | some sent ↦ some (record c { shutdown = true; watchers = sent })
  ]

  unfoldable pub gc : Bool → CniManager E → CniManager E
  unfolding do_gc
  gc lists c =
      let c' = record c { has_lister = true } in if is_some c.last_error then c' else do_gc lists c'

pub data Event (E : Type 0) : Type 0 where
  polls : Option E → Bool → Event E
  adds shuts_down : Event E
  collects : Bool → Event E
  receives : ℕ → Event E

module _ {E : Type 0} where
  -- The goroutine polls until pollFunc says that it is done.
  unfoldable pub step : CniManager E → Event E → Option (CniManager E)
  unfolding poll_func add_watcher shut_down gc received
  step c (polls status lists) = if c.polling then poll_func status lists c else some c
  step c adds = some (add_watcher c)
  step c shuts_down = shut_down c
  step c (collects lists) = some (gc lists c)
  step c (receives i) = some (record c { watchers = received i c.watchers })

  unfoldable pub run : CniManager E → List (Event E) → Option (CniManager E)
  unfolding step
  run c [] = some c
  run c (e ∷ es) = elim (step c e) [ none ↦ none | some c' ↦ run c' es ]
