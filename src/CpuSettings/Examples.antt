-- ===== src/CpuSettings/Examples.antt =====
-- The theorems on the settings of CPUs at concrete files.
use mathlib.Core.Path.{◌≡◌, refl}
use cri_t.Prelude.{eqb, All, string_eq, nat_eq, ◌≡◌, refl, true, false, none, some, List, [], ◌∷◌}
use cri_t.Prelude.Maps.{lookup, delete, insert}
use cri_t.CpuSettings.{
  CpuFiles, FileAnswers, write_failed, write, set_one, set_all, restore_all, Call, sets, restores,
  restore_one, step, run,
}
use cri_t.CpuSettings.Kept.{IsKept, run-IsKept}
use cri_t.CpuSettings.Restored.{IsSaved, restore_all-restores, restore_all-again}

abbrev files : CpuFiles
files = record { current = (2, "10") ∷ (3, "20") ∷ []; saved = [] }

abbrev fine : FileAnswers
fine = record {
  reads = λ cpu. true;
  saves = λ cpu. true;
  leaves = λ cpu. none;
  writes = λ cpu. true;
  reads_saved = λ cpu. true;
  removes = λ cpu. true;
}

abbrev history : List Call
history = sets (λ cpu. true) fine "0" (2 ∷ 3 ∷ []) ∷ sets (λ cpu. true) fine "5" (3 ∷ []) ∷ []

abbrev changed : CpuFiles
changed = record { current = (3, "5") ∷ (2, "0") ∷ []; saved = (3, "20") ∷ (2, "10") ∷ [] }

history_runs : run files history ≡ changed
unfolding run step set_all set_one write lookup insert delete
history_runs = refl

run-IsKept_example : IsKept 3 "20" (run files history)
run-IsKept_example =
    run-IsKept 3 "20" files history ((λ cpu. refl), ((λ cpu. refl), tt)) (unfold lookup in refl)
      (unfold lookup in refl)

both-IsSaved : All (IsSaved (run files history)) (2 ∷ 3 ∷ [])
unfolding run step set_all set_one write lookup insert delete
both-IsSaved = (("10", refl), (("20", refl), tt))

restore_all-restores_example :
    let after = (restore_all fine (2 ∷ 3 ∷ []) (run files history)).0 in
    All (λ cpu. lookup cpu after.current ≡ lookup cpu files.current) (2 ∷ 3 ∷ [])
restore_all-restores_example =
    restore_all-restores fine (2 ∷ 3 ∷ []) files history ((λ cpu. refl), ((λ cpu. refl), tt))
      (unfold lookup in ((refl, ("10", refl)), ((refl, ("20", refl)), tt))) (refl, (refl, tt))
      ((refl, refl, refl), ((refl, refl, refl), tt)) both-IsSaved

-- The disk is full when the value of CPU 2 is saved, and an empty file is left. The next call takes
-- it for the saved value.
abbrev disk_full : FileAnswers
disk_full = record fine { saves = λ cpu. false; leaves = λ cpu. some "" }

value_lost :
    run files (
      sets (λ cpu. true) disk_full "0" (2 ∷ [])
      ∷ sets (λ cpu. true) fine "0" (2 ∷ [])
      ∷ restores fine (2 ∷ [])
      ∷ [])
    ≡ record { current = (2, "") ∷ (3, "20") ∷ []; saved = [] }
unfolding run step set_all set_one write restore_all restore_one lookup insert delete
value_lost = refl

-- CPU 3 is offline at the first restore.
abbrev offline : FileAnswers
offline = record fine { writes = λ cpu. eqb cpu 2 }

restore_all-again_example :
    let first = restore_all offline (2 ∷ 3 ∷ []) changed in
    let second = restore_all fine (2 ∷ 3 ∷ []) first.0 in
    (first.1 ≡ some write_failed)
    × (second ≡ (first.0, none))
    × (lookup 3 second.0.saved ≡ some "20")
    × (lookup 3 second.0.current ≡ lookup 3 changed.current)
restore_all-again_example =
    restore_all-again offline fine 2 3 [] changed "10" "20" refl (unfold lookup in refl)
      (unfold lookup in refl) (refl, refl, refl) refl refl
