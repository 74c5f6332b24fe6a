-- ===== src/CpuSettings.antt =====
-- internal/runtimehandlerhooks/high_performance_hooks_linux.go: the resume latency and the frequency
-- governor of the CPUs of a container, which are set before it starts and restored after it ends.
-- The files of a CPU in the directory of the kernel and in the one for saved values are two maps
-- from the CPU to the contents; what a file operation answers is an argument. One that fails changes
-- nothing, except the write of a saved value, which can leave a part of it. The CPUs come from cpuset.Parse.
pub mod Kept
pub mod Restored
mod Examples
use cri_t.Prelude.{
  if◌then◌else◌, string_eq, nat_eq, ℕ, String, ◌≡◌, is_some, Bool, true, ◌||◌, not, Option, none,
  some, List, [], ◌∷◌,
}
use cri_t.Prelude.Maps.{Map, lookup, delete, insert}

pub record CpuFiles : Type 0 where
  pub current : Map ℕ String
  pub saved : Map ℕ String

-- Whether the operation on the file of the CPU succeeds: the reads of both files, MkdirAll with the
-- write of the saved value, the write of the kernel's file, and the removal of the saved value.
pub record FileAnswers : Type 0 where
  pub reads : ℕ → Bool
  pub saves : ℕ → Bool
  -- what a save that fails leaves in the file; `none` where it leaves no file
  pub leaves : ℕ → Option String
  pub writes : ℕ → Bool
  pub reads_saved : ℕ → Bool
  pub removes : ℕ → Bool

pub data SettingError : Type 0 where
  unsupported read_failed save_failed write_failed read_saved_failed remove_failed : SettingError

abbrev pub Setting : Type 0
Setting = CpuFiles × Option SettingError

unfoldable pub write : FileAnswers → String → ℕ → CpuFiles → Setting
write answers v cpu s =
    if answers.writes cpu
    then (record s { current = insert cpu v s.current }, none)
    else (s, some write_failed)

-- One round of the loop with a value; `supported` is isCPUGovernorSupported, or always true.
unfoldable pub set_one : (ℕ → Bool) → FileAnswers → String → ℕ → CpuFiles → Setting
unfolding write
set_one supported answers v cpu s =
    if not (supported cpu) then (s, some unsupported) else elim (lookup cpu s.saved) [
      | some original ↦ write answers v cpu s
      | none ↦ elim (if answers.reads cpu then lookup cpu s.current else none) [
        | none ↦ (s, some read_failed)
        | some original ↦
            if answers.saves cpu
            then write answers v cpu (record s { saved = insert cpu original s.saved })
            else (
              elim (answers.leaves cpu) [
                | none ↦ s
                | some part ↦ record s { saved = insert cpu part s.saved }
              ],
              some save_failed,
            )
      ]
    ]

unfoldable pub set_all : (ℕ → Bool) → FileAnswers → String → List ℕ → CpuFiles → Setting
unfolding set_one
set_all supported answers v [] s = (s, none)
set_all supported answers v (cpu ∷ cpus) s =
    let (next, failure) = set_one supported answers v cpu s in
    elim failure [ some e ↦ (next, some e) | none ↦ set_all supported answers v cpus next ]

-- One round of the loop without a value, where there is a saved value.
unfoldable pub restore_one : FileAnswers → String → ℕ → CpuFiles → Setting
restore_one answers original cpu s =
    let s' = record s { current = insert cpu original s.current } in
    if not (answers.reads_saved cpu)
    then (s, some read_saved_failed)
    else if not (answers.writes cpu)
    then (s, some write_failed)
    else if not (answers.removes cpu)
    then (s', some remove_failed)
    else (record s' { saved = delete cpu s.saved }, none)

-- The whole loop ends where there is no saved value.
unfoldable pub restore_all : FileAnswers → List ℕ → CpuFiles → Setting
unfolding restore_one
restore_all answers [] s = (s, none)
restore_all answers (cpu ∷ cpus) s = elim (lookup cpu s.saved) [
  | none ↦ (s, none)
  | some original ↦
      let (next, failure) = restore_one answers original cpu s in
      elim failure [ some e ↦ (next, some e) | none ↦ restore_all answers cpus next ]
]

-- No save that fails leaves a file.
abbrev pub LeavesNone : FileAnswers → Type 0
LeavesNone answers = (cpu : ℕ) → answers.saves cpu || not (is_some (answers.leaves cpu)) ≡ true

pub data Call : Type 0 where
  sets : (ℕ → Bool) → FileAnswers → String → List ℕ → Call
  restores : FileAnswers → List ℕ → Call

abbrev pub AllClean : List Call → Type 0
AllClean [] = Unit {0}
AllClean (sets supported answers v cpus ∷ cs) = LeavesNone answers × AllClean cs
AllClean (restores answers cpus ∷ cs) = AllClean cs

-- doSetCPUPMQOSResumeLatency and doSetCPUFreqGovernor, with a value or with the empty string
unfoldable pub step : CpuFiles → Call → CpuFiles
unfolding set_all restore_all
step s (sets supported answers v cpus) = (set_all supported answers v cpus s).0
step s (restores answers cpus) = (restore_all answers cpus s).0

unfoldable pub run : CpuFiles → List Call → CpuFiles
unfolding step
run s [] = s
run s (c ∷ cs) = run (step s c) cs
