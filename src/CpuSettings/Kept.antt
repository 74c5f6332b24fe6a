-- ===== src/CpuSettings/Kept.antt =====
-- internal/runtimehandlerhooks/high_performance_hooks_linux.go: the value that a CPU had is not lost.
use cri_t.Prelude.{
  if◌then◌else◌, Bool-cases, Option-cases, string_eq, nat_eq, ◌==◌, ==_iff, ℕ, String, ◌≡◌, sym,
  ◌∙◌, ◌⊎◌, inl, inr, Bool, true, false, not, none, some, List, [], ◌∷◌, arith,
}
use cri_t.Prelude.Maps.{lookup, delete, insert, lookup-delete, lookup-insert}
use cri_t.CpuSettings.{
  CpuFiles, FileAnswers, write, set_one, set_all, restore_one, restore_all, Call, sets, restores,
  step, run, LeavesNone, AllClean,
}

-- The value is saved, or it is still there.
abbrev pub IsKept : ℕ → String → CpuFiles → Type 0
IsKept cpu original s =
    (lookup cpu s.saved ≡ some original)
    ⊎ (lookup cpu s.saved ≡ none) × (lookup cpu s.current ≡ some original)

write-saved :
    (answers : FileAnswers) (v : String) (cpu : ℕ) (s : CpuFiles)
    → (write answers v cpu s).0.saved ≡ s.saved
unfolding write
write-saved answers v cpu s = ground arith

write-current :
    (answers : FileAnswers) (v : String) (cpu j : ℕ) (s : CpuFiles)
    → (cpu == j) ≡ false
    → lookup j (write answers v cpu s).0.current ≡ lookup j s.current
unfolding write
write-current answers v cpu j s other = ground (arith, other, lookup-insert cpu j v s.current)

module _ (j : ℕ) (original : String) where
  -- A write keeps the value of another CPU, and of a CPU whose value is saved.
  write-IsKept :
      (answers : FileAnswers) (v : String) (cpu : ℕ) (s : CpuFiles)
      → ((cpu == j) ≡ false) ⊎ (lookup j s.saved ≡ some original)
      → IsKept j original s
      → IsKept j original (write answers v cpu s).0
  write-IsKept answers v cpu s (inr held) kept = inl (rw (write-saved answers v cpu s) held)
  write-IsKept answers v cpu s (inl other) (inl held) = inl (rw (write-saved answers v cpu s) held)
  write-IsKept answers v cpu s (inl other) (inr (free, here)) =
      inr (rw (write-saved answers v cpu s) free, write-current answers v cpu j s other ∙ here)

  other_of :
      (cpu : ℕ) (old : String) (s : CpuFiles)
      → lookup cpu s.saved ≡ some old
      → lookup j s.saved ≡ none
      → (cpu == j) ≡ false
  other_of cpu old s held free = elim (Bool-cases (cpu == j)) [
    | inr other ↦ other
    | inl same ↦
        let there : lookup cpu s.saved ≡ none = rw ((==_iff cpu j).0 same) free in
        absurd (ground (arith, held, there))
  ]

  -- The value that is saved for the CPU is the one that it had.
  saved_original :
      (cpu : ℕ) (old : String) (s : CpuFiles)
      → lookup cpu s.saved ≡ none
      → lookup cpu s.current ≡ some old
      → (cpu == j) ≡ true
      → IsKept j original s
      → lookup j (insert cpu old s.saved) ≡ some original
  saved_original cpu old s free read same (inl there) =
      let gone : lookup j s.saved ≡ none = rw (sym ((==_iff cpu j).0 same)) free in
      absurd (ground (arith, there, gone))
  saved_original cpu old s free read same (inr (none_saved, here)) =
      let read' : lookup j s.current ≡ some old = rw (sym ((==_iff cpu j).0 same)) read in
      ground (arith, lookup-insert cpu j old s.saved, same, here, read')

  saved_other :
      (cpu : ℕ) (old : String) (s : CpuFiles)
      → (cpu == j) ≡ false
      → IsKept j original s
      → IsKept j original (record s { saved = insert cpu old s.saved })
  saved_other cpu old s other (inl there) =
      inl (ground (arith, lookup-insert cpu j old s.saved, other, there))
  saved_other cpu old s other (inr (free, here)) =
      inr (ground (arith, lookup-insert cpu j old s.saved, other, free), here)

  -- What a restore of the CPU changes: its file has the saved value again,
  restored :
      (old : String) (cpu : ℕ) (s : CpuFiles)
      → lookup cpu s.saved ≡ some old
      → IsKept j original s
      → IsKept j original (record s { current = insert cpu old s.current })
  restored old cpu s held (inl there) = inl there
  restored old cpu s held (inr (free, here)) =
      inr (
        free,
        ground (arith, lookup-insert cpu j old s.current, other_of cpu old s held free, here),
      )

  forgotten_other :
      (old : String) (cpu : ℕ) (s : CpuFiles)
      → (cpu == j) ≡ false
      → IsKept j original s
      → IsKept j original
          (record s { current = insert cpu old s.current; saved = delete cpu s.saved })
  forgotten_other old cpu s other (inl there) =
      inl (ground (arith, lookup-delete cpu j s.saved, other, there))
  forgotten_other old cpu s other (inr (free, here)) = inr (
    ground (arith, lookup-delete cpu j s.saved, other, free),
    ground (arith, lookup-insert cpu j old s.current, other, here),
  )

  saved_is :
      (old : String) (s : CpuFiles)
      → lookup j s.saved ≡ some old
      → IsKept j original s
      → old ≡ original
  saved_is old s held (inl there) = ground (arith, held, there)
  saved_is old s held (inr (free, here)) = absurd (ground (arith, held, free))

  -- and the saved value is gone.
  forgotten :
      (old : String) (cpu : ℕ) (s : CpuFiles)
      → lookup cpu s.saved ≡ some old
      → IsKept j original s
      → IsKept j original
          (record s { current = insert cpu old s.current; saved = delete cpu s.saved })
  forgotten old cpu s held kept = elim (Bool-cases (cpu == j)) [
    | inr other ↦ forgotten_other old cpu s other kept
    | inl same ↦
        let here : lookup j s.saved ≡ some old = rw (sym ((==_iff cpu j).0 same)) held in
        inr (
          ground (arith, lookup-delete cpu j s.saved, same),
          ground (arith, lookup-insert cpu j old s.current, same, saved_is old s here kept),
        )
  ]

  held_or_other :
      (cpu : ℕ) (old : String) (s : CpuFiles)
      → lookup cpu s.saved ≡ some old
      → IsKept j original s
      → ((cpu == j) ≡ false) ⊎ (lookup j s.saved ≡ some original)
  held_or_other cpu old s held (inl there) = inr there
  held_or_other cpu old s held (inr (free, here)) = inl (other_of cpu old s held free)

  saved_write :
      (answers : FileAnswers) (v : String) (cpu : ℕ) (old : String) (s : CpuFiles)
      → lookup cpu s.saved ≡ none
      → lookup cpu s.current ≡ some old
      → IsKept j original s
      → IsKept j original (write answers v cpu (record s { saved = insert cpu old s.saved })).0
  saved_write answers v cpu old s free read kept =
      let s' = record s { saved = insert cpu old s.saved } in
      elim (Bool-cases (cpu == j)) [
        | inl same ↦
            let here = saved_original cpu old s free read same kept in
            write-IsKept answers v cpu s' (inr here) (inl here)
        | inr other ↦ write-IsKept answers v cpu s' (inl other) (saved_other cpu old s other kept)
      ]

  set_one-IsKept :
      (supported : ℕ → Bool) (answers : FileAnswers) (v : String) (cpu : ℕ) (s : CpuFiles)
      → LeavesNone answers
      → IsKept j original s
      → IsKept j original (set_one supported answers v cpu s).0
  unfolding set_one
  set_one-IsKept supported answers v cpu s clean kept = elim (Bool-cases (not (supported cpu))) [
    | inl bad ↦ rw (bad, set_one) kept
    | inr fine ↦ elim (Option-cases (lookup cpu s.saved)) [
      | inr (old, held) ↦
          rw (fine, held, set_one)
            (write-IsKept answers v cpu s (held_or_other cpu old s held kept) kept)
      | inl free ↦ elim (Option-cases (if answers.reads cpu then lookup cpu s.current else none)) [
        | inl unread ↦ rw (fine, free, unread, set_one) kept
        | inr (old, read) ↦ elim (Bool-cases (answers.saves cpu)) [
          | inr full ↦ elim (Option-cases (answers.leaves cpu)) [
            | inl nothing ↦ rw (fine, free, read, full, nothing, set_one) kept
            | inr (part, left) ↦ absurd (ground (arith, clean cpu, full, left))
          ]
          | inl stored ↦
              rw (fine, free, read, stored, set_one)
                (saved_write answers v cpu old s free (ground (arith, read)) kept)
        ]
      ]
    ]
  ]

  set_all-IsKept :
      (supported : ℕ → Bool) (answers : FileAnswers) (v : String) (cpus : List ℕ) (s : CpuFiles)
      → LeavesNone answers
      → IsKept j original s
      → IsKept j original (set_all supported answers v cpus s).0
  unfolding set_all
  set_all-IsKept supported answers v [] s clean kept = kept
  set_all-IsKept supported answers v (cpu ∷ cpus) s clean kept =
      let next = set_one supported answers v cpu s in
      let kept' = set_one-IsKept supported answers v cpu s clean kept in
      elim (Option-cases next.1) [
        | inl good ↦ rw (good, set_all) (set_all-IsKept supported answers v cpus next.0 clean kept')
        | inr (e, bad) ↦ rw (bad, set_all) kept'
      ]

  restore_one-IsKept :
      (answers : FileAnswers) (old : String) (cpu : ℕ) (s : CpuFiles)
      → lookup cpu s.saved ≡ some old
      → IsKept j original s
      → IsKept j original (restore_one answers old cpu s).0
  unfolding restore_one
  restore_one-IsKept answers old cpu s held kept =
      elim (Bool-cases (not (answers.reads_saved cpu))) [
        | inl bad ↦ rw (bad, restore_one) kept
        | inr read ↦ elim (Bool-cases (not (answers.writes cpu))) [
          | inl bad ↦ rw (read, bad, restore_one) kept
          | inr written ↦ elim (Bool-cases (not (answers.removes cpu))) [
            | inl bad ↦ rw (read, written, bad, restore_one) (restored old cpu s held kept)
            | inr gone ↦ rw (read, written, gone, restore_one) (forgotten old cpu s held kept)
          ]
        ]
      ]

  pub restore_all-IsKept :
      (answers : FileAnswers) (cpus : List ℕ) (s : CpuFiles)
      → IsKept j original s
      → IsKept j original (restore_all answers cpus s).0
  unfolding restore_all
  restore_all-IsKept answers [] s kept = kept
  restore_all-IsKept answers (cpu ∷ cpus) s kept = elim (Option-cases (lookup cpu s.saved)) [
    | inl free ↦ rw (free, restore_all) kept
    | inr (old, held) ↦
        let next = restore_one answers old cpu s in
        let kept' = restore_one-IsKept answers old cpu s held kept in
        elim (Option-cases next.1) [
          | inl good ↦ rw (held, good, restore_all) (restore_all-IsKept answers cpus next.0 kept')
          | inr (e, bad) ↦ rw (held, bad, restore_all) kept'
        ]
  ]

  run_from-IsKept :
      (s : CpuFiles) (cs : List Call)
      → AllClean cs
      → IsKept j original s
      → IsKept j original (run s cs)
  unfolding run step
  run_from-IsKept s [] clean kept = kept
  run_from-IsKept s (sets supported answers v cpus ∷ cs) (clean, rest) kept =
      run_from-IsKept (set_all supported answers v cpus s).0 cs rest
        (set_all-IsKept supported answers v cpus s clean kept)
  run_from-IsKept s (restores answers cpus ∷ cs) rest kept =
      run_from-IsKept (restore_all answers cpus s).0 cs rest
        (restore_all-IsKept answers cpus s kept)

-- After any history of sets and restores of the settings of any CPUs, whatever file operations
-- failed, if no save that failed left a file, the value that a CPU had first is still there: it is the saved one, or nothing is saved
-- and the CPU has that value.
pub run-IsKept :
    (cpu : ℕ) (original : String) (s : CpuFiles) (cs : List Call)
    → AllClean cs
    → lookup cpu s.saved ≡ none
    → lookup cpu s.current ≡ some original
    → IsKept cpu original (run s cs)
run-IsKept cpu original s cs clean free here =
    run_from-IsKept cpu original s cs clean (inr (free, here))
