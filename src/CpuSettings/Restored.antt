-- ===== src/CpuSettings/Restored.antt =====
-- internal/runtimehandlerhooks/high_performance_hooks_linux.go: a restore gives the CPUs their values
-- back, and one that is repeated after a failure does not.
use cri_t.Prelude.{
  Option-cases, All, string_eq, nat_eq, ◌==◌, ==_iff, ==_refl, contains, ℕ, String, ◌≡◌, refl, sym,
  ap, ◌∙◌, inl, inr, true, false, none, some, List, [], ◌∷◌, arith,
}
use cri_t.Prelude.Maps.{lookup, delete, insert, lookup-delete, lookup-insert}
use mathlib.Core.Path.{subst}
use cri_t.CpuSettings.{
  CpuFiles, FileAnswers, write_failed, restore_one, restore_all, Call, AllClean, run,
}
use cri_t.CpuSettings.Kept.{IsKept, restore_all-IsKept, run-IsKept}

-- Every file operation on the CPU succeeds.
abbrev pub Answers : FileAnswers → ℕ → Type 0
Answers answers cpu =
    (answers.reads_saved cpu ≡ true) × (answers.writes cpu ≡ true) × (answers.removes cpu ≡ true)

abbrev restored_files : String → ℕ → CpuFiles → CpuFiles
restored_files original cpu s = record {
  current = insert cpu original s.current;
  saved = delete cpu s.saved;
}

restore_one-good :
    (answers : FileAnswers) (original : String) (cpu : ℕ) (s : CpuFiles)
    → Answers answers cpu
    → restore_one answers original cpu s ≡ (restored_files original cpu s, none)
unfolding restore_one
restore_one-good answers original cpu s (read, written, removed) =
    rw (read, written, removed, restore_one) refl

restore_one-unwritten :
    (answers : FileAnswers) (original : String) (cpu : ℕ) (s : CpuFiles)
    → answers.reads_saved cpu ≡ true
    → answers.writes cpu ≡ false
    → restore_one answers original cpu s ≡ (s, some write_failed)
unfolding restore_one
restore_one-unwritten answers original cpu s read bad = rw (read, bad, restore_one) refl

restore_all-next :
    (answers : FileAnswers) (original : String) (cpu : ℕ) (cpus : List ℕ) (s : CpuFiles)
    → Answers answers cpu
    → lookup cpu s.saved ≡ some original
    → restore_all answers (cpu ∷ cpus) s ≡ restore_all answers cpus (restored_files original cpu s)
unfolding restore_all
restore_all-next answers original cpu cpus s good held =
    let done = restore_one-good answers original cpu s good in
    rw (held, done, restore_all) (ap (λ r. restore_all answers cpus r.0) done)

-- A restore saves nothing.
restore_one-none :
    (answers : FileAnswers) (original : String) (cpu j : ℕ) (s : CpuFiles)
    → lookup j s.saved ≡ none
    → lookup j (restore_one answers original cpu s).0.saved ≡ none
unfolding restore_one
restore_one-none answers original cpu j s free = ground (arith, lookup-delete cpu j s.saved, free)

restore_all-none :
    (answers : FileAnswers) (cpus : List ℕ) (j : ℕ) (s : CpuFiles)
    → lookup j s.saved ≡ none
    → lookup j (restore_all answers cpus s).0.saved ≡ none
unfolding restore_all
restore_all-none answers [] j s free = free
restore_all-none answers (cpu ∷ cpus) j s free = elim (Option-cases (lookup cpu s.saved)) [
  | inl out ↦ rw (out, restore_all) free
  | inr (old, held) ↦
      let next = restore_one answers old cpu s in
      let still = restore_one-none answers old cpu j s free in
      elim (Option-cases next.1) [
        | inl good ↦ rw (held, good, restore_all) (restore_all-none answers cpus j next.0 still)
        | inr (e, bad) ↦ rw (held, bad, restore_all) still
      ]
]

abbrev pub Distinct : List ℕ → Type 0
Distinct [] = Unit
Distinct (cpu ∷ cpus) = (contains cpus cpu ≡ false) × Distinct cpus

abbrev pub IsSaved : CpuFiles → ℕ → Type 0
IsSaved s cpu = (original : String) × (lookup cpu s.saved ≡ some original)

abbrev IsFree : CpuFiles → ℕ → Type 0
IsFree s cpu = lookup cpu s.saved ≡ none

AllSaved-next :
    (original : String) (cpu : ℕ) (cpus : List ℕ) (s : CpuFiles)
    → contains cpus cpu ≡ false
    → All (IsSaved s) cpus
    → All (IsSaved (restored_files original cpu s)) cpus
AllSaved-next original cpu [] s new all = tt
AllSaved-next original cpu (j ∷ cpus) s new ((old, held), all) = (
  (old, ground (arith, lookup-delete cpu j s.saved, held, new, ==_iff j cpu, ==_iff cpu j)),
  AllSaved-next original cpu cpus s (ground (arith, new)) all,
)

restore_all-AllFree :
    (answers : FileAnswers) (cpus : List ℕ) (s : CpuFiles)
    → All (Answers answers) cpus
    → Distinct cpus
    → All (IsSaved s) cpus
    → All (IsFree (restore_all answers cpus s).0) cpus
restore_all-AllFree answers [] s good distinct all = tt
restore_all-AllFree answers (cpu ∷ cpus) s (fine, good) (new, distinct) ((old, held), all) =
    let s' = restored_files old cpu s in
    let same = restore_all-next answers old cpu cpus s fine held in
    subst (λ r. All (IsFree r.0) (cpu ∷ cpus)) (sym same)
      (
        restore_all-none answers cpus cpu s'
            (ground (arith, lookup-delete cpu cpu s.saved, ==_refl cpu)),
        restore_all-AllFree answers cpus s' good distinct (AllSaved-next old cpu cpus s new all),
      )

-- The CPU has the value of the first files, which had nothing saved for it.
abbrev pub Had : CpuFiles → ℕ → Type 0
Had s cpu =
    (lookup cpu s.saved ≡ none) × ((original : String) × (lookup cpu s.current ≡ some original))

AllRestored :
    (first now : CpuFiles) (cpus : List ℕ)
    → ((cpu : ℕ) (original : String)
        → lookup cpu first.saved ≡ none
        → lookup cpu first.current ≡ some original
        → IsKept cpu original now)
    → All (Had first) cpus
    → All (IsFree now) cpus
    → All (λ cpu. lookup cpu now.current ≡ lookup cpu first.current) cpus
AllRestored first now [] kept had free = tt
AllRestored first now (cpu ∷ cpus) kept ((out, (original, here)), had) (gone, free) = (
  elim (kept cpu original out here) [
    | inl held ↦ absurd (ground (arith, held, gone))
    | inr (none_saved, back) ↦ back ∙ sym here
  ],
  AllRestored first now cpus kept had free,
)

-- If nothing was saved for some distinct CPUs, and after any history of sets and restores, of which no
-- save that failed left a file, there is a saved value for each of them, then a restore of them of which every file operation succeeds gives
-- each of them the value that it had first.
pub restore_all-restores :
    (answers : FileAnswers) (cpus : List ℕ) (s : CpuFiles) (cs : List Call)
    → AllClean cs
    → All (Had s) cpus
    → Distinct cpus
    → All (Answers answers) cpus
    → All (IsSaved (run s cs)) cpus
    → let after = (restore_all answers cpus (run s cs)).0 in
      All (λ cpu. lookup cpu after.current ≡ lookup cpu s.current) cpus
restore_all-restores answers cpus s cs clean had distinct good all =
    let later = run s cs in
    AllRestored s (restore_all answers cpus later).0 cpus
      (λ cpu original out here.
        restore_all-IsKept cpu original answers cpus later
          (run-IsKept cpu original s cs clean out here))
      had (restore_all-AllFree answers cpus later good distinct all)

-- A restore whose write fails changes nothing,
stops :
    (answers : FileAnswers) (cpu : ℕ) (cpus : List ℕ) (s : CpuFiles) (original : String)
    → lookup cpu s.saved ≡ some original
    → answers.reads_saved cpu ≡ true
    → answers.writes cpu ≡ false
    → restore_all answers (cpu ∷ cpus) s ≡ (s, some write_failed)
unfolding restore_all
stops answers cpu cpus s original held read bad =
    let failed = restore_one-unwritten answers original cpu s read bad in
    rw (held, failed, restore_all) (ap (λ r. (r.0, some write_failed)) failed)

-- and so does one whose first CPU has nothing saved.
idle :
    (answers : FileAnswers) (cpu : ℕ) (cpus : List ℕ) (s : CpuFiles)
    → lookup cpu s.saved ≡ none
    → restore_all answers (cpu ∷ cpus) s ≡ (s, none)
unfolding restore_all
idle answers cpu cpus s free = rw (free, restore_all) refl

-- If a restore of several CPUs gives the first its value back and then fails to write the file of the
-- second, every later restore of these CPUs reports success and changes nothing: the second CPU keeps
-- the value that was set, and its own stays saved.
pub restore_all-again :
    (answers answers' : FileAnswers) (a b : ℕ) (cpus : List ℕ) (s : CpuFiles) (x y : String)
    → (a == b) ≡ false
    → lookup a s.saved ≡ some x
    → lookup b s.saved ≡ some y
    → Answers answers a
    → answers.reads_saved b ≡ true
    → answers.writes b ≡ false
    → let first = restore_all answers (a ∷ b ∷ cpus) s in
      let second = restore_all answers' (a ∷ b ∷ cpus) first.0 in
      (first.1 ≡ some write_failed)
      × (second ≡ (first.0, none))
      × (lookup b second.0.saved ≡ some y)
      × (lookup b second.0.current ≡ lookup b s.current)
restore_all-again answers answers' a b cpus s x y other here there good read bad =
    let s' = restored_files x a s in
    let same : restore_all answers (a ∷ b ∷ cpus) s ≡ (s', some write_failed) =
      restore_all-next answers x a (b ∷ cpus) s good here
      ∙ stops answers b cpus s' y (ground (arith, lookup-delete a b s.saved, other, there)) read
          bad in
    rw (same, idle answers' a (b ∷ cpus) s' (ground (arith, lookup-delete a a s.saved, ==_refl a)))
      (
        refl,
        refl,
        ground (arith, lookup-delete a b s.saved, other, there),
        ground (arith, lookup-insert a b x s.current, other),
      )
