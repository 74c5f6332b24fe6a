-- ===== src/Stop/ExecPids.antt =====
-- Exec sessions: none is registered once the container is stopping, and KillExecPIDs signals what
-- is registered until nothing is left. What `syscall.Kill` answers, in each round, is an argument.
use native.Mathlib.Nat.{add-zero}
use cri_t.Prelude.{
  eqb, if◌then◌else◌, Option-cases, All, nat_eq, string_eq, ℕ, zero, suc, ◌+◌, ◌<◌, ◌≡◌, refl, inl,
  inr, Bool, true, false, Option, none, some, List, [], ◌∷◌, ◌++◌, arith,
}
use cri_t.Prelude.Maps.{Map}

pub data Signal : Type 0 where
  sigint sigkill : Signal

-- nil, ESRCH, or another error
pub data KillAnswer : Type 0 where
  delivered no_process refused : KillAnswer

abbrev pub Kill : Type 0
Kill = ℕ → Signal → KillAnswer

abbrev pub is_refused : KillAnswer → Bool
is_refused refused = true
is_refused _ = false

abbrev signal_for : Bool → Signal
signal_for should_kill = if should_kill then sigkill else sigint

-- One pass over toKill: the signals that are sent, and `unkilled`.
kill_round : Kill → Map ℕ Bool → List (ℕ × Signal) × Map ℕ Bool
kill_round kill [] = ([], [])
kill_round kill ((pid, should_kill) ∷ rest) =
    let sig = signal_for should_kill in
    let (sent, unkilled) = kill_round kill rest in
    if eqb pid 0 then (sent, unkilled) else (
      (pid, sig) ∷ sent,
      if is_refused (kill pid sig) then (pid, should_kill) ∷ unkilled else unkilled,
    )

-- The loop, with fuel; `none` means that the fuel ran out. The sleep between rounds is left out.
unfoldable pub kill_exec_pids : ℕ → (ℕ → Kill) → ℕ → Map ℕ Bool → Option (List (ℕ × Signal))
unfolding kill_round
kill_exec_pids fuel kill round [] = some []
kill_exec_pids zero kill round (p ∷ ps) = none
kill_exec_pids (suc fuel) kill round (p ∷ ps) =
    let (sent, unkilled) = kill_round (kill round) (p ∷ ps) in
    let rest = kill_exec_pids fuel kill (round + 1) unkilled in
    elim rest [ none ↦ none | some later ↦ some (sent ++ later) ]

-- No signal of the list goes to PID 0.
abbrev pub NonZero : List (ℕ × Signal) → Type 0
NonZero = All (λ x. 0 < x.0)

NonZero-append : (xs ys : List (ℕ × Signal)) → NonZero xs → NonZero ys → NonZero (xs ++ ys)
NonZero-append [] ys h g = g
NonZero-append (x ∷ xs) ys h g = (h.0, NonZero-append xs ys h.1 g)

kill_round-ne_zero : (kill : Kill) (m : Map ℕ Bool) → NonZero (kill_round kill m).0
unfolding kill_round
kill_round-ne_zero kill [] = tt
kill_round-ne_zero kill ((pid, k) ∷ m) = ground (arith, kill_round-ne_zero kill m)

-- The process group of the daemon is safe: whatever PIDs are registered, 0 included, and whatever
-- the kernel answers, no signal goes to PID 0.
pub kill_exec_pids-ne_zero :
    (fuel : ℕ) (kill : ℕ → Kill) (round : ℕ) (m : Map ℕ Bool) (sent : List (ℕ × Signal))
    → kill_exec_pids fuel kill round m ≡ some sent
    → NonZero sent
unfolding kill_exec_pids
kill_exec_pids-ne_zero fuel kill round [] sent h =
    let same : [] ≡ sent = ground arith in rw (← same) tt
kill_exec_pids-ne_zero zero kill round (p ∷ ps) sent h = cc
kill_exec_pids-ne_zero (suc fuel) kill round (p ∷ ps) sent h =
    let now = kill_round (kill round) (p ∷ ps) in
    elim (Option-cases (kill_exec_pids fuel kill (round + 1) now.1)) [
      | inl out ↦ ground arith
      | inr (later, e) ↦
          let same : now.0 ++ later ≡ sent = ground arith in
          rw (← same) (
            NonZero-append now.0 later (kill_round-ne_zero (kill round) (p ∷ ps))
              (kill_exec_pids-ne_zero fuel kill (round + 1) now.1 later e))
    ]

-- Every PID of the map that is not 0.
abbrev pub due : Map ℕ Bool → List (ℕ × Signal)
due [] = []
due ((pid, should_kill) ∷ m) =
    let rest = due m in
    if eqb pid 0 then rest else (pid, if should_kill then sigkill else sigint) ∷ rest

kill_round-due : (kill : Kill) (m : Map ℕ Bool) → (kill_round kill m).0 ≡ due m
unfolding kill_round
kill_round-due kill [] = refl
kill_round-due kill ((pid, k) ∷ m) = ground (arith, kill_round-due kill m)

kill_round-granted :
    (kill : Kill) (m : Map ℕ Bool)
    → ((pid : ℕ) (sig : Signal) → is_refused (kill pid sig) ≡ false)
    → (kill_round kill m).1 ≡ []
unfolding kill_round
kill_round-granted kill [] h = refl
kill_round-granted kill ((pid, k) ∷ m) h =
    ground (arith, kill_round-granted kill m h, h pid (signal_for k))

kill_exec_pids-next :
    (fuel : ℕ) (kill : ℕ → Kill) (round : ℕ) (p : ℕ × Bool) (ps : Map ℕ Bool)
    (later : List (ℕ × Signal))
    → kill_exec_pids fuel kill (round + 1) (kill_round (kill round) (p ∷ ps)).1 ≡ some later
    → kill_exec_pids (suc fuel) kill round (p ∷ ps) ≡ some (due (p ∷ ps) ++ later)
kill_exec_pids-next fuel kill round p ps later e =
    unfold kill_exec_pids in rw (← kill_round-due (kill round) (p ∷ ps)) (ground (arith, e))

next_round : (round n : ℕ) → round + suc n ≡ round + 1 + n
next_round round n = omega arith

-- The loop ends: if in its n-th round after the first the kernel delivers every signal, or no
-- longer knows the process, then n + 1 rounds are enough. What it sends begins with one signal to
-- each registered PID but 0, SIGKILL where `should_kill` is set and SIGINT elsewhere.
pub kill_exec_pids_total :
    (n : ℕ) (kill : ℕ → Kill) (round : ℕ) (m : Map ℕ Bool)
    → ((pid : ℕ) (sig : Signal) → is_refused (kill (round + n) pid sig) ≡ false)
    → (later : List (ℕ × Signal)) × (kill_exec_pids (suc n) kill round m ≡ some (due m ++ later))
kill_exec_pids_total n kill round [] h = ([], unfold kill_exec_pids in refl)
kill_exec_pids_total zero kill round (p ∷ ps) h = (
  [],
  kill_exec_pids-next zero kill round p ps [] (
      rw (kill_round-granted (kill round) (p ∷ ps) (rw add-zero at h))
        (unfold kill_exec_pids in refl)),
)
kill_exec_pids_total (suc n) kill round (p ∷ ps) h =
    let unkilled = (kill_round (kill round) (p ∷ ps)).1 in
    let (later, e) =
      kill_exec_pids_total n kill (round + 1) unkilled (rw (next_round round n) at h) in
    (due unkilled ++ later, kill_exec_pids-next (suc n) kill round p ps (due unkilled ++ later) e)
