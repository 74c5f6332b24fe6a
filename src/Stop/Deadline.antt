-- ===== src/Stop/Deadline.antt =====
-- The `select` loop of StopLoopForContainer: the time at which SIGKILL is sent.
use cri_t.Prelude.{
  ltb, leb, if◌then◌else◌, Bool-cases, nat_eq, string_eq, word, half_word, ℕ, ◌+◌, ◌-◌, ◌*◌, ◌%◌,
  ◌≤◌, ◌<◌, ◌≡◌, refl, ◌↔◌, ◌⊎◌, inl, inr, true, false, List, [], ◌∷◌, ◌++◌, arith,
}

-- time.Duration(t) * time.Second: an int64 product, which wraps.
unfoldable pub seconds : ℕ → ℕ
seconds t = (t * 1000000000) % word

-- time.Now().Add(time.Duration(t) * time.Second), with the sign of the duration. A time before the
-- epoch counts as the epoch.
unfoldable pub new_target_time : ℕ → ℕ → ℕ
new_target_time now t = let d = seconds t in if ltb d half_word then now + d else now - (word - d)

-- What the select takes at a time: a new timeout, the timer, the end of the process, an interrupt.
pub data LoopEvent : Type 0 where
  new_timeout : ℕ → ℕ → LoopEvent
  timer_fired : ℕ → LoopEvent
  process_done interrupted : LoopEvent

pub data LoopEnd : Type 0 where
  selecting : ℕ → LoopEnd
  kills : ℕ → LoopEnd
  done cancelled : LoopEnd

-- The timer of `time.After(time.Until(target))` is not ready before the target time; a reading of
-- the clock before it is no event of this loop, and the loop goes on.
unfoldable pub select_loop : ℕ → List LoopEvent → LoopEnd
select_loop target [] = selecting target
select_loop target (new_timeout now t ∷ rest) =
    select_loop (if ltb (new_target_time now t) target then new_target_time now t else target) rest
select_loop target (timer_fired now ∷ rest) = elim (leb target now) [
  | true ↦ kills now
  | false ↦ select_loop target rest
]
select_loop target (process_done ∷ rest) = done
select_loop target (interrupted ∷ rest) = cancelled

-- The deadlines that the events ask for, in nanoseconds.
abbrev pub deadlines : List LoopEvent → List ℕ
deadlines [] = []
deadlines (new_timeout now t ∷ rest) = (now + t * 1000000000) ∷ deadlines rest
deadlines (_ ∷ rest) = deadlines rest

-- No timeout has more nanoseconds than an int64 holds.
abbrev pub Fits : List LoopEvent → Type 0
Fits [] = Unit {0}
Fits (new_timeout now t ∷ rest) = (t * 1000000000 < half_word) × Fits rest
Fits (_ ∷ rest) = Fits rest

-- One of the times is reached.
abbrev pub Reached : ℕ → List ℕ → Type 0
Reached now [] = ⊥
Reached now (d ∷ ds) = (d ≤ now) ⊎ Reached now ds

new_target_time-fits :
    (now t : ℕ) → t * 1000000000 < half_word → new_target_time now t ≡ now + t * 1000000000
unfolding new_target_time seconds
new_target_time-fits now t small = ground arith

-- While the loop still selects, and if every timeout fits an int64 of nanoseconds, the timer at a
-- time makes it go on to kill exactly when this time has reached the target time it began with or
-- the deadline, in seconds from its arrival, of one of the timeouts that came in: SIGKILL is
-- neither early nor held back by a later timeout.
pub select_loop-kills :
    (events : List LoopEvent) (target last now : ℕ)
    → Fits events
    → select_loop target events ≡ selecting last
    → (select_loop target (events ++ timer_fired now ∷ []) ≡ kills now)
      ↔ Reached now (target ∷ deadlines events)
unfolding select_loop
select_loop-kills [] target last now fits h = elim (Bool-cases (leb target now)) [
  | inl fired ↦ rw (fired, select_loop) (λ e. inl (ground arith), λ e. refl)
  | inr early ↦ rw (early, select_loop) (λ e. absurd cc, λ e. absurd (ground arith))
]
select_loop-kills (new_timeout at t ∷ rest) target last now fits h =
    ground (arith, new_target_time-fits at t fits.0, select_loop-kills rest _ last now fits.1 h)
select_loop-kills (timer_fired at ∷ rest) target last now fits h =
    elim (Bool-cases (leb target at)) [
      | inl fired ↦ absurd (ground arith)
      | inr early ↦
          rw (early, select_loop) (select_loop-kills rest target last now fits (ground arith))
    ]
select_loop-kills (process_done ∷ rest) target last now fits h = absurd cc
select_loop-kills (interrupted ∷ rest) target last now fits h = absurd cc
