-- ===== src/CniManager/Quiet.antt =====
-- internal/config/cnimgr/cnimgr.go: that the poll never finds a channel full.
use cri_t.Prelude.{
  Bool-cases, Option-cases, All, string_eq, nat_eq, ℕ, zero, suc, ◌≡◌, refl, inl, inr, Bool, true,
  false, Option, none, some, List, [], ◌∷◌, ◌++◌, arith,
}
use mathlib.Core.Path.{subst}
use cri_t.CniManager.{
  CniManager, send_all, received, new_manager, do_gc, poll_func, add_watcher, shut_down, gc, Event,
  polls, adds, shuts_down, collects, receives, step, run,
}

abbrev pub IsEmpty : List Bool → Type 0
IsEmpty [] = Unit
IsEmpty (v ∷ waiting) = ⊥

send_all-AllEmpty :
    (v : Bool) (ws : List (List Bool))
    → All IsEmpty ws
    → (sent : List (List Bool)) × (send_all v ws ≡ some sent)
unfolding send_all
send_all-AllEmpty v [] h = ([], refl)
send_all-AllEmpty v ([] ∷ ws) (e, h) =
    let (sent, works) = send_all-AllEmpty v ws h in ((v ∷ []) ∷ sent, rw (works, send_all) refl)
send_all-AllEmpty v ((u ∷ w) ∷ ws) (e, h) = absurd e

append-AllEmpty : (ws : List (List Bool)) → All IsEmpty ws → All IsEmpty (ws ++ [] ∷ [])
append-AllEmpty [] h = (tt, tt)
append-AllEmpty (w ∷ ws) (e, h) = (e, append-AllEmpty ws h)

received-AllEmpty : (i : ℕ) (ws : List (List Bool)) → All IsEmpty ws → All IsEmpty (received i ws)
unfolding received
received-AllEmpty i [] h = tt
received-AllEmpty zero ([] ∷ ws) h = h
received-AllEmpty zero ((v ∷ w) ∷ ws) (e, h) = absurd e
received-AllEmpty (suc i) (w ∷ ws) (e, h) = (e, received-AllEmpty i ws h)

module _ {E : Type 0} where
  -- While the goroutine polls and nobody has shut the manager down, no value waits.
  abbrev pub IsQuiet : CniManager E → Type 0
  IsQuiet c = c.polling ≡ true → c.shutdown ≡ false → All IsEmpty c.watchers

  abbrev QuietOut : Option (CniManager E) → Type 0
  QuietOut none = Unit
  QuietOut (some c) = IsQuiet c

  -- GC changes neither the watchers nor the goroutine.
  gc-parts :
      (lists : Bool) (c : CniManager E)
      → ((gc lists c).watchers ≡ c.watchers)
        × ((gc lists c).polling ≡ c.polling)
        × ((gc lists c).shutdown ≡ c.shutdown)
  unfolding gc do_gc
  gc-parts lists c = (ground arith, ground arith, ground arith)

  poll_func-QuietOut :
      (status : Option E) (lists : Bool) (c : CniManager E)
      → IsQuiet c
      → QuietOut (poll_func status lists c)
  unfolding poll_func do_gc
  poll_func-QuietOut status lists c quiet = elim (Bool-cases c.shutdown) [
    | inl down ↦ rw (down, poll_func) (λ p s. absurd (ground (arith, p)))
    | inr up ↦ elim (Option-cases status) [
      | inr (e, bad) ↦ rw (up, bad, poll_func) (λ p s. quiet p up)
      | inl ready ↦ elim (Option-cases (send_all true c.watchers)) [
        | inl full ↦ rw (up, ready, full, poll_func) tt
        | inr (sent, works) ↦ rw (up, ready, works, poll_func) (λ p s. absurd (ground (arith, p)))
      ]
    ]
  ]

  shut_down-QuietOut : (c : CniManager E) → QuietOut (shut_down c)
  unfolding shut_down
  shut_down-QuietOut c = elim (Option-cases (send_all false c.watchers)) [
    | inl full ↦ rw (full, shut_down) tt
    | inr (sent, works) ↦ rw (works, shut_down) (λ p s. absurd (ground (arith, s)))
  ]

  step-QuietOut : (c : CniManager E) (e : Event E) → IsQuiet c → QuietOut (step c e)
  unfolding step add_watcher shut_down
  step-QuietOut c (polls status lists) quiet = elim (Bool-cases c.polling) [
    | inl on ↦ rw (on, step) (poll_func-QuietOut status lists c quiet)
    | inr off ↦ rw (off, step) (λ p s. absurd (ground (arith, p)))
  ]
  step-QuietOut c adds quiet = λ p s. append-AllEmpty c.watchers (quiet p s)
  step-QuietOut c shuts_down quiet = shut_down-QuietOut c
  step-QuietOut c (collects lists) quiet =
      let (same, polling, shutdown) = gc-parts lists c in rw (same, polling, shutdown) quiet
  step-QuietOut c (receives i) quiet = λ p s. received-AllEmpty i c.watchers (quiet p s)

  pub run-IsQuiet :
      (c d : CniManager E) (es : List (Event E)) → IsQuiet c → run c es ≡ some d → IsQuiet d
  unfolding run
  run-IsQuiet c d [] quiet = λ done. subst QuietOut done quiet
  run-IsQuiet c d (e ∷ es) quiet = elim (Option-cases (step c e)) [
    | inl stuck ↦ rw (stuck, run) (λ done. absurd (ground (arith, done)))
    | inr (c', next) ↦
        rw (next, run) (run-IsQuiet c' d es (subst QuietOut next (step-QuietOut c e quiet)))
  ]

  -- After any history from a new manager, as long as the goroutine polls and nobody has shut the
  -- manager down, neither pollFunc nor Shutdown finds the channel of a watcher full.
  pub run-send_all :
      (error : E) (es : List (Event E)) (c : CniManager E) (status : Option E) (lists : Bool)
      → run (new_manager error) es ≡ some c
      → c.polling ≡ true
      → c.shutdown ≡ false
      → ((c' : CniManager E) × (poll_func status lists c ≡ some c'))
        × ((c' : CniManager E) × (shut_down c ≡ some c'))
  unfolding new_manager poll_func shut_down
  run-send_all error es c status lists done on up =
      let empty = run-IsQuiet (new_manager error) c es (λ p s. tt) done on up in
      let (sent, works) = send_all-AllEmpty true c.watchers empty in
      let (told, fine) = send_all-AllEmpty false c.watchers empty in
      (
        elim (Option-cases status) [
          | inr (e, bad) ↦ rw (up, bad, poll_func) (record c { last_error = some e }, refl)
          | inl ready ↦
              rw (up, ready, works, poll_func)
                (
                  record (do_gc lists c) { last_error = none; watchers = sent; polling = false },
                  refl,
                )
        ],
        (record c { shutdown = true; watchers = told }, rw (fine, shut_down) refl),
      )
