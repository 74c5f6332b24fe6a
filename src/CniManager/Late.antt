-- ===== src/CniManager/Late.antt =====
-- internal/config/cnimgr/cnimgr.go: what happens after the plugin is ready.
use cri_t.Prelude.{
  Option-cases, length, get_elem?, string_eq, nat_eq, ℕ, zero, suc, ◌≡◌, refl, inl, inr, Bool, true,
  false, Option, none, some, List, [], ◌∷◌, ◌++◌, arith,
}
use mathlib.Core.Path.{subst}
use cri_t.CniManager.{
  CniManager, send_all, received, do_gc, poll_func, add_watcher, shut_down, gc, Event, polls, adds,
  shuts_down, collects, receives, step, run,
}

-- Where a value waits in a channel, nothing can be sent to all.
send_all-full :
    (v u : Bool) (i : ℕ) (waiting : List Bool) (ws : List (List Bool))
    → get_elem? ws i ≡ some (u ∷ waiting)
    → send_all v ws ≡ none
unfolding send_all
send_all-full v u i waiting [] here = absurd (ground (arith, here))
send_all-full v u zero waiting ([] ∷ ws) here = absurd (ground (arith, here))
send_all-full v u zero waiting ((x ∷ w) ∷ ws) here = refl
send_all-full v u (suc i) waiting ([] ∷ ws) here =
    rw (send_all-full v u i waiting ws here, send_all) refl
send_all-full v u (suc i) waiting ((x ∷ w) ∷ ws) here = refl

send_all-told :
    (v : Bool) (i : ℕ) (w : List Bool) (ws sent : List (List Bool))
    → get_elem? ws i ≡ some w
    → send_all v ws ≡ some sent
    → get_elem? sent i ≡ some (v ∷ [])
unfolding send_all
send_all-told v i w [] sent here = λ works. absurd (ground (arith, here))
send_all-told v i w ((x ∷ waiting) ∷ ws) sent here = λ works. absurd (ground (arith, works))
send_all-told v zero w ([] ∷ ws) sent here = elim (Option-cases (send_all v ws)) [
  | inl full ↦ rw (full, send_all) (λ works. absurd (ground (arith, works)))
  | inr (told, fine) ↦ rw (fine, send_all) (λ works. ground (arith, works))
]
send_all-told v (suc i) w ([] ∷ ws) sent here = elim (Option-cases (send_all v ws)) [
  | inl full ↦ rw (full, send_all) (λ works. absurd (ground (arith, works)))
  | inr (told, fine) ↦
      rw (fine, send_all) (λ works. ground (arith, works, send_all-told v i w ws told here fine))
]

get_elem?-append :
    {A : Type 0} (i : ℕ) (a b : A) (l : List A)
    → get_elem? l i ≡ some a
    → get_elem? (l ++ b ∷ []) i ≡ some a
get_elem?-append i a b [] here = absurd (ground (arith, here))
get_elem?-append zero a b (x ∷ l) here = here
get_elem?-append (suc i) a b (x ∷ l) here = get_elem?-append i a b l here

get_elem?-length : {A : Type 0} (a : A) (l : List A) → get_elem? (l ++ a ∷ []) (length l) ≡ some a
get_elem?-length a [] = refl
get_elem?-length a (x ∷ l) = get_elem?-length a l

get_elem?-received :
    (n i : ℕ) (ws : List (List Bool))
    → get_elem? ws n ≡ some []
    → get_elem? (received i ws) n ≡ some []
unfolding received
get_elem?-received n i [] here = here
get_elem?-received n zero ([] ∷ ws) here = here
get_elem?-received zero zero ((v ∷ w) ∷ ws) here = absurd (ground (arith, here))
get_elem?-received (suc n) zero ((v ∷ w) ∷ ws) here = here
get_elem?-received zero (suc i) (w ∷ ws) here = here
get_elem?-received (suc n) (suc i) (w ∷ ws) here = get_elem?-received n i ws here

module _ {E : Type 0} where
  -- If pollFunc finds the plugin ready while there is a watcher, and the watcher receives nothing
  -- before Shutdown, then Shutdown finds its channel full: it waits in the send and keeps the mutex.
  pub poll_func-shut_down :
      (lists : Bool) (c d : CniManager E) (i : ℕ) (w : List Bool)
      → c.shutdown ≡ false
      → get_elem? c.watchers i ≡ some w
      → poll_func none lists c ≡ some d
      → (get_elem? d.watchers i ≡ some (true ∷ [])) × (shut_down d ≡ none)
  unfolding poll_func shut_down
  poll_func-shut_down lists c d i w up here = elim (Option-cases (send_all true c.watchers)) [
    | inl full ↦ rw (up, full, poll_func) (λ works. absurd (ground (arith, works)))
    | inr (sent, fine) ↦
        rw (up, fine, poll_func)
          (λ works.
            let told = send_all-told true i w c.watchers sent here fine in
            let same : d.watchers ≡ sent = ground (arith, works) in
            (rw same told, rw (same, send_all-full false true i [] sent told, shut_down) refl))
  ]

  abbrev pub NoShutdown : List (Event E) → Type 0
  NoShutdown [] = Unit
  NoShutdown (shuts_down ∷ es) = ⊥
  NoShutdown (_ ∷ es) = NoShutdown es

  -- The goroutine is gone, and nothing waits for the watcher.
  abbrev Silent : ℕ → Option (CniManager E) → Type 0
  Silent n none = Unit
  Silent n (some c) = (c.polling ≡ false) × (get_elem? c.watchers n ≡ some [])

  gc-Silent :
      (n : ℕ) (lists : Bool) (c : CniManager E) → Silent n (some c) → Silent n (some (gc lists c))
  unfolding gc do_gc
  gc-Silent n lists c (off, here) = (ground (arith, off), ground (arith, here))

  step-Silent :
      (n : ℕ) (c : CniManager E) (e : Event E)
      → NoShutdown (e ∷ [])
      → Silent n (some c)
      → Silent n (step c e)
  unfolding step add_watcher
  step-Silent n c (polls status lists) open_still (off, here) = rw (off, step) (refl, here)
  step-Silent n c adds open_still (off, here) = (off, get_elem?-append n [] [] c.watchers here)
  step-Silent n c shuts_down open_still s = absurd open_still
  step-Silent n c (collects lists) open_still s = gc-Silent n lists c s
  step-Silent n c (receives i) open_still (off, here) =
      (off, get_elem?-received n i c.watchers here)

  NoShutdown-cons :
      (e : Event E) (es : List (Event E))
      → NoShutdown (e ∷ es)
      → NoShutdown (e ∷ []) × NoShutdown es
  NoShutdown-cons (polls status lists) es open_still = (tt, open_still)
  NoShutdown-cons adds es open_still = (tt, open_still)
  NoShutdown-cons shuts_down es open_still = absurd open_still
  NoShutdown-cons (collects lists) es open_still = (tt, open_still)
  NoShutdown-cons (receives i) es open_still = (tt, open_still)

  run-Silent :
      (n : ℕ) (c : CniManager E) (es : List (Event E))
      → NoShutdown es
      → Silent n (some c)
      → Silent n (run c es)
  unfolding run
  run-Silent n c [] open_still s = s
  run-Silent n c (e ∷ es) open_still s =
      let (first, rest) = NoShutdown-cons e es open_still in
      elim (Option-cases (step c e)) [
        | inl stuck ↦ rw (stuck, run) tt
        | inr (d, next) ↦
            rw (next, run)
              (run-Silent n d es rest (subst (Silent n) next (step-Silent n c e first s)))
      ]

  -- A watcher that is added after the goroutine has ended, as it does once the plugin is ready, is
  -- told nothing: whatever happens, short of a Shutdown, no value comes to its channel.
  pub add_watcher-late :
      (c d : CniManager E) (es : List (Event E))
      → c.polling ≡ false
      → NoShutdown es
      → run (add_watcher c) es ≡ some d
      → get_elem? d.watchers (length c.watchers) ≡ some []
  unfolding add_watcher
  add_watcher-late c d es off open_still done =
      (subst (Silent (length c.watchers)) done (
        run-Silent (length c.watchers) (add_watcher c) es open_still
          (off, get_elem?-length [] c.watchers))).1
