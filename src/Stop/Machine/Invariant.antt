-- ===== src/Stop/Machine/Invariant.antt =====
-- What holds of the stop machine after any moves.
use cri_t.Prelude.Maps.{Map, delete, insert}
use cri_t.Prelude.{
  Bool-cases, is_some, length, All, length-append, nat_eq, string_eq, contains, ℕ, ◌≤◌, ◌<◌, ◌≡◌,
  refl, ap, inl, inr, Bool, true, false, ◌&&◌, ◌||◌, Option, none, some, List, [], ◌∷◌, ◌++◌, arith,
}
use cri_t.Stop.{
  timeout_capacity, StopState, set_as_stopping, wait_on_stop_timeout, receive_timeout,
  set_as_done_stopping, add_exec_pid, delete_exec_pid,
}
use cri_t.Stop.Machine.{
  Loop, not_started, selecting_loop, killing, finished, System, initial, Move, marks, enters,
  gives_up, receives, times_out, ends, execs, exec_ends, without, mark, enter, unblock, receive,
  end_loop, on_loop, act, needs_lock, step, run,
}

abbrev pub is_started : Loop → Bool
is_started not_started = false
is_started _ = true

abbrev pub is_finished : Loop → Bool
is_finished finished = true
is_finished _ = false

-- Every caller of the list has a watcher in one of the others.
abbrev pub Watched : List ℕ → StopState → Type 0
Watched waiting t = All (λ i. (contains t.watchers i || contains t.released i) ≡ true) waiting

pub record IsValid (s : System) : Type 0 where
  pub started : s.stop.stopping ≡ is_started s.loop
  pub closing : s.stop.closed ≡ is_finished s.loop
  pub capped : length s.stop.timeouts ≤ timeout_capacity
  pub blocked : is_some s.stuck ≡ true → is_finished s.loop ≡ false
  pub safe : s.crashed ≡ true → is_finished s.loop ≡ true
  pub all_watched : Watched s.waiting s.stop
  pub drained : is_finished s.loop ≡ true → s.stop.watchers ≡ []

initial-IsValid : IsValid initial
unfolding initial
initial-IsValid = ground arith

contains-append :
    (xs ys : List ℕ) (i : ℕ) → contains (xs ++ ys) i ≡ (contains xs i || contains ys i)
contains-append [] ys i = refl
contains-append (x ∷ xs) ys i = ground (arith, contains-append xs ys i)

Watched-append :
    (waiting : List ℕ) (t : StopState) (ts ws : List ℕ)
    → Watched waiting t
    → Watched waiting (record t { timeouts = ts; watchers = t.watchers ++ ws })
Watched-append [] t ts ws h = tt
Watched-append (i ∷ is) t ts ws h =
    ground (arith, Watched-append is t ts ws h.1, contains-append t.watchers ws i)

Watched-done :
    (waiting : List ℕ) (t : StopState)
    → Watched waiting t
    → Watched waiting
        (record t { released = t.released ++ t.watchers; watchers = []; closed = true })
Watched-done [] t h = tt
Watched-done (i ∷ is) t h =
    ground (arith, Watched-done is t h.1, contains-append t.released t.watchers i)

Watched-same :
    (waiting : List ℕ) (t u : StopState)
    → t.watchers ≡ u.watchers
    → t.released ≡ u.released
    → Watched waiting t
    → Watched waiting u
Watched-same [] t u p q h = tt
Watched-same (i ∷ is) t u p q h = ground (arith, Watched-same is t u p q h.1)

Watched-without :
    (i : ℕ) (waiting : List ℕ) (t : StopState) → Watched waiting t → Watched (without i waiting) t
unfolding without
Watched-without i [] t h = tt
Watched-without i (j ∷ js) t h = ground (arith, Watched-without i js t h.1)

mark-IsValid : (i : ℕ) (s : System) → IsValid s → IsValid (mark i s)
unfolding mark set_as_stopping
mark-IsValid i s v =
    ground (arith, Watched-same s.waiting s.stop (record s.stop { stopping = true }) refl refl)

enter-IsValid :
    (i timeout : ℕ) (s : System) → IsValid s → s.stuck ≡ none → IsValid (enter i timeout s)
unfolding enter wait_on_stop_timeout
enter-IsValid i timeout s v free = ground (
  arith,
  length-append {0} s.stop.timeouts (timeout ∷ []),
  Watched-append s.waiting s.stop (s.stop.timeouts ++ timeout ∷ []) (i ∷ []),
  contains-append s.stop.watchers (i ∷ []) i,
)

unblock-IsValid :
    (held : Option (ℕ × ℕ)) (s : System)
    → IsValid s
    → is_finished s.loop ≡ false
    → length s.stop.timeouts < timeout_capacity
    → IsValid (unblock held s)
unfolding unblock
unblock-IsValid none s v l room = v
unblock-IsValid (some (i, t)) s v l room = ground (
  arith,
  length-append {0} s.stop.timeouts (t ∷ []),
  Watched-append s.waiting s.stop (s.stop.timeouts ++ t ∷ []) (i ∷ []),
  contains-append s.stop.watchers (i ∷ []) i,
)

receive_none : (s : System) → s.stop.timeouts ≡ [] → receive s ≡ s
unfolding receive receive_timeout
receive_none s e = ground arith

receive_some :
    (s : System) (t : ℕ) (rest : List ℕ)
    → s.stop.timeouts ≡ t ∷ rest
    → receive s ≡ unblock s.stuck (record s { stop = record s.stop { timeouts = rest } })
unfolding receive receive_timeout
receive_some s t rest e = ground arith

receive-IsValid :
    (s : System) (ts : List ℕ)
    → s.stop.timeouts ≡ ts
    → IsValid s
    → is_finished s.loop ≡ false
    → IsValid (receive s)
receive-IsValid s [] e v l = rw (receive_none s e) v
receive-IsValid s (t ∷ rest) e v l = rw (receive_some s t rest e) (
    unblock-IsValid s.stuck (record s { stop = record s.stop { timeouts = rest } })
      (ground (
        arith,
        Watched-same s.waiting s.stop (record s.stop { timeouts = rest }) refl refl,
        ap (length {0}) e,
      ))
      l (omega (arith, v.capped, ap (length {0}) e)))

end_loop-IsValid :
    (s : System) → IsValid s → s.stuck ≡ none → is_started s.loop ≡ true → IsValid (end_loop s)
unfolding end_loop set_as_done_stopping
end_loop-IsValid s v free l = ground (arith, Watched-done s.waiting s.stop)

execs-IsValid :
    (s : System) (pids : Map ℕ Bool)
    → IsValid s
    → IsValid (record s { stop = record s.stop { exec_pids = pids } })
execs-IsValid s pids v =
    ground (arith, Watched-same s.waiting s.stop (record s.stop { exec_pids = pids }) refl refl)

on_loop-IsValid :
    (l : Loop) (m : Move) (s : System)
    → s.loop ≡ l
    → (needs_lock m ≡ true → s.stuck ≡ none)
    → IsValid s
    → IsValid (on_loop l m s)
on_loop-IsValid selecting_loop receives s e free v =
    receive-IsValid s s.stop.timeouts refl v (ground arith)
on_loop-IsValid selecting_loop times_out s e free v = ground arith
on_loop-IsValid selecting_loop ends s e free v = end_loop-IsValid s v (free refl) (ground arith)
on_loop-IsValid killing ends s e free v = end_loop-IsValid s v (free refl) (ground arith)
on_loop-IsValid _ _ s e free v = v

act-IsValid :
    (m : Move) (s : System) → (needs_lock m ≡ true → s.stuck ≡ none) → IsValid s → IsValid (act m s)
unfolding add_exec_pid delete_exec_pid
act-IsValid (marks i) s free v = mark-IsValid i s v
act-IsValid (enters i timeout) s free v = ground (arith, enter-IsValid i timeout s v (free refl))
act-IsValid (execs pid kill) s free v =
    ground (arith, execs-IsValid s (insert pid kill s.stop.exec_pids) v)
act-IsValid (exec_ends pid) s free v = execs-IsValid s (delete pid s.stop.exec_pids) v
act-IsValid (gives_up i) s free v = ground (arith, Watched-without i s.waiting s.stop)
act-IsValid receives s free v = on_loop-IsValid s.loop receives s refl free v
act-IsValid times_out s free v = on_loop-IsValid s.loop times_out s refl free v
act-IsValid ends s free v = on_loop-IsValid s.loop ends s refl free v

step-IsValid : (s : System) (m : Move) → IsValid s → IsValid (step s m)
unfolding step
step-IsValid s m v = elim (Bool-cases (s.crashed || is_some s.stuck && needs_lock m)) [
  | inl idle ↦ rw idle v
  | inr moves ↦ rw moves (act-IsValid m s (λ lock. ground arith) v)
]

run-IsValid : (s : System) (ms : List Move) → IsValid s → IsValid (run s ms)
unfolding run
run-IsValid s [] v = v
run-IsValid s (m ∷ ms) v = run-IsValid (step s m) ms (step-IsValid s m v)

-- After any moves of any callers and the loop: the container is marked as stopping exactly if the
-- loop has been started, whether it is over or not, the timeout channel is closed exactly if the loop is over, every waiting caller has a
-- watcher, open or closed, and the daemon can have panicked only if the loop is over.
pub run-initial-IsValid : (ms : List Move) → IsValid (run initial ms)
run-initial-IsValid ms = run-IsValid initial ms initial-IsValid
