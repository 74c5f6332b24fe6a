-- ===== src/ResourceStore/Cleaner.antt =====
-- internal/resourcestore/resourcecleaner.go: what undoes a half-made resource. A cleanup function
-- reads and changes the world `W` and returns nil or an error `E`. `wait.ExponentialBackoff` of
-- k8s.io/apimachinery is a parameter, and so is the text that wraps its error.
use mathlib.Core.List.{reverse, reverse-cons, map-append, append_assoc, append-nil}
use cri_t.Prelude.{
  is_some, nat_eq, string_eq, Result, ok, ℕ, zero, suc, ◌<◌, ◌≡◌, refl, ◌∙◌, Bool, true, false, not,
  Option, none, some, List, [], ◌∷◌, ◌++◌, map, arith,
}

-- func() error
abbrev pub Func : Type 0 → Type 0 → Type 0
Func W E = W → Option E × W

-- wait.ExponentialBackoff(Backoff{Steps: n}, condition); the sleeps change nothing that is modelled.
abbrev pub BackoffFunc : Type 0 → Type 0 → Type 0
BackoffFunc W E = ℕ → (W → Result E Bool × W) → Func W E

-- What its documentation says: the condition is checked at most `Steps` times, the first time that
-- it returns true or an error ends the wait, and the wait fails with ErrWaitTimeout otherwise.
pub record IsBackoff {W E : Type 0} (backoff : BackoffFunc W E) (timeout : E) : Type 0 where
  pub done :
      (n : ℕ) (condition : W → Result E Bool × W) (w : W)
      → (condition w).0 ≡ ok true
      → backoff (suc n) condition w ≡ (none, (condition w).1)
  pub again :
      (n : ℕ) (condition : W → Result E Bool × W) (w : W)
      → (condition w).0 ≡ ok false
      → backoff (suc (suc n)) condition w ≡ backoff (suc n) condition (condition w).1
  pub last :
      (condition : W → Result E Bool × W) (w : W)
      → (condition w).0 ≡ ok false
      → backoff 1 condition w ≡ (some timeout, (condition w).1)

pub record ResourceCleaner (W E : Type 0) : Type 0 where
  pub funcs : List (Func W E)

-- resourcecleaner_defaults.go
abbrev pub default_retry_times : ℕ
default_retry_times = 20

unfoldable pub new_resource_cleaner : {W E : Type 0} → ResourceCleaner W E
new_resource_cleaner = record { funcs = [] }

-- The closure that retry hands to the backoff: an error of `fn` means "not yet".
pub attempt : {W E : Type 0} → Func W E → W → Result E Bool × W
attempt fn w = let (failure, w') = fn w in (ok (not (is_some failure)), w')

pub run_funcs : {W E : Type 0} → List (Func W E) → Func W E
run_funcs [] w = (none, w)
run_funcs (f ∷ fs) w =
    let (failure, w') = f w in
    let rest = run_funcs fs w' in elim failure [ none ↦ rest | some e ↦ (some e, w') ]

unfoldable pub cleanup : {W E : Type 0} → ResourceCleaner W E → Func W E
unfolding run_funcs
cleanup r = run_funcs r.funcs

module _ {W E : Type 0} (backoff : BackoffFunc W E) (wait_on_retry : E → E) where
  wrap : Option E × W → Option E × W
  wrap (none, w) = (none, w)
  wrap (some e, w) = (some (wait_on_retry e), w)

  unfoldable pub retry : Func W E → Func W E
  unfolding wrap attempt
  retry fn w = wrap (backoff default_retry_times (attempt fn) w)

  unfoldable pub add : ResourceCleaner W E → Func W E → ResourceCleaner W E
  add r fn = record { funcs = retry fn ∷ r.funcs }

  unfoldable pub add_all : ResourceCleaner W E → List (Func W E) → ResourceCleaner W E
  add_all r [] = r
  add_all r (fn ∷ fns) = add_all (add r fn) fns

-- The world after `fn` ran `n` times.
abbrev pub runs : {W E : Type 0} → ℕ → Func W E → W → W
runs zero fn w = w
runs (suc n) fn w = runs n fn (fn w).1

-- The first `n` runs of `fn` return errors.
abbrev pub Fails : {W E : Type 0} → ℕ → Func W E → W → Type 0
Fails zero fn w = Unit
Fails (suc n) fn w = (is_some (fn w).0 ≡ true) × Fails n fn (fn w).1

module _ {W E : Type 0} (backoff : BackoffFunc W E) (wait_on_retry : E → E) (timeout : E)
    (law : IsBackoff backoff timeout) (fn : Func W E) where
  backoff_succeeds :
      (k n : ℕ) (w : W)
      → k < n
      → Fails k fn w
      → (fn (runs k fn w)).0 ≡ none
      → backoff n (attempt fn) w ≡ (none, runs (suc k) fn w)
  unfolding attempt
  backoff_succeeds k zero w h f s = absurd (omega arith)
  backoff_succeeds zero (suc n) w h f s = law.done n (attempt fn) w (ground arith)
  backoff_succeeds (suc k) (suc zero) w h f s = absurd (omega arith)
  backoff_succeeds (suc k) (suc (suc n)) w h f s =
      law.again n (attempt fn) w (ground arith)
      ∙ backoff_succeeds k (suc n) (fn w).1 (omega arith) f.1 s

  backoff-Fails :
      (n : ℕ) (w : W)
      → Fails (suc n) fn w
      → backoff (suc n) (attempt fn) w ≡ (some timeout, runs (suc n) fn w)
  unfolding attempt
  backoff-Fails zero w f = law.last (attempt fn) w (ground arith)
  backoff-Fails (suc n) w f =
      law.again n (attempt fn) w (ground arith) ∙ backoff-Fails n (fn w).1 f.1

  -- If the first k runs of a cleanup function fail, k below 20, and the next succeeds, the retried
  -- function returns nil and has run it exactly k + 1 times.
  pub retry_succeeds :
      (k : ℕ) (w : W)
      → k < default_retry_times
      → Fails k fn w
      → (fn (runs k fn w)).0 ≡ none
      → retry backoff wait_on_retry fn w ≡ (none, runs (suc k) fn w)
  unfolding retry
  retry_succeeds k w h f s = rw (backoff_succeeds k default_retry_times w h f s)

  -- If its first 20 runs fail, the retried function has run it exactly 20 times and returns the
  -- error of the wait.
  pub retry_gives_up :
      (w : W)
      → Fails default_retry_times fn w
      → retry backoff wait_on_retry fn w
        ≡ (some (wait_on_retry timeout), runs default_retry_times fn w)
  unfolding retry
  retry_gives_up w f = rw (backoff-Fails 19 w f)

module _ {W E : Type 0} (backoff : BackoffFunc W E) (wait_on_retry : E → E) where
  funcs-add_all :
      (r : ResourceCleaner W E) (fns : List (Func W E))
      → (add_all backoff wait_on_retry r fns).funcs
        ≡ map (retry backoff wait_on_retry) (reverse fns) ++ r.funcs
  unfolding add_all add
  funcs-add_all r [] = refl
  funcs-add_all r (fn ∷ fns) =
      rw (reverse-cons fn fns, map-append (retry backoff wait_on_retry) (reverse fns) (fn ∷ []))
        (rw append_assoc (funcs-add_all (add backoff wait_on_retry r fn) fns))

  -- A cleaner runs its functions, each with its retries, in the opposite of the order in which they
  -- were added, up to the first that returns an error.
  pub cleanup-add_all :
      (fns : List (Func W E))
      → cleanup (add_all backoff wait_on_retry new_resource_cleaner fns)
        ≡ run_funcs (map (retry backoff wait_on_retry) (reverse fns))
  unfolding cleanup new_resource_cleaner
  cleanup-add_all fns = rw (funcs-add_all (record { funcs = [] }) fns, append-nil)
