-- ===== src/MemoryStore/Listing.antt =====
-- internal/memorystore: List gives every value once, latest first, and First finds what passes.
use cri_t.Prelude.{
  if◌then◌else◌, Bool-cases, All, string_eq, nat_eq, ℕ, ◌+◌, ◌≤◌, ◌<◌, String, ◌≡◌, refl, ◌⊎◌, inl,
  inr, Bool, true, Option, none, some, List, [], ◌∷◌, arith,
}
use cri_t.Prelude.Maps.{Map}
use cri_t.MemoryStore.{all, passes, first_of, first, less, place, sort, list}

module _ {T : Type 0} where
  -- How many values pass a test: two lists agree on every test when they hold the same values.
  unfoldable pub tally : (T → Bool) → List T → ℕ
  tally p [] = 0
  tally p (v ∷ vs) = let rest = tally p vs in if p v then rest + 1 else rest

module _ {T : Type 0} (created_at : T → ℕ) where
  -- Each value was created no later than those before it.
  abbrev pub IsSorted : List T → Type 0
  IsSorted [] = Unit
  IsSorted (v ∷ vs) = All (λ w. created_at w ≤ created_at v) vs × IsSorted vs

  place-All :
      (n : ℕ) (v : T) (ws : List T)
      → created_at v ≤ n
      → All (λ w. created_at w ≤ n) ws
      → All (λ w. created_at w ≤ n) (place created_at v ws)
  unfolding place
  place-All n v [] le h = (le, tt)
  place-All n v (w ∷ ws) le (p, h) = elim (Bool-cases (less created_at w v)) [
    | inl after ↦ rw after (p, place-All n v ws le h)
    | inr here ↦ rw here (le, (p, h))
  ]

  weaken-All :
      (n k : ℕ) (ws : List T)
      → n ≤ k
      → All (λ w. created_at w ≤ n) ws
      → All (λ w. created_at w ≤ k) ws
  weaken-All n k [] le h = tt
  weaken-All n k (w ∷ ws) le (p, h) = (omega (arith, le, p), weaken-All n k ws le h)

  place-IsSorted : (v : T) (ws : List T) → IsSorted ws → IsSorted (place created_at v ws)
  unfolding place
  place-IsSorted v [] h = (tt, tt)
  place-IsSorted v (w ∷ ws) (p, h) = elim (Bool-cases (less created_at w v)) [
    | inl after ↦ rw after (place-All (created_at w) v ws (ground arith) p, place-IsSorted v ws h)
    | inr here ↦
        let le : created_at w ≤ created_at v = ground arith in
        rw here ((le, weaken-All (created_at w) (created_at v) ws le p), (p, h))
  ]

  tally-place :
      (p : T → Bool) (v : T) (ws : List T) → tally p (place created_at v ws) ≡ tally p (v ∷ ws)
  unfolding place tally
  tally-place p v [] = refl
  tally-place p v (w ∷ ws) = ground (arith, tally-place p v ws)

  sort-IsSorted : (vs : List T) → IsSorted (sort created_at vs)
  unfolding sort
  sort-IsSorted [] = tt
  sort-IsSorted (v ∷ vs) = place-IsSorted v (sort created_at vs) (sort-IsSorted vs)

  tally-sort : (p : T → Bool) (vs : List T) → tally p (sort created_at vs) ≡ tally p vs
  unfolding sort tally
  tally-sort p [] = refl
  tally-sort p (v ∷ vs) = ground (arith, tally-place p v (sort created_at vs), tally-sort p vs)

  -- List is ordered, the latest creation first, and it loses and repeats nothing: for every test
  -- as many of its values pass as of the values in the store.
  pub list-IsSorted :
      (m : Map String T)
      → IsSorted (list created_at m)
        × ((p : T → Bool) → tally p (list created_at m) ≡ tally p (all m))
  unfolding list
  list-IsSorted m = (sort-IsSorted (all m), λ p. tally-sort p (all m))

module _ {T : Type 0} where
  first_of-lem :
      (f : Option (T → Bool)) (vs : List T)
      → ((first_of f vs ≡ none) × (tally (passes f) vs ≡ 0))
        ⊎ ((v : T) × (first_of f vs ≡ some v) × (passes f v ≡ true) × (0 < tally (passes f) vs))
  unfolding first_of tally
  first_of-lem f [] = inl (refl, refl)
  first_of-lem f (v ∷ vs) = elim (Bool-cases (passes f v)) [
    | inl hit ↦ inr (v, rw hit refl, hit, rw hit (ground arith))
    | inr miss ↦ rw miss (first_of-lem f vs)
  ]

  -- First returns a value that passes the filter, and returns nothing only if no value of the store
  -- passes; a nil filter passes every value.
  pub first-passes :
      (f : Option (T → Bool)) (m : Map String T)
      → ((first f m ≡ none) × (tally (passes f) (all m) ≡ 0))
        ⊎ ((v : T) × (first f m ≡ some v) × (passes f v ≡ true) × (0 < tally (passes f) (all m)))
  unfolding first
  first-passes f m = first_of-lem f (all m)
