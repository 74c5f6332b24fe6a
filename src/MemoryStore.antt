-- ===== src/MemoryStore.antt =====
-- internal/memorystore: a store of values by ID, listed by their time of creation. `created_at` is
-- the method of the values. A store is the map in the order in which its Range meets the entries,
-- which is open; sort.Sort is an insertion sort, whose order of equal times is as open.
pub mod Listing
mod Examples
use cri_t.Prelude.{
  ltb, if◌then◌else◌, string_eq, nat_eq, ℕ, ◌+◌, String, Bool, true, Option, none, some, List, [],
  ◌∷◌,
}
use cri_t.Prelude.Maps.{Map, lookup, delete, insert}

module _ {T : Type 0} where
  -- Add, Get and Delete
  unfoldable pub store_add : String → T → Map String T → Map String T
  store_add id value m = insert id value m

  unfoldable pub store_get : String → Map String T → Option T
  store_get id m = lookup id m

  unfoldable pub store_delete : String → Map String T → Map String T
  store_delete id m = delete id m

  unfoldable pub all : Map String T → List T
  all [] = []
  all ((id, v) ∷ m) = v ∷ all m

  unfoldable pub size : Map String T → ℕ
  size [] = 0
  size (x ∷ m) = size m + 1

  -- A nil filter takes the first value.
  abbrev pub passes : Option (T → Bool) → T → Bool
  passes none v = true
  passes (some f) v = f v

  pub first_of : Option (T → Bool) → List T → Option T
  first_of f [] = none
  first_of f (v ∷ vs) = if passes f v then some v else first_of f vs

  unfoldable pub first : Option (T → Bool) → Map String T → Option T
  unfolding all first_of
  first f m = first_of f (all m)

module _ {T : Type 0} (created_at : T → ℕ) where
  -- Less: the second value was created before the first.
  abbrev pub less : T → T → Bool
  less a b = ltb (created_at b) (created_at a)

  pub place : T → List T → List T
  place v [] = v ∷ []
  place v (w ∷ ws) = let rest = place v ws in if less w v then w ∷ rest else v ∷ w ∷ ws

  pub sort : List T → List T
  unfolding place
  sort [] = []
  sort (v ∷ vs) = place v (sort vs)

  unfoldable pub list : Map String T → List T
  unfolding all sort
  list m = sort (all m)
