-- ===== src/Registrar/Indices.antt =====
-- Lists of names and the two maps of a registrar, one law for each helper.
use cri_t.Prelude.{
  if◌then◌else◌, string_eq, nat_eq, ◌==◌, ==_iff, contains, ℕ, suc, ◌+◌, ◌≤◌, String, ◌≡◌, refl,
  ◌≢◌, false, none, some, List, [], ◌∷◌, ◌++◌, arith,
}
use cri_t.Prelude.Maps.{Map, lookup, delete, insert, lookup-delete, lookup-insert}
use cri_t.Registrar.{listed, drop_first, unlist, prune, delete_names}

-- How often a name stands in a list.
abbrev pub count : String → List String → ℕ
count n [] = 0
count n (m ∷ ms) = let rest = count n ms in if m == n then suc rest else rest

pub count-absent : (l : List String) (n : String) → contains l n ≡ false → count n l ≡ 0
count-absent [] n h = refl
count-absent (x ∷ l) n h = ground (arith, count-absent l n)

count-zero : (l : List String) (n : String) → count n l ≡ 0 → contains l n ≡ false
count-zero [] n h = refl
count-zero (x ∷ l) n h = ground (arith, count-zero l n)

pub count-append_one :
    (l : List String) (n m : String) → count m (l ++ n ∷ []) ≡ count m l + count m (n ∷ [])
count-append_one [] n m = ground arith
count-append_one (x ∷ l) n m = ground (arith, count-append_one l n m)

pub append_one-ne-nil : (l : List String) (n : String) → l ++ n ∷ [] ≢ []
append_one-ne-nil [] n h = cc
append_one-ne-nil (x ∷ l) n h = cc

module _ (key k : String) (idx : Map String (List String)) where
  pub listed-insert :
      (l : List String) → listed k (insert key l idx) ≡ (if key == k then l else listed k idx)
  listed-insert l = ground (arith, lookup-insert key k l idx)

  pub listed-delete : listed k (delete key idx) ≡ (if key == k then [] else listed k idx)
  listed-delete = ground (arith, lookup-delete key k idx)

pub contains-drop_first :
    (l : List String) (n m : String)
    → count n l ≤ 1
    → contains (drop_first n l) m ≡ (if n == m then false else contains l m)
unfolding drop_first
contains-drop_first [] n m h = ground arith
contains-drop_first (x ∷ l) n m h =
    ground (arith, contains-drop_first l n m, count-zero l m, ==_iff x n, ==_iff x m, ==_iff n m)

pub count-drop_first-le : (l : List String) (n m : String) → count m (drop_first n l) ≤ count m l
unfolding drop_first
count-drop_first-le [] n m = omega arith
count-drop_first-le (x ∷ l) n m = ground (arith, count-drop_first-le l n m)

pub lookup-delete_names :
    (ns : List String) (n : String) (names : Map String String)
    → lookup n (delete_names ns names) ≡ (if contains ns n then none else lookup n names)
unfolding delete_names
lookup-delete_names [] n names = refl
lookup-delete_names (m ∷ ns) n names =
    ground (arith, lookup-delete_names ns n (delete m names), lookup-delete m n names)

module _ (key k : String) (idx : Map String (List String)) where
  pub listed-prune : listed k (prune key idx) ≡ listed k idx
  unfolding prune
  listed-prune = ground (arith, listed-delete key k idx, ==_iff key k)

  pub listed-unlist :
      (name : String)
      → listed k (unlist name key idx) ≡ (
          if contains (listed key idx) name
          then (if key == k then drop_first name (listed key idx) else listed k idx)
          else listed k idx)
  unfolding unlist
  listed-unlist name = ground (arith, listed-insert key k idx (drop_first name (listed key idx)))

  -- What is written back without its names is dropped, so no key is left with an empty list.
  pub lookup-unlist_ne :
      (name : String) → (key == k) ≡ false → lookup k (unlist name key idx) ≡ lookup k idx
  unfolding unlist
  lookup-unlist_ne name h =
      ground (arith, lookup-insert key k (drop_first name (listed key idx)) idx)

  pub prune-ne-nil :
      ((key == k) ≡ false → lookup k idx ≢ some []) → lookup k (prune key idx) ≢ some []
  unfolding prune
  prune-ne-nil h e = ground (arith, lookup-delete key k idx, ==_iff key k, h)
