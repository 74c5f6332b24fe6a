-- ===== src/Handlers/Exact.antt =====
-- An index that finds whole IDs only: a list that satisfies the laws of `IdIndex`.
use cri_t.Prelude.{
  if◌then◌else◌, Bool-cases, string_eq, nat_eq, ◌==◌, contains, contains-append_one, Result, ok,
  err, String, ◌≡◌, inl, inr, true, false, Option, none, some, List, [], ◌∷◌, ◌++◌, arith,
}
use cri_t.Handlers.{without}
use cri_t.Handlers.Index.{IndexError, not_exist, IdIndex}
use cri_t.Handlers.Cleaner.{contains-without}

abbrev pub add_to : String → List String → Option (List String)
add_to id l = if contains l id then none else some (l ++ id ∷ [])

abbrev pub remove_of : String → List String → Option (List String)
remove_of id l = if contains l id then some (without id l) else none

abbrev pub find_in : String → List String → Result IndexError String
find_in id l = if contains l id then ok id else err not_exist

pub add_to_holds :
    (id k : String) (i j : List String)
    → add_to id i ≡ some j
    → contains j k ≡ (if id == k then true else contains i k)
add_to_holds id k i j = elim (Bool-cases (contains i id)) [
  | inl held ↦ rw held (λ bad. absurd (ground (arith, bad)))
  | inr new ↦ rw new (λ same. ground (arith, same, contains-append_one i id k))
]

pub remove_of_holds :
    (id k : String) (i j : List String)
    → remove_of id i ≡ some j
    → contains j k ≡ (if id == k then false else contains i k)
remove_of_holds id k i j = elim (Bool-cases (contains i id)) [
  | inl held ↦ rw held (λ same. ground (arith, same, contains-without id k i))
  | inr new ↦ rw new (λ bad. absurd (ground (arith, bad)))
]

pub find_in_holds : (s id : String) (i : List String) → find_in s i ≡ ok id → contains i id ≡ true
find_in_holds s id i = elim (Bool-cases (contains i s)) [
  | inl held ↦ rw held (λ same. ground (arith, same, held))
  | inr new ↦ rw new (λ bad. absurd (ground (arith, bad)))
]

pub add_to_fails : (id : String) (i : List String) → contains i id ≡ true → add_to id i ≡ none
add_to_fails id i held = ground (arith, held)

pub remove_of_absent :
    (id : String) (i : List String) → contains i id ≡ false → remove_of id i ≡ none
remove_of_absent id i out = ground (arith, out)

pub remove_of_fails :
    (id : String) (i : List String) → remove_of id i ≡ none → contains i id ≡ false
remove_of_fails id i out = ground (arith, out)

abbrev pub exact : IdIndex (List String)
exact = record {
  holds = λ k l. contains l k;
  add = add_to;
  remove = remove_of;
  find = find_in;
  add_holds = add_to_holds;
  add_fails = add_to_fails;
  remove_holds = remove_of_holds;
  remove_absent = remove_of_absent;
  remove_fails = remove_of_fails;
  find_holds = find_in_holds;
}
