-- ===== src/Handlers/Index.antt =====
-- truncindex of containers/storage, which the handlers only call: an index that finds an ID by a
-- prefix of it. The laws are those of its documentation.
use cri_t.Prelude.{
  if◌then◌else◌, string_eq, nat_eq, ◌==◌, Result, ok, String, ◌≡◌, Bool, true, false, Option, none,
  some,
}

pub data IndexError : Type 0 where
  not_exist ambiguous : IndexError

pub record IdIndex (I : Type 0) : Type 0 where
  pub holds : String → I → Bool
  -- Add and Delete, where `none` is an error, and Get
  pub add : String → I → Option I
  pub remove : String → I → Option I
  pub find : String → I → Result IndexError String
  pub add_holds :
      (id k : String) (i j : I)
      → add id i ≡ some j
      → holds k j ≡ (if id == k then true else holds k i)
  pub add_fails : (id : String) (i : I) → holds id i ≡ true → add id i ≡ none
  pub remove_holds :
      (id k : String) (i j : I)
      → remove id i ≡ some j
      → holds k j ≡ (if id == k then false else holds k i)
  pub remove_absent : (id : String) (i : I) → holds id i ≡ false → remove id i ≡ none
  pub remove_fails : (id : String) (i : I) → remove id i ≡ none → holds id i ≡ false
  pub find_holds : (s id : String) (i : I) → find s i ≡ ok id → holds id i ≡ true
