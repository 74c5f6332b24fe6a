-- ===== src/Registrar.antt =====
-- internal/registrar/registrar.go: names reserved to keys. Each method runs under the mutex from
-- its first line to its last, so a history of calls is a list of operations. Slices are values here.
pub mod Indices
pub mod Invariant
pub mod Lookups
mod Examples
use cri_t.Prelude.{
  if◌then◌else◌, ◌==◌, nat_eq, string_eq, contains, Result, ok, err, String, Bool, true, false,
  Option, none, some, List, [], ◌∷◌, ◌++◌,
}
use cri_t.Prelude.Maps.{Map, lookup, delete, insert}

pub data RegistrarError : Type 0 where
  name_reserved name_not_reserved no_such_key : RegistrarError

pub record Registrar : Type 0 where
  pub idx : Map String (List String)
  pub names : Map String String

unfoldable pub new_registrar : Registrar
new_registrar = record { idx = []; names = [] }

-- r.idx[key], which is nil where the key is missing
abbrev pub listed : String → Map String (List String) → List String
listed key idx = elim (lookup key idx) [ none ↦ [] | some ns ↦ ns ]

pub reserve_free : String → String → Registrar → Registrar
reserve_free name key r = record {
  idx = insert key (listed key r.idx ++ name ∷ []) r.idx;
  names = insert name key r.names;
}

unfoldable pub reserve : String → String → Registrar → Registrar × Option RegistrarError
unfolding reserve_free
reserve name key r = elim (lookup name r.names) [
  | some k ↦ if k == key then (r, none) else (r, some name_reserved)
  | none ↦ (reserve_free name key r, none)
]

-- append(ns[:i], ns[i+1:]...) at the first i with ns[i] == name; no change where there is none
pub drop_first : String → List String → List String
drop_first name [] = []
drop_first name (n ∷ ns) = if n == name then ns else n ∷ drop_first name ns

abbrev is_empty : List String → Bool
is_empty [] = true
is_empty (n ∷ ns) = false

pub unlist : String → String → Map String (List String) → Map String (List String)
unfolding drop_first
unlist name key idx =
    if contains (listed key idx) name
    then insert key (drop_first name (listed key idx)) idx
    else idx

-- if len(r.idx[key]) == 0 { delete(r.idx, key) }
pub prune : String → Map String (List String) → Map String (List String)
prune key idx = if is_empty (listed key idx) then delete key idx else idx

pub release_held : String → String → Registrar → Registrar
unfolding unlist prune
release_held name key r = record {
  idx = prune key (unlist name key r.idx);
  names = delete name r.names;
}

unfoldable pub release : String → Registrar → Registrar
unfolding release_held
release name r = elim (lookup name r.names) [ none ↦ r | some key ↦ release_held name key r ]

pub delete_names : List String → Map String String → Map String String
delete_names [] names = names
delete_names (n ∷ ns) names = delete_names ns (delete n names)

unfoldable pub delete_key : String → Registrar → Registrar
unfolding delete_names
delete_key key r = record {
  idx = delete key r.idx;
  names = delete_names (listed key r.idx) r.names;
}

unfoldable pub get_names : String → Registrar → Result RegistrarError (List String)
get_names key r = elim (lookup key r.idx) [ none ↦ err no_such_key | some ns ↦ ok ns ]

unfoldable pub get : String → Registrar → Result RegistrarError String
get name r = elim (lookup name r.names) [ none ↦ err name_not_reserved | some key ↦ ok key ]

unfoldable pub get_all : Registrar → Map String (List String)
get_all r = r.idx

-- The calls that change a registrar, for histories.
pub data Call : Type 0 where
  reserves : String → String → Call
  releases deletes : String → Call

unfoldable pub step : Registrar → Call → Registrar
step r (reserves name key) = (reserve name key r).0
step r (releases name) = release name r
step r (deletes key) = delete_key key r

unfoldable pub run : Registrar → List Call → Registrar
run r [] = r
run r (c ∷ cs) = run (step r c) cs
