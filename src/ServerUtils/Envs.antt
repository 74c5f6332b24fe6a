-- ===== src/ServerUtils/Envs.antt =====
-- server/utils.go: which value a variable of the container has.
use cri_t.Prelude.{
  if◌then◌else◌, Bool-cases, Option-cases, is_some, All, string_eq, nat_eq, ◌==◌, ==_iff, ◌≡◌, refl,
  ap, ◌∙◌, inl, inr, Bool, true, false, Option, none, some, List, [], ◌∷◌, ◌++◌, arith,
}
use mathlib.Core.Path.{subst}
use cri_t.Prelude.Bytes.{Bytes, bytes_eq, Lacks, split_once-append}
use cri_t.Prelude.Maps.{Map, lookup}
use cri_t.ServerUtils.{equals, kube_entries, key_of, image_key, has_key, add_image_envs, merge_envs}

-- The first entry with the key.
abbrev pub first_of : Bytes → List Bytes → Option Bytes
first_of key [] = none
first_of key (env ∷ envs) = if key_of env == key then some env else first_of key envs

abbrev is_keyed : Bytes → Option Bytes → Bool
is_keyed key none = false
is_keyed key (some k) = k == key

-- The first variable of the image with the key and a value.
abbrev pub first_valid : Bytes → List Bytes → Option Bytes
first_valid key [] = none
first_valid key (env ∷ image) =
    if is_keyed key (image_key env) then some env else first_valid key image

abbrev or_else : Option Bytes → Option Bytes → Option Bytes
or_else none other = other
or_else (some e) other = some e

first_of-append_one :
    (key env : Bytes) (envs : List Bytes)
    → first_of key (envs ++ env ∷ [])
      ≡ or_else (first_of key envs) (if key_of env == key then some env else none)
first_of-append_one key env [] = ground arith
first_of-append_one key env (e ∷ envs) = ground (arith, first_of-append_one key env envs)

has_key-first_of :
    (key : Bytes) (envs : List Bytes)
    → (key == []) ≡ false
    → has_key key envs ≡ is_some (first_of key envs)
has_key-first_of key [] full = refl
has_key-first_of key (env ∷ envs) full = ground (
  arith,
  has_key-first_of key envs full,
  ==_iff key (key_of env),
  ==_iff (key_of env) key,
  ==_iff (key_of env) [],
  ==_iff key [],
)

-- What the key of a variable of the image says of its entry.
image_key-key_of :
    (env key : Bytes) → image_key env ≡ some key → (key_of env ≡ key) × ((key == []) ≡ false)
image_key-key_of env key h = ground arith

-- A variable of the image whose key is there changes nothing,
skipped :
    (key k env : Bytes) (envs : List Bytes) (rest : Option Bytes)
    → (key == []) ≡ false
    → has_key k envs ≡ true
    → or_else (first_of key envs) rest
      ≡ or_else (first_of key envs) (if k == key then some env else rest)
skipped key k env envs rest full held = elim (Option-cases (first_of key envs)) [
  | inr (e, found) ↦ rw found refl
  | inl out ↦ elim (Bool-cases (k == key)) [
    | inr other ↦ rw other refl
    | inl same ↦
        let there : has_key key envs ≡ true =
          subst (λ x. has_key x envs ≡ true) ((==_iff k key).0 same) held in
        absurd (ground (arith, there, has_key-first_of key envs full, out))
  ]
]

-- and one whose key is new comes last.
appended :
    (key k env : Bytes) (found rest : Option Bytes)
    → or_else (or_else found (if k == key then some env else none)) rest
      ≡ or_else found (if k == key then some env else rest)
appended key k env none rest = ground arith
appended key k env (some e) rest = refl

add_image_envs-first_of :
    (key : Bytes) (envs image : List Bytes)
    → (key == []) ≡ false
    → first_of key (add_image_envs envs image) ≡ or_else (first_of key envs) (first_valid key image)
unfolding add_image_envs
add_image_envs-first_of key envs [] full = ground arith
add_image_envs-first_of key envs (env ∷ image) full = elim (Option-cases (image_key env)) [
  | inl out ↦ rw (out, add_image_envs) (add_image_envs-first_of key envs image full)
  | inr (k, named) ↦ elim (Bool-cases (has_key k envs)) [
    | inl held ↦
        rw (named, held, add_image_envs)
          (add_image_envs-first_of key envs image full
            ∙ skipped key k env envs (first_valid key image) full held)
    | inr new ↦
        rw (named, new, add_image_envs)
          (add_image_envs-first_of key (envs ++ env ∷ []) image full
            ∙ rw (first_of-append_one key env envs, (image_key-key_of env k named).0)
                (appended key k env (first_of key envs) (first_valid key image)))
  ]
]

kube_entries-first_of :
    (key : Bytes) (kube : Map Bytes Bytes)
    → (key == []) ≡ false
    → All (λ kv. Lacks equals kv.0) kube
    → first_of key (kube_entries kube)
      ≡ elim (lookup key kube) [ none ↦ none | some value ↦ some (key ++ equals ∷ value) ]
unfolding kube_entries lookup
kube_entries-first_of key [] full lacks = refl
kube_entries-first_of key (([], value) ∷ kube) full (h, lacks) =
    ground (arith, kube_entries-first_of key kube full lacks, ==_iff [] key, ==_iff key [], full)
kube_entries-first_of key (((c ∷ k), value) ∷ kube) full (h, lacks) =
    let cut : key_of ((c ∷ k) ++ equals ∷ value) ≡ c ∷ k =
      ap (λ r. r.0) (split_once-append equals (c ∷ k) value h) in
    elim (Bool-cases ((c ∷ k) == key)) [
      | inl same ↦
          rw (cut, same) (ap (λ x. some (x ++ equals ∷ value)) ((==_iff (c ∷ k) key).0 same))
      | inr other ↦ rw (cut, other) (kube_entries-first_of key kube full lacks)
    ]

-- The entry that a variable must have: what the request says of it, or else the first of the image.
abbrev pub wanted : Bytes → List Bytes → Map Bytes Bytes → Option Bytes
wanted key image kube = elim (lookup key kube) [
  | none ↦ first_valid key image
  | some value ↦ some (key ++ equals ∷ value)
]

-- In the environment that mergeEnvs makes from an image and a request that names variables, the
-- first entry of a key is KEY=VALUE with the first value that the request has for it, and where
-- the request has none it is the image's first entry of the key that has a value. The key is not
-- empty, and no key of the request has an equals sign.
pub merge_envs-first_of :
    (key : Bytes) (image : List Bytes) (kube : Map Bytes Bytes)
    → (key == []) ≡ false
    → All (λ kv. Lacks equals kv.0) kube
    → first_of key (merge_envs (some image) (some kube)) ≡ wanted key image kube
unfolding merge_envs
merge_envs-first_of key image kube full lacks =
    add_image_envs-first_of key (kube_entries kube) image full
    ∙ rw (kube_entries-first_of key kube full lacks) (elim (Option-cases (lookup key kube)) [
      | inl out ↦ rw (out, wanted) refl
      | inr (value, found) ↦ rw (found, wanted) refl
    ])
