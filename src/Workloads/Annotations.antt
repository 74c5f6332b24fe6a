-- ===== src/Workloads/Annotations.antt =====
-- FilterDisallowedAnnotations of pkg/config/workloads.go and
-- validateAllowedAndGenerateDisallowedAnnotations of pkg/config/config.go. `known` is
-- AllAllowedAnnotations of pkg/annotations/annotations.go, one of which another module names.
use text.Mathlib.Text.{starts_with}
use mathlib.Core.Path.{◌∙◌}
use cri_t.Prelude.{
  if◌then◌else◌, Bool-cases, Option-cases, any, string_eq, nat_eq, ◌==◌, ==_iff, ==_refl, contains,
  String, ◌≡◌, ◌∙◌, inl, inr, Bool, true, false, Option, none, some, List, [], ◌∷◌, arith,
}
use cri_t.Prelude.Maps.{Map, lookup, insert, lookup-insert}

-- disallowedMap[ann] = false for each known annotation
unfoldable pub all_disallowed : List String → Map String Bool
all_disallowed [] = []
all_disallowed (a ∷ known) = insert a false (all_disallowed known)

-- disallowedMap[ann] = true for each allowed one; `none` where it is not known
unfoldable pub mark_allowed : List String → Map String Bool → Option (Map String Bool)
mark_allowed [] m = some m
mark_allowed (a ∷ allowed) m = elim (lookup a m) [
  | none ↦ none
  | some b ↦ mark_allowed allowed (insert a true m)
]

unfoldable pub unmarked : Map String Bool → List String
unmarked [] = []
unmarked ((a, marked) ∷ m) = let rest = unmarked m in if marked then rest else a ∷ rest

unfoldable pub generate_disallowed : List String → List String → Option (List String)
unfolding all_disallowed mark_allowed unmarked
generate_disallowed known allowed = elim (mark_allowed allowed (all_disallowed known)) [
  | none ↦ none
  | some m ↦ some (unmarked m)
]

-- The loop over the annotations of a pod.
unfoldable pub remove_prefixed : List String → Map String String → Map String String
remove_prefixed disallowed [] = []
remove_prefixed disallowed ((k, v) ∷ m) =
    let rest = remove_prefixed disallowed m in
    if any (starts_with k) disallowed then rest else (k, v) ∷ rest

unfoldable pub filter_disallowed_annotations :
    List String → List String → Map String String → Option (Map String String)
unfolding generate_disallowed remove_prefixed
filter_disallowed_annotations known allowed annotations = elim (generate_disallowed known allowed) [
  | none ↦ none
  | some disallowed ↦ some (remove_prefixed disallowed annotations)
]

lookup-all_disallowed :
    (known : List String) (d : String)
    → contains known d ≡ true
    → lookup d (all_disallowed known) ≡ some false
unfolding all_disallowed
lookup-all_disallowed [] d h = absurd (ground arith)
lookup-all_disallowed (a ∷ known) d h =
    ground (arith, lookup-insert a d false (all_disallowed known), lookup-all_disallowed known d)

lookup-mark_allowed :
    (allowed : List String) (m m' : Map String Bool) (d : String)
    → mark_allowed allowed m ≡ some m'
    → contains allowed d ≡ false
    → lookup d m' ≡ lookup d m
unfolding mark_allowed
lookup-mark_allowed [] m m' d done out = ground arith
lookup-mark_allowed (a ∷ allowed) m m' d done out = elim (Option-cases (lookup a m)) [
  | inl unknown ↦ absurd (ground arith)
  | inr (b, found) ↦ ground (
    arith,
    lookup-insert a d true m,
    lookup-mark_allowed allowed (insert a true m) m' d (ground arith) (ground arith),
  )
]

any-unmarked :
    (p : String → Bool) (m : Map String Bool) (d : String)
    → lookup d m ≡ some false
    → p d ≡ true
    → any p (unmarked m) ≡ true
unfolding unmarked lookup
any-unmarked p [] d found hit = absurd (cc)
any-unmarked p ((a, marked) ∷ m) d found hit = elim (Bool-cases (a == d)) [
  | inl here ↦
      let same : a ≡ d = (==_iff a d).0 here in let now : p a ≡ true = rw same hit in ground arith
  | inr later ↦ ground (arith, any-unmarked p m d (ground arith) hit)
]

lookup-remove_prefixed :
    (disallowed : List String) (k : String) (m : Map String String)
    → lookup k (remove_prefixed disallowed m)
      ≡ (if any (starts_with k) disallowed then none else lookup k m)
unfolding remove_prefixed lookup
lookup-remove_prefixed disallowed k [] = ground arith
lookup-remove_prefixed disallowed k ((j, v) ∷ m) = elim (Bool-cases (j == k)) [
  | inl here ↦
      let same : j ≡ k = (==_iff j k).0 here in
      rw same (ground (arith, lookup-remove_prefixed disallowed k m, ==_refl k))
  | inr other ↦ ground (arith, lookup-remove_prefixed disallowed k m)
]

-- After FilterDisallowedAnnotations succeeds, a pod has no annotation that begins with a known
-- annotation that is not allowed.
pub filter_disallowed_annotations-lookup :
    (known allowed : List String) (annotations left : Map String String) (k d : String)
    → filter_disallowed_annotations known allowed annotations ≡ some left
    → contains known d ≡ true
    → contains allowed d ≡ false
    → starts_with k d ≡ true
    → lookup k left ≡ none
unfolding filter_disallowed_annotations generate_disallowed
filter_disallowed_annotations-lookup known allowed annotations left k d done is_known out prefixed =
    elim (Option-cases (mark_allowed allowed (all_disallowed known))) [
      | inl invalid ↦ absurd (ground arith)
      | inr (m, marked) ↦
          let kept = lookup-mark_allowed allowed (all_disallowed known) m d marked out in
          let first = lookup-all_disallowed known d is_known in
          let hit = any-unmarked (starts_with k) m d (kept ∙ first) prefixed in
          ground (arith, lookup-remove_prefixed (unmarked m) k annotations, hit)
    ]
