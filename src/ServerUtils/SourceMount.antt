-- ===== src/ServerUtils/SourceMount.antt =====
-- server/utils.go: the mount that holds a path.
use cri_t.Prelude.{
  ltb, Bool-cases, Option-cases, length, All, string_eq, nat_eq, ◌≤◌, ◌≡◌, refl, ◌⊎◌, inl, inr,
  true, false, ◌&&◌, Option, none, some, List, [], ◌∷◌, arith,
}
use mathlib.Core.Path.{subst}
use cri_t.Prelude.Bytes.{Bytes, bytes_eq, has_prefix}
use cri_t.ServerUtils.{MountInfo, longer, longest, get_source_mount}

-- What the loop has found among the mounts seen so far: a mount that holds the path, and no longer
-- one than which there is.
abbrev IsBest : Bytes → Option MountInfo → MountInfo → Type 0
IsBest source none m = has_prefix source m.mountpoint ≡ false
IsBest source (some res) m =
    has_prefix source m.mountpoint ≡ true → length m.mountpoint ≤ length res.mountpoint

abbrev Holds : Bytes → Option MountInfo → Type 0
Holds source none = Unit
Holds source (some m) = has_prefix source m.mountpoint ≡ true

longer-Holds :
    (source : Bytes) (res : Option MountInfo) (m : MountInfo)
    → Holds source res
    → Holds source (longer source res m)
longer-Holds source none m h = ground arith
longer-Holds source (some r) m h = ground (arith, h)

longer-IsBest :
    (source : Bytes) (res : Option MountInfo) (m : MountInfo)
    → IsBest source (longer source res m) m
longer-IsBest source none m = ground arith
longer-IsBest source (some r) m = ground arith

-- What was the best before a round is not better than what is the best after it.
longer-keeps :
    (source : Bytes) (res : Option MountInfo) (m n : MountInfo)
    → IsBest source res n
    → IsBest source (longer source res m) n
longer-keeps source none m n h = ground (arith, h)
longer-keeps source (some r) m n h = ground (arith, h)

longest-Holds :
    (source : Bytes) (res : Option MountInfo) (ms : List MountInfo)
    → Holds source res
    → Holds source (longest source res ms)
unfolding longest
longest-Holds source res [] h = h
longest-Holds source res (m ∷ ms) h =
    longest-Holds source (longer source res m) ms (longer-Holds source res m h)

longest-keeps :
    (source : Bytes) (res : Option MountInfo) (ms : List MountInfo) (n : MountInfo)
    → IsBest source res n
    → IsBest source (longest source res ms) n
unfolding longest
longest-keeps source res [] n h = h
longest-keeps source res (m ∷ ms) n h =
    longest-keeps source (longer source res m) ms n (longer-keeps source res m n h)

longest-IsBest :
    (source : Bytes) (res : Option MountInfo) (ms : List MountInfo)
    → All (IsBest source (longest source res ms)) ms
unfolding longest
longest-IsBest source res [] = tt
longest-IsBest source res (m ∷ ms) = (
  longest-keeps source (longer source res m) ms m (longer-IsBest source res m),
  longest-IsBest source (longer source res m) ms,
)

abbrev pub In : MountInfo → List MountInfo → Type 0
In m [] = ⊥
In m (x ∷ xs) = (x ≡ m) ⊎ In m xs

longer-In :
    (source : Bytes) (res : Option MountInfo) (m n : MountInfo)
    → longer source res m ≡ some n
    → (res ≡ some n) ⊎ (m ≡ n)
longer-In source none m n = elim (Bool-cases (has_prefix source m.mountpoint)) [
  | inl hit ↦ rw hit (λ h. inr (ground (arith, h)))
  | inr miss ↦ rw miss (λ h. absurd (ground (arith, h)))
]
longer-In source (some r) m n =
    elim (Bool-cases
      (has_prefix source m.mountpoint && ltb (length r.mountpoint) (length m.mountpoint))) [
        | inl hit ↦ rw hit (λ h. inr (ground (arith, h)))
        | inr miss ↦ rw miss (λ h. inl h)
      ]

longest-In :
    (source : Bytes) (res : Option MountInfo) (ms : List MountInfo) (n : MountInfo)
    → longest source res ms ≡ some n
    → (res ≡ some n) ⊎ In n ms
unfolding longest
longest-In source res [] n h = inl h
longest-In source res (m ∷ ms) n h = elim (longest-In source (longer source res m) ms n h) [
  | inr later ↦ inr (inr later)
  | inl now ↦ elim (longer-In source res m n now) [ inl old ↦ inl old | inr here ↦ inr (inl here) ]
]

-- What getSourceMount must answer.
abbrev pub IsSourceMount : Bytes → List MountInfo → Option (Bytes × Bytes) → Type 0
IsSourceMount source ms none = All (λ n. has_prefix source n.mountpoint ≡ false) ms
IsSourceMount source ms (some (path, optional)) =
    ((m : MountInfo) × In m ms × (m.mountpoint ≡ path) × (m.optional ≡ optional))
    × (has_prefix source path ≡ true)
    × All (λ n. has_prefix source n.mountpoint ≡ true → length n.mountpoint ≤ length path) ms

-- getSourceMount fails exactly if no mount point is a prefix of the path; otherwise it returns the
-- mount point of a mount, with the optional fields of that mount, that is a prefix of the path, and
-- no other mount point that is a prefix of the path is longer.
pub get_source_mount-IsSourceMount :
    (source : Bytes) (ms : List MountInfo) → IsSourceMount source ms (get_source_mount source ms)
unfolding get_source_mount
get_source_mount-IsSourceMount source ms = elim (Option-cases (longest source none ms)) [
  | inl out ↦
      rw (out, get_source_mount)
        (subst (λ r. All (IsBest source r) ms) out (longest-IsBest source none ms))
  | inr (m, found) ↦
      rw (found, get_source_mount)
        (
          elim (longest-In source none ms m found) [
            | inl bad ↦ absurd (ground (arith, bad))
            | inr there ↦ (m, there, refl, refl)
          ],
          subst (Holds source) found (longest-Holds source none ms tt),
          subst (λ r. All (IsBest source r) ms) found (longest-IsBest source none ms),
        )
]
