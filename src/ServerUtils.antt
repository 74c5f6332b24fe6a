-- ===== src/ServerUtils.antt =====
-- server/utils.go: the environment of a container, and the mount of the host that holds a path. A
-- string is the list of its bytes.
pub mod Envs
pub mod SourceMount
mod Examples
use cri_t.Prelude.{
  ltb, if◌then◌else◌, is_some, length, string_eq, nat_eq, ◌==◌, ℕ, Bool, false, ◌&&◌, ◌||◌, not,
  Option, none, some, List, [], ◌∷◌, ◌++◌,
}
use cri_t.Prelude.Bytes.{Bytes, bytes_eq, has_prefix, split_once}
use cri_t.Prelude.Maps.{Map}

-- "="
abbrev pub equals : ℕ
equals = 61

-- The loop over the variables of the request.
unfoldable pub kube_entries : Map Bytes Bytes → List Bytes
kube_entries [] = []
kube_entries (([], value) ∷ envs) = kube_entries envs
kube_entries (((c ∷ key), value) ∷ envs) = ((c ∷ key) ++ equals ∷ value) ∷ kube_entries envs

-- strings.SplitN(env, "=", 2)[0]
abbrev pub key_of : Bytes → Bytes
key_of env = (split_once equals env).0

-- The key of a variable of the image, where it has a key and a value.
abbrev pub image_key : Bytes → Option Bytes
image_key env =
    let (key, value) = split_once equals env in
    if not (is_some value) || key == [] then none else some key

abbrev pub has_key : Bytes → List Bytes → Bool
has_key key [] = false
has_key key (env ∷ envs) = not (key_of env == []) && key == key_of env || has_key key envs

-- The loop over the variables of the image.
unfoldable pub add_image_envs : List Bytes → List Bytes → List Bytes
add_image_envs envs [] = envs
add_image_envs envs (env ∷ image) = elim (image_key env) [
  | none ↦ add_image_envs envs image
  | some key ↦ add_image_envs (if has_key key envs then envs else envs ++ env ∷ []) image
]

-- mergeEnvs; `none` is nil, of the image and of the variables of the request
unfoldable pub merge_envs : Option (List Bytes) → Option (Map Bytes Bytes) → List Bytes
unfolding kube_entries add_image_envs
merge_envs (some image) none = image
merge_envs none none = []
merge_envs none (some kube) = kube_entries kube
merge_envs (some image) (some kube) = add_image_envs (kube_entries kube) image

pub record MountInfo : Type 0 where
  pub mountpoint : Bytes
  pub optional : Bytes

-- One round of the loop over the mounts.
abbrev pub longer : Bytes → Option MountInfo → MountInfo → Option MountInfo
longer source none m = if has_prefix source m.mountpoint then some m else none
longer source (some res) m =
    if has_prefix source m.mountpoint && ltb (length res.mountpoint) (length m.mountpoint)
    then some m
    else some res

unfoldable pub longest : Bytes → Option MountInfo → List MountInfo → Option MountInfo
longest source res [] = res
longest source res (m ∷ mounts) = longest source (longer source res m) mounts

-- getSourceMount; `none` is the error
unfoldable pub get_source_mount : Bytes → List MountInfo → Option (Bytes × Bytes)
unfolding longest
get_source_mount source mounts = elim (longest source none mounts) [
  | none ↦ none
  | some m ↦ some (m.mountpoint, m.optional)
]
