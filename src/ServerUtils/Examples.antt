-- ===== src/ServerUtils/Examples.antt =====
-- The theorems on server/utils.go at concrete inputs.
use mathlib.Core.Path.{◌≡◌, refl}
use cri_t.Prelude.{string_eq, nat_eq, ◌≡◌, refl, none, some, List, [], ◌∷◌}
use cri_t.Prelude.Bytes.{Bytes, bytes_eq}
use cri_t.Prelude.Maps.{Map}
use cri_t.ServerUtils.{
  kube_entries, add_image_envs, merge_envs, MountInfo, longest, get_source_mount,
}

-- "A=1", "B=2", "A=3" and "C"; the request has B=9
abbrev image : List Bytes
image = (65 ∷ 61 ∷ 49 ∷ []) ∷ (66 ∷ 61 ∷ 50 ∷ []) ∷ (65 ∷ 61 ∷ 51 ∷ []) ∷ (67 ∷ []) ∷ []

abbrev kube : Map Bytes Bytes
kube = (66 ∷ [], 57 ∷ []) ∷ []

merged : merge_envs (some image) (some kube) ≡ (66 ∷ 61 ∷ 57 ∷ []) ∷ (65 ∷ 61 ∷ 49 ∷ []) ∷ []
unfolding merge_envs kube_entries add_image_envs
merged = refl

-- The variables of an image are taken as they are, without a value or twice, if the request names
-- none.
unmerged : merge_envs (some image) none ≡ image
unfolding merge_envs
unmerged = refl

-- "/", "/a" and "/b" for the path "/ab"
abbrev mounts : List MountInfo
mounts =
    record { mountpoint = 47 ∷ []; optional = [] }
    ∷ record { mountpoint = 47 ∷ 97 ∷ []; optional = 115 ∷ [] }
    ∷ record { mountpoint = 47 ∷ 98 ∷ []; optional = [] }
    ∷ []

source_found : get_source_mount (47 ∷ 97 ∷ 98 ∷ []) mounts ≡ some (47 ∷ 97 ∷ [], 115 ∷ [])
unfolding get_source_mount longest
source_found = refl
