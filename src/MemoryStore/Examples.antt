-- ===== src/MemoryStore/Examples.antt =====
-- Runs of internal/memorystore, and the theorems at concrete inputs.
use mathlib.Core.Path.{◌≡◌, refl}
use cri_t.Prelude.{string_eq, nat_eq, ℕ, String, ◌≡◌, refl, [], ◌∷◌}
use cri_t.Prelude.Maps.{Map}
use cri_t.MemoryStore.{all, place, sort, list}

-- Three values that are their times of creation.
abbrev three : Map String ℕ
three = ("a", 2) ∷ ("b", 5) ∷ ("c", 3) ∷ []

three_lists : list (λ n. n) three ≡ 5 ∷ 3 ∷ 2 ∷ []
unfolding list all sort place
three_lists = refl
