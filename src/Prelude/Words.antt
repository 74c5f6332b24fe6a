-- ===== src/Prelude/Words.antt =====
-- Go's int64 on bit patterns below 2 ^ 64.
use Prim.Native.Nat.{ℕ, ◌^◌}
use mathlib.Core.Bool.{Bool, true, false}
use cri_t.Prelude.Tests.{ltb, if◌then◌else◌}

abbrev pub word : ℕ
word = 2 ^ 64

abbrev pub half_word : ℕ
half_word = 2 ^ 63

-- a < b
unfoldable pub signed_ltb : ℕ → ℕ → Bool
signed_ltb a b =
    if ltb a half_word
    then (if ltb b half_word then ltb a b else false)
    else if ltb b half_word
    then true
    else ltb a b
