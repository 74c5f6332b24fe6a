-- ===== src/Irq/Examples.antt =====
-- Runs of internal/runtimehandlerhooks/utils_linux.go on the masks of its own tests, and the
-- theorems at concrete inputs.
use mathlib.Core.Path.{◌≡◌, refl}
use cri_t.Prelude.{
  if◌then◌else◌, length, replicate, string_eq, nat_eq, contains, ℕ, ◌/◌, ◌<◌, ◌≡◌, refl, true,
  false, none, some, List, [], ◌∷◌, ◌++◌, arith,
}
use cri_t.Irq.{
  cpu_mask_byte, and_not, invert_byte_array, is_all_bit_set, update_at, update_cpu, update_cpus,
}
use cri_t.Irq.Update.{IsBytes, has_cpu, update_cpus-has_cpu}

abbrev four_bytes : List ℕ
four_bytes = 255 ∷ 255 ∷ 0 ∷ 0 ∷ []

update_cpus_runs :
    update_cpus false (4 ∷ 12 ∷ []) (four_bytes, invert_byte_array four_bytes)
    ≡ some (239 ∷ 239 ∷ 0 ∷ 0 ∷ [], 16 ∷ 16 ∷ 255 ∷ 255 ∷ [])
unfolding update_cpus update_cpu update_at invert_byte_array cpu_mask_byte and_not
update_cpus_runs = refl

beyond_the_mask : update_cpus true (40 ∷ []) (four_bytes, invert_byte_array four_bytes) ≡ none
unfolding update_cpus update_cpu update_at invert_byte_array
beyond_the_mask = refl

update_cpus-has_cpu_example :
    (mask' : List ℕ) × (update_cpus false (4 ∷ 12 ∷ []) (four_bytes, invert_byte_array four_bytes)
      ≡ some (mask', invert_byte_array mask'))
    × IsBytes mask'
    × (length mask' ≡ 4)
    × ((j : ℕ)
        → j / 8 < 4
        → has_cpu mask' j ≡ (if contains (4 ∷ 12 ∷ []) j then false else has_cpu four_bytes j))
update_cpus-has_cpu_example =
    update_cpus-has_cpu false (4 ∷ 12 ∷ []) four_bytes
      (omega arith, (omega arith, (omega arith, (omega arith, tt))))
      (omega arith, (omega arith, tt))

all_bits_reads_zero : is_all_bit_set (0 ∷ 7 ∷ []) ≡ true
unfolding is_all_bit_set
all_bits_reads_zero = refl

abbrev sixteen : List ℕ
sixteen = replicate 8 b'f' ++ replicate 8 b'0'
