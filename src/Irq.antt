-- ===== src/Irq.antt =====
-- internal/runtimehandlerhooks/utils_linux.go: the IRQ affinity mask. A string is the list of its
-- bytes, a mask array the list of its bytes, lowest CPUs first. `hex.DecodeString`,
-- `hex.EncodeToString` and `cpuset.Parse` are parameters. `none` is a panic: an index out of range.
pub mod Bits
pub mod Update
pub mod Format
mod Examples
use Prim.Native.Nat.{bit_and, bit_or}
use mathlib.Core.List.{reverse}
use cri_t.Prelude.{
  ltb, leb, eqb, if◌then◌else◌, length, take, drop, replicate, filter, nat_eq, string_eq, Result,
  ok, err, ℕ, zero, suc, ◌+◌, ◌-◌, ◌/◌, ◌%◌, ◌^◌, Bool, true, false, not, Option, none, some, List,
  [], ◌∷◌, ◌++◌,
}

-- unicode.MaxASCII
abbrev max_ascii : ℕ
max_ascii = 127

unfoldable pub is_ascii : List ℕ → Bool
is_ascii [] = true
is_ascii (c ∷ s) = if ltb max_ascii c then false else is_ascii s

-- byte(1 << c)
unfoldable pub cpu_mask_byte : ℕ → ℕ
cpu_mask_byte c = 2 ^ c % 256

-- b &^ m on bytes
unfoldable pub and_not : ℕ → ℕ → ℕ
and_not b m = bit_and b (255 - m)

unfoldable pub invert_byte_array : List ℕ → List ℕ
invert_byte_array [] = []
invert_byte_array (b ∷ bs) = (255 - b) ∷ invert_byte_array bs

unfoldable pub is_all_bit_set : List ℕ → Bool
is_all_bit_set [] = true
is_all_bit_set (b ∷ bs) =
    if not (eqb (bit_and b ((b + 1) % 256)) 0) then false else is_all_bit_set bs

-- a[i] = f(a[i]); `none` where the index is out of range
unfoldable pub update_at : ℕ → (ℕ → ℕ) → List ℕ → Option (List ℕ)
update_at i f [] = none
update_at zero f (b ∷ bs) = some (f b ∷ bs)
update_at (suc i) f (b ∷ bs) = elim (update_at i f bs) [ none ↦ none | some cs ↦ some (b ∷ cs) ]

-- One round of the loop over the pod's CPUs: the mask and the inverted mask.
unfoldable pub update_cpu : Bool → ℕ → List ℕ × List ℕ → Option (List ℕ × List ℕ)
unfolding cpu_mask_byte and_not update_at
update_cpu set cpu (mask, inverted) =
    let bit = cpu_mask_byte (cpu % 8) in
    let on = λ (b : ℕ). bit_or b bit in
    let off = λ (b : ℕ). and_not b bit in
    elim (update_at (cpu / 8) (if set then on else off) mask) [
      | none ↦ none
      | some mask' ↦ elim (update_at (cpu / 8) (if set then off else on) inverted) [
        | none ↦ none
        | some inverted' ↦ some (mask', inverted')
      ]
    ]

unfoldable pub update_cpus : Bool → List ℕ → List ℕ × List ℕ → Option (List ℕ × List ℕ)
unfolding update_cpu
update_cpus set [] arrays = some arrays
update_cpus set (cpu ∷ cpus) arrays = elim (update_cpu set cpu arrays) [
  | none ↦ none
  | some next ↦ update_cpus set cpus next
]

-- The zero bytes that align an array to 4 bytes.
unfoldable pub padded : List ℕ → List ℕ
padded b = if eqb (length b % 4) 0 then b else b ++ replicate (4 - length b % 4) 0

abbrev pub comma : ℕ
comma = b','

-- strings.ReplaceAll(current, ",", "")
unfoldable pub strip_commas : List ℕ → List ℕ
strip_commas = filter (λ c. not (eqb c comma))

-- The loop that puts a comma before each further group of 8 characters; it runs on fuel, and a
-- string has no more groups than characters.
unfoldable pub groups : ℕ → List ℕ → List ℕ
groups zero s = []
groups (suc fuel) s =
    let rest = groups fuel (drop 8 s) in if leb 8 (length s) then comma ∷ (take 8 s ++ rest) else []

-- maskString[0:8] and the loop; `none` where the slice is out of range
unfoldable pub with_commas : List ℕ → Option (List ℕ)
unfolding groups
with_commas s = if leb 8 (length s) then some (take 8 s ++ groups (length s) (drop 8 s)) else none

module _ (decode : List ℕ → Option (List ℕ)) (encode : List ℕ → List ℕ) where
  unfoldable pub map_hex_char_to_byte : List ℕ → Option (List ℕ)
  map_hex_char_to_byte h = elim (decode (if eqb (length h % 2) 0 then h else b'0' ∷ h)) [
    | none ↦ none
    | some breversed ↦ some (reverse breversed)
  ]

  unfoldable pub map_byte_to_hex_char : List ℕ → List ℕ
  unfolding padded
  map_byte_to_hex_char b = encode (reverse (padded b))

-- What UpdateIRQSmpAffinityMask returns: the two masks, or an error with `cpus` as it was given.
pub data MaskError : Type 0 where
  bad_cpuset non_ascii bad_hex : MaskError

module _ (parse : List ℕ → Option (List ℕ)) (decode : List ℕ → Option (List ℕ))
    (encode : List ℕ → List ℕ) where
  print_masks : List ℕ × List ℕ → Option (Result MaskError (List ℕ × List ℕ))
  unfolding with_commas map_byte_to_hex_char
  print_masks (mask, inverted) = elim (with_commas (map_byte_to_hex_char decode encode mask)) [
    | none ↦ none
    | some m ↦ elim (with_commas (map_byte_to_hex_char decode encode inverted)) [
      | none ↦ none
      | some i ↦ some (ok (m, i))
    ]
  ]

  unfoldable pub update_irq_smp_affinity_mask :
      List ℕ → List ℕ → Bool → Option (Result MaskError (List ℕ × List ℕ))
  unfolding is_ascii strip_commas map_hex_char_to_byte invert_byte_array update_cpus print_masks
  update_irq_smp_affinity_mask cpus current set = elim (parse cpus) [
    | none ↦ some (err bad_cpuset)
    | some podcpuset ↦
        if not (is_ascii current)
        then some (err non_ascii)
        else elim (map_hex_char_to_byte decode encode (strip_commas current)) [
          | none ↦ some (err bad_hex)
          | some mask ↦ elim (update_cpus set podcpuset (mask, invert_byte_array mask)) [
            | none ↦ none
            | some arrays ↦ print_masks arrays
          ]
        ]
  ]
