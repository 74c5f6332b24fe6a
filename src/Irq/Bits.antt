-- ===== src/Irq/Bits.antt =====
-- The bit operations of internal/runtimehandlerhooks/utils_linux.go on one byte: what they do to
-- each bit, read off the finite table of bytes and bit numbers.
use Prim.Native.Nat.{bit_or}
use mathlib.Core.Path.{◌≡◌, refl}
use cri_t.Prelude.{
  ltb, eqb, if◌then◌else◌, Bool-cases, nat_eq, string_eq, ℕ, zero, suc, ◌-◌, ◌/◌, ◌%◌, ◌^◌, ◌<◌,
  ◌≡◌, refl, inl, inr, Bool, true, false, ◌&&◌, not, arith,
}
use cri_t.Irq.{cpu_mask_byte, and_not}

abbrev pub all_below : ℕ → (ℕ → Bool) → Bool
all_below zero p = true
all_below (suc n) p = p n && all_below n p

all_below-holds : (n : ℕ) (p : ℕ → Bool) → all_below n p ≡ true → (i : ℕ) → i < n → p i ≡ true
all_below-holds zero p h i lt = absurd (omega (arith, lt))
all_below-holds (suc n) p h i lt = elim (Bool-cases (eqb i n)) [
  | inl here ↦ let same : i ≡ n = ground arith in let now : p n ≡ true = ground arith in rw same now
  | inr above ↦ all_below-holds n p (ground arith) i (ground arith)
]

-- The bit of a byte that stands for a CPU.
unfoldable pub byte_bit : ℕ → ℕ → Bool
byte_bit b j = eqb (b / 2 ^ j % 2) 1

beq : Bool → Bool → Bool
beq true b = b
beq false b = not b

beq-eq : (a b : Bool) → beq a b ≡ true → a ≡ b
unfolding beq
beq-eq true true h = refl
beq-eq true false h = absurd (cc)
beq-eq false true h = absurd (cc)
beq-eq false false h = refl

or_table : ℕ → ℕ → ℕ → Bool
unfolding beq byte_bit cpu_mask_byte
or_table b k j =
    beq (byte_bit (bit_or b (cpu_mask_byte k)) j) (if eqb k j then true else byte_bit b j)

and_not_table : ℕ → ℕ → ℕ → Bool
unfolding beq byte_bit cpu_mask_byte and_not
and_not_table b k j =
    beq (byte_bit (and_not b (cpu_mask_byte k)) j) (if eqb k j then false else byte_bit b j)

invert_table : ℕ → ℕ → Bool
unfolding cpu_mask_byte and_not
invert_table b k =
    ltb (bit_or b (cpu_mask_byte k)) 256
    && ltb (and_not b (cpu_mask_byte k)) 256
    && eqb (255 - bit_or b (cpu_mask_byte k)) (and_not (255 - b) (cpu_mask_byte k))
    && eqb (255 - and_not b (cpu_mask_byte k)) (bit_or (255 - b) (cpu_mask_byte k))

or_table_holds : all_below 256 (λ b. all_below 8 (λ k. all_below 8 (λ j. or_table b k j))) ≡ true
unfolding or_table beq byte_bit cpu_mask_byte
or_table_holds = refl

and_not_table_holds :
    all_below 256 (λ b. all_below 8 (λ k. all_below 8 (λ j. and_not_table b k j))) ≡ true
unfolding and_not_table beq byte_bit cpu_mask_byte and_not
and_not_table_holds = refl

invert_table_holds : all_below 256 (λ b. all_below 8 (λ k. invert_table b k)) ≡ true
unfolding invert_table cpu_mask_byte and_not
invert_table_holds = refl

table2 :
    (t : ℕ → ℕ → Bool)
    → all_below 256 (λ b. all_below 8 (t b)) ≡ true
    → (b k : ℕ) → b < 256
    → k < 8
    → t b k ≡ true
table2 t h b k b_lt k_lt =
    all_below-holds 8 (t b) (all_below-holds 256 (λ c. all_below 8 (t c)) h b b_lt) k k_lt

table3 :
    (t : ℕ → ℕ → ℕ → Bool)
    → all_below 256 (λ b. all_below 8 (λ k. all_below 8 (t b k))) ≡ true
    → (b k j : ℕ) → b < 256
    → k < 8
    → j < 8
    → t b k j ≡ true
table3 t h b k j b_lt k_lt j_lt =
    all_below-holds 8 (t b k) (table2 (λ c i. all_below 8 (t c i)) h b k b_lt k_lt) j j_lt

pub byte_bit-bit_or :
    (b k j : ℕ)
    → b < 256
    → k < 8
    → j < 8
    → byte_bit (bit_or b (cpu_mask_byte k)) j ≡ (if eqb k j then true else byte_bit b j)
unfolding or_table
byte_bit-bit_or b k j b_lt k_lt j_lt =
    beq-eq (byte_bit (bit_or b (cpu_mask_byte k)) j) (if eqb k j then true else byte_bit b j)
      (table3 or_table or_table_holds b k j b_lt k_lt j_lt)

pub byte_bit-and_not :
    (b k j : ℕ)
    → b < 256
    → k < 8
    → j < 8
    → byte_bit (and_not b (cpu_mask_byte k)) j ≡ (if eqb k j then false else byte_bit b j)
unfolding and_not_table
byte_bit-and_not b k j b_lt k_lt j_lt =
    beq-eq (byte_bit (and_not b (cpu_mask_byte k)) j) (if eqb k j then false else byte_bit b j)
      (table3 and_not_table and_not_table_holds b k j b_lt k_lt j_lt)

-- Setting a bit and clearing it in the complement stay complements, and stay bytes.
pub bit_or-and_not :
    (b k : ℕ)
    → b < 256
    → k < 8
    → (bit_or b (cpu_mask_byte k) < 256)
      × (and_not b (cpu_mask_byte k) < 256)
      × (255 - bit_or b (cpu_mask_byte k) ≡ and_not (255 - b) (cpu_mask_byte k))
      × (255 - and_not b (cpu_mask_byte k) ≡ bit_or (255 - b) (cpu_mask_byte k))
unfolding invert_table
bit_or-and_not b k b_lt k_lt =
    let cell : invert_table b k ≡ true = table2 invert_table invert_table_holds b k b_lt k_lt in
    (ground arith, ground arith, ground arith, ground arith)
