-- ===== src/Irq/Update.antt =====
-- internal/runtimehandlerhooks/utils_linux.go: what the loop of UpdateIRQSmpAffinityMask does to the
-- bit of every CPU.
use Prim.Native.Nat.{bit_or}
use mathlib.Core.Path.{ap, ◌≡◌, refl}
use cri_t.Prelude.{
  eqb, if◌then◌else◌, Bool-cases, Option-cases, length, get_elem?, All, nat_eq, string_eq, contains,
  ℕ, zero, suc, ◌-◌, ◌/◌, ◌%◌, ◌≤◌, ◌<◌, ◌≡◌, refl, ap, inl, inr, Bool, true, false, none, some,
  List, [], ◌∷◌, arith,
}
use cri_t.Irq.{cpu_mask_byte, and_not, invert_byte_array, update_at, update_cpu, update_cpus}
use cri_t.Irq.Bits.{byte_bit, byte_bit-bit_or, byte_bit-and_not, bit_or-and_not}

abbrev pub IsBytes : List ℕ → Type 0
IsBytes = All (λ b. b < 256)

-- Whether the mask has a CPU's bit.
unfoldable pub has_cpu : List ℕ → ℕ → Bool
unfolding byte_bit
has_cpu mask cpu = elim (get_elem? mask (cpu / 8)) [ none ↦ false | some b ↦ byte_bit b (cpu % 8) ]

get_elem?-lt :
    (bs : List ℕ) (i : ℕ)
    → IsBytes bs
    → i < length bs
    → (b : ℕ) × (b < 256) × (get_elem? bs i ≡ some b)
get_elem?-lt [] i h lt = absurd (omega (arith, lt))
get_elem?-lt (b ∷ bs) zero (p, h) lt = (b, p, refl)
get_elem?-lt (b ∷ bs) (suc i) (p, h) lt = get_elem?-lt bs i h (omega (arith, lt))

-- A byte of the mask and the same byte of the complement are updated alike.
update_at-lem :
    (i : ℕ) (f g : ℕ → ℕ) (bs : List ℕ)
    → ((b : ℕ) → b < 256 → (f b < 256) × (255 - f b ≡ g (255 - b)))
    → IsBytes bs
    → i < length bs
    → (cs : List ℕ) × (update_at i f bs ≡ some cs)
      × IsBytes cs
      × (length cs ≡ length bs)
      × (update_at i g (invert_byte_array bs) ≡ some (invert_byte_array cs))
unfolding update_at invert_byte_array
update_at-lem i f g [] law h lt = absurd (omega (arith, lt))
update_at-lem zero f g (b ∷ bs) law (p, h) lt =
    (f b ∷ bs, refl, ((law b p).0, h), refl, rw (law b p).1 refl)
update_at-lem (suc i) f g (b ∷ bs) law (p, h) lt =
    let (cs, done, bytes, len, inverse) = update_at-lem i f g bs law h (omega (arith, lt)) in
    (b ∷ cs, rw done refl, (p, bytes), omega (arith, len), rw inverse refl)

get_elem?-update_at :
    (i : ℕ) (f : ℕ → ℕ) (bs cs : List ℕ)
    → update_at i f bs ≡ some cs
    → (j b : ℕ) → get_elem? bs j ≡ some b
    → get_elem? cs j ≡ some (if eqb i j then f b else b)
unfolding update_at
get_elem?-update_at i f [] cs done j b at = absurd (cc)
get_elem?-update_at zero f (x ∷ bs) cs done zero b at = ground arith
get_elem?-update_at zero f (x ∷ bs) cs done (suc j) b at = ground arith
get_elem?-update_at (suc i) f (x ∷ bs) cs done zero b at = elim (Option-cases (update_at i f bs)) [
  | inl out ↦ absurd (ground arith)
  | inr (ds, found) ↦ ground arith
]
get_elem?-update_at (suc i) f (x ∷ bs) cs done (suc j) b at =
    elim (Option-cases (update_at i f bs)) [
      | inl out ↦ absurd (ground arith)
      | inr (ds, found) ↦ ground (arith, get_elem?-update_at i f bs ds found j b at)
    ]

has_cpu-at :
    (mask : List ℕ) (j b : ℕ)
    → get_elem? mask (j / 8) ≡ some b
    → has_cpu mask j ≡ byte_bit b (j % 8)
unfolding has_cpu
has_cpu-at mask j b at = ap (λ o. elim o [ none ↦ false | some c ↦ byte_bit c (j % 8) ]) at

has_cpu-update_at :
    (set : Bool) (cpu : ℕ) (f : ℕ → ℕ) (mask mask' : List ℕ)
    → ((b j : ℕ)
        → b < 256
        → j < 8
        → byte_bit (f b) j ≡ (if eqb (cpu % 8) j then set else byte_bit b j))
    → IsBytes mask
    → update_at (cpu / 8) f mask ≡ some mask'
    → (j : ℕ) → j / 8 < length mask
    → has_cpu mask' j ≡ (if eqb cpu j then set else has_cpu mask j)
unfolding has_cpu
has_cpu-update_at set cpu f mask mask' law h done j lt =
    let (b, b_lt, at) = get_elem?-lt mask (j / 8) h lt in
    let at' = get_elem?-update_at (cpu / 8) f mask mask' done (j / 8) b at in
    let small : j % 8 < 8 = omega arith in
    let bit = law b (j % 8) b_lt small in
    let old_bit = has_cpu-at mask j b at in
    let new_bit = has_cpu-at mask' j (if eqb (cpu / 8) (j / 8) then f b else b) at' in
    elim (Bool-cases (eqb (cpu / 8) (j / 8))) [
      | inl same ↦ ground (arith, bit, old_bit, new_bit)
      | inr other ↦ ground (arith, old_bit, new_bit)
    ]

-- One CPU within the mask: it succeeds, the second array stays the complement of the first, the
-- CPU's bit is `set` and no other bit changes.
pub update_cpu-lem :
    (set : Bool) (cpu : ℕ) (mask : List ℕ)
    → IsBytes mask
    → cpu / 8 < length mask
    → (mask' : List ℕ) × (update_cpu set cpu (mask, invert_byte_array mask)
        ≡ some (mask', invert_byte_array mask'))
      × IsBytes mask'
      × (length mask' ≡ length mask)
      × ((j : ℕ)
          → j / 8 < length mask
          → has_cpu mask' j ≡ (if eqb cpu j then set else has_cpu mask j))
unfolding update_cpu
update_cpu-lem true cpu mask h lt =
    let small : cpu % 8 < 8 = omega arith in
    let bit = cpu_mask_byte (cpu % 8) in
    let (cs, done, bytes, len, inverse) =
      update_at-lem (cpu / 8) (λ b. bit_or b bit) (λ b. and_not b bit) mask
        (λ b b_lt. let row = bit_or-and_not b (cpu % 8) b_lt small in (row.0, row.2)) h lt in
    (
      cs,
      rw (done, inverse, update_cpu) refl,
      bytes,
      len,
      has_cpu-update_at true cpu (λ b. bit_or b bit) mask cs
          (λ b j b_lt j_lt. byte_bit-bit_or b (cpu % 8) j b_lt small j_lt) h done,
    )
update_cpu-lem false cpu mask h lt =
    let small : cpu % 8 < 8 = omega arith in
    let bit = cpu_mask_byte (cpu % 8) in
    let (cs, done, bytes, len, inverse) =
      update_at-lem (cpu / 8) (λ b. and_not b bit) (λ b. bit_or b bit) mask
        (λ b b_lt. let row = bit_or-and_not b (cpu % 8) b_lt small in (row.1, row.3)) h lt in
    (
      cs,
      rw (done, inverse, update_cpu) refl,
      bytes,
      len,
      has_cpu-update_at false cpu (λ b. and_not b bit) mask cs
          (λ b j b_lt j_lt. byte_bit-and_not b (cpu % 8) j b_lt small j_lt) h done,
    )

-- For an array of bytes and CPUs within it, the loop succeeds: the arrays it leaves are again
-- bytes, of the same length and complements of each other, and in the first one the bit of every
-- CPU within the mask is `set` if the CPU is listed and what it was otherwise.
pub update_cpus-has_cpu :
    (set : Bool) (cpus : List ℕ) (mask : List ℕ)
    → IsBytes mask
    → All (λ cpu. cpu / 8 < length mask) cpus
    → (mask' : List ℕ) × (update_cpus set cpus (mask, invert_byte_array mask)
        ≡ some (mask', invert_byte_array mask'))
      × IsBytes mask'
      × (length mask' ≡ length mask)
      × ((j : ℕ)
          → j / 8 < length mask
          → has_cpu mask' j ≡ (if contains cpus j then set else has_cpu mask j))
unfolding update_cpus
update_cpus-has_cpu set [] mask h within = (mask, refl, h, refl, λ j lt. refl)
update_cpus-has_cpu set (cpu ∷ cpus) mask h (lt, within) =
    let (m, once, m_h, m_len, m_bit) = update_cpu-lem set cpu mask h lt in
    let within' : All (λ c. c / 8 < length m) cpus = rw m_len within in
    let (m', done, h', len, bits) = update_cpus-has_cpu set cpus m m_h within' in
    (
      m',
      rw (once, update_cpus) done,
      h',
      omega (arith, len, m_len),
      λ j j_lt. elim (Bool-cases (contains cpus j)) [
        | inl listed ↦ ground (arith, bits j (omega (arith, m_len, j_lt)))
        | inr fresh ↦ ground (arith, bits j (omega (arith, m_len, j_lt)), m_bit j j_lt)
      ],
    )

update_at-out : (i : ℕ) (f : ℕ → ℕ) (bs : List ℕ) → length bs ≤ i → update_at i f bs ≡ none
unfolding update_at
update_at-out i f [] le = refl
update_at-out zero f (b ∷ bs) le = absurd (omega (arith, le))
update_at-out (suc i) f (b ∷ bs) le = rw (update_at-out i f bs (omega (arith, le))) refl
