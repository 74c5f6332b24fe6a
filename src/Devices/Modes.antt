-- ===== src/Devices/Modes.antt =====
-- internal/config/device/device_linux.go: which modes are valid.
use cri_t.Prelude.{
  eqb, if◌then◌else◌, All, string_eq, nat_eq, contains, ℕ, ◌≡◌, refl, ◌≢◌, ◌↔◌, true, false, [],
  ◌∷◌, arith,
}
use cri_t.Prelude.Bytes.{Bytes, bytes_eq}
use cri_t.Devices.{rwm, other_than, mode_loop, is_valid_device_mode}

-- Letters of rwm, each at most once.
abbrev pub Distinct : Bytes → Type 0
Distinct [] = Unit
Distinct (c ∷ s) = (contains s c ≡ false) × Distinct s

abbrev pub AllIn : Bytes → Bytes → Type 0
AllIn legal = All (λ c. contains legal c ≡ true)

contains-other_than :
    (c d : ℕ) (l : Bytes) → contains (other_than c l) d ≡ (if eqb c d then false else contains l d)
contains-other_than c d [] = ground arith
contains-other_than c d (x ∷ l) = ground (arith, contains-other_than c d l)

AllIn-weaken :
    (c : ℕ) (legal mode : Bytes)
    → AllIn (other_than c legal) mode
    → AllIn legal mode × (contains mode c ≡ false)
AllIn-weaken c legal [] all = (tt, refl)
AllIn-weaken c legal (d ∷ mode) (here, all) =
    let (rest, new) = AllIn-weaken c legal mode all in
    (
      (ground (arith, here, contains-other_than c d legal), rest),
      ground (arith, here, new, contains-other_than c d legal),
    )

AllIn-other_than :
    (c : ℕ) (legal mode : Bytes)
    → AllIn legal mode
    → contains mode c ≡ false
    → AllIn (other_than c legal) mode
AllIn-other_than c legal [] all new = tt
AllIn-other_than c legal (d ∷ mode) (here, all) new = (
  ground (arith, here, new, contains-other_than c d legal),
  AllIn-other_than c legal mode all (ground (arith, new)),
)

mode_loop-to : (legal mode : Bytes) → mode_loop legal mode ≡ true → AllIn legal mode × Distinct mode
unfolding mode_loop
mode_loop-to legal [] h = (tt, tt)
mode_loop-to legal (c ∷ mode) h =
    let (all, distinct) = mode_loop-to (other_than c legal) mode (ground (arith, h)) in
    let (rest, new) = AllIn-weaken c legal mode all in ((ground (arith, h), rest), (new, distinct))

mode_loop-from :
    (legal mode : Bytes) → AllIn legal mode → Distinct mode → mode_loop legal mode ≡ true
unfolding mode_loop
mode_loop-from legal [] all distinct = refl
mode_loop-from legal (c ∷ mode) (here, all) (new, distinct) =
    rw here
      (mode_loop-from (other_than c legal) mode (AllIn-other_than c legal mode all new) distinct)

-- A mode is valid exactly where it is not empty, has only the letters r, w and m, and has none of
-- them twice.
pub is_valid_device_mode_iff :
    (mode : Bytes)
    → (is_valid_device_mode mode ≡ true) ↔ ((mode ≢ []) × AllIn rwm mode × Distinct mode)
unfolding is_valid_device_mode
is_valid_device_mode_iff [] = ((λ bad. absurd (ground (arith, bad))), (λ m. absurd (m.0 refl)))
is_valid_device_mode_iff (c ∷ mode) = (
  (λ h.
      let (all, distinct) = mode_loop-to rwm (c ∷ mode) h in
      ((λ p. absurd (ground (arith, p))), all, distinct)),
  (λ m. mode_loop-from rwm (c ∷ mode) m.1 m.2),
)
