-- ===== src/Devices.antt =====
-- internal/config/device/device_linux.go: the devices that the configuration or an annotation asks
-- for. A string is the list of its bytes: a mode with a byte that is not ASCII is invalid read as
-- bytes and as runes. `DeviceFromPath` of runc is a parameter, its devices a type `D`.
pub mod Modes
pub mod Parsing
pub mod Allowed
mod Examples
use cri_t.Prelude.{
  eqb, if◌then◌else◌, filter, string_eq, nat_eq, contains, Result, ok, err, ℕ, Bool, true, false,
  not, Option, none, some, List, [], ◌∷◌,
}
use cri_t.Prelude.Bytes.{Bytes, bytes_eq, has_prefix, split}

pub data DeviceError : Type 0 where
  invalid_mode invalid_specification not_allowed invalid_destination not_a_device : DeviceError

abbrev pub colon : ℕ
colon = 58

abbrev pub slash : ℕ
slash = 47

abbrev pub comma : ℕ
comma = 44

-- "rwm"
abbrev pub rwm : Bytes
rwm = 114 ∷ 119 ∷ 109 ∷ []

-- "/dev/"
abbrev pub dev_dir : Bytes
dev_dir = 47 ∷ 100 ∷ 101 ∷ 118 ∷ 47 ∷ []

abbrev pub other_than : ℕ → Bytes → Bytes
other_than c = filter (λ d. not (eqb d c))

-- The loop over the mode; `legal` are the keys that legalDeviceMode maps to true.
unfoldable pub mode_loop : Bytes → Bytes → Bool
mode_loop legal [] = true
mode_loop legal (c ∷ mode) =
    let rest = mode_loop (other_than c legal) mode in if contains legal c then rest else false

unfoldable pub is_valid_device_mode : Bytes → Bool
unfolding mode_loop
is_valid_device_mode [] = false
is_valid_device_mode (c ∷ mode) = mode_loop rwm (c ∷ mode)

-- A source, a destination and the permissions.
abbrev pub Mapping : Type 0
Mapping = Bytes × Bytes × Bytes

abbrev pub is_path : Bytes → Bool
is_path [] = true
is_path (c ∷ s) = eqb c slash

abbrev pub or_source : Bytes → Bytes → Bytes
or_source src [] = src
or_source src (c ∷ dst) = c ∷ dst

-- The case of two parts.
unfoldable pub parse_target : Bytes → Bytes → Bytes → Result DeviceError Mapping
unfolding is_valid_device_mode
parse_target src target permissions =
    if is_valid_device_mode target
    then ok (src, src, target)
    else if is_path target
    then ok (src, or_source src target, permissions)
    else err invalid_mode

unfoldable pub parse_parts : List Bytes → Result DeviceError Mapping
unfolding parse_target
parse_parts (src ∷ []) = ok (src, src, rwm)
parse_parts (src ∷ target ∷ []) = parse_target src target rwm
parse_parts (src ∷ target ∷ mode ∷ []) =
    if is_valid_device_mode mode then parse_target src target mode else err invalid_mode
parse_parts _ = err invalid_specification

unfoldable pub parse_device : Bytes → Result DeviceError Mapping
unfolding parse_parts
parse_device device = parse_parts (split colon device)

pub record Device (D : Type 0) : Type 0 where
  -- what DeviceFromPath found
  pub found : D
  pub path : Bytes
  pub access : Bytes

-- allowedDevices, where `none` is nil
abbrev pub is_allowed : Option (List Bytes) → Bytes → Bool
is_allowed none src = true
is_allowed (some allowed) src = contains allowed src

module _ {D : Type 0} (device_from_path : Bytes → Bytes → Option D) where
  -- One entry that is not empty.
  unfoldable pub device_of : Option (List Bytes) → Bytes → Result DeviceError (Device D)
  unfolding parse_device
  device_of allowed entry = elim (parse_device entry) [
    | err e ↦ err e
    | ok mapping ↦
        let (src, dst, permissions) = mapping in
        if not (is_allowed allowed src)
        then err not_allowed
        else if not (has_prefix dst dev_dir)
        then err invalid_destination
        else elim (device_from_path src permissions) [
          | none ↦ err not_a_device
          | some d ↦ ok (record { found = d; path = dst; access = permissions })
        ]
  ]

  unfoldable pub devices_from_strings :
      Option (List Bytes) → List Bytes → Result DeviceError (List (Device D))
  unfolding device_of
  devices_from_strings allowed [] = ok []
  devices_from_strings allowed ([] ∷ entries) = devices_from_strings allowed entries
  devices_from_strings allowed ((c ∷ entry) ∷ entries) =
      let rest = devices_from_strings allowed entries in
      elim (device_of allowed (c ∷ entry)) [
        | err e ↦ err e
        | ok d ↦ elim rest [ err e ↦ err e | ok ds ↦ ok (d ∷ ds) ]
      ]

  unfoldable pub devices_from_annotation : Bytes → List Bytes → Result DeviceError (List (Device D))
  unfolding devices_from_strings
  devices_from_annotation annotation allowed =
      devices_from_strings (some allowed) (split comma annotation)

  -- LoadDevices: the devices that the Config keeps from then on.
  unfoldable pub load_devices : List Bytes → List (Device D) → List (Device D) × Option DeviceError
  unfolding devices_from_strings
  load_devices entries devices = elim (devices_from_strings none entries) [
    | err e ↦ (devices, some e)
    | ok loaded ↦ (loaded, none)
  ]
