-- ===== src/Devices/Allowed.antt =====
-- internal/config/device/device_linux.go: which devices a container can get.
use cri_t.Prelude.{
  Bool-cases, Option-cases, All, string_eq, nat_eq, contains, Result, ok, err, Result-cases, ◌≡◌,
  refl, inl, inr, true, not, Option, some, List, [], ◌∷◌, arith,
}
use mathlib.Core.Path.{subst}
use cri_t.Prelude.Bytes.{Bytes, bytes_eq, has_prefix, split}
use cri_t.Devices.{
  DeviceError, colon, comma, rwm, dev_dir, mode_loop, is_valid_device_mode, Mapping, parse_target,
  parse_parts, parse_device, Device, device_of, devices_from_strings, devices_from_annotation,
}

-- Every mode that parseDevice returns is valid.
IsModed : Result DeviceError Mapping → Type 0
IsModed (ok (src, dst, mode)) = is_valid_device_mode mode ≡ true
IsModed (err e) = Unit

parse_target-IsModed :
    (src target mode : Bytes)
    → is_valid_device_mode mode ≡ true
    → IsModed (parse_target src target mode)
unfolding parse_target IsModed
parse_target-IsModed src target mode valid = ground (arith, valid)

parse_parts-IsModed : (parts : List Bytes) → IsModed (parse_parts parts)
unfolding parse_parts IsModed
parse_parts-IsModed [] = tt
parse_parts-IsModed (src ∷ []) = unfold is_valid_device_mode mode_loop in refl
parse_parts-IsModed (src ∷ target ∷ []) =
    parse_target-IsModed src target rwm (unfold is_valid_device_mode mode_loop in refl)
parse_parts-IsModed (src ∷ target ∷ mode ∷ []) = elim (Bool-cases (is_valid_device_mode mode)) [
  | inl valid ↦ rw (valid, parse_parts) (parse_target-IsModed src target mode valid)
  | inr bad ↦ rw (bad, parse_parts) tt
]
parse_parts-IsModed (src ∷ target ∷ mode ∷ more ∷ parts) = tt

parse_device-mode :
    (entry : Bytes) (m : Mapping) → parse_device entry ≡ ok m → is_valid_device_mode m.2 ≡ true
unfolding parse_device IsModed
parse_device-mode entry m good = subst IsModed good (parse_parts-IsModed (split colon entry))

module _ {D : Type 0} (device_from_path : Bytes → Bytes → Option D) where
  -- A device that an allowed source gave, under /dev, with a valid mode.
  abbrev pub IsAllowed : List Bytes → Device D → Type 0
  IsAllowed allowed d =
      (has_prefix d.path dev_dir ≡ true)
      × (is_valid_device_mode d.access ≡ true)
      × ((src : Bytes) × (contains allowed src ≡ true)
          × (device_from_path src d.access ≡ some d.found))

  abbrev AllowedOk : List Bytes → Result DeviceError (Device D) → Type 0
  AllowedOk allowed (ok d) = IsAllowed allowed d
  AllowedOk allowed (err e) = Unit

  device_of-AllowedOk :
      (allowed : List Bytes) (entry : Bytes)
      → AllowedOk allowed (device_of device_from_path (some allowed) entry)
  unfolding device_of
  device_of-AllowedOk allowed entry = elim (Result-cases (parse_device entry)) [
    | inr (e, bad) ↦ rw (bad, device_of) tt
    | inl (mapping, good) ↦ elim (Bool-cases (not (contains allowed mapping.0))) [
      | inl bad ↦ rw (good, bad, device_of) tt
      | inr listed ↦ elim (Bool-cases (not (has_prefix mapping.1 dev_dir))) [
        | inl bad ↦ rw (good, listed, bad, device_of) tt
        | inr under ↦ elim (Option-cases (device_from_path mapping.0 mapping.2)) [
          | inl bad ↦ rw (good, listed, under, bad, device_of) tt
          | inr (d, found) ↦
              rw (good, listed, under, found, device_of)
                (
                  ground (arith, under),
                  parse_device-mode entry mapping good,
                  (mapping.0, ground (arith, listed), found),
                )
        ]
      ]
    ]
  ]

  abbrev AllAllowed : List Bytes → Result DeviceError (List (Device D)) → Type 0
  AllAllowed allowed (ok ds) = All (IsAllowed allowed) ds
  AllAllowed allowed (err e) = Unit

  devices_from_strings-AllAllowed :
      (allowed entries : List Bytes)
      → AllAllowed allowed (devices_from_strings device_from_path (some allowed) entries)
  unfolding devices_from_strings
  devices_from_strings-AllAllowed allowed [] = tt
  devices_from_strings-AllAllowed allowed ([] ∷ entries) =
      devices_from_strings-AllAllowed allowed entries
  devices_from_strings-AllAllowed allowed ((c ∷ entry) ∷ entries) =
      elim (Result-cases (device_of device_from_path (some allowed) (c ∷ entry))) [
        | inr (e, bad) ↦ rw (bad, devices_from_strings) tt
        | inl (d, good) ↦
            elim (Result-cases (devices_from_strings device_from_path (some allowed) entries)) [
              | inr (e, bad) ↦ rw (good, bad, devices_from_strings) tt
              | inl (ds, fine) ↦
                  rw (good, fine, devices_from_strings)
                    (
                      subst (AllowedOk allowed) good (device_of-AllowedOk allowed (c ∷ entry)),
                      subst (AllAllowed allowed) fine
                          (devices_from_strings-AllAllowed allowed entries),
                    )
            ]
      ]

  -- The path of every device that an annotation gives to a container begins with /dev/, its access is
  -- a valid mode, and it is what DeviceFromPath found at a source of the allowed devices with that access.
  pub devices_from_annotation-IsAllowed :
      (annotation : Bytes) (allowed : List Bytes) (ds : List (Device D))
      → devices_from_annotation device_from_path annotation allowed ≡ ok ds
      → All (IsAllowed allowed) ds
  unfolding devices_from_annotation
  devices_from_annotation-IsAllowed annotation allowed ds good =
      subst (AllAllowed allowed) good
        (devices_from_strings-AllAllowed allowed (split comma annotation))
