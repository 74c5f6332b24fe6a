-- ===== src/Devices/Examples.antt =====
-- The theorems on devices at concrete strings.
use mathlib.Core.Path.{◌≡◌, refl}
use cri_t.Prelude.{
  All, string_eq, nat_eq, ok, ◌≡◌, refl, true, false, Option, some, List, [], ◌∷◌, ◌++◌,
}
use cri_t.Prelude.Bytes.{Bytes, bytes_eq}
use cri_t.Devices.{
  colon, slash, comma, rwm, mode_loop, is_valid_device_mode, parse_target, parse_parts,
  parse_device, Device, device_of, devices_from_strings, devices_from_annotation,
}
use cri_t.Devices.Parsing.{printed, parse_device-printed}
use cri_t.Devices.Allowed.{IsAllowed, devices_from_annotation-IsAllowed}

-- "/dev/f", "/dev/g" and "rw"
abbrev fuse : Bytes
fuse = 47 ∷ 100 ∷ 101 ∷ 118 ∷ 47 ∷ 102 ∷ []

abbrev inside : Bytes
inside = 100 ∷ 101 ∷ 118 ∷ 47 ∷ 103 ∷ []

abbrev read_write : Bytes
read_write = 114 ∷ 119 ∷ []

valid_read_write : is_valid_device_mode read_write ≡ true
unfolding is_valid_device_mode mode_loop
valid_read_write = refl

twice_invalid : is_valid_device_mode (114 ∷ 114 ∷ []) ≡ false
unfolding is_valid_device_mode mode_loop
twice_invalid = refl

parse_device-printed_example :
    parse_device (printed (fuse, slash ∷ inside, read_write))
    ≡ ok (fuse, slash ∷ inside, read_write)
parse_device-printed_example =
    parse_device-printed fuse inside read_write (refl, (refl, (refl, (refl, (refl, (refl, tt))))))
      (refl, (refl, (refl, (refl, (refl, (refl, tt)))))) (refl, (refl, tt)) valid_read_write

valid_read : is_valid_device_mode (114 ∷ []) ≡ true
unfolding is_valid_device_mode mode_loop
valid_read = refl

-- A host on which every path is a device, named by its path.
abbrev any_device : Bytes → Bytes → Option Bytes
any_device path permissions = some path

abbrev annotation : Bytes
annotation = fuse ++ comma ∷ (fuse ++ colon ∷ read_write)

abbrev given : List (Device Bytes)
given =
    record { found = fuse; path = fuse; access = rwm }
    ∷ record { found = fuse; path = fuse; access = read_write }
    ∷ []

given_ok : devices_from_annotation any_device annotation (fuse ∷ []) ≡ ok given
unfolding devices_from_annotation devices_from_strings device_of parse_device parse_parts
    parse_target is_valid_device_mode mode_loop
given_ok = refl

devices_from_annotation-IsAllowed_example : All (IsAllowed any_device (fuse ∷ [])) given
devices_from_annotation-IsAllowed_example =
    devices_from_annotation-IsAllowed any_device annotation (fuse ∷ []) given given_ok
