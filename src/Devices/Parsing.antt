-- ===== src/Devices/Parsing.antt =====
-- internal/config/device/device_linux.go: a device that is printed is parsed again.
use cri_t.Prelude.{string_eq, nat_eq, ok, ◌≡◌, refl, true, ◌∷◌, ◌++◌}
use cri_t.Prelude.Bytes.{Bytes, bytes_eq, Lacks, split-append, split-Lacks}
use cri_t.Devices.{
  colon, slash, is_valid_device_mode, Mapping, parse_target, parse_parts, parse_device,
}

-- SOURCE:DESTINATION:MODE
abbrev pub printed : Mapping → Bytes
printed (src, dst, mode) = src ++ colon ∷ (dst ++ colon ∷ mode)

-- A source, a destination that starts with a slash and a valid mode, none of them with a colon,
-- are what parseDevice returns for them joined by colons.
pub parse_device-printed :
    (src dst mode : Bytes)
    → Lacks colon src
    → Lacks colon (slash ∷ dst)
    → Lacks colon mode
    → is_valid_device_mode mode ≡ true
    → parse_device (printed (src, slash ∷ dst, mode)) ≡ ok (src, slash ∷ dst, mode)
unfolding parse_device parse_parts parse_target
parse_device-printed src dst mode h d m valid =
    rw
      (
        split-append colon src ((slash ∷ dst) ++ colon ∷ mode) h,
        split-append colon (slash ∷ dst) mode d,
        split-Lacks colon mode m,
      )
      (rw valid refl)

-- Where the second of three parts is itself a valid mode, it is the mode, whatever the third part
-- is, and the device stands at its source.
pub parse_device-second_mode :
    (src target mode : Bytes)
    → Lacks colon src
    → Lacks colon target
    → Lacks colon mode
    → is_valid_device_mode target ≡ true
    → is_valid_device_mode mode ≡ true
    → parse_device (printed (src, target, mode)) ≡ ok (src, src, target)
unfolding parse_device parse_parts parse_target
parse_device-second_mode src target mode h t m first second =
    rw
      (
        split-append colon src (target ++ colon ∷ mode) h,
        split-append colon target mode t,
        split-Lacks colon mode m,
      )
      (rw (second, first) refl)
