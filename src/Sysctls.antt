-- ===== src/Sysctls.antt =====
-- pkg/config/sysctl.go: the sysctls of the configuration. A string is the list of its bytes, and
-- `trim` is strings.TrimSpace. The order of the entries of prefixNamespaces is an argument, since
-- `range` leaves it open.
pub mod Parsed
pub mod Order
mod Examples
use cri_t.Prelude.{
  if◌then◌else◌, string_eq, nat_eq, ◌==◌, Result, ok, err, ℕ, Bool, Option, none, some, List, [],
  ◌∷◌, ◌++◌,
}
use cri_t.Prelude.Bytes.{Bytes, bytes_eq, has_prefix, split_once}

pub record Sysctl : Type 0 where
  pub key : Bytes
  pub value : Bytes

pub data SysctlError : Type 0 where
  no_format extra_spaces not_allowed not_whitelisted : SysctlError

-- "="
abbrev pub equals : ℕ
equals = 61

-- One entry that is not empty.
unfoldable pub sysctl_of : (Bytes → Bytes) → Bytes → Result SysctlError Sysctl
sysctl_of trim entry =
    let (key, rest) = split_once equals entry in
    elim rest [
      | none ↦ err no_format
      | some value ↦
          if trim key ++ equals ∷ trim value == entry
          then ok (record { key = key; value = value })
          else err extra_spaces
    ]

unfoldable pub sysctls : (Bytes → Bytes) → List Bytes → Result SysctlError (List Sysctl)
unfolding sysctl_of
sysctls trim [] = ok []
sysctls trim ([] ∷ entries) = sysctls trim entries
sysctls trim ((c ∷ entry) ∷ entries) =
    let rest = sysctls trim entries in
    elim (sysctl_of trim (c ∷ entry)) [
      | err e ↦ err e
      | ok s ↦ elim rest [ err e ↦ err e | ok ss ↦ ok (s ∷ ss) ]
    ]

pub data Namespace : Type 0 where
  ipc_namespace net_namespace : Namespace

-- "kernel.sem"
abbrev pub kernel_sem : Bytes
kernel_sem = 107 ∷ 101 ∷ 114 ∷ 110 ∷ 101 ∷ 108 ∷ 46 ∷ 115 ∷ 101 ∷ 109 ∷ []

-- "kernel.shm", "kernel.msg", "fs.mqueue." and "net."
abbrev pub prefix_namespaces : List (Bytes × Namespace)
prefix_namespaces =
    (107 ∷ 101 ∷ 114 ∷ 110 ∷ 101 ∷ 108 ∷ 46 ∷ 115 ∷ 104 ∷ 109 ∷ [], ipc_namespace)
    ∷ (107 ∷ 101 ∷ 114 ∷ 110 ∷ 101 ∷ 108 ∷ 46 ∷ 109 ∷ 115 ∷ 103 ∷ [], ipc_namespace)
    ∷ (102 ∷ 115 ∷ 46 ∷ 109 ∷ 113 ∷ 117 ∷ 101 ∷ 117 ∷ 101 ∷ 46 ∷ [], ipc_namespace)
    ∷ (110 ∷ 101 ∷ 116 ∷ 46 ∷ [], net_namespace)
    ∷ []

-- The namespace of the first prefix in the order of the loop.
unfoldable pub first_match : List (Bytes × Namespace) → Bytes → Option Namespace
first_match [] key = none
first_match ((p, ns) ∷ order) key = if has_prefix key p then some ns else first_match order key

abbrev pub is_host : Bool → Bool → Namespace → Bool
is_host host_net host_ipc ipc_namespace = host_ipc
is_host host_net host_ipc net_namespace = host_net

-- Validate; `none` is that the sysctl is accepted
unfoldable pub validate : List (Bytes × Namespace) → Bool → Bool → Sysctl → Option SysctlError
unfolding first_match
validate order host_net host_ipc s =
    if s.key == kernel_sem
    then (if host_ipc then some not_allowed else none)
    else elim (first_match order s.key) [
      | none ↦ some not_whitelisted
      | some ns ↦ if is_host host_net host_ipc ns then some not_allowed else none
    ]
