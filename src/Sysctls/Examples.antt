-- ===== src/Sysctls/Examples.antt =====
-- The theorems on sysctls at concrete entries.
use mathlib.Core.Path.{◌≡◌, refl}
use cri_t.Prelude.{
  eqb, if◌then◌else◌, string_eq, nat_eq, ok, err, ◌≡◌, refl, true, false, some, List, [], ◌∷◌, map,
}
use cri_t.Prelude.Bytes.{Bytes, bytes_eq}
use cri_t.Sysctls.{
  Sysctl, extra_spaces, not_allowed, sysctl_of, sysctls, Namespace, ipc_namespace, net_namespace,
  first_match, validate,
}
use cri_t.Sysctls.Parsed.{printed, filled, sysctls-printed}

-- Removes one space at the front, which is enough here.
abbrev trim : Bytes → Bytes
trim [] = []
trim (c ∷ s) = if eqb c 32 then s else c ∷ s

-- "net.a=1", "" and "net.a= 1"
abbrev tight : Bytes
tight = 110 ∷ 101 ∷ 116 ∷ 46 ∷ 97 ∷ 61 ∷ 49 ∷ []

abbrev loose : Bytes
loose = 110 ∷ 101 ∷ 116 ∷ 46 ∷ 97 ∷ 61 ∷ 32 ∷ 49 ∷ []

abbrev net_a : Sysctl
net_a = record { key = 110 ∷ 101 ∷ 116 ∷ 46 ∷ 97 ∷ []; value = 49 ∷ [] }

tight_ok : sysctls trim ([] ∷ tight ∷ []) ≡ ok (net_a ∷ [])
unfolding sysctls sysctl_of
tight_ok = refl

loose_fails : sysctls trim (tight ∷ loose ∷ []) ≡ err extra_spaces
unfolding sysctls sysctl_of
loose_fails = refl

sysctls-printed_example : map printed (net_a ∷ []) ≡ filled ([] ∷ tight ∷ [])
sysctls-printed_example = sysctls-printed trim ([] ∷ tight ∷ []) (net_a ∷ []) tight_ok

-- The prefixes the other way round.
abbrev turned : List (Bytes × Namespace)
turned =
    (110 ∷ 101 ∷ 116 ∷ 46 ∷ [], net_namespace)
    ∷ (102 ∷ 115 ∷ 46 ∷ 109 ∷ 113 ∷ 117 ∷ 101 ∷ 117 ∷ 101 ∷ 46 ∷ [], ipc_namespace)
    ∷ (107 ∷ 101 ∷ 114 ∷ 110 ∷ 101 ∷ 108 ∷ 46 ∷ 109 ∷ 115 ∷ 103 ∷ [], ipc_namespace)
    ∷ (107 ∷ 101 ∷ 114 ∷ 110 ∷ 101 ∷ 108 ∷ 46 ∷ 115 ∷ 104 ∷ 109 ∷ [], ipc_namespace)
    ∷ []

net_a_refused : validate turned true false net_a ≡ some not_allowed
unfolding validate first_match
net_a_refused = refl
