-- ===== src/Workloads/Quota.antt =====
-- milliCPUToQuota of pkg/config/workloads.go: the bounds of the quota and its accuracy.
use cri_t.Prelude.{
  eqb, if◌then◌else◌, ◌≡◌, ◌⊎◌, inl, inr, ltb, Bool-cases, nat_eq, string_eq, half_word, signed_ltb,
  ℕ, ◌+◌, ◌*◌, ◌≤◌, ◌<◌, arith,
}
use cri_t.Workloads.{signed_div_1000, milli_cpu_to_quota}

-- Every limit other than 0 gives a quota of at least 1 ms that is not negative as an int64, also
-- where the product overflows.
pub milli_cpu_to_quota-ge :
    (milli_cpu period : ℕ)
    → 0 < milli_cpu
    → (1000 ≤ milli_cpu_to_quota milli_cpu period)
      × (milli_cpu_to_quota milli_cpu period < half_word)
unfolding milli_cpu_to_quota signed_ltb signed_div_1000
milli_cpu_to_quota-ge milli_cpu period pos = ground arith

-- The period that stands for one CPU, in microseconds.
abbrev pub period_of : ℕ → ℕ
period_of period = if eqb period 0 then 100000 else period

-- The share of the period that a limit in thousandths of a CPU stands for, to less than a
-- microsecond, but at least 1 ms.
abbrev pub IsQuota : ℕ → ℕ → ℕ → Type 0
IsQuota milli_cpu period quota =
    (milli_cpu * period < 1000000) × (quota ≡ 1000)
    ⊎ (1000000 ≤ milli_cpu * period)
      × (1000 * quota ≤ milli_cpu * period)
      × (milli_cpu * period < 1000 * quota + 1000)

pub milli_cpu_to_quota-IsQuota :
    (milli_cpu period : ℕ)
    → 0 < milli_cpu
    → milli_cpu * period_of period < half_word
    → IsQuota milli_cpu (period_of period) (milli_cpu_to_quota milli_cpu period)
unfolding milli_cpu_to_quota signed_ltb signed_div_1000
milli_cpu_to_quota-IsQuota milli_cpu period pos fits =
    elim (Bool-cases (ltb (milli_cpu * period_of period) 1000000)) [
      | inl small ↦ inl (ground arith)
      | inr large ↦ inr (ground arith)
    ]

-- Where the product does not overflow and the quota is at least 1 ms, the quota is the share of the
-- period that the limit in thousandths of a CPU stands for, to less than a microsecond.
pub milli_cpu_to_quota-exact :
    (milli_cpu period : ℕ)
    → 0 < period
    → 1000000 ≤ milli_cpu * period
    → milli_cpu * period < half_word
    → (1000 * milli_cpu_to_quota milli_cpu period ≤ milli_cpu * period)
      × (milli_cpu * period < 1000 * milli_cpu_to_quota milli_cpu period + 1000)
unfolding milli_cpu_to_quota signed_ltb signed_div_1000
milli_cpu_to_quota-exact milli_cpu period pos large fits = ground arith
