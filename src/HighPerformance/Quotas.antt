-- ===== src/HighPerformance/Quotas.antt =====
-- internal/runtimehandlerhooks/high_performance_hooks_linux.go: the CFS quotas of a pod and a container
-- that gets shared CPUs. A set of CPUs is its size here: `shared` that of the shared CPUs, `all`
-- that of the container's own and the shared ones together. `strconv.ParseInt` is a parameter.
use native.Mathlib.Nat.{mul_right_comm, mul-le-mul}
use cri_t.Prelude.{
  eqb, if◌then◌else◌, string_eq, nat_eq, ◌==◌, word, ℕ, ◌+◌, ◌-◌, ◌*◌, ◌/◌, ◌%◌, ◌≤◌, ◌<◌, String,
  ◌≡◌, ap, ◌∙◌, Bool, true, false, ◌||◌, not, Option, none, some, arith,
}

-- size * 1000 is MilliValue
unfoldable pub calculate_maximal_quota : ℕ → ℕ → ℕ
calculate_maximal_quota size period = ((size * 1000) % word * period % word) / 1000

pub data QuotaError : Type 0 where
  bad_quota shared_is_empty set_failed no_manager : QuotaError

-- -1 on int64: no limit
abbrev pub unlimited : ℕ
unlimited = word - 1

pub record CpuQuotas : Type 0 where
  pub pod : ℕ
  pub ctr : ℕ

pub record QuotaAnswers : Type 0 where
  pub sets_pod : Bool
  pub has_manager : Bool
  pub sets_ctr : Bool

module _ (parse_int : String → Option ℕ) where
  -- `existing` is what getPodQuotaV1 or getPodQuotaV2 reads.
  unfoldable pub calculate_pod_quota : ℕ → String → ℕ → Option ℕ
  unfolding calculate_maximal_quota
  calculate_pod_quota shared existing period =
      if existing == "-1" || existing == "max" then some unlimited else elim (parse_int existing) [
        | none ↦ none
        | some q ↦ some ((q + calculate_maximal_quota shared period) % word)
      ]

  unfoldable pub inject_quota_given_shared_cpus :
      QuotaAnswers → (shared all : ℕ) → String → ℕ → CpuQuotas → CpuQuotas × Option QuotaError
  unfolding calculate_pod_quota calculate_maximal_quota
  inject_quota_given_shared_cpus answers shared all existing period quotas =
      if eqb shared 0
      then (quotas, some shared_is_empty)
      else elim (calculate_pod_quota shared existing period) [
        | none ↦ (quotas, some bad_quota)
        | some q ↦
            if not answers.sets_pod
            then (quotas, some set_failed)
            else let quotas' = record quotas { pod = q } in
              if not answers.has_manager
              then (quotas', some no_manager)
              else if not answers.sets_ctr
              then (quotas', some set_failed)
              else (record quotas' { ctr = calculate_maximal_quota all period }, none)
      ]

-- Without a wrap the quota is the period for each CPU.
pub calculate_maximal_quota_lem :
    (size period : ℕ)
    → size * 1000 < word
    → size * period * 1000 < word
    → calculate_maximal_quota size period ≡ size * period
unfolding calculate_maximal_quota
calculate_maximal_quota_lem size period small fits =
    let scaled : (size * 1000) % word ≡ size * 1000 = omega (arith, small) in
    let swapped : size * 1000 * period ≡ size * period * 1000 = mul_right_comm size 1000 period in
    let whole : (size * 1000 * period) % word ≡ size * period * 1000 =
      ap (λ n. n % word) swapped ∙ omega (arith, fits) in
    ap (λ n. (n * period % word) / 1000) scaled ∙ ap (λ n. n / 1000) whole ∙ omega arith

-- What the quotas are after a success: that of the pod has grown by the shared CPUs, or is still
-- without a limit, and the container has its own and the shared CPUs.
abbrev pub HasQuotas :
    (parse_int : String → Option ℕ) → (shared all : ℕ) → String → ℕ → CpuQuotas → Type 0
HasQuotas parse_int shared all existing period quotas =
    (existing == "-1" || existing == "max" ≡ true → quotas.pod ≡ unlimited)
    × ((q : ℕ)
        → existing == "-1" || existing == "max" ≡ false
        → parse_int existing ≡ some q
        → q + shared * period < word
        → quotas.pod ≡ q + shared * period)
    × (quotas.ctr ≡ all * period)

-- A success of injectQuotaGivenSharedCPUs leaves the pod without a limit if it had none, else with its
-- quota raised by the period for each shared CPU, and gives the container the period for each of its
-- CPUs, where the products with 1000 stay below 2 ^ 64.
pub inject_quota_given_shared_cpus-HasQuotas :
    (parse_int : String → Option ℕ) (answers : QuotaAnswers) (shared all : ℕ) (existing : String)
    (period : ℕ) (quotas : CpuQuotas)
    → shared ≤ all
    → all * 1000 < word
    → all * period * 1000 < word
    → let after =
        inject_quota_given_shared_cpus parse_int answers shared all existing period quotas in
      after.1 ≡ none → HasQuotas parse_int shared all existing period after.0
unfolding inject_quota_given_shared_cpus calculate_pod_quota
inject_quota_given_shared_cpus-HasQuotas parse_int answers shared all existing period quotas le
      small fits good =
    let same : period ≤ period = omega arith in
    let fits' : shared * period * 1000 < word = omega (arith, mul-le-mul le same, fits) in
    ground (
      arith,
      good,
      calculate_maximal_quota_lem all period small fits,
      calculate_maximal_quota_lem shared period (omega (arith, le, small)) fits',
    )
