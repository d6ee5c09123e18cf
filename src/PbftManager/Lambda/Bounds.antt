-- ===== src/PbftManager/Lambda/Bounds.antt =====
-- PbftManager: the limits of the dynamic lambda and of the lambda of a round.
use rustaxa.Common.{
  ℕ, ◌+◌, ◌-◌, ◌%◌, ◌≤◌, ◌<◌, max, min, ◌≡◌, inl, inr, Bool, ◌&&◌, arith, ltb, ◌==◌, if◌then◌else◌,
  Bool-cases, u32,
}
use rustaxa.PbftManager.{
  CactiHardforkConfig, GenesisConfig, Lambdas, is_dynamic_lambda_change_interval,
}
use rustaxa.PbftManager.Lambda.{
  at_interval, increase_lambda, adjust_dynamic_lambda, step_lambda, k_max_exponential_lambda,
}

-- A configuration whose change never wraps around.
pub record IsLimited (c : CactiHardforkConfig) : Type 0 where
  pub ordered : c.lambda_min ≤ c.lambda_max
  pub low : c.lambda_change ≤ c.lambda_min
  pub high : c.lambda_max + c.lambda_change < u32

abbrev pub IsWithin : CactiHardforkConfig → Lambdas → Type 0
IsWithin c s = (c.lambda_min ≤ s.dynamic_lambda) × (s.dynamic_lambda ≤ c.lambda_max)

-- adjustDynamicLambda by a case for each kind of period.
abbrev pub expected_lambda : CactiHardforkConfig → Bool → ℕ → ℕ → ℕ
expected_lambda c all_first finalized_round lambda =
    let lowered = if all_first then max c.lambda_min (lambda - c.lambda_change) else lambda in
    if ltb 1 finalized_round then min c.lambda_max (lowered + c.lambda_change) else lowered

at_interval_lem :
    (c : CactiHardforkConfig) (count lambda : ℕ)
    → IsLimited c
    → c.lambda_min ≤ lambda
    → lambda ≤ c.lambda_max
    → at_interval c count lambda ≡ (
        if count == c.lambda_change_interval
        then max c.lambda_min (lambda - c.lambda_change)
        else lambda)
unfolding at_interval
at_interval_lem c count lambda l low high = ground arith

increase_lambda_lem :
    (c : CactiHardforkConfig) (lambda : ℕ)
    → IsLimited c
    → lambda ≤ c.lambda_max
    → increase_lambda c lambda ≡ min c.lambda_max (lambda + c.lambda_change)
unfolding increase_lambda
increase_lambda_lem c lambda l high = ground arith

-- With limits in order and a change that never wraps around, adjustDynamicLambda keeps the dynamic
-- lambda within the limits, and its value is that of the rule: lower by the change if the interval
-- took one round for each block, then higher by it after a round above 1, each up to the limit.
pub adjust_dynamic_lambda_lem :
    (c : CactiHardforkConfig) (period round : ℕ) (s : Lambdas)
    → IsLimited c
    → IsWithin c s
    → IsWithin c (adjust_dynamic_lambda c period round s)
      × ((adjust_dynamic_lambda c period round s).dynamic_lambda
          ≡ expected_lambda c
              (is_dynamic_lambda_change_interval period c
                && (s.rounds_count_dynamic_lambda + round) % u32 == c.lambda_change_interval)
              round
              s.dynamic_lambda)
unfolding adjust_dynamic_lambda
adjust_dynamic_lambda_lem c period round s l w =
    let count = (s.rounds_count_dynamic_lambda + round) % u32 in
    let lambda = s.dynamic_lambda in
    elim (Bool-cases (is_dynamic_lambda_change_interval period c)) [
      | inr e ↦ ground (arith, increase_lambda_lem c lambda)
      | inl e ↦ ground (
        arith,
        at_interval_lem c count lambda,
        increase_lambda_lem c (at_interval c count lambda),
      )
    ]

-- With a lambda of the genesis of at most kMaxExponentialLambda, setPbftStep keeps the lambda of the
-- round at most that.
pub step_lambda_bounded :
    (g : GenesisConfig) (step network_step : ℕ) (s : Lambdas)
    → g.lambda_ms ≤ k_max_exponential_lambda
    → s.current_round_lambda ≤ k_max_exponential_lambda
    → (step_lambda g step network_step s).current_round_lambda ≤ k_max_exponential_lambda
unfolding step_lambda
step_lambda_bounded g step network_step s base h = ground arith
