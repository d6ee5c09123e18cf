-- ===== src/PbftManager/Lambda.antt =====
-- PbftManager: adjustDynamicLambda, getRoundLambda, getPbftDeadline, and the part of setPbftStep that
-- backs off the lambda of the round.
pub mod Bounds
use rustaxa.Common.{
  ℕ, zero, suc, ◌+◌, ◌-◌, ◌*◌, ◌/◌, ◌%◌, ◌^◌, ◌≤◌, ◌<◌, max, min, ◌≡◌, refl, sym, ap, subst, ◌∙◌,
  ◌≢◌, ◌↔◌, ◌⊎◌, inl, inr, Bool, true, false, not, ◌&&◌, ◌||◌, Option, none, some, List, [], ◌∷◌,
  ◌++◌, map, arith, ltb, leb, ◌==◌, if◌then◌else◌, ltb→lt, ==_iff, Bool-cases, Option-cases, u64,
  u32, length, All, length-append, total,
}
use rustaxa.PbftManager.{
  CactiHardforkConfig, GenesisConfig, Lambdas, is_dynamic_lambda_change_interval,
  is_on_cacti_hardfork,
}

abbrev pub k_max_steps : ℕ
k_max_steps = 13

abbrev pub k_max_exponential_lambda : ℕ
k_max_exponential_lambda = 60000

-- `dynamic_lambda_ -= change`, on `uint32_t`, then the lower limit.
unfoldable pub decrease_lambda : CactiHardforkConfig → ℕ → ℕ
decrease_lambda c lambda =
    let lower = (lambda + u32 - c.lambda_change) % u32 in
    if ltb lower c.lambda_min then c.lambda_min else lower

unfoldable pub increase_lambda : CactiHardforkConfig → ℕ → ℕ
increase_lambda c lambda =
    let higher = (lambda + c.lambda_change) % u32 in
    if ltb c.lambda_max higher then c.lambda_max else higher

unfoldable pub at_interval : CactiHardforkConfig → ℕ → ℕ → ℕ
unfolding decrease_lambda
at_interval c rounds_count lambda =
    if rounds_count == c.lambda_change_interval && ltb c.lambda_min lambda
    then decrease_lambda c lambda
    else lambda

unfoldable pub adjust_dynamic_lambda : CactiHardforkConfig → ℕ → ℕ → Lambdas → Lambdas
unfolding increase_lambda at_interval
adjust_dynamic_lambda c finalized_period finalized_round s =
    let counted = (s.rounds_count_dynamic_lambda + finalized_round) % u32 in
    let interval = is_dynamic_lambda_change_interval finalized_period c in
    let rounds_count = if interval then 0 else counted in
    let lambda = if interval then at_interval c counted s.dynamic_lambda else s.dynamic_lambda in
    record s {
      rounds_count_dynamic_lambda = rounds_count;
      dynamic_lambda =
          if ltb 1 finalized_round && ltb lambda c.lambda_max
          then increase_lambda c lambda
          else lambda;
    }

unfoldable pub get_round_lambda : CactiHardforkConfig → ℕ → Lambdas → ℕ
get_round_lambda c round s = if round == 1 then s.dynamic_lambda else c.lambda_default

-- The lambda with which a round starts.
unfoldable pub start_round_lambda : GenesisConfig → ℕ → ℕ → Lambdas → Lambdas
unfolding get_round_lambda
start_round_lambda g period round s = record s {
  current_round_lambda =
      if is_on_cacti_hardfork period g then get_round_lambda g.cacti_hf round s else g.lambda_ms;
}

unfoldable pub get_pbft_deadline : GenesisConfig → ℕ → ℕ → Lambdas → ℕ
get_pbft_deadline g period round s =
    let propagation =
      if ltb 1 round then g.cacti_hf.block_propagation_max else g.cacti_hf.block_propagation_min in
    if is_on_cacti_hardfork period g
    then max (4 * s.current_round_lambda) propagation
    else 4 * s.current_round_lambda

-- `network_step` is the step of t+1 of the network.
unfoldable pub back_off_lambda : GenesisConfig → ℕ → ℕ → Lambdas → Lambdas
back_off_lambda g step network_step s =
    let base = if step == k_max_steps then g.lambda_ms else s.current_round_lambda in
    record s {
      current_round_lambda =
          if ltb step network_step && leb (k_max_steps - 4) (network_step - step)
          then g.lambda_ms
          else if ltb base k_max_exponential_lambda
          then min (base * 2) k_max_exponential_lambda
          else base;
    }

unfoldable pub step_lambda : GenesisConfig → ℕ → ℕ → Lambdas → Lambdas
unfolding back_off_lambda
step_lambda g step network_step s =
    if leb k_max_steps step && step % 2 == 1 then back_off_lambda g step network_step s else s
