-- ===== src/PbftManager/Turn.antt =====
-- PbftManager: the transitions between the states and one turn of the loop of run.
pub mod Safe
pub mod Turns
pub mod Rounds
pub mod Pushed
pub mod Restart
pub mod Reach
use rustaxa.Common.{
  ℕ, zero, suc, ◌+◌, ◌-◌, ◌*◌, ◌/◌, ◌%◌, ◌^◌, ◌≤◌, ◌<◌, max, min, ◌≡◌, refl, sym, ap, subst, ◌∙◌,
  ◌≢◌, ◌↔◌, ◌⊎◌, inl, inr, Bool, true, false, not, ◌&&◌, ◌||◌, Option, none, some, List, [], ◌∷◌,
  ◌++◌, map, arith, ltb, leb, ◌==◌, if◌then◌else◌, ltb→lt, ==_iff, Bool-cases, Option-cases, u64,
  u32, length, All, length-append, total, get_elem?, drop, is_nil,
}
use rustaxa.Common.Outcome.{Outcome, done, fault, deref, assert, ◌>>=◌, ◌>>◌}
use rustaxa.PbftBlock.{PbftBlock}
use rustaxa.ProposedBlocks.{push_proposed_pbft_block, load_blocks}
use rustaxa.VoteManager.Own.{set_current_pbft_period_and_round}
use rustaxa.PbftManager.{
  World, PbftManager, Machine, PbftDb, Lambdas, PbftStates, value_proposal_state, filter_state,
  certify_state, finish_state, finish_polling_state, get_pbft_period, is_on_cacti_hardfork,
}
use rustaxa.PbftManager.Lambda.{get_round_lambda}
use rustaxa.PbftManager.Voting.{get_wallets, k_polling_interval_ms}
use rustaxa.PbftManager.Steps.{
  propose_block, identify_block, certify_block, set_pbft_step, deadline,
}
use rustaxa.PbftManager.Finishing.{first_finish, second_finish}
use rustaxa.PbftManager.Advance.{advance_round, update_wallets_eligibility}
use rustaxa.PbftManager.Push.{try_push_cert_votes_block}

abbrev pub in_state : PbftStates → PbftManager → PbftManager
in_state state s = record s { machine = record s.machine { state = state } }

abbrev pub step_at : ℕ → PbftManager → PbftManager
step_at time s = record s { machine = record s.machine { next_step_time_ms = time } }

-- The next step, which is counted on 32 bits.
unfoldable pub next_step : World → PbftStates → PbftManager → PbftManager
next_step w state s = set_pbft_step w ((s.machine.step + 1) % u32) (in_state state s)

-- Filter and certify state begin after 2 lambda.
unfoldable pub set_filter_state : World → PbftManager → PbftManager
unfolding next_step
set_filter_state w s =
    let t = next_step w filter_state s in step_at (2 * t.lambdas.current_round_lambda) t

unfoldable pub set_certify_state : World → PbftManager → PbftManager
unfolding next_step
set_certify_state w s =
    let t = next_step w certify_state s in step_at (2 * t.lambdas.current_round_lambda) t

unfoldable pub set_finish_state : World → PbftManager → PbftManager
unfolding next_step
set_finish_state w s = let t = next_step w finish_state s in step_at (deadline w t) t

abbrev pub forget_next_votes : PbftManager → PbftManager
forget_next_votes s = record s {
  machine = record s.machine {
    already_next_voted_value = false;
    already_next_voted_null_block_hash = false;
    next_step_time_ms = s.machine.next_step_time_ms + k_polling_interval_ms;
  };
  db = record s.db { next_voted_soft_value = false; next_voted_null_block_hash = false };
}

unfoldable pub set_finish_polling_state : World → PbftManager → PbftManager
unfolding next_step
set_finish_polling_state w s =
    let t = forget_next_votes (next_step w finish_polling_state s) in
    record t { machine = record t.machine { second_finish_step_start = w.now } }

unfoldable pub loop_back_finish_state : World → PbftManager → PbftManager
unfolding next_step
loop_back_finish_state w s = forget_next_votes (next_step w finish_state s)

abbrev pub poll : PbftManager → PbftManager
poll s = step_at (s.machine.next_step_time_ms + k_polling_interval_ms) s

-- The `switch` of run.
unfoldable pub run_state : World → PbftStates → PbftManager → Outcome PbftManager
unfolding set_filter_state set_certify_state set_finish_state set_finish_polling_state
    loop_back_finish_state
run_state w value_proposal_state s = do s' ← propose_block w s; done (set_filter_state w s')
run_state w filter_state s = do s' ← identify_block w s; done (set_certify_state w s')
run_state w certify_state s = do
  s' ← certify_block w s
  done (if s'.machine.go_finish_state then set_finish_state w s' else poll s')
run_state w finish_state s = do s' ← first_finish w s; done (set_finish_polling_state w s')
run_state w finish_polling_state s = do
  s' ← second_finish w s
  done (if s'.machine.loop_back_finish_state then loop_back_finish_state w s' else poll s')

abbrev pub any_eligible : List (Bool × ℕ) → Bool
any_eligible [] = false
any_eligible ((eligible, _) ∷ rest) = eligible || any_eligible rest

-- A cert voted block is pushed only by a node that does not sync.
unfoldable pub push_if_synced : World → Bool → PbftManager → Outcome (PbftManager × Bool)
push_if_synced w false s = done (s, false)
push_if_synced w true s = try_push_cert_votes_block w s

-- A new round, or else the question whether the node may vote.
unfoldable pub advance_or_wait : World → PbftManager → Outcome (PbftManager × Bool)
advance_or_wait w s = do
  (s', advanced) ← advance_round w s
  if advanced then done (s', true) else do
    wallets ← get_wallets (get_pbft_period s') s'.eligible_wallets
    done (s', not (any_eligible wallets))

-- What follows the synced blocks in stateOperations_; `synced` says that the network is there and does
-- not sync. The result says whether the loop starts again.
unfoldable pub state_operations : World → Bool → PbftManager → Outcome (PbftManager × Bool)
unfolding push_if_synced advance_or_wait
state_operations w synced s = do
  (s', pushed) ← push_if_synced w synced s
  if pushed then done (s', true) else advance_or_wait w s'

unfoldable pub turn : World → Bool → PbftManager → Outcome PbftManager
unfolding state_operations run_state
turn w synced s = do
  (s', again) ← state_operations w synced s
  if again then done s' else run_state w s'.machine.state s'
