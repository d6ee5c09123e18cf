-- ===== src/PbftManager/Examples/Sample.antt =====
-- Test data of PbftManager: a node with two wallets, and its first period.
use rustaxa.Common.{◌≡◌, refl, arith, Bool, ℕ, ◌+◌, ◌*◌, true, false, none, some, [], ◌∷◌}
use rustaxa.PbftManager.Push.{
  finalize_pillar, adjust_lambdas, is_pillar_block_period, place_pillar_votes, process_pillar_block,
  create_pillar, push_pbft_block, push_cert_voted_pbft_block_into_chain, try_push_cert_votes_block,
}
use rustaxa.PbftManager.Advance.{
  reset_pbft_consensus, update_eligibility, update_wallets_eligibility, advance_period,
  advance_round,
}
use rustaxa.PbftManager.Steps.{
  gen_and_place_propose_vote, find_proposed, vote_now, vote_for_found, repropose, propose_block,
  soft_vote_leader, identify_block, cert_vote_block, report_expired, certify_block, set_pbft_step,
}
use rustaxa.PbftManager.Finishing.{
  first_finish, next_vote_soft_voted_block, next_vote_null_block, second_finish,
}
use rustaxa.PbftManager.Propose.{
  proposing_wallets, create_pbft_block_extra_data, skip_anchor, choose_in_ghost, last_level_block,
  count_included, find_closest_anchor, clip_anchor, choose_content, new_block, make_block,
  make_blocks, check_reward_period, keep_leader, generate_blocks, generate_pbft_block,
  propose_pbft_block,
}
use rustaxa.PbftManager.Voting.{
  generate_vote_with_weight, get_wallets, place_pillar_vote_for_block, note_pillar_vote, place_vote,
  place_votes, gen_and_place_vote,
}
use rustaxa.PbftManager.Leader.{
  lowest_hash, get_proposal, leader_candidates, find_leader, identify_leader_block,
}
use rustaxa.PbftManager.Validate.{
  is_ficus_hardfork, first_pillar_block_period, is_pbft_with_pillar_block_period,
  validate_final_chain_hash, validate_pbft_block_extra_data, validate_pillar_data_in_period_data,
  check_block_weight, load_dag_blocks, validate_pillar_block_hash, validate_ghost, validate_anchor,
  validate_pbft_block, get_valid_pbft_proposed_block,
}
use rustaxa.PbftManager.Lambda.{
  decrease_lambda, increase_lambda, at_interval, adjust_dynamic_lambda, get_round_lambda,
  start_round_lambda, get_pbft_deadline, back_off_lambda, step_lambda,
}
use rustaxa.ProposedBlocks.{
  push_proposed_pbft_block, mark_block_as_valid, get_pbft_proposed_block, is_in_proposed_blocks,
  remove_blocks, remove_old, cleanup_proposed_pbft_blocks_by_period, load_blocks,
}
use rustaxa.VoteManager.Own.{get_proposal_votes, save_bundles, set_current_pbft_period_and_round}
use rustaxa.VoteManager.Rounds.{has_next_block, newest_round, determine_new_round}
use rustaxa.VoteManager.Rewards.{
  collect_votes, get_round_reward_votes, find_reward_votes, check_reward_votes, get_reward_votes,
  reset_reward_votes,
}
use rustaxa.VerifiedVotes.{
  type_code, get_period_votes, get_round_votes, get_step_votes, get_two_t_plus_one_voted_block,
  get_two_t_plus_one_voted_block_votes, set_network_t_plus_one_step,
  insert_two_t_plus_one_voted_block, store_step, conflicting_vote, one_is_null, check_voter,
  insert_unique_voter, store_voted_value, voted_value, insert_voted_value, cleanup_votes_by_period,
  sign_extend, count_voted_values, count_steps, count_rounds, count_periods, size, votes,
}
use rustaxa.Common.Outcome.{Outcome, done, fault}
use rustaxa.Common.Map.{lookup, put, contains, erase, emplace}
use rustaxa.Vote.{get_type, is_next_vote, is_odd_step}
use rustaxa.VoteManager.{
  VoteManager, vote_type_code, get_pbft_sortition_threshold, two_t_plus_one, compute_two_t_plus_one,
  cached_two_t_plus_one, get_pbft_two_t_plus_one, is_valid_reward_vote, voted_block_type,
  step_may_differ, is_cert_vote, save_two_t_plus_one_votes, raise_network_step, note_thresholds,
  is_old, note_reward_vote, add_unique_vote, add_verified_vote, vote_in_verified_map, compare_votes,
  is_unique_vote, get_network_t_plus_one_next_voting_step,
}
use rustaxa.PbftChain.{
  PbftChain, get_json_str, get_json_str_for_block, update_pbft_chain, check_pbft_block_validation,
  find_pbft_block_in_chain, get_pbft_block_in_chain, find_anchor, new_pbft_chain,
}
use rustaxa.PbftManager.{
  World, PbftManager, GenesisConfig, value_proposal_state, is_on_cacti_hardfork,
  is_dynamic_lambda_change_interval, get_pbft_period,
}
use rustaxa.PbftManager.Turn.{
  turn, next_step, set_filter_state, set_certify_state, set_finish_state, set_finish_polling_state,
  loop_back_finish_state, run_state, push_if_synced, advance_or_wait, state_operations,
}
use rustaxa.PbftManager.Start.{
  restart_pillar, restart, initial_step, initial_lambdas, initial_cert_voted, new_pbft_manager,
  initial_state,
}

abbrev pub genesis : GenesisConfig
genesis = record {
  lambda_ms = 1000;
  dag_blocks_size = 10;
  ghost_path_move_back = 0;
  dag_genesis_block_hash = 99;
  pbft = record { number_of_proposers = 20; committee_size = 1000 };
  cacti_hf = record {
    block_num = 1000;
    lambda_min = 500;
    lambda_max = 1500;
    lambda_default = 1000;
    lambda_change_interval = 100;
    lambda_change = 10;
    block_propagation_min = 500;
    block_propagation_max = 1500;
  };
  ficus_hf = record { block_num = 1000; pillar_blocks_interval = 10 };
}

-- Each wallet has a stake of 1 and a weight of 1, and the DAG is empty.
abbrev pub world_at : ℕ → World
world_at time = record {
  config = genesis;
  now = time;
  last_block_number = 0;
  delegation_delay = 5;
  dpos_total_votes_count = λ _. some 2;
  dpos_vote_count = λ _ _. some 1;
  dpos_is_eligible = λ _ _. true;
  final_chain_hash = λ _. some 5;
  current_pillar_block = none;
  vote_hash = λ b p r s v. b * 1000 + s * 100 + v;
  vote_weight = λ _ _ _ _. 1;
  gen_and_place_pillar_vote = λ _ _ _. none;
  finalize_pillar_block = λ _. true;
  create_pillar_block = λ _ _. none;
  voter_index_hash = λ v i. v.hash + i;
  valid_vrf_sortition = λ _ _ _. true;
  block_hash = λ _ v. 500 + v;
  non_finalized_dag_blocks = [];
  dag_block_order = λ _ _. [];
  dag_block = λ _. none;
  order_hash = λ _. 0;
  ghost_path = λ _. [];
  pbft_gas_limit = λ _. 1000;
}

abbrev pub empty_chain : PbftChain
empty_chain = record {
  head_hash = 0;
  size = 0;
  non_empty_size = 0;
  last_pbft_block_hash = 0;
  last_non_null_pbft_dag_anchor_hash = 0;
}

abbrev pub empty_votes : VoteManager
empty_votes = record {
  verified_votes = [];
  current_pbft_period = 1;
  current_pbft_round = 1;
  reward_votes_block_hash = 0;
  reward_votes_period = 0;
  reward_votes_round = 0;
  extra_reward_votes = [];
  current_two_t_plus_one = [];
  effects = [];
}

abbrev pub unused : PbftManager
unused = record {
  lambdas = record {
    rounds_count_dynamic_lambda = 0;
    dynamic_lambda = 0;
    current_round_lambda = 0;
  };
  machine = record {
    state = value_proposal_state;
    round = 1;
    step = 1;
    cert_voted_block_for_round = none;
    next_step_time_ms = 0;
    current_round_start = 0;
    second_finish_step_start = 0;
    executed_pbft_block = false;
    already_next_voted_value = false;
    already_next_voted_null_block_hash = false;
    go_finish_state = false;
    loop_back_finish_state = false;
  };
  db = record {
    round = 1;
    step = 1;
    rounds_count_dynamic_lambda = 0;
    lambda = 1;
    executed_block = false;
    next_voted_soft_value = false;
    next_voted_null_block_hash = false;
    cert_voted_block_in_round = none;
  };
  last_placed_pillar_vote_period = 0;
  eligible_wallets = record { period = 0; wallets = (false, 7) ∷ (false, 8) ∷ [] };
  anchor_dag_block_order_cache = [];
  proposed_blocks = record { proposed_blocks = []; db = [] };
  pbft_chain = empty_chain;
  pbft_blocks = [];
  vote_mgr = empty_votes;
  own_verified_votes = [];
}

unfoldable pub program : Unit {0}
unfolding lookup contains put erase emplace get_type is_next_vote is_odd_step type_code
    get_period_votes get_round_votes get_step_votes get_two_t_plus_one_voted_block
    get_two_t_plus_one_voted_block_votes set_network_t_plus_one_step
    insert_two_t_plus_one_voted_block store_step conflicting_vote one_is_null check_voter
    insert_unique_voter store_voted_value voted_value insert_voted_value cleanup_votes_by_period
    sign_extend count_voted_values count_steps count_rounds count_periods size votes vote_type_code
    get_pbft_sortition_threshold two_t_plus_one compute_two_t_plus_one cached_two_t_plus_one
    get_pbft_two_t_plus_one is_valid_reward_vote voted_block_type step_may_differ is_cert_vote
    save_two_t_plus_one_votes raise_network_step note_thresholds is_old note_reward_vote
    add_unique_vote add_verified_vote vote_in_verified_map compare_votes is_unique_vote
    get_network_t_plus_one_next_voting_step collect_votes get_round_reward_votes find_reward_votes
    check_reward_votes get_reward_votes reset_reward_votes has_next_block newest_round
    determine_new_round get_proposal_votes save_bundles set_current_pbft_period_and_round
    push_proposed_pbft_block mark_block_as_valid get_pbft_proposed_block is_in_proposed_blocks
    remove_blocks remove_old cleanup_proposed_pbft_blocks_by_period load_blocks get_json_str
    get_json_str_for_block update_pbft_chain check_pbft_block_validation find_pbft_block_in_chain
    get_pbft_block_in_chain find_anchor new_pbft_chain is_on_cacti_hardfork
    is_dynamic_lambda_change_interval get_pbft_period decrease_lambda increase_lambda at_interval
    adjust_dynamic_lambda get_round_lambda start_round_lambda get_pbft_deadline back_off_lambda
    step_lambda is_ficus_hardfork first_pillar_block_period is_pbft_with_pillar_block_period
    validate_final_chain_hash validate_pbft_block_extra_data validate_pillar_data_in_period_data
    check_block_weight load_dag_blocks validate_pillar_block_hash validate_ghost validate_anchor
    validate_pbft_block get_valid_pbft_proposed_block lowest_hash get_proposal leader_candidates
    find_leader identify_leader_block generate_vote_with_weight get_wallets
    place_pillar_vote_for_block note_pillar_vote place_vote place_votes gen_and_place_vote
    proposing_wallets create_pbft_block_extra_data skip_anchor choose_in_ghost last_level_block
    count_included find_closest_anchor clip_anchor choose_content new_block make_block make_blocks
    check_reward_period keep_leader generate_blocks generate_pbft_block propose_pbft_block
    find_proposed vote_now vote_for_found gen_and_place_propose_vote repropose propose_block
    soft_vote_leader identify_block cert_vote_block report_expired certify_block first_finish
    next_vote_soft_voted_block next_vote_null_block second_finish set_pbft_step reset_pbft_consensus
    update_eligibility update_wallets_eligibility advance_period advance_round finalize_pillar
    adjust_lambdas is_pillar_block_period place_pillar_votes process_pillar_block create_pillar
    push_pbft_block push_cert_voted_pbft_block_into_chain try_push_cert_votes_block next_step
    set_filter_state set_certify_state set_finish_state set_finish_polling_state
    loop_back_finish_state run_state push_if_synced advance_or_wait state_operations turn
    initial_step initial_lambdas initial_cert_voted new_pbft_manager initial_state restart_pillar
    restart
program = tt

-- The state in a result.
abbrev pub state_in : Outcome PbftManager → PbftManager
state_in fault = unused
state_in (done s) = s

abbrev pub is_done : Outcome PbftManager → Bool
is_done fault = false
is_done (done _) = true

pub result : (o : Outcome PbftManager) → is_done o ≡ true → o ≡ done (state_in o)
result fault h = absurd (ground arith)
result (done s) h = refl

-- The node after its start, its proposal, its soft votes and its cert votes.
abbrev pub started : PbftManager
unfolding program
started = state_in (restart (world_at 0) unused)

abbrev pub proposed : PbftManager
unfolding program
proposed = state_in (turn (world_at 0) true started)

abbrev pub soft_voted : PbftManager
unfolding program
soft_voted = state_in (turn (world_at 2000) true proposed)

abbrev pub cert_voted : PbftManager
unfolding program
cert_voted = state_in (turn (world_at 2500) true soft_voted)

-- The same node without a connection, so that it does not push the block: in finish state, and polling.
abbrev pub finishing : PbftManager
unfolding program
finishing = state_in (turn (world_at 4000) false cert_voted)

abbrev pub polling : PbftManager
unfolding program
polling = state_in (turn (world_at 4000) false finishing)
