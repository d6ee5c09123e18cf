-- ===== src/PbftManager/Examples.antt =====
-- Tests of PbftManager: a node with two wallets, and its first period.
pub mod Sample
mod Choice
use rustaxa.Common.{
  ℕ, zero, suc, ◌+◌, ◌-◌, ◌*◌, ◌/◌, ◌%◌, ◌^◌, ◌≤◌, ◌<◌, max, min, ◌≡◌, refl, sym, ap, subst, ◌∙◌,
  ◌≢◌, ◌↔◌, ◌⊎◌, inl, inr, Bool, true, false, not, ◌&&◌, ◌||◌, Option, none, some, List, [], ◌∷◌,
  ◌++◌, map, arith, ltb, leb, ◌==◌, if◌then◌else◌, ltb→lt, ==_iff, Bool-cases, Option-cases, u64,
  u32, length, All, length-append, total, get_elem?, drop, is_nil,
}
use rustaxa.PbftManager.Push.{
  finalize_pillar, adjust_lambdas, is_pillar_block_period, place_pillar_votes, process_pillar_block,
  create_pillar, push_pbft_block, push_cert_voted_pbft_block_into_chain, try_push_cert_votes_block,
}
use rustaxa.PbftManager.Advance.{
  reset_pbft_consensus, update_eligibility, update_wallets_eligibility, advance_period,
  advance_round,
}
use rustaxa.PbftManager.Steps.{
  find_proposed, vote_now, vote_for_found, repropose, propose_block, soft_vote_leader,
  identify_block, cert_vote_block, report_expired, certify_block, set_pbft_step,
}
use rustaxa.PbftManager.Finishing.{
  first_finish, next_vote_soft_voted_block, next_vote_null_block, second_finish,
}
use rustaxa.PbftManager.Propose.{
  proposing_wallets, create_pbft_block_extra_data, skip_anchor, choose_in_ghost, last_level_block,
  count_included, find_closest_anchor, clip_anchor, choose_content, new_block, make_block,
  make_blocks, check_reward_period, keep_leader, generate_blocks, generate_pbft_block,
  propose_pbft_block,
}
use rustaxa.PbftManager.Voting.{
  generate_vote_with_weight, get_wallets, place_pillar_vote_for_block, note_pillar_vote, place_vote,
  place_votes, gen_and_place_vote,
}
use rustaxa.PbftManager.Leader.{
  lowest_hash, get_proposal, leader_candidates, find_leader, identify_leader_block,
}
use rustaxa.PbftManager.Validate.{
  is_ficus_hardfork, first_pillar_block_period, is_pbft_with_pillar_block_period,
  validate_final_chain_hash, validate_pbft_block_extra_data, validate_pillar_data_in_period_data,
  check_block_weight, load_dag_blocks, validate_pillar_block_hash, validate_ghost, validate_anchor,
  validate_pbft_block, get_valid_pbft_proposed_block,
}
use rustaxa.PbftManager.Lambda.{
  decrease_lambda, increase_lambda, at_interval, adjust_dynamic_lambda, get_round_lambda,
  start_round_lambda, get_pbft_deadline, back_off_lambda, step_lambda,
}
use rustaxa.ProposedBlocks.{
  push_proposed_pbft_block, mark_block_as_valid, get_pbft_proposed_block, is_in_proposed_blocks,
  remove_blocks, remove_old, cleanup_proposed_pbft_blocks_by_period, load_blocks,
}
use rustaxa.VoteManager.Own.{get_proposal_votes, save_bundles, set_current_pbft_period_and_round}
use rustaxa.VoteManager.Rounds.{has_next_block, newest_round, determine_new_round}
use rustaxa.VoteManager.Rewards.{
  collect_votes, get_round_reward_votes, find_reward_votes, check_reward_votes, get_reward_votes,
  reset_reward_votes,
}
use rustaxa.VerifiedVotes.{
  type_code, get_period_votes, get_round_votes, get_step_votes, get_two_t_plus_one_voted_block,
  get_two_t_plus_one_voted_block_votes, set_network_t_plus_one_step,
  insert_two_t_plus_one_voted_block, store_step, conflicting_vote, one_is_null, check_voter,
  insert_unique_voter, store_voted_value, voted_value, insert_voted_value, cleanup_votes_by_period,
  sign_extend, count_voted_values, count_steps, count_rounds, count_periods, size, votes,
}
use rustaxa.Common.Outcome.{Outcome, done, fault, deref, assert, ◌>>=◌, ◌>>◌}
use rustaxa.Common.Map.{Map, lookup, put, contains, erase, emplace}
use mathlib.Core.List.{Memᴰ}
use rustaxa.Vote.{PbftVote, get_type, is_next_vote, is_odd_step}
use rustaxa.PbftBlock.{PbftBlock}
use rustaxa.VoteManager.{
  VoteManager, PbftConfig, vote_type_code, get_pbft_sortition_threshold, two_t_plus_one,
  compute_two_t_plus_one, cached_two_t_plus_one, get_pbft_two_t_plus_one, is_valid_reward_vote,
  voted_block_type, step_may_differ, is_cert_vote, save_two_t_plus_one_votes, raise_network_step,
  note_thresholds, is_old, note_reward_vote, add_unique_vote, add_verified_vote,
  vote_in_verified_map, compare_votes, is_unique_vote, get_network_t_plus_one_next_voting_step,
}
use rustaxa.PbftChain.{
  PbftChain, get_json_str, get_json_str_for_block, update_pbft_chain, check_pbft_block_validation,
  find_pbft_block_in_chain, get_pbft_block_in_chain, find_anchor, new_pbft_chain,
}
use rustaxa.PbftManager.{
  World, PbftManager, Machine, GenesisConfig, value_proposal_state, is_on_cacti_hardfork,
  is_dynamic_lambda_change_interval, get_pbft_period,
}
use rustaxa.PbftManager.Turn.{
  turn, next_step, set_filter_state, set_certify_state, set_finish_state, set_finish_polling_state,
  loop_back_finish_state, run_state, push_if_synced, advance_or_wait, state_operations,
}
use rustaxa.PbftManager.Start.{
  restart, initial_step, initial_lambdas, initial_cert_voted, new_pbft_manager, initial_state,
}
use rustaxa.PbftManager.Turn.Safe.{IsSafe}
use rustaxa.PbftManager.Turn.Pushed.{Fits}
use rustaxa.PbftManager.Turn.Reach.{Reach, start, next, turn_of, Reach-IsSafe, one_cert_vote-Reach}
use rustaxa.PbftManager.Examples.Sample.{
  genesis, world_at, unused, program, state_in, result, started, proposed, soft_voted, cert_voted,
}

has_started : restart (world_at 0) unused ≡ done started
unfolding program
has_started = result (restart (world_at 0) unused) refl

abbrev of_step : Outcome (PbftManager × Bool) → ℕ
of_step fault = 0
of_step (done (s, _)) = s.machine.step

Fits-state_operations :
    (time : ℕ) (s : PbftManager)
    → of_step (state_operations (world_at time) true s) < 4
    → Fits (world_at time) true s
Fits-state_operations time s small t e = omega (arith, small, ap of_step e)

started-Fits : Fits (world_at 0) true started
unfolding program
started-Fits = Fits-state_operations 0 started (omega arith)

proposed-Fits : Fits (world_at 2000) true proposed
unfolding program
proposed-Fits = Fits-state_operations 2000 proposed (omega arith)

soft_voted-Fits : Fits (world_at 2500) true soft_voted
unfolding program
soft_voted-Fits = Fits-state_operations 2500 soft_voted (omega arith)

turn_1 : turn (world_at 0) true started ≡ done proposed
unfolding program
turn_1 = result (turn (world_at 0) true started) refl

turn_2 : turn (world_at 2000) true proposed ≡ done soft_voted
unfolding program
turn_2 = result (turn (world_at 2000) true proposed) refl

turn_3 : turn (world_at 2500) true soft_voted ≡ done cert_voted
unfolding program
turn_3 = result (turn (world_at 2500) true soft_voted) refl

reached : Reach cert_voted
reached =
    next
      (next
        (next (start (world_at 0) unused (refl, refl) has_started)
          (turn_of (world_at 0) true started-Fits turn_1))
        (turn_of (world_at 2000) true proposed-Fits turn_2))
      (turn_of (world_at 2500) true soft_voted-Fits turn_3)

Reach-IsSafe_example : IsSafe cert_voted
Reach-IsSafe_example = Reach-IsSafe reached

abbrev vote_of : ℕ → ℕ → PbftVote
vote_of step wallet = record {
  hash = 507000 + step * 100 + wallet;
  voter = wallet;
  block_hash = 507;
  period = 1;
  round = 1;
  step = step;
  weight = some 1;
}

own_votes :
    cert_voted.own_verified_votes
    ≡ vote_of 1 7 ∷ vote_of 2 7 ∷ vote_of 2 8 ∷ vote_of 3 7 ∷ vote_of 3 8 ∷ []
unfolding program
own_votes = refl

one_cert_vote-Reach_example : (vote_of 3 7).block_hash ≡ (vote_of 3 8).block_hash
one_cert_vote-Reach_example =
    one_cert_vote-Reach (vote_of 3 7) (vote_of 3 8) reached
      (subst (Memᴰ (vote_of 3 7)) (sym own_votes)
        (Memᴰ.tail (Memᴰ.tail (Memᴰ.tail (Memᴰ.head refl)))))
      (subst (Memᴰ (vote_of 3 8)) (sym own_votes)
        (Memᴰ.tail (Memᴰ.tail (Memᴰ.tail (Memᴰ.tail (Memᴰ.head refl))))))
      refl refl
