-- ===== src/VoteManager/Examples.antt =====
-- Tests of VoteManager, and its theorems at concrete managers.
use rustaxa.Common.{ℕ, ◌≡◌, refl, true, none, some, List, [], ◌∷◌, arith}
use rustaxa.VerifiedVotes.Voters.{find_voter, own_votes}
use rustaxa.Common.Outcome.{done}
use rustaxa.Common.Map.{lookup, contains, put, emplace}
use rustaxa.PbftBlock.{PbftBlock}
use rustaxa.Vote.{PbftVoteTypes, get_type, is_next_vote, is_odd_step}
use rustaxa.VerifiedVotes.{
  cleanup_votes_by_period, check_voter, insert_unique_voter, get_step_votes, conflicting_vote,
  count_periods, count_rounds, count_steps, count_voted_values, get_period_votes, get_round_votes,
  get_two_t_plus_one_voted_block, get_two_t_plus_one_voted_block_votes,
  insert_two_t_plus_one_voted_block, insert_voted_value, one_is_null, set_network_t_plus_one_step,
  sign_extend, size, store_step, store_voted_value, type_code, voted_value, votes,
}
use rustaxa.VerifiedVotes.Store.{find_vote, find_voted}
use rustaxa.VerifiedVotes.Reach.{start, Reach-IsSound}
use rustaxa.VerifiedVotes.Within.{IsSound}
use rustaxa.VerifiedVotes.Samples.{vote_a, vote_b, vote_c, state_a, value_ab}
use rustaxa.VerifiedVotes.Listed.{HandedOut}
use rustaxa.VerifiedVotes.{RoundVerifiedVotes, VotedBlock, soft_voted_block}
use rustaxa.VoteManager.{Effect}
use rustaxa.Common.{◌⊎◌}
use rustaxa.Vote.{PbftVote}
use rustaxa.VoteManager.Quorum.{Agrees}
use rustaxa.VoteManager.Steady.{quorum, weight_of, IsSteady-quorum, unused, then_agreed}
use rustaxa.Common.{total, ◌≤◌}
use rustaxa.VoteManager.Reach.{
  IsCalled, fresh, then_call, added, IsCalled-IsSound, IsCalled-HandedOut,
}
use rustaxa.VoteManager.{
  compare_votes, cached_two_t_plus_one, add_unique_vote, Chain, VoteManager, add_verified_vote,
  is_unique_vote, two_t_plus_one, get_pbft_two_t_plus_one, compute_two_t_plus_one,
  get_network_t_plus_one_next_voting_step, get_pbft_sortition_threshold, is_cert_vote, is_old,
  is_valid_reward_vote, note_reward_vote, note_thresholds, raise_network_step,
  save_two_t_plus_one_votes, step_may_differ, vote_in_verified_map, vote_type_code,
  voted_block_type,
}
use rustaxa.VoteManager.Threshold.{IsCoherent, get_pbft_two_t_plus_one_lem}
use rustaxa.VoteManager.Rounds.{
  Newest, determine_new_round, determine_new_round-Newest, has_next_block, newest_round,
}
use rustaxa.VoteManager.Rewards.{
  collect_votes, check_reward_votes, find_reward_votes, get_reward_votes, get_round_reward_votes,
  reset_reward_votes,
}
use rustaxa.VoteManager.RewardsFound.{
  Found, reward_vote, check_reward_votes-Found, check_reward_votes_refuses,
}
use rustaxa.VoteManager.Unique.{
  is_unique_vote-insert_unique_voter, is_unique_vote-add_verified_vote_first,
}
use rustaxa.VoteManager.Samples.{
  cert_a, three_rounds, rounds_state, rounds_reached, reward_rounds, reward_state, reward_reached,
}
use rustaxa.VoteManager.Sound.{add_verified_vote-IsSound, find_vote-add_verified_vote}

-- A stake of 21 at every period: 2t+1 is 15.
abbrev sample_chain : Chain
sample_chain = record {
  config = record { number_of_proposers = 20; committee_size = 1000 };
  dpos_total_votes_count = λ _. some 21;
  pbft_chain_size = 100;
}

abbrev new_manager : VoteManager
new_manager = record {
  verified_votes = [];
  current_pbft_period = 5;
  current_pbft_round = 1;
  reward_votes_block_hash = 7;
  reward_votes_period = 5;
  reward_votes_round = 1;
  extra_reward_votes = [];
  current_two_t_plus_one = [];
  effects = [];
}

abbrev manager_a : VoteManager
manager_a = record new_manager { verified_votes = state_a }

-- What a test by evaluation sees through.
program : Unit {0}
unfolding lookup contains put emplace add_unique_vote add_verified_vote cached_two_t_plus_one
    check_reward_votes check_voter cleanup_votes_by_period collect_votes compare_votes
    compute_two_t_plus_one conflicting_vote count_periods count_rounds count_steps
    count_voted_values determine_new_round find_reward_votes find_vote find_voted find_voter
    get_network_t_plus_one_next_voting_step get_pbft_sortition_threshold get_pbft_two_t_plus_one
    get_period_votes get_reward_votes get_round_reward_votes get_round_votes get_step_votes
    get_two_t_plus_one_voted_block get_two_t_plus_one_voted_block_votes get_type has_next_block
    insert_two_t_plus_one_voted_block insert_unique_voter insert_voted_value is_cert_vote
    is_next_vote is_odd_step is_old is_unique_vote is_valid_reward_vote newest_round
    note_reward_vote note_thresholds one_is_null own_votes raise_network_step reset_reward_votes
    save_two_t_plus_one_votes set_network_t_plus_one_step sign_extend size step_may_differ
    store_step store_voted_value two_t_plus_one type_code vote_in_verified_map vote_type_code
    voted_block_type voted_value votes
program = tt

add_a : add_verified_vote sample_chain vote_a new_manager ≡ done (manager_a, true)
unfolding program
add_a = refl

-- The second vote completes a soft voted block.
abbrev round_ab : RoundVerifiedVotes
round_ab = record {
  two_t_plus_one_voted_blocks = (0, record { hash = 7; step = 2 }) ∷ [];
  step_votes =
      (2, record { votes = (7, value_ab) ∷ []; unique_voters = (2, (vote_b, none)) ∷ [] }) ∷ [];
  network_t_plus_one_step = 0;
}

abbrev manager_ab : VoteManager
manager_ab = record new_manager {
  verified_votes = (5, (1, round_ab) ∷ []) ∷ [];
  effects = Effect.replace_two_t_plus_one_votes soft_voted_block (vote_a ∷ vote_b ∷ []) ∷ [];
}

add_b : add_verified_vote sample_chain vote_b manager_a ≡ done (manager_ab, true)
unfolding program
add_b = refl

manager_ab-IsCalled : IsCalled manager_ab
manager_ab-IsCalled =
    then_call (then_call (fresh new_manager refl) (added sample_chain vote_a true add_a))
      (added sample_chain vote_b true add_b)

-- Each period has the stake of 21.
agrees : Agrees sample_chain.config (λ _. 21) sample_chain
agrees = record { config_eq = refl; stake_eq = λ period count e. ground arith }

IsSteady-quorum_example :
    quorum sample_chain.config (λ _. 21) 5 ≤ total weight_of (vote_a ∷ vote_b ∷ [])
unfolding program
IsSteady-quorum_example =
    IsSteady-quorum sample_chain.config (λ _. 21) 5 1 soft_voted_block {m = manager_ab}
      {b = record { hash = 7; step = 2 }} {vs = vote_a ∷ vote_b ∷ []}
      (then_agreed
        (then_agreed (unused new_manager refl refl) (added sample_chain vote_a true add_a) agrees)
        (added sample_chain vote_b true add_b) agrees)
      refl refl

IsCalled-IsSound_example : IsSound manager_ab.verified_votes
IsCalled-IsSound_example = IsCalled-IsSound manager_ab-IsCalled

IsCalled-HandedOut_example :
    ((get_two_t_plus_one_voted_block 5 1 soft_voted_block manager_ab.verified_votes ≡ none)
      × (get_two_t_plus_one_voted_block_votes 5 1 soft_voted_block manager_ab.verified_votes
          ≡ done []))
    ⊎ ((b : VotedBlock) × (get_two_t_plus_one_voted_block 5 1 soft_voted_block
            manager_ab.verified_votes
          ≡ some b)
        × (vs : List PbftVote) × (get_two_t_plus_one_voted_block_votes 5 1 soft_voted_block
              manager_ab.verified_votes
            ≡ done vs)
        × HandedOut 5 1 b vs)
IsCalled-HandedOut_example = IsCalled-HandedOut 5 1 soft_voted_block manager_ab-IsCalled

is_unique_vote-add_verified_vote_first_example :
    (is_unique_vote vote_c manager_a ≡ none) × ((insert_unique_voter vote_c state_a).1 ≡ none)
unfolding program
is_unique_vote-add_verified_vote_first_example =
    is_unique_vote-add_verified_vote_first sample_chain vote_a vote_c new_manager refl
      (refl, refl, refl) add_a

add_verified_vote-IsSound_example : IsSound state_a
add_verified_vote-IsSound_example =
    add_verified_vote-IsSound sample_chain vote_a new_manager add_a (Reach-IsSound start)

find_vote-add_verified_vote_example : find_vote 5 1 2 7 11 state_a ≡ some vote_a
unfolding program
find_vote-add_verified_vote_example =
    find_vote-add_verified_vote sample_chain vote_a new_manager add_a 5 1 2 7 11

is_unique_vote-insert_unique_voter_example :
    is_unique_vote vote_c manager_a ≡ (insert_unique_voter vote_c state_a).1
is_unique_vote-insert_unique_voter_example = is_unique_vote-insert_unique_voter vote_c manager_a

new_manager-IsCoherent : IsCoherent sample_chain new_manager
unfolding lookup
new_manager-IsCoherent type period value e = absurd (ground arith)

get_pbft_two_t_plus_one_lem_example :
    ((get_pbft_two_t_plus_one sample_chain 4 PbftVoteTypes.cert_vote new_manager).1 ≡ some 15)
    × IsCoherent sample_chain
        (get_pbft_two_t_plus_one sample_chain 4 PbftVoteTypes.cert_vote new_manager).0
unfolding program
get_pbft_two_t_plus_one_lem_example =
    get_pbft_two_t_plus_one_lem sample_chain 4 PbftVoteTypes.cert_vote new_manager
      new_manager-IsCoherent

abbrev block_of : List ℕ → PbftBlock
block_of hashes = record {
  block_hash = 9;
  prev_block_hash = 7;
  pivot_dag_block_hash = 1;
  period = 6;
  order_hash = 0;
  final_chain_hash = 0;
  reward_votes = hashes;
  extra_data = none;
}

abbrev reward_manager : VoteManager
reward_manager = record new_manager { verified_votes = reward_state }

abbrev round_manager : VoteManager
round_manager = record new_manager { verified_votes = rounds_state }

new_round : determine_new_round 5 1 round_manager ≡ some 3
unfolding program
new_round = refl

determine_new_round-Newest_example : Newest 1 three_rounds (determine_new_round 5 1 round_manager)
unfolding program
determine_new_round-Newest_example =
    determine_new_round-Newest 5 1 round_manager three_rounds rounds_reached refl

check_reward_votes-Found_example :
    (round : ℕ) × Found (reward_vote reward_manager round) (11 ∷ []) (cert_a ∷ [])
unfolding program
check_reward_votes-Found_example =
    check_reward_votes-Found (block_of (11 ∷ [])) reward_manager reward_rounds reward_reached refl
      (ground arith) refl

check_reward_votes_refuses_example : ¬ Found (reward_vote reward_manager 1) (12 ∷ []) (cert_a ∷ [])
unfolding program
check_reward_votes_refuses_example =
    check_reward_votes_refuses (block_of (12 ∷ [])) reward_manager reward_rounds _ reward_reached
      refl (ground arith) refl 1 (cert_a ∷ []) refl
