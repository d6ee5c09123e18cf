-- ===== src/VerifiedVotes/Examples.antt =====
-- Tests of VerifiedVotes, and its theorems at concrete votes.
use rustaxa.Vote.{is_odd_step, get_type, is_next_vote}
use rustaxa.VerifiedVotes.TwoTPlusOne.{get-insert_two_t_plus_one_voted_block}
use rustaxa.VerifiedVotes.Voters.{
  find_voter, insert_unique_voter_rejects, insert_unique_voter_accepts, own_votes, HasHash,
}
use rustaxa.VerifiedVotes.Store.{find_voted, find_vote}
use rustaxa.Common.{◌≡◌, refl, ◌≢◌, none, some, [], ◌∷◌}
use rustaxa.Common.Outcome.{done}
use rustaxa.Common.Map.{lookup, contains, put, emplace}
use rustaxa.Common.Map.Sorted.{drop_below}
use rustaxa.VerifiedVotes.Samples.{
  vote_a, vote_b, value_a, value_ab, step_a, state_a, state_ab, in_round,
}
use rustaxa.VerifiedVotes.{
  type_code, count_periods, count_rounds, count_steps, count_voted_values, sign_extend, voted_value,
  store_voted_value, one_is_null, store_step, conflicting_vote, set_network_t_plus_one_step,
  get_round_votes, cleanup_votes_by_period, check_voter, insert_two_t_plus_one_voted_block,
  get_period_votes, get_two_t_plus_one_voted_block_votes, get_step_votes, votes, size,
  get_two_t_plus_one_voted_block, insert_unique_voter, insert_voted_value, soft_voted_block,
}
use rustaxa.VerifiedVotes.Reach.{Reach, start, next, value}

-- What a test by evaluation sees through.
program : Unit {0}
unfolding lookup contains put emplace drop_below get_period_votes get_round_votes get_step_votes
    get_two_t_plus_one_voted_block get_two_t_plus_one_voted_block_votes set_network_t_plus_one_step
    insert_two_t_plus_one_voted_block store_step conflicting_vote one_is_null check_voter
    insert_unique_voter store_voted_value voted_value insert_voted_value cleanup_votes_by_period
    sign_extend count_voted_values count_steps count_rounds count_periods size votes find_voted
    find_vote find_voter own_votes get_type is_next_vote is_odd_step type_code
program = tt

first_insert : insert_voted_value vote_a [] ≡ done (state_a, some value_a)
unfolding program
first_insert = refl

second_offer :
    insert_unique_voter vote_b state_a
    ≡ (in_round (record step_a { unique_voters = (2, (vote_b, none)) ∷ [] }), none)
unfolding program
second_offer = refl

second_insert :
    insert_voted_value vote_b
      (in_round (record step_a { unique_voters = (2, (vote_b, none)) ∷ [] }))
    ≡ done (state_ab, some value_ab)
unfolding program
second_insert = refl

-- A second vote of `vote_b`'s voter for another block is refused.
refused_offer :
    insert_unique_voter (record vote_b { hash = 14; block_hash = 8 }) state_ab
    ≡ (state_ab, some vote_b)
unfolding program
refused_offer = refl

counted : size state_ab ≡ 2
unfolding program
counted = refl

abbrev reach_a : Reach state_a
reach_a = next start (value vote_a (some value_a) first_insert)

insert_unique_voter_rejects_example :
    ((insert_unique_voter (record vote_b { hash = 14; block_hash = 8 }) state_ab).0 ≡ state_ab)
    × (vote_b.hash ≢ 14)
    × HasHash vote_b.hash (own_votes (record vote_b { hash = 14; block_hash = 8 }) state_ab)
unfolding insert_unique_voter lookup get_step_votes check_voter conflicting_vote is_next_vote
insert_unique_voter_rejects_example =
    insert_unique_voter_rejects (record vote_b { hash = 14; block_hash = 8 }) vote_b state_ab refl

insert_unique_voter_accepts_example :
    HasHash vote_b.hash (own_votes vote_b (insert_unique_voter vote_b state_a).0)
unfolding insert_unique_voter lookup get_step_votes
insert_unique_voter_accepts_example =
    insert_unique_voter_accepts vote_b state_a {step = step_a} refl refl

get-insert_two_t_plus_one_voted_block_example :
    get_two_t_plus_one_voted_block 5 1 soft_voted_block
      (insert_two_t_plus_one_voted_block soft_voted_block vote_a state_a)
    ≡ some (record { hash = 7; step = 2 })
unfolding program
get-insert_two_t_plus_one_voted_block_example =
    get-insert_two_t_plus_one_voted_block soft_voted_block soft_voted_block vote_a state_a 5 1
