-- ===== src/VoteManager/Samples.antt =====
-- States of the verified votes for tests, with the calls that lead to them.
use rustaxa.Common.{ℕ, ◌+◌, ◌≡◌, refl, some, [], ◌∷◌}
use rustaxa.VerifiedVotes.Store.{find_voted, find_vote}
use rustaxa.Common.Outcome.{done}
use rustaxa.Common.Map.{Map, lookup, contains, put, erase, emplace}
use rustaxa.Vote.{PbftVote, get_type, is_next_vote, is_odd_step}
use rustaxa.VerifiedVotes.{
  VerifiedVotes, RoundVerifiedVotes, VotedBlock, VotesWithWeight, next_voted_block,
  insert_voted_value, insert_two_t_plus_one_voted_block, type_code, get_period_votes,
  get_round_votes, get_step_votes, get_two_t_plus_one_voted_block,
  get_two_t_plus_one_voted_block_votes, set_network_t_plus_one_step, store_step, conflicting_vote,
  one_is_null, check_voter, insert_unique_voter, store_voted_value, voted_value,
  cleanup_votes_by_period, sign_extend, count_voted_values, count_steps, count_rounds,
  count_periods, size, votes,
}
use rustaxa.VerifiedVotes.Samples.{vote_a}
use rustaxa.VerifiedVotes.Reach.{Reach, start, next, value, block}

-- What a test by evaluation sees through.
program : Unit {0}
unfolding lookup contains put erase emplace type_code get_period_votes get_round_votes
    get_step_votes get_two_t_plus_one_voted_block get_two_t_plus_one_voted_block_votes
    set_network_t_plus_one_step insert_two_t_plus_one_voted_block store_step conflicting_vote
    one_is_null check_voter insert_unique_voter store_voted_value voted_value insert_voted_value
    cleanup_votes_by_period sign_extend count_voted_values count_steps count_rounds count_periods
    size votes find_voted find_vote get_type is_next_vote is_odd_step
program = tt

-- The votes with one vote in it.
abbrev alone : PbftVote → VotesWithWeight
alone v = record { weight = 10; votes = (v.hash, v) ∷ [] }

abbrev round_of : PbftVote → Map VotedBlock → RoundVerifiedVotes
round_of v blocks = record {
  two_t_plus_one_voted_blocks = blocks;
  step_votes = (v.step, record { votes = (v.block_hash, alone v) ∷ []; unique_voters = [] }) ∷ [];
  network_t_plus_one_step = 0;
}

-- A next vote of a round.
abbrev next_of : ℕ → PbftVote
next_of round = record vote_a { hash = 20 + round; round = round; step = 4 }

abbrev two_rounds : VerifiedVotes
two_rounds = (5, (1, round_of (next_of 1) []) ∷ (2, round_of (next_of 2) []) ∷ []) ∷ []

-- The second of three rounds has 2t+1 next votes.
abbrev pub three_rounds : Map RoundVerifiedVotes
three_rounds =
    (1, round_of (next_of 1) [])
    ∷ (2, round_of (next_of 2) ((2, record { hash = 7; step = 4 }) ∷ []))
    ∷ (3, round_of (next_of 3) [])
    ∷ []

abbrev pub rounds_state : VerifiedVotes
rounds_state = (5, three_rounds) ∷ []

insert_1 :
    insert_voted_value (next_of 1) []
    ≡ done ((5, (1, round_of (next_of 1) []) ∷ []) ∷ [], some (alone (next_of 1)))
unfolding program
insert_1 = refl

insert_2 :
    insert_voted_value (next_of 2) ((5, (1, round_of (next_of 1) []) ∷ []) ∷ [])
    ≡ done (two_rounds, some (alone (next_of 2)))
unfolding program
insert_2 = refl

insert_3 :
    insert_voted_value
      (next_of 3)
      (insert_two_t_plus_one_voted_block next_voted_block (next_of 2) two_rounds)
    ≡ done (rounds_state, some (alone (next_of 3)))
unfolding program
insert_3 = refl

pub rounds_reached : Reach rounds_state
unfolding program
rounds_reached =
    let two : Reach two_rounds =
      next (next start (value (next_of 1) (some (alone (next_of 1))) insert_1))
        (value (next_of 2) (some (alone (next_of 2))) insert_2) in
    next (next two (block next_voted_block (next_of 2) (alone (next_of 2), refl)))
      (value (next_of 3) (some (alone (next_of 3))) insert_3)

-- A cert vote of the rewarded block.
abbrev pub cert_a : PbftVote
cert_a = record vote_a { step = 3 }

abbrev pub reward_rounds : Map RoundVerifiedVotes
reward_rounds = (1, round_of cert_a []) ∷ []

abbrev pub reward_state : VerifiedVotes
reward_state = (5, reward_rounds) ∷ []

insert_cert : insert_voted_value cert_a [] ≡ done (reward_state, some (alone cert_a))
unfolding program
insert_cert = refl

pub reward_reached : Reach reward_state
reward_reached = next start (value cert_a (some (alone cert_a)) insert_cert)
