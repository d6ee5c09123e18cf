-- ===== src/PillarVotes/Examples.antt =====
-- Tests of PillarVotes, and its theorems at concrete votes.
use rustaxa.Common.{◌%◌, ◌<◌, ◌≡◌, refl, subst, ◌⊎◌, true, ◌||◌, [], ◌∷◌, arith, u64}
use rustaxa.Common.Outcome.{done}
use rustaxa.Common.Map.{lookup, contains, put, emplace}
use rustaxa.PillarVotes.{
  PillarVote, PeriodVotes, PillarVotes, WeightVotes, add_verified_vote, add_to_period,
  add_weight_vote, vote_exists, is_unique_vote, initialize_period_data, erase_votes,
  get_verified_votes, sort_by_weight, insert_by_weight, take_threshold,
}
use rustaxa.PillarVotes.Unique.{
  find_vote, find_block, find_voter, Reach, start, next, add, init, weigh,
}
use rustaxa.PillarVotes.Reach.{weight-Reach, one_vote-Reach}
use rustaxa.PillarVotes.Select.{Chosen, entries, get_verified_votes-Chosen}
use rustaxa.PillarVotes.Add.{add_verified_vote-is_unique_vote}

program : Unit {0}
unfolding lookup contains put emplace add_verified_vote add_to_period add_weight_vote vote_exists
    is_unique_vote initialize_period_data erase_votes get_verified_votes sort_by_weight
    insert_by_weight take_threshold find_vote find_block find_voter
program = tt

abbrev vote_1 : PillarVote
vote_1 = record { hash = 11; voter = 1; block_hash = 7; period = 5 }

abbrev vote_2 : PillarVote
vote_2 = record { hash = 12; voter = 2; block_hash = 7; period = 5 }

abbrev votes_12 : WeightVotes
votes_12 = record { votes = (11, (vote_1, 3)) ∷ (12, (vote_2, 8)) ∷ []; weight = 11 }

abbrev period_0 : PeriodVotes
period_0 = record { pillar_block_votes = []; unique_voters = []; threshold = 6 }

abbrev period_1 : PeriodVotes
period_1 = record {
  pillar_block_votes = (7, record { votes = (11, (vote_1, 3)) ∷ []; weight = 3 }) ∷ [];
  unique_voters = (1, 11) ∷ [];
  threshold = 6;
}

abbrev period_12 : PeriodVotes
period_12 = record {
  pillar_block_votes = (7, votes_12) ∷ [];
  unique_voters = (1, 11) ∷ (2, 12) ∷ [];
  threshold = 6;
}

added_1 : add_verified_vote vote_1 3 ((5, period_0) ∷ []) ≡ done ((5, period_1) ∷ [], true)
unfolding program
added_1 = refl

added_2 : add_verified_vote vote_2 8 ((5, period_1) ∷ []) ≡ done ((5, period_12) ∷ [], true)
unfolding program
added_2 = refl

initialized : initialize_period_data 5 6 [] ≡ (5, period_0) ∷ []
unfolding program
initialized = refl

-- The heavier vote is enough.
handed_out : get_verified_votes 5 7 true ((5, period_12) ∷ []) ≡ vote_2 ∷ []
unfolding program
handed_out = refl

reach_0 : Reach ((5, period_0) ∷ [])
reach_0 = subst (λ s. Reach s) initialized (next start (init 5 6))

abbrev reach_12 : Reach ((5, period_12) ∷ [])
reach_12 = next (next reach_0 (add vote_1 3 added_1)) (add vote_2 8 added_2)

weight-Reach_example : votes_12.weight ≡ weigh votes_12.votes % u64
unfolding program
weight-Reach_example = weight-Reach 5 7 votes_12 reach_12 refl

one_vote-Reach_example : vote_1.hash ≡ 11
unfolding program
one_vote-Reach_example = one_vote-Reach 5 7 11 7 11 vote_1 vote_1 3 3 reach_12 refl refl refl

get_verified_votes-Chosen_example :
    ((11 < 6) × (get_verified_votes 5 7 true ((5, period_12) ∷ []) ≡ []))
    ⊎ Chosen 6 (entries votes_12.votes) (get_verified_votes 5 7 true ((5, period_12) ∷ []))
unfolding lookup
get_verified_votes-Chosen_example =
    get_verified_votes-Chosen 5 7 period_12 votes_12 reach_12 refl refl (omega arith) (omega arith)

add_verified_vote-is_unique_vote_example :
    (s' : PillarVotes) × (add_verified_vote vote_2 8 ((5, period_1) ∷ [])
      ≡ done (s', is_unique_vote vote_2 ((5, period_1) ∷ [])))
    × (vote_exists vote_2 s'
        ≡ (is_unique_vote vote_2 ((5, period_1) ∷ []) || vote_exists vote_2 ((5, period_1) ∷ [])))
unfolding lookup
add_verified_vote-is_unique_vote_example =
    add_verified_vote-is_unique_vote vote_2 8 ((5, period_1) ∷ []) period_1 refl
