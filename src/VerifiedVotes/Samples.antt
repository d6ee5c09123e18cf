-- ===== src/VerifiedVotes/Samples.antt =====
-- Votes and states for tests: two voters in one step, and a second vote of the first of them.
use rustaxa.Common.{some, [], ◌∷◌, none}
use rustaxa.Vote.{PbftVote}
use rustaxa.VerifiedVotes.{VerifiedVotes, StepVotes, VotesWithWeight}

abbrev pub vote_a : PbftVote
vote_a = record {
  hash = 11;
  voter = 1;
  block_hash = 7;
  period = 5;
  round = 1;
  step = 2;
  weight = some 10;
}

abbrev pub vote_b : PbftVote
vote_b = record vote_a { hash = 12; voter = 2 }

-- The voter of `vote_a`, for another block.
abbrev pub vote_c : PbftVote
vote_c = record vote_a { hash = 13; block_hash = 8 }

abbrev pub value_a : VotesWithWeight
value_a = record { weight = 10; votes = (11, vote_a) ∷ [] }

abbrev pub step_a : StepVotes
step_a = record { votes = (7, value_a) ∷ []; unique_voters = [] }

abbrev pub in_round : StepVotes → VerifiedVotes
in_round step =
    (
      5,
      (
        1,
        record {
          two_t_plus_one_voted_blocks = [];
          step_votes = (2, step) ∷ [];
          network_t_plus_one_step = 0;
        },
      )
          ∷ [],
    )
    ∷ []

-- After `vote_a` alone.
abbrev pub state_a : VerifiedVotes
state_a = in_round step_a

-- After `vote_b` was offered and added too.
abbrev pub value_ab : VotesWithWeight
value_ab = record { weight = 20; votes = (11, vote_a) ∷ (12, vote_b) ∷ [] }

abbrev pub state_ab : VerifiedVotes
state_ab =
    in_round (record { votes = (7, value_ab) ∷ []; unique_voters = (2, (vote_b, none)) ∷ [] })
