-- ===== src/VoteManager/Own.antt =====
-- VoteManager: what the PBFT manager calls to read proposals and to move to another period or round.
use rustaxa.Common.{ℕ, zero, suc, none, some, List, [], ◌∷◌, ◌++◌, ◌==◌, if◌then◌else◌}
use rustaxa.Common.Outcome.{Outcome, done, deref, ◌>>=◌}
use rustaxa.Common.Map.{Map, lookup}
use rustaxa.Vote.{PbftVote}
use rustaxa.VerifiedVotes.{
  VotedBlock, RoundVerifiedVotes, VotesWithWeight, TwoTPlusOneVotedBlockType, soft_voted_block,
  cert_voted_block, next_voted_block, next_voted_null_block, get_step_votes, get_round_votes,
  values,
}
use rustaxa.VoteManager.{VoteManager, Effect}

abbrev pub proposal_votes_of : Map VotesWithWeight → List PbftVote
proposal_votes_of [] = []
proposal_votes_of ((_, voted) ∷ m) = values voted.votes ++ proposal_votes_of m

-- The proposals are in step 1.
unfoldable pub get_proposal_votes : ℕ → ℕ → VoteManager → List PbftVote
get_proposal_votes period round m = elim (get_step_votes period round 1 m.verified_votes) [
  | none ↦ []
  | some step ↦ proposal_votes_of step.votes
]

-- The enumerator with a number.
abbrev pub type_of : ℕ → TwoTPlusOneVotedBlockType
type_of zero = soft_voted_block
type_of (suc zero) = cert_voted_block
type_of (suc (suc zero)) = next_voted_block
type_of (suc (suc (suc _))) = next_voted_null_block

-- The bundles of 2t+1 votes are saved, but for cert votes.
unfoldable pub save_bundles :
    RoundVerifiedVotes → Map VotedBlock → List Effect → Outcome (List Effect)
save_bundles r [] effects = done effects
save_bundles r ((code, voted) ∷ m) effects = if code == 1 then save_bundles r m effects else do
  step_votes ← deref (lookup voted.step r.step_votes)
  found ← deref (lookup voted.hash step_votes.votes)
  save_bundles r m
      (Effect.replace_two_t_plus_one_votes (type_of code) (values found.votes) ∷ effects)

unfoldable pub set_current_pbft_period_and_round : ℕ → ℕ → VoteManager → Outcome VoteManager
unfolding save_bundles
set_current_pbft_period_and_round period round m =
    let moved : VoteManager = record m {
      current_pbft_period = period;
      current_pbft_round = round;
    } in
    elim (get_round_votes period round m.verified_votes) [
      | none ↦ done moved
      | some r ↦ do
        effects ← save_bundles r r.two_t_plus_one_voted_blocks m.effects
        done (record moved { effects = effects })
    ]
