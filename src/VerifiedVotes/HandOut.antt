-- ===== src/VerifiedVotes/HandOut.antt =====
-- VerifiedVotes::getTwoTPlusOneVotedBlockVotes.
use rustaxa.Common.{ℕ, ◌≡◌, inl, inr, Option, none, some, List, [], arith, Option-cases}
use rustaxa.Common.Outcome.{Outcome, done}
use rustaxa.Vote.{PbftVote}
use rustaxa.VerifiedVotes.{
  get_step_votes, get_two_t_plus_one_voted_block_votes, values, get_two_t_plus_one_voted_block,
  VerifiedVotes, VotesWithWeight, VotedBlock, TwoTPlusOneVotedBlockType,
}
use rustaxa.VerifiedVotes.Store.{find_voted}

abbrev pub IsThere {ℓ} : {A : Type ℓ} → Option A → Type ℓ
IsThere {A} o = (a : A) × (o ≡ some a)

-- Every 2t+1 block of a round has votes in its step.
abbrev pub HasVotes : VerifiedVotes → Type 0
HasVotes s =
    (period round : ℕ) (type : TwoTPlusOneVotedBlockType) (b : VotedBlock)
    → get_two_t_plus_one_voted_block period round type s ≡ some b
    → IsThere (find_voted period round b.step b.hash s)

abbrev pub handed_out : Option VotesWithWeight → List PbftVote
handed_out none = []
handed_out (some voted) = values voted.votes

-- Where every 2t+1 block has votes, the call never fails its assertion: it hands out the votes for
-- the block that is entered under the type, and none if there is no such block.
pub get_two_t_plus_one_voted_block_votes_lem :
    (period round : ℕ) (type : TwoTPlusOneVotedBlockType) (s : VerifiedVotes)
    → HasVotes s
    → get_two_t_plus_one_voted_block_votes period round type s
      ≡ (elim (get_two_t_plus_one_voted_block period round type s)
          as (λ _. Outcome (List PbftVote)) [
            | none ↦ done []
            | some b ↦ done (handed_out (find_voted period round b.step b.hash s))
          ])
unfolding get_two_t_plus_one_voted_block_votes find_voted
get_two_t_plus_one_voted_block_votes_lem period round type s h =
    elim (Option-cases (get_two_t_plus_one_voted_block period round type s)) [
      | inl e ↦ ground arith
      | inr (b, e) ↦
          let (voted, f) = h period round type b e in
          elim (Option-cases (get_step_votes period round b.step s)) [
            | inl g ↦ ground arith
            | inr (step, g) ↦ ground arith
          ]
    ]
