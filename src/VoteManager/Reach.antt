-- ===== src/VoteManager/Reach.antt =====
-- VoteManager as a machine: each call of a method that changes its state is a step. The verified votes
-- then go through steps of VerifiedVotes.
use rustaxa.Common.{ℕ, ◌≡◌, subst, sym, Bool, none, some, [], arith}
use rustaxa.Common.Outcome.{done}
use rustaxa.Vote.{PbftVote, PbftVoteTypes}
use rustaxa.VerifiedVotes.{VerifiedVotes, insert_unique_voter, cleanup_votes_by_period}
use rustaxa.VerifiedVotes.Store.{find_voted}
use rustaxa.VerifiedVotes.HandOut.{IsThere}
use rustaxa.VerifiedVotes.Within.{IsSound}
use rustaxa.VerifiedVotes.Listed.{HandedOut, Reach-HandedOut}
use rustaxa.VerifiedVotes.{
  TwoTPlusOneVotedBlockType, VotedBlock, get_two_t_plus_one_voted_block,
  get_two_t_plus_one_voted_block_votes,
}
use rustaxa.Common.{◌⊎◌, List}
use rustaxa.VerifiedVotes.Reach.{
  Reach, start, next, voter, value, network, block, cleanup, Reach-IsSound,
}
use rustaxa.VoteManager.{Chain, VoteManager, add_verified_vote, get_pbft_two_t_plus_one}
use rustaxa.VoteManager.Own.{set_current_pbft_period_and_round}
use rustaxa.VoteManager.Rewards.{reset_reward_votes}
use rustaxa.VoteManager.Add.{
  add_verified_vote-AddedVote, get_pbft_two_t_plus_one_votes, Noted, nothing, raised, entered, both,
  refused, checked, known, stored,
}
use rustaxa.VoteManager.Sound.{network-IsThere, insert_voted_value-IsThere}

pub data Call (m : VoteManager) : VoteManager → Type 0 where
  added :
      {m' : VoteManager} (c : Chain) (v : PbftVote) (b : Bool)
      → add_verified_vote c v m ≡ done (m', b)
      → Call m m'
  asked :
      (c : Chain) (period : ℕ) (type : PbftVoteTypes)
      → Call m (get_pbft_two_t_plus_one c period type m).0
  cleaned :
      (period : ℕ)
      → Call m (record m { verified_votes = cleanup_votes_by_period period m.verified_votes })
  moved :
      {m' : VoteManager} (period round : ℕ)
      → set_current_pbft_period_and_round period round m ≡ done m'
      → Call m m'
  rewarded :
      {m' : VoteManager} (period round step block_hash : ℕ)
      → reset_reward_votes period round step block_hash m ≡ done m'
      → Call m m'

-- The states that calls lead to from one without votes.
pub data IsCalled : VoteManager → Type 0 where
  fresh : (m : VoteManager) → m.verified_votes ≡ [] → IsCalled m
  then_call : {m m' : VoteManager} → IsCalled m → Call m m' → IsCalled m'

Noted-Reach :
    (v : PbftVote) (s s' : VerifiedVotes)
    → Noted v s s'
    → IsThere (find_voted v.period v.round v.step v.block_hash s)
    → Reach s
    → Reach s'
Noted-Reach v s s' (nothing e) there r = rw e r
Noted-Reach v s s' (raised e) there r = rw e (next r (network v))
Noted-Reach v s s' (entered type e) there r = rw e (next r (block type v there))
Noted-Reach v s s' (both type e) there r =
    rw e (next (next r (network v)) (block type v (network-IsThere v s there)))

add_verified_vote-Reach :
    (c : Chain) (v : PbftVote) (m : VoteManager) {m' : VoteManager} {b : Bool}
    → add_verified_vote c v m ≡ done (m', b)
    → Reach m.verified_votes
    → Reach m'.verified_votes
add_verified_vote-Reach c v m h r = elim (add_verified_vote-AddedVote c v m h) [
  | refused e _ ↦ rw e r
  | checked e _ ↦ rw e (next r (voter v))
  | known _ e _ ↦ next (next r (voter v)) (value v none e)
  | stored vv voted _ e noted _ ↦
      Noted-Reach v vv _ noted
        (insert_voted_value-IsThere v (insert_unique_voter v m.verified_votes).0 e)
        (next (next r (voter v)) (value v (some voted) e))
]

pub set_current_pbft_period_and_round_votes :
    (period round : ℕ) (m : VoteManager) {m' : VoteManager}
    → set_current_pbft_period_and_round period round m ≡ done m'
    → m.verified_votes ≡ m'.verified_votes
unfolding set_current_pbft_period_and_round
set_current_pbft_period_and_round_votes period round m h = ground arith

pub reset_reward_votes_votes :
    (period round step block_hash : ℕ) (m : VoteManager) {m' : VoteManager}
    → reset_reward_votes period round step block_hash m ≡ done m'
    → m.verified_votes ≡ m'.verified_votes
unfolding reset_reward_votes
reset_reward_votes_votes period round step block_hash m h = ground arith

Call-Reach : {m m' : VoteManager} → Call m m' → Reach m.verified_votes → Reach m'.verified_votes
Call-Reach {m} (added c v b h) r = add_verified_vote-Reach c v m h r
Call-Reach {m} (asked c period type) r =
    subst (λ s. Reach s) (sym (get_pbft_two_t_plus_one_votes c period type m)) r
Call-Reach (cleaned period) r = next r (cleanup period)
Call-Reach {m} (moved period round h) r =
    subst (λ s. Reach s) (set_current_pbft_period_and_round_votes period round m h) r
Call-Reach {m} (rewarded period round step block_hash h) r =
    subst (λ s. Reach s) (reset_reward_votes_votes period round step block_hash m h) r

pub IsCalled-Reach : {m : VoteManager} → IsCalled m → Reach m.verified_votes
IsCalled-Reach (fresh m e) = rw e start
IsCalled-Reach (then_call before c) = Call-Reach c (IsCalled-Reach before)

-- In every state that calls lead to from one without votes, the votes are filed under their
-- coordinates with the right weights, the entries of the voters are legal, the periods are in order,
-- and each 2t+1 block has its votes.
pub IsCalled-IsSound : {m : VoteManager} → IsCalled m → IsSound m.verified_votes
IsCalled-IsSound called = Reach-IsSound (IsCalled-Reach called)

-- In every state that calls lead to from one without votes, getTwoTPlusOneVotedBlockVotes does not fail
-- its assertion: without a 2t+1 block of the type in the round it hands out nothing; else at least one
-- vote, and only votes of the period and round for that block, of the step that it is entered with.
pub IsCalled-HandedOut :
    (period round : ℕ) (type : TwoTPlusOneVotedBlockType) {m : VoteManager}
    → IsCalled m
    → ((get_two_t_plus_one_voted_block period round type m.verified_votes ≡ none)
        × (get_two_t_plus_one_voted_block_votes period round type m.verified_votes ≡ done []))
      ⊎ ((b : VotedBlock) × (get_two_t_plus_one_voted_block period round type m.verified_votes
            ≡ some b)
          × (vs : List PbftVote) × (get_two_t_plus_one_voted_block_votes period round type
                m.verified_votes
              ≡ done vs)
          × HandedOut period round b vs)
IsCalled-HandedOut period round type called =
    Reach-HandedOut period round type (IsCalled-Reach called)
