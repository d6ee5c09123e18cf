-- ===== src/VerifiedVotes/Reach.antt =====
-- The state as a machine: each call of a writing method is a step, and the states that calls lead
-- to from the empty map.
use rustaxa.VerifiedVotes.TwoTPlusOne.{
  get_step_votes-set_network_t_plus_one_step, get_step_votes-insert_two_t_plus_one_voted_block,
}
use rustaxa.Common.{ℕ, ◌≡◌, Option, [], arith}
use rustaxa.Common.Outcome.{done}
use rustaxa.Vote.{PbftVote}
use rustaxa.Common.Map.{lookup}
use rustaxa.VerifiedVotes.{
  get_step_votes, get_two_t_plus_one_voted_block, VerifiedVotes, TwoTPlusOneVotedBlockType,
  VotesWithWeight, insert_unique_voter, insert_voted_value, insert_two_t_plus_one_voted_block,
  set_network_t_plus_one_step, cleanup_votes_by_period,
}
use rustaxa.VerifiedVotes.Store.{find_voted, find_vote}
use rustaxa.VerifiedVotes.Voters.{find_voter, insert_unique_voter-HasUniqueVoters}
use rustaxa.VerifiedVotes.HandOut.{IsThere}
use rustaxa.VerifiedVotes.Keep.{
  insert_two_t_plus_one_voted_block-IsSorted, set_network_t_plus_one_step-IsSorted,
  find_voted-insert_unique_voter, get_two_t_plus_one-insert_unique_voter,
  insert_unique_voter-IsSorted,
}
use rustaxa.VerifiedVotes.Within.{
  IsSound, Within-IsFiled, Within-HasUniqueVoters, same-Within, cleanup-Within, cleanup-HasVotes,
  kept-HasVotes, network-HasVotes, cleanup-IsSorted, block-HasVotes, insert_unique_voter-IsFiled,
  insert_voted_value-IsSound,
}

-- A 2t+1 block is entered only once its votes are there: insertTwoTPlusOneVotedBlock does not check
-- this, its only caller addVerifiedVote sees to it (VoteManager/Reach).
pub data Step (s : VerifiedVotes) : VerifiedVotes → Type 0 where
  voter : (v : PbftVote) → Step s (insert_unique_voter v s).0
  value :
      {s' : VerifiedVotes} (v : PbftVote) (r : Option VotesWithWeight)
      → insert_voted_value v s ≡ done (s', r)
      → Step s s'
  network : (v : PbftVote) → Step s (set_network_t_plus_one_step v s)
  block :
      (type : TwoTPlusOneVotedBlockType) (v : PbftVote)
      → IsThere (find_voted v.period v.round v.step v.block_hash s)
      → Step s (insert_two_t_plus_one_voted_block type v s)
  cleanup : (period : ℕ) → Step s (cleanup_votes_by_period period s)

pub data Reach : VerifiedVotes → Type 0 where
  start : Reach []
  next : {s s' : VerifiedVotes} → Reach s → Step s s' → Reach s'

-- No call breaks an invariant.
pub Step-IsSound : {s s' : VerifiedVotes} → Step s s' → IsSound s → IsSound s'
Step-IsSound {s} (voter v) i = record {
  sorted = insert_unique_voter-IsSorted v s i.sorted;
  filed = insert_unique_voter-IsFiled v s i.filed;
  voters = insert_unique_voter-HasUniqueVoters v s i.voters;
  handed =
      kept-HasVotes s _ (get_two_t_plus_one-insert_unique_voter v s)
        (λ period round step b there.
          rw (find_voted-insert_unique_voter v s period round step b) there)
        i.handed;
}
Step-IsSound {s} (value v r h) i = insert_voted_value-IsSound v s h i
Step-IsSound {s} (network v) i =
    let same = get_step_votes-set_network_t_plus_one_step v s in
    let w = same-Within same in
    record {
      sorted = set_network_t_plus_one_step-IsSorted v s i.sorted;
      filed = Within-IsFiled w i.filed;
      voters = Within-HasUniqueVoters w i.voters;
      handed = network-HasVotes v s i.handed;
    }
Step-IsSound {s} (block type v there) i =
    let w = same-Within (get_step_votes-insert_two_t_plus_one_voted_block type v s) in
    record {
      sorted = insert_two_t_plus_one_voted_block-IsSorted type v s i.sorted;
      filed = Within-IsFiled w i.filed;
      voters = Within-HasUniqueVoters w i.voters;
      handed = block-HasVotes type v s there i.handed;
    }
Step-IsSound {s} (cleanup bound) i =
    let w = cleanup-Within bound s i.sorted in
    record {
      sorted = cleanup-IsSorted bound s i.sorted;
      filed = Within-IsFiled w i.filed;
      voters = Within-HasUniqueVoters w i.voters;
      handed = cleanup-HasVotes bound s i.sorted i.handed;
    }

start-IsSound : IsSound []
unfolding find_vote find_voted find_voter get_step_votes get_two_t_plus_one_voted_block lookup
start-IsSound = record {
  sorted = tt;
  filed = record {
    filed = λ period round step block hash v e. absurd (ground arith);
    weighed = λ period round step block voted e. absurd (ground arith);
  };
  voters = λ period round step a e found. absurd (ground arith);
  handed = λ period round type b e. absurd (ground arith);
}

-- In every state that calls lead to, votes are filed under their coordinates with the right weights,
-- the entries of the voters are legal, the periods are in order, and each 2t+1 block has its votes.
pub Reach-IsSound : {s : VerifiedVotes} → Reach s → IsSound s
Reach-IsSound start = start-IsSound
Reach-IsSound (next r st) = Step-IsSound st (Reach-IsSound r)
