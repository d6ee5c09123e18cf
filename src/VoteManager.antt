-- ===== src/VoteManager.antt =====
-- libraries/core_libs/consensus: VoteManager, above VerifiedVotes. What it writes to the database
-- and hands to the slashing manager is a list of effects, the newest first. The stake that the
-- final chain reports and the size of the PBFT chain are arguments.
pub mod Threshold
pub mod Rounds
pub mod Rewards
pub mod RewardsFound
pub mod Unique
pub mod Add
pub mod Sound
pub mod Quorum
pub mod Weighed
pub mod Reach
pub mod Steady
pub mod Own
pub mod Samples
mod Examples
use mathlib.Core.List.{reverse}
use rustaxa.Common.{
  ℕ, zero, suc, ◌+◌, ◌-◌, ◌*◌, ◌/◌, ◌%◌, ◌^◌, ◌≤◌, ◌<◌, max, min, ◌≡◌, refl, sym, ap, subst, ◌∙◌,
  ◌≢◌, ◌↔◌, ◌⊎◌, inl, inr, Bool, true, false, not, ◌&&◌, ◌||◌, Option, none, some, List, [], ◌∷◌,
  ◌++◌, map, arith, ltb, leb, ◌==◌, if◌then◌else◌, ltb→lt, ==_iff, Bool-cases, Option-cases, u64,
  u32, length, All, length-append, total,
}
use rustaxa.Common.Outcome.{Outcome, done, fault, ◌>>=◌, ◌>>◌, deref, assert}
use rustaxa.Common.Map.{Map, lookup, put, contains}
use rustaxa.Vote.{PbftVote, PbftVoteTypes, get_type, is_next_vote, is_odd_step, null_block_hash}
use rustaxa.VerifiedVotes.{
  VerifiedVotes, RoundVerifiedVotes, VotesWithWeight, VotedBlock, TwoTPlusOneVotedBlockType,
  soft_voted_block, cert_voted_block, next_voted_block, next_voted_null_block, type_code,
  insert_unique_voter, insert_voted_value, insert_two_t_plus_one_voted_block,
  set_network_t_plus_one_step, get_round_votes, get_period_votes, get_step_votes, values,
  conflicting_vote, one_is_null,
}

pub data Effect : Type 0 where
  submit_double_voting_proof : PbftVote → PbftVote → Effect
  save_extra_reward_vote : PbftVote → Effect
  replace_two_t_plus_one_votes : TwoTPlusOneVotedBlockType → List PbftVote → Effect
  remove_extra_reward_votes : List ℕ → Effect

pub record PbftConfig : Type 0 where
  pub number_of_proposers : ℕ
  pub committee_size : ℕ

-- What the calls read of other components: the stake of all validators at a period, unless the
-- period is ahead of the final chain (`ErrFutureBlock`), and the size of the PBFT chain.
pub record Chain : Type 0 where
  pub config : PbftConfig
  pub dpos_total_votes_count : ℕ → Option ℕ
  pub pbft_chain_size : ℕ

-- `current_two_t_plus_one` has the number of a vote type for its key. `reward_votes_period` has the
-- 32 bits of `PbftRound`, the type of the member of the class.
pub record VoteManager : Type 0 where
  pub verified_votes : VerifiedVotes
  pub current_pbft_period : ℕ
  pub current_pbft_round : ℕ
  pub reward_votes_block_hash : ℕ
  pub reward_votes_period : ℕ
  pub reward_votes_round : ℕ
  pub extra_reward_votes : List ℕ
  pub current_two_t_plus_one : Map (ℕ × ℕ)
  pub effects : List Effect

-- The number of the enumerator.
unfoldable pub vote_type_code : PbftVoteTypes → ℕ
vote_type_code PbftVoteTypes.invalid_vote = 0
vote_type_code PbftVoteTypes.propose_vote = 1
vote_type_code PbftVoteTypes.soft_vote = 2
vote_type_code PbftVoteTypes.cert_vote = 3
vote_type_code PbftVoteTypes.next_vote = 4

unfoldable pub get_pbft_sortition_threshold : PbftConfig → ℕ → PbftVoteTypes → ℕ
get_pbft_sortition_threshold c total_count PbftVoteTypes.propose_vote =
    min c.number_of_proposers total_count
get_pbft_sortition_threshold c total_count _ = min c.committee_size total_count

-- `threshold * 2 / 3 + 1` on `uint64_t`.
unfoldable pub two_t_plus_one : ℕ → ℕ
two_t_plus_one threshold = threshold * 2 % u64 / 3 + 1

-- The value for a period from the stake, with no cache.
unfoldable pub compute_two_t_plus_one : Chain → ℕ → PbftVoteTypes → Option ℕ
unfolding two_t_plus_one get_pbft_sortition_threshold
compute_two_t_plus_one c period type = elim (c.dpos_total_votes_count period) [
  | none ↦ none
  | some count ↦ some (two_t_plus_one (get_pbft_sortition_threshold c.config count type))
]

-- A cached value of 0 does not count.
unfoldable pub cached_two_t_plus_one : ℕ → Option (ℕ × ℕ) → Option ℕ
cached_two_t_plus_one period none = none
cached_two_t_plus_one period (some (cached_period, value)) =
    if period == cached_period && not (value == 0) then some value else none

unfoldable pub get_pbft_two_t_plus_one :
    Chain → ℕ → PbftVoteTypes → VoteManager → VoteManager × Option ℕ
unfolding cached_two_t_plus_one compute_two_t_plus_one
get_pbft_two_t_plus_one c period type m =
    let code = vote_type_code type in
    elim (cached_two_t_plus_one period (lookup code m.current_two_t_plus_one)) [
      | some value ↦ (m, some value)
      | none ↦ elim (compute_two_t_plus_one c period type) [
        | none ↦ (m, none)
        | some value ↦
            if period == c.pbft_chain_size
            then (
              record m {
                current_two_t_plus_one = put code (period, value) m.current_two_t_plus_one;
              },
              some value,
            )
            else (m, some value)
      ]
    ]

-- A cert vote for the block of the last period, at most 100 rounds late.
unfoldable pub is_valid_reward_vote : PbftVote → VoteManager → Bool
unfolding get_type
is_valid_reward_vote v m =
    vote_type_code (get_type v.step) == 3
    && (v.block_hash == m.reward_votes_block_hash
        && (v.period == m.reward_votes_period
            && not (ltb ((m.reward_votes_round + 100) % u32) v.round)))

-- The kind of 2t+1 block that a vote can complete.
unfoldable pub voted_block_type : PbftVote → Option TwoTPlusOneVotedBlockType
unfolding get_type
voted_block_type v = elim (get_type v.step) [
  | PbftVoteTypes.soft_vote ↦ some soft_voted_block
  | PbftVoteTypes.cert_vote ↦ some cert_voted_block
  | PbftVoteTypes.next_vote ↦
      if v.block_hash == null_block_hash then some next_voted_null_block else some next_voted_block
  | _ ↦ none
]

-- 2t+1 next votes for a block may come in several steps.
unfoldable pub step_may_differ : TwoTPlusOneVotedBlockType → Bool
step_may_differ next_voted_block = true
step_may_differ next_voted_null_block = true
step_may_differ _ = false

unfoldable pub is_cert_vote : PbftVote → Bool
unfolding get_type
is_cert_vote v = vote_type_code (get_type v.step) == 3

-- `saveTwoTPlusOneVotesInDb`, with the round as it was read before.
unfoldable pub save_two_t_plus_one_votes :
    RoundVerifiedVotes
    → VotesWithWeight
    → TwoTPlusOneVotedBlockType
    → PbftVote
    → VoteManager
    → Outcome VoteManager
save_two_t_plus_one_votes round_votes voted type v m =
    elim (lookup (type_code type) round_votes.two_t_plus_one_voted_blocks) [
      | some found ↦ do
        assert (found.hash == v.block_hash)
        assert (step_may_differ type || found.step == v.step)
        done m
      | none ↦
          let vv = insert_two_t_plus_one_voted_block type v m.verified_votes in
          let saved =
            not (is_cert_vote v)
            && (v.period == m.current_pbft_period && v.round == m.current_pbft_round) in
          done (
            if saved
            then record m {
              verified_votes = vv;
              effects = replace_two_t_plus_one_votes type (values voted.votes) ∷ m.effects;
            }
            else record m { verified_votes = vv })
    ]

-- The network's t+1 step rises to the step of a next vote with t+1 votes.
unfoldable pub raise_network_step :
    RoundVerifiedVotes → VotesWithWeight → ℕ → PbftVote → VoteManager → VoteManager
raise_network_step round_votes voted threshold v m =
    let t_plus_one = (threshold - 1) / 2 + 1 in
    if is_next_vote v
      && (leb t_plus_one voted.weight && ltb round_votes.network_t_plus_one_step v.step)
    then record m { verified_votes = set_network_t_plus_one_step v m.verified_votes }
    else m

-- What follows once the vote is among the verified ones.
unfoldable pub note_thresholds :
    Chain → PbftVote → VotesWithWeight → VoteManager → Outcome VoteManager
note_thresholds c v voted m =
    let (m', threshold) =
      get_pbft_two_t_plus_one c ((v.period + (u64 - 1)) % u64) (get_type v.step) m in
    elim threshold [
      | none ↦ done m'
      | some t ↦ elim (get_round_votes v.period v.round m'.verified_votes) [
        | none ↦ done m'
        | some round_votes ↦
            let raised = raise_network_step round_votes voted t v m' in
            if ltb voted.weight t then done raised else elim (voted_block_type v) [
              | none ↦ done raised
              | some type ↦ save_two_t_plus_one_votes round_votes voted type v raised
            ]
      ]
    ]

-- An old vote is of use as a reward vote only.
unfoldable pub is_old : PbftVote → VoteManager → Bool
is_old v m = ltb v.period m.current_pbft_period

unfoldable pub note_reward_vote : PbftVote → Bool → VoteManager → VoteManager
note_reward_vote v true m = record m {
  extra_reward_votes = m.extra_reward_votes ++ v.hash ∷ [];
  effects = save_extra_reward_vote v ∷ m.effects;
}
note_reward_vote v false m = m

-- The vote of a voter who has no other one in its step.
unfoldable pub add_unique_vote : Chain → PbftVote → VoteManager → Outcome (VoteManager × Bool)
add_unique_vote c v m = if is_old v m && not (is_valid_reward_vote v m) then done (m, false) else do
  (vv, voted) ← insert_voted_value v m.verified_votes
  let stored : VoteManager = record m { verified_votes = vv }
  elim voted [
    | none ↦ done (stored, false)
    | some votes ↦ do
      m' ← note_thresholds c v votes (note_reward_vote v (is_old v m) stored)
      done (m', true)
  ]

unfoldable pub add_verified_vote : Chain → PbftVote → VoteManager → Outcome (VoteManager × Bool)
add_verified_vote c v m = do
  weight ← deref v.weight
  let (vv, conflict) = insert_unique_voter v m.verified_votes
  let entered : VoteManager = record m { verified_votes = vv }
  if weight == 0 then done (m, false) else elim conflict [
    | some w ↦ done (record entered { effects = submit_double_voting_proof v w ∷ m.effects }, false)
    | none ↦ add_unique_vote c v entered
  ]

-- Reading.

unfoldable pub vote_in_verified_map : PbftVote → VoteManager → Bool
vote_in_verified_map v m = elim (get_step_votes v.period v.round v.step m.verified_votes) [
  | none ↦ false
  | some step ↦ elim (lookup v.block_hash step.votes) [
    | none ↦ false
    | some voted ↦ contains v.hash voted.votes
  ]
]

-- The verdict on a vote for the entry of its voter: none if it may be added.
unfoldable pub compare_votes : PbftVote → PbftVote × Option PbftVote → Option PbftVote
compare_votes v (first, none) =
    if first.hash == v.hash
    then none
    else if is_next_vote v && is_odd_step v && one_is_null first v
    then none
    else some (conflicting_vote v first none)
compare_votes v (first, some second) =
    if first.hash == v.hash
    then none
    else if is_next_vote v && is_odd_step v && second.hash == v.hash
    then none
    else some (conflicting_vote v first (some second))

-- `{true, nullptr}` is none, and `{false, w}` the conflicting vote.
unfoldable pub is_unique_vote : PbftVote → VoteManager → Option PbftVote
is_unique_vote v m = elim (get_step_votes v.period v.round v.step m.verified_votes) [
  | none ↦ none
  | some step ↦ elim (lookup v.voter step.unique_voters) [
    | none ↦ none
    | some entry ↦ compare_votes v entry
  ]
]

unfoldable pub get_network_t_plus_one_next_voting_step : ℕ → ℕ → VoteManager → ℕ
get_network_t_plus_one_next_voting_step period round m =
    elim (get_round_votes period round m.verified_votes) [
      | none ↦ 0
      | some r ↦ r.network_t_plus_one_step
    ]
