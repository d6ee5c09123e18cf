-- ===== src/PbftManager/Steps.antt =====
-- PbftManager: what the node votes before the finish states (proposeBlock_, identifyBlock_,
-- certifyBlock_), and setPbftStep.
pub mod Place
pub mod Votes
pub mod Proposal
pub mod Certify
pub mod Finish
use rustaxa.Common.{
  ℕ, zero, suc, ◌+◌, ◌-◌, ◌*◌, ◌/◌, ◌%◌, ◌^◌, ◌≤◌, ◌<◌, max, min, ◌≡◌, refl, sym, ap, subst, ◌∙◌,
  ◌≢◌, ◌↔◌, ◌⊎◌, inl, inr, Bool, true, false, not, ◌&&◌, ◌||◌, Option, none, some, List, [], ◌∷◌,
  ◌++◌, map, arith, ltb, leb, ◌==◌, if◌then◌else◌, ltb→lt, ==_iff, Bool-cases, Option-cases, u64,
  u32, length, All, length-append, total, get_elem?, drop, is_nil,
}
use rustaxa.Common.Outcome.{Outcome, done, fault, deref, assert, ◌>>=◌, ◌>>◌}
use rustaxa.Common.Map.{Map, lookup, put}
use rustaxa.Vote.{
  PbftVote, PbftVoteTypes, propose_vote, soft_vote, cert_vote, next_vote, null_block_hash,
}
use rustaxa.PbftBlock.{PbftBlock}
use rustaxa.VerifiedVotes.{
  VotedBlock, TwoTPlusOneVotedBlockType, soft_voted_block, next_voted_block, next_voted_null_block,
  get_two_t_plus_one_voted_block,
}
use rustaxa.VoteManager.{
  VoteManager, get_network_t_plus_one_next_voting_step, get_pbft_two_t_plus_one,
}
use rustaxa.VoteManager.Own.{get_proposal_votes}
use rustaxa.VoteManager.Rewards.{check_reward_votes}
use rustaxa.ProposedBlocks.{ProposedBlocks, is_none}
use rustaxa.PbftManager.{
  World, PbftManager, Machine, PbftDb, PbftStates, value_proposal_state, filter_state,
  certify_state, finish_state, finish_polling_state, get_pbft_period,
}
use rustaxa.PbftManager.Lambda.{get_pbft_deadline, step_lambda}
use rustaxa.PbftManager.Validate.{BlockChecks, get_valid_pbft_proposed_block}
use rustaxa.PbftManager.Leader.{identify_leader_block}
use rustaxa.PbftManager.Voting.{gen_and_place_vote, k_polling_interval_ms, chain_of, period_before}
use rustaxa.PbftManager.Propose.{propose_pbft_block}

abbrev pub hash_of : Option VotedBlock → Option ℕ
hash_of none = none
hash_of (some v) = some v.hash

-- 2t+1 voted blocks of the current period.
abbrev pub voted_in : ℕ → TwoTPlusOneVotedBlockType → PbftManager → Option ℕ
voted_in round type s =
    hash_of
      (get_two_t_plus_one_voted_block (get_pbft_period s) round type s.vote_mgr.verified_votes)

-- `round - 1`, on `uint32_t`.
abbrev pub round_before : PbftManager → ℕ
round_before s = (s.machine.round + (u32 - 1)) % u32

abbrev pub checks_of : PbftManager → BlockChecks
checks_of s = record { proposed = s.proposed_blocks; cache = s.anchor_dag_block_order_cache }

abbrev pub with_checks : BlockChecks → PbftManager → PbftManager
with_checks p s = record s { proposed_blocks = p.proposed; anchor_dag_block_order_cache = p.cache }

unfoldable pub find_proposed : World → ℕ → PbftManager → Outcome (PbftManager × Option PbftBlock)
find_proposed w block_hash s = do
  (p, block) ← get_valid_pbft_proposed_block w s (get_pbft_period s) block_hash (checks_of s)
  done (with_checks p s, block)

-- A vote of the current period, round and step, with what it returns.
unfoldable pub vote_now :
    World → PbftVoteTypes → ℕ → Option PbftBlock → PbftManager → Outcome (PbftManager × Bool)
vote_now w type block_hash block s =
    gen_and_place_vote w type (get_pbft_period s) s.machine.round s.machine.step block_hash block s

abbrev pub state_of : PbftManager × Bool → PbftManager
state_of (s, _) = s

-- A vote for a block that is found among the proposed ones, if it is.
unfoldable pub vote_for_found :
    World → PbftVoteTypes → ℕ → PbftManager → Outcome (PbftManager × Bool)
unfolding find_proposed vote_now
vote_for_found w type block_hash s = do
  (s', block) ← find_proposed w block_hash s
  elim block [ none ↦ done (s', false) | some b ↦ vote_now w type block_hash (some b) s' ]

-- `round == 1 || … NextVotedNullBlock … .has_value()`.
abbrev pub starts_anew : PbftManager → Bool
starts_anew s =
    s.machine.round == 1 || not (is_none (voted_in (round_before s) next_voted_null_block s))

-- genAndPlaceProposeVote.
unfoldable pub gen_and_place_propose_vote :
    World → PbftBlock → PbftManager → Outcome (PbftManager × Bool)
unfolding vote_now
gen_and_place_propose_vote w b s =
    let vote = vote_now w propose_vote b.block_hash (some b) s in
    if b.period == get_pbft_period s then vote else done (s, false)

-- A next voted block is proposed again if its reward votes are there.
unfoldable pub repropose : World → ℕ → PbftManager → Outcome (PbftManager × Bool)
unfolding find_proposed gen_and_place_propose_vote
repropose w block_hash s = do
  (s', block) ← find_proposed w block_hash s
  elim block [
    | none ↦ done (s', false)
    | some b ↦ do
      rewards ← check_reward_votes b true s'.vote_mgr
      if is_none rewards then done (s', false) else gen_and_place_propose_vote w b s'
  ]

unfoldable pub propose_block : World → PbftManager → Outcome PbftManager
unfolding repropose
propose_block w s =
    if starts_anew s
    then (do (s', _) ← propose_pbft_block w s; done s')
    else elim (voted_in (round_before s) next_voted_block s) [
      | none ↦ fault
      | some block_hash ↦ do (s', _) ← repropose w block_hash s; done s'
    ]

-- The assertion on the period of the leader is in genAndPlaceVote as well.
unfoldable pub soft_vote_leader : World → PbftManager → Outcome (PbftManager × Bool)
soft_vote_leader w s = do
  let votes = get_proposal_votes (get_pbft_period s) s.machine.round s.vote_mgr
  (p, leader) ← identify_leader_block w s votes (checks_of s)
  elim leader [
    | none ↦ done (with_checks p s, false)
    | some (b, _) ↦ do
      assert (b.period == get_pbft_period s)
      vote_now w soft_vote b.block_hash (some b) (with_checks p s)
  ]

unfoldable pub identify_block : World → PbftManager → Outcome PbftManager
unfolding soft_vote_leader vote_for_found
identify_block w s =
    if starts_anew s
    then (do (s', _) ← soft_vote_leader w s; done s')
    else elim (voted_in (round_before s) next_voted_block s) [
      | none ↦ done s
      | some block_hash ↦ do (s', _) ← vote_for_found w soft_vote block_hash s; done s'
    ]

abbrev pub elapsed : World → ℕ → ℕ
elapsed w start = w.now - start

abbrev pub deadline : World → PbftManager → ℕ
deadline w s = get_pbft_deadline w.config (get_pbft_period s) s.machine.round s.lambdas

-- `cert_voted_block_for_round_` with its copy in the database.
abbrev pub note_cert_voted : PbftBlock → PbftManager → PbftManager
note_cert_voted b s = record s {
  machine = record s.machine { cert_voted_block_for_round = some b };
  db = record s.db { cert_voted_block_in_round = some (s.machine.round, b) };
}

-- The cert vote for the block with 2t+1 soft votes.
unfoldable pub cert_vote_block : World → ℕ → PbftManager → Outcome PbftManager
unfolding find_proposed vote_now
cert_vote_block w block_hash s = do
  (s', block) ← find_proposed w block_hash s
  elim block [
    | none ↦ done s'
    | some b ↦ do
      (s'', placed) ← vote_now w cert_vote b.block_hash (some b) s'
      done (if placed then note_cert_voted b s'' else s'')
  ]

-- The report of an expired step asks for 2t+1, which the vote manager caches, and needs a value.
unfoldable pub report_expired : World → PbftManager → Outcome PbftManager
report_expired w s =
    let (m, two_t_plus_one) =
      get_pbft_two_t_plus_one (chain_of w s) (period_before (get_pbft_period s)) soft_vote
        s.vote_mgr in
    do _ ← deref two_t_plus_one; done (record s { vote_mgr = m })

-- The differences of times are signed: a deadline below the polling interval is over at once.
unfoldable pub certify_block : World → PbftManager → Outcome PbftManager
unfolding cert_vote_block report_expired
certify_block w s =
    let time = elapsed w s.machine.current_round_start in
    let over = ltb (deadline w s) (time + k_polling_interval_ms) in
    let checked : PbftManager = record s {
      machine = record s.machine { go_finish_state = over };
    } in
    if over
    then report_expired w checked
    else if ltb time (2 * s.lambdas.current_round_lambda)
        || not (is_none s.machine.cert_voted_block_for_round)
    then done checked
    else elim (voted_in s.machine.round soft_voted_block s) [
      | none ↦ done checked
      | some block_hash ↦ cert_vote_block w block_hash checked
    ]

-- setPbftStep.
unfoldable pub set_pbft_step : World → ℕ → PbftManager → PbftManager
set_pbft_step w pbft_step s =
    let network_step =
      get_network_t_plus_one_next_voting_step (get_pbft_period s) s.machine.round s.vote_mgr in
    record s {
      db = record s.db { step = pbft_step };
      machine = record s.machine { step = pbft_step };
      lambdas = step_lambda w.config pbft_step network_step s.lambdas;
    }
