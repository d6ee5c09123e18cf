-- ===== src/PbftManager/Advance.antt =====
-- PbftManager: resetPbftConsensus, advancePeriod and advanceRound. The wait for the final chain in
-- resetPbftConsensus is taken to be over.
use rustaxa.Common.{
  ℕ, ◌+◌, ◌%◌, Bool, true, false, ◌||◌, none, some, List, [], ◌∷◌, ltb, leb, ◌==◌, if◌then◌else◌,
  u64,
}
use rustaxa.Common.Outcome.{Outcome, done, assert, ◌>>=◌, ◌>>◌}
use rustaxa.VerifiedVotes.{cleanup_votes_by_period}
use rustaxa.VoteManager.Own.{set_current_pbft_period_and_round}
use rustaxa.VoteManager.Rounds.{determine_new_round}
use rustaxa.ProposedBlocks.{is_none, cleanup_proposed_pbft_blocks_by_period}
use rustaxa.PbftManager.{
  World, PbftManager, Machine, PbftDb, EligibleWallets, value_proposal_state, get_pbft_period,
}
use rustaxa.PbftManager.Lambda.{start_round_lambda}

-- The place at the start of a round.
abbrev pub start_round : World → ℕ → Machine → Machine
start_round w round m = record m {
  state = value_proposal_state;
  round = round;
  step = 1;
  cert_voted_block_for_round = none;
  current_round_start = w.now;
  executed_pbft_block = false;
  already_next_voted_value = false;
  already_next_voted_null_block_hash = false;
}

-- The same in the database, which forgets a cert voted block if the manager has one.
abbrev pub start_round_db : ℕ → Machine → PbftDb → PbftDb
start_round_db round m db = record db {
  round = round;
  step = 1;
  next_voted_soft_value = false;
  next_voted_null_block_hash = false;
  executed_block = if m.executed_pbft_block then false else db.executed_block;
  cert_voted_block_in_round =
      if is_none m.cert_voted_block_for_round then db.cert_voted_block_in_round else none;
}

unfoldable pub reset_pbft_consensus : World → ℕ → PbftManager → Outcome PbftManager
reset_pbft_consensus w round s =
    let period = get_pbft_period s in
    do
      m ← set_current_pbft_period_and_round period round s.vote_mgr
      done (record s {
        machine = start_round w round s.machine;
        db = start_round_db round s.machine s.db;
        lambdas = start_round_lambda w.config period round s.lambdas;
        own_verified_votes = [];
        vote_mgr = m;
      })

unfoldable pub update_eligibility : World → ℕ → List (Bool × ℕ) → List (Bool × ℕ)
update_eligibility w period [] = []
update_eligibility w period ((_, wallet) ∷ rest) =
    (w.dpos_is_eligible period wallet, wallet) ∷ update_eligibility w period rest

unfoldable pub update_wallets_eligibility : World → ℕ → EligibleWallets → Outcome EligibleWallets
unfolding update_eligibility
update_wallets_eligibility w period e = do
  assert (ltb e.period period || period == 0)
  assert (leb period ((w.last_block_number + w.delegation_delay) % u64))
  done (record { period = period; wallets = update_eligibility w period e.wallets })

unfoldable pub advance_period : World → PbftManager → Outcome PbftManager
unfolding reset_pbft_consensus update_wallets_eligibility
advance_period w s = do
  s' ← reset_pbft_consensus w 1 s
  let chain_size = s'.pbft_chain.size
  wallets ← update_wallets_eligibility w chain_size s'.eligible_wallets
  done (record s' {
    eligible_wallets = wallets;
    vote_mgr = record s'.vote_mgr {
      verified_votes = cleanup_votes_by_period chain_size s'.vote_mgr.verified_votes;
    };
    proposed_blocks =
        cleanup_proposed_pbft_blocks_by_period ((chain_size + 1) % u64) s'.proposed_blocks;
  })

unfoldable pub advance_round : World → PbftManager → Outcome (PbftManager × Bool)
unfolding reset_pbft_consensus
advance_round w s = elim (determine_new_round (get_pbft_period s) s.machine.round s.vote_mgr) [
  | none ↦ done (s, false)
  | some new_round ↦ do
    assert (ltb s.machine.round new_round)
    s' ← reset_pbft_consensus w new_round s
    done (s', true)
]
