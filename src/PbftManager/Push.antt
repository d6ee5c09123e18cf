-- ===== src/PbftManager/Push.antt =====
-- PbftManager: pushPbftBlock_ and its callers for cert voted blocks, tryPushCertVotesBlock and
-- pushCertVotedPbftBlockIntoChain_. Of what pushPbftBlock_ does in other components, the final chain,
-- the DAG, the transactions and the sortition parameters are not modelled.
use rustaxa.Common.{
  ℕ, ◌+◌, ◌-◌, ◌%◌, Bool, true, false, not, ◌&&◌, ◌||◌, Option, none, some, List, [], ◌∷◌, leb,
  ◌==◌, if◌then◌else◌, u64,
}
use rustaxa.Common.Outcome.{Outcome, done, fault, deref, assert, ◌>>=◌, ◌>>◌}
use rustaxa.Common.Map.{put, contains}
use rustaxa.Vote.{PbftVote, null_block_hash}
use rustaxa.PbftBlock.{PbftBlock}
use rustaxa.VerifiedVotes.{cert_voted_block, get_two_t_plus_one_voted_block_votes}
use rustaxa.VoteManager.{VoteManager}
use rustaxa.VoteManager.Rewards.{reset_reward_votes, check_reward_votes}
use rustaxa.ProposedBlocks.{is_none}
use rustaxa.PbftChain.{update_pbft_chain}
use rustaxa.PbftManager.{
  FicusHardforkConfig, World, PbftManager, get_pbft_period, is_on_cacti_hardfork,
}
use rustaxa.PbftManager.Lambda.{adjust_dynamic_lambda}
use rustaxa.PbftManager.Validate.{is_pbft_with_pillar_block_period, first_pillar_block_period}
use rustaxa.PbftManager.Voting.{get_wallets, note_pillar_vote}
use rustaxa.PbftManager.Steps.{find_proposed}
use rustaxa.PbftManager.Advance.{advance_period}

abbrev pub is_cert_voted : ℕ → Option PbftBlock → Bool
is_cert_voted block_hash none = false
is_cert_voted block_hash (some b) = b.block_hash == block_hash

-- Whether the pillar block of the block, if it is to have one, can be finalized.
unfoldable pub finalize_pillar : World → PbftBlock → Outcome Bool
finalize_pillar w b =
    if is_pbft_with_pillar_block_period b.period w.config.ficus_hf
    then (do
      extra ← deref b.extra_data
      pillar_hash ← deref extra.pillar_block_hash
      done (w.finalize_pillar_block pillar_hash))
    else done true

-- After the cacti hardfork, with the copy in the database.
unfoldable pub adjust_lambdas : World → ℕ → ℕ → PbftManager → PbftManager
adjust_lambdas w period round s =
    if is_on_cacti_hardfork period w.config
    then (let l = adjust_dynamic_lambda w.config.cacti_hf period round s.lambdas in
        record s {
          lambdas = l;
          db = record s.db {
            rounds_count_dynamic_lambda = l.rounds_count_dynamic_lambda;
            lambda = l.dynamic_lambda;
          };
        })
    else s

unfoldable pub is_pillar_block_period : ℕ → FicusHardforkConfig → Bool
is_pillar_block_period period f =
    leb f.block_num period
    && (leb (first_pillar_block_period f) period && period % f.pillar_blocks_interval == 0)

unfoldable pub place_pillar_votes : World → ℕ → ℕ → List (Bool × ℕ) → PbftManager → PbftManager
place_pillar_votes w period hash [] s = s
place_pillar_votes w period hash ((false, _) ∷ rest) s = place_pillar_votes w period hash rest s
place_pillar_votes w period hash ((true, wallet) ∷ rest) s =
    place_pillar_votes w period hash rest (note_pillar_vote w period (some hash) wallet s)

-- `create_pillar_block` gives the hash of the pillar block, if it can be made.
unfoldable pub process_pillar_block : World → ℕ → PbftManager → Outcome PbftManager
unfolding place_pillar_votes
process_pillar_block w chain_size s =
    let request_period = (chain_size + u64 - w.delegation_delay) % u64 in
    do
      assert (leb request_period w.last_block_number)
      elim (w.create_pillar_block chain_size request_period) [
        | none ↦ done s
        | some hash ↦ do
          wallets ← get_wallets ((chain_size + 1) % u64) s.eligible_wallets
          done (place_pillar_votes w ((chain_size + 1) % u64) hash wallets s)
      ]

-- The block in the chain, before the period advances.
abbrev pub store_block : World → PbftBlock → VoteManager → PbftManager → PbftManager
store_block w b m s = record s {
  vote_mgr = m;
  pbft_blocks = put b.block_hash b s.pbft_blocks;
  pbft_chain = update_pbft_chain b.block_hash b.pivot_dag_block_hash s.pbft_chain;
  anchor_dag_block_order_cache = [];
}

abbrev pub mark_executed : PbftManager → PbftManager
mark_executed s = record s {
  machine = record s.machine { executed_pbft_block = true };
  db = record s.db { executed_block = true };
}

-- The pillar block of the new period, if it is to have one.
unfoldable pub create_pillar : World → PbftBlock → PbftManager → Outcome (PbftManager × Bool)
unfolding process_pillar_block
create_pillar w b s =
    if is_pillar_block_period b.period w.config.ficus_hf
    then (do
      assert (b.period == s.pbft_chain.size)
      s' ← process_pillar_block w b.period s
      done (s', true))
    else done (s, true)

unfoldable pub push_pbft_block :
    World → PbftBlock → List PbftVote → PbftManager → Outcome (PbftManager × Bool)
unfolding finalize_pillar adjust_lambdas create_pillar
push_pbft_block w b cert_votes s =
    if contains b.block_hash s.pbft_blocks
    then (do
      assert (not (is_cert_voted b.block_hash s.machine.cert_voted_block_for_round))
      done (s, false))
    else elim cert_votes [
      | [] ↦ fault
      | v ∷ _ ↦ do
        assert (b.block_hash == v.block_hash)
        pillar ← finalize_pillar w b
        if not pillar then done (s, false) else do
          m ← reset_reward_votes v.period v.round v.step v.block_hash s.vote_mgr
          let pushed = mark_executed (adjust_lambdas w b.period v.round (store_block w b m s))
          s' ← advance_period w pushed
          create_pillar w b s'
    ]

-- The DAG blocks of the anchor must be in the cache, and the reward votes be there.
unfoldable pub push_cert_voted_pbft_block_into_chain :
    World → PbftBlock → List PbftVote → PbftManager → Outcome (PbftManager × Bool)
push_cert_voted_pbft_block_into_chain w b cert_votes s = do
  assert (
      b.pivot_dag_block_hash == null_block_hash
      || contains b.pivot_dag_block_hash s.anchor_dag_block_order_cache)
  rewards ← check_reward_votes b true s.vote_mgr
  if is_none rewards then done (s, false) else push_pbft_block w b cert_votes s

unfoldable pub try_push_cert_votes_block : World → PbftManager → Outcome (PbftManager × Bool)
unfolding push_cert_voted_pbft_block_into_chain
try_push_cert_votes_block w s = do
  votes ←
      get_two_t_plus_one_voted_block_votes (get_pbft_period s) s.machine.round cert_voted_block
        s.vote_mgr.verified_votes
  elim votes [
    | [] ↦ done (s, false)
    | v ∷ rest ↦ do
      (s', block) ← find_proposed w v.block_hash s
      elim block [
        | none ↦ done (s', false)
        | some b ↦ push_cert_voted_pbft_block_into_chain w b (v ∷ rest) s'
      ]
  ]
