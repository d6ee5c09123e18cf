-- ===== src/PbftManager/Voting.antt =====
-- PbftManager: genAndPlaceVote, with generateVoteWithWeight of the vote manager. What is sent to the
-- network is not modelled: the votes sent are those that are saved as own votes.
pub mod Placed
use rustaxa.Common.{
  ℕ, zero, suc, ◌+◌, ◌-◌, ◌*◌, ◌/◌, ◌%◌, ◌^◌, ◌≤◌, ◌<◌, max, min, ◌≡◌, refl, sym, ap, subst, ◌∙◌,
  ◌≢◌, ◌↔◌, ◌⊎◌, inl, inr, Bool, true, false, not, ◌&&◌, ◌||◌, Option, none, some, List, [], ◌∷◌,
  ◌++◌, map, arith, ltb, leb, ◌==◌, if◌then◌else◌, ltb→lt, ==_iff, Bool-cases, Option-cases, u64,
  u32, length, All, length-append, total,
}
use rustaxa.Common.Outcome.{Outcome, done, fault, deref, assert, ◌>>=◌, ◌>>◌}
use rustaxa.Common.Map.{Map, lookup, put}
use rustaxa.Vote.{
  PbftVote, PbftVoteTypes, propose_vote, soft_vote, cert_vote, next_vote, null_block_hash,
}
use rustaxa.PbftBlock.{PbftBlock}
use rustaxa.VerifiedVotes.{
  VotedBlock, TwoTPlusOneVotedBlockType, soft_voted_block, next_voted_block, next_voted_null_block,
  get_two_t_plus_one_voted_block,
}
use rustaxa.VoteManager.{VoteManager, Chain, add_verified_vote, get_pbft_sortition_threshold}
use rustaxa.VoteManager.Own.{get_proposal_votes}
use rustaxa.VoteManager.Rewards.{check_reward_votes}
use rustaxa.ProposedBlocks.{ProposedBlocks, is_none}
use rustaxa.PbftManager.{
  World, PbftManager, Machine, PbftDb, EligibleWallets, PillarBlock, get_pbft_period,
}
use rustaxa.PbftManager.Lambda.{get_pbft_deadline}
use rustaxa.PbftManager.Validate.{
  BlockChecks, get_valid_pbft_proposed_block, is_pbft_with_pillar_block_period,
}
use rustaxa.PbftManager.Leader.{identify_leader_block}

abbrev pub k_polling_interval_ms : ℕ
k_polling_interval_ms = 100

abbrev pub period_before : ℕ → ℕ
period_before period = (period + (u64 - 1)) % u64

-- A vote with its weight; none for a wallet with no delegation, a period ahead of the final chain and
-- a weight of 0.
unfoldable pub generate_vote_with_weight :
    World → ℕ → PbftVoteTypes → ℕ → ℕ → ℕ → ℕ → Option PbftVote
generate_vote_with_weight w block_hash type period round step wallet =
    elim (w.dpos_vote_count (period_before period) wallet) [
      | none ↦ none
      | some count ↦
          if count == 0 then none else elim (w.dpos_total_votes_count (period_before period)) [
            | none ↦ none
            | some total_count ↦
                let hash = w.vote_hash block_hash period round step wallet in
                let threshold = get_pbft_sortition_threshold w.config.pbft total_count type in
                let weight = w.vote_weight hash count total_count threshold in
                if weight == 0
                then none
                else some (record {
                  hash = hash;
                  voter = wallet;
                  block_hash = block_hash;
                  period = period;
                  round = round;
                  step = step;
                  weight = some weight;
                })
          ]
    ]

-- What the vote manager reads of the chain.
abbrev pub chain_of : World → PbftManager → Chain
chain_of w s = record {
  config = w.config.pbft;
  dpos_total_votes_count = w.dpos_total_votes_count;
  pbft_chain_size = s.pbft_chain.size;
}

unfoldable pub get_wallets : ℕ → EligibleWallets → Outcome (List (Bool × ℕ))
get_wallets current_pbft_period e = do
  assert (e.period == period_before current_pbft_period)
  done e.wallets

-- The pillar block to vote for, in a period with a pillar block for which there is no vote yet.
unfoldable pub place_pillar_vote_for_block :
    World → ℕ → Option PbftBlock → PbftManager → Outcome (Option ℕ)
place_pillar_vote_for_block w period pbft_block s =
    if is_pbft_with_pillar_block_period period w.config.ficus_hf
      && ltb s.last_placed_pillar_vote_period period
    then elim pbft_block [
      | some b ↦ do extra ← deref b.extra_data; done extra.pillar_block_hash
      | none ↦ elim w.current_pillar_block [
        | none ↦ done none
        | some pillar ↦
            done (if pillar.period == period_before period then some pillar.hash else none)
      ]
    ]
    else done none

-- `genAndPlacePillarVote` gives the period of the vote it placed.
unfoldable pub note_pillar_vote : World → ℕ → Option ℕ → ℕ → PbftManager → PbftManager
note_pillar_vote w period none wallet s = s
note_pillar_vote w period (some hash) wallet s =
    elim (w.gen_and_place_pillar_vote period hash wallet) [
      | none ↦ s
      | some placed ↦ record s { last_placed_pillar_vote_period = placed }
    ]

module _ (w : World) (type : PbftVoteTypes) (period round step block_hash : ℕ) where
  -- The vote of one wallet.
  unfoldable pub place_vote : Option ℕ → ℕ → PbftManager → Outcome (PbftManager × Bool)
  unfolding note_pillar_vote
  place_vote pillar wallet s =
      elim (generate_vote_with_weight w block_hash type period round step wallet) [
        | none ↦ done (s, false)
        | some vote ↦ do
          (m, added) ← add_verified_vote (chain_of w s) vote s.vote_mgr
          let kept : PbftManager = record s { vote_mgr = m }
          if added
              then done (
                note_pillar_vote w period pillar wallet
                    (record kept { own_verified_votes = s.own_verified_votes ++ vote ∷ [] }),
                true,
              )
              else done (kept, false)
      ]

  unfoldable pub place_votes :
      Option ℕ → List (Bool × ℕ) → Bool → PbftManager → Outcome (PbftManager × Bool)
  unfolding place_vote
  place_votes pillar [] success s = done (s, success)
  place_votes pillar ((false, _) ∷ wallets) success s = place_votes pillar wallets success s
  place_votes pillar ((true, wallet) ∷ wallets) success s = do
    (s', placed) ← place_vote pillar wallet s
    place_votes pillar wallets (placed || success) s'

  unfoldable pub gen_and_place_vote : Option PbftBlock → PbftManager → Outcome (PbftManager × Bool)
  unfolding place_votes
  gen_and_place_vote pbft_block s = do
    elim pbft_block [
      | none ↦ done tt
      | some b ↦ assert (b.period == period && b.block_hash == block_hash)
    ]
    pillar ← place_pillar_vote_for_block w period pbft_block s
    wallets ← get_wallets period s.eligible_wallets
    place_votes pillar wallets false s
