-- ===== src/PbftManager/Validate/Cached.antt =====
-- PbftManager: validatePbftBlock of a block whose anchor another block brought into the cache.
use rustaxa.Common.{none, ℕ, ◌≢◌, ◌∙◌, ◌≡◌, refl, inl, inr, true, false, arith}
use rustaxa.Common.Outcome.{done, Outcome-cases}
use rustaxa.Common.Map.{Map, lookup}
use rustaxa.Vote.{null_block_hash}
use rustaxa.PbftBlock.{PbftBlock}
use rustaxa.PbftChain.{PbftChain, check_pbft_block_validation}
use rustaxa.VoteManager.{VoteManager}
use rustaxa.VoteManager.Rewards.{check_reward_votes}
use rustaxa.PbftManager.{World}
use rustaxa.PbftManager.Validate.{
  Cache, validate_final_chain_hash, validate_pbft_block_extra_data, validate_pillar_block_hash,
  validate_anchor, validate_pbft_block,
}
use rustaxa.PbftManager.Validate.Extends.{validate_anchor-true, validate_pbft_block-true}

-- A block that differs from another one in its hash and order hash alone.
abbrev pub reordered : ℕ → ℕ → PbftBlock → PbftBlock
reordered block_hash order_hash b = record b { block_hash = block_hash; order_hash = order_hash }

-- The checks before that of the anchor do not read the block's own hash and order hash.
reordered_checks :
    (w : World) (c : PbftChain) (m : VoteManager) (b : PbftBlock) (h o : ℕ)
    → (check_pbft_block_validation (reordered h o b) c ≡ check_pbft_block_validation b c)
      × (validate_final_chain_hash w (reordered h o b) ≡ validate_final_chain_hash w b)
      × (check_reward_votes (reordered h o b) false m ≡ check_reward_votes b false m)
      × (validate_pbft_block_extra_data w.config.ficus_hf (reordered h o b)
          ≡ validate_pbft_block_extra_data w.config.ficus_hf b)
      × (validate_pillar_block_hash w (reordered h o b) ≡ validate_pillar_block_hash w b)
unfolding check_reward_votes check_pbft_block_validation validate_final_chain_hash
    validate_pbft_block_extra_data validate_pillar_block_hash
reordered_checks w c m b h o = (refl, refl, refl, refl, refl)

-- So only the anchor is left to check of it, with any cache.
validate_pbft_block-reordered :
    (w : World) (c : PbftChain) (blocks : Map PbftBlock) (m : VoteManager) (b : PbftBlock) (h o : ℕ)
    (cache later : Cache) {after : Cache}
    → validate_pbft_block w c blocks m b cache ≡ done (after, true)
    → validate_pbft_block w c blocks m (reordered h o b) later
      ≡ validate_anchor w c blocks (reordered h o b) later
unfolding validate_pbft_block
validate_pbft_block-reordered w c blocks m b h o cache later {after} passed =
    elim (Outcome-cases (check_reward_votes b false m)) [
      | inl e ↦ absurd (ground arith)
      | inr (rewards, e) ↦ ground (
        arith,
        reordered_checks w c m b h o,
        validate_pbft_block-true w c blocks m b cache {after = after} passed,
      )
    ]

-- Two blocks that differ in their hash and order hash alone, with an anchor that is not null and not
-- in the cache: if validatePbftBlock passes the first one, it passes the second one after it, and
-- refuses the second one if it comes first.
pub validate_pbft_block_passes_after :
    (w : World) (c : PbftChain) (blocks : Map PbftBlock) (m : VoteManager) (b : PbftBlock)
    (block_hash order_hash : ℕ) (cache : Cache) {after : Cache}
    → validate_pbft_block w c blocks m b cache ≡ done (after, true)
    → b.pivot_dag_block_hash ≢ null_block_hash
    → lookup b.pivot_dag_block_hash cache ≡ none
    → order_hash ≢ b.order_hash
    → (validate_pbft_block w c blocks m (reordered block_hash order_hash b) after
        ≡ done (after, true))
      × (validate_pbft_block w c blocks m (reordered block_hash order_hash b) cache
          ≡ done (cache, false))
unfolding validate_anchor
validate_pbft_block_passes_after w c blocks m b block_hash order_hash cache {after} h anchor absent
      other =
    let (_, _, _, _, checked) = validate_pbft_block-true w c blocks m b cache h in
    elim (validate_anchor-true w c blocks b cache {after = after} checked) [
      | inl e ↦ absurd (anchor e)
      | inr (inl (ds, e)) ↦ absurd (ground arith)
      | inr (inr order) ↦
          let (ds, there) = order.there in
          let ordered = order.ordered in
          (
            validate_pbft_block-reordered w c blocks m b block_hash order_hash cache after h
                ∙ ground arith,
            validate_pbft_block-reordered w c blocks m b block_hash order_hash cache cache h
                ∙ ground arith,
          )
    ]
