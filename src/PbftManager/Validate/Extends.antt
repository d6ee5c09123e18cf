-- ===== src/PbftManager/Validate/Extends.antt =====
-- PbftManager: what validatePbftBlock establishes of a block that passes.
use rustaxa.Common.Lists.{is_nil}
use rustaxa.Common.{
  ◌+◌, ◌%◌, ◌≡◌, ◌⊎◌, inl, inr, true, false, some, List, arith, ◌==◌, ==_iff, Bool-cases,
  Option-cases, u64,
}
use rustaxa.Common.Outcome.{done, Outcome-cases}
use rustaxa.Common.Map.{Map, lookup, put, lookup-put_self}
use rustaxa.Vote.{null_block_hash}
use rustaxa.PbftBlock.{PbftBlock}
use rustaxa.DagBlock.{DagBlock}
use rustaxa.PbftChain.{PbftChain, check_pbft_block_validation, get_pbft_block_in_chain}
use rustaxa.VoteManager.{VoteManager}
use rustaxa.VoteManager.Rewards.{check_reward_votes}
use rustaxa.PbftManager.{World, PillarBlock}
use rustaxa.PbftManager.Validate.{
  Cache, is_valid, validate_final_chain_hash, validate_pbft_block_extra_data,
  validate_pillar_block_hash, is_pbft_with_pillar_block_period, pillar_hash_of, validate_anchor,
  validate_ghost, load_dag_blocks, validate_pbft_block,
}

-- The DAG blocks of an anchor: those of its order in the period, which has the hash that the block
-- gives, and, off the ghost path, within the gas limit.
pub record HasOrder (w : World) (b : PbftBlock) (cache : Cache) : Type 0 where
  pub ordered : w.order_hash (w.dag_block_order b.pivot_dag_block_hash b.period) ≡ b.order_hash
  pub filled : is_nil (w.dag_block_order b.pivot_dag_block_hash b.period) ≡ false
  pub there : (ds : List DagBlock) × (lookup b.pivot_dag_block_hash cache ≡ some ds)

-- What a block that passes has: it follows the chain, agrees with the final chain and the pillar chain
-- and has its reward votes. Its DAG blocks are those of its order, unless the anchor is null or was
-- in the cache before.
pub record Follows (w : World) (c : PbftChain) (m : VoteManager) (b : PbftBlock)
    (before after : Cache) : Type 0 where
  pub next_period : b.period ≡ (c.size + 1) % u64
  pub linked : b.prev_block_hash ≡ c.last_pbft_block_hash
  pub executed : w.final_chain_hash b.period ≡ some b.final_chain_hash
  pub extra : validate_pbft_block_extra_data w.config.ficus_hf b ≡ true
  pub pillar :
      is_pbft_with_pillar_block_period b.period w.config.ficus_hf ≡ true
      → (p : PillarBlock) × (w.current_pillar_block ≡ some p)
        × (pillar_hash_of b.extra_data ≡ some p.hash)
  pub anchor :
      (b.pivot_dag_block_hash ≡ null_block_hash)
      ⊎ ((ds : List DagBlock) × (lookup b.pivot_dag_block_hash before ≡ some ds))
      ⊎ HasOrder w b after

validate_pillar_block_hash-true :
    (w : World) (b : PbftBlock)
    → validate_pillar_block_hash w b ≡ done true
    → is_pbft_with_pillar_block_period b.period w.config.ficus_hf ≡ true
    → (p : PillarBlock) × (w.current_pillar_block ≡ some p)
      × (pillar_hash_of b.extra_data ≡ some p.hash)
unfolding validate_pillar_block_hash
validate_pillar_block_hash-true w b h at = elim (Option-cases w.current_pillar_block) [
  | inl e ↦ ground arith
  | inr (p, e) ↦ elim (Option-cases b.extra_data) [
    | inl f ↦ ground arith
    | inr (x, f) ↦ (p, e, ground arith)
  ]
]

-- Only a block off the ghost path can fall out of the cache again.
validate_ghost-true :
    (w : World) (c : PbftChain) (blocks : Map PbftBlock) (b : PbftBlock) (ds : List DagBlock)
    (cache : Cache) {after : Cache}
    → validate_ghost w c blocks b ds cache ≡ done (after, true)
    → after ≡ cache
unfolding validate_ghost get_pbft_block_in_chain
validate_ghost-true w c blocks b ds cache h = ground arith

pub validate_anchor-true :
    (w : World) (c : PbftChain) (blocks : Map PbftBlock) (b : PbftBlock) (cache : Cache)
    {after : Cache}
    → validate_anchor w c blocks b cache ≡ done (after, true)
    → (b.pivot_dag_block_hash ≡ null_block_hash)
      ⊎ ((ds : List DagBlock) × (lookup b.pivot_dag_block_hash cache ≡ some ds))
      ⊎ HasOrder w b after
unfolding validate_anchor
validate_anchor-true w c blocks b cache {after} h =
    elim (Bool-cases (b.pivot_dag_block_hash == null_block_hash)) [
      | inl e ↦ inl ((==_iff b.pivot_dag_block_hash null_block_hash).0 e)
      | inr e ↦ elim (Option-cases (lookup b.pivot_dag_block_hash cache)) [
        | inr (ds, f) ↦ inr (inl (ds, f))
        | inl f ↦
            elim (Outcome-cases
              (load_dag_blocks w (w.dag_block_order b.pivot_dag_block_hash b.period))) [
                | inl g ↦ ground arith
                | inr (ds, g) ↦ inr (
                    inr (record {
                      ordered = ground arith;
                      filled = ground arith;
                      there = (
                        ds,
                        ground (
                          arith,
                          validate_ghost-true w c blocks b ds (put b.pivot_dag_block_hash ds cache)
                              {after = after},
                          lookup-put_self b.pivot_dag_block_hash ds cache,
                        ),
                      );
                    }))
              ]
      ]
    ]

pub validate_pbft_block-true :
    (w : World) (c : PbftChain) (blocks : Map PbftBlock) (m : VoteManager) (b : PbftBlock)
    (cache : Cache) {after : Cache}
    → validate_pbft_block w c blocks m b cache ≡ done (after, true)
    → (check_pbft_block_validation b c ≡ true)
      × (is_valid (validate_final_chain_hash w b) ≡ true)
      × (validate_pbft_block_extra_data w.config.ficus_hf b ≡ true)
      × (validate_pillar_block_hash w b ≡ done true)
      × (validate_anchor w c blocks b cache ≡ done (after, true))
unfolding validate_pbft_block
validate_pbft_block-true w c blocks m b cache {after} h =
    elim (Outcome-cases (check_reward_votes b false m)) [
      | inl e ↦ ground arith
      | inr (rewards, e) ↦ elim (Outcome-cases (validate_pillar_block_hash w b)) [
        | inl f ↦ ground arith
        | inr (false, f) ↦ ground arith
        | inr (true, f) ↦ ground arith
      ]
    ]

validate_final_chain_hash-valid :
    (w : World) (b : PbftBlock)
    → is_valid (validate_final_chain_hash w b) ≡ true
    → w.final_chain_hash b.period ≡ some b.final_chain_hash
unfolding validate_final_chain_hash
validate_final_chain_hash-valid w b h = ground arith

check_pbft_block_validation-true :
    (b : PbftBlock) (c : PbftChain)
    → check_pbft_block_validation b c ≡ true
    → (b.period ≡ (c.size + 1) % u64) × (b.prev_block_hash ≡ c.last_pbft_block_hash)
unfolding check_pbft_block_validation
check_pbft_block_validation-true b c h = ground arith

-- A block that validatePbftBlock passes is of the next period, names the last block of the chain and
-- the hash of the final chain, has the extra data of its period and the current pillar block in a
-- pillar period; and its anchor is null, was in the cache before, or has a DAG order with the order
-- hash of the block and is in the cache after.
pub validate_pbft_block-Follows :
    (w : World) (c : PbftChain) (blocks : Map PbftBlock) (m : VoteManager) (b : PbftBlock)
    (cache : Cache) {after : Cache}
    → validate_pbft_block w c blocks m b cache ≡ done (after, true)
    → Follows w c m b cache after
validate_pbft_block-Follows w c blocks m b cache {after} h =
    let (chain, final, extra, pillar, anchor) = validate_pbft_block-true w c blocks m b cache h in
    let (next_period, linked) = check_pbft_block_validation-true b c chain in
    record {
      next_period = next_period;
      linked = linked;
      executed = validate_final_chain_hash-valid w b final;
      extra = extra;
      pillar = validate_pillar_block_hash-true w b pillar;
      anchor = validate_anchor-true w c blocks b cache anchor;
    }
