-- ===== src/PbftManager/Validate.antt =====
-- PbftManager: validatePbftBlock and the checks it makes, getValidPbftProposedBlock among the blocks
-- that were proposed.
pub mod Extends
pub mod Cached
use rustaxa.Common.Lists.{is_nil}
use rustaxa.Common.{
  ℕ, zero, suc, ◌+◌, ◌-◌, ◌*◌, ◌/◌, ◌%◌, ◌^◌, ◌≤◌, ◌<◌, max, min, ◌≡◌, refl, sym, ap, subst, ◌∙◌,
  ◌≢◌, ◌↔◌, ◌⊎◌, inl, inr, Bool, true, false, not, ◌&&◌, ◌||◌, Option, none, some, List, [], ◌∷◌,
  ◌++◌, map, arith, ltb, leb, ◌==◌, if◌then◌else◌, ltb→lt, ==_iff, Bool-cases, Option-cases, u64,
  u32, length, All, length-append, total,
}
use rustaxa.Common.Outcome.{Outcome, done, fault, deref, assert, ◌>>=◌, ◌>>◌}
use rustaxa.Common.Map.{Map, lookup, put, erase}
use rustaxa.Vote.{null_block_hash}
use rustaxa.PbftBlock.{PbftBlock, PbftBlockExtraData}
use rustaxa.DagBlock.{DagBlock}
use rustaxa.ProposedBlocks.{ProposedBlocks, get_pbft_proposed_block, mark_block_as_valid, is_none}
use rustaxa.PbftChain.{PbftChain, check_pbft_block_validation, get_pbft_block_in_chain}
use rustaxa.VoteManager.{VoteManager}
use rustaxa.VoteManager.Rewards.{check_reward_votes}
use rustaxa.PbftManager.{FicusHardforkConfig, World, PbftManager, PillarBlock}

pub data PbftStateRootValidation : Type 0 where
  valid missing invalid : PbftStateRootValidation

unfoldable pub is_ficus_hardfork : ℕ → FicusHardforkConfig → Bool
is_ficus_hardfork period f = leb f.block_num period

unfoldable pub first_pillar_block_period : FicusHardforkConfig → ℕ
first_pillar_block_period f = if f.block_num == 0 then f.pillar_blocks_interval else f.block_num

-- The configuration has an interval above 0.
unfoldable pub is_pbft_with_pillar_block_period : ℕ → FicusHardforkConfig → Bool
is_pbft_with_pillar_block_period period f =
    leb (first_pillar_block_period f) period && period % f.pillar_blocks_interval == 1

unfoldable pub validate_final_chain_hash : World → PbftBlock → PbftStateRootValidation
validate_final_chain_hash w b = elim (w.final_chain_hash b.period) [
  | none ↦ missing
  | some expected ↦ if b.final_chain_hash == expected then valid else invalid
]

abbrev pub pillar_hash_of : Option PbftBlockExtraData → Option ℕ
pillar_hash_of none = none
pillar_hash_of (some x) = x.pillar_block_hash

unfoldable pub validate_pbft_block_extra_data : FicusHardforkConfig → PbftBlock → Bool
validate_pbft_block_extra_data f b =
    if is_ficus_hardfork b.period f
    then not (is_none b.extra_data)
      && (if is_pbft_with_pillar_block_period b.period f
          then not (is_none (pillar_hash_of b.extra_data))
          else is_none (pillar_hash_of b.extra_data))
    else is_none b.extra_data

-- The second argument says whether the period data has pillar votes.
unfoldable pub validate_pillar_data_in_period_data : FicusHardforkConfig → Bool → PbftBlock → Bool
validate_pillar_data_in_period_data f pillar_votes b =
    validate_pbft_block_extra_data f b
    && (if is_pbft_with_pillar_block_period b.period f then pillar_votes else not pillar_votes)

abbrev pub gas_of : List DagBlock → ℕ
gas_of [] = 0
gas_of (d ∷ ds) = d.gas_estimation + gas_of ds

-- The sum is on 256 bits.
unfoldable pub check_block_weight : World → List DagBlock → ℕ → Bool
check_block_weight w dag_blocks period =
    not (ltb (w.pbft_gas_limit period) (gas_of dag_blocks % 2 ^ 256))

unfoldable pub load_dag_blocks : World → List ℕ → Outcome (List DagBlock)
load_dag_blocks w [] = done []
load_dag_blocks w (h ∷ hs) = do d ← deref (w.dag_block h); ds ← load_dag_blocks w hs; done (d ∷ ds)

unfoldable pub validate_pillar_block_hash : World → PbftBlock → Outcome Bool
validate_pillar_block_hash w b =
    if is_pbft_with_pillar_block_period b.period w.config.ficus_hf
    then elim w.current_pillar_block [
      | none ↦ done false
      | some pillar ↦ do
        extra ← deref b.extra_data
        pillar_hash ← deref extra.pillar_block_hash
        done (pillar_hash == pillar.hash)
    ]
    else done true

-- Whether a second block of the ghost path is another one than the anchor.
abbrev pub off_ghost : ℕ → List ℕ → Bool
off_ghost anchor (_ ∷ second ∷ _) = not (anchor == second)
off_ghost anchor _ = false

abbrev pub Cache : Type 0
Cache = Map (List DagBlock)

unfoldable pub validate_ghost :
    World → PbftChain → Map PbftBlock → PbftBlock → List DagBlock → Cache → Outcome (Cache × Bool)
validate_ghost w c blocks b dag_blocks cache =
    if c.last_pbft_block_hash == null_block_hash then done (cache, true) else do
      prev ← get_pbft_block_in_chain c.last_pbft_block_hash blocks
      let off = off_ghost b.pivot_dag_block_hash (w.ghost_path prev.pivot_dag_block_hash)
      if off && not (check_block_weight w dag_blocks b.period)
          then done (erase b.pivot_dag_block_hash cache, false)
          else done (cache, true)

unfoldable pub validate_anchor :
    World → PbftChain → Map PbftBlock → PbftBlock → Cache → Outcome (Cache × Bool)
unfolding validate_ghost
validate_anchor w c blocks b cache =
    if b.pivot_dag_block_hash == null_block_hash
    then done (cache, true)
    else elim (lookup b.pivot_dag_block_hash cache) [
      | some _ ↦ done (cache, true)
      | none ↦
          let order = w.dag_block_order b.pivot_dag_block_hash b.period in
          if is_nil order || not (w.order_hash order == b.order_hash)
          then done (cache, false)
          else do
            dag_blocks ← load_dag_blocks w order
            validate_ghost w c blocks b dag_blocks (put b.pivot_dag_block_hash dag_blocks cache)
    ]

abbrev pub is_valid : PbftStateRootValidation → Bool
is_valid valid = true
is_valid _ = false

unfoldable pub validate_pbft_block :
    World → PbftChain → Map PbftBlock → VoteManager → PbftBlock → Cache → Outcome (Cache × Bool)
unfolding validate_anchor
validate_pbft_block w c blocks m b cache =
    if not (check_pbft_block_validation b c) || not (is_valid (validate_final_chain_hash w b))
    then done (cache, false)
    else do
      rewards ← check_reward_votes b false m
      if is_none rewards || not (validate_pbft_block_extra_data w.config.ficus_hf b)
          then done (cache, false)
          else do
            pillar ← validate_pillar_block_hash w b
            if pillar then validate_anchor w c blocks b cache else done (cache, false)

-- The proposed blocks and the cache of their DAG blocks, which a look at a block may change.
pub record BlockChecks : Type 0 where
  pub proposed : ProposedBlocks
  pub cache : Cache

unfoldable pub get_valid_pbft_proposed_block :
    World → PbftManager → ℕ → ℕ → BlockChecks → Outcome (BlockChecks × Option PbftBlock)
get_valid_pbft_proposed_block w s period block_hash p =
    elim (get_pbft_proposed_block period block_hash p.proposed) [
      | none ↦ done (p, none)
      | some (block, true) ↦ done (p, some block)
      | some (block, false) ↦ do
        (cache, passed) ← validate_pbft_block w s.pbft_chain s.pbft_blocks s.vote_mgr block p.cache
        if passed
            then (do
              proposed ← mark_block_as_valid block p.proposed
              done (record { proposed = proposed; cache = cache }, some block))
            else done (record p { cache = cache }, none)
    ]
