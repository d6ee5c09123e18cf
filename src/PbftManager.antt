-- ===== src/PbftManager.antt =====
-- libraries/core_libs/consensus: PbftManager, which takes a node through the rounds and steps of PBFT.
-- Its fields stand in records by what they are for. What it reads of the final chain, the DAG and
-- the clock is the record `World`, and what it writes to the database the record `PbftDb`.
pub mod Lambda
pub mod Validate
pub mod Leader
pub mod Voting
pub mod Propose
pub mod Steps
pub mod Finishing
pub mod Advance
pub mod Push
pub mod Turn
pub mod Start
mod Examples
use rustaxa.Common.{
  ℕ, zero, suc, ◌+◌, ◌-◌, ◌*◌, ◌/◌, ◌%◌, ◌^◌, ◌≤◌, ◌<◌, max, min, ◌≡◌, refl, sym, ap, subst, ◌∙◌,
  ◌≢◌, ◌↔◌, ◌⊎◌, inl, inr, Bool, true, false, not, ◌&&◌, ◌||◌, Option, none, some, List, [], ◌∷◌,
  ◌++◌, map, arith, ltb, leb, ◌==◌, if◌then◌else◌, ltb→lt, ==_iff, Bool-cases, Option-cases, u64,
  u32, length, All, length-append, total,
}
use rustaxa.Common.Map.{Map}
use rustaxa.Vote.{PbftVote}
use rustaxa.PbftBlock.{PbftBlock}
use rustaxa.DagBlock.{DagBlock}
use rustaxa.ProposedBlocks.{ProposedBlocks}
use rustaxa.PbftChain.{PbftChain}
use rustaxa.VoteManager.{VoteManager, PbftConfig}

pub data PbftStates : Type 0 where
  value_proposal_state filter_state certify_state finish_state finish_polling_state : PbftStates

pub record CactiHardforkConfig : Type 0 where
  pub block_num : ℕ
  pub lambda_min : ℕ
  pub lambda_max : ℕ
  pub lambda_default : ℕ
  pub lambda_change_interval : ℕ
  pub lambda_change : ℕ
  pub block_propagation_min : ℕ
  pub block_propagation_max : ℕ

pub record FicusHardforkConfig : Type 0 where
  pub block_num : ℕ
  pub pillar_blocks_interval : ℕ

pub record GenesisConfig : Type 0 where
  pub lambda_ms : ℕ
  pub dag_blocks_size : ℕ
  pub ghost_path_move_back : ℕ
  pub dag_genesis_block_hash : ℕ
  pub pbft : PbftConfig
  pub cacti_hf : CactiHardforkConfig
  pub ficus_hf : FicusHardforkConfig

-- The wallets of the node with their flags, and the period these are for.
pub record EligibleWallets : Type 0 where
  pub period : ℕ
  pub wallets : List (Bool × ℕ)

pub record Lambdas : Type 0 where
  pub rounds_count_dynamic_lambda : ℕ
  pub dynamic_lambda : ℕ
  pub current_round_lambda : ℕ

-- The place in a round, and what a node did in it. The two start times are milliseconds.
pub record Machine : Type 0 where
  pub state : PbftStates
  pub round : ℕ
  pub step : ℕ
  pub cert_voted_block_for_round : Option PbftBlock
  pub next_step_time_ms : ℕ
  pub current_round_start : ℕ
  pub second_finish_step_start : ℕ
  pub executed_pbft_block : Bool
  pub already_next_voted_value : Bool
  pub already_next_voted_null_block_hash : Bool
  pub go_finish_state : Bool
  pub loop_back_finish_state : Bool

-- The fields of the PBFT manager in the database, and the cert voted block with its round.
pub record PbftDb : Type 0 where
  pub round : ℕ
  pub step : ℕ
  pub rounds_count_dynamic_lambda : ℕ
  pub lambda : ℕ
  pub executed_block : Bool
  pub next_voted_soft_value : Bool
  pub next_voted_null_block_hash : Bool
  pub cert_voted_block_in_round : Option (ℕ × PbftBlock)

-- `own_verified_votes` is the vector of that name in the vote manager.
pub record PbftManager : Type 0 where
  pub lambdas : Lambdas
  pub machine : Machine
  pub db : PbftDb
  pub last_placed_pillar_vote_period : ℕ
  pub eligible_wallets : EligibleWallets
  pub anchor_dag_block_order_cache : Map (List DagBlock)
  pub proposed_blocks : ProposedBlocks
  pub pbft_chain : PbftChain
  pub pbft_blocks : Map PbftBlock
  pub vote_mgr : VoteManager
  pub own_verified_votes : List PbftVote

-- Period and hash of a pillar block.
pub record PillarBlock : Type 0 where
  pub period : ℕ
  pub hash : ℕ

-- What the calls ask of other components. `vote_hash` and `vote_weight` stand for the signature, the
-- VRF and the sortition of a vote: the hash by block, period, round, step and wallet, the weight by
-- the hash, the stake of the voter, the stake of all and the threshold. `block_hash`
-- stands for the signature of a wallet under a block.
pub record World : Type 0 where
  pub config : GenesisConfig
  pub now : ℕ
  pub last_block_number : ℕ
  pub delegation_delay : ℕ
  pub dpos_total_votes_count : ℕ → Option ℕ
  pub dpos_vote_count : ℕ → ℕ → Option ℕ
  pub dpos_is_eligible : ℕ → ℕ → Bool
  pub final_chain_hash : ℕ → Option ℕ
  pub current_pillar_block : Option PillarBlock
  pub vote_hash : ℕ → ℕ → ℕ → ℕ → ℕ → ℕ
  pub vote_weight : ℕ → ℕ → ℕ → ℕ → ℕ
  pub gen_and_place_pillar_vote : ℕ → ℕ → ℕ → Option ℕ
  pub finalize_pillar_block : ℕ → Bool
  pub create_pillar_block : ℕ → ℕ → Option ℕ
  pub voter_index_hash : PbftVote → ℕ → ℕ
  pub valid_vrf_sortition : ℕ → ℕ → ℕ → Bool
  pub block_hash : PbftBlock → ℕ → ℕ
  pub non_finalized_dag_blocks : List (ℕ × List ℕ)
  pub dag_block_order : ℕ → ℕ → List ℕ
  pub dag_block : ℕ → Option DagBlock
  pub order_hash : List ℕ → ℕ
  pub ghost_path : ℕ → List ℕ
  pub pbft_gas_limit : ℕ → ℕ

unfoldable pub is_on_cacti_hardfork : ℕ → GenesisConfig → Bool
is_on_cacti_hardfork period g = leb g.cacti_hf.block_num period

-- The configuration has an interval above 0.
unfoldable pub is_dynamic_lambda_change_interval : ℕ → CactiHardforkConfig → Bool
is_dynamic_lambda_change_interval n c =
    ltb c.block_num n && n % c.lambda_change_interval == 0 || c.lambda_change_interval == 1

unfoldable pub get_pbft_period : PbftManager → ℕ
get_pbft_period s = (s.pbft_chain.size + 1) % u64
