-- ===== src/PbftBlock.antt =====
-- libraries/types/pbft_block: the fields of a PBFT block that the components read, and the one
-- field of its extra data that they do.
use rustaxa.Common.{ℕ, List, Option}

pub record PbftBlockExtraData : Type 0 where
  pub pillar_block_hash : Option ℕ

pub record PbftBlock : Type 0 where
  pub block_hash : ℕ
  pub prev_block_hash : ℕ
  pub pivot_dag_block_hash : ℕ
  pub order_hash : ℕ
  pub final_chain_hash : ℕ
  pub period : ℕ
  pub reward_votes : List ℕ
  pub extra_data : Option PbftBlockExtraData
