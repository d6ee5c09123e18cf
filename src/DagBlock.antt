-- ===== src/DagBlock.antt =====
-- libraries/types/dag_block: the fields of a DAG block that the components read.
use rustaxa.Common.{ℕ, List}

pub record DagBlock : Type 0 where
  pub hash : ℕ
  pub sender : ℕ
  pub difficulty : ℕ
  pub gas_estimation : ℕ
  pub trxs : List ℕ
