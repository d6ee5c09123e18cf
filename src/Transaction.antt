-- ===== src/Transaction.antt =====
-- libraries/types/transaction: the fields of a transaction that the components read.
use rustaxa.Common.{ℕ}

pub record Transaction : Type 0 where
  pub hash : ℕ
  pub sender : ℕ
  pub nonce : ℕ
  pub gas_price : ℕ
