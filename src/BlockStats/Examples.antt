-- ===== src/BlockStats/Examples.antt =====
-- Tests of BlockStats, and its theorem at a concrete block.
use rustaxa.Common.{ℕ, ◌≡◌, refl, false, some, List, [], ◌∷◌}
use rustaxa.Common.Outcome.{done}
use rustaxa.Common.Map.{Map, lookup, contains, put, erase, emplace}
use rustaxa.VerifiedVotes.Samples.{vote_a}
use rustaxa.Transaction.{Transaction}
use rustaxa.DagBlock.{DagBlock}
use rustaxa.BlockStats.Spent.{AllSpent}
use rustaxa.BlockStats.{
  BlockStats, init_fee_by_trx_hash, add_transaction, add_vote, count_dag_block,
  add_dag_transactions, process_dag_blocks, process_easiest, process_dag_blocks_aspen, add_votes,
  process_stats, new_block_stats,
}
use rustaxa.BlockStats.Sums.{sum}
use rustaxa.BlockStats.Balance.{IsBalanced, fee_of}
use rustaxa.BlockStats.Process.{new_block_stats-IsBalanced}

program : Unit {0}
unfolding lookup contains put erase emplace init_fee_by_trx_hash add_transaction add_vote
    count_dag_block add_dag_transactions process_dag_blocks process_easiest process_dag_blocks_aspen
    add_votes process_stats new_block_stats
program = tt

abbrev two_transactions : List Transaction
two_transactions =
    record { hash = 1; sender = 3; nonce = 0; gas_price = 2 }
    ∷ record { hash = 2; sender = 3; nonce = 1; gas_price = 3 }
    ∷ []

-- The second block has a transaction of the first again.
abbrev two_blocks : List DagBlock
two_blocks =
    record { hash = 71; sender = 7; difficulty = 5; gas_estimation = 1; trxs = 1 ∷ [] }
    ∷ record { hash = 81; sender = 8; difficulty = 6; gas_estimation = 1; trxs = 1 ∷ [] }
    ∷ []

abbrev two_fees : Map ℕ
two_fees = (1, 20) ∷ (2, 60) ∷ []

-- Validator 1 has a vote, and validator 7 a DAG block with the fee of its transaction.
abbrev two_stats : BlockStats
two_stats = record {
  fee_by_trx_hash = (2, 60) ∷ [];
  validators_stats =
      (1, record { dag_blocks_count = 0; vote_weight = 10; fees_rewards = 0 })
      ∷ (7, record { dag_blocks_count = 1; vote_weight = 0; fees_rewards = 20 })
      ∷ [];
  total_dag_blocks_count = 1;
  total_votes_weight = 10;
  max_votes_weight = 21;
}

fees_there : init_fee_by_trx_hash two_transactions (some (10 ∷ 20 ∷ [])) [] ≡ done two_fees
unfolding program
fees_there = refl

stats_there :
    new_block_stats two_transactions two_blocks (vote_a ∷ []) (some (10 ∷ 20 ∷ [])) 21 1000 false
    ≡ done two_stats
unfolding program
stats_there = refl

new_block_stats-IsBalanced_example :
    IsBalanced (sum fee_of two_fees) two_stats × AllSpent two_stats two_blocks
new_block_stats-IsBalanced_example =
    new_block_stats-IsBalanced two_transactions two_blocks (vote_a ∷ []) (some (10 ∷ 20 ∷ [])) 21
      1000 false fees_there stats_there
