-- ===== src/PbftManager/Examples/Choice.antt =====
-- PbftManager: the choice and the checks of blocks at a concrete node.
use rustaxa.Common.Map.Sorted.{IsSorted}
use rustaxa.Common.{ℕ, ◌*◌, ◌≡◌, refl, true, false, none, some, List, [], ◌∷◌, map, arith, All}
use rustaxa.Common.Outcome.{Outcome, done, fault}
use rustaxa.Vote.{PbftVote}
use rustaxa.PbftBlock.{PbftBlock}
use rustaxa.DagBlock.{DagBlock}
use rustaxa.ProposedBlocks.{push_proposed_pbft_block}
use rustaxa.PbftManager.{World, PbftManager}
use rustaxa.PbftManager.Lambda.{adjust_dynamic_lambda}
use rustaxa.PbftManager.Lambda.Bounds.{IsLimited, IsWithin, adjust_dynamic_lambda_lem}
use rustaxa.PbftManager.Validate.{Cache, BlockChecks, validate_pbft_block}
use rustaxa.PbftManager.Validate.Extends.{Follows, validate_pbft_block-Follows}
use rustaxa.PbftManager.Validate.Cached.{validate_pbft_block_passes_after}
use rustaxa.PbftManager.Leader.{Leader, leader_candidates, identify_leader_block}
use rustaxa.PbftManager.Leader.Lowest.{IsProposed, Best, identify_leader_block-Best}
use rustaxa.PbftManager.Finishing.{second_finish}
use rustaxa.PbftManager.Steps.Finish.{IsFor, second_finish-Adds}
use rustaxa.PbftManager.Voting.Placed.{Adds}
use rustaxa.PbftManager.Examples.Sample.{
  genesis, world_at, unused, program, state_in, result, polling,
}

abbrev sample_dag_block : DagBlock
sample_dag_block = record { hash = 41; sender = 7; difficulty = 1; gas_estimation = 10; trxs = [] }

-- A DAG of one block.
abbrev dag_world : World
dag_world = record (world_at 0) {
  dag_block_order = λ _ _. 41 ∷ [];
  dag_block = λ _. some sample_dag_block;
  order_hash = λ _. 77;
}

abbrev block_on : ℕ → ℕ → ℕ → PbftBlock
block_on hash anchor order = record {
  block_hash = hash;
  prev_block_hash = 0;
  pivot_dag_block_hash = anchor;
  order_hash = order;
  final_chain_hash = 5;
  period = 1;
  reward_votes = [];
  extra_data = none;
}

abbrev filled : Cache
filled = (41, sample_dag_block ∷ []) ∷ []

passes :
    validate_pbft_block dag_world unused.pbft_chain [] unused.vote_mgr (block_on 600 41 77) []
    ≡ done (filled, true)
unfolding program
passes = refl

validate_pbft_block-Follows_example :
    Follows dag_world unused.pbft_chain unused.vote_mgr (block_on 600 41 77) [] filled
validate_pbft_block-Follows_example =
    validate_pbft_block-Follows dag_world unused.pbft_chain [] unused.vote_mgr (block_on 600 41 77)
      [] passes

validate_pbft_block_passes_after_example :
    (validate_pbft_block dag_world unused.pbft_chain [] unused.vote_mgr (block_on 601 41 78) filled
      ≡ done (filled, true))
    × (validate_pbft_block dag_world unused.pbft_chain [] unused.vote_mgr (block_on 601 41 78) []
        ≡ done ([], false))
unfolding program
validate_pbft_block_passes_after_example =
    validate_pbft_block_passes_after dag_world unused.pbft_chain [] unused.vote_mgr
      (block_on 600 41 77) 601 78 [] passes (ground arith) refl (ground arith)

-- A block with no anchor and a lower proposal, and one with an anchor.
abbrev proposal_of : ℕ → PbftVote
proposal_of block_hash = record {
  hash = block_hash * 10;
  voter = 7;
  block_hash = block_hash;
  period = 1;
  round = 1;
  step = 1;
  weight = some 2;
}

abbrev two_votes : List PbftVote
two_votes = proposal_of 602 ∷ proposal_of 601 ∷ []

abbrev two_blocks : BlockChecks
unfolding program
two_blocks =
    let one = (push_proposed_pbft_block (block_on 601 0 0) true unused.proposed_blocks).0 in
    record { proposed = (push_proposed_pbft_block (block_on 602 41 77) true one).0; cache = [] }

abbrev result_of : Outcome (BlockChecks × Leader) → BlockChecks × Leader
result_of fault = (two_blocks, none)
result_of (done r) = r

abbrev chosen : BlockChecks × Leader
unfolding program
chosen = result_of (identify_leader_block dag_world unused two_votes two_blocks)

leads :
    identify_leader_block dag_world unused two_votes two_blocks
    ≡ done (chosen.0, some (block_on 602 41 77, proposal_of 602))
unfolding program
leads = refl

identify_leader_block-Best_example :
    let m = leader_candidates dag_world two_votes [] in
    IsSorted m
    × All (IsProposed dag_world) m
    × Best dag_world unused none two_blocks m chosen.0 (some (block_on 602 41 77, proposal_of 602))
identify_leader_block-Best_example =
    identify_leader_block-Best dag_world unused two_votes two_blocks leads

sample-IsLimited : IsLimited genesis.cacti_hf
sample-IsLimited = record { ordered = omega arith; low = omega arith; high = omega arith }

adjust_dynamic_lambda_lem_example :
    let s =
      adjust_dynamic_lambda genesis.cacti_hf 2000 3
        (record polling.lambdas { dynamic_lambda = 700 }) in
    IsWithin genesis.cacti_hf s × (s.dynamic_lambda ≡ 710)
unfolding program
adjust_dynamic_lambda_lem_example =
    adjust_dynamic_lambda_lem genesis.cacti_hf 2000 3
      (record polling.lambdas { dynamic_lambda = 700 }) sample-IsLimited (omega arith, omega arith)

abbrev finished : PbftManager
unfolding program
finished = state_in (second_finish (world_at 4100) polling)

finishes : second_finish (world_at 4100) polling ≡ done finished
unfolding program
finishes = result (second_finish (world_at 4100) polling) refl

abbrev block_507 : PbftBlock
block_507 = record (block_on 507 0 0) { extra_data = none }

certified : polling.machine.cert_voted_block_for_round ≡ some block_507
unfolding program
certified = refl

second_finish-Adds_example : Adds (IsFor 507) polling finished
unfolding program
second_finish-Adds_example =
    second_finish-Adds (world_at 4100) polling block_507 507 certified refl finishes

-- It votes for the block in both finish states.
finish_votes :
    map {B = ℕ × ℕ} (λ v. (v.block_hash, v.step)) finished.own_verified_votes
    ≡ (507, 1)
      ∷ (507, 2)
      ∷ (507, 2)
      ∷ (507, 3)
      ∷ (507, 3)
      ∷ (507, 4)
      ∷ (507, 4)
      ∷ (507, 5)
      ∷ (507, 5)
      ∷ []
unfolding program
finish_votes = refl
