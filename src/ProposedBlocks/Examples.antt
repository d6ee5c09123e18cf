-- ===== src/ProposedBlocks/Examples.antt =====
-- Tests of ProposedBlocks: two blocks, of which one was validated.
use rustaxa.Common.{ℕ, ◌%◌, ◌≡◌, refl, true, false, none, some, []}
use rustaxa.Common.Outcome.{Outcome, done}
use rustaxa.Common.Map.Sorted.{drop_below}
use rustaxa.Common.Map.{lookup, contains, emplace, put, erase}
use rustaxa.PbftBlock.{PbftBlock}
use rustaxa.ProposedBlocks.{
  ProposedBlocks, push_proposed_pbft_block, mark_block_as_valid, get_pbft_proposed_block,
  remove_blocks, remove_old, cleanup_proposed_pbft_blocks_by_period, load_blocks,
}
use rustaxa.ProposedBlocks.Restore.{new_proposed_blocks, Step, Reach, IsStored, Reach-IsStored}
use rustaxa.ProposedBlocks.Reload.{get-load_blocks_restart}

-- The block of a hash, in the period that its last digit gives.
abbrev block_of : ℕ → PbftBlock
block_of h = record {
  block_hash = h;
  prev_block_hash = 0;
  pivot_dag_block_hash = 0;
  order_hash = 0;
  final_chain_hash = 0;
  period = h % 10;
  reward_votes = [];
  extra_data = none;
}

abbrev state_in : Outcome ProposedBlocks → ProposedBlocks
state_in (done s) = s
state_in _ = new_proposed_blocks

program : Unit {0}
unfolding lookup contains emplace put erase push_proposed_pbft_block mark_block_as_valid
    get_pbft_proposed_block remove_blocks remove_old drop_below
    cleanup_proposed_pbft_blocks_by_period load_blocks new_proposed_blocks
program = tt

abbrev pushed : ProposedBlocks
unfolding program
pushed =
    (push_proposed_pbft_block (block_of 23) true
      (push_proposed_pbft_block (block_of 12) true new_proposed_blocks).0).0

abbrev marked : ProposedBlocks
unfolding program
marked = state_in (mark_block_as_valid (block_of 23) pushed)

abbrev cleaned : ProposedBlocks
unfolding program
cleaned = cleanup_proposed_pbft_blocks_by_period 3 marked

reached : Reach block_of cleaned
unfolding program
reached =
    Reach.next
      (Reach.next
        (Reach.next (Reach.next Reach.start (Step.push (block_of 12) refl))
          (Step.push (block_of 23) refl))
        (Step.mark (block_of 23) refl))
      (Step.cleanup 3)

Reach-IsStored_example : IsStored block_of cleaned
Reach-IsStored_example = Reach-IsStored block_of reached

found : get_pbft_proposed_block 3 23 cleaned ≡ some (block_of 23, true)
unfolding program
found = refl

get-load_blocks_restart_example :
    get_pbft_proposed_block 3 23
      (load_blocks cleaned.db (record { proposed_blocks = []; db = cleaned.db }))
    ≡ some (block_of 23, false)
unfolding program
get-load_blocks_restart_example = get-load_blocks_restart block_of 3 23 reached
