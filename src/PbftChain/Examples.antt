-- ===== src/PbftChain/Examples.antt =====
-- Tests of PbftChain: a chain of two blocks.
use rustaxa.Common.{ℕ, ◌≡◌, refl, none, some, [], ◌∷◌, arith}
use rustaxa.Common.Outcome.{done}
use rustaxa.Common.Map.{Map, lookup, put}
use rustaxa.PbftBlock.{PbftBlock}
use rustaxa.PbftChain.{
  PbftChain, Head, new_pbft_chain, update_pbft_chain, get_json_str_for_block,
  check_pbft_block_validation,
}
use rustaxa.PbftChain.Saved.{new_chain, Pushed, start, next, new_pbft_chain-Pushed}

-- A block with an anchor, and one without.
abbrev block_at : ℕ → ℕ → ℕ → ℕ → PbftBlock
block_at hash prev anchor period = record {
  block_hash = hash;
  prev_block_hash = prev;
  pivot_dag_block_hash = anchor;
  order_hash = 0;
  final_chain_hash = 0;
  period = period;
  reward_votes = [];
  extra_data = none;
}

abbrev blocks : Map PbftBlock
blocks = (11, block_at 11 0 41 1) ∷ (12, block_at 12 11 0 2) ∷ []

abbrev chain : PbftChain
chain = record {
  head_hash = 1;
  size = 2;
  non_empty_size = 1;
  last_pbft_block_hash = 12;
  last_non_null_pbft_dag_anchor_hash = 41;
}

abbrev head : Head
head = record { head_hash = 1; size = 2; non_empty_size = 1; last_pbft_block_hash = 12 }

pushed : Pushed 1 2 blocks chain (some head)
unfolding new_chain lookup put update_pbft_chain get_json_str_for_block check_pbft_block_validation
pushed =
    next (block_at 12 11 0 2) (next (block_at 11 0 41 1) start refl (λ e. omega (arith, e)) refl)
      refl (λ e. omega (arith, e)) refl

new_pbft_chain-Pushed_example : new_pbft_chain 1 (some head) 2 blocks ≡ done chain
new_pbft_chain-Pushed_example = new_pbft_chain-Pushed pushed
