-- ===== src/Vote.antt =====
-- libraries/types/vote: a PBFT vote as the node keeps it, and the type that its step gives it.
-- Hashes and addresses are the numbers that they stand for; the zero hash is `null_block_hash`.
use rustaxa.Common.{ℕ, zero, suc, ◌%◌, Bool, Option, ◌==◌}

pub data PbftVoteTypes : Type 0 where
  invalid_vote propose_vote soft_vote cert_vote next_vote : PbftVoteTypes

-- `weight` is the `mutable std::optional`, set by `calculateWeight` before a vote is inserted.
pub record PbftVote : Type 0 where
  pub hash : ℕ
  pub voter : ℕ
  pub block_hash : ℕ
  pub period : ℕ
  pub round : ℕ
  pub step : ℕ
  pub weight : Option ℕ

abbrev pub null_block_hash : ℕ
null_block_hash = 0

-- The type of a vote depends on its step alone.
unfoldable pub get_type : ℕ → PbftVoteTypes
get_type zero = PbftVoteTypes.invalid_vote
get_type (suc zero) = PbftVoteTypes.propose_vote
get_type (suc (suc zero)) = PbftVoteTypes.soft_vote
get_type (suc (suc (suc zero))) = PbftVoteTypes.cert_vote
get_type (suc (suc (suc (suc _)))) = PbftVoteTypes.next_vote

-- `vote->getType() == PbftVoteTypes::next_vote`.
unfoldable pub is_next_vote : PbftVote → Bool
unfolding get_type
is_next_vote v = elim (get_type v.step) [ PbftVoteTypes.next_vote ↦ Bool.true | _ ↦ Bool.false ]

-- `vote->getStep() % 2`.
unfoldable pub is_odd_step : PbftVote → Bool
is_odd_step v = v.step % 2 == 1
