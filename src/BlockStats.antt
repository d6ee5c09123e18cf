-- ===== src/BlockStats.antt =====
-- libraries/core_libs/consensus: BlockStats, what the validators of a PBFT block are rewarded for. Of
-- the data of a period it reads the transactions, the DAG blocks and the cert votes.
pub mod Sums
pub mod Balance
pub mod Spent
pub mod Process
mod Examples
use rustaxa.Common.{
  ℕ, zero, suc, ◌+◌, ◌-◌, ◌*◌, ◌/◌, ◌%◌, ◌^◌, ◌≤◌, ◌<◌, max, min, ◌≡◌, refl, sym, ap, subst, ◌∙◌,
  ◌≢◌, ◌↔◌, ◌⊎◌, inl, inr, Bool, true, false, not, ◌&&◌, ◌||◌, Option, none, some, List, [], ◌∷◌,
  ◌++◌, map, arith, ltb, leb, ◌==◌, if◌then◌else◌, ltb→lt, ==_iff, Bool-cases, Option-cases, u64,
  u32, length, All, length-append, total,
}
use rustaxa.Common.Outcome.{Outcome, done, fault, deref, assert, ◌>>=◌, ◌>>◌}
use rustaxa.Common.Map.{Map, lookup, put, erase, emplace}
use rustaxa.Vote.{PbftVote}
use rustaxa.Transaction.{Transaction}
use rustaxa.DagBlock.{DagBlock}

-- `u256` wraps around.
abbrev pub u256 : ℕ
u256 = 2 ^ 256

pub record ValidatorStats : Type 0 where
  pub dag_blocks_count : ℕ
  pub vote_weight : ℕ
  pub fees_rewards : ℕ

pub record BlockStats : Type 0 where
  pub fee_by_trx_hash : Map ℕ
  pub validators_stats : Map ValidatorStats
  pub total_dag_blocks_count : ℕ
  pub total_votes_weight : ℕ
  pub max_votes_weight : ℕ

-- `validators_stats_[validator]`, where a missing entry is made.
abbrev pub or_zero : Option ValidatorStats → ValidatorStats
or_zero none = record { dag_blocks_count = 0; vote_weight = 0; fees_rewards = 0 }
or_zero (some v) = v

abbrev pub stats_of : ℕ → BlockStats → ValidatorStats
stats_of validator s = or_zero (lookup validator s.validators_stats)

-- `none` is an empty list of gas used, with which all fees are 0; a list that is too short is read out
-- of its bounds.
unfoldable pub init_fee_by_trx_hash : List Transaction → Option (List ℕ) → Map ℕ → Outcome (Map ℕ)
init_fee_by_trx_hash [] gas m = done m
init_fee_by_trx_hash (t ∷ ts) none m = init_fee_by_trx_hash ts none (emplace t.hash 0 m)
init_fee_by_trx_hash (t ∷ ts) (some []) m = fault
init_fee_by_trx_hash (t ∷ ts) (some (g ∷ gs)) m =
    init_fee_by_trx_hash ts (some gs) (emplace t.hash (t.gas_price * g % u256) m)

unfoldable pub add_transaction : ℕ → ℕ → BlockStats → BlockStats × Bool
add_transaction trx_hash validator s = elim (lookup trx_hash s.fee_by_trx_hash) [
  | none ↦ (s, false)
  | some fee ↦
      let v = stats_of validator s in
      let v' : ValidatorStats = record v { fees_rewards = (v.fees_rewards + fee) % u256 } in
      (
        record s {
          validators_stats = put validator v' s.validators_stats;
          fee_by_trx_hash = erase trx_hash s.fee_by_trx_hash;
        },
        true,
      )
]

unfoldable pub add_vote : PbftVote → BlockStats → Outcome BlockStats
add_vote vote s =
    let v = stats_of vote.voter s in
    do
      assert (v.vote_weight == 0)
      weight ← deref vote.weight
      let v' : ValidatorStats = record v { vote_weight = weight }
      done (record s {
        validators_stats = put vote.voter v' s.validators_stats;
        total_votes_weight = (s.total_votes_weight + weight) % u64;
      })

unfoldable pub count_dag_block : ℕ → BlockStats → BlockStats
count_dag_block author s =
    let v = stats_of author s in
    let v' : ValidatorStats = record v { dag_blocks_count = (v.dag_blocks_count + 1) % u32 } in
    record s {
      validators_stats = put author v' s.validators_stats;
      total_dag_blocks_count = (s.total_dag_blocks_count + 1) % u32;
    }

abbrev pub is_in : ℕ → List Transaction → Bool
is_in hash [] = false
is_in hash (t ∷ ts) = t.hash == hash || is_in hash ts

-- The transactions of one DAG block, with whether one was rewarded for the first time.
unfoldable pub add_dag_transactions :
    List Transaction → ℕ → List ℕ → Bool → BlockStats → BlockStats × Bool
unfolding add_transaction
add_dag_transactions ts author [] unique s = (s, unique)
add_dag_transactions ts author (h ∷ hs) unique s =
    if is_in h ts
    then add_dag_transactions ts author hs (unique || (add_transaction h author s).1)
        (add_transaction h author s).0
    else add_dag_transactions ts author hs unique s

unfoldable pub process_dag_blocks : List Transaction → List DagBlock → BlockStats → BlockStats
unfolding add_dag_transactions count_dag_block
process_dag_blocks ts [] s = s
process_dag_blocks ts (b ∷ bs) s =
    let (s', unique) = add_dag_transactions ts b.sender b.trxs false s in
    process_dag_blocks ts bs (if unique then count_dag_block b.sender s' else s')

abbrev pub min_difficulty : ℕ → List DagBlock → ℕ
min_difficulty least [] = least
min_difficulty least (b ∷ bs) =
    min_difficulty (if ltb b.difficulty least then b.difficulty else least) bs

abbrev pub add_transactions : ℕ → List ℕ → BlockStats → BlockStats
add_transactions author [] s = s
add_transactions author (h ∷ hs) s = add_transactions author hs (add_transaction h author s).0

unfoldable pub process_easiest : ℕ → List DagBlock → BlockStats → BlockStats
unfolding add_transaction count_dag_block
process_easiest least [] s = s
process_easiest least (b ∷ bs) s = process_easiest least bs (
    add_transactions b.sender b.trxs
      (if b.difficulty == least then count_dag_block b.sender s else s))

unfoldable pub process_dag_blocks_aspen : List DagBlock → BlockStats → BlockStats
unfolding process_easiest
process_dag_blocks_aspen bs s = process_easiest (min_difficulty 65535 bs) bs s

unfoldable pub add_votes : List PbftVote → BlockStats → Outcome BlockStats
unfolding add_vote
add_votes [] s = done s
add_votes (v ∷ vs) s = add_vote v s >>= add_votes vs

unfoldable pub process_stats :
    List Transaction → List DagBlock → List PbftVote → Bool → BlockStats → Outcome BlockStats
unfolding process_dag_blocks process_dag_blocks_aspen add_votes
process_stats ts bs vs aspen_dag_rewards s = do
  assert (length s.fee_by_trx_hash == length ts)
  add_votes vs
      (if aspen_dag_rewards then process_dag_blocks_aspen bs s else process_dag_blocks ts bs s)

abbrev pub no_stats : ℕ → Map ℕ → BlockStats
no_stats max_votes_weight fees = record {
  fee_by_trx_hash = fees;
  validators_stats = [];
  total_dag_blocks_count = 0;
  total_votes_weight = 0;
  max_votes_weight = max_votes_weight;
}

-- The constructor; the author and the blocks per year are kept as they are given.
unfoldable pub new_block_stats :
    List Transaction
    → List DagBlock
    → List PbftVote
    → Option (List ℕ)
    → ℕ
    → ℕ
    → Bool
    → Outcome BlockStats
unfolding init_fee_by_trx_hash process_stats
new_block_stats ts bs vs trxs_gas_used dpos_vote_count committee_size aspen_dag_reward = do
  fees ← init_fee_by_trx_hash ts trxs_gas_used []
  process_stats ts bs vs aspen_dag_reward (no_stats (min committee_size dpos_vote_count) fees)
