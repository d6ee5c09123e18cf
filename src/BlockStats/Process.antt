-- ===== src/BlockStats/Process.antt =====
-- BlockStats: the constructor and the loops of processStats.
use rustaxa.Common.{
  ℕ, ◌*◌, ◌%◌, min, ◌≡◌, subst, inl, inr, Bool, true, false, ◌||◌, Option, none, some, List, [],
  ◌∷◌, arith, ◌==◌, if◌then◌else◌, Bool-cases, Option-cases, length,
}
use rustaxa.Common.Outcome.{done, Outcome-cases}
use rustaxa.Common.Map.{Map, lookup, emplace}
use rustaxa.Common.Map.Sorted.{IsSorted, put-From}
use rustaxa.Vote.{PbftVote}
use rustaxa.Transaction.{Transaction}
use rustaxa.DagBlock.{DagBlock}
use rustaxa.BlockStats.Spent.{AllSpent, new_block_stats-AllSpent}
use rustaxa.BlockStats.{
  u256, BlockStats, init_fee_by_trx_hash, add_transaction, add_vote, count_dag_block,
  add_dag_transactions, process_dag_blocks, add_transactions, process_easiest,
  process_dag_blocks_aspen, min_difficulty, add_votes, process_stats, new_block_stats, no_stats,
  is_in,
}
use rustaxa.BlockStats.Sums.{sum}
use rustaxa.BlockStats.Balance.{
  IsBalanced, fee_of, add_transaction-IsBalanced, count_dag_block-IsBalanced, add_vote-IsBalanced,
}

add_dag_transactions-IsBalanced :
    (fees : ℕ) (ts : List Transaction) (a : ℕ) (hs : List ℕ) (unique : Bool) (s : BlockStats)
    → IsBalanced fees s
    → IsBalanced fees (add_dag_transactions ts a hs unique s).0
unfolding add_dag_transactions
add_dag_transactions-IsBalanced fees ts a [] unique s i = i
add_dag_transactions-IsBalanced fees ts a (h ∷ hs) unique s i = elim (Bool-cases (is_in h ts)) [
  | inl e ↦ rw e (
      add_dag_transactions-IsBalanced fees ts a hs (unique || (add_transaction h a s).1)
        (add_transaction h a s).0 (add_transaction-IsBalanced fees h a s i))
  | inr e ↦ rw e (add_dag_transactions-IsBalanced fees ts a hs unique s i)
]

count_if-IsBalanced :
    (fees a : ℕ) (b : Bool) (s : BlockStats)
    → IsBalanced fees s
    → IsBalanced fees (if b then count_dag_block a s else s)
count_if-IsBalanced fees a true s i = count_dag_block-IsBalanced fees a s i
count_if-IsBalanced fees a false s i = i

process_dag_blocks-IsBalanced :
    (fees : ℕ) (ts : List Transaction) (bs : List DagBlock) (s : BlockStats)
    → IsBalanced fees s
    → IsBalanced fees (process_dag_blocks ts bs s)
unfolding process_dag_blocks
process_dag_blocks-IsBalanced fees ts [] s i = i
process_dag_blocks-IsBalanced fees ts (b ∷ bs) s i =
    let r = add_dag_transactions ts b.sender b.trxs false s in
    process_dag_blocks-IsBalanced fees ts bs (if r.1 then count_dag_block b.sender r.0 else r.0) (
      count_if-IsBalanced fees b.sender r.1 r.0
        (add_dag_transactions-IsBalanced fees ts b.sender b.trxs false s i))

add_transactions-IsBalanced :
    (fees a : ℕ) (hs : List ℕ) (s : BlockStats)
    → IsBalanced fees s
    → IsBalanced fees (add_transactions a hs s)
add_transactions-IsBalanced fees a [] s i = i
add_transactions-IsBalanced fees a (h ∷ hs) s i =
    add_transactions-IsBalanced fees a hs (add_transaction h a s).0
      (add_transaction-IsBalanced fees h a s i)

process_easiest-IsBalanced :
    (fees least : ℕ) (bs : List DagBlock) (s : BlockStats)
    → IsBalanced fees s
    → IsBalanced fees (process_easiest least bs s)
unfolding process_easiest
process_easiest-IsBalanced fees least [] s i = i
process_easiest-IsBalanced fees least (b ∷ bs) s i =
    let s' = if b.difficulty == least then count_dag_block b.sender s else s in
    process_easiest-IsBalanced fees least bs (add_transactions b.sender b.trxs s') (
      add_transactions-IsBalanced fees b.sender b.trxs s'
        (count_if-IsBalanced fees b.sender (b.difficulty == least) s i))

add_votes-IsBalanced :
    (fees : ℕ) (vs : List PbftVote) (s : BlockStats) {s' : BlockStats}
    → add_votes vs s ≡ done s'
    → IsBalanced fees s
    → IsBalanced fees s'
unfolding add_votes
add_votes-IsBalanced fees [] s {s'} h i =
    let to : s ≡ s' = ground arith in subst (λ x. IsBalanced fees x) to i
add_votes-IsBalanced fees (v ∷ vs) s h i = elim (Outcome-cases (add_vote v s)) [
  | inl e ↦ absurd (ground arith)
  | inr (s'', e) ↦
      add_votes-IsBalanced fees vs s'' (ground arith) (add_vote-IsBalanced fees v s e i)
]

process_stats-IsBalanced :
    (fees : ℕ) (ts : List Transaction) (bs : List DagBlock) (vs : List PbftVote) (aspen : Bool)
    (s : BlockStats) {s' : BlockStats}
    → process_stats ts bs vs aspen s ≡ done s'
    → IsBalanced fees s
    → IsBalanced fees s'
unfolding process_stats process_dag_blocks_aspen
process_stats-IsBalanced fees ts bs vs true s h i =
    elim (Bool-cases (length s.fee_by_trx_hash == length ts)) [
      | inr e ↦ absurd (ground arith)
      | inl e ↦
          add_votes-IsBalanced fees vs (process_dag_blocks_aspen bs s) (ground arith)
            (process_easiest-IsBalanced fees (min_difficulty 65535 bs) bs s i)
    ]
process_stats-IsBalanced fees ts bs vs false s h i =
    elim (Bool-cases (length s.fee_by_trx_hash == length ts)) [
      | inr e ↦ absurd (ground arith)
      | inl e ↦
          add_votes-IsBalanced fees vs (process_dag_blocks ts bs s) (ground arith)
            (process_dag_blocks-IsBalanced fees ts bs s i)
    ]

emplace-IsSorted : (k v : ℕ) (m : Map ℕ) → IsSorted m → IsSorted (emplace k v m)
unfolding emplace
emplace-IsSorted k v m s = elim (Option-cases (lookup k m)) [
  | inl e ↦ rw (e, emplace) (put-From 0 k v m (omega arith) s)
  | inr (w, e) ↦ rw (e, emplace) s
]

init-IsSorted :
    (ts : List Transaction) (gas : Option (List ℕ)) (m : Map ℕ) {m' : Map ℕ}
    → init_fee_by_trx_hash ts gas m ≡ done m'
    → IsSorted m
    → IsSorted m'
unfolding init_fee_by_trx_hash
init-IsSorted [] gas m {m'} h s = let to : m ≡ m' = ground arith in subst (λ x. IsSorted x) to s
init-IsSorted (t ∷ ts) none m h s =
    init-IsSorted ts none (emplace t.hash 0 m) h (emplace-IsSorted t.hash 0 m s)
init-IsSorted (t ∷ ts) (some []) m h s = absurd (ground arith)
init-IsSorted (t ∷ ts) (some (g ∷ gs)) m h s =
    init-IsSorted ts (some gs) (emplace t.hash (t.gas_price * g % u256) m) h
      (emplace-IsSorted t.hash (t.gas_price * g % u256) m s)

start-IsBalanced :
    (n : ℕ) (fees : Map ℕ) → IsSorted fees → IsBalanced (sum fee_of fees) (no_stats n fees)
start-IsBalanced n fees s = record {
  paid = omega arith;
  blocks = omega arith;
  votes = omega arith;
  fees_sorted = s;
  stats_sorted = tt;
}

-- If the constructor returns, for either way to count DAG blocks: the fees of the validators, with
-- those that are left, add up to the fees of the block modulo 2^256, and no fee of a transaction of a
-- DAG block is left; the DAG blocks and the vote weights of the validators add up to the totals,
-- modulo 2^32 and 2^64.
pub new_block_stats-IsBalanced :
    (ts : List Transaction) (bs : List DagBlock) (vs : List PbftVote) (gas : Option (List ℕ))
    (dpos_vote_count committee_size : ℕ) (aspen : Bool) {fees : Map ℕ} {s : BlockStats}
    → init_fee_by_trx_hash ts gas [] ≡ done fees
    → new_block_stats ts bs vs gas dpos_vote_count committee_size aspen ≡ done s
    → IsBalanced (sum fee_of fees) s × AllSpent s bs
unfolding new_block_stats
new_block_stats-IsBalanced ts bs vs gas n c aspen {fees} {s} e h = (
  process_stats-IsBalanced (sum fee_of fees) ts bs vs aspen (no_stats (min c n) fees) (ground arith)
      (start-IsBalanced (min c n) fees (init-IsSorted ts gas [] e tt)),
  new_block_stats-AllSpent ts bs vs gas n c aspen {s = s} e h,
)
