-- ===== src/BlockStats/Balance.antt =====
-- BlockStats: addTransaction, addVote and the count of DAG blocks, with the sums over the
-- validators.
use rustaxa.Common.{
  ℕ, ◌+◌, ◌%◌, ◌≡◌, refl, sym, ap, subst, ◌∙◌, inl, inr, Option, none, some, arith, ◌==◌,
  Bool-cases, Option-cases, u64,
}
use rustaxa.Common.Outcome.{done}
use rustaxa.Common.Map.{lookup, put, erase}
use rustaxa.Common.Map.Sorted.{IsSorted, put-From}
use rustaxa.Vote.{PbftVote}
use rustaxa.BlockStats.{
  u256, u32, ValidatorStats, BlockStats, or_zero, stats_of, add_transaction, add_vote,
  count_dag_block,
}
use rustaxa.BlockStats.Sums.{sum, part, sum-put, sum-erase, erase-IsSorted}

abbrev pub fee_of : ℕ → ℕ
fee_of n = n

abbrev pub blocks_of : ValidatorStats → ℕ
blocks_of v = v.dag_blocks_count

abbrev pub weight_of : ValidatorStats → ℕ
weight_of v = v.vote_weight

abbrev pub fees_of : ValidatorStats → ℕ
fees_of v = v.fees_rewards

-- The fees of the validators and those that are left are `fees`, and the totals are sums.
pub record IsBalanced (fees : ℕ) (s : BlockStats) : Type 0 where
  pub paid : (sum fees_of s.validators_stats + sum fee_of s.fee_by_trx_hash) % u256 ≡ fees % u256
  pub blocks : sum blocks_of s.validators_stats % u32 ≡ s.total_dag_blocks_count
  pub votes : sum weight_of s.validators_stats % u64 ≡ s.total_votes_weight
  pub fees_sorted : IsSorted s.fee_by_trx_hash
  pub stats_sorted : IsSorted s.validators_stats

-- The sums where the entry of one validator is replaced.
sum-replace :
    (f : ValidatorStats → ℕ) (validator : ℕ) (v : ValidatorStats) (s : BlockStats)
    → part f (lookup validator s.validators_stats) ≡ f (stats_of validator s)
    → IsSorted s.validators_stats
    → sum f (put validator v s.validators_stats) + f (stats_of validator s)
      ≡ sum f s.validators_stats + f v
sum-replace f validator v s zero_there o =
    ap (λ n. sum f (put validator v s.validators_stats) + n) (sym zero_there)
    ∙ sum-put f 0 validator v s.validators_stats o

part-or_zero :
    (o : Option ValidatorStats)
    → (part fees_of o ≡ fees_of (or_zero o))
      × (part blocks_of o ≡ blocks_of (or_zero o))
      × (part weight_of o ≡ weight_of (or_zero o))
part-or_zero none = (refl, refl, refl)
part-or_zero (some v) = (refl, refl, refl)

pub add_transaction-IsBalanced :
    (fees h a : ℕ) (s : BlockStats) → IsBalanced fees s → IsBalanced fees (add_transaction h a s).0
unfolding add_transaction
add_transaction-IsBalanced fees h a s i = elim (Option-cases (lookup h s.fee_by_trx_hash)) [
  | inl e ↦ rw (e, add_transaction) i
  | inr (fee, e) ↦
      let old = stats_of a s in
      let new : ValidatorStats = record old { fees_rewards = (old.fees_rewards + fee) % u256 } in
      let (zf, zb, zw) = part-or_zero (lookup a s.validators_stats) in
      let less : sum fee_of (erase h s.fee_by_trx_hash) + fee ≡ sum fee_of s.fee_by_trx_hash =
        subst
          (λ o.
            sum fee_of (erase h s.fee_by_trx_hash) + part fee_of o ≡ sum fee_of s.fee_by_trx_hash)
          e (sum-erase fee_of 0 h s.fee_by_trx_hash i.fees_sorted) in
      rw (e, add_transaction)
        (record {
          paid = omega (arith, sum-replace fees_of a new s zf i.stats_sorted, less, i.paid);
          blocks = omega (arith, sum-replace blocks_of a new s zb i.stats_sorted, i.blocks);
          votes = omega (arith, sum-replace weight_of a new s zw i.stats_sorted, i.votes);
          fees_sorted = erase-IsSorted fee_of 0 h s.fee_by_trx_hash i.fees_sorted;
          stats_sorted = put-From 0 a new s.validators_stats (omega arith) i.stats_sorted;
        })
]

pub count_dag_block-IsBalanced :
    (fees a : ℕ) (s : BlockStats) → IsBalanced fees s → IsBalanced fees (count_dag_block a s)
unfolding count_dag_block
count_dag_block-IsBalanced fees a s i =
    let old = stats_of a s in
    let new : ValidatorStats = record old { dag_blocks_count = (old.dag_blocks_count + 1) % u32 } in
    let (zf, zb, zw) = part-or_zero (lookup a s.validators_stats) in
    record {
      paid = omega (arith, sum-replace fees_of a new s zf i.stats_sorted, i.paid);
      blocks = omega (arith, sum-replace blocks_of a new s zb i.stats_sorted, i.blocks);
      votes = omega (arith, sum-replace weight_of a new s zw i.stats_sorted, i.votes);
      fees_sorted = i.fees_sorted;
      stats_sorted = put-From 0 a new s.validators_stats (omega arith) i.stats_sorted;
    }

pub add_vote-IsBalanced :
    (fees : ℕ) (vote : PbftVote) (s : BlockStats) {s' : BlockStats}
    → add_vote vote s ≡ done s'
    → IsBalanced fees s
    → IsBalanced fees s'
unfolding add_vote
add_vote-IsBalanced fees vote s {s'} h i =
    let a = vote.voter in
    let old = stats_of a s in
    elim (Bool-cases (old.vote_weight == 0)) [
      | inr e ↦ absurd (ground arith)
      | inl e ↦ elim (Option-cases vote.weight) [
        | inl f ↦ absurd (ground arith)
        | inr (w, f) ↦
            let new : ValidatorStats = record old { vote_weight = w } in
            let out : BlockStats = record s {
              validators_stats = put a new s.validators_stats;
              total_votes_weight = (s.total_votes_weight + w) % u64;
            } in
            let to : out ≡ s' = ground arith in
            let (zf, zb, zw) = part-or_zero (lookup a s.validators_stats) in
            let none_before : old.vote_weight ≡ 0 = ground arith in
            subst (λ x. IsBalanced fees x) to
              (record {
                paid = omega (arith, sum-replace fees_of a new s zf i.stats_sorted, i.paid);
                blocks = omega (arith, sum-replace blocks_of a new s zb i.stats_sorted, i.blocks);
                votes =
                    omega (
                      arith,
                      sum-replace weight_of a new s zw i.stats_sorted,
                      i.votes,
                      none_before,
                    );
                fees_sorted = i.fees_sorted;
                stats_sorted = put-From 0 a new s.validators_stats (omega arith) i.stats_sorted;
              })
      ]
    ]
