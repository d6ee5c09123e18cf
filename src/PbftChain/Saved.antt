-- ===== src/PbftChain/Saved.antt =====
-- PbftChain: the chain of the blocks that were pushed, and the chain that the constructor builds from
-- the head and the blocks in the database.
use rustaxa.Common.{
  ℕ, zero, suc, ◌≡◌, refl, subst, ◌≢◌, inl, inr, true, Option, none, some, [], arith, ◌==◌, ==_iff,
  Bool-cases, Option-cases,
}
use rustaxa.Common.Outcome.{done}
use rustaxa.Common.Map.{Map, lookup, put, lookup-put, lookup-put_self}
use rustaxa.Vote.{null_block_hash}
use rustaxa.PbftBlock.{PbftBlock}
use rustaxa.PbftChain.{
  PbftChain, Head, get_json_str_for_block, update_pbft_chain, check_pbft_block_validation,
  find_anchor, new_pbft_chain,
}

unfoldable pub new_chain : ℕ → PbftChain
new_chain head_hash = record {
  head_hash = head_hash;
  size = 0;
  non_empty_size = 0;
  last_pbft_block_hash = null_block_hash;
  last_non_null_pbft_dag_anchor_hash = null_block_hash;
}

-- A chain of `n` blocks, with the head that was saved with the last one. Each block passed
-- checkPbftBlockValidation, and its hash is new.
pub data Pushed (head_hash : ℕ) : ℕ → Map PbftBlock → PbftChain → Option Head → Type 0 where
  start : Pushed head_hash 0 [] (new_chain head_hash) none
  next :
      {n : ℕ} {blocks : Map PbftBlock} {c : PbftChain} {saved : Option Head} (b : PbftBlock)
      → Pushed head_hash n blocks c saved
      → check_pbft_block_validation b c ≡ true
      → b.block_hash ≢ null_block_hash
      → lookup b.block_hash blocks ≡ none
      → Pushed head_hash
          (suc n)
          (put b.block_hash b blocks)
          (update_pbft_chain b.block_hash b.pivot_dag_block_hash c)
          (some (get_json_str_for_block b.block_hash (b.pivot_dag_block_hash == null_block_hash) c))

-- A new block does not change a walk that does not need it.
find_anchor-put :
    (fuel from anchor : ℕ) (b : PbftBlock) (blocks : Map PbftBlock)
    → lookup b.block_hash blocks ≡ none
    → find_anchor fuel from blocks ≡ done anchor
    → find_anchor fuel from (put b.block_hash b blocks) ≡ done anchor
unfolding find_anchor
find_anchor-put zero from anchor b blocks new walk = cc
find_anchor-put (suc fuel) from anchor b blocks new walk =
    elim (Option-cases (lookup from blocks)) [
      | inl e ↦ ground arith
      | inr (x, e) ↦ elim (Bool-cases (b.block_hash == from)) [
        | inl same ↦
            let clash =
              subst (λ h. lookup h blocks ≡ none) ((==_iff b.block_hash from).0 same) new in
            ground arith
        | inr other ↦
            let before = find_anchor-put fuel x.prev_block_hash anchor b blocks new in
            ground (arith, lookup-put b.block_hash from b blocks, before)
      ]
    ]

-- Only the empty chain ends in the null hash.
last-null :
    {head_hash n : ℕ} {blocks : Map PbftBlock} {c : PbftChain} {saved : Option Head}
    → Pushed head_hash n blocks c saved
    → c.last_pbft_block_hash ≡ null_block_hash
    → c.last_non_null_pbft_dag_anchor_hash ≡ null_block_hash
unfolding new_chain update_pbft_chain
last-null start e = refl
last-null (next b r valid real new) e = absurd (real e)

find_anchor-Pushed :
    {head_hash n : ℕ} {blocks : Map PbftBlock} {c : PbftChain} {saved : Option Head}
    → Pushed head_hash n blocks c saved
    → c.last_pbft_block_hash ≢ null_block_hash
    → find_anchor n c.last_pbft_block_hash blocks ≡ done c.last_non_null_pbft_dag_anchor_hash
unfolding new_chain update_pbft_chain find_anchor check_pbft_block_validation
find_anchor-Pushed start real = absurd (real refl)
find_anchor-Pushed (next {n} {blocks} {c} b r valid real new) _ =
    rw (find_anchor, lookup-put_self b.block_hash b blocks)
      (elim (Bool-cases (b.pivot_dag_block_hash == null_block_hash)) [
        | inr anchored ↦ ground arith
        | inl empty ↦ elim (Bool-cases (b.prev_block_hash == null_block_hash)) [
          | inl first ↦ ground (arith, last-null r)
          | inr later ↦
              let linked : c.last_pbft_block_hash ≡ b.prev_block_hash = ground arith in
              let walk = find_anchor-Pushed r (λ e. ground arith) in
              let kept =
                find_anchor-put n c.last_pbft_block_hash c.last_non_null_pbft_dag_anchor_hash b
                  blocks new walk in
              let kept' =
                subst
                  (λ from.
                    find_anchor n from (put b.block_hash b blocks)
                    ≡ done c.last_non_null_pbft_dag_anchor_hash)
                  linked kept in
              ground arith
        ]
      ])

-- For a chain to which valid blocks of new hashes other than null were pushed, each with its head
-- saved, the constructor builds from the last head and the blocks the same chain, with as much fuel
-- for the walk to the last anchor as there are blocks.
pub new_pbft_chain-Pushed :
    {head_hash n : ℕ} {blocks : Map PbftBlock} {c : PbftChain} {saved : Option Head}
    → Pushed head_hash n blocks c saved
    → new_pbft_chain head_hash saved n blocks ≡ done c
unfolding new_pbft_chain new_chain update_pbft_chain get_json_str_for_block
new_pbft_chain-Pushed start = refl
new_pbft_chain-Pushed (next {n} {blocks} {c} b r valid real new) =
    let walk = find_anchor-Pushed (next b r valid real new) real in ground arith
