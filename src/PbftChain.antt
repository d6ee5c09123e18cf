-- ===== src/PbftChain.antt =====
-- libraries/core_libs/consensus: PbftChain, the head of the chain of PBFT blocks. The JSON text of
-- the head is the record of its fields; the blocks of the database are a map.
pub mod Saved
mod Examples
use rustaxa.Common.{
  ℕ, zero, suc, ◌+◌, ◌-◌, ◌*◌, ◌/◌, ◌%◌, ◌^◌, ◌≤◌, ◌<◌, max, min, ◌≡◌, refl, sym, ap, subst, ◌∙◌,
  ◌≢◌, ◌↔◌, ◌⊎◌, inl, inr, Bool, true, false, not, ◌&&◌, ◌||◌, Option, none, some, List, [], ◌∷◌,
  ◌++◌, map, arith, ltb, leb, ◌==◌, if◌then◌else◌, ltb→lt, ==_iff, Bool-cases, Option-cases, u64,
  u32, length, All, length-append, total,
}
use rustaxa.Common.Outcome.{Outcome, done, fault, deref, ◌>>=◌}
use rustaxa.Common.Map.{Map, lookup}
use rustaxa.Vote.{null_block_hash}
use rustaxa.PbftBlock.{PbftBlock}

pub record PbftChain : Type 0 where
  pub head_hash : ℕ
  pub size : ℕ
  pub non_empty_size : ℕ
  pub last_pbft_block_hash : ℕ
  pub last_non_null_pbft_dag_anchor_hash : ℕ

pub record Head : Type 0 where
  pub head_hash : ℕ
  pub size : ℕ
  pub non_empty_size : ℕ
  pub last_pbft_block_hash : ℕ

unfoldable pub get_json_str : PbftChain → Head
get_json_str c = record {
  head_hash = c.head_hash;
  size = c.size;
  non_empty_size = c.non_empty_size;
  last_pbft_block_hash = c.last_pbft_block_hash;
}

unfoldable pub get_json_str_for_block : ℕ → Bool → PbftChain → Head
get_json_str_for_block block_hash null_anchor c = record {
  head_hash = c.head_hash;
  size = (c.size + 1) % u64;
  non_empty_size = if null_anchor then c.non_empty_size else (c.non_empty_size + 1) % u64;
  last_pbft_block_hash = block_hash;
}

unfoldable pub update_pbft_chain : ℕ → ℕ → PbftChain → PbftChain
update_pbft_chain pbft_block_hash anchor_hash c =
    let null_anchor = anchor_hash == null_block_hash in
    record c {
      size = (c.size + 1) % u64;
      non_empty_size = if null_anchor then c.non_empty_size else (c.non_empty_size + 1) % u64;
      last_non_null_pbft_dag_anchor_hash =
          if null_anchor then c.last_non_null_pbft_dag_anchor_hash else anchor_hash;
      last_pbft_block_hash = pbft_block_hash;
    }

unfoldable pub check_pbft_block_validation : PbftBlock → PbftChain → Bool
check_pbft_block_validation b c =
    (c.size + 1) % u64 == b.period && b.prev_block_hash == c.last_pbft_block_hash

unfoldable pub find_pbft_block_in_chain : ℕ → Map PbftBlock → Bool
find_pbft_block_in_chain block_hash blocks = elim (lookup block_hash blocks) [
  | none ↦ false
  | some _ ↦ true
]

unfoldable pub get_pbft_block_in_chain : ℕ → Map PbftBlock → Outcome PbftBlock
get_pbft_block_in_chain block_hash blocks = deref (lookup block_hash blocks)

-- The walk of the constructor back to a block with an anchor; fuel bounds its steps, and a walk
-- that runs out of it is a fault.
unfoldable pub find_anchor : ℕ → ℕ → Map PbftBlock → Outcome ℕ
find_anchor zero block_hash blocks = fault
find_anchor (suc fuel) block_hash blocks = elim (lookup block_hash blocks) [
  | none ↦ fault
  | some b ↦
      let before = find_anchor fuel b.prev_block_hash blocks in
      if not (b.pivot_dag_block_hash == null_block_hash)
      then done b.pivot_dag_block_hash
      else if b.prev_block_hash == null_block_hash
      then done null_block_hash
      else before
]

abbrev pub loaded : Head → ℕ → PbftChain
loaded h anchor = record {
  head_hash = h.head_hash;
  size = h.size;
  non_empty_size = h.non_empty_size;
  last_pbft_block_hash = h.last_pbft_block_hash;
  last_non_null_pbft_dag_anchor_hash = anchor;
}

-- The constructor, where the database has a head or none.
unfoldable pub new_pbft_chain : ℕ → Option Head → ℕ → Map PbftBlock → Outcome PbftChain
unfolding find_anchor
new_pbft_chain head_hash none fuel blocks = done (record {
  head_hash = head_hash;
  size = 0;
  non_empty_size = 0;
  last_pbft_block_hash = null_block_hash;
  last_non_null_pbft_dag_anchor_hash = null_block_hash;
})
new_pbft_chain head_hash (some h) fuel blocks =
    if h.last_pbft_block_hash == null_block_hash
    then done (loaded h null_block_hash)
    else do anchor ← find_anchor fuel h.last_pbft_block_hash blocks; done (loaded h anchor)
