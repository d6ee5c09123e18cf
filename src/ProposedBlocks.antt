-- ===== src/ProposedBlocks.antt =====
-- libraries/core_libs/consensus: ProposedBlocks, the PBFT blocks that were proposed, by period and
-- hash, with the flag of those that were validated. `db` is the column of the database.
pub mod Restore
pub mod Reload
pub mod Cleanup
mod Examples
use rustaxa.Common.{
  ℕ, zero, suc, ◌+◌, ◌-◌, ◌*◌, ◌/◌, ◌%◌, ◌^◌, ◌≤◌, ◌<◌, max, min, ◌≡◌, refl, sym, ap, subst, ◌∙◌,
  ◌≢◌, ◌↔◌, ◌⊎◌, inl, inr, Bool, true, false, not, ◌&&◌, ◌||◌, Option, none, some, List, [], ◌∷◌,
  ◌++◌, map, arith, ltb, leb, ◌==◌, if◌then◌else◌, ltb→lt, ==_iff, Bool-cases, Option-cases, u64,
  u32, length, All, length-append, total,
}
use rustaxa.Common.Outcome.{Outcome, done, fault, deref, ◌>>=◌}
use rustaxa.Common.Map.{Map, lookup, put, erase, emplace, contains}
use rustaxa.Common.Map.Sorted.{drop_below}
use rustaxa.PbftBlock.{PbftBlock}

pub record ProposedBlocks : Type 0 where
  pub proposed_blocks : Map (Map (PbftBlock × Bool))
  pub db : Map PbftBlock

abbrev pub blocks_of : Option (Map (PbftBlock × Bool)) → Map (PbftBlock × Bool)
blocks_of none = []
blocks_of (some m) = m

abbrev pub is_none {ℓ} : {A : Type ℓ} → Option A → Bool
is_none none = true
is_none (some _) = false

unfoldable pub push_proposed_pbft_block : PbftBlock → Bool → ProposedBlocks → ProposedBlocks × Bool
push_proposed_pbft_block b save_to_db s =
    let blocks = blocks_of (lookup b.period s.proposed_blocks) in
    (
      record {
        proposed_blocks = put b.period (emplace b.block_hash (b, false) blocks) s.proposed_blocks;
        db = if save_to_db then put b.block_hash b s.db else s.db;
      },
      is_none (lookup b.block_hash blocks),
    )

-- The block is not looked for before its flag is set.
unfoldable pub mark_block_as_valid : PbftBlock → ProposedBlocks → Outcome ProposedBlocks
mark_block_as_valid b s = do
  blocks ← deref (lookup b.period s.proposed_blocks)
  found ← deref (lookup b.block_hash blocks)
  done (record s {
    proposed_blocks = put b.period (put b.block_hash (found.0, true) blocks) s.proposed_blocks;
  })

unfoldable pub get_pbft_proposed_block : ℕ → ℕ → ProposedBlocks → Option (PbftBlock × Bool)
get_pbft_proposed_block period block_hash s = elim (lookup period s.proposed_blocks) [
  | none ↦ none
  | some blocks ↦ lookup block_hash blocks
]

unfoldable pub is_in_proposed_blocks : ℕ → ℕ → ProposedBlocks → Bool
is_in_proposed_blocks period block_hash s = elim (lookup period s.proposed_blocks) [
  | none ↦ false
  | some blocks ↦ contains block_hash blocks
]

-- `removeProposedPbftBlock` of each block of a period.
unfoldable pub remove_blocks : Map (PbftBlock × Bool) → Map PbftBlock → Map PbftBlock
remove_blocks [] db = db
remove_blocks ((block_hash, _) ∷ m) db = remove_blocks m (erase block_hash db)

unfoldable pub remove_old : ℕ → Map (Map (PbftBlock × Bool)) → Map PbftBlock → Map PbftBlock
remove_old period [] db = db
remove_old period ((p, blocks) ∷ m) db =
    let rest = remove_old period m (remove_blocks blocks db) in if ltb p period then rest else db

unfoldable pub cleanup_proposed_pbft_blocks_by_period : ℕ → ProposedBlocks → ProposedBlocks
cleanup_proposed_pbft_blocks_by_period period s = record {
  proposed_blocks = drop_below period s.proposed_blocks;
  db = remove_old period s.proposed_blocks s.db;
}

-- `initialState` of the PBFT manager pushes the blocks of the database.
unfoldable pub load_blocks : Map PbftBlock → ProposedBlocks → ProposedBlocks
load_blocks [] s = s
load_blocks ((_, b) ∷ m) s = load_blocks m (push_proposed_pbft_block b false s).0
