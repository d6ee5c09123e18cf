-- ===== src/PbftManager/Leader.antt =====
-- PbftManager: getProposal and identifyLeaderBlock, the choice among the proposed blocks.
pub mod Lowest
use rustaxa.Common.{
  ℕ, zero, suc, ◌+◌, ◌-◌, ◌*◌, ◌/◌, ◌%◌, ◌^◌, ◌≤◌, ◌<◌, max, min, ◌≡◌, refl, sym, ap, subst, ◌∙◌,
  ◌≢◌, ◌↔◌, ◌⊎◌, inl, inr, Bool, true, false, not, ◌&&◌, ◌||◌, Option, none, some, List, [], ◌∷◌,
  ◌++◌, map, arith, ltb, leb, ◌==◌, if◌then◌else◌, ltb→lt, ==_iff, Bool-cases, Option-cases, u64,
  u32, length, All, length-append, total,
}
use rustaxa.Common.Outcome.{Outcome, done, fault, deref, ◌>>=◌}
use rustaxa.Common.Map.{Map, lookup, put}
use rustaxa.Vote.{PbftVote, null_block_hash}
use rustaxa.PbftBlock.{PbftBlock}
use rustaxa.PbftChain.{find_pbft_block_in_chain}
use rustaxa.PbftManager.{World, PbftManager}
use rustaxa.PbftManager.Validate.{BlockChecks, get_valid_pbft_proposed_block}

-- The loop from index `i` over `n` further indices.
unfoldable pub lowest_hash : World → PbftVote → ℕ → ℕ → ℕ → ℕ
lowest_hash w v lowest i zero = lowest
lowest_hash w v lowest i (suc n) =
    let tmp_hash = w.voter_index_hash v i in
    lowest_hash w v (if ltb tmp_hash lowest then tmp_hash else lowest) (i + 1) n

-- The lowest hash of a vote, one for each unit of weight; an index is not above no weight.
unfoldable pub get_proposal : World → PbftVote → ℕ
unfolding lowest_hash
get_proposal w v =
    let first = w.voter_index_hash v 1 in
    elim v.weight [ none ↦ first | some weight ↦ lowest_hash w v first 2 (weight - 1) ]

unfoldable pub leader_candidates : World → List PbftVote → Map PbftVote → Map PbftVote
unfolding get_proposal
leader_candidates w [] m = m
leader_candidates w (v ∷ vs) m =
    leader_candidates w vs
      (if v.block_hash == null_block_hash then m else put (get_proposal w v) v m)

abbrev pub Leader : Type 0
Leader = Option (PbftBlock × PbftVote)

abbrev pub first_of : Leader → PbftBlock × PbftVote → Leader
first_of none x = some x
first_of (some x) _ = some x

-- The candidates in the order of their hashes; `empty` is the first one with a null anchor.
unfoldable pub find_leader :
    World → PbftManager → Map PbftVote → Leader → BlockChecks → Outcome (BlockChecks × Leader)
find_leader w s [] empty p = done (p, empty)
find_leader w s ((_, v) ∷ m) empty p =
    let skipped = find_leader w s m empty p in
    if find_pbft_block_in_chain v.block_hash s.pbft_blocks then skipped else do
      (p', block) ← get_valid_pbft_proposed_block w s v.period v.block_hash p
      elim block [
        | none ↦ find_leader w s m empty p'
        | some b ↦
            let later = find_leader w s m (first_of empty (b, v)) p' in
            if b.pivot_dag_block_hash == null_block_hash then later else done (p', some (b, v))
      ]

-- With no votes there are no candidates.
unfoldable pub identify_leader_block :
    World → PbftManager → List PbftVote → BlockChecks → Outcome (BlockChecks × Leader)
unfolding leader_candidates find_leader
identify_leader_block w s propose_votes p =
    find_leader w s (leader_candidates w propose_votes []) none p
