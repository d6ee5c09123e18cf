-- ===== src/PillarVotes.antt =====
-- libraries/core_libs/consensus: PillarVotes, the verified votes for pillar blocks.
pub mod Unique
pub mod Accept
pub mod Reach
pub mod Add
pub mod Select
mod Examples
use rustaxa.Common.{
  ℕ, zero, suc, ◌+◌, ◌-◌, ◌*◌, ◌/◌, ◌%◌, ◌^◌, ◌≤◌, ◌<◌, max, min, ◌≡◌, refl, sym, ap, subst, ◌∙◌,
  ◌≢◌, ◌↔◌, ◌⊎◌, inl, inr, Bool, true, false, not, ◌&&◌, ◌||◌, Option, none, some, List, [], ◌∷◌,
  ◌++◌, map, arith, ltb, leb, ◌==◌, if◌then◌else◌, ltb→lt, ==_iff, Bool-cases, Option-cases, u64,
  length, All, length-append, total,
}
use rustaxa.Common.Outcome.{Outcome, done, fault}
use rustaxa.Common.Map.{Map, lookup, contains, put, emplace}

pub record PillarVote : Type 0 where
  pub hash : ℕ
  pub voter : ℕ
  pub block_hash : ℕ
  pub period : ℕ

-- Each vote with its own weight, and the sum of the weights.
pub record WeightVotes : Type 0 where
  pub votes : Map (PillarVote × ℕ)
  pub weight : ℕ

pub record PeriodVotes : Type 0 where
  pub pillar_block_votes : Map WeightVotes
  pub unique_voters : Map ℕ
  pub threshold : ℕ

abbrev pub PillarVotes : Type 0
PillarVotes = Map PeriodVotes

-- `WeightVotes{}`.
abbrev pub no_weight_votes : WeightVotes
no_weight_votes = record { votes = []; weight = 0 }

unfoldable pub vote_exists : PillarVote → PillarVotes → Bool
vote_exists v s = elim (lookup v.period s) [
  | none ↦ false
  | some p ↦ elim (lookup v.block_hash p.pillar_block_votes) [
    | none ↦ false
    | some b ↦ contains v.hash b.votes
  ]
]

unfoldable pub is_unique_vote : PillarVote → PillarVotes → Bool
is_unique_vote v s = elim (lookup v.period s) [
  | none ↦ true
  | some p ↦ elim (lookup v.voter p.unique_voters) [ none ↦ true | some hash ↦ hash == v.hash ]
]

-- The insertion into the `std::multiset` by falling weight: behind the entries of the same weight.
unfoldable pub insert_by_weight : PillarVote × ℕ → List (PillarVote × ℕ) → List (PillarVote × ℕ)
insert_by_weight x [] = x ∷ []
insert_by_weight x (y ∷ ys) =
    let rest = insert_by_weight x ys in if ltb y.1 x.1 then x ∷ y ∷ ys else y ∷ rest

-- The entries of the hash map, one after the other, into the multiset.
unfoldable pub sort_by_weight : Map (PillarVote × ℕ) → List (PillarVote × ℕ) → List (PillarVote × ℕ)
unfolding insert_by_weight
sort_by_weight [] sorted = sorted
sort_by_weight ((_, x) ∷ m) sorted = sort_by_weight m (insert_by_weight x sorted)

-- The loop that moves votes until they reach the threshold.
unfoldable pub take_threshold : ℕ → ℕ → List (PillarVote × ℕ) → List PillarVote
take_threshold threshold tmp_votes_count [] = []
take_threshold threshold tmp_votes_count ((v, w) ∷ rest) =
    let count = (tmp_votes_count + w) % u64 in
    let later = take_threshold threshold count rest in
    v ∷ (if leb threshold count then [] else later)

abbrev pub all_votes : Map (PillarVote × ℕ) → List PillarVote
all_votes [] = []
all_votes ((_, x) ∷ m) = x.0 ∷ all_votes m

unfoldable pub get_verified_votes : ℕ → ℕ → Bool → PillarVotes → List PillarVote
unfolding sort_by_weight take_threshold
get_verified_votes period pillar_block_hash above_threshold s = elim (lookup period s) [
  | none ↦ []
  | some p ↦ elim (lookup pillar_block_hash p.pillar_block_votes) [
    | none ↦ []
    | some b ↦
        if above_threshold
        then if ltb b.weight p.threshold
          then []
          else take_threshold p.threshold 0 (sort_by_weight b.votes [])
        else all_votes b.votes
  ]
]

unfoldable pub period_data_initialized : ℕ → PillarVotes → Bool
period_data_initialized period s = contains period s

abbrev pub or_no_votes : Option WeightVotes → WeightVotes
or_no_votes none = no_weight_votes
or_no_votes (some b) = b

-- The vote of a new or the same hash, put among the votes for its block.
unfoldable pub add_weight_vote : PillarVote → ℕ → WeightVotes → WeightVotes
add_weight_vote v count b =
    if contains v.hash b.votes
    then b
    else record { votes = put v.hash (v, count) b.votes; weight = (b.weight + count) % u64 }

-- The hash that is entered for the voter: the one that was there, or else the vote's.
abbrev pub or_hash : ℕ → Option ℕ → ℕ
or_hash h none = h
or_hash h (some old) = old

-- The data of a period with the vote in it, for the voter and for its block.
unfoldable pub add_to_period : PillarVote → ℕ → PeriodVotes → PeriodVotes
unfolding add_weight_vote
add_to_period v count p =
    let b = or_no_votes (lookup v.block_hash p.pillar_block_votes) in
    record {
      pillar_block_votes = put v.block_hash (add_weight_vote v count b) p.pillar_block_votes;
      unique_voters = emplace v.voter v.hash p.unique_voters;
      threshold = p.threshold;
    }

unfoldable pub add_verified_vote : PillarVote → ℕ → PillarVotes → Outcome (PillarVotes × Bool)
unfolding add_to_period
add_verified_vote v validator_vote_count s = elim (lookup v.period s) [
  | none ↦ fault
  | some p ↦
      if or_hash v.hash (lookup v.voter p.unique_voters) == v.hash
      then done (put v.period (add_to_period v validator_vote_count p) s, true)
      else done (s, false)
]

unfoldable pub initialize_period_data : ℕ → ℕ → PillarVotes → PillarVotes
initialize_period_data period threshold s =
    emplace period (record { pillar_block_votes = []; unique_voters = []; threshold = threshold }) s

-- `std::erase_if` goes through all entries.
unfoldable pub erase_votes : ℕ → PillarVotes → PillarVotes
erase_votes min_period [] = []
erase_votes min_period ((period, p) ∷ m) =
    let rest = erase_votes min_period m in
    if ltb period min_period then rest else (period, p) ∷ rest
