-- ===== src/PillarVotes/Add.antt =====
-- addVerifiedVote against isUniqueVote and voteExists.
use rustaxa.Common.{
  ℕ, ◌≡◌, refl, inl, inr, Bool, true, false, ◌||◌, none, some, arith, ◌==◌, Bool-cases,
  Option-cases,
}
use rustaxa.Common.Outcome.{done}
use rustaxa.Common.Map.{lookup, contains, put}
use rustaxa.PillarVotes.{
  PillarVote, PeriodVotes, PillarVotes, add_verified_vote, add_to_period, vote_exists,
  is_unique_vote,
}
use rustaxa.PillarVotes.Unique.{
  find_vote, find_block, add_verified_vote-Added, refused, accepted, find_vote-accepted,
}

vote_exists-find_vote :
    (v : PillarVote) (s : PillarVotes)
    → vote_exists v s
      ≡ (elim (find_vote v.period v.block_hash v.hash s) [ none ↦ false | some _ ↦ true ])
unfolding vote_exists find_vote find_block contains
vote_exists-find_vote v s = elim (Option-cases (lookup v.period s)) [
  | inl e ↦ ground arith
  | inr (p, e) ↦ ground arith
]

add_verified_vote_gives :
    (v : PillarVote) (count : ℕ) (s : PillarVotes) (p : PeriodVotes)
    → lookup v.period s ≡ some p
    → (s' : PillarVotes) × (add_verified_vote v count s ≡ done (s', is_unique_vote v s))
unfolding add_verified_vote is_unique_vote
add_verified_vote_gives v count s p e = elim (Option-cases (lookup v.voter p.unique_voters)) [
  | inl f ↦ (put v.period (add_to_period v count p) s, ground arith)
  | inr (old, f) ↦ elim (Bool-cases (old == v.hash)) [
    | inl g ↦ (put v.period (add_to_period v count p) s, ground arith)
    | inr g ↦ (s, ground arith)
  ]
]

add_verified_vote_exists :
    (v : PillarVote) (count : ℕ) (s : PillarVotes) {s' : PillarVotes} {b : Bool}
    → add_verified_vote v count s ≡ done (s', b)
    → vote_exists v s' ≡ (b || vote_exists v s)
add_verified_vote_exists v count s {s'} h = elim (add_verified_vote-Added v count s h) [
  | refused _ _ _ to r ↦ rw (to, r) refl
  | accepted _ r _ blocks ↦ ground (
    arith,
    vote_exists-find_vote v s,
    vote_exists-find_vote v s',
    find_vote-accepted v count s s' blocks v.period v.block_hash v.hash,
  )
]

-- Once the data of its period is there, adding a vote never fails its assertion: it succeeds exactly
-- if the vote is unique, and afterwards the vote exists if it was added or existed before.
pub add_verified_vote-is_unique_vote :
    (v : PillarVote) (count : ℕ) (s : PillarVotes) (p : PeriodVotes)
    → lookup v.period s ≡ some p
    → (s' : PillarVotes) × (add_verified_vote v count s ≡ done (s', is_unique_vote v s))
      × (vote_exists v s' ≡ (is_unique_vote v s || vote_exists v s))
add_verified_vote-is_unique_vote v count s p e =
    let (s', h) = add_verified_vote_gives v count s p e in
    (s', h, add_verified_vote_exists v count s h)
