-- ===== src/PillarVotes/Unique.antt =====
-- PillarVotes: the invariant, the calls as steps, and what addVerifiedVote changes.
use rustaxa.Common.{
  ℕ, ◌+◌, ◌%◌, ◌≡◌, refl, ◌∙◌, ◌≢◌, inl, inr, Bool, true, false, ◌&&◌, Option, none, some, [], ◌∷◌,
  arith, ◌==◌, if◌then◌else◌, Bool-cases, Option-cases, u64,
}
use rustaxa.Common.Outcome.{done}
use rustaxa.Common.Map.{Map, lookup, contains, put, emplace, lookup-put}
use rustaxa.PillarVotes.{
  add_to_period, PillarVote, PeriodVotes, PillarVotes, WeightVotes, add_verified_vote,
  initialize_period_data, erase_votes, add_weight_vote, or_no_votes, or_hash,
}

-- The votes for a block, the vote with a hash, and the hash that is entered for a voter.
unfoldable pub find_block : ℕ → ℕ → PillarVotes → Option WeightVotes
unfolding lookup
find_block period block s = elim (lookup period s) [
  | none ↦ none
  | some p ↦ lookup block p.pillar_block_votes
]

unfoldable pub find_vote : ℕ → ℕ → ℕ → PillarVotes → Option (PillarVote × ℕ)
unfolding find_block
find_vote period block hash s = elim (find_block period block s) [
  | none ↦ none
  | some b ↦ lookup hash b.votes
]

unfoldable pub find_voter : ℕ → ℕ → PillarVotes → Option ℕ
unfolding lookup
find_voter period voter s = elim (lookup period s) [
  | none ↦ none
  | some p ↦ lookup voter p.unique_voters
]

-- The sum of the weights of all votes.
abbrev pub weigh : Map (PillarVote × ℕ) → ℕ
weigh [] = 0
weigh ((_, x) ∷ m) = x.1 + weigh m

pub weigh-put :
    (h : ℕ) (x : PillarVote × ℕ) (m : Map (PillarVote × ℕ))
    → lookup h m ≡ none
    → weigh (put h x m) ≡ x.1 + weigh m
unfolding lookup put
weigh-put h x [] e = refl
weigh-put h x ((j, y) ∷ m) e = ground (arith, weigh-put h x m)

-- A vote stands under its period, block and hash, and its hash is the one entered for its voter.
pub record IsAt (v : PillarVote) (period block hash : ℕ) (s : PillarVotes) : Type 0 where
  pub period_eq : v.period ≡ period
  pub block_eq : v.block_hash ≡ block
  pub hash_eq : v.hash ≡ hash
  pub voter_eq : find_voter period v.voter s ≡ some hash

pub record IsSound (s : PillarVotes) : Type 0 where
  pub filed :
      (period block hash : ℕ) (v : PillarVote) (count : ℕ)
      → find_vote period block hash s ≡ some (v, count)
      → IsAt v period block hash s
  pub weighed :
      (period block : ℕ) (b : WeightVotes)
      → find_block period block s ≡ some b
      → b.weight ≡ weigh b.votes % u64

-- The calls that write.
pub data Step : PillarVotes → PillarVotes → Type 0 where
  add :
      {s s' : PillarVotes} {b : Bool} (v : PillarVote) (count : ℕ)
      → add_verified_vote v count s ≡ done (s', b)
      → Step s s'
  init :
      {s : PillarVotes} (period threshold : ℕ) → Step s (initialize_period_data period threshold s)
  erase : {s : PillarVotes} (min_period : ℕ) → Step s (erase_votes min_period s)

pub data Reach : PillarVotes → Type 0 where
  start : Reach []
  next : {s s' : PillarVotes} → Reach s → Step s s' → Reach s'

-- What a call of addVerifiedVote that returns has done.
pub data Added (v : PillarVote) (count : ℕ) (s s' : PillarVotes) (b : Bool) : Type 0 where
  refused :
      (hash : ℕ)
      → find_voter v.period v.voter s ≡ some hash
      → hash ≢ v.hash
      → s' ≡ s
      → b ≡ false
      → Added v count s s' b
  accepted :
      or_hash v.hash (find_voter v.period v.voter s) ≡ v.hash
      → b ≡ true
      → ((period voter : ℕ)
          → find_voter period voter s' ≡ (
              if period == v.period && voter == v.voter
              then some v.hash
              else find_voter period voter s))
      → ((period block : ℕ)
          → find_block period block s' ≡ (
              if period == v.period && block == v.block_hash
              then some (add_weight_vote v count (or_no_votes (find_block v.period v.block_hash s)))
              else find_block period block s))
      → Added v count s s' b

put-find_voter :
    (v : PillarVote) (p q : PeriodVotes) (s : PillarVotes)
    → lookup v.period s ≡ some p
    → q.unique_voters ≡ emplace v.voter v.hash p.unique_voters
    → or_hash v.hash (lookup v.voter p.unique_voters) ≡ v.hash
    → (period voter : ℕ)
    → find_voter period voter (put v.period q s)
      ≡ (if period == v.period && voter == v.voter then some v.hash else find_voter period voter s)
unfolding find_voter emplace
put-find_voter v p q s e f same period voter =
    elim (Option-cases (lookup v.voter p.unique_voters)) [
      | inl g ↦
          ground
            (arith, lookup-put v.period period q s, lookup-put v.voter voter v.hash p.unique_voters)
      | inr (old, g) ↦ ground (arith, lookup-put v.period period q s)
    ]

put-find_block :
    (v : PillarVote) (b : WeightVotes) (p q : PeriodVotes) (s : PillarVotes)
    → lookup v.period s ≡ some p
    → q.pillar_block_votes ≡ put v.block_hash b p.pillar_block_votes
    → (period block : ℕ)
    → find_block period block (put v.period q s)
      ≡ (if period == v.period && block == v.block_hash then some b else find_block period block s)
unfolding find_block
put-find_block v b p q s e f period block =
    ground
      (arith, lookup-put v.period period q s, lookup-put v.block_hash block b p.pillar_block_votes)

pub add_verified_vote-Added :
    (v : PillarVote) (count : ℕ) (s : PillarVotes) {s' : PillarVotes} {b : Bool}
    → add_verified_vote v count s ≡ done (s', b)
    → Added v count s s' b
unfolding add_verified_vote add_to_period find_voter find_block
add_verified_vote-Added v count s {s'} {b} h = elim (Option-cases (lookup v.period s)) [
  | inl e ↦ absurd (ground arith)
  | inr (p, e) ↦
      let fv : find_voter v.period v.voter s ≡ lookup v.voter p.unique_voters = ground arith in
      let fb : find_block v.period v.block_hash s ≡ lookup v.block_hash p.pillar_block_votes =
        ground arith in
      elim (Bool-cases (or_hash v.hash (lookup v.voter p.unique_voters) == v.hash)) [
        | inl f ↦
            let to : s' ≡ put v.period (add_to_period v count p) s = ground arith in
            let same : or_hash v.hash (lookup v.voter p.unique_voters) ≡ v.hash = ground arith in
            let w =
              add_weight_vote v count (or_no_votes (lookup v.block_hash p.pillar_block_votes)) in
            accepted (rw fv same) (ground arith)
              (rw to (put-find_voter v p (add_to_period v count p) s e refl same))
              (rw (to, fb) (put-find_block v w p (add_to_period v count p) s e refl))
        | inr f ↦ elim (Option-cases (lookup v.voter p.unique_voters)) [
          | inl g ↦ absurd (ground arith)
          | inr (old, g) ↦ refused old (fv ∙ g) (ground arith) (ground arith) (ground arith)
        ]
      ]
]

-- The votes after a vote was accepted.
pub find_vote-accepted :
    (v : PillarVote) (count : ℕ) (s s' : PillarVotes)
    → ((period block : ℕ)
        → find_block period block s' ≡ (
            if period == v.period && block == v.block_hash
            then some (add_weight_vote v count (or_no_votes (find_block v.period v.block_hash s)))
            else find_block period block s))
    → (period block hash : ℕ)
    → find_vote period block hash s' ≡ (
        if period == v.period && (block == v.block_hash && hash == v.hash)
        then (elim (find_vote period block hash s) as (λ _. Option (PillarVote × ℕ)) [
          | none ↦ some (v, count)
          | some old ↦ some old
        ])
        else find_vote period block hash s)
unfolding find_vote add_weight_vote contains
find_vote-accepted v count s s' h period block hash =
    elim (Option-cases (find_block v.period v.block_hash s)) [
      | inl e ↦
          ground (arith, h period block, lookup-put {V = PillarVote × ℕ} v.hash hash (v, count) [])
      | inr (b, e) ↦ elim (Option-cases (lookup v.hash b.votes)) [
        | inl f ↦
            ground (
              arith,
              h period block,
              lookup-put {V = PillarVote × ℕ} v.hash hash (v, count) b.votes,
            )
        | inr (old, f) ↦ ground (arith, h period block)
      ]
    ]
