-- ===== src/PillarVotes/Reach.antt =====
-- The states of PillarVotes that its calls lead to.
use rustaxa.Common.{
  ℕ, ◌%◌, ◌≡◌, ◌⊎◌, inl, inr, none, some, [], ◌∷◌, arith, ltb, ◌==◌, if◌then◌else◌, Bool-cases,
  Option-cases, u64,
}
use rustaxa.Common.Map.{lookup, emplace, lookup-put}
use rustaxa.PillarVotes.{
  PillarVote, PeriodVotes, PillarVotes, WeightVotes, initialize_period_data, erase_votes,
}
use rustaxa.PillarVotes.Accept.{Added-filed, Added-weighed}
use rustaxa.PillarVotes.Unique.{
  weigh, IsSound, Step, add, init, erase, Reach, start, next, find_block, find_vote, find_voter,
  add_verified_vote-Added,
}

-- In each period the data is as before, or has no votes.
abbrev Within : PillarVotes → PillarVotes → Type 0
Within s s' =
    (period : ℕ)
    → (lookup period s' ≡ lookup period s) ⊎ ((block : ℕ) → find_block period block s' ≡ none)

Within-IsSound : (s s' : PillarVotes) → Within s s' → IsSound s → IsSound s'
unfolding find_vote find_block find_voter
Within-IsSound s s' h i = record {
  filed = λ period block hash v count e. elim (h period) [
    | inl same ↦
        let old = i.filed period block hash v count (ground arith) in
        record {
          period_eq = old.period_eq;
          block_eq = old.block_eq;
          hash_eq = old.hash_eq;
          voter_eq = ground (arith, old.voter_eq);
        }
    | inr gone ↦ absurd (ground (arith, gone block))
  ];
  weighed = λ period block b e. elim (h period) [
    | inl same ↦ i.weighed period block b (ground arith)
    | inr gone ↦ absurd (ground (arith, gone block))
  ];
}

-- Erasing keeps exactly the periods from the bound on.
pub lookup-erase_votes :
    (bound period : ℕ) (s : PillarVotes)
    → lookup period (erase_votes bound s) ≡ (if ltb period bound then none else lookup period s)
unfolding lookup erase_votes
lookup-erase_votes bound period [] = ground arith
lookup-erase_votes bound period ((k, p) ∷ m) = ground (arith, lookup-erase_votes bound period m)

erase-Within : (bound : ℕ) (s : PillarVotes) → Within s (erase_votes bound s)
unfolding find_block
erase-Within bound s period = elim (Bool-cases (ltb period bound)) [
  | inl e ↦ inr (λ block. ground (arith, lookup-erase_votes bound period s))
  | inr e ↦ inl (ground (arith, lookup-erase_votes bound period s))
]

init-Within : (p threshold : ℕ) (s : PillarVotes) → Within s (initialize_period_data p threshold s)
unfolding find_block initialize_period_data emplace lookup
init-Within p threshold s period =
    let new : PeriodVotes = record {
      pillar_block_votes = [];
      unique_voters = [];
      threshold = threshold;
    } in
    elim (Option-cases (lookup p s)) [
      | inr (old, e) ↦ inl (ground arith)
      | inl e ↦ elim (Bool-cases (p == period)) [
        | inl f ↦ inr (λ block. ground (arith, lookup-put p period new s))
        | inr f ↦ inl (ground (arith, lookup-put p period new s))
      ]
    ]

Step-IsSound : {s s' : PillarVotes} → Step s s' → IsSound s → IsSound s'
Step-IsSound (add {s} {s'} v count e) i =
    let a = add_verified_vote-Added v count s e in
    record { filed = Added-filed v count s s' a i; weighed = Added-weighed v count s s' a i }
Step-IsSound (init {s} period threshold) i =
    Within-IsSound s (initialize_period_data period threshold s) (init-Within period threshold s) i
Step-IsSound (erase {s} bound) i = Within-IsSound s (erase_votes bound s) (erase-Within bound s) i

start-IsSound : IsSound []
unfolding find_vote find_block
start-IsSound = record {
  filed = λ period block hash v count e. absurd (ground arith);
  weighed = λ period block b e. absurd (ground arith);
}

pub Reach-IsSound : {s : PillarVotes} → Reach s → IsSound s
Reach-IsSound start = start-IsSound
Reach-IsSound (next r st) = Step-IsSound st (Reach-IsSound r)

-- In every state that calls lead to, the accumulated weight of a pillar block is the sum of the
-- weights of its votes, modulo 2^64.
pub weight-Reach :
    {s : PillarVotes} (period block : ℕ) (b : WeightVotes)
    → Reach s
    → find_block period block s ≡ some b
    → b.weight ≡ weigh b.votes % u64
weight-Reach period block b r e = (Reach-IsSound r).weighed period block b e

-- In every state that calls lead to, two votes of one voter in one period, for one pillar block or for
-- two, have the same hash.
pub one_vote-Reach :
    {s : PillarVotes} (period block hash block' hash' : ℕ) (v v' : PillarVote) (count count' : ℕ)
    → Reach s
    → find_vote period block hash s ≡ some (v, count)
    → find_vote period block' hash' s ≡ some (v', count')
    → v.voter ≡ v'.voter
    → hash ≡ hash'
one_vote-Reach {s} period block hash block' hash' v v' count count' r e e' same =
    let i = (Reach-IsSound r).filed period block hash v count e in
    let i' = (Reach-IsSound r).filed period block' hash' v' count' e' in
    let eq : find_voter period v.voter s ≡ some hash' = rw same i'.voter_eq in
    ground (arith, i.voter_eq)
