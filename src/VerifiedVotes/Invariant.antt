-- ===== src/VerifiedVotes/Invariant.antt =====
-- VerifiedVotes::insertVotedValue: under what a vote is filed, and the weights.
use rustaxa.Common.{
  ℕ, ◌+◌, ◌%◌, ◌≡◌, refl, Option, none, some, [], ◌∷◌, arith, u64, Option-cases, inl, inr,
}
use rustaxa.Common.Outcome.{done}
use rustaxa.Common.Map.{Map, lookup, put}
use rustaxa.Vote.{PbftVote}
use rustaxa.VerifiedVotes.{
  VerifiedVotes, VotesWithWeight, or_new, voted_value, store_voted_value, insert_voted_value,
}
use rustaxa.VerifiedVotes.Store.{find_voted, find_vote, find_voted-store_voted_value}
use rustaxa.VerifiedVotes.Insert.{
  add_vote, known, added, insert_voted_value-Inserted, voted_value_lem,
  find_vote-insert_voted_value,
}

-- The sum of the weights of some votes, with none for a vote that has no weight.
abbrev pub weigh : Map PbftVote → ℕ
weigh [] = 0
weigh ((_, v) ∷ m) = or_new 0 v.weight + weigh m

-- A vote filed under these coordinates is the vote that they belong to.
pub record IsAt (v : PbftVote) (period round step block hash : ℕ) : Type 0 where
  pub period_eq : v.period ≡ period
  pub round_eq : v.round ≡ round
  pub step_eq : v.step ≡ step
  pub block_eq : v.block_hash ≡ block
  pub hash_eq : v.hash ≡ hash

abbrev pub IsWeighed : VotesWithWeight → Type 0
IsWeighed voted = voted.weight ≡ weigh voted.votes % u64

pub record IsFiled (s : VerifiedVotes) : Type 0 where
  pub filed :
      (period round step block hash : ℕ) (v : PbftVote)
      → find_vote period round step block hash s ≡ some v
      → IsAt v period round step block hash
  pub weighed :
      (period round step block : ℕ) (voted : VotesWithWeight)
      → find_voted period round step block s ≡ some voted
      → IsWeighed voted

pub weigh-put :
    (h : ℕ) (v : PbftVote) (m : Map PbftVote)
    → lookup h m ≡ none
    → weigh (put h v m) ≡ or_new 0 v.weight + weigh m
unfolding lookup put
weigh-put h v [] e = refl
weigh-put h v ((j, w) ∷ m) e = ground (arith, weigh-put h v m)

voted_value-IsWeighed : (v : PbftVote) (s : VerifiedVotes) → IsFiled s → IsWeighed (voted_value v s)
voted_value-IsWeighed v s f =
    elim (Option-cases (find_voted v.period v.round v.step v.block_hash s)) [
      | inl e ↦ rw (voted_value_lem v s, e) (omega arith)
      | inr (voted, e) ↦
          rw (voted_value_lem v s, e) (f.weighed v.period v.round v.step v.block_hash voted e)
    ]

add_vote-IsWeighed :
    (v : PbftVote) (w : ℕ) (voted : VotesWithWeight)
    → v.weight ≡ some w
    → lookup v.hash voted.votes ≡ none
    → IsWeighed voted
    → IsWeighed (add_vote v w voted)
add_vote-IsWeighed v w voted given e h = ground (arith, weigh-put v.hash v voted.votes e)

store_voted_value-IsWeighed :
    (v : PbftVote) (voted : VotesWithWeight) (s : VerifiedVotes)
    → IsWeighed voted
    → IsFiled s
    → (period round step block : ℕ) (voted' : VotesWithWeight)
    → find_voted period round step block (store_voted_value v voted s) ≡ some voted'
    → IsWeighed voted'
store_voted_value-IsWeighed v voted s h f period round step block voted' e = ground (
  arith,
  find_voted-store_voted_value v voted s period round step block,
  f.weighed period round step block voted',
)

insert_voted_value-filed :
    (v : PbftVote) (s : VerifiedVotes) {s' : VerifiedVotes} {r : Option VotesWithWeight}
    → insert_voted_value v s ≡ done (s', r)
    → IsFiled s
    → (period round step block hash : ℕ) (u : PbftVote)
    → find_vote period round step block hash s' ≡ some u
    → IsAt u period round step block hash
insert_voted_value-filed v s h f period round step block hash u e = ground (
  arith,
  find_vote-insert_voted_value v s h period round step block hash,
  f.filed period round step block hash u,
)

-- Inserting a voted value keeps every vote under its own period, round, step, block and hash, and
-- every weight equal to the sum of the weights of its votes, modulo 2^64.
pub insert_voted_value-IsFiled :
    (v : PbftVote) (s : VerifiedVotes) {s' : VerifiedVotes} {r : Option VotesWithWeight}
    → insert_voted_value v s ≡ done (s', r)
    → IsFiled s
    → IsFiled s'
insert_voted_value-IsFiled v s {s'} h f = record {
  filed = insert_voted_value-filed v s h f;
  weighed = elim (insert_voted_value-Inserted v s h) [
    | known old e to _ ↦
        rw to (store_voted_value-IsWeighed v (voted_value v s) s (voted_value-IsWeighed v s f) f)
    | added w e given to _ ↦ rw to (
        store_voted_value-IsWeighed v (add_vote v w (voted_value v s)) s
          (add_vote-IsWeighed v w (voted_value v s) given e (voted_value-IsWeighed v s f)) f)
  ];
}
