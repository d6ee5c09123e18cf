-- ===== src/VerifiedVotes/Insert.antt =====
-- insertVotedValue: what it changes and what it reports.
use rustaxa.Common.{
  ℕ, ◌+◌, ◌%◌, ◌≡◌, Bool, ◌&&◌, Option, none, some, arith, ◌==◌, if◌then◌else◌, Option-cases, inl,
  inr, u64,
}
use rustaxa.Common.Outcome.{done}
use rustaxa.Common.Map.{lookup, put, contains, lookup-put}
use rustaxa.Vote.{PbftVote}
use rustaxa.VerifiedVotes.{
  VerifiedVotes, VotesWithWeight, or_new, no_votes, voted_value, store_voted_value,
  insert_voted_value,
}
use rustaxa.VerifiedVotes.Store.{at_step, find_voted, find_vote, find_voted-store_voted_value}

-- All coordinates of a vote.
abbrev pub at_vote : PbftVote → ℕ → ℕ → ℕ → ℕ → ℕ → Bool
at_vote v period round step block hash =
    (at_step v period round step && v.block_hash == block) && v.hash == hash

pub voted_value_lem :
    (v : PbftVote) (s : VerifiedVotes)
    → voted_value v s ≡ or_new no_votes (find_voted v.period v.round v.step v.block_hash s)
unfolding voted_value find_voted lookup
voted_value_lem v s = ground arith

-- The voted value with a new vote in it.
abbrev pub add_vote : PbftVote → ℕ → VotesWithWeight → VotesWithWeight
add_vote v w voted = record { weight = (voted.weight + w) % u64; votes = put v.hash v voted.votes }

-- What a call that returns did: nothing was new, or the vote was added with its weight.
pub data Inserted (v : PbftVote) (s s' : VerifiedVotes) (r : Option VotesWithWeight) : Type 0 where
  known :
      (old : PbftVote)
      → lookup v.hash (voted_value v s).votes ≡ some old
      → s' ≡ store_voted_value v (voted_value v s) s
      → r ≡ none
      → Inserted v s s' r
  added :
      (w : ℕ)
      → lookup v.hash (voted_value v s).votes ≡ none
      → v.weight ≡ some w
      → s' ≡ store_voted_value v (add_vote v w (voted_value v s)) s
      → r ≡ some (add_vote v w (voted_value v s))
      → Inserted v s s' r

pub insert_voted_value-Inserted :
    (v : PbftVote) (s : VerifiedVotes) {s' : VerifiedVotes} {r : Option VotesWithWeight}
    → insert_voted_value v s ≡ done (s', r)
    → Inserted v s s' r
unfolding insert_voted_value contains
insert_voted_value-Inserted v s h = elim (Option-cases (lookup v.hash (voted_value v s).votes)) [
  | inr (old, e) ↦ known old e (ground arith) (ground arith)
  | inl e ↦ elim (Option-cases v.weight) [
    | inl none_given ↦ absurd (ground arith)
    | inr (w, given) ↦ added w e given (ground arith) (ground arith)
  ]
]

find_vote-store_voted_value :
    (v : PbftVote) (voted : VotesWithWeight) (s : VerifiedVotes) (period round step block hash : ℕ)
    → find_vote period round step block hash (store_voted_value v voted s) ≡ (
        if at_step v period round step && v.block_hash == block
        then lookup hash voted.votes
        else find_vote period round step block hash s)
unfolding find_vote
find_vote-store_voted_value v voted s period round step block hash =
    ground (arith, find_voted-store_voted_value v voted s period round step block)

-- A vote is looked for in its own voted value.
lookup-voted_value :
    (v : PbftVote) (s : VerifiedVotes) (hash : ℕ)
    → lookup hash (voted_value v s).votes ≡ find_vote v.period v.round v.step v.block_hash hash s
unfolding find_vote lookup
lookup-voted_value v s hash = ground (arith, voted_value_lem v s)

-- If the call returns, the vote is stored under its coordinates unless a vote with its hash is there, and what is found
-- under any other coordinates stays.
pub find_vote-insert_voted_value :
    (v : PbftVote) (s : VerifiedVotes) {s' : VerifiedVotes} {r : Option VotesWithWeight}
    → insert_voted_value v s ≡ done (s', r)
    → (period round step block hash : ℕ)
    → find_vote period round step block hash s' ≡ (
        if at_vote v period round step block hash
        then some (or_new v (find_vote period round step block hash s))
        else find_vote period round step block hash s)
find_vote-insert_voted_value v s {s'} h period round step block hash =
    elim (insert_voted_value-Inserted v s h) [
      | known old e to _ ↦ rw to (
          ground (
            arith,
            find_vote-store_voted_value v (voted_value v s) s period round step block hash,
            lookup-voted_value v s hash,
          ))
      | added w e _ to _ ↦ rw to (
          ground (
            arith,
            find_vote-store_voted_value v (add_vote v w (voted_value v s)) s period round step block
                hash,
            lookup-voted_value v s hash,
            lookup-put v.hash hash v (voted_value v s).votes,
          ))
    ]

-- What the caller is handed, for the vote found before and the voted value found after.
abbrev pub reported : Option PbftVote → Option VotesWithWeight → Option VotesWithWeight
reported none stored = stored
reported (some _) stored = none

-- The caller is handed the stored voted value if the vote is new, and nothing if it was known.
pub insert_voted_value_result :
    (v : PbftVote) (s : VerifiedVotes) {s' : VerifiedVotes} {r : Option VotesWithWeight}
    → insert_voted_value v s ≡ done (s', r)
    → r
      ≡ reported
          (find_vote v.period v.round v.step v.block_hash v.hash s)
          (find_voted v.period v.round v.step v.block_hash s')
insert_voted_value_result v s {s'} {r} h = elim (insert_voted_value-Inserted v s h) [
  | known old e to result ↦ rw result (ground (arith, lookup-voted_value v s v.hash))
  | added w e _ to result ↦
      rw (result, to)
        (ground (
          arith,
          lookup-voted_value v s v.hash,
          find_voted-store_voted_value v (add_vote v w (voted_value v s)) s v.period v.round v.step
              v.block_hash,
        ))
]
