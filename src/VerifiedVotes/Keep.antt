-- ===== src/VerifiedVotes/Keep.antt =====
-- What each writing method leaves as it was.
use rustaxa.Common.{ℕ, ◌≡◌, refl, ◌⊎◌, inl, inr, some, [], arith, Option-cases}
use rustaxa.Common.Map.{emplace, Map, lookup, put, lookup-put}
use rustaxa.Common.Map.Sorted.{IsSorted, put-From}
use rustaxa.Vote.{PbftVote}
use rustaxa.VerifiedVotes.{
  type_code, VotedBlock, RoundVerifiedVotes, new_step, store_step, get_step_votes,
  store_voted_value, get_two_t_plus_one_voted_block, VerifiedVotes, VotesWithWeight, StepVotes,
  TwoTPlusOneVotedBlockType, or_new, new_round, set_network_t_plus_one_step,
  insert_two_t_plus_one_voted_block, insert_unique_voter,
}
use rustaxa.VerifiedVotes.Store.{find_voted, get_step_votes-store_step}
use rustaxa.VerifiedVotes.Voters.{insert_unique_voter-Checked, no_step, kept, entered, find_voter}

-- The 2t+1 blocks do not depend on the votes of the steps.
pub get_two_t_plus_one-store_step :
    (v : PbftVote) (e : StepVotes) (s : VerifiedVotes) (period round : ℕ)
    (type : TwoTPlusOneVotedBlockType)
    → get_two_t_plus_one_voted_block period round type (store_step v e s)
      ≡ get_two_t_plus_one_voted_block period round type s
unfolding get_two_t_plus_one_voted_block store_step lookup
get_two_t_plus_one-store_step v e s period round type =
    let rounds = or_new [] (lookup v.period s) in
    let r = or_new new_round (lookup v.round rounds) in
    let r' : RoundVerifiedVotes = record r { step_votes = put v.step e r.step_votes } in
    ground (
      arith,
      lookup-put v.period period (put v.round r' rounds) s,
      lookup-put v.round round r' rounds,
    )

pub get_two_t_plus_one-set_network_t_plus_one_step :
    (v : PbftVote) (s : VerifiedVotes) (period round : ℕ) (type : TwoTPlusOneVotedBlockType)
    → get_two_t_plus_one_voted_block period round type (set_network_t_plus_one_step v s)
      ≡ get_two_t_plus_one_voted_block period round type s
unfolding get_two_t_plus_one_voted_block set_network_t_plus_one_step
get_two_t_plus_one-set_network_t_plus_one_step v s period round type =
    elim (Option-cases (lookup v.period s)) [
      | inl e ↦ ground arith
      | inr (rounds, e) ↦ elim (Option-cases (lookup v.round rounds)) [
        | inl f ↦ ground arith
        | inr (r, f) ↦
            let r' : RoundVerifiedVotes = record r { network_t_plus_one_step = v.step } in
            ground (
              arith,
              lookup-put v.period period (put v.round r' rounds) s,
              lookup-put v.round round r' rounds,
            )
      ]
    ]

-- A voter's entry does not change the votes.
find_voted-enter :
    (v : PbftVote) (step e : StepVotes) (s : VerifiedVotes)
    → get_step_votes v.period v.round v.step s ≡ some step
    → e.votes ≡ step.votes
    → (period round st block : ℕ)
    → find_voted period round st block (store_step v e s) ≡ find_voted period round st block s
unfolding find_voted
find_voted-enter v step e s h same period round st block =
    ground (arith, get_step_votes-store_step v e s period round st)

pub find_voted-insert_unique_voter :
    (v : PbftVote) (s : VerifiedVotes) (period round step block : ℕ)
    → find_voted period round step block (insert_unique_voter v s).0
      ≡ find_voted period round step block s
find_voted-insert_unique_voter v s period round step block =
    elim (insert_unique_voter-Checked v s) [
      | no_step _ e _ ↦ rw e
      | kept _ _ _ _ e ↦ rw e
      | entered st e h _ to _ ↦ rw to (find_voted-enter v st _ s h refl period round step block)
    ]

pub get_two_t_plus_one-insert_unique_voter :
    (v : PbftVote) (s : VerifiedVotes) (period round : ℕ) (type : TwoTPlusOneVotedBlockType)
    → get_two_t_plus_one_voted_block period round type (insert_unique_voter v s).0
      ≡ get_two_t_plus_one_voted_block period round type s
get_two_t_plus_one-insert_unique_voter v s period round type =
    elim (insert_unique_voter-Checked v s) [
      | no_step _ e _ ↦ rw e
      | kept _ _ _ _ e ↦ rw e
      | entered st e h _ to _ ↦ rw to (get_two_t_plus_one-store_step v _ s period round type)
    ]

-- A voted value leaves the entries of the voters.
pub find_voter-store_voted_value :
    (v : PbftVote) (voted : VotesWithWeight) (s : VerifiedVotes) (period round step voter : ℕ)
    → find_voter period round step voter (store_voted_value v voted s)
      ≡ find_voter period round step voter s
unfolding find_voter store_voted_value lookup
find_voter-store_voted_value v voted s period round step voter =
    let e = or_new new_step (get_step_votes v.period v.round v.step s) in
    let e' : StepVotes = record e { votes = put v.block_hash voted e.votes } in
    ground (arith, get_step_votes-store_step v e' s period round step)

-- The periods stay in order.
pub store_step-IsSorted :
    (v : PbftVote) (e : StepVotes) (s : VerifiedVotes) → IsSorted s → IsSorted (store_step v e s)
unfolding store_step
store_step-IsSorted v e s h = put-From 0 v.period _ s (omega arith) h

pub insert_unique_voter-IsSorted :
    (v : PbftVote) (s : VerifiedVotes) → IsSorted s → IsSorted (insert_unique_voter v s).0
insert_unique_voter-IsSorted v s h = elim (insert_unique_voter-Checked v s) [
  | no_step _ e _ ↦ rw e h
  | kept _ _ _ _ e ↦ rw e h
  | entered st e _ _ to _ ↦ rw to (store_step-IsSorted v _ s h)
]

-- The state is as it was, or the entry of the vote's period is replaced.
abbrev pub Puts : PbftVote → VerifiedVotes → VerifiedVotes → Type 0
Puts v s s' = (s' ≡ s) ⊎ ((rounds : Map RoundVerifiedVotes) × (s' ≡ put v.period rounds s))

Puts-IsSorted :
    (v : PbftVote) (s : VerifiedVotes) {s' : VerifiedVotes} → Puts v s s' → IsSorted s → IsSorted s'
Puts-IsSorted v s (inl e) h = rw e h
Puts-IsSorted v s (inr (rounds, e)) h = rw e (put-From 0 v.period rounds s (omega arith) h)

set_network_t_plus_one_step-Puts :
    (v : PbftVote) (s : VerifiedVotes) → Puts v s (set_network_t_plus_one_step v s)
unfolding set_network_t_plus_one_step
set_network_t_plus_one_step-Puts v s = elim (Option-cases (lookup v.period s)) [
  | inl e ↦ inl (ground arith)
  | inr (rounds, e) ↦ elim (Option-cases (lookup v.round rounds)) [
    | inl f ↦ inl (ground arith)
    | inr (r, f) ↦
        inr (put v.round (record r { network_t_plus_one_step = v.step }) rounds, ground arith)
  ]
]

insert_two_t_plus_one_voted_block-Puts :
    (type : TwoTPlusOneVotedBlockType) (v : PbftVote) (s : VerifiedVotes)
    → Puts v s (insert_two_t_plus_one_voted_block type v s)
unfolding insert_two_t_plus_one_voted_block
insert_two_t_plus_one_voted_block-Puts type v s = elim (Option-cases (lookup v.period s)) [
  | inl e ↦ inl (ground arith)
  | inr (rounds, e) ↦ elim (Option-cases (lookup v.round rounds)) [
    | inl f ↦ inl (ground arith)
    | inr (r, f) ↦
        let b : VotedBlock = record { hash = v.block_hash; step = v.step } in
        let bs = emplace (type_code type) b r.two_t_plus_one_voted_blocks in
        inr (put v.round (record r { two_t_plus_one_voted_blocks = bs }) rounds, ground arith)
  ]
]

pub set_network_t_plus_one_step-IsSorted :
    (v : PbftVote) (s : VerifiedVotes) → IsSorted s → IsSorted (set_network_t_plus_one_step v s)
set_network_t_plus_one_step-IsSorted v s = Puts-IsSorted v s (set_network_t_plus_one_step-Puts v s)

pub insert_two_t_plus_one_voted_block-IsSorted :
    (type : TwoTPlusOneVotedBlockType) (v : PbftVote) (s : VerifiedVotes)
    → IsSorted s
    → IsSorted (insert_two_t_plus_one_voted_block type v s)
insert_two_t_plus_one_voted_block-IsSorted type v s =
    Puts-IsSorted v s (insert_two_t_plus_one_voted_block-Puts type v s)
