-- ===== src/VerifiedVotes/Rounds.antt =====
-- VerifiedVotes: the order of the rounds of a period.
use rustaxa.Common.{
  ℕ, ◌≡◌, refl, subst, ◌⊎◌, inl, inr, some, [], arith, ◌==◌, Bool-cases, Option-cases,
}
use rustaxa.Common.Map.{emplace, Map, lookup, put, lookup-put}
use rustaxa.Common.Map.Sorted.{IsSorted, put-From, lookup-drop_below}
use rustaxa.Vote.{PbftVote}
use rustaxa.VerifiedVotes.{
  get_period_votes, VerifiedVotes, RoundVerifiedVotes, StepVotes, TwoTPlusOneVotedBlockType,
  type_code, or_new, new_step, store_step, store_voted_value, get_step_votes, insert_unique_voter,
  set_network_t_plus_one_step, insert_two_t_plus_one_voted_block, cleanup_votes_by_period,
}
use rustaxa.VerifiedVotes.Voters.{insert_unique_voter-Checked, no_step, kept, entered}
use rustaxa.VerifiedVotes.Reach.{
  Step, voter, value, network, block, cleanup, Reach, start, next, Reach-IsSound,
}
use rustaxa.VerifiedVotes.Within.{insert_voted_value-stores}

abbrev pub HasSortedRounds : VerifiedVotes → Type 0
HasSortedRounds s =
    (period : ℕ) (rounds : Map RoundVerifiedVotes) → lookup period s ≡ some rounds → IsSorted rounds

-- The state is as it was, or the round of the vote is replaced.
abbrev PutsRound : PbftVote → VerifiedVotes → VerifiedVotes → Type 0
PutsRound v s s' =
    (s' ≡ s)
    ⊎ ((r : RoundVerifiedVotes) × (s'
          ≡ put v.period (put v.round r (or_new [] (lookup v.period s))) s))

put_round-HasSortedRounds :
    (v : PbftVote) (r : RoundVerifiedVotes) (s : VerifiedVotes)
    → HasSortedRounds s
    → HasSortedRounds (put v.period (put v.round r (or_new [] (lookup v.period s))) s)
put_round-HasSortedRounds v r s h period rounds e =
    let old = or_new [] (lookup v.period s) in
    let old_sorted : IsSorted old = elim (Option-cases (lookup v.period s)) [
      | inl f ↦ rw f tt
      | inr (m, f) ↦ rw f (h v.period m f)
    ] in
    elim (Bool-cases (v.period == period)) [
      | inl f ↦
          let eq : put v.round r old ≡ rounds =
            ground (arith, lookup-put v.period period (put v.round r old) s) in
          subst (λ m. IsSorted m) eq (put-From 0 v.round r old (omega arith) old_sorted)
      | inr f ↦ h period rounds (ground (arith, lookup-put v.period period (put v.round r old) s))
    ]

PutsRound-HasSortedRounds :
    (v : PbftVote) (s s' : VerifiedVotes)
    → PutsRound v s s'
    → HasSortedRounds s
    → HasSortedRounds s'
PutsRound-HasSortedRounds v s s' (inl e) h = rw e h
PutsRound-HasSortedRounds v s s' (inr (r, e)) h = rw e (put_round-HasSortedRounds v r s h)

store_step-PutsRound :
    (v : PbftVote) (e : StepVotes) (s : VerifiedVotes) → PutsRound v s (store_step v e s)
unfolding store_step
store_step-PutsRound v e s = inr (_, refl)

network-PutsRound :
    (v : PbftVote) (s : VerifiedVotes) → PutsRound v s (set_network_t_plus_one_step v s)
unfolding set_network_t_plus_one_step
network-PutsRound v s = elim (Option-cases (lookup v.period s)) [
  | inl e ↦ inl (ground arith)
  | inr (rounds, e) ↦ elim (Option-cases (lookup v.round rounds)) [
    | inl f ↦ inl (ground arith)
    | inr (r, f) ↦ inr (record r { network_t_plus_one_step = v.step }, ground arith)
  ]
]

block-PutsRound :
    (type : TwoTPlusOneVotedBlockType) (v : PbftVote) (s : VerifiedVotes)
    → PutsRound v s (insert_two_t_plus_one_voted_block type v s)
unfolding insert_two_t_plus_one_voted_block
block-PutsRound type v s = elim (Option-cases (lookup v.period s)) [
  | inl e ↦ inl (ground arith)
  | inr (rounds, e) ↦ elim (Option-cases (lookup v.round rounds)) [
    | inl f ↦ inl (ground arith)
    | inr (r, f) ↦ inr (
      record r {
        two_t_plus_one_voted_blocks =
            emplace (type_code type) (record { hash = v.block_hash; step = v.step })
              r.two_t_plus_one_voted_blocks;
      },
      ground arith,
    )
  ]
]

voter-PutsRound : (v : PbftVote) (s : VerifiedVotes) → PutsRound v s (insert_unique_voter v s).0
voter-PutsRound v s = elim (insert_unique_voter-Checked v s) [
  | no_step _ e _ ↦ inl e
  | kept _ _ _ _ e ↦ inl e
  | entered st e _ _ to _ ↦ rw to (store_step-PutsRound v _ s)
]

cleanup-HasSortedRounds :
    (bound : ℕ) (s : VerifiedVotes)
    → IsSorted s
    → HasSortedRounds s
    → HasSortedRounds (cleanup_votes_by_period bound s)
unfolding cleanup_votes_by_period
cleanup-HasSortedRounds bound s sorted h period rounds e =
    h period rounds (ground (arith, lookup-drop_below bound period 0 s sorted))

Step-HasSortedRounds :
    {s s' : VerifiedVotes} → Step s s' → IsSorted s → HasSortedRounds s → HasSortedRounds s'
unfolding store_voted_value
Step-HasSortedRounds {s} (voter v) sorted h =
    PutsRound-HasSortedRounds v s (insert_unique_voter v s).0 (voter-PutsRound v s) h
Step-HasSortedRounds {s} {s'} (value v r e) sorted h =
    let (voted, to) = insert_voted_value-stores v s e in
    let step = or_new new_step (get_step_votes v.period v.round v.step s) in
    rw to (
      PutsRound-HasSortedRounds v s (store_voted_value v voted s)
        (store_step-PutsRound v (record step { votes = put v.block_hash voted step.votes }) s) h)
Step-HasSortedRounds {s} (network v) sorted h =
    PutsRound-HasSortedRounds v s (set_network_t_plus_one_step v s) (network-PutsRound v s) h
Step-HasSortedRounds {s} (block type v _) sorted h =
    PutsRound-HasSortedRounds v s (insert_two_t_plus_one_voted_block type v s)
      (block-PutsRound type v s) h
Step-HasSortedRounds {s} (cleanup bound) sorted h = cleanup-HasSortedRounds bound s sorted h

start-HasSortedRounds : HasSortedRounds []
unfolding lookup
start-HasSortedRounds period rounds e = absurd (ground arith)

pub Reach-HasSortedRounds : {s : VerifiedVotes} → Reach s → HasSortedRounds s
Reach-HasSortedRounds start = start-HasSortedRounds
Reach-HasSortedRounds (next r st) =
    Step-HasSortedRounds st (Reach-IsSound r).sorted (Reach-HasSortedRounds r)

-- In every state that calls lead to, the rounds of a period are in order.
pub get_period_votes-IsSorted :
    {s : VerifiedVotes} (period : ℕ) (rounds : Map RoundVerifiedVotes)
    → Reach s
    → get_period_votes period s ≡ some rounds
    → IsSorted rounds
unfolding get_period_votes
get_period_votes-IsSorted period rounds r e = Reach-HasSortedRounds r period rounds e
