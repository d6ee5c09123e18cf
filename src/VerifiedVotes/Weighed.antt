-- ===== src/VerifiedVotes/Weighed.antt =====
-- VerifiedVotes: the weight of the votes behind each 2t+1 block.
use rustaxa.Common.{
  ℕ, ◌≤◌, ◌≡◌, sym, ◌∙◌, inl, inr, ◌&&◌, Option, some, arith, ◌==◌, Bool-cases, Option-cases,
}
use rustaxa.Common.Outcome.{done}
use rustaxa.Common.Map.Sorted.{IsSorted, lookup-drop_below}
use rustaxa.Vote.{PbftVote}
use rustaxa.VerifiedVotes.{
  VerifiedVotes, VotesWithWeight, VotedBlock, TwoTPlusOneVotedBlockType, voted_value,
  store_voted_value, type_code, insert_unique_voter, insert_voted_value,
  get_two_t_plus_one_voted_block, insert_two_t_plus_one_voted_block, set_network_t_plus_one_step,
  cleanup_votes_by_period,
}
use rustaxa.VerifiedVotes.Store.{find_voted, find_vote, at_step, find_voted-store_voted_value}
use rustaxa.VerifiedVotes.Invariant.{weigh, weigh-put}
use rustaxa.VerifiedVotes.Insert.{
  add_vote, known, added, insert_voted_value-Inserted, insert_voted_value_result, voted_value_lem,
}
use rustaxa.VerifiedVotes.Keep.{
  find_voted-insert_unique_voter, get_two_t_plus_one-insert_unique_voter,
  get_two_t_plus_one-set_network_t_plus_one_step,
}
use rustaxa.VerifiedVotes.Cleanup.{get_step_votes-cleanup_votes_by_period}
use rustaxa.VerifiedVotes.Within.{get_two_t_plus_one-store_voted_value}
use rustaxa.VerifiedVotes.TwoTPlusOne.{
  get_step_votes-set_network_t_plus_one_step, get_step_votes-insert_two_t_plus_one_voted_block,
  get-insert_two_t_plus_one_voted_block,
}

-- The votes for a block in a step weigh at least so much.
abbrev pub Weighs : ℕ → Option VotesWithWeight → Type 0
Weighs least o = (voted : VotesWithWeight) × (o ≡ some voted) × (least ≤ weigh voted.votes)

-- The least weight that a 2t+1 block of a period needs is a parameter.
module _ (quorum : ℕ → ℕ) where
  abbrev pub HasQuorums : VerifiedVotes → Type 0
  HasQuorums s =
      (period round : ℕ) (type : TwoTPlusOneVotedBlockType) (b : VotedBlock)
      → get_two_t_plus_one_voted_block period round type s ≡ some b
      → Weighs (quorum period) (find_voted period round b.step b.hash s)

  pub voter-HasQuorums :
      (v : PbftVote) (s : VerifiedVotes) → HasQuorums s → HasQuorums (insert_unique_voter v s).0
  voter-HasQuorums v s q period round type b e =
      let (voted, f, enough) =
        q period round type b
          (sym (get_two_t_plus_one-insert_unique_voter v s period round type) ∙ e) in
      (voted, find_voted-insert_unique_voter v s period round b.step b.hash ∙ f, enough)

  pub network-HasQuorums :
      (v : PbftVote) (s : VerifiedVotes)
      → HasQuorums s
      → HasQuorums (set_network_t_plus_one_step v s)
  unfolding find_voted
  network-HasQuorums v s q period round type b e = ground (
    arith,
    get_two_t_plus_one-set_network_t_plus_one_step v s period round type,
    get_step_votes-set_network_t_plus_one_step v s period round b.step,
    q period round type b,
  )

  pub cleanup-HasQuorums :
      (bound : ℕ) (s : VerifiedVotes)
      → IsSorted s
      → HasQuorums s
      → HasQuorums (cleanup_votes_by_period bound s)
  unfolding find_voted get_two_t_plus_one_voted_block cleanup_votes_by_period
  cleanup-HasQuorums bound s h q period round type b e = ground (
    arith,
    lookup-drop_below bound period 0 s h,
    get_step_votes-cleanup_votes_by_period bound period round b.step s h,
    q period round type b,
  )

  pub block-HasQuorums :
      (type : TwoTPlusOneVotedBlockType) (v : PbftVote) (s : VerifiedVotes)
      → Weighs (quorum v.period) (find_voted v.period v.round v.step v.block_hash s)
      → HasQuorums s
      → HasQuorums (insert_two_t_plus_one_voted_block type v s)
  unfolding find_voted type_code
  block-HasQuorums type v s enough q period round type' b e = ground (
    arith,
    get-insert_two_t_plus_one_voted_block type type' v s period round,
    get_step_votes-insert_two_t_plus_one_voted_block type v s period round b.step,
    q period round type' b,
  )

  -- Votes that are stored weigh no less than those before.
  store_voted_value-HasQuorums :
      (v : PbftVote) (voted : VotesWithWeight) (s : VerifiedVotes)
      → weigh (voted_value v s).votes ≤ weigh voted.votes
      → HasQuorums s
      → HasQuorums (store_voted_value v voted s)
  store_voted_value-HasQuorums v voted s more q period round type b e =
      let (old, f, enough) =
        q period round type b
          (sym (get_two_t_plus_one-store_voted_value v voted s period round type) ∙ e) in
      let found = find_voted-store_voted_value v voted s period round b.step b.hash in
      elim (Bool-cases (at_step v period round b.step && v.block_hash == b.hash)) [
        | inl here ↦
            let same : voted_value v s ≡ old = ground (arith, voted_value_lem v s) in
            (voted, ground arith, ground arith)
        | inr other ↦ (old, ground arith, enough)
      ]

  pub value-HasQuorums :
      (v : PbftVote) (s : VerifiedVotes) {s' : VerifiedVotes} {r : Option VotesWithWeight}
      → insert_voted_value v s ≡ done (s', r)
      → HasQuorums s
      → HasQuorums s'
  value-HasQuorums v s h q = elim (insert_voted_value-Inserted v s h) [
    | known old e to _ ↦ rw to (store_voted_value-HasQuorums v (voted_value v s) s (omega arith) q)
    | added w e given to _ ↦ rw to (
        store_voted_value-HasQuorums v (add_vote v w (voted_value v s)) s
          (ground (arith, weigh-put v.hash v (voted_value v s).votes e)) q)
  ]

pub insert_voted_value_finds :
    (v : PbftVote) (s : VerifiedVotes) {s' : VerifiedVotes} {voted : VotesWithWeight}
    → insert_voted_value v s ≡ done (s', some voted)
    → find_voted v.period v.round v.step v.block_hash s' ≡ some voted
insert_voted_value_finds v s {s'} {voted} h = ground (
  arith,
  insert_voted_value_result v s h,
  Option-cases (find_vote v.period v.round v.step v.block_hash v.hash s),
)
