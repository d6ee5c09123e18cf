-- ===== src/VerifiedVotes/Within.antt =====
-- VerifiedVotes: the invariant of its states, part by part.
use rustaxa.VerifiedVotes.TwoTPlusOne.{
  get_step_votes-set_network_t_plus_one_step, get_step_votes-insert_two_t_plus_one_voted_block,
  get-insert_two_t_plus_one_voted_block,
}
use rustaxa.VerifiedVotes.Cleanup.{get_step_votes-cleanup_votes_by_period}
use rustaxa.Common.{ℕ, ◌≡◌, sym, ◌∙◌, ◌⊎◌, inl, inr, ◌&&◌, Option, none, arith, ◌==◌, Bool-cases}
use rustaxa.Common.Outcome.{done}
use rustaxa.Common.Map.Sorted.{lookup-drop_below, IsSorted, drop_below-From, From-weaken}
use rustaxa.Vote.{PbftVote}
use rustaxa.VerifiedVotes.{
  voted_value, type_code, get_step_votes, store_voted_value, get_two_t_plus_one_voted_block,
  VerifiedVotes, TwoTPlusOneVotedBlockType, VotesWithWeight, insert_unique_voter,
  insert_voted_value, insert_two_t_plus_one_voted_block, set_network_t_plus_one_step,
  cleanup_votes_by_period,
}
use rustaxa.VerifiedVotes.Store.{find_voted-store_voted_value, at_step, find_voted, find_vote}
use rustaxa.VerifiedVotes.Invariant.{IsFiled, insert_voted_value-IsFiled}
use rustaxa.VerifiedVotes.Insert.{insert_voted_value-Inserted, known, added, add_vote}
use rustaxa.VerifiedVotes.Voters.{HasUniqueVoters, find_voter}
use rustaxa.VerifiedVotes.HandOut.{HasVotes, IsThere}
use rustaxa.VerifiedVotes.Keep.{
  find_voted-insert_unique_voter, get_two_t_plus_one-set_network_t_plus_one_step,
  store_step-IsSorted, get_two_t_plus_one-store_step, find_voter-store_voted_value,
}

pub record IsSound (s : VerifiedVotes) : Type 0 where
  pub sorted : IsSorted s
  pub filed : IsFiled s
  pub voters : HasUniqueVoters s
  pub handed : HasVotes s

-- The part of a state that the invariants read is the same, or is gone.
pub record Within (s s' : VerifiedVotes) : Type 0 where
  pub voted :
      (period round step block : ℕ)
      → (find_voted period round step block s' ≡ find_voted period round step block s)
        ⊎ (find_voted period round step block s' ≡ none)
  pub voter :
      (period round step voter : ℕ)
      → (find_voter period round step voter s' ≡ find_voter period round step voter s)
        ⊎ (find_voter period round step voter s' ≡ none)

pub Within-IsFiled : {s s' : VerifiedVotes} → Within s s' → IsFiled s → IsFiled s'
unfolding find_vote
Within-IsFiled w f = record {
  filed = λ period round step block hash v e.
      ground (arith, w.voted period round step block, f.filed period round step block hash v);
  weighed = λ period round step block voted e.
      ground (arith, w.voted period round step block, f.weighed period round step block voted);
}

pub Within-HasUniqueVoters :
    {s s' : VerifiedVotes} → Within s s' → HasUniqueVoters s → HasUniqueVoters s'
Within-HasUniqueVoters w u period round step a e found =
    ground (arith, w.voter period round step a, u period round step a e)

-- Steps that change no vote and no voter's entry.
pub same-Within :
    {s s' : VerifiedVotes}
    → ((period round step : ℕ)
        → get_step_votes period round step s' ≡ get_step_votes period round step s)
    → Within s s'
unfolding find_voted find_voter
same-Within same = record {
  voted = λ period round step block. inl (ground (arith, same period round step));
  voter = λ period round step a. inl (ground (arith, same period round step));
}

pub cleanup-Within :
    (bound : ℕ) (s : VerifiedVotes) → IsSorted s → Within s (cleanup_votes_by_period bound s)
unfolding find_voted find_voter
cleanup-Within bound s h = record {
  voted = λ period round step b.
      ground (arith, get_step_votes-cleanup_votes_by_period bound period round step s h);
  voter = λ period round step a.
      ground (arith, get_step_votes-cleanup_votes_by_period bound period round step s h);
}

pub cleanup-HasVotes :
    (bound : ℕ) (s : VerifiedVotes)
    → IsSorted s
    → HasVotes s
    → HasVotes (cleanup_votes_by_period bound s)
unfolding find_voted get_two_t_plus_one_voted_block cleanup_votes_by_period
cleanup-HasVotes bound s h t period round type b e = ground (
  arith,
  lookup-drop_below bound period 0 s h,
  get_step_votes-cleanup_votes_by_period bound period round b.step s h,
  t period round type b,
)

-- Blocks stay, and the votes that are there stay there.
pub kept-HasVotes :
    (s s' : VerifiedVotes)
    → ((period round : ℕ) (type : TwoTPlusOneVotedBlockType)
        → get_two_t_plus_one_voted_block period round type s'
          ≡ get_two_t_plus_one_voted_block period round type s)
    → ((period round step b : ℕ)
        → IsThere (find_voted period round step b s)
        → IsThere (find_voted period round step b s'))
    → HasVotes s
    → HasVotes s'
kept-HasVotes s s' same stays t period round type b e =
    stays period round b.step b.hash (t period round type b (sym (same period round type) ∙ e))

pub store_voted_value-stays :
    (v : PbftVote) (voted : VotesWithWeight) (s : VerifiedVotes) (period round step b : ℕ)
    → IsThere (find_voted period round step b s)
    → IsThere (find_voted period round step b (store_voted_value v voted s))
store_voted_value-stays v voted s period round step b (old, e) =
    elim (Bool-cases (at_step v period round step && v.block_hash == b)) [
      | inl here ↦
          (voted, ground (arith, find_voted-store_voted_value v voted s period round step b))
      | inr other ↦
          (old, ground (arith, find_voted-store_voted_value v voted s period round step b))
    ]

pub get_two_t_plus_one-store_voted_value :
    (v : PbftVote) (voted : VotesWithWeight) (s : VerifiedVotes) (period round : ℕ)
    (type : TwoTPlusOneVotedBlockType)
    → get_two_t_plus_one_voted_block period round type (store_voted_value v voted s)
      ≡ get_two_t_plus_one_voted_block period round type s
unfolding store_voted_value
get_two_t_plus_one-store_voted_value v voted s period round type =
    get_two_t_plus_one-store_step v _ s period round type

pub network-HasVotes :
    (v : PbftVote) (s : VerifiedVotes) → HasVotes s → HasVotes (set_network_t_plus_one_step v s)
unfolding find_voted
network-HasVotes v s t period round type b e = ground (
  arith,
  get_two_t_plus_one-set_network_t_plus_one_step v s period round type,
  get_step_votes-set_network_t_plus_one_step v s period round b.step,
  t period round type b,
)

pub cleanup-IsSorted :
    (bound : ℕ) (s : VerifiedVotes) → IsSorted s → IsSorted (cleanup_votes_by_period bound s)
unfolding cleanup_votes_by_period
cleanup-IsSorted bound s h = From-weaken bound 0 _ (omega arith) (drop_below-From bound 0 s h)

pub block-HasVotes :
    (type : TwoTPlusOneVotedBlockType) (v : PbftVote) (s : VerifiedVotes)
    → IsThere (find_voted v.period v.round v.step v.block_hash s)
    → HasVotes s
    → HasVotes (insert_two_t_plus_one_voted_block type v s)
unfolding find_voted type_code
block-HasVotes type v s there t period round type' b e = ground (
  arith,
  get-insert_two_t_plus_one_voted_block type type' v s period round,
  get_step_votes-insert_two_t_plus_one_voted_block type v s period round b.step,
  t period round type' b,
)

pub insert_unique_voter-IsFiled :
    (v : PbftVote) (s : VerifiedVotes) → IsFiled s → IsFiled (insert_unique_voter v s).0
unfolding find_vote
insert_unique_voter-IsFiled v s f = record {
  filed = λ period round step block hash u e. ground (
    arith,
    find_voted-insert_unique_voter v s period round step block,
    f.filed period round step block hash u,
  );
  weighed = λ period round step block voted e. ground (
    arith,
    find_voted-insert_unique_voter v s period round step block,
    f.weighed period round step block voted,
  );
}

-- The rest of the invariant after a vote is stored in its voted value.
pub store_voted_value-keeps :
    (v : PbftVote) (voted : VotesWithWeight) (s : VerifiedVotes)
    → IsSound s
    → IsSorted (store_voted_value v voted s)
      × HasUniqueVoters (store_voted_value v voted s)
      × HasVotes (store_voted_value v voted s)
unfolding store_voted_value
store_voted_value-keeps v voted s i = (
  store_step-IsSorted v _ s i.sorted,
  (λ period round step a e found.
      i.voters period round step a e
        (sym (find_voter-store_voted_value v voted s period round step a) ∙ found)),
  kept-HasVotes s (store_voted_value v voted s) (get_two_t_plus_one-store_voted_value v voted s)
      (store_voted_value-stays v voted s) i.handed,
)

pub insert_voted_value-stores :
    (v : PbftVote) (s : VerifiedVotes) {s' : VerifiedVotes} {r : Option VotesWithWeight}
    → insert_voted_value v s ≡ done (s', r)
    → (voted : VotesWithWeight) × (s' ≡ store_voted_value v voted s)
insert_voted_value-stores v s h = elim (insert_voted_value-Inserted v s h) [
  | known _ _ to _ ↦ (voted_value v s, to)
  | added w _ _ to _ ↦ (add_vote v w (voted_value v s), to)
]

pub insert_voted_value-IsSound :
    (v : PbftVote) (s : VerifiedVotes) {s' : VerifiedVotes} {r : Option VotesWithWeight}
    → insert_voted_value v s ≡ done (s', r)
    → IsSound s
    → IsSound s'
insert_voted_value-IsSound v s h i =
    let (voted, to) = insert_voted_value-stores v s h in
    let kept = store_voted_value-keeps v voted s i in
    record {
      sorted = rw to kept.0;
      filed = insert_voted_value-IsFiled v s h i.filed;
      voters = rw to kept.1;
      handed = rw to kept.2;
    }
