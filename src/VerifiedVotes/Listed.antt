-- ===== src/VerifiedVotes/Listed.antt =====
-- VerifiedVotes: the votes that are listed for a block in a step, and what
-- getTwoTPlusOneVotedBlockVotes hands out.
use rustaxa.Common.{
  refl, ℕ, ◌≡◌, sym, ◌∙◌, ◌⊎◌, inl, inr, true, ◌&&◌, Option, none, some, List, [], ◌∷◌, arith, ◌==◌,
  Bool-cases, Option-cases, All,
}
use rustaxa.Common.Outcome.{done}
use rustaxa.Common.ListLaws.{All-map}
use rustaxa.Common.Map.{Map, lookup, put}
use rustaxa.Common.Map.Entries.{put-All}
use rustaxa.Vote.{PbftVote}
use rustaxa.VerifiedVotes.{
  VerifiedVotes, VotesWithWeight, VotedBlock, TwoTPlusOneVotedBlockType, voted_value,
  store_voted_value, insert_voted_value, get_step_votes, get_two_t_plus_one_voted_block,
  get_two_t_plus_one_voted_block_votes, values,
}
use rustaxa.VerifiedVotes.Store.{find_voted, at_step, find_voted-store_voted_value}
use rustaxa.VerifiedVotes.Invariant.{IsAt}
use rustaxa.VerifiedVotes.Insert.{
  add_vote, known, added, insert_voted_value-Inserted, voted_value_lem,
}
use rustaxa.VerifiedVotes.Keep.{find_voted-insert_unique_voter}
use rustaxa.VerifiedVotes.Within.{Within, IsSound, same-Within, cleanup-Within}
use rustaxa.VerifiedVotes.TwoTPlusOne.{
  get_step_votes-set_network_t_plus_one_step, get_step_votes-insert_two_t_plus_one_voted_block,
}
use rustaxa.VerifiedVotes.HandOut.{get_two_t_plus_one_voted_block_votes_lem}
use rustaxa.VerifiedVotes.Reach.{
  Reach, Step, start, next, voter, value, network, block, cleanup, Reach-IsSound,
}

-- Each entry has the hash of its vote for a key, and the vote is one for the block in the step.
abbrev pub AllAt : ℕ → ℕ → ℕ → ℕ → Map PbftVote → Type 0
AllAt period round step b m = All (λ e. IsAt e.1 period round step b e.0) m

-- The votes of a block are all for it, and there is one.
pub record Listed (period round step b : ℕ) (voted : VotesWithWeight) : Type 0 where
  pub all_at : AllAt period round step b voted.votes
  pub some_there : ¬ (voted.votes ≡ [])

abbrev pub IsListed : VerifiedVotes → Type 0
IsListed s =
    (period round step b : ℕ) (voted : VotesWithWeight)
    → find_voted period round step b s ≡ some voted
    → Listed period round step b voted

Within-IsListed : {s s' : VerifiedVotes} → Within s s' → IsListed s → IsListed s'
Within-IsListed w l period round step b voted e =
    l period round step b voted (ground (arith, w.voted period round step b))

voted_value-AllAt :
    (v : PbftVote) (s : VerifiedVotes)
    → IsListed s
    → AllAt v.period v.round v.step v.block_hash (voted_value v s).votes
voted_value-AllAt v s l = elim (Option-cases (find_voted v.period v.round v.step v.block_hash s)) [
  | inl e ↦ rw (voted_value_lem v s, e) tt
  | inr (voted, e) ↦
      rw (voted_value_lem v s, e) (l v.period v.round v.step v.block_hash voted e).all_at
]

AllAt-at_step :
    (v : PbftVote) (m : Map PbftVote) (period round step b : ℕ)
    → (at_step v period round step && v.block_hash == b) ≡ true
    → AllAt v.period v.round v.step v.block_hash m
    → AllAt period round step b m
AllAt-at_step v m period round step b here all =
    All-map (λ e. IsAt e.1 v.period v.round v.step v.block_hash e.0)
      (λ e. IsAt e.1 period round step b e.0) m
      (λ e at. record {
        period_eq = at.period_eq ∙ ground arith;
        round_eq = at.round_eq ∙ ground arith;
        step_eq = at.step_eq ∙ ground arith;
        block_eq = at.block_eq ∙ ground arith;
        hash_eq = at.hash_eq;
      })
      all

store_voted_value-IsListed :
    (v : PbftVote) (voted : VotesWithWeight) (s : VerifiedVotes)
    → Listed v.period v.round v.step v.block_hash voted
    → IsListed s
    → IsListed (store_voted_value v voted s)
store_voted_value-IsListed v voted s new l period round step b voted' e =
    let found = find_voted-store_voted_value v voted s period round step b in
    elim (Bool-cases (at_step v period round step && v.block_hash == b)) [
      | inl here ↦
          let same : voted ≡ voted' = ground arith in
          rw (sym same) (record {
            all_at = AllAt-at_step v voted.votes period round step b here new.all_at;
            some_there = new.some_there;
          })
      | inr other ↦ l period round step b voted' (ground arith)
    ]

lookup_there : (h : ℕ) (m : Map PbftVote) {v : PbftVote} → lookup h m ≡ some v → ¬ (m ≡ [])
unfolding lookup
lookup_there h [] e = absurd (ground arith)
lookup_there h (x ∷ m) e = λ f. ground arith

put_there : (h : ℕ) (v : PbftVote) (m : Map PbftVote) → ¬ (put h v m ≡ [])
unfolding put
put_there h v [] = λ f. ground arith
put_there h v (x ∷ m) = λ f. ground arith

own-IsAt : (v : PbftVote) → IsAt v v.period v.round v.step v.block_hash v.hash
own-IsAt v = record {
  period_eq = refl;
  round_eq = refl;
  step_eq = refl;
  block_eq = refl;
  hash_eq = refl;
}

insert_voted_value-IsListed :
    (v : PbftVote) (s : VerifiedVotes) {s' : VerifiedVotes} {r : Option VotesWithWeight}
    → insert_voted_value v s ≡ done (s', r)
    → IsListed s
    → IsListed s'
insert_voted_value-IsListed v s h l =
    let all = voted_value-AllAt v s l in
    elim (insert_voted_value-Inserted v s h) [
      | known old e to _ ↦ rw to (
          store_voted_value-IsListed v (voted_value v s) s
            (record { all_at = all; some_there = lookup_there v.hash (voted_value v s).votes e }) l)
      | added w e given to _ ↦ rw to (
          store_voted_value-IsListed v (add_vote v w (voted_value v s)) s
            (record {
              all_at =
                  put-All (λ e. IsAt e.1 v.period v.round v.step v.block_hash e.0) v.hash v
                    (voted_value v s).votes (own-IsAt v) all;
              some_there = put_there v.hash v (voted_value v s).votes;
            })
            l)
    ]

Step-IsListed : {s s' : VerifiedVotes} → Step s s' → IsSound s → IsListed s → IsListed s'
Step-IsListed {s} (voter v) i l = λ period round step b voted e.
    l period round step b voted (sym (find_voted-insert_unique_voter v s period round step b) ∙ e)
Step-IsListed {s} (value v r h) i l = insert_voted_value-IsListed v s h l
Step-IsListed {s} (network v) i l =
    Within-IsListed (same-Within (get_step_votes-set_network_t_plus_one_step v s)) l
Step-IsListed {s} (block type v there) i l =
    Within-IsListed (same-Within (get_step_votes-insert_two_t_plus_one_voted_block type v s)) l
Step-IsListed {s} (cleanup bound) i l = Within-IsListed (cleanup-Within bound s i.sorted) l

start-IsListed : IsListed []
unfolding find_voted get_step_votes lookup
start-IsListed period round step b voted e = absurd (ground arith)

pub Reach-IsListed : {s : VerifiedVotes} → Reach s → IsListed s
Reach-IsListed start = start-IsListed
Reach-IsListed (next r st) = Step-IsListed st (Reach-IsSound r) (Reach-IsListed r)

values-All :
    (period round step b : ℕ) (m : Map PbftVote)
    → AllAt period round step b m
    → All (λ v. IsAt v period round step b v.hash) (values m)
values-All period round step b [] all = tt
values-All period round step b ((h, v) ∷ m) (at, all) = (
  record {
    period_eq = at.period_eq;
    round_eq = at.round_eq;
    step_eq = at.step_eq;
    block_eq = at.block_eq;
    hash_eq = refl;
  },
  values-All period round step b m all,
)

values_there : (m : Map PbftVote) → ¬ (m ≡ []) → ¬ (values m ≡ [])
values_there [] h = absurd (h refl)
values_there ((h, v) ∷ m) there = λ f. ground arith

-- Votes of a period and round, at least one of them, that are all for the block and of its step.
pub record HandedOut (period round : ℕ) (b : VotedBlock) (vs : List PbftVote) : Type 0 where
  pub all_at : All (λ v. IsAt v period round b.step b.hash v.hash) vs
  pub some_there : ¬ (vs ≡ [])

pub Reach-HandedOut :
    (period round : ℕ) (type : TwoTPlusOneVotedBlockType) {s : VerifiedVotes}
    → Reach s
    → ((get_two_t_plus_one_voted_block period round type s ≡ none)
        × (get_two_t_plus_one_voted_block_votes period round type s ≡ done []))
      ⊎ ((b : VotedBlock) × (get_two_t_plus_one_voted_block period round type s ≡ some b)
          × (vs : List PbftVote) × (get_two_t_plus_one_voted_block_votes period round type s
              ≡ done vs)
          × HandedOut period round b vs)
Reach-HandedOut period round type {s} r =
    let handed = (Reach-IsSound r).handed in
    let call = get_two_t_plus_one_voted_block_votes_lem period round type s handed in
    elim (Option-cases (get_two_t_plus_one_voted_block period round type s)) [
      | inl e ↦ inl (e, ground arith)
      | inr (b, e) ↦
          let (voted, f) = handed period round type b e in
          let listed = Reach-IsListed r period round b.step b.hash voted f in
          inr (
            b,
            e,
            values voted.votes,
            ground arith,
            record {
              all_at = values-All period round b.step b.hash voted.votes listed.all_at;
              some_there = values_there voted.votes listed.some_there;
            },
          )
    ]
