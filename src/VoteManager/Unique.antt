-- ===== src/VoteManager/Unique.antt =====
-- isUniqueVote against insertUniqueVoter, and the first vote of a step.
use rustaxa.VerifiedVotes.Store.{get_step_votes-store_step}
use rustaxa.VoteManager.Sound.{Noted-steps}
use rustaxa.VerifiedVotes.Within.{insert_voted_value-stores}
use rustaxa.Common.Map.{put, lookup}
use rustaxa.Common.{
  ◌≡◌, refl, sym, subst, ◌∙◌, inl, inr, true, Option, none, some, [], arith, Option-cases,
}
use rustaxa.Common.Outcome.{done}
use rustaxa.Vote.{PbftVote}
use rustaxa.VerifiedVotes.{
  new_step, insert_voted_value, check_voter, get_step_votes, insert_unique_voter, store_voted_value,
  VerifiedVotes, VotesWithWeight, StepVotes,
}
use rustaxa.VoteManager.{compare_votes, is_unique_vote, Chain, VoteManager, add_verified_vote}
use rustaxa.VoteManager.Add.{add_verified_vote-AddedVote, refused, checked, known, stored}

compare_votes-check_voter :
    (v first : PbftVote) (second : Option PbftVote)
    → compare_votes v (first, second) ≡ (check_voter v first second).1
unfolding compare_votes check_voter
compare_votes-check_voter v first none = ground arith
compare_votes-check_voter v first (some second) = ground arith

-- The check before the validation of a vote and the one at its insertion agree: `is_unique_vote`
-- objects to a vote exactly when `insert_unique_voter` refuses it, and names the same vote.
pub is_unique_vote-insert_unique_voter :
    (v : PbftVote) (m : VoteManager)
    → is_unique_vote v m ≡ (insert_unique_voter v m.verified_votes).1
unfolding is_unique_vote insert_unique_voter
is_unique_vote-insert_unique_voter v m =
    elim (Option-cases (get_step_votes v.period v.round v.step m.verified_votes)) [
      | inl e ↦ ground arith
      | inr (step, e) ↦ elim (Option-cases (lookup v.voter step.unique_voters)) [
        | inl f ↦ ground arith
        | inr (o, f) ↦ elim (Option-cases (check_voter v o.0 o.1).0) [
          | inl g ↦ ground (arith, compare_votes-check_voter v o.0 o.1)
          | inr (n, g) ↦ ground (arith, compare_votes-check_voter v o.0 o.1)
        ]
      ]
    ]

-- A step that is opened by its first vote has no voter in it.
opened_step :
    (v : PbftVote) (voted : VotesWithWeight) (s : VerifiedVotes)
    → get_step_votes v.period v.round v.step s ≡ none
    → (step : StepVotes) × (get_step_votes v.period v.round v.step (store_voted_value v voted s)
        ≡ some step)
      × (step.unique_voters ≡ [])
unfolding store_voted_value
opened_step v voted s h =
    let e : StepVotes = record new_step { votes = put v.block_hash voted [] } in
    (e, ground (arith, get_step_votes-store_step v e s v.period v.round v.step), refl)

opened_step-insert :
    (v : PbftVote) (s : VerifiedVotes) {s' : VerifiedVotes} {r : Option VotesWithWeight}
    → get_step_votes v.period v.round v.step s ≡ none
    → insert_voted_value v s ≡ done (s', r)
    → (step : StepVotes) × (get_step_votes v.period v.round v.step s' ≡ some step)
      × (step.unique_voters ≡ [])
opened_step-insert v s h e =
    let (voted, to) = insert_voted_value-stores v s e in rw to (opened_step v voted s h)

insert_unique_voter_no_step :
    (v : PbftVote) (s : VerifiedVotes)
    → get_step_votes v.period v.round v.step s ≡ none
    → (insert_unique_voter v s).0 ≡ s
unfolding insert_unique_voter
insert_unique_voter_no_step v s h = ground arith

is_unique_vote_no_voter :
    (w : PbftVote) (m : VoteManager) (step : StepVotes)
    → get_step_votes w.period w.round w.step m.verified_votes ≡ some step
    → step.unique_voters ≡ []
    → is_unique_vote w m ≡ none
unfolding is_unique_vote lookup
is_unique_vote_no_voter w m step e f = ground arith

-- Two votes in one step.
abbrev pub SameStep : PbftVote → PbftVote → Type 0
SameStep v w = (v.period ≡ w.period) × (v.round ≡ w.round) × (v.step ≡ w.step)

-- The first vote of a step that is not there yet is not entered for its voter: once it is added, every
-- other vote of the step passes the check for double votes, one of the same voter for another block included.
pub is_unique_vote-add_verified_vote_first :
    (c : Chain) (v w : PbftVote) (m : VoteManager) {m' : VoteManager}
    → get_step_votes v.period v.round v.step m.verified_votes ≡ none
    → SameStep v w
    → add_verified_vote c v m ≡ done (m', true)
    → (is_unique_vote w m' ≡ none) × ((insert_unique_voter w m'.verified_votes).1 ≡ none)
is_unique_vote-add_verified_vote_first c v w m {m'} h (p, r, st) e =
    elim (add_verified_vote-AddedVote c v m e) [
      | refused _ f ↦ absurd (ground arith)
      | checked _ f ↦ absurd (ground arith)
      | known _ _ f ↦ absurd (ground arith)
      | stored vv voted _ f noted _ ↦
          let s = m.verified_votes in
          let same = insert_unique_voter_no_step v s h in
          let (step, found, empty) =
            opened_step-insert v s h
              (subst (λ x. insert_voted_value v x ≡ done (vv, some voted)) same f) in
          let there : get_step_votes w.period w.round w.step m'.verified_votes ≡ some step =
            rw (← p, ← r, ← st)
              (Noted-steps v vv m'.verified_votes noted v.period v.round v.step ∙ found) in
          let free = is_unique_vote_no_voter w m' step there empty in
          (free, sym (is_unique_vote-insert_unique_voter w m') ∙ free)
    ]
