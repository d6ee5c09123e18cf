-- ===== src/PbftManager/Steps/Votes.antt =====
-- PbftManager: what the voting of each state leaves as it was, and the votes it adds.
use rustaxa.Common.{
  ℕ, ◌+◌, ◌*◌, ◌≡◌, refl, inl, inr, Bool, true, false, not, ◌&&◌, ◌||◌, Option, none, some, arith,
  ltb, leb, ◌==◌, if◌then◌else◌, Bool-cases, Option-cases,
}
use rustaxa.Common.Outcome.{Outcome, done, fault, Outcome-cases}
use rustaxa.Vote.{PbftVoteTypes, propose_vote, soft_vote, next_vote, null_block_hash}
use rustaxa.PbftBlock.{PbftBlock}
use rustaxa.VerifiedVotes.{soft_voted_block, next_voted_block, next_voted_null_block}
use rustaxa.VoteManager.Own.{get_proposal_votes}
use rustaxa.VoteManager.Rewards.{check_reward_votes}
use rustaxa.ProposedBlocks.{is_none}
use rustaxa.PbftManager.{World, PbftManager, get_pbft_period}
use rustaxa.PbftManager.Leader.{identify_leader_block}
use rustaxa.PbftManager.Voting.{k_polling_interval_ms}
use rustaxa.PbftManager.Steps.{
  gen_and_place_propose_vote, voted_in, round_before, checks_of, with_checks, find_proposed,
  vote_now, vote_for_found, starts_anew, repropose, soft_vote_leader, identify_block, elapsed,
}
use rustaxa.PbftManager.Finishing.{
  first_finish, second_finish, next_vote_soft_voted_block, next_vote_null_block,
  note_next_voted_value, note_next_voted_null,
}
use rustaxa.PbftManager.Steps.Place.{
  Votes, Votes-refl, Votes-same, Votes-trans, Votes-to, checked_same, find_proposed-Votes,
  vote_now-Votes,
}

vote_for_found-Votes :
    (w : World) (type : PbftVoteTypes) (block_hash : ℕ) (s : PbftManager) {s' : PbftManager}
    {placed : Bool}
    → vote_for_found w type block_hash s ≡ done (s', placed)
    → Votes s s'
unfolding vote_for_found
vote_for_found-Votes w type block_hash s {s'} {placed} h =
    elim (Outcome-cases (find_proposed w block_hash s)) [
      | inl e ↦ ground arith
      | inr ((t, none), e) ↦ Votes-to (find_proposed-Votes w block_hash s e) (ground arith)
      | inr ((t, some b), e) ↦
          Votes-trans (find_proposed-Votes w block_hash s e)
            (vote_now-Votes w type block_hash (some b) t {s' = s'} {placed = placed} (ground arith))
    ]

gen_and_place_propose_vote-Votes :
    (w : World) (b : PbftBlock) (s : PbftManager) {s' : PbftManager} {placed : Bool}
    → gen_and_place_propose_vote w b s ≡ done (s', placed)
    → Votes s s'
unfolding gen_and_place_propose_vote
gen_and_place_propose_vote-Votes w b s {s'} {placed} h =
    elim (Bool-cases (b.period == get_pbft_period s)) [
      | inl now ↦
          vote_now-Votes w propose_vote b.block_hash (some b) s {s' = s'} {placed = placed}
            (ground arith)
      | inr other ↦ Votes-to (Votes-refl s) (ground arith)
    ]

pub repropose-Votes :
    (w : World) (block_hash : ℕ) (s : PbftManager) {s' : PbftManager} {placed : Bool}
    → repropose w block_hash s ≡ done (s', placed)
    → Votes s s'
unfolding repropose
repropose-Votes w block_hash s {s'} {placed} h =
    elim (Outcome-cases (find_proposed w block_hash s)) [
      | inl e ↦ ground arith
      | inr ((t, none), e) ↦ Votes-to (find_proposed-Votes w block_hash s e) (ground arith)
      | inr ((t, some b), e) ↦
          let found = find_proposed-Votes w block_hash s e in
          elim (Outcome-cases (check_reward_votes b true t.vote_mgr)) [
            | inl f ↦ ground arith
            | inr (none, f) ↦ Votes-to found (ground arith)
            | inr (some rewards, f) ↦
                Votes-trans found (
                  gen_and_place_propose_vote-Votes w b t {s' = s'} {placed = placed} (ground arith))
          ]
    ]

soft_vote_leader-Votes :
    (w : World) (s : PbftManager) {s' : PbftManager} {placed : Bool}
    → soft_vote_leader w s ≡ done (s', placed)
    → Votes s s'
unfolding soft_vote_leader
soft_vote_leader-Votes w s {s'} {placed} h =
    let votes = get_proposal_votes (get_pbft_period s) s.machine.round s.vote_mgr in
    elim (Outcome-cases (identify_leader_block w s votes (checks_of s))) [
      | inl e ↦ ground arith
      | inr ((p, none), e) ↦ Votes-to (checked_same p s) (ground arith)
      | inr ((p, some (b, v)), e) ↦ Votes-trans (checked_same p s) (
          vote_now-Votes w soft_vote b.block_hash (some b) (with_checks p s) {s' = s'}
            {placed = placed} (ground arith))
    ]

pub identify_block-Votes :
    (w : World) (s : PbftManager) {s' : PbftManager} → identify_block w s ≡ done s' → Votes s s'
unfolding identify_block
identify_block-Votes w s {s'} h = elim (Bool-cases (starts_anew s)) [
  | inl anew ↦ elim (Outcome-cases (soft_vote_leader w s)) [
    | inl e ↦ ground arith
    | inr ((t, placed), e) ↦ Votes-to (soft_vote_leader-Votes w s e) (ground arith)
  ]
  | inr again ↦ elim (Option-cases (voted_in (round_before s) next_voted_block s)) [
    | inl e ↦ Votes-to (Votes-refl s) (ground arith)
    | inr (block_hash, e) ↦ elim (Outcome-cases (vote_for_found w soft_vote block_hash s)) [
      | inl f ↦ ground arith
      | inr ((t, placed), f) ↦
          Votes-to (vote_for_found-Votes w soft_vote block_hash s f) (ground arith)
    ]
  ]
]

-- What a vote returns, where the result is not asked for.
abbrev only_state : Outcome (PbftManager × Bool) → Outcome PbftManager
only_state fault = fault
only_state (done (s, _)) = done s

only_state-Votes :
    {s s' : PbftManager} (o : Outcome (PbftManager × Bool))
    → ((t : PbftManager) (placed : Bool) → o ≡ done (t, placed) → Votes s t)
    → only_state o ≡ done s'
    → Votes s s'
only_state-Votes fault all h = ground arith
only_state-Votes (done (t, placed)) all h = Votes-to (all t placed refl) (ground arith)

vote_now-Votes_only :
    (w : World) (type : PbftVoteTypes) (block_hash : ℕ) (b : Option PbftBlock) (s : PbftManager)
    {s' : PbftManager}
    → only_state (vote_now w type block_hash b s) ≡ done s'
    → Votes s s'
vote_now-Votes_only w type block_hash b s h =
    only_state-Votes (vote_now w type block_hash b s)
      (λ t placed e. vote_now-Votes w type block_hash b s e) h

pub first_finish-Votes :
    (w : World) (s : PbftManager) {s' : PbftManager} → first_finish w s ≡ done s' → Votes s s'
unfolding first_finish
first_finish-Votes w s {s'} h = elim (Option-cases s.machine.cert_voted_block_for_round) [
  | inr (b, e) ↦ elim (Outcome-cases (vote_now w next_vote b.block_hash (some b) s)) [
    | inl f ↦ ground arith
    | inr ((t, placed), f) ↦
        Votes-to (vote_now-Votes w next_vote b.block_hash (some b) s f) (ground arith)
  ]
  | inl e ↦
      elim (Bool-cases (
        leb 2 s.machine.round
        && not (is_none (voted_in (round_before s) next_voted_null_block s)))) [
          | inl null_voted ↦ vote_now-Votes_only w next_vote null_block_hash none s (ground arith)
          | inr other ↦ elim (Option-cases (voted_in (round_before s) next_voted_block s)) [
            | inr (block_hash, f) ↦ elim (Outcome-cases (vote_for_found w next_vote block_hash s)) [
              | inl g ↦ ground arith
              | inr ((t, placed), g) ↦
                  Votes-to (vote_for_found-Votes w next_vote block_hash s g) (ground arith)
            ]
            | inl f ↦ vote_now-Votes_only w next_vote null_block_hash none s (ground arith)
          ]
        ]
]

-- The flags of what was next voted are no part of the place.
flagged :
    (s t : PbftManager)
    → Votes s t
    → (placed : Bool) → Votes s (if placed then note_next_voted_value t else t)
unfolding get_pbft_period
flagged s t v true = Votes-trans v (Votes-same t (note_next_voted_value t) refl refl)
flagged s t v false = v

flagged_null :
    (s t : PbftManager)
    → Votes s t
    → (placed : Bool) → Votes s (if placed then note_next_voted_null t else t)
unfolding get_pbft_period
flagged_null s t v true = Votes-trans v (Votes-same t (note_next_voted_null t) refl refl)
flagged_null s t v false = v

pub next_vote_soft_voted_block-Votes :
    (w : World) (s : PbftManager) {s' : PbftManager}
    → next_vote_soft_voted_block w s ≡ done s'
    → Votes s s'
unfolding next_vote_soft_voted_block
next_vote_soft_voted_block-Votes w s {s'} h = elim (Bool-cases s.machine.already_next_voted_value) [
  | inl yet ↦ Votes-to (Votes-refl s) (ground arith)
  | inr first ↦ elim (Option-cases (voted_in s.machine.round soft_voted_block s)) [
    | inl e ↦ Votes-to (Votes-refl s) (ground arith)
    | inr (block_hash, e) ↦ elim (Outcome-cases (vote_for_found w next_vote block_hash s)) [
      | inl f ↦ ground arith
      | inr ((t, placed), f) ↦
          Votes-to (flagged s t (vote_for_found-Votes w next_vote block_hash s f) placed)
            (ground arith)
    ]
  ]
]

next_vote_null_block-Votes :
    (w : World) (s : PbftManager) {s' : PbftManager}
    → next_vote_null_block w s ≡ done s'
    → Votes s s'
unfolding next_vote_null_block
next_vote_null_block-Votes w s {s'} h =
    elim (Outcome-cases (vote_now w next_vote null_block_hash none s)) [
      | inl e ↦ Votes-to (Votes-refl s) (ground arith)
      | inr ((t, placed), e) ↦
          let voted =
            flagged_null s t (vote_now-Votes w next_vote null_block_hash none s e) placed in
          elim (Bool-cases (
            not (is_none s.machine.cert_voted_block_for_round)
            || (s.machine.already_next_voted_null_block_hash || ltb s.machine.round 2))) [
              | inl skips ↦ Votes-to (Votes-refl s) (ground arith)
              | inr may ↦
                  elim (Bool-cases (is_none (voted_in (round_before s) next_voted_null_block s))) [
                    | inl skips ↦ Votes-to (Votes-refl s) (ground arith)
                    | inr yes_voted ↦ Votes-to voted (ground arith)
                  ]
            ]
    ]

pub second_finish-Votes :
    (w : World) (s : PbftManager) {s' : PbftManager} → second_finish w s ≡ done s' → Votes s s'
unfolding second_finish get_pbft_period
second_finish-Votes w s {s'} h = elim (Outcome-cases (next_vote_soft_voted_block w s)) [
  | inl e ↦ ground arith
  | inr (t, e) ↦ elim (Outcome-cases (next_vote_null_block w t)) [
    | inl f ↦ ground arith
    | inr (u, f) ↦
        let time = elapsed w u.machine.second_finish_step_start in
        let over = ltb (2 * u.lambdas.current_round_lambda) (time + 2 * k_polling_interval_ms) in
        let both =
          Votes-trans (next_vote_soft_voted_block-Votes w s e) (next_vote_null_block-Votes w t f) in
        let last : PbftManager = record u {
          machine = record u.machine { loop_back_finish_state = over };
        } in
        Votes-to (Votes-trans both (Votes-same u last refl refl)) (ground arith)
  ]
]
