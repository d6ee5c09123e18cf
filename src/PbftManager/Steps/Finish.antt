-- ===== src/PbftManager/Steps/Finish.antt =====
-- PbftManager: which blocks are next voted in the two finish states.
use rustaxa.Common.{
  ℕ, ◌+◌, ◌*◌, ◌≡◌, refl, sym, ap, subst, ◌∙◌, inl, inr, Bool, true, false, Option, none, some,
  arith, ltb, Bool-cases, All,
}
use rustaxa.Common.Outcome.{done, Outcome-cases}
use rustaxa.Vote.{PbftVote, PbftVoteTypes, next_vote}
use rustaxa.PbftBlock.{PbftBlock}
use rustaxa.VerifiedVotes.{soft_voted_block}
use rustaxa.PbftManager.{World, PbftManager, get_pbft_period}
use rustaxa.PbftManager.Voting.{k_polling_interval_ms}
use rustaxa.PbftManager.Voting.Placed.{Adds, gen_and_place_vote-Places}
use rustaxa.PbftManager.Steps.{voted_in, find_proposed, vote_now, vote_for_found, elapsed}
use rustaxa.PbftManager.Finishing.{
  first_finish, second_finish, next_vote_soft_voted_block, next_vote_null_block,
  note_next_voted_value,
}
use rustaxa.PbftManager.Steps.Place.{Place}
use rustaxa.PbftManager.Steps.Votes.{next_vote_soft_voted_block-Votes}
use rustaxa.PbftManager.Steps.Certify.{find_proposed-Waits}

-- A vote for a block.
abbrev pub IsFor : ℕ → PbftVote → Type 0
IsFor block_hash v = v.block_hash ≡ block_hash

Adds-to : {New : PbftVote → Type 0} (s x s' : PbftManager) → Adds New s x → x ≡ s' → Adds New s s'
Adds-to s x s' a e = rw (← e) a

vote_now-Adds :
    (w : World) (type : PbftVoteTypes) (block_hash : ℕ) (b : Option PbftBlock) (s : PbftManager)
    {s' : PbftManager} {placed : Bool}
    → vote_now w type block_hash b s ≡ done (s', placed)
    → Adds (IsFor block_hash) s s'
unfolding vote_now
vote_now-Adds w type block_hash b s h =
    let p =
      gen_and_place_vote-Places w type (get_pbft_period s) s.machine.round s.machine.step block_hash
        b s h in
    λ P new all. p.votes P (λ v at. new v at.for_block) all

vote_for_found-Adds :
    (w : World) (type : PbftVoteTypes) (block_hash : ℕ) (s : PbftManager) {s' : PbftManager}
    {placed : Bool}
    → vote_for_found w type block_hash s ≡ done (s', placed)
    → Adds (IsFor block_hash) s s'
unfolding vote_for_found
vote_for_found-Adds w type block_hash s {s'} {placed} h =
    elim (Outcome-cases (find_proposed w block_hash s)) [
      | inl e ↦ ground arith
      | inr ((t, none), e) ↦
          Adds-to s t s'
            (λ P new all. subst (All P) (sym (find_proposed-Waits w block_hash s e).no_vote) all)
            (ground arith)
      | inr ((t, some b), e) ↦ λ P new all.
          vote_now-Adds w type block_hash (some b) t {s' = s'} {placed = placed} (ground arith) P
            new (subst (All P) (sym (find_proposed-Waits w block_hash s e).no_vote) all)
    ]

-- If the node has a cert voted block, the own votes that a call of firstFinish_ adds are for it.
pub first_finish-Adds :
    (w : World) (s : PbftManager) (b : PbftBlock) {s' : PbftManager}
    → s.machine.cert_voted_block_for_round ≡ some b
    → first_finish w s ≡ done s'
    → Adds (IsFor b.block_hash) s s'
unfolding first_finish
first_finish-Adds w s b {s'} voted h =
    elim (Outcome-cases (vote_now w next_vote b.block_hash (some b) s)) [
      | inl e ↦ ground arith
      | inr ((t, placed), e) ↦
          Adds-to s t s' (vote_now-Adds w next_vote b.block_hash (some b) s e) (ground arith)
    ]

next_vote_null_block_skips :
    (w : World) (s : PbftManager) (b : PbftBlock)
    → s.machine.cert_voted_block_for_round ≡ some b
    → next_vote_null_block w s ≡ done s
unfolding next_vote_null_block
next_vote_null_block_skips w s b voted = rw (next_vote_null_block, voted) refl

next_vote_soft_voted_block-Adds :
    (w : World) (s : PbftManager) (soft : ℕ) {s' : PbftManager}
    → voted_in s.machine.round soft_voted_block s ≡ some soft
    → next_vote_soft_voted_block w s ≡ done s'
    → Adds (IsFor soft) s s'
unfolding next_vote_soft_voted_block
next_vote_soft_voted_block-Adds w s soft {s'} soft_voted h =
    elim (Bool-cases s.machine.already_next_voted_value) [
      | inl yet ↦ Adds-to s s s' (λ P new all. all) (ground arith)
      | inr first ↦ elim (Outcome-cases (vote_for_found w next_vote soft s)) [
        | inl e ↦ ground arith
        | inr ((t, true), e) ↦
            Adds-to s (note_next_voted_value t) s' (vote_for_found-Adds w next_vote soft s e)
              (ground arith)
        | inr ((t, false), e) ↦
            Adds-to s t s' (vote_for_found-Adds w next_vote soft s e) (ground arith)
      ]
    ]

-- If the node has a cert voted block and the round has a block with 2t+1 soft votes, the own votes
-- that a call of secondFinish_ adds are for the latter.
pub second_finish-Adds :
    (w : World) (s : PbftManager) (b : PbftBlock) (soft : ℕ) {s' : PbftManager}
    → s.machine.cert_voted_block_for_round ≡ some b
    → voted_in s.machine.round soft_voted_block s ≡ some soft
    → second_finish w s ≡ done s'
    → Adds (IsFor soft) s s'
unfolding second_finish
second_finish-Adds w s b soft {s'} voted soft_voted h =
    elim (Outcome-cases (next_vote_soft_voted_block w s)) [
      | inl e ↦ ground arith
      | inr (t, e) ↦
          let kept : t.machine.cert_voted_block_for_round ≡ some b =
            ap (λ (p : Place). p.cert) (next_vote_soft_voted_block-Votes w s e).same_place
            ∙ voted in
          let time = elapsed w t.machine.second_finish_step_start in
          let over = ltb (2 * t.lambdas.current_round_lambda) (time + 2 * k_polling_interval_ms) in
          let last : PbftManager = record t {
            machine = record t.machine { loop_back_finish_state = over };
          } in
          Adds-to s last s' (next_vote_soft_voted_block-Adds w s soft soft_voted e)
            (ground (arith, next_vote_null_block_skips w t b kept))
    ]
