-- ===== src/PbftManager/Turn/Pushed.antt =====
-- PbftManager: a pushed block, stateOperations_ and one turn of run in a state of the invariant.
use rustaxa.Common.{
  ◌+◌, ◌<◌, ◌≡◌, refl, subst, inl, inr, Bool, true, false, none, some, List, [], ◌∷◌, arith,
  Bool-cases, u32,
}
use rustaxa.Common.Outcome.{done, Outcome-cases}
use rustaxa.Common.Map.{contains}
use rustaxa.Vote.{PbftVote}
use rustaxa.PbftBlock.{PbftBlock}
use rustaxa.VerifiedVotes.{cert_voted_block, get_two_t_plus_one_voted_block_votes}
use rustaxa.VoteManager.{VoteManager}
use rustaxa.VoteManager.Rewards.{reset_reward_votes, check_reward_votes}
use rustaxa.PbftManager.{World, PbftManager, get_pbft_period}
use rustaxa.PbftManager.Voting.{get_wallets}
use rustaxa.PbftManager.Steps.{find_proposed}
use rustaxa.PbftManager.Steps.Certify.{find_proposed-Waits}
use rustaxa.PbftManager.Advance.{advance_period, advance_round}
use rustaxa.PbftManager.Push.{
  create_pillar, finalize_pillar, adjust_lambdas, process_pillar_block, push_pbft_block,
  push_cert_voted_pbft_block_into_chain, try_push_cert_votes_block, store_block, mark_executed,
  is_pillar_block_period,
}
use rustaxa.PbftManager.Turn.{push_if_synced, advance_or_wait, state_operations, turn}
use rustaxa.PbftManager.Turn.Safe.{IsSafe}
use rustaxa.PbftManager.Turn.Turns.{run_state-IsSafe}
use rustaxa.PbftManager.Turn.Rounds.{
  IsKnown, IsSafe-IsKnown, advance_period-IsSafe, advance_round-IsSafe, process_pillar_block-IsSafe,
  adjust_lambdas-IsKnown, Waits-IsSafe,
}

-- The new block is in the chain and its period begins.
stored-IsSafe :
    (w : World) (b : PbftBlock) (v : PbftVote) (m : VoteManager) (s : PbftManager) {t : PbftManager}
    → IsSafe s
    → advance_period w (mark_executed (adjust_lambdas w b.period v.round (store_block w b m s)))
      ≡ done t
    → IsSafe t
stored-IsSafe w b v m s i h =
    let stored = store_block w b m s in
    let adjusted = adjust_lambdas w b.period v.round stored in
    let known : IsKnown (mark_executed adjusted) =
      adjust_lambdas-IsKnown w b.period v.round stored (IsSafe-IsKnown s i) in
    advance_period-IsSafe w (mark_executed adjusted) known h

create_pillar-IsSafe :
    (w : World) (b : PbftBlock) (t : PbftManager) {s' : PbftManager} {pushed : Bool}
    → IsSafe t
    → create_pillar w b t ≡ done (s', pushed)
    → IsSafe s'
unfolding create_pillar
create_pillar-IsSafe w b t i h =
    elim (Bool-cases (is_pillar_block_period b.period w.config.ficus_hf)) [
      | inr f ↦ subst IsSafe (ground arith) i
      | inl f ↦ elim (Outcome-cases (process_pillar_block w b.period t)) [
        | inl e ↦ ground arith
        | inr (u, e) ↦ subst IsSafe (ground arith) (process_pillar_block-IsSafe w b.period t i e)
      ]
    ]

pub push_pbft_block-IsSafe :
    (w : World) (b : PbftBlock) (cert_votes : List PbftVote) (s : PbftManager) {s' : PbftManager}
    {pushed : Bool}
    → IsSafe s
    → push_pbft_block w b cert_votes s ≡ done (s', pushed)
    → IsSafe s'
unfolding push_pbft_block
push_pbft_block-IsSafe w b [] s i h = elim (Bool-cases (contains b.block_hash s.pbft_blocks)) [
  | inl there ↦ subst IsSafe (ground arith) i
  | inr new ↦ ground arith
]
push_pbft_block-IsSafe w b (v ∷ vs) s {s'} {pushed} i h =
    elim (Bool-cases (contains b.block_hash s.pbft_blocks)) [
      | inl there ↦ subst IsSafe (ground arith) i
      | inr new ↦ elim (Outcome-cases (finalize_pillar w b)) [
        | inl e ↦ ground arith
        | inr (false, e) ↦ subst IsSafe (ground arith) i
        | inr (true, e) ↦
            elim (Outcome-cases
              (reset_reward_votes v.period v.round v.step v.block_hash s.vote_mgr)) [
                | inl f ↦ ground arith
                | inr (m, f) ↦
                    let stored =
                      mark_executed (adjust_lambdas w b.period v.round (store_block w b m s)) in
                    elim (Outcome-cases (advance_period w stored)) [
                      | inl g ↦ ground arith
                      | inr (t, g) ↦
                          create_pillar-IsSafe w b t {s' = s'} {pushed = pushed}
                            (stored-IsSafe w b v m s i g) (ground arith)
                    ]
              ]
      ]
    ]

push_cert_voted-IsSafe :
    (w : World) (b : PbftBlock) (cert_votes : List PbftVote) (s : PbftManager) {s' : PbftManager}
    {pushed : Bool}
    → IsSafe s
    → push_cert_voted_pbft_block_into_chain w b cert_votes s ≡ done (s', pushed)
    → IsSafe s'
unfolding push_cert_voted_pbft_block_into_chain
push_cert_voted-IsSafe w b cert_votes s {s'} {pushed} i h =
    elim (Outcome-cases (check_reward_votes b true s.vote_mgr)) [
      | inl e ↦ ground arith
      | inr (none, e) ↦ subst IsSafe (ground arith) i
      | inr (some votes, e) ↦
          push_pbft_block-IsSafe w b cert_votes s {s' = s'} {pushed = pushed} i (ground arith)
    ]

try_push_cert_votes_block-IsSafe :
    (w : World) (s : PbftManager) {s' : PbftManager} {pushed : Bool}
    → IsSafe s
    → try_push_cert_votes_block w s ≡ done (s', pushed)
    → IsSafe s'
unfolding try_push_cert_votes_block
try_push_cert_votes_block-IsSafe w s {s'} {pushed} i h =
    elim (Outcome-cases (
      get_two_t_plus_one_voted_block_votes (get_pbft_period s) s.machine.round cert_voted_block
        s.vote_mgr.verified_votes)) [
          | inl e ↦ ground arith
          | inr ([], e) ↦ subst IsSafe (ground arith) i
          | inr (v ∷ rest, e) ↦ elim (Outcome-cases (find_proposed w v.block_hash s)) [
            | inl f ↦ ground arith
            | inr ((t, none), f) ↦
                subst IsSafe (ground arith)
                  (Waits-IsSafe s t (find_proposed-Waits w v.block_hash s f) i)
            | inr ((t, some b), f) ↦
                push_cert_voted-IsSafe w b (v ∷ rest) t {s' = s'} {pushed = pushed}
                  (Waits-IsSafe s t (find_proposed-Waits w v.block_hash s f) i) (ground arith)
          ]
        ]

push_if_synced-IsSafe :
    (w : World) (synced : Bool) (s : PbftManager) {s' : PbftManager} {pushed : Bool}
    → IsSafe s
    → push_if_synced w synced s ≡ done (s', pushed)
    → IsSafe s'
unfolding push_if_synced
push_if_synced-IsSafe w false s i h = subst IsSafe (ground arith) i
push_if_synced-IsSafe w true s i h = try_push_cert_votes_block-IsSafe w s i h

advance_or_wait-IsSafe :
    (w : World) (s : PbftManager) {s' : PbftManager} {again : Bool}
    → IsSafe s
    → advance_or_wait w s ≡ done (s', again)
    → IsSafe s'
unfolding advance_or_wait
advance_or_wait-IsSafe w s i h = elim (Outcome-cases (advance_round w s)) [
  | inl e ↦ ground arith
  | inr ((t, true), e) ↦ subst IsSafe (ground arith) (advance_round-IsSafe w s i e)
  | inr ((t, false), e) ↦
      elim (Outcome-cases (get_wallets (get_pbft_period t) t.eligible_wallets)) [
        | inl f ↦ ground arith
        | inr (wallets, f) ↦ subst IsSafe (ground arith) (advance_round-IsSafe w s i e)
      ]
]

state_operations-IsSafe :
    (w : World) (synced : Bool) (s : PbftManager) {s' : PbftManager} {again : Bool}
    → IsSafe s
    → state_operations w synced s ≡ done (s', again)
    → IsSafe s'
unfolding state_operations
state_operations-IsSafe w synced s {s'} {again} i h =
    elim (Outcome-cases (push_if_synced w synced s)) [
      | inl e ↦ ground arith
      | inr ((t, true), e) ↦ subst IsSafe (ground arith) (push_if_synced-IsSafe w synced s i e)
      | inr ((t, false), e) ↦
          advance_or_wait-IsSafe w t {s' = s'} {again = again}
            (push_if_synced-IsSafe w synced s i e) (ground arith)
    ]

-- The step that a turn starts from, after the operations that come first.
abbrev pub Fits : World → Bool → PbftManager → Type 0
Fits w synced s =
    (t : PbftManager) → state_operations w synced s ≡ done (t, false) → t.machine.step + 1 < u32

pub turn-IsSafe :
    (w : World) (synced : Bool) (s : PbftManager) {s' : PbftManager}
    → IsSafe s
    → Fits w synced s
    → turn w synced s ≡ done s'
    → IsSafe s'
unfolding turn
turn-IsSafe w synced s {s'} i fits h = elim (Outcome-cases (state_operations w synced s)) [
  | inl e ↦ ground arith
  | inr ((t, true), e) ↦ subst IsSafe (ground arith) (state_operations-IsSafe w synced s i e)
  | inr ((t, false), e) ↦
      run_state-IsSafe w t (fits t e) (state_operations-IsSafe w synced s i e) t.machine.state
        {s' = s'} refl (ground arith)
]
