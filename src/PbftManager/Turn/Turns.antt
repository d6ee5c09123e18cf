-- ===== src/PbftManager/Turn/Turns.antt =====
-- PbftManager: the `switch` of run in a state of the invariant.
use rustaxa.Common.{
  ◌+◌, ◌%◌, ◌≤◌, ◌<◌, ◌≡◌, ap, subst, ◌∙◌, inl, inr, Bool, true, false, arith, if◌then◌else◌, u32,
}
use rustaxa.Common.Outcome.{done, Outcome-cases}
use rustaxa.PbftManager.{
  World, PbftManager, PbftStates, value_proposal_state, filter_state, certify_state, finish_state,
  finish_polling_state,
}
use rustaxa.PbftManager.Steps.{propose_block, identify_block, certify_block}
use rustaxa.PbftManager.Finishing.{first_finish, second_finish}
use rustaxa.PbftManager.Steps.Place.{Place, Votes}
use rustaxa.PbftManager.Steps.Votes.{identify_block-Votes, first_finish-Votes, second_finish-Votes}
use rustaxa.PbftManager.Steps.Proposal.{propose_block-Votes}
use rustaxa.PbftManager.Steps.Certify.{Certifies, certify_block-Certifies}
use rustaxa.PbftManager.Turn.{run_state}
use rustaxa.PbftManager.Turn.Safe.{
  InStep, IsSafe, Votes-IsSafe, Certifies-IsSafe, set_filter_state-IsSafe, set_certify_state-IsSafe,
  set_finish_state-IsSafe, set_finish_polling_state-IsSafe, loop_back_finish_state-IsSafe,
  poll-IsSafe,
}

Votes_step : {s t : PbftManager} → Votes s t → t.machine.step ≡ s.machine.step
Votes_step v = ap (λ (p : Place). p.step) v.same_place

Certifies-step : {s t : PbftManager} → Certifies s t → t.machine.step ≡ s.machine.step
Certifies-step (inl q) = ap (λ (p : Place). p.step) q.same_place
Certifies-step (inr (b, c)) = ap (λ (p : Place). p.step) c.moved

either-IsSafe : (b : Bool) {s t : PbftManager} → IsSafe s → IsSafe t → IsSafe (if b then s else t)
either-IsSafe true i j = i
either-IsSafe false i j = j

module _ (w : World) (s : PbftManager) (fits : s.machine.step + 1 < u32) (i : IsSafe s) where
  pub run_state-IsSafe :
      (state : PbftStates) {s' : PbftManager}
      → s.machine.state ≡ state
      → run_state w state s ≡ done s'
      → IsSafe s'
  unfolding run_state
  run_state-IsSafe value_proposal_state at h = elim (Outcome-cases (propose_block w s)) [
    | inl e ↦ ground arith
    | inr (t, e) ↦
        let in_step : s.machine.step ≡ 1 = subst (λ x. InStep x s.machine.step) at i.in_step in
        let v = propose_block-Votes w s e in
        let same = Votes_step v in
        subst IsSafe (ground arith) (
          set_filter_state-IsSafe w t (omega arith) (Votes-IsSafe s t v (λ three. omega arith) i)
            (same ∙ in_step))
  ]
  run_state-IsSafe filter_state at h = elim (Outcome-cases (identify_block w s)) [
    | inl e ↦ ground arith
    | inr (t, e) ↦
        let in_step : s.machine.step ≡ 2 = subst (λ x. InStep x s.machine.step) at i.in_step in
        let v = identify_block-Votes w s e in
        let same = Votes_step v in
        subst IsSafe (ground arith) (
          set_certify_state-IsSafe w t (omega arith) (Votes-IsSafe s t v (λ three. omega arith) i)
            (same ∙ in_step))
  ]
  run_state-IsSafe certify_state at h = elim (Outcome-cases (certify_block w s)) [
    | inl e ↦ ground arith
    | inr (t, e) ↦
        let in_step : s.machine.step ≡ 3 = subst (λ x. InStep x s.machine.step) at i.in_step in
        let c = certify_block-Certifies w s e in
        let same = Certifies-step c in
        let j = Certifies-IsSafe s t c i in
        subst IsSafe (ground arith) (
          either-IsSafe t.machine.go_finish_state
            (set_finish_state-IsSafe w t (omega arith) j (same ∙ in_step))
            (poll-IsSafe w t (omega arith) j))
  ]
  run_state-IsSafe finish_state at h = elim (Outcome-cases (first_finish w s)) [
    | inl e ↦ ground arith
    | inr (t, e) ↦
        let in_step : (4 ≤ s.machine.step) × (s.machine.step % 2 ≡ 0) =
          subst (λ x. InStep x s.machine.step) at i.in_step in
        let v = first_finish-Votes w s e in
        let same = Votes_step v in
        subst IsSafe (ground arith) (
          set_finish_polling_state-IsSafe w t (omega arith)
            (Votes-IsSafe s t v (λ three. omega arith) i) (omega arith, omega arith))
  ]
  run_state-IsSafe finish_polling_state at h = elim (Outcome-cases (second_finish w s)) [
    | inl e ↦ ground arith
    | inr (t, e) ↦
        let in_step : (4 ≤ s.machine.step) × (s.machine.step % 2 ≡ 1) =
          subst (λ x. InStep x s.machine.step) at i.in_step in
        let v = second_finish-Votes w s e in
        let same = Votes_step v in
        let j = Votes-IsSafe s t v (λ three. omega arith) i in
        subst IsSafe (ground arith) (
          either-IsSafe t.machine.loop_back_finish_state
            (loop_back_finish_state-IsSafe w t (omega arith) j (omega arith, omega arith))
            (poll-IsSafe w t (omega arith) j))
  ]
