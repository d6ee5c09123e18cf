-- ===== src/PbftManager/Turn/Safe.antt =====
-- PbftManager: the invariant of a node between two turns, and the turn in a state.
use rustaxa.Common.{
  ℕ, ◌+◌, ◌%◌, ◌≤◌, ◌<◌, ◌≡◌, refl, sym, ap, subst, ◌∙◌, ◌≢◌, inl, inr, Option, none, some, arith,
  u32, All,
}
use rustaxa.Common.ListLaws.{All-map}
use rustaxa.Vote.{PbftVote}
use rustaxa.PbftBlock.{PbftBlock}
use rustaxa.PbftManager.{
  World, PbftManager, PbftStates, value_proposal_state, filter_state, certify_state, finish_state,
  finish_polling_state, get_pbft_period,
}
use rustaxa.PbftManager.Steps.{set_pbft_step}
use rustaxa.PbftManager.Steps.Place.{Place, place, Votes}
use rustaxa.PbftManager.Steps.Certify.{CertVotes, Certifies}
use rustaxa.PbftManager.Turn.{
  set_filter_state, set_certify_state, set_finish_state, set_finish_polling_state,
  loop_back_finish_state, poll,
}

-- The steps of a state.
abbrev pub InStep : PbftStates → ℕ → Type 0
InStep value_proposal_state step = step ≡ 1
InStep filter_state step = step ≡ 2
InStep certify_state step = step ≡ 3
InStep finish_state step = (4 ≤ step) × (step % 2 ≡ 0)
InStep finish_polling_state step = (4 ≤ step) × (step % 2 ≡ 1)

-- A vote of the round, cast in a step that was reached; a cert vote is for the cert voted block.
abbrev pub IsOwn : Place → PbftVote → Type 0
IsOwn p v =
    (v.period ≡ p.period)
    × (v.round ≡ p.round)
    × (v.step ≤ p.step)
    × (v.step ≡ 3 → (b : PbftBlock) × (p.cert ≡ some b) × (v.block_hash ≡ b.block_hash))

-- The cert voted block is in the database, and of the period.
abbrev pub IsSavedCert : Place → Option PbftBlock → Type 0
IsSavedCert p none = p.db_cert ≡ none
IsSavedCert p (some b) = (p.db_cert ≡ some (p.round, b)) × (b.period ≡ p.period)

pub record IsSafe (s : PbftManager) : Type 0 where
  pub in_step : InStep s.machine.state s.machine.step
  pub own : All (IsOwn (place s)) s.own_verified_votes
  pub saved : (s.db.round ≡ s.machine.round) × (s.db.step ≡ s.machine.step)
  pub saved_cert : IsSavedCert (place s) s.machine.cert_voted_block_for_round

-- The parts of the invariant by the place alone.
abbrev pub IsPlaced : Place → Type 0
IsPlaced p =
    InStep p.state p.step × (p.db_round ≡ p.round) × (p.db_step ≡ p.step) × IsSavedCert p p.cert

pub IsSafe-IsPlaced : (s : PbftManager) → IsSafe s → IsPlaced (place s)
IsSafe-IsPlaced s i = (i.in_step, i.saved.0, i.saved.1, i.saved_cert)

pub IsPlaced-IsSafe :
    (s : PbftManager) → IsPlaced (place s) → All (IsOwn (place s)) s.own_verified_votes → IsSafe s
IsPlaced-IsSafe s (in_step, round, step, cert) own = record {
  in_step = in_step;
  own = own;
  saved = (round, step);
  saved_cert = cert;
}

pub IsSafe-place :
    (s : PbftManager) (p : Place)
    → place s ≡ p
    → IsPlaced p
    → All (IsOwn p) s.own_verified_votes
    → IsSafe s
IsSafe-place s p e placed own =
    IsPlaced-IsSafe s (subst IsPlaced (sym e) placed)
      (subst (λ x. All (IsOwn x) s.own_verified_votes) (sym e) own)

-- A call that votes outside step 3.
pub Votes-IsSafe : (s s' : PbftManager) → Votes s s' → s.machine.step ≢ 3 → IsSafe s → IsSafe s'
Votes-IsSafe s s' v other i = IsSafe-place s' (place s) v.same_place (IsSafe-IsPlaced s i) (
    v.votes (IsOwn (place s))
      (λ x now. (now.0, now.1, omega (arith, now.2), λ three. absurd (other (sym now.2 ∙ three))))
      i.own)

clash :
    {c : Option PbftBlock} {Rest : PbftBlock → Type 0}
    → c ≡ none
    → (b : PbftBlock) × (c ≡ some b) × Rest b
    → ⊥
clash e (b, f, _) = cc

-- A cert vote where none was cast.
CertVotes-IsSafe : (s s' : PbftManager) (b : PbftBlock) → CertVotes s s' b → IsSafe s → IsSafe s'
CertVotes-IsSafe s s' b c i =
    let q : Place = record (place s) { cert = some b; db_cert = some (s.machine.round, b) } in
    let old =
      All-map (IsOwn (place s)) (IsOwn q) s.own_verified_votes
        (λ v own. (own.0, own.1, own.2, λ three. absurd (clash c.fresh (own.3 three)))) i.own in
    IsSafe-place s' q c.moved (i.in_step, i.saved.0, i.saved.1, (refl, c.of_period))
      (c.votes (IsOwn q)
        (λ v now. (now.0.0, now.0.1, omega (arith, now.0.2), λ three. (b, refl, now.1))) old)

pub Certifies-IsSafe : (s s' : PbftManager) → Certifies s s' → IsSafe s → IsSafe s'
Certifies-IsSafe s s' (inl w) i =
    IsSafe-place s' (place s) w.same_place (IsSafe-IsPlaced s i)
      (subst (All (IsOwn (place s))) (sym w.no_vote) i.own)
Certifies-IsSafe s s' (inr (b, c)) i = CertVotes-IsSafe s s' b c i

IsSavedCert-move :
    (p q : Place) (c : Option PbftBlock)
    → q.db_cert ≡ p.db_cert
    → q.round ≡ p.round
    → q.period ≡ p.period
    → IsSavedCert p c
    → IsSavedCert q c
IsSavedCert-move p q none e f g saved = e ∙ saved
IsSavedCert-move p q (some b) e f g (saved, at) =
    (e ∙ saved ∙ ap (λ r. some (r, b)) (sym f), at ∙ sym g)

-- The next state, in a later step.
moved-IsSafe :
    (s s' : PbftManager) (state : PbftStates) (step : ℕ)
    → place s' ≡ record (place s) { state = state; step = step; db_step = step }
    → s'.own_verified_votes ≡ s.own_verified_votes
    → s.machine.step ≤ step
    → InStep state step
    → IsSafe s
    → IsSafe s'
moved-IsSafe s s' state step e own later in_step i =
    let q : Place = record (place s) { state = state; step = step; db_step = step } in
    IsSafe-place s' q e
      (
        in_step,
        i.saved.0,
        refl,
        IsSavedCert-move (place s) q s.machine.cert_voted_block_for_round refl refl refl
            i.saved_cert,
      )
      (subst (All (IsOwn q)) (sym own) (
        All-map (IsOwn (place s)) (IsOwn q) s.own_verified_votes
          (λ v o. (o.0, o.1, omega (arith, o.2), o.3)) i.own))

module _ (w : World) (s : PbftManager) (fits : s.machine.step + 1 < u32) (i : IsSafe s) where
  pub set_filter_state-IsSafe : s.machine.step ≡ 1 → IsSafe (set_filter_state w s)
  unfolding set_filter_state set_pbft_step get_pbft_period
  set_filter_state-IsSafe e =
      moved-IsSafe s (set_filter_state w s) filter_state ((s.machine.step + 1) % u32) refl refl
        (omega arith) (omega arith) i

  pub set_certify_state-IsSafe : s.machine.step ≡ 2 → IsSafe (set_certify_state w s)
  unfolding set_certify_state set_pbft_step get_pbft_period
  set_certify_state-IsSafe e =
      moved-IsSafe s (set_certify_state w s) certify_state ((s.machine.step + 1) % u32) refl refl
        (omega arith) (omega arith) i

  pub set_finish_state-IsSafe : s.machine.step ≡ 3 → IsSafe (set_finish_state w s)
  unfolding set_finish_state set_pbft_step get_pbft_period
  set_finish_state-IsSafe e =
      moved-IsSafe s (set_finish_state w s) finish_state ((s.machine.step + 1) % u32) refl refl
        (omega arith) (omega arith, omega arith) i

  pub set_finish_polling_state-IsSafe :
      (4 ≤ s.machine.step) × (s.machine.step % 2 ≡ 0) → IsSafe (set_finish_polling_state w s)
  unfolding set_finish_polling_state set_pbft_step get_pbft_period
  set_finish_polling_state-IsSafe e =
      moved-IsSafe s (set_finish_polling_state w s) finish_polling_state
        ((s.machine.step + 1) % u32) refl refl (omega arith) (omega arith, omega arith) i

  pub loop_back_finish_state-IsSafe :
      (4 ≤ s.machine.step) × (s.machine.step % 2 ≡ 1) → IsSafe (loop_back_finish_state w s)
  unfolding loop_back_finish_state set_pbft_step get_pbft_period
  loop_back_finish_state-IsSafe e =
      moved-IsSafe s (loop_back_finish_state w s) finish_state ((s.machine.step + 1) % u32) refl
        refl (omega arith) (omega arith, omega arith) i

  pub poll-IsSafe : IsSafe (poll s)
  unfolding get_pbft_period
  poll-IsSafe = IsSafe-place (poll s) (place s) refl (IsSafe-IsPlaced s i) i.own
