-- ===== src/PbftManager/Turn/Restart.antt =====
-- PbftManager: the restart of a node from its database.
use rustaxa.Common.{
  ℕ, ◌+◌, ◌%◌, ◌≤◌, ◌≡◌, refl, sym, ap, subst, ◌∙◌, ◌⊎◌, inl, inr, Bool, true, false, ◌&&◌, Option,
  none, some, arith, ltb, ◌==◌, if◌then◌else◌, Bool-cases, Option-cases, u64, All,
}
use rustaxa.Common.Outcome.{done, Outcome-cases}
use rustaxa.Common.ListLaws.{All-map}
use rustaxa.Vote.{PbftVote}
use rustaxa.PbftBlock.{PbftBlock}
use rustaxa.VoteManager.Own.{set_current_pbft_period_and_round}
use rustaxa.PbftManager.{World, PbftManager, PbftStates, get_pbft_period}
use rustaxa.PbftManager.Steps.{set_pbft_step}
use rustaxa.PbftManager.Steps.Place.{Place, place}
use rustaxa.PbftManager.Steps.Certify.{waits}
use rustaxa.PbftManager.Advance.{update_wallets_eligibility}
use rustaxa.PbftManager.Turn.{in_state}
use rustaxa.PbftManager.Start.{
  restart_pillar, initial_step, initial_lambdas, initial_cert_voted, new_pbft_manager, restored,
  reload_blocks, push_cert_voted, initial_state, restart,
}
use rustaxa.PbftManager.Turn.Safe.{InStep, IsOwn, IsSavedCert, IsSafe, IsSafe-place}
use rustaxa.PbftManager.Turn.Rounds.{Waits-IsSafe, process_pillar_block-IsSafe}
use rustaxa.PbftManager.Push.{is_pillar_block_period}

-- A vote that the database accounts for.
abbrev pub IsStoredVote : PbftManager → PbftVote → Type 0
IsStoredVote s v =
    (v.period ≡ get_pbft_period s)
    × (v.round ≡ s.db.round)
    × (v.step ≤ s.db.step)
    × (v.step ≡ 3
        → (b : PbftBlock) × (s.db.cert_voted_block_in_round ≡ some (s.db.round, b))
          × (v.block_hash ≡ b.block_hash))

abbrev pub IsOfRound : PbftManager → Option (ℕ × PbftBlock) → Type 0
IsOfRound s none = Unit
IsOfRound s (some (round, b)) = (round ≡ s.db.round) × (b.period ≡ get_pbft_period s)

-- A database from which a node can go on.
pub record IsRestorable (s : PbftManager) : Type 0 where
  pub own : All (IsStoredVote s) s.own_verified_votes
  pub cert : IsOfRound s s.db.cert_voted_block_in_round

IsSavedCert-IsOfRound :
    (s : PbftManager) (c : Option PbftBlock)
    → s.db.round ≡ s.machine.round
    → IsSavedCert (place s) c
    → IsOfRound s s.db.cert_voted_block_in_round
unfolding get_pbft_period
IsSavedCert-IsOfRound s none e none_saved = subst (IsOfRound s) (sym none_saved) tt
IsSavedCert-IsOfRound s (some b) e (saved, at) = subst (IsOfRound s) (sym saved) (sym e, at)

pub IsSafe-IsRestorable : (s : PbftManager) → IsSafe s → IsRestorable s
IsSafe-IsRestorable s i = record {
  own =
      All-map (IsOwn (place s)) (IsStoredVote s) s.own_verified_votes
        (λ v o.
          (o.0, o.1 ∙ sym i.saved.0, omega (arith, o.2, i.saved.1), λ three. saved_block v o three))
        i.own;
  cert = IsSavedCert-IsOfRound s s.machine.cert_voted_block_for_round i.saved.0 i.saved_cert;
}
  where
    saved_block :
        (v : PbftVote)
        → IsOwn (place s) v
        → v.step ≡ 3
        → (b : PbftBlock) × (s.db.cert_voted_block_in_round ≡ some (s.db.round, b))
          × (v.block_hash ≡ b.block_hash)
    saved_block v o three =
        let (b, e, same) = o.3 three in
        let (kept, at) = subst (IsSavedCert (place s)) e i.saved_cert in
        (b, kept ∙ ap (λ r. some (r, b)) (sym i.saved.0), same)

-- A state and a step that belong together, the step not before another one.
abbrev Continues : ℕ → PbftStates × ℕ → Type 0
Continues step p = InStep p.0 p.1 × (step ≤ p.1)

if-elim :
    {A : Type 0} (P : A → Type 0) (b : Bool) {x y : A}
    → (b ≡ true → P x)
    → (b ≡ false → P y)
    → P (if b then x else y)
if-elim P true f g = f refl
if-elim P false f g = g refl

initial_step-Continues : (round step : ℕ) → Continues step (initial_step round step)
unfolding initial_step
initial_step-Continues round step =
    if-elim (Continues step) (round == 1 && step == 1) (λ e. (ground arith, omega arith))
      (λ e.
        if-elim (Continues step) (ltb step 4) (λ f. ((omega arith, refl), ground arith))
          (λ f.
            if-elim (Continues step) (step % 2 == 0)
              (λ g. ((ground arith, ground arith), omega arith))
              (λ g. ((ground arith, ground arith), omega arith))))

restored_cert :
    (s : PbftManager) (c : Option (ℕ × PbftBlock))
    → IsOfRound s c
    → (initial_cert_voted (get_pbft_period s) s.db.round c ≡ none) × (c ≡ none)
      ⊎ ((b : PbftBlock) × (initial_cert_voted (get_pbft_period s) s.db.round c ≡ some b)
          × (c ≡ some (s.db.round, b))
          × (b.period ≡ get_pbft_period s))
unfolding initial_cert_voted
restored_cert s none of_round = inl (refl, refl)
restored_cert s (some (round, b)) (e, at) = inr (b, ground arith, ap (λ r. some (r, b)) e, at)

push_cert_voted_keeps :
    (c : Option (ℕ × PbftBlock)) (s : PbftManager)
    → let t = push_cert_voted c s in
      (t.machine ≡ s.machine)
      × (t.db ≡ s.db)
      × (t.pbft_chain ≡ s.pbft_chain)
      × (t.own_verified_votes ≡ s.own_verified_votes)
push_cert_voted_keeps none s = (refl, refl, refl, refl)
push_cert_voted_keeps (some (_, b)) s = (refl, refl, refl, refl)

-- Where a node starts again.
abbrev initial_place : PbftManager → Place
initial_place s = record {
  state = (initial_step s.db.round s.db.step).0;
  round = s.db.round;
  step = (initial_step s.db.round s.db.step).1;
  cert = initial_cert_voted (get_pbft_period s) s.db.round s.db.cert_voted_block_in_round;
  period = get_pbft_period s;
  db_round = s.db.round;
  db_step = (initial_step s.db.round s.db.step).1;
  db_cert = s.db.cert_voted_block_in_round;
}

not_saved :
    {x : Option (ℕ × PbftBlock)} {r h : ℕ}
    → x ≡ none
    → (b : PbftBlock) × (x ≡ some (r, b)) × (h ≡ b.block_hash)
    → ⊥
not_saved e (b, f, _) = cc

saved_hash :
    {x : Option (ℕ × PbftBlock)} {r h : ℕ} {b : PbftBlock}
    → x ≡ some (r, b)
    → (c : PbftBlock) × (x ≡ some (r, c)) × (h ≡ c.block_hash)
    → h ≡ b.block_hash
saved_hash e (c, f, g) = ground arith

initial_place-IsSafe :
    (s s' : PbftManager)
    → IsRestorable s
    → place s' ≡ initial_place s
    → s'.own_verified_votes ≡ s.own_verified_votes
    → IsSafe s'
initial_place-IsSafe s s' r e own =
    let (in_step, later) = initial_step-Continues s.db.round s.db.step in
    elim (restored_cert s s.db.cert_voted_block_in_round r.cert) [
      | inl (none_now, none_saved) ↦
          IsSafe-place s' (initial_place s) e
            (in_step, refl, refl, subst (IsSavedCert (initial_place s)) (sym none_now) none_saved)
            (subst (All (IsOwn (initial_place s))) (sym own) (
              All-map (IsStoredVote s) (IsOwn (initial_place s)) s.own_verified_votes
                (λ v o. (
                  o.0,
                  o.1,
                  omega (arith, o.2),
                  λ three. absurd (not_saved none_saved (o.3 three)),
                ))
                r.own))
      | inr (b, now, saved, at) ↦
          IsSafe-place s' (initial_place s) e
            (in_step, refl, refl, subst (IsSavedCert (initial_place s)) (sym now) (saved, at))
            (subst (All (IsOwn (initial_place s))) (sym own) (
              All-map (IsStoredVote s) (IsOwn (initial_place s)) s.own_verified_votes
                (λ v o.
                  (o.0, o.1, omega (arith, o.2), λ three. (b, now, saved_hash saved (o.3 three))))
                r.own))
    ]

new_manager_keeps :
    (w : World) (s : PbftManager)
    → let t = new_pbft_manager w s in
      (t.db ≡ s.db) × (t.pbft_chain ≡ s.pbft_chain) × (t.own_verified_votes ≡ s.own_verified_votes)
unfolding new_pbft_manager
new_manager_keeps w s = (refl, refl, refl)

new_pbft_manager-IsRestorable :
    (w : World) (s : PbftManager) → IsRestorable s → IsRestorable (new_pbft_manager w s)
unfolding new_pbft_manager get_pbft_period
new_pbft_manager-IsRestorable w s r = record { own = r.own; cert = r.cert }

initial_state-IsSafe :
    (w : World) (s : PbftManager) {s' : PbftManager}
    → IsRestorable s
    → initial_state w s ≡ done s'
    → IsSafe s'
unfolding initial_state set_pbft_step get_pbft_period
initial_state-IsSafe w s r h =
    elim (Outcome-cases (initial_lambdas w s.pbft_chain.size s.db.round s.db s.lambdas)) [
      | inl e ↦ ground arith
      | inr (l, e) ↦
          elim (Outcome-cases
            (set_current_pbft_period_and_round (get_pbft_period s) s.db.round s.vote_mgr)) [
              | inl f ↦ ground arith
              | inr (m, f) ↦
                  let (state, step) = initial_step s.db.round s.db.step in
                  let stepped = set_pbft_step w step (in_state state (record s { lambdas = l })) in
                  let loaded =
                    push_cert_voted s.db.cert_voted_block_in_round (reload_blocks stepped) in
                  let t : PbftManager = record loaded {
                    vote_mgr = m;
                    machine = restored w s stepped.machine;
                  } in
                  let (a, b, c, d) =
                    push_cert_voted_keeps s.db.cert_voted_block_in_round (reload_blocks stepped) in
                  subst IsSafe (ground arith) (initial_place-IsSafe s t r (rw (b, c)) d)
            ]
    ]

restart_pillar-IsSafe :
    (w : World) (s : PbftManager) {s' : PbftManager}
    → IsSafe s
    → restart_pillar w s ≡ done s'
    → IsSafe s'
unfolding restart_pillar
restart_pillar-IsSafe w s {s'} i h =
    elim (Bool-cases (is_pillar_block_period s.pbft_chain.size w.config.ficus_hf)) [
      | inr f ↦ subst IsSafe (ground arith) i
      | inl f ↦ elim (Option-cases w.current_pillar_block) [
        | inl e ↦ ground arith
        | inr (pillar, e) ↦
            elim (Bool-cases (
              s.pbft_chain.size
              == (pillar.period + w.config.ficus_hf.pillar_blocks_interval) % u64)) [
                | inr other ↦ subst IsSafe (ground arith) i
                | inl due ↦
                    process_pillar_block-IsSafe w s.pbft_chain.size s {s' = s'} i (ground arith)
              ]
      ]
    ]

-- A node that restarts from its database goes on in a state of the invariant.
pub restart-IsSafe :
    (w : World) (s : PbftManager) {s' : PbftManager}
    → IsRestorable s
    → restart w s ≡ done s'
    → IsSafe s'
unfolding restart get_pbft_period
restart-IsSafe w s {s'} r h = elim (Outcome-cases (initial_state w (new_pbft_manager w s))) [
  | inl e ↦ ground arith
  | inr (t, e) ↦
      let i =
        initial_state-IsSafe w (new_pbft_manager w s) (new_pbft_manager-IsRestorable w s r) e in
      elim (Outcome-cases (update_wallets_eligibility w t.pbft_chain.size t.eligible_wallets)) [
        | inl f ↦ ground arith
        | inr (wallets, f) ↦
            let u : PbftManager = record t { eligible_wallets = wallets } in
            restart_pillar-IsSafe w u {s' = s'} (Waits-IsSafe t u (waits t u refl refl) i)
              (ground arith)
      ]
]
