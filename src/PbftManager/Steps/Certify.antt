-- ===== src/PbftManager/Steps/Certify.antt =====
-- PbftManager: the cert vote of certifyBlock_.
use rustaxa.PbftManager.Validate.{get_valid_pbft_proposed_block}
use rustaxa.Common.{
  ℕ, ◌+◌, ◌*◌, ◌≡◌, refl, sym, ap, subst, ◌∙◌, ◌⊎◌, inl, inr, Bool, true, false, not, ◌||◌, Option,
  none, some, arith, ltb, if◌then◌else◌, Bool-cases, Option-cases, All,
}
use rustaxa.Common.Outcome.{done, Outcome-cases}
use rustaxa.Vote.{cert_vote, soft_vote}
use rustaxa.PbftBlock.{PbftBlock}
use rustaxa.VerifiedVotes.{soft_voted_block}
use rustaxa.VoteManager.{get_pbft_two_t_plus_one}
use rustaxa.ProposedBlocks.{is_none}
use rustaxa.PbftManager.{World, PbftManager, get_pbft_period}
use rustaxa.PbftManager.Voting.{chain_of, period_before, k_polling_interval_ms}
use rustaxa.PbftManager.Voting.Placed.{Adds, gen_and_place_vote-Places, gen_and_place_vote_period}
use rustaxa.PbftManager.Steps.{
  with_checks, checks_of, voted_in, find_proposed, vote_now, cert_vote_block, certify_block,
  note_cert_voted, report_expired, elapsed, deadline,
}
use rustaxa.PbftManager.Steps.Place.{Place, place, IsNow, vote_now-Votes}

-- A call after which the node has cert voted a block of its period, and before which it had none. The
-- votes it added are for the block.
pub record CertVotes (s s' : PbftManager) (b : PbftBlock) : Type 1 where
  pub fresh : s.machine.cert_voted_block_for_round ≡ none
  pub of_period : b.period ≡ get_pbft_period s
  pub moved : place s' ≡ record (place s) { cert = some b; db_cert = some (s.machine.round, b) }
  pub votes : Adds (λ v. IsNow (place s) v × (v.block_hash ≡ b.block_hash)) s s'

-- A call that stays in its place and places no vote.
pub record Waits (s s' : PbftManager) : Type 0 where
  pub same_place : place s' ≡ place s
  pub no_vote : s'.own_verified_votes ≡ s.own_verified_votes

abbrev pub Certifies : PbftManager → PbftManager → Type 1
Certifies s s' = Waits s s' ⊎ ((b : PbftBlock) × CertVotes s s' b)

Waits-to : {s x s' : PbftManager} → Waits s x → x ≡ s' → Waits s s'
Waits-to p e = rw (← e) p

pub waits :
    (s s' : PbftManager)
    → place s' ≡ place s
    → s'.own_verified_votes ≡ s.own_verified_votes
    → Waits s s'
waits s s' e f = record { same_place = e; no_vote = f }

pub Waits-trans : {s t u : PbftManager} → Waits s t → Waits t u → Waits s u
Waits-trans p q = record {
  same_place = q.same_place ∙ p.same_place;
  no_vote = q.no_vote ∙ p.no_vote;
}

-- After a call that waits, a certification is one of the state before.
Certifies-after : {s t u : PbftManager} → Waits s t → Certifies t u → Certifies s u
Certifies-after p (inl q) = inl (Waits-trans p q)
Certifies-after {s} p (inr (b, c)) = inr (
  b,
  record {
    fresh = ap (λ (x : Place). x.cert) (sym p.same_place) ∙ c.fresh;
    of_period = c.of_period ∙ ap (λ (x : Place). x.period) p.same_place;
    moved =
        c.moved
        ∙ ap (λ (x : Place). record x { cert = some b; db_cert = some (x.round, b) }) p.same_place;
    votes = λ P new all.
        c.votes P (λ v now. new v (subst (λ x. IsNow x v) p.same_place now.0, now.1))
          (subst (All P) (sym p.no_vote) all);
  },
)

pub find_proposed-Waits :
    (w : World) (block_hash : ℕ) (s : PbftManager) {s' : PbftManager} {b : Option PbftBlock}
    → find_proposed w block_hash s ≡ done (s', b)
    → Waits s s'
unfolding find_proposed get_pbft_period
find_proposed-Waits w block_hash s h =
    elim (Outcome-cases
      (get_valid_pbft_proposed_block w s (get_pbft_period s) block_hash (checks_of s))) [
        | inl e ↦ ground arith
        | inr ((p, b), e) ↦ Waits-to (waits s (with_checks p s) refl refl) (ground arith)
      ]

cert_vote-Certifies :
    (w : World) (b : PbftBlock) (s t : PbftManager) (placed : Bool)
    → s.machine.cert_voted_block_for_round ≡ none
    → vote_now w cert_vote b.block_hash (some b) s ≡ done (t, placed)
    → Certifies s (if placed then note_cert_voted b t else t)
unfolding vote_now get_pbft_period
cert_vote-Certifies w b s t false fresh h =
    let p =
      gen_and_place_vote-Places w cert_vote (get_pbft_period s) s.machine.round s.machine.step
        b.block_hash (some b) s h in
    inl
      (waits s t (vote_now-Votes w cert_vote b.block_hash (some b) s h).same_place (p.nothing refl))
cert_vote-Certifies w b s t true fresh h =
    let p =
      gen_and_place_vote-Places w cert_vote (get_pbft_period s) s.machine.round s.machine.step
        b.block_hash (some b) s h in
    inr (
      b,
      record {
        fresh = fresh;
        of_period =
            gen_and_place_vote_period w cert_vote (get_pbft_period s) s.machine.round s.machine.step
              b.block_hash b s h;
        moved = rw (p.machine, p.db, p.chain);
        votes = λ P new all.
            p.votes P (λ v at. new v ((at.at_period, at.at_round, at.at_step), at.for_block)) all;
      },
    )

cert_vote_block-Certifies :
    (w : World) (block_hash : ℕ) (s : PbftManager) {s' : PbftManager}
    → s.machine.cert_voted_block_for_round ≡ none
    → cert_vote_block w block_hash s ≡ done s'
    → Certifies s s'
unfolding cert_vote_block
cert_vote_block-Certifies w block_hash s {s'} fresh h =
    elim (Outcome-cases (find_proposed w block_hash s)) [
      | inl e ↦ ground arith
      | inr ((t, none), e) ↦ inl (Waits-to (find_proposed-Waits w block_hash s e) (ground arith))
      | inr ((t, some b), e) ↦
          let found = find_proposed-Waits w block_hash s e in
          let still : t.machine.cert_voted_block_for_round ≡ none =
            ap (λ (x : Place). x.cert) found.same_place ∙ fresh in
          elim (Outcome-cases (vote_now w cert_vote b.block_hash (some b) t)) [
            | inl f ↦ ground arith
            | inr ((u, placed), f) ↦
                let same : (if placed then note_cert_voted b u else u) ≡ s' = ground arith in
                Certifies-after found
                  (subst (Certifies t) same (cert_vote-Certifies w b t u placed still f))
          ]
    ]

is_none-none : {A : Type 0} (o : Option A) → not (is_none o) ≡ false → o ≡ none
is_none-none none h = refl
is_none-none (some a) h = cc

report_expired-Waits :
    (w : World) (s : PbftManager) {s' : PbftManager} → report_expired w s ≡ done s' → Waits s s'
unfolding report_expired get_pbft_period
report_expired-Waits w s h =
    let m =
      (get_pbft_two_t_plus_one (chain_of w s) (period_before (get_pbft_period s)) soft_vote
        s.vote_mgr).0 in
    let t : PbftManager = record s { vote_mgr = m } in Waits-to (waits s t refl refl) (ground arith)

-- certifyBlock_ places no vote and stays in its place, or cert votes a block where none was cert voted.
pub certify_block-Certifies :
    (w : World) (s : PbftManager) {s' : PbftManager} → certify_block w s ≡ done s' → Certifies s s'
unfolding certify_block get_pbft_period
certify_block-Certifies w s {s'} h =
    let time = elapsed w s.machine.current_round_start in
    let over = ltb (deadline w s) (time + k_polling_interval_ms) in
    let checked : PbftManager = record s {
      machine = record s.machine { go_finish_state = over };
    } in
    let first : Waits s checked = waits s checked refl refl in
    elim (Bool-cases over) [
      | inl e ↦ inl (Waits-trans first (report_expired-Waits w checked (ground arith)))
      | inr e ↦
          elim (Bool-cases (
            ltb time (2 * s.lambdas.current_round_lambda)
            || not (is_none s.machine.cert_voted_block_for_round))) [
              | inl f ↦ inl (Waits-to first (ground arith))
              | inr f ↦ elim (Option-cases (voted_in s.machine.round soft_voted_block s)) [
                | inl g ↦ inl (Waits-to first (ground arith))
                | inr (block_hash, g) ↦
                    let fresh = is_none-none s.machine.cert_voted_block_for_round (ground arith) in
                    Certifies-after first
                      (cert_vote_block-Certifies w block_hash checked fresh (ground arith))
              ]
            ]
    ]
