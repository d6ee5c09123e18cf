-- ===== src/PbftManager/Turn/Rounds.antt =====
-- PbftManager: a new round, a new period and a pushed block in a state of the invariant.
use rustaxa.Common.{
  ℕ, ◌+◌, ◌-◌, ◌%◌, ◌≡◌, refl, subst, inl, inr, Bool, true, false, Option, none, some, List, [],
  ◌∷◌, arith, if◌then◌else◌, Bool-cases, Option-cases, u64,
}
use rustaxa.Common.Outcome.{done, Outcome-cases}
use rustaxa.PbftBlock.{PbftBlock}
use rustaxa.VerifiedVotes.{cleanup_votes_by_period}
use rustaxa.VoteManager.Own.{set_current_pbft_period_and_round}
use rustaxa.VoteManager.Rounds.{determine_new_round}
use rustaxa.ProposedBlocks.{is_none}
use rustaxa.PbftManager.{World, PbftManager, get_pbft_period, is_on_cacti_hardfork}
use rustaxa.PbftManager.Voting.{get_wallets, note_pillar_vote}
use rustaxa.PbftManager.Voting.Placed.{note_pillar_vote_same}
use rustaxa.PbftManager.Lambda.{start_round_lambda}
use rustaxa.ProposedBlocks.{cleanup_proposed_pbft_blocks_by_period}
use rustaxa.PbftManager.Steps.Place.{place, place_same}
use rustaxa.PbftManager.Steps.Certify.{Waits, Waits-trans, waits}
use rustaxa.PbftManager.Advance.{
  reset_pbft_consensus, advance_period, advance_round, update_wallets_eligibility, start_round,
  start_round_db,
}
use rustaxa.PbftManager.Push.{adjust_lambdas, process_pillar_block, place_pillar_votes}
use rustaxa.PbftManager.Turn.Safe.{IsSafe, IsSavedCert, Certifies-IsSafe}

-- What a reset needs: a database that holds no cert voted block which the manager does not know.
abbrev pub IsKnown : PbftManager → Type 0
IsKnown s = s.machine.cert_voted_block_for_round ≡ none → s.db.cert_voted_block_in_round ≡ none

pub IsSafe-IsKnown : (s : PbftManager) → IsSafe s → IsKnown s
IsSafe-IsKnown s i e = subst (IsSavedCert (place s)) e i.saved_cert

forgotten :
    (c : Option PbftBlock) (d : Option (ℕ × PbftBlock))
    → (c ≡ none → d ≡ none)
    → (if is_none c then d else none) ≡ none
forgotten none d known = known refl
forgotten (some b) d known = refl

reset_pbft_consensus-IsSafe :
    (w : World) (round : ℕ) (s : PbftManager) {s' : PbftManager}
    → IsKnown s
    → reset_pbft_consensus w round s ≡ done s'
    → IsSafe s'
unfolding reset_pbft_consensus get_pbft_period
reset_pbft_consensus-IsSafe w round s known h =
    elim (Outcome-cases (set_current_pbft_period_and_round (get_pbft_period s) round s.vote_mgr)) [
      | inl e ↦ ground arith
      | inr (m, e) ↦
          let none_saved =
            forgotten s.machine.cert_voted_block_for_round s.db.cert_voted_block_in_round known in
          let t : PbftManager = record s {
            machine = start_round w round s.machine;
            db = start_round_db round s.machine s.db;
            lambdas = start_round_lambda w.config (get_pbft_period s) round s.lambdas;
            own_verified_votes = [];
            vote_mgr = m;
          } in
          let started : IsSafe t = record {
            in_step = refl;
            own = tt;
            saved = (refl, refl);
            saved_cert = none_saved;
          } in
          subst IsSafe (ground arith) started
    ]

pub Waits-IsSafe : (s s' : PbftManager) → Waits s s' → IsSafe s → IsSafe s'
Waits-IsSafe s s' w i = Certifies-IsSafe s s' (inl w) i

-- A new period starts in the first step of its first round.
pub advance_period-IsSafe :
    (w : World) (s : PbftManager) {s' : PbftManager}
    → IsKnown s
    → advance_period w s ≡ done s'
    → IsSafe s'
unfolding advance_period get_pbft_period
advance_period-IsSafe w s known h = elim (Outcome-cases (reset_pbft_consensus w 1 s)) [
  | inl e ↦ ground arith
  | inr (t, e) ↦
      elim (Outcome-cases (update_wallets_eligibility w t.pbft_chain.size t.eligible_wallets)) [
        | inl f ↦ ground arith
        | inr (wallets, f) ↦
            let u : PbftManager = record t {
              eligible_wallets = wallets;
              vote_mgr = record t.vote_mgr {
                verified_votes =
                    cleanup_votes_by_period t.pbft_chain.size t.vote_mgr.verified_votes;
              };
              proposed_blocks =
                  cleanup_proposed_pbft_blocks_by_period ((t.pbft_chain.size + 1) % u64)
                    t.proposed_blocks;
            } in
            subst IsSafe (ground arith)
              (Waits-IsSafe t u (waits t u refl refl) (reset_pbft_consensus-IsSafe w 1 s known e))
      ]
]

pub advance_round-IsSafe :
    (w : World) (s : PbftManager) {s' : PbftManager} {advanced : Bool}
    → IsSafe s
    → advance_round w s ≡ done (s', advanced)
    → IsSafe s'
unfolding advance_round
advance_round-IsSafe w s i h =
    elim (Option-cases (determine_new_round (get_pbft_period s) s.machine.round s.vote_mgr)) [
      | inl e ↦ subst IsSafe (ground arith) i
      | inr (new_round, e) ↦ elim (Outcome-cases (reset_pbft_consensus w new_round s)) [
        | inl f ↦ ground arith
        | inr (t, f) ↦
            subst IsSafe (ground arith)
              (reset_pbft_consensus-IsSafe w new_round s (IsSafe-IsKnown s i) f)
      ]
    ]

place_pillar_votes-Waits :
    (w : World) (period hash : ℕ) (wallets : List (Bool × ℕ)) (s : PbftManager)
    → Waits s (place_pillar_votes w period hash wallets s)
unfolding place_pillar_votes
place_pillar_votes-Waits w period hash [] s = waits s s refl refl
place_pillar_votes-Waits w period hash ((false, _) ∷ rest) s =
    place_pillar_votes-Waits w period hash rest s
place_pillar_votes-Waits w period hash ((true, wallet) ∷ rest) s =
    let t = note_pillar_vote w period (some hash) wallet s in
    let (m, d, c, o) = note_pillar_vote_same w period (some hash) wallet s in
    Waits-trans (waits s t (place_same s t m d c) o) (place_pillar_votes-Waits w period hash rest t)

pub process_pillar_block-IsSafe :
    (w : World) (chain_size : ℕ) (s : PbftManager) {s' : PbftManager}
    → IsSafe s
    → process_pillar_block w chain_size s ≡ done s'
    → IsSafe s'
unfolding process_pillar_block
process_pillar_block-IsSafe w chain_size s i h =
    let request_period = (chain_size + u64 - w.delegation_delay) % u64 in
    elim (Option-cases (w.create_pillar_block chain_size request_period)) [
      | inl e ↦ subst IsSafe (ground arith) i
      | inr (hash, e) ↦
          elim (Outcome-cases (get_wallets ((chain_size + 1) % u64) s.eligible_wallets)) [
            | inl f ↦ ground arith
            | inr (wallets, f) ↦
                let period = (chain_size + 1) % u64 in
                let t = place_pillar_votes w period hash wallets s in
                subst IsSafe (ground arith)
                  (Waits-IsSafe s t (place_pillar_votes-Waits w period hash wallets s) i)
          ]
    ]

pub adjust_lambdas-IsKnown :
    (w : World) (period round : ℕ) (s : PbftManager)
    → IsKnown s
    → IsKnown (adjust_lambdas w period round s)
unfolding adjust_lambdas
adjust_lambdas-IsKnown w period round s known =
    elim (Bool-cases (is_on_cacti_hardfork period w.config)) [
      | inl e ↦ rw (adjust_lambdas, e) known
      | inr e ↦ rw (adjust_lambdas, e) known
    ]
