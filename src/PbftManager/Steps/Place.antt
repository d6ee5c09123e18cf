-- ===== src/PbftManager/Steps/Place.antt =====
-- PbftManager: the place of a node in a round, and calls that vote in their place.
use rustaxa.Common.{ℕ, ◌≡◌, refl, sym, subst, ◌∙◌, inl, inr, Bool, Option, arith, All}
use rustaxa.Common.Outcome.{done, Outcome-cases}
use rustaxa.Vote.{PbftVote, PbftVoteTypes}
use rustaxa.PbftBlock.{PbftBlock}
use rustaxa.PbftManager.{World, PbftManager, PbftStates, get_pbft_period}
use rustaxa.PbftManager.Validate.{BlockChecks, get_valid_pbft_proposed_block}
use rustaxa.PbftManager.Voting.Placed.{Adds, gen_and_place_vote-Places}
use rustaxa.PbftManager.Steps.{checks_of, with_checks, find_proposed, vote_now}

-- The place of a node in a round, with what it keeps for a restart.
pub record Place : Type 0 where
  pub state : PbftStates
  pub round : ℕ
  pub step : ℕ
  pub cert : Option PbftBlock
  pub period : ℕ
  pub db_round : ℕ
  pub db_step : ℕ
  pub db_cert : Option (ℕ × PbftBlock)

abbrev pub place : PbftManager → Place
place s = record {
  state = s.machine.state;
  round = s.machine.round;
  step = s.machine.step;
  cert = s.machine.cert_voted_block_for_round;
  period = get_pbft_period s;
  db_round = s.db.round;
  db_step = s.db.step;
  db_cert = s.db.cert_voted_block_in_round;
}

pub place_same :
    (s t : PbftManager)
    → t.machine ≡ s.machine
    → t.db ≡ s.db
    → t.pbft_chain ≡ s.pbft_chain
    → place t ≡ place s
unfolding get_pbft_period
place_same s t m d c = rw (m, d, c)

-- A vote of the period, round and step of a place.
abbrev pub IsNow : Place → PbftVote → Type 0
IsNow p v = (v.period ≡ p.period) × (v.round ≡ p.round) × (v.step ≡ p.step)

-- A call that votes in its place, and stays there.
pub record Votes (s s' : PbftManager) : Type 1 where
  pub same_place : place s' ≡ place s
  pub votes : Adds (IsNow (place s)) s s'

pub Votes-refl : (s : PbftManager) → Votes s s
Votes-refl s = record { same_place = refl; votes = λ P new all. all }

pub Votes-same :
    (s s' : PbftManager)
    → place s' ≡ place s
    → s'.own_verified_votes ≡ s.own_verified_votes
    → Votes s s'
Votes-same s s' e f = record { same_place = e; votes = λ P new all. subst (All P) (sym f) all }

pub Votes-trans : {s t u : PbftManager} → Votes s t → Votes t u → Votes s u
Votes-trans p q = record {
  same_place = q.same_place ∙ p.same_place;
  votes = λ P new all.
      q.votes P (λ v now. new v (subst (λ x. IsNow x v) p.same_place now)) (p.votes P new all);
}

pub Votes-to : {s x s' : PbftManager} → Votes s x → x ≡ s' → Votes s s'
Votes-to p e = rw (← e) p

pub checked_same : (p : BlockChecks) (s : PbftManager) → Votes s (with_checks p s)
unfolding get_pbft_period
checked_same p s = Votes-same s (with_checks p s) refl refl

pub find_proposed-Votes :
    (w : World) (block_hash : ℕ) (s : PbftManager) {s' : PbftManager} {b : Option PbftBlock}
    → find_proposed w block_hash s ≡ done (s', b)
    → Votes s s'
unfolding find_proposed get_pbft_period
find_proposed-Votes w block_hash s h =
    elim (Outcome-cases
      (get_valid_pbft_proposed_block w s (get_pbft_period s) block_hash (checks_of s))) [
        | inl e ↦ ground arith
        | inr ((p, b), e) ↦ Votes-to (Votes-same s (with_checks p s) refl refl) (ground arith)
      ]

pub vote_now-Votes :
    (w : World) (type : PbftVoteTypes) (block_hash : ℕ) (b : Option PbftBlock) (s : PbftManager)
    {s' : PbftManager} {placed : Bool}
    → vote_now w type block_hash b s ≡ done (s', placed)
    → Votes s s'
unfolding vote_now get_pbft_period
vote_now-Votes w type block_hash b s h =
    let p =
      gen_and_place_vote-Places w type (get_pbft_period s) s.machine.round s.machine.step block_hash
        b s h in
    record {
      same_place = rw (p.machine, p.db, p.chain);
      votes = λ P new all. p.votes P (λ v at. new v (at.at_period, at.at_round, at.at_step)) all;
    }
