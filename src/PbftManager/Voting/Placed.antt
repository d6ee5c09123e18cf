-- ===== src/PbftManager/Voting/Placed.antt =====
-- PbftManager: what genAndPlaceVote changes, and the votes that it places.
use rustaxa.Common.{
  ℕ, ◌≡◌, refl, sym, subst, ◌∙◌, inl, inr, Bool, true, false, ◌&&◌, ◌||◌, Option, none, some, List,
  [], ◌∷◌, ◌++◌, arith, ◌==◌, Bool-cases, Option-cases, All,
}
use rustaxa.Common.Outcome.{done, Outcome-cases}
use rustaxa.Vote.{PbftVote, PbftVoteTypes}
use rustaxa.PbftBlock.{PbftBlock}
use rustaxa.VoteManager.{add_verified_vote}
use rustaxa.PbftManager.{World, PbftManager}
use rustaxa.Common.ListLaws.{All-append}
use rustaxa.PbftManager.Voting.{
  generate_vote_with_weight, chain_of, note_pillar_vote, place_vote, place_votes,
  gen_and_place_vote, place_pillar_vote_for_block, get_wallets,
}

-- A vote with the coordinates it was asked for.
pub record IsAt (period round step block_hash : ℕ) (v : PbftVote) : Type 0 where
  pub at_period : v.period ≡ period
  pub at_round : v.round ≡ round
  pub at_step : v.step ≡ step
  pub for_block : v.block_hash ≡ block_hash

-- The own votes after a call are those before and votes with a property.
abbrev pub Adds : (PbftVote → Type 0) → PbftManager → PbftManager → Type 1
Adds New s s' =
    (P : PbftVote → Type 0)
    → ((v : PbftVote) → New v → P v)
    → All P s.own_verified_votes
    → All P s'.own_verified_votes

-- A call that places votes leaves the place in the round, the database and the chain.
pub record Places (New : PbftVote → Type 0) (s s' : PbftManager) (placed : Bool) : Type 1 where
  pub machine : s'.machine ≡ s.machine
  pub db : s'.db ≡ s.db
  pub chain : s'.pbft_chain ≡ s.pbft_chain
  pub votes : Adds New s s'
  pub nothing : placed ≡ false → s'.own_verified_votes ≡ s.own_verified_votes

pub Places-refl :
    {New : PbftVote → Type 0} (s : PbftManager) (placed : Bool) → Places New s s placed
Places-refl s placed = record {
  machine = refl;
  db = refl;
  chain = refl;
  votes = λ P new all. all;
  nothing = λ e. refl;
}

pub generate_vote_with_weight-IsAt :
    (w : World) (block_hash : ℕ) (type : PbftVoteTypes) (period round step wallet : ℕ)
    {v : PbftVote}
    → generate_vote_with_weight w block_hash type period round step wallet ≡ some v
    → IsAt period round step block_hash v
unfolding generate_vote_with_weight
generate_vote_with_weight-IsAt w block_hash type period round step wallet h = ground arith

-- With the same place, database, chain and own votes, as after other changes.
pub Places-same :
    {New : PbftVote → Type 0} (s s' : PbftManager) (placed : Bool)
    → s'.machine ≡ s.machine
    → s'.db ≡ s.db
    → s'.pbft_chain ≡ s.pbft_chain
    → s'.own_verified_votes ≡ s.own_verified_votes
    → Places New s s' placed
Places-same s s' placed m d c o = record {
  machine = m;
  db = d;
  chain = c;
  votes = λ P new all. subst (All P) (sym o) all;
  nothing = λ e. o;
}

pub Places-to :
    {New : PbftVote → Type 0} {s x s' : PbftManager} {b placed : Bool}
    → Places New s x b
    → x ≡ s'
    → b ≡ placed
    → Places New s s' placed
Places-to p e f = rw (← e, ← f) p

pub Places-trans :
    {New : PbftVote → Type 0} {s t u : PbftManager} {a b c : Bool}
    → Places New s t a
    → Places New t u b
    → (c ≡ false → (a ≡ false) × (b ≡ false))
    → Places New s u c
Places-trans p q neither = record {
  machine = q.machine ∙ p.machine;
  db = q.db ∙ p.db;
  chain = q.chain ∙ p.chain;
  votes = λ P new all. q.votes P new (p.votes P new all);
  nothing = λ e. q.nothing (neither e).1 ∙ p.nothing (neither e).0;
}

pub Places-weaken :
    {Old New : PbftVote → Type 0} {s t : PbftManager} {a : Bool}
    → ((v : PbftVote) → Old v → New v)
    → Places Old s t a
    → Places New s t a
Places-weaken f p = record {
  machine = p.machine;
  db = p.db;
  chain = p.chain;
  votes = λ P new all. p.votes P (λ v old. new v (f v old)) all;
  nothing = p.nothing;
}

pub note_pillar_vote_same :
    (w : World) (period : ℕ) (pillar : Option ℕ) (wallet : ℕ) (s : PbftManager)
    → let s' = note_pillar_vote w period pillar wallet s in
      (s'.machine ≡ s.machine)
      × (s'.db ≡ s.db)
      × (s'.pbft_chain ≡ s.pbft_chain)
      × (s'.own_verified_votes ≡ s.own_verified_votes)
unfolding note_pillar_vote
note_pillar_vote_same w period none wallet s = (refl, refl, refl, refl)
note_pillar_vote_same w period (some hash) wallet s =
    elim (Option-cases (w.gen_and_place_pillar_vote period hash wallet)) [
      | inl e ↦ rw (note_pillar_vote, e) (refl, refl, refl, refl)
      | inr (at, e) ↦ rw (note_pillar_vote, e) (refl, refl, refl, refl)
    ]

module _ (w : World) (type : PbftVoteTypes) (period round step block_hash : ℕ) where
  place_vote-Places :
      (pillar : Option ℕ) (wallet : ℕ) (s : PbftManager) {s' : PbftManager} {placed : Bool}
      → place_vote w type period round step block_hash pillar wallet s ≡ done (s', placed)
      → Places (IsAt period round step block_hash) s s' placed
  unfolding place_vote
  place_vote-Places pillar wallet s h =
      elim (Option-cases (generate_vote_with_weight w block_hash type period round step wallet)) [
        | inl e ↦ Places-to (Places-refl s false) (ground arith) (ground arith)
        | inr (v, e) ↦ elim (Outcome-cases (add_verified_vote (chain_of w s) v s.vote_mgr)) [
          | inl f ↦ ground arith
          | inr ((m, false), f) ↦
              let t : PbftManager = record s { vote_mgr = m } in
              Places-to (Places-same s t false refl refl refl refl) (ground arith) (ground arith)
          | inr ((m, true), f) ↦
              let t : PbftManager = record s {
                vote_mgr = m;
                own_verified_votes = s.own_verified_votes ++ v ∷ [];
              } in
              let (a, b, c, d) = note_pillar_vote_same w period pillar wallet t in
              let at =
                generate_vote_with_weight-IsAt w block_hash type period round step wallet e in
              let p : Places (IsAt period round step block_hash) s
                  (note_pillar_vote w period pillar wallet t) true =
                record {
                  machine = a;
                  db = b;
                  chain = c;
                  votes = λ P new all.
                      subst (All P) (sym d)
                        (All-append P s.own_verified_votes (v ∷ []) all (new v at, tt));
                  nothing = λ no. cc;
                } in
              Places-to p (ground arith) (ground arith)
        ]
      ]

  place_votes-Places :
      (pillar : Option ℕ) (wallets : List (Bool × ℕ)) (success : Bool) (s : PbftManager)
      {s' : PbftManager} {placed : Bool}
      → place_votes w type period round step block_hash pillar wallets success s ≡ done (s', placed)
      → (placed ≡ false → success ≡ false) × Places (IsAt period round step block_hash) s s' placed
  unfolding place_votes
  place_votes-Places pillar [] success s h =
      (λ no. ground arith, Places-to (Places-refl s success) (ground arith) (ground arith))
  place_votes-Places pillar ((false, wallet) ∷ rest) success s h =
      place_votes-Places pillar rest success s h
  place_votes-Places pillar ((true, wallet) ∷ rest) success s {s'} {placed = all_placed} h =
      elim (Outcome-cases (place_vote w type period round step block_hash pillar wallet s)) [
        | inl e ↦ ground arith
        | inr ((t, placed), e) ↦
            let first = place_vote-Places pillar wallet s e in
            let (falls, later) =
              place_votes-Places pillar rest (placed || success) t {s' = s'} {placed = all_placed}
                (ground arith) in
            (
              λ no. ground (arith, falls no),
              Places-trans first later (λ no. (ground (arith, falls no), no)),
            )
      ]

  -- genAndPlaceVote places votes with the coordinates it is given, and none if it returns false.
  pub gen_and_place_vote-Places :
      (b : Option PbftBlock) (s : PbftManager) {s' : PbftManager} {placed : Bool}
      → gen_and_place_vote w type period round step block_hash b s ≡ done (s', placed)
      → Places (IsAt period round step block_hash) s s' placed
  unfolding gen_and_place_vote
  gen_and_place_vote-Places b s {s'} {placed} h =
      elim (Outcome-cases (place_pillar_vote_for_block w period b s)) [
        | inl e ↦ ground arith
        | inr (pillar, e) ↦ elim (Outcome-cases (get_wallets period s.eligible_wallets)) [
          | inl f ↦ ground arith
          | inr (wallets, f) ↦
              (place_votes-Places pillar wallets false s {s' = s'} {placed = placed}
                (ground arith)).1
        ]
      ]

  -- A vote for a block is of the period of the block.
  pub gen_and_place_vote_period :
      (b : PbftBlock) (s : PbftManager) {s' : PbftManager} {placed : Bool}
      → gen_and_place_vote w type period round step block_hash (some b) s ≡ done (s', placed)
      → b.period ≡ period
  unfolding gen_and_place_vote
  gen_and_place_vote_period b s h =
      elim (Bool-cases (b.period == period && b.block_hash == block_hash)) [
        | inl e ↦ ground arith
        | inr e ↦ ground arith
      ]
