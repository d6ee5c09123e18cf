-- ===== src/VoteManager/Rounds.antt =====
-- VoteManager::determineNewRound.
use rustaxa.VerifiedVotes.Rounds.{get_period_votes-IsSorted}
use rustaxa.VerifiedVotes.Reach.{Reach}
use rustaxa.Common.Map.Reversed.{reverse-Falls, lookup-Falls, bound, Falls, lookup-reverse}
use mathlib.Core.List.{reverse}
use rustaxa.Common.{
  ℕ, ◌+◌, ◌%◌, ◌≤◌, ◌≡◌, refl, sym, ◌∙◌, inl, inr, Bool, true, false, ◌||◌, Option, none, some, [],
  ◌∷◌, arith, ltb, if◌then◌else◌, Bool-cases, u32,
}
use rustaxa.Common.Map.{contains, Map, lookup}
use rustaxa.VerifiedVotes.{
  RoundVerifiedVotes, get_period_votes, type_code, next_voted_block, next_voted_null_block,
}
use rustaxa.VoteManager.{VoteManager}

-- 2t+1 next votes for a block, or for the null block.
unfoldable pub has_next_block : RoundVerifiedVotes → Bool
unfolding type_code
has_next_block r =
    contains (type_code next_voted_block) r.two_t_plus_one_voted_blocks
    || contains (type_code next_voted_null_block) r.two_t_plus_one_voted_blocks

-- The loop over the rounds, the newest first.
unfoldable pub newest_round : ℕ → Map RoundVerifiedVotes → Option ℕ
unfolding has_next_block
newest_round current [] = none
newest_round current ((round, r) ∷ rest) =
    let older = newest_round current rest in
    if ltb round current then none else if has_next_block r then some ((round + 1) % u32) else older

unfoldable pub determine_new_round : ℕ → ℕ → VoteManager → Option ℕ
determine_new_round period current m = elim (get_period_votes period m.verified_votes) [
  | none ↦ none
  | some rounds ↦ newest_round current (reverse rounds)
]

-- The newest of the rounds from `current` on that has 2t+1 next votes.
pub record IsNewest (current round : ℕ) (m : Map RoundVerifiedVotes) : Type 0 where
  pub there : (r : RoundVerifiedVotes) × (lookup round m ≡ some r) × (has_next_block r ≡ true)
  pub reached : current ≤ round
  pub newest :
      (other : ℕ) (r : RoundVerifiedVotes)
      → lookup other m ≡ some r
      → has_next_block r ≡ true
      → other ≤ round

-- No round from `current` on has 2t+1 next votes.
abbrev pub HasNone : ℕ → Map RoundVerifiedVotes → Type 0
HasNone current m =
    (round : ℕ) (r : RoundVerifiedVotes)
    → lookup round m ≡ some r
    → current ≤ round
    → has_next_block r ≡ false

abbrev pub Newest : ℕ → Map RoundVerifiedVotes → Option ℕ → Type 0
Newest current m none = HasNone current m
Newest current m (some n) = (round : ℕ) × (n ≡ (round + 1) % u32) × IsNewest current round m

-- A round in front that has no 2t+1 next votes changes nothing.
Newest-cons :
    (current k : ℕ) (r : RoundVerifiedVotes) (m : Map RoundVerifiedVotes) (n : Option ℕ)
    → has_next_block r ≡ false
    → Falls k m
    → Newest current m n
    → Newest current ((k, r) ∷ m) n
unfolding lookup
Newest-cons current k r m none no_block f h = λ round r' e reached. ground (arith, h round r')
Newest-cons current k r m (some n) no_block f (round, e, h) =
    let (r', found, has) = h.there in
    (
      round,
      e,
      record {
        there = (r', ground (arith, lookup-Falls k round m r' f found), has);
        reached = h.reached;
        newest = λ other o found' has'. ground (arith, h.newest other o);
      },
    )

newest_round-Newest :
    (current hi : ℕ) (m : Map RoundVerifiedVotes)
    → Falls hi m
    → Newest current m (newest_round current m)
unfolding newest_round lookup
newest_round-Newest current hi [] f = λ round r e h. absurd (ground arith)
newest_round-Newest current hi ((k, r) ∷ m) f = elim (Bool-cases (ltb k current)) [
  | inl old ↦ rw old λ round r' e h. absurd (ground (arith, lookup-Falls k round m r' f.1))
  | inr new ↦ elim (Bool-cases (has_next_block r)) [
    | inl yes_there ↦
        rw (new, yes_there)
          (
            k,
            refl,
            record {
              there = (r, ground arith, yes_there);
              reached = ground arith;
              newest = λ other r' e h. ground (arith, lookup-Falls k other m r' f.1);
            },
          )
    | inr not_there ↦
        rw (new, not_there)
          (Newest-cons current k r m (newest_round current m) not_there f.1
            (newest_round-Newest current k m f.1))
  ]
]

-- The same rounds in another order.
Newest-of_lookup :
    (current : ℕ) (m m' : Map RoundVerifiedVotes) (n : Option ℕ)
    → ((j : ℕ) → lookup j m ≡ lookup j m')
    → Newest current m n
    → Newest current m' n
Newest-of_lookup current m m' none same h = λ round r e. h round r (same round ∙ e)
Newest-of_lookup current m m' (some n) same (round, e, h) =
    let (r, found, has) = h.there in
    (
      round,
      e,
      record {
        there = (r, sym (same round) ∙ found, has);
        reached = h.reached;
        newest = λ other o found' has'. h.newest other o (same other ∙ found') has';
      },
    )

-- For the rounds of a period, in a state of the verified votes that calls lead to, where a 2t+1 block
-- is entered only once its votes are there: a new round is the one after the newest round, not before
-- the current one, that has 2t+1 next votes; if no round from the current one on has them there is no
-- new round.
pub determine_new_round-Newest :
    (period current : ℕ) (m : VoteManager) (rounds : Map RoundVerifiedVotes)
    → Reach m.verified_votes
    → get_period_votes period m.verified_votes ≡ some rounds
    → Newest current rounds (determine_new_round period current m)
unfolding determine_new_round
determine_new_round-Newest period current m rounds r e =
    let s = get_period_votes-IsSorted period rounds r e in
    rw (e, determine_new_round)
      (Newest-of_lookup current (reverse rounds) rounds (newest_round current (reverse rounds))
        (λ j. lookup-reverse j 0 rounds s)
        (newest_round-Newest current (bound rounds) (reverse rounds)
          (reverse-Falls (bound rounds) 0 rounds s (omega arith))))
