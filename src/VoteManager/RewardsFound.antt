-- ===== src/VoteManager/RewardsFound.antt =====
-- VoteManager::checkRewardVotes: the votes that it accepts and hands out.
use rustaxa.VerifiedVotes.Rounds.{get_period_votes-IsSorted}
use rustaxa.VerifiedVotes.Reach.{Reach}
use rustaxa.PbftBlock.{PbftBlock}
use mathlib.Core.List.{reverse, append-nil, append_assoc}
use rustaxa.Common.{
  ℕ, ◌≡◌, refl, sym, ◌∙◌, ◌≢◌, inl, inr, Bool, true, false, Option, none, some, List, [], ◌∷◌, ◌++◌,
  arith, Bool-cases, Option-cases,
}
use rustaxa.Common.Outcome.{done}
use rustaxa.Common.Map.{Map, lookup}
use rustaxa.Common.Map.Reversed.{Falls, bound, reverse-Falls, lookup-reverse, lookup-Falls}
use rustaxa.Vote.{PbftVote}
use rustaxa.VerifiedVotes.{get_round_votes, get_period_votes, get_step_votes, RoundVerifiedVotes}
use rustaxa.VerifiedVotes.Store.{find_vote, find_voted}
use rustaxa.VoteManager.{VoteManager}
use rustaxa.VoteManager.Rewards.{
  find_reward_votes, check_reward_votes, cert_step, collect_votes, get_round_reward_votes,
}

-- The votes with these hashes, in their order.
abbrev pub Found : (ℕ → Option PbftVote) → List ℕ → List PbftVote → Type 0
Found find [] [] = Unit
Found find [] (v ∷ vs) = ⊥
Found find (h ∷ hs) [] = ⊥
Found find (h ∷ hs) (v ∷ vs) = (find h ≡ some v) × Found find hs vs

Found-of_eq :
    (f g : ℕ → Option PbftVote) (hs : List ℕ) (vs : List PbftVote)
    → ((h : ℕ) → f h ≡ g h)
    → Found f hs vs
    → Found g hs vs
Found-of_eq f g [] [] same d = tt
Found-of_eq f g [] (v ∷ vs) same d = d
Found-of_eq f g (h ∷ hs) [] same d = d
Found-of_eq f g (h ∷ hs) (v ∷ vs) same d = (sym (same h) ∙ d.0, Found-of_eq f g hs vs same d.1)

abbrev of : Map PbftVote → ℕ → Option PbftVote
of votes h = lookup h votes

collect_votes_missing :
    (votes : Map PbftVote) (copy : Bool) (hs : List ℕ) (acc : List PbftVote)
    → (collect_votes votes copy hs false acc).0 ≡ false
unfolding collect_votes
collect_votes_missing votes copy [] acc = refl
collect_votes_missing votes copy (h ∷ hs) acc =
    ground (arith, collect_votes_missing votes copy hs acc)

collect_votes-Found :
    (votes : Map PbftVote) (hs : List ℕ) (acc : List PbftVote)
    → (collect_votes votes true hs true acc).0 ≡ true
    → (vs : List PbftVote) × Found (of votes) hs vs
      × ((collect_votes votes true hs true acc).1 ≡ acc ++ vs)
unfolding collect_votes
collect_votes-Found votes [] acc h = ([], tt, sym (append-nil acc))
collect_votes-Found votes (k ∷ hs) acc h = elim (Option-cases (lookup k votes)) [
  | inl e ↦ absurd (ground (arith, collect_votes_missing votes true hs acc))
  | inr (v, e) ↦
      let (vs, found, eq) = collect_votes-Found votes hs (acc ++ v ∷ []) (ground arith) in
      (v ∷ vs, (e, found), ground (arith, append_assoc acc (v ∷ []) vs))
]

-- With every vote there the loop collects them.
collect_votes_all :
    (votes : Map PbftVote) (hs : List ℕ) (vs acc : List PbftVote)
    → Found (of votes) hs vs
    → (collect_votes votes true hs true acc).0 ≡ true
unfolding collect_votes
collect_votes_all votes [] vs acc f = refl
collect_votes_all votes (h ∷ hs) [] acc f = elim f [ ]
collect_votes_all votes (h ∷ hs) (v ∷ vs) acc f =
    ground (arith, f.0, collect_votes_all votes hs vs (acc ++ v ∷ []) f.1)

-- The cert votes for a block in a round, by their hashes.
abbrev cert_vote_of : RoundVerifiedVotes → ℕ → ℕ → Option PbftVote
cert_vote_of r block_hash h = elim (lookup cert_step r.step_votes) [
  | none ↦ none
  | some step ↦ elim (lookup block_hash step.votes) [
    | none ↦ none
    | some voted ↦ lookup h voted.votes
  ]
]

get_round_reward_votes-Found :
    (r : RoundVerifiedVotes) (hs : List ℕ) (block_hash : ℕ) (vs : List PbftVote)
    → get_round_reward_votes r hs block_hash true ≡ some vs
    → Found (cert_vote_of r block_hash) hs vs
unfolding get_round_reward_votes
get_round_reward_votes-Found r hs block_hash vs h =
    elim (Option-cases (lookup cert_step r.step_votes)) [
      | inl e ↦ absurd (ground arith)
      | inr (step, e) ↦ elim (Option-cases (lookup block_hash step.votes)) [
        | inl f ↦ absurd (ground arith)
        | inr (voted, f) ↦ elim (Bool-cases (collect_votes voted.votes true hs true []).0) [
          | inr missing ↦ absurd (ground arith)
          | inl all_found ↦
              let (us, found, eq) = collect_votes-Found voted.votes hs [] all_found in
              let e' : vs ≡ us = ground arith in
              rw e' (
                Found-of_eq (of voted.votes) (cert_vote_of r block_hash) hs us (λ k. ground arith)
                  found)
        ]
      ]
    ]

-- With the votes there the round is not passed over.
get_round_reward_votes_all :
    (r : RoundVerifiedVotes) (hs : List ℕ) (block_hash : ℕ) (vs : List PbftVote)
    → Found (cert_vote_of r block_hash) hs vs
    → hs ≢ []
    → get_round_reward_votes r hs block_hash true ≡ none
    → ⊥
unfolding get_round_reward_votes
get_round_reward_votes_all r [] block_hash vs f ne h = absurd (ne refl)
get_round_reward_votes_all r (k ∷ hs) block_hash [] f ne h = elim f [ ]
get_round_reward_votes_all r (k ∷ hs) block_hash (v ∷ vs) f ne h =
    elim (Option-cases (lookup cert_step r.step_votes)) [
      | inl e ↦ absurd (ground (arith, f.0))
      | inr (step, e) ↦ elim (Option-cases (lookup block_hash step.votes)) [
        | inl g ↦ absurd (ground (arith, f.0))
        | inr (voted, g) ↦
            let d =
              Found-of_eq (cert_vote_of r block_hash) (of voted.votes) (k ∷ hs) (v ∷ vs)
                (λ j. ground arith) f in
            absurd (ground (arith, collect_votes_all voted.votes (k ∷ hs) (v ∷ vs) [] d))
      ]
    ]

-- The round in which the loop found the votes.
find_reward_votes-Found :
    (hi : ℕ) (rounds : Map RoundVerifiedVotes) (hs : List ℕ) (block_hash : ℕ) (vs : List PbftVote)
    → Falls hi rounds
    → find_reward_votes rounds hs block_hash true ≡ some vs
    → (round : ℕ) × (r : RoundVerifiedVotes) × (lookup round rounds ≡ some r)
      × Found (cert_vote_of r block_hash) hs vs
unfolding find_reward_votes lookup
find_reward_votes-Found hi [] hs block_hash vs f h = absurd (ground arith)
find_reward_votes-Found hi ((k, r) ∷ rest) hs block_hash vs f h =
    elim (Option-cases (get_round_reward_votes r hs block_hash true)) [
      | inr (us, e) ↦
          (k, r, ground arith, get_round_reward_votes-Found r hs block_hash vs (ground arith))
      | inl e ↦
          let (j, q, there, found) =
            find_reward_votes-Found k rest hs block_hash vs f.1 (ground arith) in
          (j, q, ground (arith, lookup-Falls k j rest q f.1 there), found)
    ]

find_reward_votes-none :
    (rounds : Map RoundVerifiedVotes) (hs : List ℕ) (block_hash : ℕ) (round : ℕ)
    (r : RoundVerifiedVotes)
    → find_reward_votes rounds hs block_hash true ≡ none
    → lookup round rounds ≡ some r
    → get_round_reward_votes r hs block_hash true ≡ none
unfolding find_reward_votes lookup
find_reward_votes-none [] hs block_hash round r h e = absurd (ground arith)
find_reward_votes-none ((k, q) ∷ rest) hs block_hash round r h e =
    ground (arith, find_reward_votes-none rest hs block_hash round r)

-- The votes of a round, as the state has them.
find_vote-cert_vote_of :
    (m : VoteManager) (rounds : Map RoundVerifiedVotes) (round : ℕ) (r : RoundVerifiedVotes)
    → get_period_votes m.reward_votes_period m.verified_votes ≡ some rounds
    → lookup round rounds ≡ some r
    → (h : ℕ)
    → cert_vote_of r m.reward_votes_block_hash h
      ≡ find_vote m.reward_votes_period round cert_step m.reward_votes_block_hash h m.verified_votes
unfolding find_vote find_voted get_step_votes get_period_votes
find_vote-cert_vote_of m rounds round r e f h = ground arith

-- The verified cert votes of a round for the block that is rewarded.
abbrev pub reward_vote : VoteManager → ℕ → ℕ → Option PbftVote
reward_vote m round h =
    find_vote m.reward_votes_period round cert_step m.reward_votes_block_hash h m.verified_votes

get_round_votes_inv :
    (m : VoteManager) (r : RoundVerifiedVotes) (rounds : Map RoundVerifiedVotes)
    → get_period_votes m.reward_votes_period m.verified_votes ≡ some rounds
    → get_round_votes m.reward_votes_period m.reward_votes_round m.verified_votes ≡ some r
    → lookup m.reward_votes_round rounds ≡ some r
unfolding get_period_votes get_round_votes
get_round_votes_inv m r rounds e f = ground arith

-- In a state of the verified votes that calls lead to, where a 2t+1 block is entered only once its
-- votes are there, the votes that are handed out for a block after the first period are the verified cert votes with the block's reward hashes, in their order and all
-- of one round, for the block that is rewarded.
pub check_reward_votes-Found :
    (b : PbftBlock) (m : VoteManager) (rounds : Map RoundVerifiedVotes) {vs : List PbftVote}
    → Reach m.verified_votes
    → get_period_votes m.reward_votes_period m.verified_votes ≡ some rounds
    → b.period ≢ 1
    → check_reward_votes b true m ≡ done (some vs)
    → (round : ℕ) × Found (reward_vote m round) b.reward_votes vs
unfolding check_reward_votes
check_reward_votes-Found b m rounds {vs} reached e first h =
    let s = get_period_votes-IsSorted m.reward_votes_period rounds reached e in
    elim (Option-cases
      (get_round_votes m.reward_votes_period m.reward_votes_round m.verified_votes)) [
        | inl f ↦ absurd (ground arith)
        | inr (r, f) ↦
            let hs = b.reward_votes in
            let bh = m.reward_votes_block_hash in
            elim (Option-cases (get_round_reward_votes r hs bh true)) [
              | inr (us, g) ↦ (
                m.reward_votes_round,
                Found-of_eq (cert_vote_of r bh) (reward_vote m m.reward_votes_round) hs vs
                    (find_vote-cert_vote_of m rounds m.reward_votes_round r e
                      (get_round_votes_inv m r rounds e f))
                    (get_round_reward_votes-Found r hs bh vs (ground arith)),
              )
              | inl g ↦
                  let (round, q, there, found) =
                    find_reward_votes-Found (bound rounds) (reverse rounds) hs bh vs
                      (reverse-Falls (bound rounds) 0 rounds s (omega arith)) (ground arith) in
                  (
                    round,
                    Found-of_eq (cert_vote_of q bh) (reward_vote m round) hs vs
                        (find_vote-cert_vote_of m rounds round q e
                          (sym (lookup-reverse round 0 rounds s) ∙ there))
                        found,
                  )
            ]
      ]

-- In a state of the verified votes that calls lead to, where a 2t+1 block is entered only once its
-- votes are there, and asked for the votes, the call refuses a
-- block with reward votes only if in no round of the rewarded period all of them are verified cert
-- votes for the rewarded block.
pub check_reward_votes_refuses :
    (b : PbftBlock) (m : VoteManager) (rounds : Map RoundVerifiedVotes) (r : RoundVerifiedVotes)
    → Reach m.verified_votes
    → get_period_votes m.reward_votes_period m.verified_votes ≡ some rounds
    → b.reward_votes ≢ []
    → check_reward_votes b true m ≡ done none
    → (round : ℕ) (vs : List PbftVote) → lookup round rounds ≡ some r
    → Found (reward_vote m round) b.reward_votes vs
    → ⊥
unfolding check_reward_votes
check_reward_votes_refuses b m rounds r reached e ne h round vs there found =
    let s = get_period_votes-IsSorted m.reward_votes_period rounds reached e in
    let hs = b.reward_votes in
    let bh = m.reward_votes_block_hash in
    let passed : find_reward_votes (reverse rounds) hs bh true ≡ none = ground arith in
    get_round_reward_votes_all r hs bh vs
      (Found-of_eq (reward_vote m round) (cert_vote_of r bh) hs vs
        (λ k. sym (find_vote-cert_vote_of m rounds round r e there k)) found)
      ne
      (find_reward_votes-none (reverse rounds) hs bh round r passed
        (lookup-reverse round 0 rounds s ∙ there))
