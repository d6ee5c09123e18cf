-- ===== src/VoteManager/Weighed.antt =====
-- VoteManager: addVerifiedVote enters a 2t+1 block only for votes of that weight.
use rustaxa.Common.{
  ℕ, ◌+◌, ◌-◌, ◌%◌, ◌≤◌, ◌≡◌, refl, subst, ◌∙◌, ◌⊎◌, inl, inr, Bool, true, false, not, ◌&&◌, none,
  some, arith, ltb, ◌==◌, Bool-cases, Option-cases, u64,
}
use rustaxa.Common.Outcome.{done, Outcome-cases}
use rustaxa.Vote.{PbftVote, get_type}
use rustaxa.VerifiedVotes.{
  VerifiedVotes, VotesWithWeight, RoundVerifiedVotes, TwoTPlusOneVotedBlockType,
  insert_unique_voter, insert_voted_value, get_round_votes, set_network_t_plus_one_step,
}
use rustaxa.VerifiedVotes.HandOut.{IsThere}
use rustaxa.VoteManager.{
  Chain, VoteManager, get_pbft_two_t_plus_one, voted_block_type, save_two_t_plus_one_votes,
  raise_network_step, note_thresholds, note_reward_vote, is_old, is_valid_reward_vote,
  add_unique_vote, add_verified_vote,
}
use rustaxa.VoteManager.Add.{
  note_reward_vote_votes, get_pbft_two_t_plus_one_votes, raise_network_step_votes,
}

-- The period before, as it is looked up for a vote.
abbrev pub before : ℕ → ℕ
before period = (period + (u64 - 1)) % u64

raise_network_step_cache :
    (r : RoundVerifiedVotes) (voted : VotesWithWeight) (t : ℕ) (v : PbftVote) (m : VoteManager)
    → (raise_network_step r voted t v m).current_two_t_plus_one ≡ m.current_two_t_plus_one
unfolding raise_network_step
raise_network_step_cache r voted t v m = ground arith

save_two_t_plus_one_votes_cache :
    (r : RoundVerifiedVotes) (voted : VotesWithWeight) (type : TwoTPlusOneVotedBlockType)
    (v : PbftVote) (m : VoteManager) {m' : VoteManager}
    → save_two_t_plus_one_votes r voted type v m ≡ done m'
    → m'.current_two_t_plus_one ≡ m.current_two_t_plus_one
unfolding save_two_t_plus_one_votes
save_two_t_plus_one_votes_cache r voted type v m h = ground arith

-- No 2t+1 block is entered, or the votes have the weight that was asked for.
unfoldable pub EntersFor : Chain → PbftVote → VotesWithWeight → VoteManager → VoteManager → Type 0
EntersFor c v voted m m' =
    (m'.verified_votes ≡ m.verified_votes)
    ⊎ (m'.verified_votes ≡ set_network_t_plus_one_step v m.verified_votes)
    ⊎ (t : ℕ) × ((get_pbft_two_t_plus_one c (before v.period) (get_type v.step) m).1 ≡ some t)
      × (t ≤ voted.weight)
      × IsThere (voted_block_type v)

pub note_thresholds-EntersFor :
    (c : Chain) (v : PbftVote) (voted : VotesWithWeight) (m : VoteManager) {m' : VoteManager}
    → note_thresholds c v voted m ≡ done m'
    → EntersFor c v voted m m'
      × (m'.current_two_t_plus_one
          ≡ (get_pbft_two_t_plus_one c
              (before v.period)
              (get_type v.step)
              m).0.current_two_t_plus_one)
unfolding note_thresholds EntersFor
note_thresholds-EntersFor c v voted m {m'} h =
    let p = get_pbft_two_t_plus_one c (before v.period) (get_type v.step) m in
    let kept = get_pbft_two_t_plus_one_votes c (before v.period) (get_type v.step) m in
    elim (Option-cases p.1) [
      | inl e ↦ (inl (ground (arith, kept)), ground arith)
      | inr (t, e) ↦ elim (Option-cases (get_round_votes v.period v.round p.0.verified_votes)) [
        | inl f ↦ (inl (ground (arith, kept)), ground arith)
        | inr (r, f) ↦
            let rise = raise_network_step_votes r voted t v p.0 in
            let cache = raise_network_step_cache r voted t v p.0 in
            elim (Bool-cases (ltb voted.weight t)) [
              | inl low ↦ elim rise [
                | inl g ↦ (inl (ground (arith, kept)), ground arith)
                | inr g ↦ (inr (inl (ground (arith, kept))), ground arith)
              ]
              | inr high ↦ elim (Option-cases (voted_block_type v)) [
                | inl none_type ↦ elim rise [
                  | inl g ↦ (inl (ground (arith, kept)), ground arith)
                  | inr g ↦ (inr (inl (ground (arith, kept))), ground arith)
                ]
                | inr (type, g) ↦ (
                  inr (inr (t, e, ground arith, (type, g))),
                  save_two_t_plus_one_votes_cache r voted type v
                        (raise_network_step r voted t v p.0) {m' = m'} (ground arith)
                      ∙ cache,
                )
              ]
            ]
      ]
    ]

-- What a call of `add_verified_vote` did: nothing but to enter the vote, or what follows a new vote.
pub data Adds (c : Chain) (v : PbftVote) (m m' : VoteManager) : Type 0 where
  refused :
      m'.verified_votes ≡ m.verified_votes
      → m'.current_two_t_plus_one ≡ m.current_two_t_plus_one
      → Adds c v m m'
  checked :
      m'.verified_votes ≡ (insert_unique_voter v m.verified_votes).0
      → m'.current_two_t_plus_one ≡ m.current_two_t_plus_one
      → Adds c v m m'
  known :
      insert_voted_value v (insert_unique_voter v m.verified_votes).0
        ≡ done (m'.verified_votes, none)
      → m'.current_two_t_plus_one ≡ m.current_two_t_plus_one
      → Adds c v m m'
  noted :
      (vv : VerifiedVotes) (voted : VotesWithWeight) (m0 : VoteManager)
      → insert_voted_value v (insert_unique_voter v m.verified_votes).0 ≡ done (vv, some voted)
      → m0.verified_votes ≡ vv
      → m0.current_two_t_plus_one ≡ m.current_two_t_plus_one
      → note_thresholds c v voted m0 ≡ done m'
      → Adds c v m m'

note_reward_vote_cache :
    (v : PbftVote) (b : Bool) (m : VoteManager)
    → (note_reward_vote v b m).current_two_t_plus_one ≡ m.current_two_t_plus_one
unfolding note_reward_vote
note_reward_vote_cache v true m = refl
note_reward_vote_cache v false m = refl

add_unique_vote-Adds :
    (c : Chain) (v : PbftVote) (m held : VoteManager) {m' : VoteManager} {b : Bool}
    → held.verified_votes ≡ (insert_unique_voter v m.verified_votes).0
    → held.current_two_t_plus_one ≡ m.current_two_t_plus_one
    → add_unique_vote c v held ≡ done (m', b)
    → Adds c v m m'
unfolding add_unique_vote
add_unique_vote-Adds c v m held {m'} {b} from cache h =
    elim (Bool-cases (is_old v held && not (is_valid_reward_vote v held))) [
      | inl old ↦ checked (ground arith) (ground arith)
      | inr current ↦ elim (Outcome-cases (insert_voted_value v held.verified_votes)) [
        | inl e ↦ absurd (ground arith)
        | inr ((vv, r), e) ↦ elim (Option-cases r) [
          | inl f ↦ known (ground arith) (ground arith)
          | inr (voted, f) ↦
              let stored_m : VoteManager = record held { verified_votes = vv } in
              let after = note_reward_vote v (is_old v held) stored_m in
              elim (Outcome-cases (note_thresholds c v voted after)) [
                | inl g ↦ absurd (ground arith)
                | inr (m'', g) ↦
                    let same : m'' ≡ m' = ground arith in
                    noted vv voted after (ground arith)
                      (note_reward_vote_votes v (is_old v held) stored_m)
                      (note_reward_vote_cache v (is_old v held) stored_m ∙ cache)
                      (subst (λ x. note_thresholds c v voted after ≡ done x) same g)
              ]
        ]
      ]
    ]

pub add_verified_vote-Adds :
    (c : Chain) (v : PbftVote) (m : VoteManager) {m' : VoteManager} {b : Bool}
    → add_verified_vote c v m ≡ done (m', b)
    → Adds c v m m'
unfolding add_verified_vote
add_verified_vote-Adds c v m {m'} {b} h = elim (Option-cases v.weight) [
  | inl e ↦ absurd (ground arith)
  | inr (w, e) ↦ elim (Bool-cases (w == 0)) [
    | inl z ↦ refused (ground arith) (ground arith)
    | inr nz ↦ elim (Option-cases (insert_unique_voter v m.verified_votes).1) [
      | inr (u, f) ↦ checked (ground arith) (ground arith)
      | inl f ↦
          let vv = (insert_unique_voter v m.verified_votes).0 in
          let held : VoteManager = record m { verified_votes = vv } in
          add_unique_vote-Adds c v m held {m' = m'} {b = b} refl refl (ground arith)
    ]
  ]
]
