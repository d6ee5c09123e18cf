-- ===== src/VoteManager/Add.antt =====
-- addVerifiedVote: what it does to the verified votes, step by step.
use rustaxa.Common.{
  ℕ, ◌+◌, ◌-◌, ◌%◌, ◌≡◌, refl, subst, ◌⊎◌, inl, inr, Bool, true, false, not, ◌&&◌, none, some,
  arith, ltb, ◌==◌, Bool-cases, Option-cases, u64,
}
use rustaxa.Common.Outcome.{Outcome-cases, done}
use rustaxa.Vote.{PbftVote, PbftVoteTypes, get_type}
use rustaxa.VerifiedVotes.{
  insert_voted_value, insert_unique_voter, get_round_votes, set_network_t_plus_one_step,
  insert_two_t_plus_one_voted_block, VerifiedVotes, RoundVerifiedVotes, VotesWithWeight,
  TwoTPlusOneVotedBlockType,
}
use rustaxa.VoteManager.{
  is_valid_reward_vote, is_old, add_verified_vote, add_unique_vote, voted_block_type, Chain,
  VoteManager, save_two_t_plus_one_votes, raise_network_step, note_thresholds,
  get_pbft_two_t_plus_one, note_reward_vote,
}

-- The writes that may follow once a vote is stored.
pub data Noted (v : PbftVote) (s s' : VerifiedVotes) : Type 0 where
  nothing : s' ≡ s → Noted v s s'
  raised : s' ≡ set_network_t_plus_one_step v s → Noted v s s'
  entered :
      (type : TwoTPlusOneVotedBlockType)
      → s' ≡ insert_two_t_plus_one_voted_block type v s
      → Noted v s s'
  both :
      (type : TwoTPlusOneVotedBlockType)
      → s' ≡ insert_two_t_plus_one_voted_block type v (set_network_t_plus_one_step v s)
      → Noted v s s'

pub get_pbft_two_t_plus_one_votes :
    (c : Chain) (period : ℕ) (type : PbftVoteTypes) (m : VoteManager)
    → (get_pbft_two_t_plus_one c period type m).0.verified_votes ≡ m.verified_votes
unfolding get_pbft_two_t_plus_one
get_pbft_two_t_plus_one_votes c period type m = ground arith

pub raise_network_step_votes :
    (r : RoundVerifiedVotes) (voted : VotesWithWeight) (t : ℕ) (v : PbftVote) (m : VoteManager)
    → ((raise_network_step r voted t v m).verified_votes ≡ m.verified_votes)
      ⊎ ((raise_network_step r voted t v m).verified_votes
          ≡ set_network_t_plus_one_step v m.verified_votes)
unfolding raise_network_step
raise_network_step_votes r voted t v m = ground arith

save_two_t_plus_one_votes_votes :
    (r : RoundVerifiedVotes) (voted : VotesWithWeight) (type : TwoTPlusOneVotedBlockType)
    (v : PbftVote) (m : VoteManager) {m' : VoteManager}
    → save_two_t_plus_one_votes r voted type v m ≡ done m'
    → (m'.verified_votes ≡ m.verified_votes)
      ⊎ (m'.verified_votes ≡ insert_two_t_plus_one_voted_block type v m.verified_votes)
unfolding save_two_t_plus_one_votes
save_two_t_plus_one_votes_votes r voted type v m h = ground arith

raised-Noted :
    (r : RoundVerifiedVotes) (voted : VotesWithWeight) (t : ℕ) (v : PbftVote) (m : VoteManager)
    → Noted v m.verified_votes (raise_network_step r voted t v m).verified_votes
raised-Noted r voted t v m = elim (raise_network_step_votes r voted t v m) [
  | inl e ↦ nothing e
  | inr e ↦ raised e
]

saved-Noted :
    (r : RoundVerifiedVotes) (voted : VotesWithWeight) (t : ℕ) (type : TwoTPlusOneVotedBlockType)
    (v : PbftVote) (m : VoteManager) {m' : VoteManager}
    → save_two_t_plus_one_votes r voted type v (raise_network_step r voted t v m) ≡ done m'
    → Noted v m.verified_votes m'.verified_votes
saved-Noted r voted t type v m h =
    elim (save_two_t_plus_one_votes_votes r voted type v (raise_network_step r voted t v m) h) [
      | inl e ↦ rw e (raised-Noted r voted t v m)
      | inr e ↦ elim (raise_network_step_votes r voted t v m) [
        | inl f ↦ entered type (ground arith)
        | inr f ↦ both type (ground arith)
      ]
    ]

pub note_thresholds-Noted :
    (c : Chain) (v : PbftVote) (voted : VotesWithWeight) (m : VoteManager) {m' : VoteManager}
    → note_thresholds c v voted m ≡ done m'
    → Noted v m.verified_votes m'.verified_votes
unfolding note_thresholds
note_thresholds-Noted c v voted m {m'} h =
    let period = (v.period + (u64 - 1)) % u64 in
    let p = get_pbft_two_t_plus_one c period (get_type v.step) m in
    let kept = get_pbft_two_t_plus_one_votes c period (get_type v.step) m in
    let from_kept = subst (λ s. Noted v s m'.verified_votes) kept in
    elim (Option-cases p.1) [
      | inl e ↦ nothing (ground (arith, kept))
      | inr (t, e) ↦ elim (Option-cases (get_round_votes v.period v.round p.0.verified_votes)) [
        | inl f ↦ nothing (ground (arith, kept))
        | inr (r, f) ↦ elim (Bool-cases (ltb voted.weight t)) [
          | inl low ↦
              let e' : m' ≡ raise_network_step r voted t v p.0 = ground arith in
              from_kept (rw e' (raised-Noted r voted t v p.0))
          | inr high ↦ elim (Option-cases (voted_block_type v)) [
            | inl g ↦
                let e' : m' ≡ raise_network_step r voted t v p.0 = ground arith in
                from_kept (rw e' (raised-Noted r voted t v p.0))
            | inr (type, g) ↦ from_kept (saved-Noted r voted t type v p.0 {m' = m'} (ground arith))
          ]
        ]
      ]
    ]

-- What a call of `add_verified_vote` did to the verified votes, and its result.
pub data AddedVote (v : PbftVote) (s s' : VerifiedVotes) (b : Bool) : Type 0 where
  refused : s' ≡ s → b ≡ false → AddedVote v s s' b
  checked : s' ≡ (insert_unique_voter v s).0 → b ≡ false → AddedVote v s s' b
  known :
      (insert_unique_voter v s).1 ≡ none
      → insert_voted_value v (insert_unique_voter v s).0 ≡ done (s', none)
      → b ≡ false
      → AddedVote v s s' b
  stored :
      (vv : VerifiedVotes) (voted : VotesWithWeight)
      → (insert_unique_voter v s).1 ≡ none
      → insert_voted_value v (insert_unique_voter v s).0 ≡ done (vv, some voted)
      → Noted v vv s'
      → b ≡ true
      → AddedVote v s s' b

pub note_reward_vote_votes :
    (v : PbftVote) (b : Bool) (m : VoteManager)
    → (note_reward_vote v b m).verified_votes ≡ m.verified_votes
unfolding note_reward_vote
note_reward_vote_votes v true m = refl
note_reward_vote_votes v false m = refl

-- The case of a vote whose voter has no conflicting one, for the state that holds its entry.
add_unique_vote-AddedVote :
    (c : Chain) (v : PbftVote) (s : VerifiedVotes) (m : VoteManager) {m' : VoteManager} {b : Bool}
    → m.verified_votes ≡ (insert_unique_voter v s).0
    → (insert_unique_voter v s).1 ≡ none
    → add_unique_vote c v m ≡ done (m', b)
    → AddedVote v s m'.verified_votes b
unfolding add_unique_vote
add_unique_vote-AddedVote c v s m {m'} {b} start free h =
    elim (Bool-cases (is_old v m && not (is_valid_reward_vote v m))) [
      | inl old ↦ checked (ground arith) (ground arith)
      | inr current ↦ elim (Outcome-cases (insert_voted_value v m.verified_votes)) [
        | inl e ↦ absurd (ground arith)
        | inr ((vv, r), e) ↦ elim (Option-cases r) [
          | inl f ↦ known free (ground arith) (ground arith)
          | inr (voted, f) ↦
              let stored_m : VoteManager = record m { verified_votes = vv } in
              let noted = note_reward_vote v (is_old v m) stored_m in
              elim (Outcome-cases (note_thresholds c v voted noted)) [
                | inl g ↦ absurd (ground arith)
                | inr (m'', g) ↦
                    let e' : m' ≡ m'' = ground arith in
                    stored vv voted free (ground arith)
                      (rw e' (
                        subst (λ s. Noted v s m''.verified_votes)
                          (note_reward_vote_votes v (is_old v m) stored_m)
                          (note_thresholds-Noted c v voted noted g)))
                      (ground arith)
              ]
        ]
      ]
    ]

pub add_verified_vote-AddedVote :
    (c : Chain) (v : PbftVote) (m : VoteManager) {m' : VoteManager} {b : Bool}
    → add_verified_vote c v m ≡ done (m', b)
    → AddedVote v m.verified_votes m'.verified_votes b
unfolding add_verified_vote
add_verified_vote-AddedVote c v m {m'} {b} h = elim (Option-cases v.weight) [
  | inl e ↦ absurd (ground arith)
  | inr (w, e) ↦ elim (Bool-cases (w == 0)) [
    | inl z ↦ refused (ground arith) (ground arith)
    | inr nz ↦ elim (Option-cases (insert_unique_voter v m.verified_votes).1) [
      | inr (u, f) ↦ checked (ground arith) (ground arith)
      | inl f ↦
          let vv = (insert_unique_voter v m.verified_votes).0 in
          let held : VoteManager = record m { verified_votes = vv } in
          add_unique_vote-AddedVote c v m.verified_votes held {m' = m'} {b = b} refl f
            (ground arith)
    ]
  ]
]
