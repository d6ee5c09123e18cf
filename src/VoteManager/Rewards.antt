-- ===== src/VoteManager/Rewards.antt =====
-- Reward votes: the cert votes of the last block that a new block rewards.
use mathlib.Core.List.{reverse}
use rustaxa.Common.{
  ℕ, u32, ◌%◌, Bool, true, false, ◌&&◌, Option, none, some, List, [], ◌∷◌, ◌++◌, ◌==◌,
  if◌then◌else◌,
}
use rustaxa.Common.Outcome.{Outcome, done, fault, ◌>>=◌, ◌>>◌, deref, assert}
use rustaxa.Common.Map.{Map, lookup}
use rustaxa.Vote.{PbftVote}
use rustaxa.PbftBlock.{PbftBlock}
use rustaxa.VerifiedVotes.{
  RoundVerifiedVotes, get_round_votes, get_period_votes, cert_voted_block, type_code, values,
  get_two_t_plus_one_voted_block_votes,
}
use rustaxa.VoteManager.{VoteManager, Effect}

-- `static_cast<PbftStep>(PbftVoteTypes::cert_vote)`.
abbrev pub cert_step : ℕ
cert_step = 3

-- The loop over the hashes: whether all were found so far, and the votes.
unfoldable pub collect_votes :
    Map PbftVote → Bool → List ℕ → Bool → List PbftVote → Bool × List PbftVote
unfolding lookup
collect_votes votes copy [] found_all acc = (found_all, acc)
collect_votes votes copy (h ∷ hs) found_all acc = elim (lookup h votes) [
  | none ↦ collect_votes votes copy hs false acc
  | some v ↦
      collect_votes votes copy hs found_all (if found_all && copy then acc ++ v ∷ [] else acc)
]

-- The lambda `getRewardVotes`: none for `{false, {}}`.
unfoldable pub get_round_reward_votes :
    RoundVerifiedVotes → List ℕ → ℕ → Bool → Option (List PbftVote)
get_round_reward_votes r hashes block_hash copy = elim (lookup cert_step r.step_votes) [
  | none ↦ none
  | some step ↦ elim (lookup block_hash step.votes) [
    | none ↦ none
    | some voted ↦
        let (found_all, votes) = collect_votes voted.votes copy hashes true [] in
        if found_all then some votes else none
  ]
]

-- The loop over the rounds, the newest first.
unfoldable pub find_reward_votes :
    Map RoundVerifiedVotes → List ℕ → ℕ → Bool → Option (List PbftVote)
unfolding get_round_reward_votes
find_reward_votes [] hashes block_hash copy = none
find_reward_votes ((_, r) ∷ rest) hashes block_hash copy =
    let later = find_reward_votes rest hashes block_hash copy in
    elim (get_round_reward_votes r hashes block_hash copy) [
      | some votes ↦ some votes
      | none ↦ later
    ]

unfoldable pub check_reward_votes :
    PbftBlock → Bool → VoteManager → Outcome (Option (List PbftVote))
check_reward_votes b copy m =
    if b.period == 1
    then done (some [])
    else elim (get_round_votes m.reward_votes_period m.reward_votes_round m.verified_votes) [
      | none ↦ fault
      | some r ↦ elim (get_round_reward_votes r b.reward_votes m.reward_votes_block_hash copy) [
        | some votes ↦ done (some votes)
        | none ↦ elim (get_period_votes m.reward_votes_period m.verified_votes) [
          | none ↦ fault
          | some rounds ↦
              done
                (find_reward_votes (reverse rounds) b.reward_votes m.reward_votes_block_hash copy)
        ]
      ]
    ]

unfoldable pub get_reward_votes : VoteManager → Outcome (List PbftVote)
get_reward_votes m = do
  votes ←
      get_two_t_plus_one_voted_block_votes m.reward_votes_period m.reward_votes_round
        cert_voted_block m.verified_votes
  elim votes [
    | [] ↦ done []
    | v ∷ rest ↦ do assert (v.block_hash == m.reward_votes_block_hash); done (v ∷ rest)
  ]

-- The reward votes are moved to the block that was pushed. Its period is cut to the 32 bits of the
-- member that holds it.
unfoldable pub reset_reward_votes : ℕ → ℕ → ℕ → ℕ → VoteManager → Outcome VoteManager
reset_reward_votes period round step block_hash m = do
  r ← deref (get_round_votes period round m.verified_votes)
  step_votes ← deref (lookup step r.step_votes)
  cert ← deref (lookup (type_code cert_voted_block) r.two_t_plus_one_voted_blocks)
  assert (cert.hash == block_hash)
  voted ← deref (lookup block_hash step_votes.votes)
  done (record m {
    reward_votes_block_hash = block_hash;
    reward_votes_period = period % u32;
    reward_votes_round = round;
    extra_reward_votes = [];
    effects =
        Effect.remove_extra_reward_votes m.extra_reward_votes
        ∷ (Effect.replace_two_t_plus_one_votes cert_voted_block (values voted.votes) ∷ m.effects);
  })
