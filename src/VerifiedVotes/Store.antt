-- ===== src/VerifiedVotes/Store.antt =====
-- What the reading methods see after an entry of the nested maps was replaced.
use rustaxa.Common.{ℕ, ◌≡◌, Bool, ◌&&◌, Option, none, some, [], arith, ◌==◌, if◌then◌else◌}
use rustaxa.Common.Map.{lookup, put, lookup-put}
use rustaxa.Vote.{PbftVote}
use rustaxa.VerifiedVotes.{
  VerifiedVotes, VotesWithWeight, StepVotes, RoundVerifiedVotes, new_step, new_round, or_new,
  get_step_votes, store_step, store_voted_value,
}

abbrev pub at_step : PbftVote → ℕ → ℕ → ℕ → Bool
at_step v period round step = v.period == period && (v.round == round && v.step == step)

pub get_step_votes-store_step :
    (v : PbftVote) (e : StepVotes) (s : VerifiedVotes) (period round step : ℕ)
    → get_step_votes period round step (store_step v e s)
      ≡ (if at_step v period round step then some e else get_step_votes period round step s)
unfolding get_step_votes store_step lookup
get_step_votes-store_step v e s period round step =
    let rounds = or_new [] (lookup v.period s) in
    let r = or_new new_round (lookup v.round rounds) in
    let r' : RoundVerifiedVotes = record r { step_votes = put v.step e r.step_votes } in
    ground (
      arith,
      lookup-put v.period period (put v.round r' rounds) s,
      lookup-put v.round round r' rounds,
      lookup-put v.step step e r.step_votes,
    )

-- The votes for one block in one step.
unfoldable pub find_voted : ℕ → ℕ → ℕ → ℕ → VerifiedVotes → Option VotesWithWeight
unfolding lookup
find_voted period round step block s = elim (get_step_votes period round step s) [
  | none ↦ none
  | some e ↦ lookup block e.votes
]

-- A vote by its hash there.
unfoldable pub find_vote : ℕ → ℕ → ℕ → ℕ → ℕ → VerifiedVotes → Option PbftVote
unfolding lookup
find_vote period round step block hash s = elim (find_voted period round step block s) [
  | none ↦ none
  | some voted ↦ lookup hash voted.votes
]

pub find_voted-store_voted_value :
    (v : PbftVote) (voted : VotesWithWeight) (s : VerifiedVotes) (period round step block : ℕ)
    → find_voted period round step block (store_voted_value v voted s) ≡ (
        if at_step v period round step && v.block_hash == block
        then some voted
        else find_voted period round step block s)
unfolding find_voted store_voted_value
find_voted-store_voted_value v voted s period round step block =
    let e = or_new new_step (get_step_votes v.period v.round v.step s) in
    let e' : StepVotes = record e { votes = put v.block_hash voted e.votes } in
    ground (
      arith,
      get_step_votes-store_step v e' s period round step,
      lookup-put v.block_hash block voted e.votes,
    )
