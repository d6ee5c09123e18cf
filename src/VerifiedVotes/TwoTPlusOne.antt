-- ===== src/VerifiedVotes/TwoTPlusOne.antt =====
-- VerifiedVotes: the blocks with 2t+1 votes, as they are entered and read.
use rustaxa.Common.{
  ℕ, ◌≡◌, inl, inr, Bool, ◌&&◌, Option, none, some, arith, ◌==◌, if◌then◌else◌, Option-cases,
}
use rustaxa.Common.Map.{or_else, lookup, put, emplace, lookup-put}
use rustaxa.Vote.{PbftVote}
use rustaxa.VerifiedVotes.{
  RoundVerifiedVotes, set_network_t_plus_one_step, insert_two_t_plus_one_voted_block,
  get_two_t_plus_one_voted_block, get_round_votes, get_step_votes, VerifiedVotes,
  TwoTPlusOneVotedBlockType, VotedBlock, type_code,
}

-- Neither of these touches the votes.
pub get_step_votes-insert_two_t_plus_one_voted_block :
    (type : TwoTPlusOneVotedBlockType) (v : PbftVote) (s : VerifiedVotes) (period round step : ℕ)
    → get_step_votes period round step (insert_two_t_plus_one_voted_block type v s)
      ≡ get_step_votes period round step s
unfolding get_step_votes insert_two_t_plus_one_voted_block
get_step_votes-insert_two_t_plus_one_voted_block type v s period round step =
    elim (Option-cases (lookup v.period s)) [
      | inl e ↦ ground arith
      | inr (rounds, e) ↦ elim (Option-cases (lookup v.round rounds)) [
        | inl f ↦ ground arith
        | inr (r, f) ↦
            let block : VotedBlock = record { hash = v.block_hash; step = v.step } in
            let blocks = emplace (type_code type) block r.two_t_plus_one_voted_blocks in
            let r' : RoundVerifiedVotes = record r { two_t_plus_one_voted_blocks = blocks } in
            ground (
              arith,
              lookup-put v.period period (put v.round r' rounds) s,
              lookup-put v.round round r' rounds,
            )
      ]
    ]

pub get_step_votes-set_network_t_plus_one_step :
    (v : PbftVote) (s : VerifiedVotes) (period round step : ℕ)
    → get_step_votes period round step (set_network_t_plus_one_step v s)
      ≡ get_step_votes period round step s
unfolding get_step_votes set_network_t_plus_one_step
get_step_votes-set_network_t_plus_one_step v s period round step =
    elim (Option-cases (lookup v.period s)) [
      | inl e ↦ ground arith
      | inr (rounds, e) ↦ elim (Option-cases (lookup v.round rounds)) [
        | inl f ↦ ground arith
        | inr (r, f) ↦
            let r' : RoundVerifiedVotes = record r { network_t_plus_one_step = v.step } in
            ground (
              arith,
              lookup-put v.period period (put v.round r' rounds) s,
              lookup-put v.round round r' rounds,
            )
      ]
    ]

abbrev pub at_round : PbftVote → ℕ → ℕ → Bool
at_round v period round = v.period == period && v.round == round

-- The block that a call would enter, if the round of the vote is there.
abbrev pub entered_block : PbftVote → VerifiedVotes → Option VotedBlock
entered_block v s = elim (get_round_votes v.period v.round s) [
  | none ↦ none
  | some _ ↦ some (record { hash = v.block_hash; step = v.step })
]

-- The first block of a type in a round stays; only where there was none is the block of the vote
-- entered, under its own period, round and type, and only if the round is there.
pub get-insert_two_t_plus_one_voted_block :
    (type type' : TwoTPlusOneVotedBlockType) (v : PbftVote) (s : VerifiedVotes) (period round : ℕ)
    → get_two_t_plus_one_voted_block period round type' (insert_two_t_plus_one_voted_block type v s)
      ≡ or_else (get_two_t_plus_one_voted_block period round type' s) (
          if at_round v period round && type_code type == type_code type'
          then entered_block v s
          else none)
unfolding get_two_t_plus_one_voted_block insert_two_t_plus_one_voted_block get_round_votes emplace
get-insert_two_t_plus_one_voted_block type type' v s period round =
    elim (Option-cases (lookup v.period s)) [
      | inl e ↦ ground arith
      | inr (rounds, e) ↦ elim (Option-cases (lookup v.round rounds)) [
        | inl f ↦ ground arith
        | inr (r, f) ↦
            let block : VotedBlock = record { hash = v.block_hash; step = v.step } in
            let blocks = emplace (type_code type) block r.two_t_plus_one_voted_blocks in
            let r' : RoundVerifiedVotes = record r { two_t_plus_one_voted_blocks = blocks } in
            ground (
              arith,
              lookup-put v.period period (put v.round r' rounds) s,
              lookup-put v.round round r' rounds,
              lookup-put (type_code type) (type_code type') block r.two_t_plus_one_voted_blocks,
            )
      ]
    ]
