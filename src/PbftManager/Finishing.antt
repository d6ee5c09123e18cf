-- ===== src/PbftManager/Finishing.antt =====
-- PbftManager: what the node votes in the two finish states (firstFinish_, secondFinish_).
use rustaxa.Common.{◌+◌, ◌*◌, true, not, ◌&&◌, ◌||◌, none, some, ltb, leb, ◌==◌, if◌then◌else◌}
use rustaxa.Common.Outcome.{Outcome, done, assert, ◌>>=◌, ◌>>◌}
use rustaxa.Vote.{next_vote, null_block_hash}
use rustaxa.VerifiedVotes.{soft_voted_block, next_voted_block, next_voted_null_block}
use rustaxa.ProposedBlocks.{is_none}
use rustaxa.PbftManager.{World, PbftManager, get_pbft_period}
use rustaxa.PbftManager.Voting.{k_polling_interval_ms}
use rustaxa.PbftManager.Steps.{voted_in, round_before, vote_now, vote_for_found, elapsed}

-- The starting value of the round is next voted: the cert voted block, the null block, or the block
-- that was next voted in the round before.
unfoldable pub first_finish : World → PbftManager → Outcome PbftManager
unfolding vote_for_found vote_now
first_finish w s =
    let null_voted = not (is_none (voted_in (round_before s) next_voted_null_block s)) in
    elim s.machine.cert_voted_block_for_round [
      | some b ↦ do
        assert (b.period == get_pbft_period s)
        (s', _) ← vote_now w next_vote b.block_hash (some b) s
        done s'
      | none ↦
          if leb 2 s.machine.round && null_voted
          then (do (s', _) ← vote_now w next_vote null_block_hash none s; done s')
          else elim (voted_in (round_before s) next_voted_block s) [
            | some block_hash ↦ do (s', _) ← vote_for_found w next_vote block_hash s; done s'
            | none ↦ do
              assert (not null_voted)
              (s', _) ← vote_now w next_vote null_block_hash none s
              done s'
          ]
    ]

abbrev pub note_next_voted_value : PbftManager → PbftManager
note_next_voted_value s = record s {
  machine = record s.machine { already_next_voted_value = true };
  db = record s.db { next_voted_soft_value = true };
}

abbrev pub note_next_voted_null : PbftManager → PbftManager
note_next_voted_null s = record s {
  machine = record s.machine { already_next_voted_null_block_hash = true };
  db = record s.db { next_voted_null_block_hash = true };
}

unfoldable pub next_vote_soft_voted_block : World → PbftManager → Outcome PbftManager
unfolding vote_for_found
next_vote_soft_voted_block w s =
    if s.machine.already_next_voted_value
    then done s
    else elim (voted_in s.machine.round soft_voted_block s) [
      | none ↦ done s
      | some block_hash ↦ do
        (s', placed) ← vote_for_found w next_vote block_hash s
        done (if placed then note_next_voted_value s' else s')
    ]

unfoldable pub next_vote_null_block : World → PbftManager → Outcome PbftManager
unfolding vote_now
next_vote_null_block w s =
    if not (is_none s.machine.cert_voted_block_for_round)
      || (s.machine.already_next_voted_null_block_hash || ltb s.machine.round 2)
    then done s
    else if is_none (voted_in (round_before s) next_voted_null_block s)
    then done s
    else do
      (s', placed) ← vote_now w next_vote null_block_hash none s
      done (if placed then note_next_voted_null s' else s')

unfoldable pub second_finish : World → PbftManager → Outcome PbftManager
unfolding next_vote_soft_voted_block next_vote_null_block
second_finish w s = do
  s₁ ← next_vote_soft_voted_block w s
  s₂ ← next_vote_null_block w s₁
  let time = elapsed w s₂.machine.second_finish_step_start
  let over = ltb (2 * s₂.lambdas.current_round_lambda) (time + 2 * k_polling_interval_ms)
  done (record s₂ { machine = record s₂.machine { loop_back_finish_state = over } })
