-- ===== src/PeriodDataQueue.antt =====
-- libraries/core_libs/consensus: PeriodDataQueue, the queue of the periods synced from peers.
pub mod Certified
pub mod Consecutive
mod Examples
use rustaxa.Common.{
  ℕ, zero, suc, ◌+◌, ◌-◌, ◌*◌, ◌/◌, ◌%◌, ◌^◌, ◌≤◌, ◌<◌, max, min, ◌≡◌, refl, sym, ap, subst, ◌∙◌,
  ◌≢◌, ◌↔◌, ◌⊎◌, inl, inr, Bool, true, false, not, ◌&&◌, ◌||◌, Option, none, some, List, [], ◌∷◌,
  ◌++◌, map, arith, ltb, leb, ◌==◌, if◌then◌else◌, ltb→lt, ==_iff, Bool-cases, Option-cases, u64,
  length, All, length-append, total, is_nil,
}
use rustaxa.Common.Outcome.{Outcome, done, fault, deref, ◌>>=◌}
use rustaxa.Vote.{PbftVote}
use rustaxa.PbftBlock.{PbftBlock}

-- The data of a period: its block, and the cert votes for the block before it.
pub record PeriodData : Type 0 where
  pub pbft_blk : PbftBlock
  pub previous_block_cert_votes : List PbftVote

-- The queue holds each period with the peer it came from.
pub record PeriodDataQueue : Type 0 where
  pub queue : List (PeriodData × ℕ)
  pub period : ℕ
  pub last_block_cert_votes : List PbftVote

unfoldable pub size : PeriodDataQueue → ℕ
size q =
    if not (is_nil q.last_block_cert_votes) || is_nil q.queue
    then length q.queue
    else length q.queue - 1

unfoldable pub empty : PeriodDataQueue → Bool
empty q = is_nil q.queue

unfoldable pub clear : PeriodDataQueue → PeriodDataQueue
clear q = record { queue = []; period = 0; last_block_cert_votes = [] }

-- The period after the last one in the queue, or after the chain.
unfoldable pub next_period : ℕ → PeriodDataQueue → ℕ
next_period max_pbft_size q = (max q.period max_pbft_size + 1) % u64

unfoldable pub push : PeriodData → ℕ → ℕ → List PbftVote → PeriodDataQueue → PeriodDataQueue × Bool
unfolding empty next_period
push period_data node_id max_pbft_size cert_votes q =
    let period = period_data.pbft_blk.period in
    if not (period == next_period max_pbft_size q)
      && (empty q && not (period == (max_pbft_size + 2) % u64))
    then (q, false)
    else (
      record {
        queue =
            (if ltb q.period max_pbft_size && not (empty q) then [] else q.queue)
            ++ (period_data, node_id) ∷ [];
        period = period;
        last_block_cert_votes = cert_votes;
      },
      true,
    )

-- `front` of an empty queue is undefined. The result is the block, its cert votes and the peer.
unfoldable pub pop : PeriodDataQueue → Outcome ((PeriodData × List PbftVote × ℕ) × PeriodDataQueue)
pop q = elim q.queue [
  | [] ↦ fault
  | (d, node) ∷ [] ↦ done (
    (d, q.last_block_cert_votes, node),
    record { queue = []; period = 0; last_block_cert_votes = [] },
  )
  | (d, node) ∷ next ∷ rest ↦
      done ((d, next.0.previous_block_cert_votes, node), record q { queue = next ∷ rest })
]

abbrev last_block : List (PeriodData × ℕ) → Option PbftBlock
last_block [] = none
last_block (x ∷ []) = some x.0.pbft_blk
last_block (x ∷ y ∷ xs) = last_block (y ∷ xs)

unfoldable pub last_pbft_block : PeriodDataQueue → Option PbftBlock
last_pbft_block q = last_block q.queue

unfoldable pub drop_old : ℕ → List (PeriodData × ℕ) → List (PeriodData × ℕ)
drop_old period [] = []
drop_old period (x ∷ xs) =
    let rest = drop_old period xs in if ltb x.0.pbft_blk.period period then rest else x ∷ xs

unfoldable pub clean_old_data : ℕ → PeriodDataQueue → PeriodDataQueue
unfolding drop_old
clean_old_data period q = record q { queue = drop_old period q.queue }
