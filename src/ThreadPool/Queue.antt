-- ===== src/ThreadPool/Queue.antt =====
-- network/threadpool/packets_queue.cpp: the packets of one priority.
pub mod Taken
use rustaxa.Common.{
  ℕ, zero, suc, ◌+◌, ◌-◌, ◌*◌, ◌/◌, ◌%◌, ◌^◌, ◌≤◌, ◌<◌, max, min, ◌≡◌, refl, sym, ap, subst, ◌∙◌,
  ◌≢◌, ◌↔◌, ◌⊎◌, inl, inr, Bool, true, false, not, ◌&&◌, ◌||◌, Option, none, some, List, [], ◌∷◌,
  ◌++◌, map, arith, ltb, leb, ◌==◌, if◌then◌else◌, ltb→lt, ==_iff, Bool-cases, Option-cases, u64,
  length, All, length-append, total,
}
use rustaxa.Common.Outcome.{Outcome, done, fault, ◌>>=◌, ◌>>◌, deref, assert}
use rustaxa.ThreadPool.Packet.{PacketData}
use rustaxa.ThreadPool.Mask.{PacketsBlockingMask, is_packet_blocked}

-- A packet with the version of the protocol it came by.
abbrev pub Item : Type 0
Item = ℕ × PacketData

pub record PacketsQueue : Type 0 where
  pub packets : List Item
  pub max_workers_count : ℕ
  pub act_workers_count : ℕ
  pub act_packets_count : ℕ

unfoldable pub max_workers_count_reached : PacketsQueue → Bool
max_workers_count_reached q = leb q.max_workers_count q.act_workers_count

unfoldable pub queue_push_back : Item → PacketsQueue → PacketsQueue
queue_push_back x q = record q {
  packets = q.packets ++ x ∷ [];
  act_packets_count = (q.act_packets_count + 1) % u64;
}

-- A packet in front of those that the search left behind.
abbrev pub keep_item : Item → Option (Item × List Item) → Option (Item × List Item)
keep_item x none = none
keep_item x (some (y, ys)) = some (y, x ∷ ys)

abbrev keep_found : Item → Outcome (Option (Item × List Item)) → Outcome (Option (Item × List Item))
keep_found x fault = fault
keep_found x (done r) = done (keep_item x r)

-- The first packet that is not blocked, and the others.
unfoldable pub take_unblocked :
    Bool → PacketsBlockingMask → List Item → Outcome (Option (Item × List Item))
take_unblocked sync_queue_empty m [] = done none
take_unblocked sync_queue_empty m (x ∷ xs) =
    let later = take_unblocked sync_queue_empty m xs in
    elim (is_packet_blocked sync_queue_empty x.1 m) [
      | fault ↦ fault
      | done is_blocked ↦ if is_blocked then keep_found x later else done (some (x, xs))
    ]

unfoldable pub queue_pop :
    Bool → PacketsBlockingMask → PacketsQueue → Outcome (PacketsQueue × Option Item)
unfolding take_unblocked
queue_pop sync_queue_empty m q = do
  found ← take_unblocked sync_queue_empty m q.packets
  elim found [
    | none ↦ done (q, none)
    | some (x, rest) ↦ do
      assert (not (q.act_packets_count == 0))
      done (record q { packets = rest; act_packets_count = q.act_packets_count - 1 }, some x)
  ]

unfoldable pub set_max_workers_count : ℕ → PacketsQueue → PacketsQueue
set_max_workers_count n q = record q { max_workers_count = n }

unfoldable pub increment_act_workers_count : PacketsQueue → PacketsQueue
increment_act_workers_count q = record q { act_workers_count = (q.act_workers_count + 1) % u64 }

unfoldable pub decrement_act_workers_count : PacketsQueue → Outcome PacketsQueue
decrement_act_workers_count q = do
  assert (ltb 0 q.act_workers_count)
  done (record q { act_workers_count = q.act_workers_count - 1 })

unfoldable pub queue_empty : PacketsQueue → Bool
queue_empty q = q.act_packets_count == 0
