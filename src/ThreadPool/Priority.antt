-- ===== src/ThreadPool/Priority.antt =====
-- network/threadpool/priority_queue.cpp: the queues of all priorities and the limits on workers.
pub mod Found
pub mod Queues
pub mod Workers
pub mod Reach
pub mod Blocked
pub mod Exclusion
pub mod Exclusive
mod Examples
use rustaxa.ThreadPool.Blocking.{update_blocking_dependencies, is_non_blocking_packet}
use rustaxa.Common.{
  ℕ, zero, suc, ◌+◌, ◌-◌, ◌*◌, ◌/◌, ◌%◌, ◌^◌, ◌≤◌, ◌<◌, max, min, ◌≡◌, refl, sym, ap, subst, ◌∙◌,
  ◌≢◌, ◌↔◌, ◌⊎◌, inl, inr, Bool, true, false, not, ◌&&◌, ◌||◌, Option, none, some, List, [], ◌∷◌,
  ◌++◌, map, arith, ltb, leb, ◌==◌, if◌then◌else◌, ltb→lt, ==_iff, Bool-cases, Option-cases, u64,
  length, All, length-append, total,
}
use rustaxa.Common.Outcome.{Outcome, done, fault, ◌>>=◌, ◌>>◌, deref, assert}
use rustaxa.ThreadPool.Packet.{SubprotocolPacketType, PacketPriority, PacketData, high, mid, low}
use rustaxa.ThreadPool.Mask.{PacketsBlockingMask}
use rustaxa.ThreadPool.Queue.{
  Item, PacketsQueue, max_workers_count_reached, queue_push_back, queue_pop, set_max_workers_count,
  increment_act_workers_count, decrement_act_workers_count, queue_empty,
}

-- `packets_queues_` has a place for each priority.
pub record PriorityQueue : Type 0 where
  pub high_queue : PacketsQueue
  pub mid_queue : PacketsQueue
  pub low_queue : PacketsQueue
  pub blocked_packets_mask : PacketsBlockingMask
  pub max_total_workers_count : ℕ
  pub act_total_workers_count : ℕ

unfoldable pub queue_at : PacketPriority → PriorityQueue → PacketsQueue
queue_at high q = q.high_queue
queue_at mid q = q.mid_queue
queue_at low q = q.low_queue

unfoldable pub set_queue : PacketPriority → PacketsQueue → PriorityQueue → PriorityQueue
set_queue high p q = record q { high_queue = p }
set_queue mid p q = record q { mid_queue = p }
set_queue low p q = record q { low_queue = p }

abbrev pub no_packets : PacketsQueue
no_packets = record {
  packets = [];
  max_workers_count = 0;
  act_workers_count = 0;
  act_packets_count = 0;
}

abbrev pub no_blocks : PacketsBlockingMask
no_blocks = record {
  hard_blocked_packet_types = [];
  peer_order_blocked_packet_types = [];
  processing_dag_levels = [];
  processing_dag_blocks = [];
}

-- `std::max(1, static_cast<int>(MAX_TOTAL_WORKERS_COUNT * tenths / 10))`, for counts that fit in an
-- `int`.
unfoldable pub share_of_workers : ℕ → ℕ → ℕ
share_of_workers tenths n = max 1 (n * tenths % u64 / 10)

-- The state that the constructor makes.
unfoldable pub new_queues : ℕ → PriorityQueue
unfolding share_of_workers set_max_workers_count
new_queues tp_workers_count = record {
  high_queue = set_max_workers_count (share_of_workers 4 tp_workers_count) no_packets;
  mid_queue = set_max_workers_count (share_of_workers 4 tp_workers_count) no_packets;
  low_queue = set_max_workers_count (share_of_workers 3 tp_workers_count) no_packets;
  blocked_packets_mask = no_blocks;
  max_total_workers_count = tp_workers_count;
  act_total_workers_count = 0;
}

unfoldable pub new_priority_queue : ℕ → Outcome PriorityQueue
unfolding new_queues
new_priority_queue tp_workers_count = do
  assert (leb 3 tp_workers_count)
  assert (
      ltb (share_of_workers 4 tp_workers_count + share_of_workers 4 tp_workers_count)
        tp_workers_count)
  done (new_queues tp_workers_count)

unfoldable pub push_back : Item → PriorityQueue → PriorityQueue
unfolding queue_at set_queue queue_push_back
push_back x q = set_queue x.1.priority (queue_push_back x (queue_at x.1.priority q)) q

abbrev pub idle : PacketsQueue → ℕ
idle q = if q.act_workers_count == 0 then 1 else 0

-- The threads to be kept for the queues that use none.
unfoldable pub reserved_threads_num : PriorityQueue → ℕ
reserved_threads_num q = idle q.high_queue + idle q.mid_queue + idle q.low_queue

-- `MAX_TOTAL_WORKERS_COUNT` is at least 3, so the difference does not wrap around.
unfoldable pub can_borrow_thread : PriorityQueue → Bool
unfolding reserved_threads_num
can_borrow_thread q =
    ltb q.act_total_workers_count (q.max_total_workers_count - reserved_threads_num q)

abbrev pub priorities : List PacketPriority
priorities = high ∷ mid ∷ low ∷ []

-- One iteration over the queues: with a packet, or else whether a queue was at its limit.
pub data Pass : Type 0 where
  found : PriorityQueue → Item → Pass
  not_found : Bool → Pass

-- `heed` for the first iteration, which heeds the limits of the queues.
unfoldable pub pass : Bool → Bool → List PacketPriority → Bool → PriorityQueue → Outcome Pass
unfolding queue_at set_queue queue_empty max_workers_count_reached queue_pop
pass sync_queue_empty heed [] try_borrow q = done (not_found try_borrow)
pass sync_queue_empty heed (p ∷ ps) try_borrow q =
    let skipped = pass sync_queue_empty heed ps try_borrow q in
    let at_limit = pass sync_queue_empty heed ps true q in
    let queue = queue_at p q in
    if queue_empty queue
    then skipped
    else if heed && max_workers_count_reached queue
    then at_limit
    else elim (queue_pop sync_queue_empty q.blocked_packets_mask queue) [
      | fault ↦ fault
      | done (queue', none) ↦ skipped
      | done (queue', some x) ↦ done (found (set_queue p queue' q) x)
    ]

abbrev pub popped : Pass → PriorityQueue → PriorityQueue × Option Item
popped (found q' x) q = (q', some x)
popped (not_found _) q = (q, none)

unfoldable pub pop : Bool → PriorityQueue → Outcome (PriorityQueue × Option Item)
unfolding pass can_borrow_thread
pop sync_queue_empty q =
    if leb q.max_total_workers_count q.act_total_workers_count then done (q, none) else do
      first ← pass sync_queue_empty true priorities false q
      elim first [
        | found q' x ↦ done (q', some x)
        | not_found false ↦ done (q, none)
        | not_found true ↦
            if can_borrow_thread q
            then (do
              second ← pass sync_queue_empty false priorities false q
              done (popped second q))
            else done (q, none)
      ]

unfoldable pub is_empty : PriorityQueue → Bool
unfolding queue_empty
is_empty q = queue_empty q.high_queue && (queue_empty q.mid_queue && queue_empty q.low_queue)

unfoldable pub update_dependencies_start : PacketData → PriorityQueue → Outcome PriorityQueue
unfolding queue_at set_queue increment_act_workers_count update_blocking_dependencies
update_dependencies_start p q = do
  assert (ltb q.act_total_workers_count q.max_total_workers_count)
  let counted : PriorityQueue =
      set_queue p.priority (increment_act_workers_count (queue_at p.priority q))
        (record q { act_total_workers_count = (q.act_total_workers_count + 1) % u64 })
  (m, _) ← update_blocking_dependencies false p counted.blocked_packets_mask
  done (record counted { blocked_packets_mask = m })

-- The mask after a packet is done with; packets that block nothing leave it.
unfoldable pub unblock_packet : PacketData → PacketsBlockingMask → Outcome PacketsBlockingMask
unfolding is_non_blocking_packet update_blocking_dependencies
unblock_packet p m =
    if is_non_blocking_packet p.type
    then done m
    else do (m', _) ← update_blocking_dependencies true p m; done m'

unfoldable pub update_dependencies_finish : PacketData → PriorityQueue → Outcome PriorityQueue
unfolding queue_at set_queue decrement_act_workers_count unblock_packet
update_dependencies_finish p q = do
  assert (ltb 0 q.act_total_workers_count)
  m ← unblock_packet p q.blocked_packets_mask
  let counted : PriorityQueue = record q {
    blocked_packets_mask = m;
    act_total_workers_count = q.act_total_workers_count - 1;
  }
  queue ← decrement_act_workers_count (queue_at p.priority counted)
  done (set_queue p.priority queue counted)

-- The loop of a worker (tarcap_thread_pool.cpp) under the lock: a packet is popped and started.
unfoldable pub take_packet : Bool → PriorityQueue → Outcome (PriorityQueue × Option Item)
unfolding pop update_dependencies_start
take_packet sync_queue_empty q = do
  (q', item) ← pop sync_queue_empty q
  elim item [
    | none ↦ done (q', none)
    | some x ↦ do q'' ← update_dependencies_start x.1 q'; done (q'', some x)
  ]
