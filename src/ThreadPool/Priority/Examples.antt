-- ===== src/ThreadPool/Priority/Examples.antt =====
-- Tests of the priority queue, and its theorems at concrete queues.
use rustaxa.Common.{ℕ, zero, suc, ◌≡◌, refl, true, none, some, List, [], ◌∷◌, map, arith, All}
use rustaxa.ThreadPool.Blocking.{
  is_non_blocking_packet, update_by_type, update_blocking_dependencies,
}
use rustaxa.Common.Outcome.{Outcome, done, ◌>>=◌}
use rustaxa.Common.Map.{lookup, contains, put, erase, emplace}
use rustaxa.ThreadPool.Packet.{
  vote_packet, transaction_packet, get_dag_sync_packet, packet_code, high, mid, low,
  get_packet_priority,
}
use rustaxa.ThreadPool.Mask.{
  is_packet_blocked, drop_id, mark_packet_as_hard_blocked, mark_packet_as_hard_unblocked,
  mark_packet_as_peer_order_blocked, mark_packet_as_peer_order_unblocked,
  get_smallest_dag_level_being_processed, set_dag_block_being_processed,
  unset_dag_block_being_processed, set_dag_block_level_being_processed,
  unset_dag_block_level_being_processed, is_packet_hard_blocked,
  is_dag_block_packet_blocked_by_same_dag_block, is_dag_block_packet_blocked_by_level,
  is_packet_peer_order_blocked, is_packet_type_blocked,
}
use rustaxa.ThreadPool.Queue.{
  Item, max_workers_count_reached, queue_push_back, take_unblocked, queue_pop,
  set_max_workers_count, increment_act_workers_count, decrement_act_workers_count, queue_empty,
}
use rustaxa.ThreadPool.Queue.Taken.{IsBlocked}
use rustaxa.ThreadPool.Priority.{
  PriorityQueue, queue_at, new_priority_queue, new_queues, push_back, take_packet,
  update_dependencies_finish, set_queue, share_of_workers, reserved_threads_num, can_borrow_thread,
  pass, pop, is_empty, update_dependencies_start, unblock_packet,
}
use rustaxa.ThreadPool.Priority.Found.{Popped, pop-Popped}
use rustaxa.ThreadPool.Priority.Workers.{IsCounted, push, take, Reach, start, next}
use rustaxa.ThreadPool.Blocking.Hard.{one}
use rustaxa.ThreadPool.Blocking.Update.{hard_conflict}
use rustaxa.ThreadPool.Priority.Exclusion.{is_packet_hard_blocked-conflicts}
use rustaxa.ThreadPool.Priority.Exclusive.{IsExclusive, Reach-IsExclusive}
use rustaxa.ThreadPool.Priority.Reach.{Reach-IsCounted, take_packet-waits}

program : Unit {0}
unfolding lookup contains put erase emplace packet_code get_packet_priority drop_id
    mark_packet_as_hard_blocked mark_packet_as_hard_unblocked mark_packet_as_peer_order_blocked
    mark_packet_as_peer_order_unblocked get_smallest_dag_level_being_processed
    set_dag_block_being_processed unset_dag_block_being_processed
    set_dag_block_level_being_processed unset_dag_block_level_being_processed is_packet_hard_blocked
    is_dag_block_packet_blocked_by_same_dag_block is_dag_block_packet_blocked_by_level
    is_packet_peer_order_blocked is_packet_type_blocked is_packet_blocked max_workers_count_reached
    queue_push_back take_unblocked queue_pop set_max_workers_count increment_act_workers_count
    decrement_act_workers_count queue_empty is_non_blocking_packet update_by_type
    update_blocking_dependencies queue_at set_queue share_of_workers new_queues new_priority_queue
    push_back reserved_threads_num can_borrow_thread pass pop is_empty update_dependencies_start
    unblock_packet update_dependencies_finish take_packet
program = tt

abbrev vote_of : ℕ → Item
vote_of n =
    (5, record { id = n; type = vote_packet; priority = high; from_node_id = 1; dag_block = none })

abbrev transactions_of : ℕ → Item
transactions_of n = (
  5,
  record { id = n; type = transaction_packet; priority = mid; from_node_id = 1; dag_block = none },
)

-- A request that is served for one node at a time.
abbrev sync_of : ℕ → Item
sync_of n = (
  5,
  record { id = n; type = get_dag_sync_packet; priority = low; from_node_id = 1; dag_block = none },
)

-- `n` packets are pushed.
abbrev push_all : List Item → PriorityQueue → PriorityQueue
push_all [] q = q
push_all (x ∷ xs) q = push_all xs (push_back x q)

-- Workers take `n` packets.
abbrev take_all : ℕ → PriorityQueue → Outcome PriorityQueue
take_all zero q = done q
take_all (suc n) q = do (q', _) ← take_packet true q; take_all n q'

abbrev eight_votes : List Item
eight_votes = map vote_of (1 ∷ 2 ∷ 3 ∷ 4 ∷ 5 ∷ 6 ∷ 7 ∷ 8 ∷ [])

abbrev workers_of : PriorityQueue → ℕ × ℕ × ℕ × ℕ
workers_of q = (
  q.act_total_workers_count, q.high_queue.act_workers_count, q.mid_queue.act_workers_count,
  q.low_queue.act_workers_count,
)

-- Of 10 workers 8 take votes, 4 of them borrowed, and no other vote can borrow one.
borrowed :
    (do q ← take_all 9 (push_all (vote_of 9 ∷ eight_votes) (new_queues 10)); done (workers_of q))
    ≡ done (8, 8, 0, 0)
unfolding program
borrowed = refl

-- Two transaction packets after that take the last two workers, with none kept for the third queue.
none_reserved :
    (do
      q ← take_all 8 (push_all eight_votes (new_queues 10))
      q' ← take_all 2 (push_all (transactions_of 10 ∷ transactions_of 11 ∷ []) q)
      done (workers_of q'))
    ≡ done (10, 8, 2, 0)
unfolding program
none_reserved = refl

-- Two requests: the second waits for the first.
abbrev two_requests : PriorityQueue
two_requests = push_back (sync_of 2) (push_back (sync_of 1) (new_queues 10))

abbrev one_served : PriorityQueue
one_served = record (new_queues 10) {
  low_queue = record {
    packets = sync_of 2 ∷ [];
    max_workers_count = 3;
    act_workers_count = 1;
    act_packets_count = 1;
  };
  blocked_packets_mask = record {
    hard_blocked_packet_types = (12, (1, tt) ∷ []) ∷ [];
    peer_order_blocked_packet_types = [];
    processing_dag_levels = [];
    processing_dag_blocks = [];
  };
  act_total_workers_count = 1;
}

first_served : take_packet true two_requests ≡ done (one_served, some (sync_of 1))
unfolding program
first_served = refl

second_waits : take_packet true one_served ≡ done (one_served, none)
unfolding program
second_waits = refl

new_done : new_priority_queue 10 ≡ done (new_queues 10)
unfolding program
new_done = refl

abbrev reach_served : Reach one_served ((sync_of 1).1 ∷ [])
reach_served =
    next
      (next (next (start 10 (omega arith) new_done) (push (sync_of 1) (new_queues 10) []))
        (push (sync_of 2) (push_back (sync_of 1) (new_queues 10)) []))
      (take true (sync_of 1) first_served)

Reach-IsCounted_example : IsCounted one_served ((sync_of 1).1 ∷ [])
Reach-IsCounted_example = Reach-IsCounted reach_served

take_packet-waits_example :
    All (IsBlocked true one_served.blocked_packets_mask) (queue_at low one_served).packets
unfolding program
take_packet-waits_example =
    take_packet-waits true low reach_served second_waits (omega arith) refl (omega arith)

pop-Popped_example :
    Popped true
      (push_back (vote_of 1) (new_queues 10))
      (record (new_queues 10) {
        high_queue = record {
          packets = [];
          max_workers_count = 4;
          act_workers_count = 0;
          act_packets_count = 0;
        };
      })
      (vote_of 1)
unfolding program
pop-Popped_example = pop-Popped true (push_back (vote_of 1) (new_queues 10)) refl

is_packet_hard_blocked-conflicts_example :
    is_packet_hard_blocked (sync_of 2).1 one_served.blocked_packets_mask ≡ true
unfolding program hard_conflict one
is_packet_hard_blocked-conflicts_example =
    is_packet_hard_blocked-conflicts (sync_of 2).1 reach_served

Reach-IsExclusive_example : IsExclusive ((sync_of 1).1 ∷ [])
Reach-IsExclusive_example = Reach-IsExclusive reach_served
