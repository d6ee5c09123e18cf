-- ===== src/ThreadPool/Priority/Reach.antt =====
-- The states of the priority queue that the calls of the pool lead to.
use rustaxa.ThreadPool.Mask.{PacketsBlockingMask}
use rustaxa.Common.{
  ℕ, ◌+◌, ◌%◌, ◌^◌, ◌≤◌, ◌<◌, ◌≡◌, sym, ap, subst, ◌∙◌, inl, inr, Bool, true, none, some, List, [],
  ◌∷◌, arith, ltb, leb, Bool-cases, u64, length, All,
}
use rustaxa.Common.Outcome.{done, Outcome-cases}
use rustaxa.ThreadPool.Packet.{PacketData, PacketPriority}
use rustaxa.ThreadPool.Queue.{Item, PacketsQueue, queue_empty, set_max_workers_count}
use rustaxa.ThreadPool.Queue.Taken.{IsBlocked}
use rustaxa.ThreadPool.Priority.{
  new_queues, PriorityQueue, queue_at, new_priority_queue, take_packet, pop,
  update_dependencies_start, share_of_workers, can_borrow_thread,
}
use rustaxa.ThreadPool.Priority.Found.{pop-Popped, pop-none, HasNoneFree, pop-HasNoneFree}
use rustaxa.ThreadPool.Priority.Queues.{
  update_dependencies_start-Started, update_dependencies_finish-Finished,
}
use rustaxa.ThreadPool.Priority.Workers.{
  count, IsCounted, Step, push, take, wait, finish, Reach, start, next, push-IsCounted,
  Popped-IsCounted, Started-IsCounted, Finished-IsCounted,
}

-- The constructor.

new_priority_queue-IsCounted :
    (n : ℕ) {q : PriorityQueue} → n < u64 → new_priority_queue n ≡ done q → IsCounted q []
unfolding new_priority_queue new_queues set_max_workers_count queue_at count
new_priority_queue-IsCounted n {q} h e = elim (Bool-cases (leb 3 n)) [
  | inr f ↦ absurd (ground arith)
  | inl f ↦ elim (Bool-cases (ltb (share_of_workers 4 n + share_of_workers 4 n) n)) [
    | inr g ↦ absurd (ground arith)
    | inl g ↦ record {
      total = ground arith;
      most = ground arith;
      word = ground arith;
      workers = λ p. ground arith;
      packets = λ p. ground arith;
    }
  ]
]

-- A worker that finds a packet has popped it and started it.
pub take_packet-some :
    (e : Bool) (x : Item) (q : PriorityQueue) {q' : PriorityQueue}
    → take_packet e q ≡ done (q', some x)
    → (p : PriorityQueue) × (pop e q ≡ done (p, some x))
      × (update_dependencies_start x.1 p ≡ done q')
unfolding take_packet
take_packet-some e x q {q'} h = elim (Outcome-cases (pop e q)) [
  | inl f ↦ absurd (ground arith)
  | inr ((p, none), f) ↦ absurd (ground arith)
  | inr ((p, some y), f) ↦ elim (Outcome-cases (update_dependencies_start y.1 p)) [
    | inl g ↦ absurd (ground arith)
    | inr (r, g) ↦
        let eq : y ≡ x = ground arith in
        let to : r ≡ q' = ground arith in
        (
          p,
          f ∙ ap (λ z. done (p, some z)) eq,
          subst (λ z. update_dependencies_start z.1 p ≡ done q') eq (g ∙ ap (λ z. done z) to),
        )
  ]
]

pub take_packet-none :
    (e : Bool) (q : PriorityQueue) {q' : PriorityQueue}
    → take_packet e q ≡ done (q', none)
    → pop e q ≡ done (q', none)
unfolding take_packet
take_packet-none e q {q'} h = elim (Outcome-cases (pop e q)) [
  | inl f ↦ absurd (ground arith)
  | inr ((p, none), f) ↦ ground arith
  | inr ((p, some y), f) ↦ elim (Outcome-cases (update_dependencies_start y.1 p)) [
    | inl g ↦ absurd (ground arith)
    | inr (r, g) ↦ absurd (ground arith)
  ]
]

Step-IsCounted :
    {q q' : PriorityQueue} {ws ws' : List PacketData}
    → Step q ws q' ws'
    → IsCounted q ws
    → IsCounted q' ws'
Step-IsCounted (push x q ws) i = push-IsCounted x q ws i
Step-IsCounted (take e x {q} {q'} {ws} h) i =
    let (p, f, g) = take_packet-some e x q h in
    Started-IsCounted x.1 p q' ws (update_dependencies_start-Started x.1 p g)
      (Popped-IsCounted e x q p ws (pop-Popped e q f) i)
Step-IsCounted (wait e {q} {q'} {ws} h) i =
    subst (λ z. IsCounted z ws) (sym (pop-none e q (take_packet-none e q h))) i
Step-IsCounted (finish p front back {q} {q'} h) i =
    Finished-IsCounted p q q' front back (update_dependencies_finish-Finished p q h) i

-- In every state that the calls of the pool lead to, the number of workers in all and in each queue
-- is that of the packets that are processed, it is within the limit of the pool, and each queue
-- counts its packets, modulo 2^64.
pub Reach-IsCounted : {q : PriorityQueue} {ws : List PacketData} → Reach q ws → IsCounted q ws
Reach-IsCounted (start n h e) = new_priority_queue-IsCounted n h e
Reach-IsCounted (next r s) = Step-IsCounted s (Reach-IsCounted r)

-- For 3 up to 2^31 - 1 workers the constructor does not fail: each queue may use a worker, and the
-- limits of the first two leave one for the third.
pub new_priority_queue-limits :
    (n : ℕ)
    → 3 ≤ n
    → n < 2 ^ 31
    → (q : PriorityQueue) × (new_priority_queue n ≡ done q)
      × (1 ≤ q.high_queue.max_workers_count)
      × (1 ≤ q.mid_queue.max_workers_count)
      × (1 ≤ q.low_queue.max_workers_count)
      × (q.high_queue.max_workers_count + q.mid_queue.max_workers_count < n)
unfolding new_priority_queue new_queues share_of_workers set_max_workers_count
new_priority_queue-limits n h k =
    (new_queues n, ground arith, ground arith, ground arith, ground arith, ground arith)

no_items {ℓ κ} : {A : Type ℓ} (P : A → Type κ) (xs : List A) → length xs ≡ 0 → All P xs
no_items P [] h = tt
no_items P (x ∷ xs) h = absurd (omega arith)

HasNoneFree-All :
    (e : Bool) (m : PacketsBlockingMask) (q : PacketsQueue)
    → q.act_packets_count ≡ length q.packets % u64
    → length q.packets < u64
    → HasNoneFree e m q
    → All (IsBlocked e m) q.packets
unfolding queue_empty
HasNoneFree-All e m q c small (inr all) = all
HasNoneFree-All e m q c small (inl none_there) =
    let zero_length : length q.packets ≡ 0 = ground arith in
    no_items (IsBlocked e m) q.packets zero_length

-- In a state that the calls of the pool lead to, a worker that gets no packet, although a worker is
-- free and a thread may be borrowed, leaves only blocked packets in every queue of fewer than 2^64.
pub take_packet-waits :
    (e : Bool) {q q' : PriorityQueue} {ws : List PacketData} (p : PacketPriority)
    → Reach q ws
    → take_packet e q ≡ done (q', none)
    → length ws < q.max_total_workers_count
    → can_borrow_thread q ≡ true
    → length (queue_at p q).packets < u64
    → All (IsBlocked e q.blocked_packets_mask) (queue_at p q).packets
take_packet-waits e {q} p r h free borrow small =
    let i = Reach-IsCounted r in
    HasNoneFree-All e q.blocked_packets_mask (queue_at p q) (i.packets p) small
      (pop-HasNoneFree e q (take_packet-none e q h) (omega (arith, i.total)) borrow p)
