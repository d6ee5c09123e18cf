-- ===== src/ThreadPool/Priority/Found.antt =====
-- PriorityQueue::pop: the packet that it returns, or why it returns none.
use rustaxa.Common.{
  ◌-◌, ◌<◌, ◌≡◌, refl, subst, ◌⊎◌, inl, inr, Bool, true, false, not, ◌&&◌, none, some, List, [],
  ◌∷◌, arith, leb, Bool-cases, All,
}
use rustaxa.Common.Outcome.{done, Outcome-cases}
use rustaxa.ThreadPool.Packet.{PacketPriority, high, mid, low}
use rustaxa.ThreadPool.Mask.{PacketsBlockingMask}
use rustaxa.ThreadPool.Queue.{Item, PacketsQueue, queue_pop, queue_empty, max_workers_count_reached}
use rustaxa.ThreadPool.Queue.Taken.{IsBlocked, Taken, nothing, taken, queue_pop-QueuePopped}
use rustaxa.ThreadPool.Priority.{
  PriorityQueue, queue_at, set_queue, Pass, found, not_found, pass, pop, priorities,
  can_borrow_thread,
}

-- Why an iteration gives no packet of a queue; `limit` tells whether a limit was met.
pub data PassedOver (e heed limit : Bool) (m : PacketsBlockingMask) (q : PacketsQueue)
    : Type 0 where
  no_packet : queue_empty q ≡ true → PassedOver e heed limit m q
  at_limit :
      heed ≡ true → max_workers_count_reached q ≡ true → limit ≡ true → PassedOver e heed limit m q
  all_blocked : All (IsBlocked e m) q.packets → PassedOver e heed limit m q

-- What an iteration over some queues that returns has done.
pub data Passed (e heed : Bool) (ps : List PacketPriority) (try : Bool) (q : PriorityQueue)
    (r : Pass) : Type 0 where
  hit :
      (p : PacketPriority) (x : Item) (rest : List Item)
      → r
        ≡ found
            (set_queue p
              (record (queue_at p q) {
                packets = rest;
                act_packets_count = (queue_at p q).act_packets_count - 1;
              })
              q)
            x
      → 0 < (queue_at p q).act_packets_count
      → Taken e q.blocked_packets_mask (queue_at p q).packets x rest
      → (heed && max_workers_count_reached (queue_at p q)) ≡ false
      → Passed e heed ps try q r
  miss :
      (limit : Bool)
      → r ≡ not_found limit
      → (try && not limit) ≡ false
      → All (λ p. PassedOver e heed limit q.blocked_packets_mask (queue_at p q)) ps
      → Passed e heed ps try q r

-- A queue in front that the iteration passes over.
Passed-cons :
    (e heed : Bool) (p : PacketPriority) (ps : List PacketPriority) (try try' : Bool)
    (q : PriorityQueue) (r : Pass)
    → (try && not try') ≡ false
    → ((limit : Bool)
        → (try' && not limit) ≡ false
        → PassedOver e heed limit q.blocked_packets_mask (queue_at p q))
    → Passed e heed ps try' q r
    → Passed e heed (p ∷ ps) try q r
Passed-cons e heed p ps try try' q r le over (hit p' x rest to n t free) = hit p' x rest to n t free
Passed-cons e heed p ps try try' q r le over (miss limit to up all) =
    miss limit to (ground arith) (over limit up, all)

pass-Passed :
    (e heed : Bool) (ps : List PacketPriority) (try : Bool) (q : PriorityQueue) {r : Pass}
    → pass e heed ps try q ≡ done r
    → Passed e heed ps try q r
unfolding pass
pass-Passed e heed [] try q h = miss try (ground arith) (ground arith) tt
pass-Passed e heed (p ∷ ps) try q {r} h =
    let queue = queue_at p q in
    elim (Bool-cases (queue_empty queue)) [
      | inl f ↦
          Passed-cons e heed p ps try try q r (ground arith) (λ limit up. no_packet f)
            (pass-Passed e heed ps try q (ground arith))
      | inr f ↦ elim (Bool-cases (heed && max_workers_count_reached queue)) [
        | inl g ↦
            Passed-cons e heed p ps try true q r (ground arith)
              (λ limit up. at_limit (ground arith) (ground arith) (ground arith))
              (pass-Passed e heed ps true q (ground arith))
        | inr g ↦ elim (Outcome-cases (queue_pop e q.blocked_packets_mask queue)) [
          | inl k ↦ absurd (ground arith)
          | inr ((queue', item), k) ↦
              elim (queue_pop-QueuePopped e q.blocked_packets_mask queue k) [
                | nothing i _ blocked ↦
                    Passed-cons e heed p ps try try q r (ground arith)
                      (λ limit up. all_blocked blocked) (pass-Passed e heed ps try q (ground arith))
                | taken x rest i to n t ↦ hit p x rest (ground arith) n t g
              ]
        ]
      ]
    ]

-- What a pop with a packet has done: it was the first one of its queue that is not blocked.
pub record Popped (e : Bool) (q q' : PriorityQueue) (x : Item) : Type 0 where
  pub at : PacketPriority
  pub rest : List Item
  pub next_eq :
      q'
      ≡ set_queue at
          (record (queue_at at q) {
            packets = rest;
            act_packets_count = (queue_at at q).act_packets_count - 1;
          })
          q
  pub first : Taken e q.blocked_packets_mask (queue_at at q).packets x rest
  pub counted : 0 < (queue_at at q).act_packets_count
  pub free_worker : q.act_total_workers_count < q.max_total_workers_count
  pub limit : ((max_workers_count_reached (queue_at at q) ≡ false) ⊎ (can_borrow_thread q ≡ true))

Passed-Popped :
    (e heed : Bool) (ps : List PacketPriority) (q : PriorityQueue) {q' : PriorityQueue} {x : Item}
    → Passed e heed ps false q (found q' x)
    → q.act_total_workers_count < q.max_total_workers_count
    → (heed ≡ true) ⊎ (can_borrow_thread q ≡ true)
    → Popped e q q' x
Passed-Popped e heed ps q {q'} {x} (miss _ to _ _) lt why = absurd (ground arith)
Passed-Popped e heed ps q {q'} {x} (hit p y rest to n t free) lt why =
    let eq : y ≡ x = ground arith in
    record {
      at = p;
      rest = rest;
      next_eq = ground arith;
      first = subst (λ z. Taken e q.blocked_packets_mask (queue_at p q).packets z rest) eq t;
      counted = n;
      free_worker = lt;
      limit = elim why [ inl h ↦ inl (ground arith) | inr h ↦ inr h ];
    }

-- The packet that `pop` returns is not blocked and is the first such packet of its queue, which
-- loses it and no other; at that moment there is a free worker, and the queue is below its own
-- limit unless a thread may be borrowed.
pub pop-Popped :
    (e : Bool) (q : PriorityQueue) {q' : PriorityQueue} {x : Item}
    → pop e q ≡ done (q', some x)
    → Popped e q q' x
unfolding pop
pop-Popped e q {q'} {x} h =
    elim (Bool-cases (leb q.max_total_workers_count q.act_total_workers_count)) [
      | inl f ↦ absurd (ground arith)
      | inr f ↦ elim (Outcome-cases (pass e true priorities false q)) [
        | inl g ↦ absurd (ground arith)
        | inr (found a y, g) ↦
            let r : pass e true priorities false q ≡ done (found q' x) = ground arith in
            Passed-Popped e true priorities q (pass-Passed e true priorities false q r)
              (ground arith) (inl refl)
        | inr (not_found false, g) ↦ absurd (ground arith)
        | inr (not_found true, g) ↦ elim (Bool-cases (can_borrow_thread q)) [
          | inr k ↦ absurd (ground arith)
          | inl k ↦ elim (Outcome-cases (pass e false priorities false q)) [
            | inl l ↦ absurd (ground arith)
            | inr (not_found _, l) ↦ absurd (ground arith)
            | inr (found a y, l) ↦
                let r : pass e false priorities false q ≡ done (found q' x) = ground arith in
                Passed-Popped e false priorities q (pass-Passed e false priorities false q r)
                  (ground arith) (inr k)
          ]
        ]
      ]
    ]

-- A queue counts no packet, or all its packets are blocked.
abbrev pub HasNoneFree : Bool → PacketsBlockingMask → PacketsQueue → Type 0
HasNoneFree e m q = (queue_empty q ≡ true) ⊎ All (IsBlocked e m) q.packets

PassedOver-HasNoneFree :
    (e heed limit : Bool) (m : PacketsBlockingMask) (q : PacketsQueue)
    → (heed && limit) ≡ false
    → PassedOver e heed limit m q
    → HasNoneFree e m q
PassedOver-HasNoneFree e heed limit m q h (no_packet f) = inl f
PassedOver-HasNoneFree e heed limit m q h (at_limit f _ g) = absurd (ground arith)
PassedOver-HasNoneFree e heed limit m q h (all_blocked f) = inr f

Passed-HasNoneFree :
    (e heed limit : Bool) (q : PriorityQueue)
    → (heed && limit) ≡ false
    → Passed e heed priorities false q (not_found limit)
    → (p : PacketPriority) → HasNoneFree e q.blocked_packets_mask (queue_at p q)
Passed-HasNoneFree e heed limit q h (hit _ _ _ to _ _ _) p = absurd (ground arith)
Passed-HasNoneFree e heed limit q h (miss limit' to _ all) p =
    let m = q.blocked_packets_mask in
    let eq : limit' ≡ limit = ground arith in
    let ok : (heed && limit') ≡ false = ground arith in
    elim p as (λ p. HasNoneFree e m (queue_at p q)) [
      | high ↦ PassedOver-HasNoneFree e heed limit' m (queue_at high q) ok all.0
      | mid ↦ PassedOver-HasNoneFree e heed limit' m (queue_at mid q) ok all.1.0
      | low ↦ PassedOver-HasNoneFree e heed limit' m (queue_at low q) ok all.1.1.0
    ]

-- No worker waits for nothing: if `pop` returns no packet although there is a free worker and a
-- thread may be borrowed, every queue counts no packet or has blocked packets only.
pub pop-HasNoneFree :
    (e : Bool) (q : PriorityQueue) {q' : PriorityQueue}
    → pop e q ≡ done (q', none)
    → q.act_total_workers_count < q.max_total_workers_count
    → can_borrow_thread q ≡ true
    → (p : PacketPriority) → HasNoneFree e q.blocked_packets_mask (queue_at p q)
unfolding pop
pop-HasNoneFree e q {q'} h lt borrow = elim (Outcome-cases (pass e true priorities false q)) [
  | inl g ↦ absurd (ground arith)
  | inr (found a y, g) ↦ absurd (ground arith)
  | inr (not_found false, g) ↦
      Passed-HasNoneFree e true false q refl (pass-Passed e true priorities false q g)
  | inr (not_found true, g) ↦ elim (Outcome-cases (pass e false priorities false q)) [
    | inl l ↦ absurd (ground arith)
    | inr (found a y, l) ↦ absurd (ground arith)
    | inr (not_found limit, l) ↦
        Passed-HasNoneFree e false limit q refl (pass-Passed e false priorities false q l)
  ]
]

-- A pop without a packet changes nothing.
pub pop-none :
    (e : Bool) (q : PriorityQueue) {q' : PriorityQueue} → pop e q ≡ done (q', none) → q' ≡ q
unfolding pop
pop-none e q {q'} h = elim (Bool-cases (leb q.max_total_workers_count q.act_total_workers_count)) [
  | inl f ↦ ground arith
  | inr f ↦ elim (Outcome-cases (pass e true priorities false q)) [
    | inl g ↦ absurd (ground arith)
    | inr (found a y, g) ↦ absurd (ground arith)
    | inr (not_found false, g) ↦ ground arith
    | inr (not_found true, g) ↦ elim (Bool-cases (can_borrow_thread q)) [
      | inr k ↦ ground arith
      | inl k ↦ elim (Outcome-cases (pass e false priorities false q)) [
        | inl l ↦ absurd (ground arith)
        | inr (not_found _, l) ↦ ground arith
        | inr (found a y, l) ↦ absurd (ground arith)
      ]
    ]
  ]
]
