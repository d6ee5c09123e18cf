-- ===== src/ThreadPool/Priority/Workers.antt =====
-- The counters of the priority queue, in all states that its calls lead to.
use rustaxa.Common.{
  ℕ, suc, ◌+◌, ◌-◌, ◌%◌, ◌≤◌, ◌<◌, ◌≡◌, refl, ap, ◌∙◌, inl, inr, Bool, true, none, some, List, [],
  ◌∷◌, ◌++◌, arith, if◌then◌else◌, Bool-cases, u64, length, length-append,
}
use rustaxa.Common.Outcome.{done}
use rustaxa.ThreadPool.Packet.{PacketData, PacketPriority, high, mid, low}
use rustaxa.ThreadPool.Queue.{Item, PacketsQueue, queue_push_back, increment_act_workers_count}
use rustaxa.ThreadPool.Priority.{
  PriorityQueue, queue_at, new_priority_queue, push_back, take_packet, update_dependencies_finish,
}
use rustaxa.ThreadPool.Priority.Found.{Popped}
use rustaxa.ThreadPool.Priority.Queues.{
  same, queue_at-set_queue, set_queue-SameTotals, queue_at-push_back, Started, Finished,
}

-- The packets of a priority among those that are processed.
unfoldable pub count : PacketPriority → List PacketData → ℕ
unfolding same
count p [] = 0
count p (a ∷ ws) = (if same p a.priority then 1 else 0) + count p ws

-- The calls of the pool with the packets that workers have at the time: a new packet, a worker that
-- finds a packet or none, and a worker that is done with one of its packets.
pub data Step : PriorityQueue → List PacketData → PriorityQueue → List PacketData → Type 0 where
  push : (x : Item) (q : PriorityQueue) (ws : List PacketData) → Step q ws (push_back x q) ws
  take :
      (e : Bool) (x : Item) {q q' : PriorityQueue} {ws : List PacketData}
      → take_packet e q ≡ done (q', some x)
      → Step q ws q' (x.1 ∷ ws)
  wait :
      (e : Bool) {q q' : PriorityQueue} {ws : List PacketData}
      → take_packet e q ≡ done (q', none)
      → Step q ws q' ws
  finish :
      (p : PacketData) (front back : List PacketData) {q q' : PriorityQueue}
      → update_dependencies_finish p q ≡ done q'
      → Step q (front ++ p ∷ back) q' (front ++ back)

pub data Reach : PriorityQueue → List PacketData → Type 0 where
  start : (n : ℕ) {q : PriorityQueue} → n < u64 → new_priority_queue n ≡ done q → Reach q []
  next :
      {q q' : PriorityQueue} {ws ws' : List PacketData}
      → Reach q ws
      → Step q ws q' ws'
      → Reach q' ws'

pub record IsCounted (q : PriorityQueue) (ws : List PacketData) : Type 0 where
  pub total : q.act_total_workers_count ≡ length ws
  pub most : q.act_total_workers_count ≤ q.max_total_workers_count
  pub word : q.max_total_workers_count < u64
  pub workers : (p : PacketPriority) → (queue_at p q).act_workers_count ≡ count p ws
  pub packets :
      (p : PacketPriority) → (queue_at p q).act_packets_count ≡ length (queue_at p q).packets % u64

pub count_le-length : (p : PacketPriority) (ws : List PacketData) → count p ws ≤ length ws
unfolding count
count_le-length p [] = omega arith
count_le-length p (a ∷ ws) = ground (arith, count_le-length p ws)

count-append :
    (p : PacketPriority) (ws bs : List PacketData) → count p (ws ++ bs) ≡ count p ws + count p bs
unfolding count
count-append p [] bs = omega arith
count-append p (a ∷ ws) bs = omega (arith, count-append p ws bs)

same_refl : (p : PacketPriority) → same p p ≡ true
unfolding same
same_refl high = refl
same_refl mid = refl
same_refl low = refl

same-eq : (p p' : PacketPriority) → same p p' ≡ true → p ≡ p'
unfolding same
same-eq p p' h = ground arith

pub push-IsCounted :
    (x : Item) (q : PriorityQueue) (ws : List PacketData)
    → IsCounted q ws
    → IsCounted (push_back x q) ws
unfolding push_back queue_push_back
push-IsCounted x q ws i =
    let at = x.1.priority in
    let t = set_queue-SameTotals at (queue_push_back x (queue_at at q)) q in
    record {
      total = t.0 ∙ i.total;
      most = omega (arith, t.0, t.1, i.most);
      word = omega (arith, t.1, i.word);
      workers = λ p. elim (Bool-cases (same p at)) [
        | inl e ↦ ground (arith, queue_at-push_back x p q, i.workers at, same-eq p at e)
        | inr e ↦ ground (arith, queue_at-push_back x p q, i.workers p)
      ];
      packets = λ p. elim (Bool-cases (same p at)) [
        | inl e ↦ ground (
          arith,
          queue_at-push_back x p q,
          i.packets at,
          length-append (queue_at at q).packets (x ∷ []),
        )
        | inr e ↦ ground (arith, queue_at-push_back x p q, i.packets p)
      ];
    }

-- A pop moves no worker.
pub Popped-IsCounted :
    (e : Bool) (x : Item) (q q' : PriorityQueue) (ws : List PacketData)
    → Popped e q q' x
    → IsCounted q ws
    → IsCounted q' ws
Popped-IsCounted e x q q' ws h i =
    let at = h.at in
    let k : PacketsQueue = record (queue_at at q) {
      packets = h.rest;
      act_packets_count = (queue_at at q).act_packets_count - 1;
    } in
    let t = set_queue-SameTotals at k q in
    let f = h.first in
    let fewer : length (queue_at at q).packets ≡ suc (length h.rest) =
      ap (λ xs. length xs) f.all_eq
      ∙ (length-append f.front (x ∷ f.back)
          ∙ (omega (arith, length-append f.front f.back, ap (λ xs. length xs) f.rest_eq))) in
    rw (h.next_eq) (record {
      total = t.0 ∙ i.total;
      most = omega (arith, t.0, t.1, i.most);
      word = omega (arith, t.1, i.word);
      workers = λ p. elim (Bool-cases (same p at)) [
        | inl s ↦ ground (arith, queue_at-set_queue p at k q, i.workers at, same-eq p at s)
        | inr s ↦ ground (arith, queue_at-set_queue p at k q, i.workers p)
      ];
      packets = λ p. elim (Bool-cases (same p at)) [
        | inl s ↦ ground (arith, queue_at-set_queue p at k q, i.packets at, h.counted)
        | inr s ↦ ground (arith, queue_at-set_queue p at k q, i.packets p)
      ];
    })

pub Started-IsCounted :
    (a : PacketData) (q q' : PriorityQueue) (ws : List PacketData)
    → Started a q q'
    → IsCounted q ws
    → IsCounted q' (a ∷ ws)
unfolding count increment_act_workers_count
Started-IsCounted a q q' ws h i = record {
  total = omega (arith, h.total, h.free, i.total, i.word);
  most = omega (arith, h.total, h.free, h.most, i.word);
  word = omega (arith, h.most, i.word);
  workers = λ p. elim (Bool-cases (same p a.priority)) [
    | inl s ↦ ground (
      arith,
      h.queues p,
      i.workers a.priority,
      same-eq p a.priority s,
      count_le-length a.priority ws,
      h.free,
      i.total,
      i.word,
    )
    | inr s ↦ ground (arith, h.queues p, i.workers p)
  ];
  packets = λ p. elim (Bool-cases (same p a.priority)) [
    | inl s ↦ ground (arith, h.queues p, i.packets a.priority, same-eq p a.priority s)
    | inr s ↦ ground (arith, h.queues p, i.packets p)
  ];
}

pub Finished-IsCounted :
    (a : PacketData) (q q' : PriorityQueue) (front back : List PacketData)
    → Finished a q q'
    → IsCounted q (front ++ a ∷ back)
    → IsCounted q' (front ++ back)
unfolding count
Finished-IsCounted a q q' front back h i =
    let n = length-append front (a ∷ back) in
    let n' = length-append front back in
    record {
      total = omega (arith, h.total, h.busy, i.total, n, n');
      most = omega (arith, h.total, h.most, i.most);
      word = omega (arith, h.most, i.word);
      workers = λ p. elim (Bool-cases (same p a.priority)) [
        | inl s ↦ ground (
          arith,
          h.queues p,
          i.workers a.priority,
          same-eq p a.priority s,
          same_refl a.priority,
          count-append a.priority front (a ∷ back),
          count-append a.priority front back,
        )
        | inr s ↦ ground (
          arith,
          h.queues p,
          i.workers p,
          count-append p front (a ∷ back),
          count-append p front back,
        )
      ];
      packets = λ p. elim (Bool-cases (same p a.priority)) [
        | inl s ↦ ground (arith, h.queues p, i.packets a.priority, same-eq p a.priority s)
        | inr s ↦ ground (arith, h.queues p, i.packets p)
      ];
    }
