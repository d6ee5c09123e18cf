-- ===== src/ThreadPool/Priority/Exclusion.antt =====
-- PacketsBlockingMask::isPacketHardBlocked, over the packets that are processed at the time.
use rustaxa.Common.{
  ℕ, ◌+◌, ◌-◌, ◌≤◌, ◌<◌, ◌≡◌, sym, ap, subst, ◌∙◌, inl, inr, Bool, List, [], ◌∷◌, ◌++◌, arith, ltb,
  ◌==◌, if◌then◌else◌, Bool-cases, total,
}
use rustaxa.Common.Outcome.{done}
use rustaxa.Common.Map.{Map, lookup, contains}
use rustaxa.ThreadPool.Packet.{PacketData, packet_code}
use rustaxa.ThreadPool.Mask.{is_packet_hard_blocked, IdSet}
use rustaxa.ThreadPool.Mask.Sets.{in_set, IsProper, contains-in_set, some_id}
use rustaxa.ThreadPool.Queue.{Item, PacketsQueue, queue_push_back}
use rustaxa.ThreadPool.Blocking.Hard.{Adds, Drops, hard_of}
use rustaxa.ThreadPool.Blocking.Update.{hard_conflict}
use rustaxa.ThreadPool.Priority.{PriorityQueue, queue_at, push_back, new_priority_queue, new_queues}
use rustaxa.ThreadPool.Priority.Found.{Popped, pop-Popped, pop-none}
use rustaxa.ThreadPool.Priority.Workers.{Step, push, take, wait, finish, Reach, start, next}
use rustaxa.ThreadPool.Priority.Reach.{take_packet-some, take_packet-none}
use rustaxa.ThreadPool.Priority.Blocked.{mask_of, set_queue-mask, start-Adds, finish-Drops}

-- How many of the packets that are processed exclude packets of a type, and those with one id.
abbrev pub conflicts : List PacketData → ℕ → ℕ
conflicts ws code = total (λ a. hard_conflict a.type code) ws

abbrev pub conflict_by : ℕ → ℕ → PacketData → ℕ
conflict_by code i a = if a.id == i then hard_conflict a.type code else 0

abbrev pub conflicts_by : List PacketData → ℕ → ℕ → ℕ
conflicts_by ws code i = total (conflict_by code i) ws

pub record IsBlocking (q : PriorityQueue) (ws : List PacketData) : Type 0 where
  pub ids : (code i : ℕ) → in_set (hard_of (mask_of q)) code i ≡ conflicts_by ws code i
  pub proper : IsProper (hard_of (mask_of q))

pub total-middle {ℓ} :
    {A : Type ℓ} (f : A → ℕ) (front : List A) (a : A) (back : List A)
    → total f (front ++ a ∷ back) ≡ total f (front ++ back) + f a
total-middle f [] a back = omega arith
total-middle f (b ∷ front) a back = omega (arith, total-middle f front a back)

push-IsBlocking :
    (x : Item) (q : PriorityQueue) (ws : List PacketData)
    → IsBlocking q ws
    → IsBlocking (push_back x q) ws
unfolding push_back
push-IsBlocking x q ws i =
    let e = set_queue-mask x.1.priority (queue_push_back x (queue_at x.1.priority q)) q in
    record { ids = rw e i.ids; proper = rw e i.proper }

take-IsBlocking :
    (e : Bool) (x : Item) (q p q' : PriorityQueue) (ws : List PacketData)
    → Popped e q p x
    → Adds (hard_conflict x.1.type) x.1.id (mask_of p) (mask_of q')
    → IsBlocking q ws
    → IsBlocking q' (x.1 ∷ ws)
take-IsBlocking e x q p q' ws h a i =
    let k : PacketsQueue = record (queue_at h.at q) {
      packets = h.rest;
      act_packets_count = (queue_at h.at q).act_packets_count - 1;
    } in
    let eq : mask_of p ≡ mask_of q = ap (λ z. mask_of z) h.next_eq ∙ set_queue-mask h.at k q in
    record {
      ids = λ code id. ground (arith, a.more code id, i.ids code id);
      proper = a.proper (rw eq i.proper);
    }

finish-IsBlocking :
    (p : PacketData) (q q' : PriorityQueue) (front back : List PacketData)
    → Drops (hard_conflict p.type) p.id (mask_of q) (mask_of q')
    → IsBlocking q (front ++ p ∷ back)
    → IsBlocking q' (front ++ back)
finish-IsBlocking p q q' front back d i = record {
  ids = λ code id.
      ground
        (arith, d.more code id, i.ids code id, total-middle (conflict_by code id) front p back);
  proper = d.proper i.proper;
}

start-IsBlocking : (n : ℕ) {q : PriorityQueue} → new_priority_queue n ≡ done q → IsBlocking q []
unfolding new_priority_queue new_queues in_set lookup contains
start-IsBlocking n {q} h =
    let e : hard_of (mask_of q) ≡ [] = ground arith in
    record {
      ids = λ code i. ground arith;
      proper = record {
        filled = λ key s f. absurd (ground arith);
        sorted = λ key s f. absurd (ground arith);
      };
    }

Step-IsBlocking :
    {q q' : PriorityQueue} {ws ws' : List PacketData}
    → Step q ws q' ws'
    → IsBlocking q ws
    → IsBlocking q' ws'
Step-IsBlocking (push x q ws) i = push-IsBlocking x q ws i
Step-IsBlocking (take e x {q} {q'} {ws} h) i =
    let (p, f, g) = take_packet-some e x q h in
    take-IsBlocking e x q p q' ws (pop-Popped e q f) (start-Adds x.1 p g) i
Step-IsBlocking (wait e {q} {q'} {ws} h) i =
    subst (λ z. IsBlocking z ws) (sym (pop-none e q (take_packet-none e q h))) i
Step-IsBlocking (finish p front back {q} {q'} h) i =
    finish-IsBlocking p q q' front back (finish-Drops p q h) i

pub Reach-IsBlocking : {q : PriorityQueue} {ws : List PacketData} → Reach q ws → IsBlocking q ws
Reach-IsBlocking (start n _ e) = start-IsBlocking n e
Reach-IsBlocking (next r s) = Step-IsBlocking s (Reach-IsBlocking r)

conflicts_by_le : (ws : List PacketData) (code i : ℕ) → conflicts_by ws code i ≤ conflicts ws code
conflicts_by_le [] code i = omega arith
conflicts_by_le (a ∷ ws) code i = ground (arith, conflicts_by_le ws code i)

-- Where there is a conflict, some packet has it.
some_conflict :
    (ws : List PacketData) (code : ℕ)
    → 0 < conflicts ws code
    → (i : ℕ) × (0 < conflicts_by ws code i)
some_conflict [] code h = absurd (omega arith)
some_conflict (a ∷ ws) code h = elim (Bool-cases (ltb 0 (hard_conflict a.type code))) [
  | inl e ↦ (a.id, ground arith)
  | inr e ↦ let (i, more) = some_conflict ws code (ground arith) in (i, ground arith)
]

in_set_le : (m : Map IdSet) (key i : ℕ) → in_set m key i ≤ 1
unfolding in_set
in_set_le m key i = ground arith

-- In every state that the calls of the pool lead to, a packet is hard blocked exactly if some of the
-- packets that are processed at the time exclude its type.
pub is_packet_hard_blocked-conflicts :
    {q : PriorityQueue} {ws : List PacketData} (p : PacketData)
    → Reach q ws
    → is_packet_hard_blocked p q.blocked_packets_mask
      ≡ ltb 0 (total (λ a. hard_conflict a.type (packet_code p.type)) ws)
unfolding is_packet_hard_blocked
is_packet_hard_blocked-conflicts {q} {ws} p r =
    let b = Reach-IsBlocking r in
    let code = packet_code p.type in
    elim (Bool-cases (contains code (hard_of (mask_of q)))) [
      | inl e ↦
          let (i, there) = some_id code (hard_of (mask_of q)) b.proper e in
          ground (arith, b.ids code i, conflicts_by_le ws code i)
      | inr e ↦ elim (Bool-cases (ltb 0 (conflicts ws code))) [
        | inr f ↦ ground arith
        | inl f ↦
            let (i, more) = some_conflict ws code (ground arith) in
            let one_there : in_set (hard_of (mask_of q)) code i ≡ 1 =
              omega (arith, b.ids code i, more, in_set_le (hard_of (mask_of q)) code i) in
            absurd (ground (arith, contains-in_set code i (hard_of (mask_of q)) one_there))
      ]
    ]
