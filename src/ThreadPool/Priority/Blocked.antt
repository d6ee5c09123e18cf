-- ===== src/ThreadPool/Priority/Blocked.antt =====
-- What the start and the end of a packet do to the hard blocks of the queue.
use rustaxa.Common.{
  ℕ, ◌+◌, ◌-◌, ◌%◌, ◌≡◌, refl, sym, ap, subst, ◌∙◌, inl, inr, true, false, arith, ltb, Bool-cases,
  u64,
}
use rustaxa.Common.Outcome.{done, Outcome-cases}
use rustaxa.ThreadPool.Packet.{PacketData, PacketPriority, SubprotocolPacketType, high, mid, low}
use rustaxa.ThreadPool.Mask.{PacketsBlockingMask}
use rustaxa.ThreadPool.Queue.{
  PacketsQueue, increment_act_workers_count, decrement_act_workers_count,
}
use rustaxa.ThreadPool.Blocking.{is_non_blocking_packet, update_blocking_dependencies}
use rustaxa.ThreadPool.Blocking.Hard.{Adds, Drops, SameHard-Drops}
use rustaxa.ThreadPool.Blocking.Update.{hard_conflict, update-Adds, update-Drops}
use rustaxa.ThreadPool.Priority.{
  PriorityQueue, queue_at, set_queue, update_dependencies_start, update_dependencies_finish,
  unblock_packet,
}

abbrev pub mask_of : PriorityQueue → PacketsBlockingMask
mask_of q = q.blocked_packets_mask

pub set_queue-mask :
    (p : PacketPriority) (k : PacketsQueue) (q : PriorityQueue)
    → mask_of (set_queue p k q) ≡ mask_of q
unfolding set_queue
set_queue-mask high k q = refl
set_queue-mask mid k q = refl
set_queue-mask low k q = refl

pub start-Adds :
    (p : PacketData) (q : PriorityQueue) {q' : PriorityQueue}
    → update_dependencies_start p q ≡ done q'
    → Adds (hard_conflict p.type) p.id (mask_of q) (mask_of q')
unfolding update_dependencies_start update_blocking_dependencies
start-Adds p q {q'} h =
    let k = increment_act_workers_count (queue_at p.priority q) in
    let r : PriorityQueue = record q {
      act_total_workers_count = (q.act_total_workers_count + 1) % u64;
    } in
    let counted : PriorityQueue = set_queue p.priority k r in
    elim (Bool-cases (ltb q.act_total_workers_count q.max_total_workers_count)) [
      | inr f ↦ absurd (ground arith)
      | inl f ↦ elim (Outcome-cases (update_blocking_dependencies false p (mask_of counted))) [
        | inl g ↦ absurd (ground arith)
        | inr ((m, b), g) ↦
            let to : mask_of q' ≡ m = ground arith in
            let same_mask = set_queue-mask p.priority k r in
            subst (λ x. Adds (hard_conflict p.type) p.id x (mask_of q')) same_mask
              (update-Adds p.type p (mask_of counted) (g ∙ ap (λ x. done (x, b)) (sym to)))
      ]
    ]

-- The packets that block nothing exclude no type.
hard_conflict-non_blocking :
    (t : SubprotocolPacketType) (code : ℕ)
    → is_non_blocking_packet t ≡ true
    → hard_conflict t code ≡ 0
unfolding is_non_blocking_packet hard_conflict
hard_conflict-non_blocking t code h = ground arith

unblock_packet-Drops :
    (p : PacketData) (m : PacketsBlockingMask) {m' : PacketsBlockingMask}
    → unblock_packet p m ≡ done m'
    → Drops (hard_conflict p.type) p.id m m'
unfolding unblock_packet update_blocking_dependencies
unblock_packet-Drops p m {m'} h = elim (Bool-cases (is_non_blocking_packet p.type)) [
  | inl e ↦
      let s = SameHard-Drops p.id m m' (ground arith) in
      record {
        more = λ code i. ground (arith, s.more code i, hard_conflict-non_blocking p.type code e);
        proper = s.proper;
      }
  | inr e ↦ elim (Outcome-cases (update_blocking_dependencies true p m)) [
    | inl g ↦ absurd (ground arith)
    | inr ((x, b), g) ↦
        let to : x ≡ m' = ground arith in update-Drops p.type p m (g ∙ ap (λ y. done (y, b)) to)
  ]
]

pub finish-Drops :
    (p : PacketData) (q : PriorityQueue) {q' : PriorityQueue}
    → update_dependencies_finish p q ≡ done q'
    → Drops (hard_conflict p.type) p.id (mask_of q) (mask_of q')
unfolding update_dependencies_finish decrement_act_workers_count
finish-Drops p q {q'} h = elim (Bool-cases (ltb 0 q.act_total_workers_count)) [
  | inr f ↦ absurd (ground arith)
  | inl f ↦ elim (Outcome-cases (unblock_packet p (mask_of q))) [
    | inl g ↦ absurd (ground arith)
    | inr (m, g) ↦
        let counted : PriorityQueue = record q {
          blocked_packets_mask = m;
          act_total_workers_count = q.act_total_workers_count - 1;
        } in
        let old = queue_at p.priority counted in
        let k : PacketsQueue = record old { act_workers_count = old.act_workers_count - 1 } in
        elim (Bool-cases (ltb 0 old.act_workers_count)) [
          | inr l ↦ absurd (ground arith)
          | inl l ↦
              let to : q' ≡ set_queue p.priority k counted = ground arith in
              let same_mask : mask_of q' ≡ m =
                ap (λ x. mask_of x) to ∙ set_queue-mask p.priority k counted in
              unblock_packet-Drops p (mask_of q) (g ∙ ap (λ x. done x) (sym same_mask))
        ]
  ]
]
