-- ===== src/ThreadPool/Priority/Queues.antt =====
-- How each call changes the queues and the counters.
use rustaxa.Common.{
  ℕ, ◌+◌, ◌-◌, ◌%◌, ◌<◌, ◌≡◌, refl, ap, ◌∙◌, inl, inr, Bool, true, false, arith, ltb, if◌then◌else◌,
  Bool-cases, u64,
}
use rustaxa.Common.Outcome.{done, Outcome-cases}
use rustaxa.ThreadPool.Packet.{PacketData, PacketPriority, high, mid, low}
use rustaxa.ThreadPool.Mask.{PacketsBlockingMask}
use rustaxa.ThreadPool.Blocking.{update_blocking_dependencies}
use rustaxa.ThreadPool.Queue.{
  Item, PacketsQueue, increment_act_workers_count, decrement_act_workers_count, queue_push_back,
}
use rustaxa.ThreadPool.Priority.{
  PriorityQueue, queue_at, set_queue, push_back, update_dependencies_start,
  update_dependencies_finish, unblock_packet,
}

unfoldable pub same : PacketPriority → PacketPriority → Bool
same high high = true
same mid mid = true
same low low = true
same _ _ = false

pub queue_at-set_queue :
    (p p' : PacketPriority) (k : PacketsQueue) (q : PriorityQueue)
    → queue_at p (set_queue p' k q) ≡ (if same p p' then k else queue_at p q)
unfolding queue_at set_queue same
queue_at-set_queue high high k q = refl
queue_at-set_queue high mid k q = refl
queue_at-set_queue high low k q = refl
queue_at-set_queue mid high k q = refl
queue_at-set_queue mid mid k q = refl
queue_at-set_queue mid low k q = refl
queue_at-set_queue low high k q = refl
queue_at-set_queue low mid k q = refl
queue_at-set_queue low low k q = refl

-- The counters of all workers.
abbrev pub SameTotals : PriorityQueue → PriorityQueue → Type 0
SameTotals q q' =
    (q'.act_total_workers_count ≡ q.act_total_workers_count)
    × (q'.max_total_workers_count ≡ q.max_total_workers_count)

pub set_queue-SameTotals :
    (p : PacketPriority) (k : PacketsQueue) (q : PriorityQueue) → SameTotals q (set_queue p k q)
unfolding set_queue
set_queue-SameTotals high k q = (refl, refl)
set_queue-SameTotals mid k q = (refl, refl)
set_queue-SameTotals low k q = (refl, refl)

pub queue_at-push_back :
    (x : Item) (p : PacketPriority) (q : PriorityQueue)
    → queue_at p (push_back x q)
      ≡ (if same p x.1.priority then queue_push_back x (queue_at x.1.priority q) else queue_at p q)
unfolding push_back
queue_at-push_back x p q =
    queue_at-set_queue p x.1.priority (queue_push_back x (queue_at x.1.priority q)) q

-- The mask does not matter to the queues.
queue_at-mask :
    (p : PacketPriority) (m : PacketsBlockingMask) (q : PriorityQueue)
    → queue_at p (record q { blocked_packets_mask = m }) ≡ queue_at p q
unfolding queue_at
queue_at-mask high m q = refl
queue_at-mask mid m q = refl
queue_at-mask low m q = refl

queue_at-total :
    (p : PacketPriority) (n : ℕ) (q : PriorityQueue)
    → queue_at p (record q { act_total_workers_count = n }) ≡ queue_at p q
unfolding queue_at
queue_at-total high n q = refl
queue_at-total mid n q = refl
queue_at-total low n q = refl

-- What a call of updateDependenciesStart that returns has done.
pub record Started (p : PacketData) (q q' : PriorityQueue) : Type 0 where
  pub free : q.act_total_workers_count < q.max_total_workers_count
  pub total : q'.act_total_workers_count ≡ (q.act_total_workers_count + 1) % u64
  pub most : q'.max_total_workers_count ≡ q.max_total_workers_count
  pub queues :
      (at : PacketPriority)
      → queue_at at q' ≡ (
          if same at p.priority
          then increment_act_workers_count (queue_at p.priority q)
          else queue_at at q)

-- What a call of updateDependenciesFinish that returns has done.
pub record Finished (p : PacketData) (q q' : PriorityQueue) : Type 0 where
  pub busy : 0 < q.act_total_workers_count
  pub total : q'.act_total_workers_count ≡ q.act_total_workers_count - 1
  pub most : q'.max_total_workers_count ≡ q.max_total_workers_count
  pub queues :
      (at : PacketPriority)
      → queue_at at q' ≡ (
          if same at p.priority
          then record (queue_at p.priority q) {
            act_workers_count = (queue_at p.priority q).act_workers_count - 1;
          }
          else queue_at at q)

pub update_dependencies_start-Started :
    (p : PacketData) (q : PriorityQueue) {q' : PriorityQueue}
    → update_dependencies_start p q ≡ done q'
    → Started p q q'
unfolding update_dependencies_start
update_dependencies_start-Started p q {q'} h =
    let k = increment_act_workers_count (queue_at p.priority q) in
    let n = (q.act_total_workers_count + 1) % u64 in
    let r : PriorityQueue = record q { act_total_workers_count = n } in
    let counted : PriorityQueue = set_queue p.priority k r in
    elim (Bool-cases (ltb q.act_total_workers_count q.max_total_workers_count)) [
      | inr f ↦ absurd (ground arith)
      | inl f ↦
          elim (Outcome-cases (update_blocking_dependencies false p counted.blocked_packets_mask)) [
            | inl g ↦ absurd (ground arith)
            | inr ((m, b), g) ↦
                let to : q' ≡ record counted { blocked_packets_mask = m } = ground arith in
                let t = set_queue-SameTotals p.priority k r in
                record {
                  free = ground arith;
                  total = ap (λ (x : PriorityQueue). x.act_total_workers_count) to ∙ t.0;
                  most = ap (λ (x : PriorityQueue). x.max_total_workers_count) to ∙ t.1;
                  queues = λ at.
                      ap (λ x. queue_at at x) to
                      ∙ (queue_at-mask at m counted
                          ∙ ground
                              (arith, queue_at-set_queue at p.priority k r, queue_at-total at n q));
                }
          ]
    ]

queue_at-counters :
    (p : PacketPriority) (m : PacketsBlockingMask) (q : PriorityQueue)
    → queue_at p (record q {
      blocked_packets_mask = m;
      act_total_workers_count = q.act_total_workers_count - 1;
    })
      ≡ queue_at p q
unfolding queue_at
queue_at-counters high m q = refl
queue_at-counters mid m q = refl
queue_at-counters low m q = refl

pub update_dependencies_finish-Finished :
    (p : PacketData) (q : PriorityQueue) {q' : PriorityQueue}
    → update_dependencies_finish p q ≡ done q'
    → Finished p q q'
unfolding update_dependencies_finish decrement_act_workers_count
update_dependencies_finish-Finished p q {q'} h =
    elim (Bool-cases (ltb 0 q.act_total_workers_count)) [
      | inr f ↦ absurd (ground arith)
      | inl f ↦ elim (Outcome-cases (unblock_packet p q.blocked_packets_mask)) [
        | inl g ↦ absurd (ground arith)
        | inr (m, g) ↦
            let counted : PriorityQueue = record q {
              blocked_packets_mask = m;
              act_total_workers_count = q.act_total_workers_count - 1;
            } in
            let old = queue_at p.priority counted in
            let k : PacketsQueue = record old { act_workers_count = old.act_workers_count - 1 } in
            elim (Bool-cases (ltb 0 old.act_workers_count)) [
              | inr l ↦ absurd (ground arith)
              | inl l ↦
                  let to : q' ≡ set_queue p.priority k counted = ground arith in
                  let t = set_queue-SameTotals p.priority k counted in
                  record {
                    busy = ground arith;
                    total = ap (λ (x : PriorityQueue). x.act_total_workers_count) to ∙ t.0;
                    most = ap (λ (x : PriorityQueue). x.max_total_workers_count) to ∙ t.1;
                    queues = λ at.
                        ap (λ x. queue_at at x) to
                        ∙ (queue_at-set_queue at p.priority k counted
                            ∙ ground (
                              arith,
                              queue_at-counters at m q,
                              queue_at-counters p.priority m q,
                            ));
                  }
            ]
      ]
    ]
