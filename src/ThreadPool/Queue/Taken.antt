-- ===== src/ThreadPool/Queue/Taken.antt =====
-- The search of a queue for a packet that is not blocked.
use rustaxa.Common.{
  ◌-◌, ◌<◌, ◌≡◌, sym, ap, subst, ◌∙◌, inl, inr, Bool, true, false, Option, none, some, List, [],
  ◌∷◌, ◌++◌, arith, ◌==◌, Bool-cases, All,
}
use rustaxa.Common.Outcome.{done, Outcome-cases}
use rustaxa.ThreadPool.Mask.{PacketsBlockingMask, is_packet_blocked}
use rustaxa.ThreadPool.Queue.{Item, PacketsQueue, take_unblocked, queue_pop}

abbrev pub IsBlocked : Bool → PacketsBlockingMask → Item → Type 0
IsBlocked e m x = is_packet_blocked e x.1 m ≡ done true

-- `x` is the first packet that is not blocked, and `rest` are the others.
pub record Taken (e : Bool) (m : PacketsBlockingMask) (all : List Item) (x : Item)
    (rest : List Item) : Type 0 where
  pub front : List Item
  pub back : List Item
  pub all_eq : all ≡ front ++ x ∷ back
  pub rest_eq : rest ≡ front ++ back
  pub blocked : All (IsBlocked e m) front
  pub free : is_packet_blocked e x.1 m ≡ done false

pub take_unblocked-Taken :
    (e : Bool) (m : PacketsBlockingMask) (xs : List Item) {x : Item} {rest : List Item}
    → take_unblocked e m xs ≡ done (some (x, rest))
    → Taken e m xs x rest
unfolding take_unblocked
take_unblocked-Taken e m [] h = absurd (ground arith)
take_unblocked-Taken e m (y ∷ ys) {x} {rest} h = elim (Outcome-cases (is_packet_blocked e y.1 m)) [
  | inl f ↦ absurd (ground arith)
  | inr (false, f) ↦
      let eq : y ≡ x = ground arith in
      let to : ys ≡ rest = ground arith in
      record {
        front = [];
        back = ys;
        all_eq = ap (λ z. z ∷ ys) eq;
        rest_eq = sym to;
        blocked = tt;
        free = subst (λ z. is_packet_blocked e z.1 m ≡ done false) eq f;
      }
  | inr (true, f) ↦ elim (Outcome-cases (take_unblocked e m ys)) [
    | inl g ↦ absurd (ground arith)
    | inr (none, g) ↦ absurd (ground arith)
    | inr (some (z, zs), g) ↦
        let eq : z ≡ x = ground arith in
        let to : y ∷ zs ≡ rest = ground arith in
        let t =
          take_unblocked-Taken e m ys {x = x} {rest = zs} (g ∙ ap (λ w. done (some (w, zs))) eq) in
        record {
          front = y ∷ t.front;
          back = t.back;
          all_eq = ap (λ ws. y ∷ ws) t.all_eq;
          rest_eq = sym to ∙ ap (λ ws. y ∷ ws) t.rest_eq;
          blocked = (f, t.blocked);
          free = t.free;
        }
  ]
]

pub take_unblocked-none :
    (e : Bool) (m : PacketsBlockingMask) (xs : List Item)
    → take_unblocked e m xs ≡ done none
    → All (IsBlocked e m) xs
unfolding take_unblocked
take_unblocked-none e m [] h = tt
take_unblocked-none e m (y ∷ ys) h = elim (Outcome-cases (is_packet_blocked e y.1 m)) [
  | inl f ↦ absurd (ground arith)
  | inr (false, f) ↦ absurd (ground arith)
  | inr (true, f) ↦ elim (Outcome-cases (take_unblocked e m ys)) [
    | inl g ↦ absurd (ground arith)
    | inr (none, g) ↦ (f, take_unblocked-none e m ys g)
    | inr (some _, g) ↦ absurd (ground arith)
  ]
]

-- What a pop of one queue that returns has done.
pub data QueuePopped (e : Bool) (m : PacketsBlockingMask) (q q' : PacketsQueue) (item : Option Item)
    : Type 0 where
  nothing : item ≡ none → q' ≡ q → All (IsBlocked e m) q.packets → QueuePopped e m q q' item
  taken :
      (x : Item) (rest : List Item)
      → item ≡ some x
      → q' ≡ record q { packets = rest; act_packets_count = q.act_packets_count - 1 }
      → 0 < q.act_packets_count
      → Taken e m q.packets x rest
      → QueuePopped e m q q' item

pub queue_pop-QueuePopped :
    (e : Bool) (m : PacketsBlockingMask) (q : PacketsQueue) {q' : PacketsQueue} {item : Option Item}
    → queue_pop e m q ≡ done (q', item)
    → QueuePopped e m q q' item
unfolding queue_pop
queue_pop-QueuePopped e m q {q'} {item} h = elim (Outcome-cases (take_unblocked e m q.packets)) [
  | inl f ↦ absurd (ground arith)
  | inr (none, f) ↦ nothing (ground arith) (ground arith) (take_unblocked-none e m q.packets f)
  | inr (some (x, rest), f) ↦ elim (Bool-cases (q.act_packets_count == 0)) [
    | inl g ↦ absurd (ground arith)
    | inr g ↦
        taken x rest (ground arith) (ground arith) (ground arith)
          (take_unblocked-Taken e m q.packets f)
  ]
]
