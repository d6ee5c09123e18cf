-- ===== src/PeriodDataQueue/Consecutive.antt =====
-- PeriodDataQueue: its calls as steps, and the order of the periods in it.
use rustaxa.Common.Lists.{is_nil}
use rustaxa.Common.{
  ℕ, ◌+◌, ◌%◌, ◌≤◌, ◌<◌, ◌≡◌, refl, sym, subst, ◌∙◌, ◌⊎◌, inl, inr, true, false, not, ◌&&◌, List,
  [], ◌∷◌, ◌++◌, arith, ltb, ◌==◌, Bool-cases, u64,
}
use rustaxa.Common.Outcome.{done}
use rustaxa.Vote.{PbftVote}
use rustaxa.PeriodDataQueue.{
  PeriodData, PeriodDataQueue, push, pop, empty, clear, next_period, clean_old_data, drop_old,
}
use rustaxa.PeriodDataQueue.Certified.{Certified, list_cases}

-- Each block is of the period after the one before it, and the last one of this period.
abbrev pub Run : ℕ → List (PeriodData × ℕ) → Type 0
Run last [] = Unit
Run last (x ∷ []) = x.0.pbft_blk.period ≡ last
Run last (x ∷ y ∷ xs) = (y.0.pbft_blk.period ≡ x.0.pbft_blk.period + 1) × Run last (y ∷ xs)

abbrev pub IsConsecutive : PeriodDataQueue → Type 0
IsConsecutive q = Run q.period q.queue

Run-append :
    (last : ℕ) (x : PeriodData × ℕ) (xs : List (PeriodData × ℕ))
    → x.0.pbft_blk.period ≡ last + 1
    → Run last xs
    → Run (last + 1) (xs ++ x ∷ [])
Run-append last x [] e r = e
Run-append last x (y ∷ []) e r = (ground arith, e)
Run-append last x (y ∷ z ∷ ys) e r = (r.0, Run-append last x (z ∷ ys) e r.1)

Run-drop_old :
    (last bound : ℕ) (xs : List (PeriodData × ℕ)) → Run last xs → Run last (drop_old bound xs)
unfolding drop_old
Run-drop_old last bound [] r = tt
Run-drop_old last bound (x ∷ []) r = elim (Bool-cases (ltb x.0.pbft_blk.period bound)) [
  | inl e ↦ rw e tt
  | inr e ↦ rw e r
]
Run-drop_old last bound (x ∷ y ∷ xs) r = elim (Bool-cases (ltb x.0.pbft_blk.period bound)) [
  | inl e ↦ rw e (Run-drop_old last bound (y ∷ xs) r.1)
  | inr e ↦ rw e r
]

-- The calls that write, where a block that is pushed into a queue with other blocks is of the next
-- period.
pub data Step : PeriodDataQueue → PeriodDataQueue → Type 0 where
  pushed :
      (d : PeriodData) (node max_pbft_size : ℕ) (votes : List PbftVote) {q : PeriodDataQueue}
      → (empty q ≡ true) ⊎ (d.pbft_blk.period ≡ next_period max_pbft_size q)
      → q.period + 1 < u64
      → Step q (push d node max_pbft_size votes q).0
  popped : {q q' : PeriodDataQueue} (x : Certified) → pop q ≡ done (x, q') → Step q q'
  cleaned : {q : PeriodDataQueue} (period : ℕ) → Step q (clean_old_data period q)
  cleared : {q : PeriodDataQueue} → Step q (clear q)

pub data Reach : PeriodDataQueue → Type 0 where
  start : (q : PeriodDataQueue) → Reach (clear q)
  next : {q q' : PeriodDataQueue} → Reach q → Step q q' → Reach q'

-- A push leaves the queue, or makes the block the only one, or appends it.
data PushedAs (d : PeriodData) (node : ℕ) (n : ℕ) (q q' : PeriodDataQueue) : Type 0 where
  refused : q' ≡ q → PushedAs d node n q q'
  alone : q'.queue ≡ (d, node) ∷ [] → q'.period ≡ d.pbft_blk.period → PushedAs d node n q q'
  appended :
      empty q ≡ false
      → n ≤ q.period
      → q'.queue ≡ q.queue ++ (d, node) ∷ []
      → q'.period ≡ d.pbft_blk.period
      → PushedAs d node n q q'

push-PushedAs :
    (d : PeriodData) (node n : ℕ) (votes : List PbftVote) (q : PeriodDataQueue)
    → PushedAs d node n q (push d node n votes q).0
unfolding push empty
push-PushedAs d node n votes q =
    let p = d.pbft_blk.period in
    elim (Bool-cases (not (p == next_period n q) && (is_nil q.queue && not (p == (n + 2) % u64)))) [
      | inl g ↦ refused (ground arith)
      | inr g ↦ elim (list_cases q.queue) [
        | inl f ↦ alone (ground arith) (ground arith)
        | inr (x, xs, f) ↦ elim (Bool-cases (ltb q.period n)) [
          | inl l ↦ alone (ground arith) (ground arith)
          | inr l ↦ appended (ground arith) (ground arith) (ground arith) (ground arith)
        ]
      ]
    ]

Run-of_eq :
    (q : PeriodDataQueue) (last : ℕ) (xs : List (PeriodData × ℕ))
    → q.period ≡ last
    → q.queue ≡ xs
    → Run last xs
    → IsConsecutive q
Run-of_eq q last xs e f r = rw (e, f) r

PushedAs-IsConsecutive :
    (d : PeriodData) (node n : ℕ) (q q' : PeriodDataQueue)
    → PushedAs d node n q q'
    → (empty q ≡ true) ⊎ (d.pbft_blk.period ≡ next_period n q)
    → q.period + 1 < u64
    → IsConsecutive q
    → IsConsecutive q'
unfolding next_period
PushedAs-IsConsecutive d node n q q' (refused e) h small r = subst (λ x. IsConsecutive x) (sym e) r
PushedAs-IsConsecutive d node n q q' (alone e f) h small r =
    Run-of_eq q' d.pbft_blk.period ((d, node) ∷ []) f e refl
PushedAs-IsConsecutive d node n q q' (appended some_there le e f) h small r =
    let up : d.pbft_blk.period ≡ q.period + 1 = ground arith in
    Run-of_eq q' (q.period + 1) (q.queue ++ (d, node) ∷ []) (f ∙ up) e
      (Run-append q.period (d, node) q.queue up r)

pop-IsConsecutive :
    (q q' : PeriodDataQueue) (x : Certified)
    → pop q ≡ done (x, q')
    → IsConsecutive q
    → IsConsecutive q'
unfolding pop
pop-IsConsecutive q q' x h r = elim (list_cases q.queue) [
  | inl e ↦ absurd (ground arith)
  | inr (y, [], e) ↦ Run-of_eq q' 0 [] (ground arith) (ground arith) tt
  | inr (y, z ∷ zs, e) ↦
      Run-of_eq q' q.period (z ∷ zs) (ground arith) (ground arith)
        (subst (λ ys. Run q.period ys) e r).1
]

Step-IsConsecutive : {q q' : PeriodDataQueue} → Step q q' → IsConsecutive q → IsConsecutive q'
unfolding clean_old_data clear
Step-IsConsecutive (pushed d node n votes {q} h small) r =
    PushedAs-IsConsecutive d node n q (push d node n votes q).0 (push-PushedAs d node n votes q) h
      small r
Step-IsConsecutive (popped {q} {q'} x h) r = pop-IsConsecutive q q' x h r
Step-IsConsecutive (cleaned {q} period) r = Run-drop_old q.period period q.queue r
Step-IsConsecutive (cleared {q}) r = tt

-- As long as a block that is pushed behind others is of the next period, and the period of the queue
-- has a successor in 64 bits at each push, the queue holds consecutive
-- periods and its period is that of the last block.
pub Reach-IsConsecutive : {q : PeriodDataQueue} → Reach q → IsConsecutive q
unfolding clear
Reach-IsConsecutive (start q) = tt
Reach-IsConsecutive (next r s) = Step-IsConsecutive s (Reach-IsConsecutive r)
