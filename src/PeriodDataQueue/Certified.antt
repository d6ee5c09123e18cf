-- ===== src/PeriodDataQueue/Certified.antt =====
-- PeriodDataQueue: push and pop, with the queue read as blocks with their cert votes.
use rustaxa.Common.{
  ℕ, ◌≡◌, refl, ap, ◌⊎◌, inl, inr, true, List, [], ◌∷◌, ◌++◌, arith, ltb, if◌then◌else◌, Bool-cases,
}
use rustaxa.Common.Outcome.{done, fault}
use rustaxa.Vote.{PbftVote}
use rustaxa.PeriodDataQueue.{PeriodData, PeriodDataQueue, push, pop, empty}

abbrev pub Certified : Type 0
Certified = PeriodData × List PbftVote × ℕ

-- The cert votes for a block are those that came with the next one, or the last ones.
abbrev pub certify : List PbftVote → List (PeriodData × ℕ) → List Certified
certify last [] = []
certify last (x ∷ []) = (x.0, last, x.1) ∷ []
certify last (x ∷ y ∷ xs) = (x.0, y.0.previous_block_cert_votes, x.1) ∷ certify last (y ∷ xs)

abbrev pub certified : PeriodDataQueue → List Certified
certified q = certify q.last_block_cert_votes q.queue

pub list_cases {ℓ} :
    {A : Type ℓ} (xs : List A) → (xs ≡ []) ⊎ ((x : A) × (ys : List A) × (xs ≡ x ∷ ys))
list_cases [] = inl refl
list_cases (x ∷ xs) = inr (x, xs, refl)

-- `pop` fails on an empty queue only, and else takes the first block with the cert votes for it and
-- leaves the others with theirs.
pub pop-certified :
    (q : PeriodDataQueue)
    → certified q
      ≡ (elim (pop q) as (λ _. List Certified) [ fault ↦ [] | done (x, q') ↦ x ∷ certified q' ])
unfolding pop
pop-certified q = elim (list_cases q.queue) [
  | inl e ↦ ground arith
  | inr (x, [], e) ↦ ground arith
  | inr (x, y ∷ ys, e) ↦ ground arith
]

certify-append :
    (votes : List PbftVote) (d : PeriodData) (node : ℕ) (xs : List (PeriodData × ℕ))
    → certify votes (xs ++ (d, node) ∷ [])
      ≡ certify d.previous_block_cert_votes xs ++ (d, votes, node) ∷ []
certify-append votes d node [] = refl
certify-append votes d node (x ∷ []) = refl
certify-append votes d node (x ∷ y ∷ xs) =
    ap (λ zs. (x.0, y.0.previous_block_cert_votes, x.1) ∷ zs) (certify-append votes d node (y ∷ xs))

-- A push that succeeds puts the block last, with the cert votes given for it; the block before it gets
-- the cert votes that came with the new one. A queue behind the chain is emptied first.
pub push-certified :
    (d : PeriodData) (node max_pbft_size : ℕ) (votes : List PbftVote) (q : PeriodDataQueue)
    → (push d node max_pbft_size votes q).1 ≡ true
    → certified (push d node max_pbft_size votes q).0
      ≡ (if ltb q.period max_pbft_size then [] else certify d.previous_block_cert_votes q.queue)
        ++ (d, votes, node) ∷ []
unfolding push empty
push-certified d node max_pbft_size votes q h = elim (Bool-cases (ltb q.period max_pbft_size)) [
  | inl e ↦ elim (list_cases q.queue) [ inl f ↦ ground arith | inr (x, xs, f) ↦ ground arith ]
  | inr e ↦ ground (arith, certify-append votes d node q.queue)
]
