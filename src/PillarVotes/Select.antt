-- ===== src/PillarVotes/Select.antt =====
-- PillarVotes::getVerifiedVotes above the threshold.
use mathlib.Core.List.{append-nil, Perm, perm_middle}
use mathlib.Core.List.Perm
use rustaxa.Common.{
  ℕ, ◌+◌, ◌%◌, ◌≤◌, ◌<◌, ◌≡◌, refl, sym, ap, subst, ◌∙◌, ◌⊎◌, inl, inr, true, some, List, [], ◌∷◌,
  ◌++◌, arith, ltb, leb, Bool-cases, u64, All,
}
use rustaxa.Common.Map.{Map, lookup}
use rustaxa.PillarVotes.{
  PillarVote, PeriodVotes, PillarVotes, WeightVotes, insert_by_weight, sort_by_weight,
  take_threshold, get_verified_votes,
}
use rustaxa.PillarVotes.Unique.{weigh, Reach, find_block}
use rustaxa.PillarVotes.Reach.{weight-Reach}

abbrev pub Weighted : Type 0
Weighted = PillarVote × ℕ

abbrev pub entries : Map Weighted → List Weighted
entries [] = []
entries ((_, x) ∷ m) = x ∷ entries m

abbrev pub weights : List Weighted → ℕ
weights [] = 0
weights (x ∷ xs) = x.1 + weights xs

abbrev pub firsts : List Weighted → List PillarVote
firsts [] = []
firsts (x ∷ xs) = x.0 ∷ firsts xs

abbrev IsAtMost : ℕ → Weighted → Type 0
IsAtMost hi x = x.1 ≤ hi

-- No entry is heavier than one in front of it.
abbrev IsFalling : List Weighted → Type 0
IsFalling [] = Unit
IsFalling (x ∷ xs) = All (IsAtMost x.1) xs × IsFalling xs

-- Votes for which a threshold is reached: `front` is handed out and `back` is not.
pub record Chosen (threshold : ℕ) (all : List Weighted) (result : List PillarVote) : Type 0 where
  pub front : List Weighted
  pub back : List Weighted
  pub perm : Perm all (front ++ back)
  pub handed : result ≡ firsts front
  pub heaviest : All (λ x. All (IsAtMost x.1) back) front
  pub enough : threshold ≤ weights front
  pub tight :
      (init : List Weighted) × (last : Weighted) × (front ≡ init ++ last ∷ [])
      × (weights init < threshold)

insert-Perm : (x : Weighted) (ys : List Weighted) → Perm (x ∷ ys) (insert_by_weight x ys)
unfolding insert_by_weight
insert-Perm x [] = Perm.refl (x ∷ [])
insert-Perm x (y ∷ ys) = elim (Bool-cases (ltb y.1 x.1)) [
  | inl e ↦ rw e (Perm.refl (x ∷ y ∷ ys))
  | inr e ↦ rw e (Perm.trans (Perm.swap y x ys) (Perm.cons y (insert-Perm x ys)))
]

sort-Perm :
    (m : Map Weighted) (sorted : List Weighted)
    → Perm (entries m ++ sorted) (sort_by_weight m sorted)
unfolding sort_by_weight
sort-Perm [] sorted = Perm.refl sorted
sort-Perm ((_, x) ∷ m) sorted = Perm.trans (Perm.symm (perm_middle (entries m) sorted)) (
    Perm.trans (Perm.append_left (entries m) (insert-Perm x sorted))
      (sort-Perm m (insert_by_weight x sorted)))

insert-All :
    (hi : ℕ) (x : Weighted) (ys : List Weighted)
    → x.1 ≤ hi
    → All (IsAtMost hi) ys
    → All (IsAtMost hi) (insert_by_weight x ys)
unfolding insert_by_weight
insert-All hi x [] h a = (h, tt)
insert-All hi x (y ∷ ys) h a = ground (arith, insert-All hi x ys)

All-weaken :
    (hi hi' : ℕ) (ys : List Weighted) → hi ≤ hi' → All (IsAtMost hi) ys → All (IsAtMost hi') ys
All-weaken hi hi' [] h a = tt
All-weaken hi hi' (y ∷ ys) h a = (omega (arith, a.0), All-weaken hi hi' ys h a.1)

insert-IsFalling :
    (x : Weighted) (ys : List Weighted) → IsFalling ys → IsFalling (insert_by_weight x ys)
unfolding insert_by_weight
insert-IsFalling x [] f = (tt, tt)
insert-IsFalling x (y ∷ ys) f = elim (Bool-cases (ltb y.1 x.1)) [
  | inl e ↦ rw e ((ground arith, All-weaken y.1 x.1 ys (ground arith) f.0), f)
  | inr e ↦ rw e (insert-All y.1 x ys (ground arith) f.0, insert-IsFalling x ys f.1)
]

sort-IsFalling :
    (m : Map Weighted) (sorted : List Weighted)
    → IsFalling sorted
    → IsFalling (sort_by_weight m sorted)
unfolding sort_by_weight
sort-IsFalling [] sorted f = f
sort-IsFalling ((_, x) ∷ m) sorted f =
    sort-IsFalling m (insert_by_weight x sorted) (insert-IsFalling x sorted f)

weights-insert :
    (x : Weighted) (ys : List Weighted) → weights (insert_by_weight x ys) ≡ x.1 + weights ys
unfolding insert_by_weight
weights-insert x [] = refl
weights-insert x (y ∷ ys) = ground (arith, weights-insert x ys)

weights-sort :
    (m : Map Weighted) (sorted : List Weighted)
    → weights (sort_by_weight m sorted) ≡ weigh m + weights sorted
unfolding sort_by_weight
weights-sort [] sorted = omega arith
weights-sort ((_, x) ∷ m) sorted =
    omega (arith, weights-sort m (insert_by_weight x sorted), weights-insert x sorted)

-- What the loop hands out, with `count` from before.
record Cut (threshold count : ℕ) (all : List Weighted) (result : List PillarVote) : Type 0 where
  front : List Weighted
  back : List Weighted
  split : all ≡ front ++ back
  handed : result ≡ firsts front
  enough : threshold ≤ count + weights front
  tight :
      (init : List Weighted) × (last : Weighted) × (front ≡ init ++ last ∷ [])
      × (count + weights init < threshold)

take_threshold-Cut :
    (threshold count : ℕ) (xs : List Weighted)
    → count < threshold
    → threshold ≤ count + weights xs
    → count + weights xs < u64
    → Cut threshold count xs (take_threshold threshold count xs)
unfolding take_threshold
take_threshold-Cut t c [] lt le small = absurd (omega arith)
take_threshold-Cut t c ((v, w) ∷ xs) lt le small = elim (Bool-cases (leb t ((c + w) % u64))) [
  | inl e ↦ rw e (record {
    front = (v, w) ∷ [];
    back = xs;
    split = refl;
    handed = refl;
    enough = ground arith;
    tight = ([], (v, w), refl, omega arith);
  })
  | inr e ↦
      let same : (c + w) % u64 ≡ c + w = omega arith in
      let rest = take_threshold-Cut t (c + w) xs (ground arith) (omega arith) (omega arith) in
      let (init, last, eq, under) = rest.tight in
      rw e (record {
        front = (v, w) ∷ rest.front;
        back = rest.back;
        split = ap (λ ys. (v, w) ∷ ys) rest.split;
        handed = ap (λ n. v ∷ take_threshold t n xs) same ∙ ap (λ ys. v ∷ ys) rest.handed;
        enough = omega (arith, rest.enough);
        tight = ((v, w) ∷ init, last, ap (λ ys. (v, w) ∷ ys) eq, omega (arith, under));
      })
]

All-append : (hi : ℕ) (xs ys : List Weighted) → All (IsAtMost hi) (xs ++ ys) → All (IsAtMost hi) ys
All-append hi [] ys a = a
All-append hi (x ∷ xs) ys a = All-append hi xs ys a.1

IsFalling-append :
    (front back : List Weighted)
    → IsFalling (front ++ back)
    → All (λ x. All (IsAtMost x.1) back) front
IsFalling-append [] back f = tt
IsFalling-append (x ∷ xs) back f = (All-append x.1 xs back f.0, IsFalling-append xs back f.1)

Cut-Chosen :
    (threshold : ℕ) (m : Map Weighted)
    → 0 < threshold
    → threshold ≤ weigh m
    → weigh m < u64
    → Chosen threshold (entries m) (take_threshold threshold 0 (sort_by_weight m []))
Cut-Chosen t m pos le small =
    let xs = sort_by_weight m [] in
    let sum : weights xs ≡ weigh m = omega (arith, weights-sort m []) in
    let cut : Cut t 0 xs (take_threshold t 0 xs) =
      take_threshold-Cut t 0 xs pos (omega arith) (omega arith) in
    record {
      front = cut.front;
      back = cut.back;
      perm =
          subst (λ ys. Perm (entries m) ys) cut.split
            (subst (λ ys. Perm ys xs) (append-nil (entries m)) (sort-Perm m []));
      handed = cut.handed;
      heaviest =
          IsFalling-append cut.front cut.back
            (subst (λ ys. IsFalling ys) cut.split (sort-IsFalling m [] tt));
      enough = omega (arith, cut.enough);
      tight = let (init, last, eq, under) = cut.tight in (init, last, eq, omega (arith, under));
    }

-- The votes for a pillar block in a state that calls lead to, with weights that fit in 64 bits and
-- a threshold above 0: below the threshold none is handed out; else, at the threshold too, those
-- handed out reach it, do not reach it without the last of them, and no vote left out is heavier than one of them.
pub get_verified_votes-Chosen :
    {s : PillarVotes} (period block : ℕ) (p : PeriodVotes) (b : WeightVotes)
    → Reach s
    → lookup period s ≡ some p
    → lookup block p.pillar_block_votes ≡ some b
    → weigh b.votes < u64
    → 0 < p.threshold
    → ((weigh b.votes < p.threshold) × (get_verified_votes period block true s ≡ []))
      ⊎ Chosen p.threshold (entries b.votes) (get_verified_votes period block true s)
unfolding get_verified_votes find_block
get_verified_votes-Chosen {s} period block p b r e f small pos =
    let sum : b.weight ≡ weigh b.votes =
      ground (arith, weight-Reach period block b r (ground arith)) in
    elim (Bool-cases (ltb b.weight p.threshold)) [
      | inl g ↦ inl (ground arith, ground arith)
      | inr g ↦
          let eq : get_verified_votes period block true s
              ≡ take_threshold p.threshold 0 (sort_by_weight b.votes []) =
            ground arith in
          inr (
            subst (λ vs. Chosen p.threshold (entries b.votes) vs) (sym eq)
              (Cut-Chosen p.threshold b.votes pos (ground arith) small))
    ]
