-- ===== src/GasPricer/Sorted.antt =====
-- GasPricer: the prices in ascending order, and the one at an index of them.
use rustaxa.Common.{
  ℕ, zero, suc, ◌+◌, ◌≤◌, ◌<◌, ◌≡◌, refl, subst, inl, inr, Bool, some, List, [], ◌∷◌, arith, ltb,
  leb, if◌then◌else◌, Bool-cases, length, All, get_elem?,
}
use rustaxa.Common.ListLaws.{All-map}
use rustaxa.GasPricer.{insert_price, sort_prices}

abbrev pub count_if : (ℕ → Bool) → List ℕ → ℕ
count_if f [] = 0
count_if f (x ∷ xs) = (if f x then 1 else 0) + count_if f xs

-- The element at an index of the list in ascending order, whatever the order of the list.
pub record IsAt (i x : ℕ) (xs : List ℕ) : Type 0 where
  pub below : count_if (λ y. ltb y x) xs ≤ i
  pub up_to : i < count_if (λ y. leb y x) xs

abbrev pub IsAscending : List ℕ → Type 0
IsAscending [] = Unit
IsAscending (x ∷ xs) = All (λ y. x ≤ y) xs × IsAscending xs

count_if-insert_price :
    (f : ℕ → Bool) (x : ℕ) (xs : List ℕ)
    → count_if f (insert_price x xs) ≡ (if f x then 1 else 0) + count_if f xs
unfolding insert_price
count_if-insert_price f x [] = refl
count_if-insert_price f x (y ∷ ys) = ground (arith, count_if-insert_price f x ys)

pub count_if-sort_prices :
    (f : ℕ → Bool) (xs : List ℕ) → count_if f (sort_prices xs) ≡ count_if f xs
unfolding sort_prices
count_if-sort_prices f [] = refl
count_if-sort_prices f (x ∷ xs) =
    omega (arith, count_if-insert_price f x (sort_prices xs), count_if-sort_prices f xs)

pub insert_price-All :
    (P : ℕ → Type 0) (x : ℕ) (xs : List ℕ) → P x → All P xs → All P (insert_price x xs)
unfolding insert_price
insert_price-All P x [] p all = (p, tt)
insert_price-All P x (y ∷ ys) p all = elim (Bool-cases (leb x y)) [
  | inl e ↦ rw e (p, all)
  | inr e ↦ rw e (all.0, insert_price-All P x ys p all.1)
]

insert_price-IsAscending : (x : ℕ) (xs : List ℕ) → IsAscending xs → IsAscending (insert_price x xs)
unfolding insert_price
insert_price-IsAscending x [] up = (tt, tt)
insert_price-IsAscending x (y ∷ ys) up = elim (Bool-cases (leb x y)) [
  | inl e ↦
      let le : x ≤ y = ground arith in
      rw e ((le, All-map (λ z. y ≤ z) (λ z. x ≤ z) ys (λ z h. omega arith) up.0), up)
  | inr e ↦
      let le : y ≤ x = ground arith in
      rw e (insert_price-All (λ z. y ≤ z) x ys le up.0, insert_price-IsAscending x ys up.1)
]

pub sort_prices-IsAscending : (xs : List ℕ) → IsAscending (sort_prices xs)
unfolding sort_prices
sort_prices-IsAscending [] = tt
sort_prices-IsAscending (x ∷ xs) =
    insert_price-IsAscending x (sort_prices xs) (sort_prices-IsAscending xs)

none_below : (x : ℕ) (xs : List ℕ) → All (λ y. x ≤ y) xs → count_if (λ y. ltb y x) xs ≡ 0
none_below x [] all = refl
none_below x (y ∷ ys) all = ground (arith, none_below x ys all.1)

pub get_elem?-All :
    (P : ℕ → Type 0) (xs : List ℕ) (i : ℕ) {x : ℕ} → All P xs → get_elem? xs i ≡ some x → P x
get_elem?-All P [] i all e = ground arith
get_elem?-All P (y ∷ ys) zero {x} all e = let same : y ≡ x = ground arith in subst P same all.0
get_elem?-All P (y ∷ ys) (suc i) all e = get_elem?-All P ys i all.1 e

pub get_elem?-IsAt :
    (xs : List ℕ) (i : ℕ) {x : ℕ} → IsAscending xs → get_elem? xs i ≡ some x → IsAt i x xs
get_elem?-IsAt [] i up e = ground arith
get_elem?-IsAt (y ∷ ys) zero {x} up e =
    let same : y ≡ x = ground arith in
    subst (λ z. IsAt 0 z (y ∷ ys)) same
      (record { below = ground (arith, none_below y ys up.0); up_to = ground arith })
get_elem?-IsAt (y ∷ ys) (suc i) {x} up e =
    let later = get_elem?-IsAt ys i up.1 e in
    let le : y ≤ x = get_elem?-All (λ z. y ≤ z) ys i up.0 e in
    record { below = ground (arith, later.below); up_to = ground (arith, later.up_to) }

length-insert_price : (x : ℕ) (xs : List ℕ) → length (insert_price x xs) ≡ suc (length xs)
unfolding insert_price
length-insert_price x [] = refl
length-insert_price x (y ∷ ys) = ground (arith, length-insert_price x ys)

pub length-sort_prices : (xs : List ℕ) → length (sort_prices xs) ≡ length xs
unfolding sort_prices
length-sort_prices [] = refl
length-sort_prices (x ∷ xs) =
    omega (arith, length-insert_price x (sort_prices xs), length-sort_prices xs)

pub get_elem?-some : (xs : List ℕ) (i : ℕ) → i < length xs → (x : ℕ) × (get_elem? xs i ≡ some x)
get_elem?-some [] i h = absurd (omega (arith, h))
get_elem?-some (x ∷ xs) zero h = (x, refl)
get_elem?-some (x ∷ xs) (suc i) h = get_elem?-some xs i (omega (arith, h))
