-- ===== src/GasPricer/Percentile.antt =====
-- GasPricer: which of the collected prices is the percentile, and the prices that are kept.
use rustaxa.Common.{
  ℕ, zero, suc, ◌-◌, ◌*◌, ◌≤◌, ◌<◌, max, min, ◌≡◌, refl, sym, subst, inl, inr, true, List, [], ◌∷◌,
  ◌++◌, arith, ltb, leb, Bool-cases, length, All, length-append, drop,
}
use rustaxa.Common.Outcome.{done}
use rustaxa.Common.ListLaws.{All-append, All-map}
use rustaxa.Transaction.{Transaction}
use rustaxa.GasPricer.{
  GasPricer, bid, sort_prices, percentile_index, set_price, update, push_price, min_gas_price,
}
use rustaxa.GasPricer.Sorted.{
  IsAt, count_if-sort_prices, sort_prices-IsAscending, get_elem?-All, get_elem?-IsAt,
  length-sort_prices, get_elem?-some, insert_price-All,
}

mul_mono : (n p : ℕ) → p ≤ 100 → n * p ≤ n * 100
mul_mono zero p h = omega arith
mul_mono (suc n) p h = omega (arith, h, mul_mono n p h)

percentile_index_below : (p n : ℕ) → p ≤ 100 → 1 ≤ n → percentile_index p n < n
percentile_index_below p n h any = omega (arith, any, mul_mono (n - 1) p h)

abbrev IsPositive : ℕ → Type 0
IsPositive x = 1 ≤ x

sort_prices-All : (P : ℕ → Type 0) (xs : List ℕ) → All P xs → All P (sort_prices xs)
unfolding sort_prices
sort_prices-All P [] all = tt
sort_prices-All P (x ∷ xs) all =
    insert_price-All P x (sort_prices xs) all.0 (sort_prices-All P xs all.1)

-- Prices that fill the buffer at most, none of them 0, and a percentile.
pub record IsKept (s : GasPricer) : Type 0 where
  pub of_hundred : s.percentile ≤ 100
  pub room : 1 ≤ s.capacity
  pub fits : length s.price_list ≤ s.capacity
  pub positive : All IsPositive s.price_list

-- The prices after a new one.
pub record IsPushed (capacity x : ℕ) (xs ys : List ℕ) : Type 0 where
  pub fits : length ys ≤ capacity
  pub some_price : 1 ≤ length ys
  pub positive : All IsPositive ys

length-drop_one : (xs : List ℕ) → length (drop 1 xs) ≡ length xs - 1
length-drop_one [] = refl
length-drop_one (x ∷ xs) = omega arith

drop_one-All : (P : ℕ → Type 0) (xs : List ℕ) → All P xs → All P (drop 1 xs)
drop_one-All P [] all = tt
drop_one-All P (x ∷ xs) all = all.1

push_price-IsPushed :
    (capacity x : ℕ) (xs : List ℕ)
    → 1 ≤ capacity
    → length xs ≤ capacity
    → 1 ≤ x
    → All IsPositive xs
    → IsPushed capacity x xs (push_price capacity x xs)
unfolding push_price
push_price-IsPushed capacity x xs room fits new all = elim (Bool-cases (ltb (length xs) capacity)) [
  | inl e ↦
      let pushed : push_price capacity x xs ≡ xs ++ x ∷ [] = ground arith in
      subst (IsPushed capacity x xs) (sym pushed) (record {
        fits = ground (arith, length-append xs (x ∷ []));
        some_price = omega (arith, length-append xs (x ∷ []));
        positive = All-append IsPositive xs (x ∷ []) all (new, tt);
      })
  | inr e ↦
      let pushed : push_price capacity x xs ≡ drop 1 xs ++ x ∷ [] = ground arith in
      subst (IsPushed capacity x xs) (sym pushed) (record {
        fits = ground (arith, length-append (drop 1 xs) (x ∷ []), length-drop_one xs);
        some_price = omega (arith, length-append (drop 1 xs) (x ∷ []));
        positive =
            All-append IsPositive (drop 1 xs) (x ∷ []) (drop_one-All IsPositive xs all) (new, tt);
      })
]

-- The lowest price is not above that of any transaction.
min_gas_price-All :
    (t : Transaction) (trxs : List Transaction)
    → All (λ u. min_gas_price t trxs ≤ u.gas_price) (t ∷ trxs)
unfolding min_gas_price
min_gas_price-All t [] = (omega arith, tt)
min_gas_price-All t (u ∷ rest) = (
  omega arith,
  All-map (λ v. min_gas_price u rest ≤ v.gas_price)
      (λ v. min t.gas_price (min_gas_price u rest) ≤ v.gas_price) (u ∷ rest)
      (λ v h. omega (arith, h)) (min_gas_price-All u rest),
)

set_price-IsAt :
    (s : GasPricer)
    → s.percentile ≤ 100
    → 1 ≤ length s.price_list
    → All IsPositive s.price_list
    → (price : ℕ) × (set_price s ≡ done (record s { latest_price = price }))
      × IsAt (percentile_index s.percentile (length s.price_list)) price s.price_list
unfolding set_price
set_price-IsAt s h any all =
    let xs = s.price_list in
    let i = percentile_index s.percentile (length xs) in
    let small : i < length (sort_prices xs) =
      omega (arith, length-sort_prices xs, percentile_index_below s.percentile (length xs) h any) in
    let (price, at) = get_elem?-some (sort_prices xs) i small in
    let positive : 1 ≤ price =
      get_elem?-All IsPositive (sort_prices xs) i (sort_prices-All IsPositive xs all) at in
    let sorted = get_elem?-IsAt (sort_prices xs) i (sort_prices-IsAscending xs) at in
    (
      price,
      ground arith,
      record {
        below = omega (arith, sorted.below, count_if-sort_prices (λ y. ltb y price) xs);
        up_to = omega (arith, sorted.up_to, count_if-sort_prices (λ y. leb y price) xs);
      },
    )

-- The state after an update with a new price.
pub record Updated (t : Transaction) (trxs : List Transaction) (s s' : GasPricer) : Type 0 where
  pub prices : s'.price_list ≡ push_price s.capacity (min_gas_price t trxs) s.price_list
  pub lowest : All (λ u. min_gas_price t trxs ≤ u.gas_price) (t ∷ trxs)
  pub kept : IsKept s'
  pub at : IsAt (percentile_index s.percentile (length s'.price_list)) s'.latest_price s'.price_list
  pub suggested : (min_price : ℕ) → bid min_price s' ≡ max s'.latest_price s.minimum_price

-- For a pricer by blocks with a percentile of at most 100 and room for a price, whose list fits in
-- the buffer and has no price of 0, and a block whose lowest price is not 0: update returns, puts that
-- price, which no transaction of the block is below, behind the others in the buffer, keeps these
-- conditions, and its price is the one that stands at the percentile of the list in ascending order;
-- bid gives this price or the minimum, if that is higher.
pub update-Updated :
    (t : Transaction) (trxs : List Transaction) (s : GasPricer)
    → IsKept s
    → s.blocks_gas_pricer ≡ true
    → 1 ≤ min_gas_price t trxs
    → (s' : GasPricer) × (update (t ∷ trxs) s ≡ done s') × Updated t trxs s s'
unfolding update bid
update-Updated t trxs s k by_blocks new =
    let price = min_gas_price t trxs in
    let pushed = push_price-IsPushed s.capacity price s.price_list k.room k.fits new k.positive in
    let full : GasPricer = record s { price_list = push_price s.capacity price s.price_list } in
    let (latest, set, at) = set_price-IsAt full k.of_hundred pushed.some_price pushed.positive in
    (
      record full { latest_price = latest },
      ground arith,
      record {
        prices = refl;
        lowest = min_gas_price-All t trxs;
        kept = record {
          of_hundred = k.of_hundred;
          room = k.room;
          fits = pushed.fits;
          positive = pushed.positive;
        };
        at = at;
        suggested = λ min_price. rw by_blocks refl;
      },
    )
