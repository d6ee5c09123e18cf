-- ===== src/GasPricer.antt =====
-- libraries/core_libs/consensus: GasPricer, the gas price that a node suggests. The prices are those of
-- `u256` and never change here. The blocks of the database are a function of their number.
pub mod Sorted
pub mod Percentile
mod Examples
use rustaxa.Common.{
  ℕ, zero, suc, ◌+◌, ◌-◌, ◌*◌, ◌/◌, ◌%◌, ◌^◌, ◌≤◌, ◌<◌, max, min, ◌≡◌, refl, sym, ap, subst, ◌∙◌,
  ◌≢◌, ◌↔◌, ◌⊎◌, inl, inr, Bool, true, false, not, ◌&&◌, ◌||◌, Option, none, some, List, [], ◌∷◌,
  ◌++◌, map, arith, ltb, leb, ◌==◌, if◌then◌else◌, ltb→lt, ==_iff, Bool-cases, Option-cases, u64,
  u32, length, All, length-append, total, get_elem?, drop, is_nil,
}
use rustaxa.Common.Outcome.{Outcome, done, fault, deref, assert, ◌>>=◌, ◌>>◌}
use rustaxa.Transaction.{Transaction}

-- `capacity` is that of the circular buffer.
pub record GasPricer : Type 0 where
  pub percentile : ℕ
  pub minimum_price : ℕ
  pub is_light_node : Bool
  pub latest_price : ℕ
  pub capacity : ℕ
  pub price_list : List ℕ
  pub blocks_gas_pricer : Bool

unfoldable pub new_gas_pricer : ℕ → ℕ → ℕ → Bool → Bool → Outcome GasPricer
new_gas_pricer percentile minimum_price blocks is_light_node is_blocks_gas_pricer = do
  assert (leb percentile 100)
  done (record {
    percentile = percentile;
    minimum_price = minimum_price;
    is_light_node = is_light_node;
    latest_price = minimum_price;
    capacity = blocks;
    price_list = [];
    blocks_gas_pricer = is_blocks_gas_pricer;
  })

-- `min_price` is that of the transaction manager.
unfoldable pub bid : ℕ → GasPricer → ℕ
bid min_price s = max (if s.blocks_gas_pricer then s.latest_price else min_price) s.minimum_price

-- The lowest gas price of a block with transactions.
unfoldable pub min_gas_price : Transaction → List Transaction → ℕ
min_gas_price t [] = t.gas_price
min_gas_price t (u ∷ rest) = min t.gas_price (min_gas_price u rest)

unfoldable pub insert_price : ℕ → List ℕ → List ℕ
insert_price x [] = x ∷ []
insert_price x (y ∷ ys) = let later = insert_price x ys in if leb x y then x ∷ y ∷ ys else y ∷ later

unfoldable pub sort_prices : List ℕ → List ℕ
unfolding insert_price
sort_prices [] = []
sort_prices (x ∷ xs) = insert_price x (sort_prices xs)

-- A full buffer loses its first entry, and one of no capacity takes none.
unfoldable pub push_price : ℕ → ℕ → List ℕ → List ℕ
push_price capacity x xs =
    if capacity == 0
    then []
    else if ltb (length xs) capacity
    then xs ++ x ∷ []
    else drop 1 xs ++ x ∷ []

-- The index of the percentile among `n` prices.
abbrev pub percentile_index : ℕ → ℕ → ℕ
percentile_index percentile n = (n - 1) * percentile / 100

-- The new price, if it is not 0; there is no element to read without prices.
unfoldable pub set_price : GasPricer → Outcome GasPricer
unfolding sort_prices
set_price s = do
  new_price ←
      deref
        (get_elem? (sort_prices s.price_list) (percentile_index s.percentile (length s.price_list)))
  done (if new_price == 0 then s else record s { latest_price = new_price })

unfoldable pub update : List Transaction → GasPricer → Outcome GasPricer
unfolding min_gas_price push_price set_price
update [] s = done s
update (t ∷ trxs) s =
    let price = min_gas_price t trxs in
    if not s.blocks_gas_pricer || price == 0
    then done s
    else set_price (record s { price_list = push_price s.capacity price s.price_list })

-- The walk over the blocks from the last one.
unfoldable pub collect_prices : (ℕ → Option (List Transaction)) → ℕ → GasPricer → Outcome GasPricer
unfolding min_gas_price
collect_prices period_transactions zero s = done s
collect_prices period_transactions (suc n) s =
    let rest = collect_prices period_transactions n in
    if s.capacity == length s.price_list then done s else elim (period_transactions (suc n)) [
      | none ↦ do assert s.is_light_node; done s
      | some [] ↦ rest s
      | some (t ∷ trxs) ↦
          let price = min_gas_price t trxs in
          rest (if price == 0 then s else record s { price_list = price ∷ s.price_list })
    ]

unfoldable pub init : (ℕ → Option (List Transaction)) → Option ℕ → GasPricer → Outcome GasPricer
unfolding collect_prices set_price
init period_transactions none s = done s
init period_transactions (some last_blk_num) s =
    if not s.blocks_gas_pricer || last_blk_num == 0 then done s else do
      s' ← collect_prices period_transactions last_blk_num s
      if is_nil s'.price_list then done s' else set_price s'
