-- ===== src/GasPricer/Examples.antt =====
-- Tests of GasPricer: a buffer of three prices.
use rustaxa.Common.{ℕ, ◌≡◌, refl, true, false, some, [], ◌∷◌, arith, ◌==◌, if◌then◌else◌}
use rustaxa.Common.Outcome.{done, fault}
use rustaxa.Transaction.{Transaction}
use rustaxa.GasPricer.{
  GasPricer, new_gas_pricer, insert_price, sort_prices, push_price, set_price, update,
  min_gas_price, collect_prices, init,
}
use rustaxa.GasPricer.Percentile.{IsKept, Updated, update-Updated}

abbrev trx_at : ℕ → Transaction
trx_at price = record { hash = price; sender = 1; nonce = 0; gas_price = price }

abbrev full : GasPricer
full = record {
  percentile = 60;
  minimum_price = 2;
  is_light_node = false;
  latest_price = 1;
  capacity = 3;
  price_list = 9 ∷ 4 ∷ 7 ∷ [];
  blocks_gas_pricer = true;
}

full-IsKept : IsKept full
full-IsKept = record {
  of_hundred = omega arith;
  room = omega arith;
  fits = omega arith;
  positive = (omega arith, (omega arith, (omega arith, tt)));
}

update-Updated_example :
    (s : GasPricer) × (update (trx_at 8 ∷ trx_at 5 ∷ []) full ≡ done s)
    × Updated (trx_at 8) (trx_at 5 ∷ []) full s
unfolding min_gas_price
update-Updated_example =
    update-Updated (trx_at 8) (trx_at 5 ∷ []) full full-IsKept refl (omega arith)

-- Of the prices 4, 5, 7 the one at 60 percent is the second.
updated :
    update (trx_at 8 ∷ trx_at 5 ∷ []) full
    ≡ done (record full { price_list = 4 ∷ 7 ∷ 5 ∷ []; latest_price = 5 })
unfolding min_gas_price insert_price sort_prices push_price set_price update
updated = refl

-- Two blocks of the database, one of them empty.
loaded :
    init
      (λ n. if n == 2 then some (trx_at 6 ∷ []) else some [])
      (some 2)
      (record full { price_list = [] })
    ≡ done (record full { price_list = 6 ∷ []; latest_price = 6 })
unfolding min_gas_price insert_price sort_prices set_price collect_prices init
loaded = refl

refused : new_gas_pricer 101 2 3 false true ≡ fault
unfolding new_gas_pricer
refused = refl
