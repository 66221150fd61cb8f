-- ===== src/Tests/Entering.antt =====
-- The theorems on the entry matcher, at two levels of either side.
use arbexpert_backend.Base.{ℕ, ◌∷◌, [], ◌≡◌, refl, false}
use arbexpert_backend.Arbitrage.{
  EntryRequest, clean_residual, while_rounds, returns, add_fill, is_outside_tolerance,
}
use arbexpert_backend.Arbitrage.Entry.{
  EntryState, entry_step, entry_body, entry_round, reduce_level,
}
use arbexpert_backend.Arbitrage.Spending.{before, Ledger, entry_spends}
use arbexpert_backend.Tests.{nat_decimal, nat_float}

abbrev entry_request : EntryRequest ℕ
entry_request = record {
  spot_orders = (100, 200) ∷ (100, 500) ∷ [];
  future_orders = (103, 300) ∷ (102, 300) ∷ [];
  amount = 600;
  margin_quantity_percent = 100;
  percent = 100;
  contract_size = 100;
}

abbrev before_loop : EntryState ℕ ℕ
before_loop = before nat_float 600 ((100, 200) ∷ (100, 500) ∷ []) ((103, 300) ∷ (102, 300) ∷ [])

abbrev after_loop : EntryState ℕ ℕ
after_loop = record {
  spot = (100, 100) ∷ [];
  future = [];
  total_spot = 600;
  total_future = 615;
  available = 0;
  spot_results = (100, 600) ∷ [];
  future_results = (103, 300) ∷ (102, 300) ∷ [];
  qty = 600;
  completed = false;
}

loop_runs : while_rounds 6 (entry_step nat_float entry_request 600) before_loop ≡ returns after_loop
unfolding while_rounds entry_step entry_body entry_round reduce_level add_fill is_outside_tolerance
    clean_residual
loop_runs = refl

entry_spends_example :
    Ledger nat_float entry_request 600
      ((100, 200) ∷ (100, 500) ∷ [])
      ((103, 300) ∷ (102, 300) ∷ [])
      after_loop
entry_spends_example =
    entry_spends nat_float entry_request 600 ((100, 200) ∷ (100, 500) ∷ [])
      ((103, 300) ∷ (102, 300) ∷ []) 6 after_loop loop_runs
