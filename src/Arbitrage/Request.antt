-- ===== src/Arbitrage/Request.antt =====
-- `do_arbitrage` of src/arbitrage/mod.rs, and its request and result (src/arbitrage/common.rs).
use arbexpert_backend.Base.{ℕ}
use arbexpert_backend.Decimal.{Decimal}
use arbexpert_backend.Arbitrage.{
  Float, EntryRequest, ExitRequest, EntryResult, ExitResult, Ends, returns, panics, out_of_fuel,
}
use arbexpert_backend.Arbitrage.Entry.{do_entry_arbitrage}
use arbexpert_backend.Arbitrage.Exit.{do_exit_arbitrage}

pub data ArbitrageRequest (F : Type 0) : Type 0 where
  entry : EntryRequest F → ArbitrageRequest F
  exit : ExitRequest F → ArbitrageRequest F

pub data ArbitrageResult (F : Type 0) : Type 0 where
  entry_result : EntryResult F → ArbitrageResult F
  exit_result : ExitResult F → ArbitrageResult F

map_end : {A B : Type 0} → (A → B) → Ends A → Ends B
map_end f (returns a) = returns (f a)
map_end f panics = panics
map_end f out_of_fuel = out_of_fuel

module _ {F D : Type 0} ⦃d : Decimal D⦄ (fl : Float F D) where
  unfoldable pub do_arbitrage : ℕ → ArbitrageRequest F → Ends (ArbitrageResult F)
  unfolding map_end
  do_arbitrage fuel (entry r) = map_end entry_result (do_entry_arbitrage fl fuel r)
  do_arbitrage fuel (exit r) = map_end exit_result (do_exit_arbitrage fl fuel r)
