-- ===== src/Startup/Binance.antt =====
-- The start of Binance (src/exchange/binance/public/constructor.rs): the functions of the parent at
-- how Binance reads an entry, and the names that come of it (src/exchange/binance/utils.rs).
use Prim.Native.String.{◌++◌}
use text.Mathlib.TextLemmas.{nil-append}
use arbexpert_backend.Base.{ℕ, ◌≡◌, ap, ap₂, ◌∙◌, String, true, Option, some, List, if_true}
use arbexpert_backend.Std.Text
use arbexpert_backend.Symbol.{binance_normalize_symbol, is_future_symbol, IsAsset, replaced}
use arbexpert_backend.Feed.{MarketType}
use arbexpert_backend.Requests.{ExchangeError, Answer, Result}
use arbexpert_backend.Startup
use arbexpert_backend.Startup.{
  Asset, Assets, Entry, Statics, Public, Lists, binance_asset, unwrap_or_default, has_text,
  make_asset,
}
use arbexpert_backend.Startup.Listing.{before-symbol_name, is_future, is_future-symbol_name}

abbrev pub binance_fetch_assets_by : MarketType → Answer (Option (List Entry)) → Result (List Asset)
binance_fetch_assets_by market = Startup.fetch_assets_by (binance_asset market)

abbrev pub binance_fetch_assets : Lists → Statics → Option (Result Assets × Statics)
binance_fetch_assets = Startup.fetch_assets binance_asset

abbrev pub binance_load_assets :
    Lists → Statics → Public → Option (Result Assets × Statics × Public)
binance_load_assets = Startup.load_assets binance_asset

abbrev pub binance_sync_time :
    Answer (Option ℕ) → ℕ → Statics → Public → Option ExchangeError × Statics × Public
binance_sync_time = Startup.sync_time

abbrev pub binance_new : Answer (Option ℕ) → ℕ → Lists → Statics → Option (Statics × Public)
binance_new = Startup.new binance_asset

-- Where an entry of Binance trades and neither of its assets' names has a `:` or a `/`: the asset that
-- is made of it has a symbol that `normalize_symbol` turns into the two names joined, as Binance
-- names a pair, and that has a colon just if the market is that of the futures.
pub binance_name_joins :
    (market : MarketType) (e : Entry) (base quote : String)
    → has_text "TRADING" e.status ≡ true
    → e.base_asset ≡ some base
    → e.quote_asset ≡ some quote
    → IsAsset base
    → IsAsset quote
    → (a : Asset) × (binance_asset market e ≡ some a)
      × (binance_normalize_symbol a.symbol ≡ base ++ quote)
      × (is_future_symbol a.symbol ≡ is_future market)
unfolding binance_asset binance_normalize_symbol make_asset unwrap_or_default
binance_name_joins market e base quote t hb hq b q = (
  make_asset "Binance" market base quote,
  if_true _ _ _ t
      ∙ ap₂ (λ x y. some (make_asset "Binance" market (unwrap_or_default x) (unwrap_or_default y)))
          hb hq,
  ap (Text.replace b'/' "") (before-symbol_name market base quote b q)
      ∙ replaced base quote b q ""
      ∙ ap (◌++◌ base) (nil-append quote),
  is_future-symbol_name market base quote b q,
)
