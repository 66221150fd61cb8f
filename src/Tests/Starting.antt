-- ===== src/Tests/Starting.antt =====
-- The theorems on the start of the exchanges, on the pairs and on signed requests, at one pair.
use mathlib.Core.List.{reverse}
use Prim.Native.String.{◌++◌}
use arbexpert_backend.Base.{
  ◌≡◌, refl, String, Bool, true, false, not, ◌||◌, ◌&&◌, none, some, [], ◌∷◌, is_some, str_eq,
  arith,
}
use arbexpert_backend.Std.BTreeMap
use arbexpert_backend.Std.StringOrd.{string_ord}
use arbexpert_backend.Std.Text.{contains, before, behind}
use arbexpert_backend.Symbol.{gate_normalize_symbol, is_future_symbol, IsAsset}
use arbexpert_backend.Requests.{Result, ok, json, request_fails}
use arbexpert_backend.Feed.{MarketType}
use arbexpert_backend.Startup
use arbexpert_backend.Startup.{
  Asset, Assets, Entry, Statics, first_statics, is_empty, time_request_error, gate_asset,
  gate_trades, gate_name, fetch_assets, has_text, unwrap_or_default,
}
use arbexpert_backend.Startup.Listing.{
  last_listed, fetch_assets_exact, gate_name_returns, is_future,
}
use arbexpert_backend.Startup.Sync.{IsLimited, new_returns}
use arbexpert_backend.Std.HashMap
use arbexpert_backend.Workers.Crossing.{Exchange, cross_assets, or_default}
use arbexpert_backend.Workers.Crossing.Pairs.{any, offered, cross_assets_exact}
use arbexpert_backend.Arbitrage.{find_max_price}
use arbexpert_backend.Arbitrage.Naive.{search_naive, find_max_price-naive}
use arbexpert_backend.Mexc.Request.{prepare, query, with_params, sent_value, request_signs}
use arbexpert_backend.Tests.{nat_float}

-- An entry of Gate's list of spot pairs.
abbrev btc_entry : Entry
btc_entry = record {
  status = none;
  trade_status = some "tradable";
  id = some "BTC_USDT";
  name = none;
  base_asset = none;
  quote_asset = none;
}

no_offset : IsLimited first_statics
unfolding IsLimited
no_offset h = absurd (h refl)

-- The request for the time fails: the start panics.
new_returns_example :
    is_some (
      Startup.new gate_asset
        (request_fails "timeout")
        0
        (record { spot = json none; future = json none })
        first_statics)
    ≡ (not (is_empty first_statics.assets.spot)
        || (first_statics.limiters || not (is_some (time_request_error (request_fails "timeout")))))
new_returns_example =
    new_returns gate_asset (request_fails "timeout") 0
      (record { spot = json none; future = json none }) first_statics no_offset

abbrev limited : Statics
limited = record first_statics { limiters = true }

fetch_assets_exact_example :
    (assets : Assets) × (fetch_assets gate_asset
        (record { spot = json (some (btc_entry ∷ [])); future = json (some []) })
        limited
      ≡ some (ok assets, record limited { assets = assets }))
    × ((k : String)
        → BTreeMap.get k assets.spot
          ≡ last_listed (gate_asset MarketType.spot) k (btc_entry ∷ []) none)
    × ((k : String)
        → BTreeMap.get k assets.future ≡ last_listed (gate_asset MarketType.future) k [] none)
fetch_assets_exact_example = fetch_assets_exact gate_asset (btc_entry ∷ []) [] limited refl

btc_trades : gate_trades MarketType.spot btc_entry ≡ true
unfolding gate_trades has_text
btc_trades = refl

btc_splits : contains b'_' (gate_name MarketType.spot btc_entry) ≡ true
unfolding gate_name unwrap_or_default contains
btc_splits = refl

btc_base : IsAsset (before b'_' (gate_name MarketType.spot btc_entry))
unfolding gate_name unwrap_or_default contains before
btc_base = record { no_colon = refl; no_slash = refl }

btc_quote : IsAsset (behind b'_' (gate_name MarketType.spot btc_entry))
unfolding gate_name unwrap_or_default contains behind
btc_quote = record { no_colon = refl; no_slash = refl }

gate_name_returns_example :
    (a : Asset) × (gate_asset MarketType.spot btc_entry ≡ some a)
    × (gate_normalize_symbol a.symbol ≡ gate_name MarketType.spot btc_entry)
    × (is_future_symbol a.symbol ≡ is_future MarketType.spot)
gate_name_returns_example =
    gate_name_returns MarketType.spot btc_entry btc_trades btc_splits btc_base btc_quote

-- A spot pair and a future of one exchange.
abbrev pub btc_spot : Asset
btc_spot = record {
  symbol = "BTC/USDT";
  base = "BTC";
  quote = "USDT";
  market = MarketType.spot;
  exchange = "Gate";
}

abbrev pub btc_future : Asset
btc_future = record {
  symbol = "BTC/USDT:USDT";
  base = "BTC";
  quote = "USDT";
  market = MarketType.future;
  exchange = "Gate";
}

abbrev pub gate : Exchange
gate = record {
  name = "Gate";
  assets = record {
    spot = ("BTC/USDT", btc_spot) ∷ [];
    future = ("BTC/USDT:USDT", btc_future) ∷ [];
  };
}

abbrev of_gate : Asset → Bool
of_gate a = str_eq a.exchange "Gate"

cross_assets_exact_example :
    any
      (λ x. of_gate x.spot && (str_eq x.future.base "BTC" && of_gate x.future))
      (or_default (HashMap.get "BTC/USDT" (cross_assets (gate ∷ []))))
    ≡ (offered (λ s. str_eq s.symbol "BTC/USDT" && of_gate s) true "BTC" (gate ∷ [])
        && offered of_gate false "BTC" (gate ∷ []))
cross_assets_exact_example = cross_assets_exact of_gate of_gate "BTC/USDT" "BTC" (gate ∷ [])

-- Three asks of which each requires a higher bid, in units of a percentage of 0.
find_max_price-naive_example :
    find_max_price nat_float ((10, 1) ∷ (12, 1) ∷ (15, 1) ∷ []) ((14, 1) ∷ (13, 1) ∷ (11, 1) ∷ []) 0
    ≡ search_naive nat_float 0
        ((10, 1) ∷ (12, 1) ∷ (15, 1) ∷ [])
        (reverse ((14, 1) ∷ (13, 1) ∷ (11, 1) ∷ []))
        none
        nat_float.infinity
find_max_price-naive_example =
    find_max_price-naive nat_float 0 ((10, 1) ∷ (12, 1) ∷ (15, 1) ∷ [])
      ((14, 1) ∷ (13, 1) ∷ (11, 1) ∷ []) (λ x h. ground arith, (λ x h. ground arith, tt))

-- A stand-in for the HMAC that returns the secret.
abbrev plain_hmac : String → String → Result String
plain_hmac secret text = ok secret

request_signs_example :
    (sent : BTreeMap.BTreeMap String String) × (prepare plain_hmac
        (record { secret = some "s"; api_key = some "k" })
        "100"
        "https://api"
        (("symbol", "BTCUSDT") ∷ [])
        none
      ≡ ok (record { url = "https://api" ++ ("?" ++ query sent); api_key = "k"; body = none }))
    × ((k : String) → BTreeMap.get k sent ≡ sent_value "s" "100" (("symbol", "BTCUSDT") ∷ []) k)
    × BTreeMap.IsSorted sent
    × BTreeMap.IsSorted (with_params "100" (("symbol", "BTCUSDT") ∷ []))
request_signs_example =
    request_signs plain_hmac "s" "k" "100" "https://api" "s" (("symbol", "BTCUSDT") ∷ []) refl
