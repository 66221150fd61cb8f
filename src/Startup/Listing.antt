-- ===== src/Startup/Listing.antt =====
-- Which assets an exchange knows once `fetch_assets` has answered, and that their names lead back
-- to those of the exchange (src/exchange/gate/public/constructor.rs,
-- src/exchange/binance/public/constructor.rs, src/exchange/gate/utils.rs).
use Prim.Native.String.{◌++◌}
use text.Mathlib.TextLemmas.{cons-append, append-nil}
use arbexpert_backend.Base.{
  String, ◌≡◌, refl, sym, ap, ◌∙◌, Bool, true, false, Option, none, some, List, [], ◌∷◌, arith,
  if◌then◌else◌, str_eq, eq_iff, if_true,
}
use arbexpert_backend.Std.BTreeMap
use arbexpert_backend.Std.BTreeMap.{BTreeMap, get-insert, at_key}
use arbexpert_backend.Std.StringOrd.{string_ord}
use arbexpert_backend.Std.Text
use arbexpert_backend.Std.Text.{
  contains, before, behind, before-append, before_absent, before-behind, contains-append,
}
use arbexpert_backend.Symbol.{gate_normalize_symbol, is_future_symbol, IsAsset, replaced}
use arbexpert_backend.Feed.{MarketType}
use arbexpert_backend.Requests.{json, ok}
use arbexpert_backend.Startup.{
  Asset, Assets, Entry, Statics, symbol_name, make_asset, gate_asset, gate_name, gate_trades,
  read_entries, collect, fetch_assets_by, join_lists, keep_assets, fetch_assets,
}

-- The last asset of the entries that has the symbol `k`, and `old` if there is none.
pub last_listed : (Entry → Option Asset) → String → List Entry → Option Asset → Option Asset
last_listed read k [] old = old
last_listed read k (e ∷ es) old = elim (read e) [
  | none ↦ last_listed read k es old
  | some a ↦ last_listed read k es (if str_eq a.symbol k then some a else old)
]

at_key-str_eq :
    (k symbol : String) (x y : Option Asset)
    → at_key (string_ord.cmp k symbol) x y ≡ (if str_eq symbol k then x else y)
at_key-str_eq k symbol x y =
    ground (arith, eq_iff symbol k, string_ord.cmp_eq k symbol, string_ord.cmp_refl k)

collect-read_entries :
    (read : Entry → Option Asset) (k : String) (es : List Entry) (m : BTreeMap String Asset)
    → BTreeMap.get k (collect (read_entries read es) m) ≡ last_listed read k es (BTreeMap.get k m)
unfolding collect read_entries last_listed
collect-read_entries read k [] m = refl
collect-read_entries read k (e ∷ es) m =
    elim (read e)
      as (λ o.
        BTreeMap.get k
          (collect (elim o [ none ↦ read_entries read es | some a ↦ a ∷ read_entries read es ]) m)
        ≡ (elim o [
          | none ↦ last_listed read k es (BTreeMap.get k m)
          | some a ↦ last_listed read k es (if str_eq a.symbol k then some a else BTreeMap.get k m)
        ])) [
          | none ↦ collect-read_entries read k es m
          | some a ↦
              collect-read_entries read k es (BTreeMap.insert a.symbol a m)
              ∙ ap (last_listed read k es)
                  (get-insert k a.symbol a m ∙ at_key-str_eq k a.symbol (some a) (BTreeMap.get k m))
        ]

-- Where the limiters are set and both requests answer with arrays: `fetch_assets` returns maps that
-- hold under each name, of either market, the last asset of the list with that name, and nothing
-- under a name that no asset of the list has; the shared maps become these and nothing else changes.
pub fetch_assets_exact :
    (read : MarketType → Entry → Option Asset) (spots futures : List Entry) (s : Statics)
    → s.limiters ≡ true
    → (assets : Assets) × (fetch_assets read
          (record { spot = json (some spots); future = json (some futures) })
          s
        ≡ some (ok assets, record s { assets = assets }))
      × ((k : String)
          → BTreeMap.get k assets.spot ≡ last_listed (read MarketType.spot) k spots none)
      × ((k : String)
          → BTreeMap.get k assets.future ≡ last_listed (read MarketType.future) k futures none)
unfolding fetch_assets fetch_assets_by join_lists keep_assets BTreeMap.get
fetch_assets_exact read spots futures s h = (
  record {
    spot = collect (read_entries (read MarketType.spot) spots) [];
    future = collect (read_entries (read MarketType.future) futures) [];
  },
  if_true _ _ _ h,
  λ k. collect-read_entries (read MarketType.spot) k spots [],
  λ k. collect-read_entries (read MarketType.future) k futures [],
)

before-colon : (t : String) → before b':' (":" ++ t) ≡ ""
unfolding before
before-colon t = rw (cons-append)

colon-colon : (t : String) → contains b':' (":" ++ t) ≡ true
unfolding contains
colon-colon t = rw (cons-append)

slash : contains b':' "/" ≡ false
unfolding contains
slash = refl

before-tail :
    (base quote t : String)
    → IsAsset base
    → contains b':' quote ≡ false
    → before b':' t ≡ ""
    → before b':' (base ++ ("/" ++ (quote ++ t))) ≡ base ++ ("/" ++ quote)
before-tail base quote t b q h =
    before-append b':' base ("/" ++ (quote ++ t)) b.no_colon
    ∙ ap (◌++◌ base) (
        before-append b':' "/" (quote ++ t) slash
        ∙ ap (◌++◌ "/") (before-append b':' quote t q ∙ ap (◌++◌ quote) h ∙ append-nil quote))

-- The part of a symbol in front of the colon.
pub before-symbol_name :
    (market : MarketType) (base quote : String)
    → IsAsset base
    → IsAsset quote
    → before b':' (symbol_name market base quote) ≡ base ++ ("/" ++ quote)
unfolding symbol_name before
before-symbol_name MarketType.spot base quote b q =
    ap (λ t. before b':' (base ++ ("/" ++ t))) (sym (append-nil quote))
    ∙ before-tail base quote "" b q.no_colon refl
before-symbol_name MarketType.future base quote b q =
    before-tail base quote (":" ++ quote) b q.no_colon (before-colon quote)

abbrev pub is_future : MarketType → Bool
is_future MarketType.spot = false
is_future MarketType.future = true

pub is_future-symbol_name :
    (market : MarketType) (base quote : String)
    → IsAsset base
    → IsAsset quote
    → is_future_symbol (symbol_name market base quote) ≡ is_future market
unfolding symbol_name
is_future-symbol_name MarketType.spot base quote b q = ground (
  arith,
  b.no_colon,
  q.no_colon,
  slash,
  contains-append b':' base ("/" ++ quote),
  contains-append b':' "/" quote,
)
is_future-symbol_name MarketType.future base quote b q = ground (
  arith,
  colon-colon quote,
  contains-append b':' base ("/" ++ (quote ++ (":" ++ quote))),
  contains-append b':' "/" (quote ++ (":" ++ quote)),
  contains-append b':' quote (":" ++ quote),
)

-- Where a tradable entry of Gate has a name with a `_` and neither half has a `:` or a `/`: the
-- asset that is made of it has a symbol that `normalize_symbol` turns back into the name, and that
-- has a colon just if the market is that of the futures.
pub gate_name_returns :
    (market : MarketType) (e : Entry)
    → gate_trades market e ≡ true
    → contains b'_' (gate_name market e) ≡ true
    → IsAsset (before b'_' (gate_name market e))
    → IsAsset (behind b'_' (gate_name market e))
    → (a : Asset) × (gate_asset market e ≡ some a)
      × (gate_normalize_symbol a.symbol ≡ gate_name market e)
      × (is_future_symbol a.symbol ≡ is_future market)
unfolding gate_asset gate_normalize_symbol make_asset
gate_name_returns market e h u b q =
    let base = before b'_' (gate_name market e) in
    let quote = behind b'_' (gate_name market e) in
    (
      make_asset "Gate" market base quote,
      if_true _ _ _ h,
      ap (Text.replace b'/' "_") (before-symbol_name market base quote b q)
          ∙ replaced base quote b q "_"
          ∙ before-behind (gate_name market e) u,
      is_future-symbol_name market base quote b q,
    )
