-- ===== src/Startup.antt =====
-- The start of an exchange: src/exchange/gate/public/constructor.rs and
-- src/exchange/binance/public/constructor.rs, which differ in how they read an entry of the list of
-- symbols, on the assets of src/base/exchange/assets.rs. What a request comes to is an argument; of a
-- JSON value the model has what the code asks of it. An `i64` is its 64 bits as a natural number.
pub mod Listing
pub mod Sync
pub mod Named
pub mod Binance
use Prim.Native.String.{◌++◌}
use arbexpert_backend.Base.{
  ℕ, ◌+◌, ◌-◌, ◌%◌, ◌^◌, String, Bool, true, false, Option, none, some, List, [], ◌∷◌, ◌==◌, str_eq,
  if◌then◌else◌,
}
use arbexpert_backend.Std.BTreeMap
use arbexpert_backend.Std.BTreeMap.{BTreeMap}
use arbexpert_backend.Std.StringOrd.{string_ord}
use arbexpert_backend.Std.Text.{before, behind}
use arbexpert_backend.Requests.{
  ExchangeError, api_error, json_error, Result, ok, err, Answer, request_fails, body_fails,
  not_utf8, not_json, json,
}
use arbexpert_backend.Feed.{MarketType}

pub record Asset : Type 0 where
  pub symbol : String
  pub base : String
  pub quote : String
  pub market : MarketType
  pub exchange : String

pub record Assets : Type 0 where
  pub spot : BTreeMap String Asset
  pub future : BTreeMap String Asset

abbrev pub no_assets : Assets
no_assets = record { spot = []; future = [] }

-- An entry of a list: the text under each key that is read, if there is one.
pub record Entry : Type 0 where
  pub status : Option String
  pub trade_status : Option String
  pub id : Option String
  pub name : Option String
  pub base_asset : Option String
  pub quote_asset : Option String

unfoldable pub unwrap_or_default : Option String → String
unwrap_or_default none = ""
unwrap_or_default (some s) = s

unfoldable pub has_text : String → Option String → Bool
has_text s none = false
has_text s (some t) = str_eq t s

-- `symbol_name`.
unfoldable pub symbol_name : MarketType → String → String → String
symbol_name MarketType.spot base quote = base ++ ("/" ++ quote)
symbol_name MarketType.future base quote = base ++ ("/" ++ (quote ++ (":" ++ quote)))

unfoldable pub make_asset : String → MarketType → String → String → Asset
make_asset exchange market base quote = record {
  symbol = symbol_name market base quote;
  base = base;
  quote = quote;
  market = market;
  exchange = exchange;
}

unfoldable pub gate_trades : MarketType → Entry → Bool
gate_trades MarketType.spot e = has_text "tradable" e.trade_status
gate_trades MarketType.future e = has_text "trading" e.status

unfoldable pub gate_name : MarketType → Entry → String
gate_name MarketType.spot e = unwrap_or_default e.id
gate_name MarketType.future e = unwrap_or_default e.name

-- The body of the loop at Gate; `none` is `continue`.
unfoldable pub gate_asset : MarketType → Entry → Option Asset
gate_asset market e =
    if gate_trades market e
    then some (
        make_asset "Gate" market (before b'_' (gate_name market e))
          (behind b'_' (gate_name market e)))
    else none

-- The body of the loop at Binance.
unfoldable pub binance_asset : MarketType → Entry → Option Asset
binance_asset market e =
    if has_text "TRADING" e.status
    then some (
        make_asset "Binance" market (unwrap_or_default e.base_asset)
          (unwrap_or_default e.quote_asset))
    else none

-- The loop over the entries.
unfoldable pub read_entries : (Entry → Option Asset) → List Entry → List Asset
read_entries read [] = []
read_entries read (e ∷ es) = elim (read e) [
  | none ↦ read_entries read es
  | some a ↦ a ∷ read_entries read es
]

-- `into_iter().map(..).collect()` onto a map.
unfoldable pub collect : List Asset → BTreeMap String Asset → BTreeMap String Asset
collect [] m = m
collect (a ∷ rest) m = collect rest (BTreeMap.insert a.symbol a m)

-- `fetch_assets_by` from the answer on; `none` is a value that is not an array.
unfoldable pub fetch_assets_by :
    (Entry → Option Asset) → Answer (Option (List Entry)) → Result (List Asset)
fetch_assets_by read (request_fails e) = err (api_error ("Erro ao buscar ativos: " ++ e))
fetch_assets_by read (body_fails e) = err (api_error ("Corpo inválido: " ++ e))
fetch_assets_by read (not_utf8 e) = err (api_error ("Resposta inválida: " ++ e))
fetch_assets_by read (not_json e) = err (json_error e)
fetch_assets_by read (json none) = ok []
fetch_assets_by read (json (some es)) = ok (read_entries read es)

-- The statics of the module, which all threads share: `TIME_OFFSET_MS`, `ASSETS`, and whether
-- the limiters are set.
pub record Statics : Type 0 where
  pub time_offset : ℕ
  pub assets : Assets
  pub limiters : Bool

-- `public` of the exchange.
pub record Public : Type 0 where
  pub assets : Option Assets
  pub time_offset_ms : ℕ

abbrev pub i64_max : ℕ
i64_max = 2 ^ 63 - 1

abbrev pub first_statics : Statics
first_statics = record { time_offset = i64_max; assets = no_assets; limiters = false }

-- What the two requests of `fetch_assets` come to.
pub record Lists : Type 0 where
  pub spot : Answer (Option (List Entry))
  pub future : Answer (Option (List Entry))

unfoldable pub time_request_error : Answer (Option ℕ) → Option ExchangeError
time_request_error (request_fails e) = some (api_error ("Sync time error: " ++ e))
time_request_error (body_fails e) = some (api_error ("Invalid body: " ++ e))
time_request_error (not_utf8 e) = some (api_error ("Invalid response " ++ e))
time_request_error (not_json e) = some (json_error e)
time_request_error (json none) = some (api_error "Invalid server time response")
time_request_error (json (some server_time)) = none

-- `as_i64` of the answer.
unfoldable pub server_time : Answer (Option ℕ) → ℕ
server_time (json (some t)) = t
server_time _ = 0

-- `server_time - local_time`.
abbrev pub time_offset_of : ℕ → ℕ → ℕ
time_offset_of server local = (server + 2 ^ 64 - local) % 2 ^ 64

-- `sync_time`, with the answer and the local time, if it comes to ask for them: `none` is `Ok(())`.
unfoldable pub sync_time :
    Answer (Option ℕ) → ℕ → Statics → Public → Option ExchangeError × Statics × Public
sync_time answer local s p =
    if s.time_offset == i64_max
    then elim (time_request_error answer) [
      | some e ↦ (some e, s, p)
      | none ↦
          let offset = time_offset_of (server_time answer) local in
          (
            none,
            record s { time_offset = offset; limiters = true },
            record p { time_offset_ms = offset },
          )
    ]
    else (none, s, record p { time_offset_ms = s.time_offset })

-- The maps of the two lists, once both are read: the error of the spot list comes first.
unfoldable pub join_lists : Result (List Asset) → Result (List Asset) → Result Assets
join_lists (err e) future = err e
join_lists (ok spot) (err e) = err e
join_lists (ok spot) (ok future) =
    ok (record { spot = collect spot []; future = collect future [] })

unfoldable pub keep_assets : Result Assets → Statics → Statics
keep_assets (err e) s = s
keep_assets (ok assets) s = record s { assets = assets }

unfoldable pub show_assets : Result Assets → Public → Public
show_assets (err e) p = p
show_assets (ok assets) p = record p { assets = some assets }

abbrev pub is_empty : BTreeMap String Asset → Bool
is_empty [] = true
is_empty (e ∷ m) = false

-- The exchange, by how it reads an entry.
module _ (read : MarketType → Entry → Option Asset) where
  -- `fetch_assets`; `none` is the panic "Limiter not initialized".
  unfoldable pub fetch_assets : Lists → Statics → Option (Result Assets × Statics)
  fetch_assets lists s =
      let fetched =
        join_lists (fetch_assets_by (read MarketType.spot) lists.spot)
          (fetch_assets_by (read MarketType.future) lists.future) in
      if s.limiters then some (fetched, keep_assets fetched s) else none

  unfoldable pub load_assets : Lists → Statics → Public → Option (Result Assets × Statics × Public)
  load_assets lists s p =
      if is_empty s.assets.spot
      then elim (fetch_assets lists s) [ none ↦ none | some r ↦ some (r.0, r.1, show_assets r.0 p) ]
      else some (ok s.assets, s, record p { assets = some s.assets })

  -- `new`: neither result is looked at.
  unfoldable pub new : Answer (Option ℕ) → ℕ → Lists → Statics → Option (Statics × Public)
  new answer local lists s =
      let synced = sync_time answer local s (record { assets = none; time_offset_ms = 0 }) in
      elim (load_assets lists synced.1 synced.2) [ none ↦ none | some r ↦ some (r.1, r.2) ]
