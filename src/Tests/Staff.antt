-- ===== src/Tests/Staff.antt =====
-- The theorems on the server and its workers at two processors and one pair.
use arbexpert_backend.Base.{
  ℕ, ◌<◌, ◌≤◌, ◌↔◌, ◌≡◌, refl, String, true, false, List, Option, none, some, [], ◌∷◌, arith, ◌==◌,
  ◌≢◌, if◌then◌else◌,
}
use mathlib.Core.List as List
use mathlib.Core.List.{reverse_perm}
use arbexpert_backend.Std.BTreeMap.{reverse}
use arbexpert_backend.Tests.{nat_decimal}
use arbexpert_backend.Std.BTreeMap
use arbexpert_backend.Std.HashMap
use arbexpert_backend.Monitor.Tasks.{Task}
use arbexpert_backend.Requests.{json, request_fails}
use arbexpert_backend.Startup
use arbexpert_backend.Startup.{
  Entry, Lists, Statics, Public, first_statics, gate_asset, gate_trades, has_text, sync_time,
  load_assets, fetch_assets, fetch_assets_by, read_entries, join_lists, collect, keep_assets,
  show_assets, time_request_error, server_time,
}
use arbexpert_backend.Workers.{GlobalState, has_channel}
use arbexpert_backend.Workers.Crossing.Keys.{Crosses}
use arbexpert_backend.Workers.Crossing.{
  Arbitrage, cross_assets, cross_entries, cross_spots, cross_spot, push_arbitrage, list_exchanges,
  list_assets, push_listed, assets_of,
}
use arbexpert_backend.Workers.Watched.{Server, Opened, unwrap_assets, cross_assets_all_exchanges}
use arbexpert_backend.Workers.Watched.Requests.{
  Covers, Arrangement, requests_for, start_watches_all,
}
use arbexpert_backend.Workers.Setup.{
  setup_exchanges, worker_loop, Event, receives, ends, start_monitor,
}
use arbexpert_backend.Monitor.{ArbitrageSnapshot, default_snapshot}
use arbexpert_backend.Workers.Setup.Loop.{WorkAll, received}
use arbexpert_backend.Workers.Setup.Tasks.{AreSent, gate_pairs_work}
use arbexpert_backend.Workers.Pages.{
  Next, chunk, end_of_body, stream_error, start_arbitrage_page, start_arbitrage_page_hangs,
}
use arbexpert_backend.Tests.Starting.{gate, btc_spot, btc_future}

abbrev two_workers : GlobalState
two_workers = record {
  last_id = 2;
  symbol_map = [];
  worker_channels = 1 ∷ 0 ∷ [];
  next_worker = 3;
  sent = [];
}

two_channels : (id : ℕ) → id < 2 → has_channel id (1 ∷ 0 ∷ []) ≡ true
unfolding has_channel
two_channels id h = ground arith

no_symbol : (k : String) (id : ℕ) → HashMap.get {V = ℕ} k [] ≡ some id → id < 2
unfolding HashMap.get
no_symbol k id e = ground arith

abbrev idle : Server
idle = record { workers = two_workers; arbitrages = []; started = false }

abbrev gate_opened : List Opened
gate_opened = record { name = "Gate"; assets = some gate.assets } ∷ []

gate_unwraps : unwrap_assets gate_opened ≡ some (gate ∷ [])
unfolding unwrap_assets
gate_unwraps = refl

start_watches_all_example :
    (t : Server) × (w : Covers 2
      (List.reverse (cross_assets (gate ∷ [])))
      (record idle { started = true })
      t)
    × (cross_assets_all_exchanges List.reverse 2 gate_opened idle ≡ (t, true))
    × ((k : String)
        → (requests_for k w.requests ≤ 1)
          × ((requests_for k w.requests ≡ 1) ↔ Crosses k (gate ∷ [])))
    × ((again : Arrangement) (others : List Opened)
        → cross_assets_all_exchanges again 2 others t ≡ (t, true))
start_watches_all_example =
    start_watches_all List.reverse 2 gate_opened (gate ∷ []) idle reverse_perm (omega arith)
      (record { workers = two_channels; symbols = no_symbol }) refl gate_unwraps

-- Bytes of a body in two chunks, and then the end.
abbrev two_chunks : ℕ → Next ℕ
two_chunks n = if n == 0 then chunk (1 ∷ 2 ∷ []) else if n == 1 then chunk (3 ∷ []) else end_of_body

no_error : (i : ℕ) → two_chunks i ≢ stream_error
no_error i = λ e. ground (arith, e)

start_arbitrage_page_hangs_example :
    start_arbitrage_page (λ b. true) 100 two_chunks "BTC-USDT" two_workers ≡ none
start_arbitrage_page_hangs_example =
    start_arbitrage_page_hangs (λ b. true) 100 two_chunks "BTC-USDT" two_workers no_error

-- What the threads share once the list of Gate was read.
abbrev loaded : Statics
loaded = record { time_offset = 5; assets = gate.assets; limiters = true }

abbrev no_lists : Lists
no_lists = record { spot = request_fails "timeout"; future = request_fails "timeout" }

abbrev binance_started : Option (Statics × Public)
binance_started = some (first_statics, record { assets = none; time_offset_ms = 0 })

gate_starts :
    setup_exchanges (Startup.new gate_asset (json (some 7)) 2 no_lists loaded) binance_started
    ≡ some gate_opened
unfolding setup_exchanges Startup.new load_assets sync_time
gate_starts = refl

abbrev btc_items : List Arbitrage
btc_items = record { spot = btc_spot; future = btc_future } ∷ []

btc_sent : AreSent (gate ∷ []) btc_items
unfolding cross_assets cross_entries cross_spots cross_spot push_arbitrage list_exchanges
    list_assets push_listed assets_of BTreeMap.get BTreeMap.insert HashMap.get HashMap.insert
btc_sent = ("BTC/USDT", refl)

-- The worker gets the pair; its second task then ends with a book, and the other with an error.
abbrev pair_events : List (Event ℕ)
pair_events =
    receives (some (start_monitor btc_items))
    ∷ ends 0 1 (some (record { asks = (101, 1) ∷ []; bids = (reverse 99, 1) ∷ []; update_id = 1 }))
        default_snapshot
    ∷ ends 0 0 none default_snapshot
    ∷ []

some_level : {K : Type 0} (e : K) → e ∷ [] ≢ []
some_level e h = ground (arith, h)

no_json : ArbitrageSnapshot ℕ → Option ℕ
no_json s = none

gate_pairs_work_example :
    (running : List (List Task)) × (worker_loop no_json ("Gate" ∷ []) pair_events [] ≡ some running)
    × WorkAll ("Gate" ∷ []) (received pair_events) running
gate_pairs_work_example =
    gate_pairs_work no_json (json (some 7)) 2 no_lists loaded binance_started
      (Startup.new gate_asset (json (some 7)) 2 no_lists loaded) binance_started gate_opened
      gate_opened (gate ∷ []) pair_events ((refl, tt), (refl, tt)) gate_starts gate_unwraps
      gate_starts (btc_sent, ((some_level (101, 1), some_level (reverse 99, 1)), (tt, tt)))
