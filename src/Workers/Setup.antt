-- ===== src/Workers/Setup.antt =====
-- `setup_exchanges` of src/utils/exchange.rs, and what comes of the exchange that it returns: the pairs of
-- `cross_assets_all_exchanges` (src/main.rs) and their tasks in a worker (src/worker/monitor.rs).
pub mod Loop
pub mod Tasks
use arbexpert_backend.Base.{
  ℕ, zero, suc, ◌*◌, ◌≡◌, refl, String, Bool, true, false, Option, none, some, List, [], ◌∷◌, ◌++◌,
  All, All-append, All-mono, length, if_elim, if◌then◌else◌, str_eq,
}
use mathlib.Core.List.{Perm}
use arbexpert_backend.Std.BTreeMap
use arbexpert_backend.Std.BTreeMap.{BTreeMap}
use arbexpert_backend.Std.HashMap
use arbexpert_backend.Std.HashMap.{HashMap}
use arbexpert_backend.Std.StringOrd.{string_ord}
use arbexpert_backend.Decimal.{Decimal}
use arbexpert_backend.OrderBook.{OrderBook}
use arbexpert_backend.Feed.{MarketType}
use arbexpert_backend.Monitor.{ArbitrageSnapshot}
use arbexpert_backend.Startup.{Asset, Assets, Statics, Public, collect}
use arbexpert_backend.Startup.Named.{AllAssets}
use arbexpert_backend.Workers.Crossing.{
  Exchange, Listed, Arbitrage, or_default, push_listed, push_arbitrage, list_assets, list_exchanges,
  assets_of, cross_spot, cross_spots, cross_entries, cross_assets,
}
use arbexpert_backend.Workers.Watched.{Opened}
use arbexpert_backend.Monitor.Tasks.{Task, start_tasks, turn, no_task, panics, goes}

-- With how the starts of Gate and of Binance end; `none` is the panic of either. What Binance comes
-- to is dropped.
unfoldable pub setup_exchanges :
    Option (Statics × Public) → Option (Statics × Public) → Option (List Opened)
setup_exchanges none binance = none
setup_exchanges (some gate) none = none
setup_exchanges (some gate) (some binance) =
    some (record { name = "Gate"; assets = gate.1.assets } ∷ [])

-- A request to a worker.
pub data Request : Type 0 where
  start_arbitrage : Request
  start_monitor : List Arbitrage → Request

-- `process_request` of src/worker/mod.rs, polled as soon as it is pushed, by the names of the worker's exchanges: the tasks that it
-- runs; `none` is a panic.
unfoldable pub process_request : List String → Request → Option (List Task)
process_request exchanges start_arbitrage = some []
process_request exchanges (start_monitor items) = start_tasks exchanges items

-- What the `select!` of `worker_loop` meets: what the channel gives, `none` where it is closed; or that,
-- of the tasks of the request at a position, the one at another position ends with this answer of
-- `watch_orderbook`, where the cell of its pair holds this snapshot.
pub data Event (D : Type 0) : Type 0 where
  receives : Option Request → Event D
  ends : ℕ → ℕ → Option (OrderBook D) → ArbitrageSnapshot D → Event D

module _ {D J : Type 0} ⦃d : Decimal D⦄ (to_json : ArbitrageSnapshot D → Option J) where
  -- A turn of the tasks at the position; `none` is the panic of a task. Without such a task nothing
  -- ends.
  unfoldable pub turn_at :
      ℕ
      → ℕ
      → Option (OrderBook D)
      → ArbitrageSnapshot D
      → List (List Task)
      → Option (List (List Task))
  turn_at i n answer old [] = some []
  turn_at zero n answer old (ts ∷ tss) = elim (turn to_json n answer old ts) [
    | no_task ↦ some (ts ∷ tss)
    | panics ↦ none
    | goes us ↦ some (us ∷ tss)
  ]
  turn_at (suc i) n answer old (ts ∷ tss) = elim (turn_at i n answer old tss) [
    | none ↦ none
    | some uss ↦ some (ts ∷ uss)
  ]

  -- `worker_loop` by the names of its exchanges, on the events and the tasks of each request that runs
  -- beside the loop; the result is `none` for a panic.
  unfoldable pub worker_loop :
      List String → List (Event D) → List (List Task) → Option (List (List Task))
  worker_loop exchanges [] running = some running
  worker_loop exchanges (receives none ∷ events) running = none
  worker_loop exchanges (receives (some r) ∷ events) running = elim (process_request exchanges r) [
    | none ↦ none
    | some ts ↦ worker_loop exchanges events (running ++ ts ∷ [])
  ]
  worker_loop exchanges (ends i n answer old ∷ events) running =
      elim (turn_at i n answer old running) [
        | none ↦ none
        | some after ↦ worker_loop exchanges events after
      ]

module _ (P : Asset → Type 0) where
  abbrev Entries : BTreeMap String (List Listed) → Type 0
  Entries = All λ e. All (λ x. P x.asset) e.1

  -- Both assets of every pair satisfy `P`.
  abbrev pub AllPairs : HashMap (List Arbitrage) → Type 0
  AllPairs = All λ e. All (λ x. P x.spot × P x.future) e.1

  push_listed-All :
      (k : String) (x : Listed) (m : BTreeMap String (List Listed))
      → P x.asset
      → Entries m
      → Entries (push_listed k x m)
  unfolding push_listed
  push_listed-All k x m p h =
      BTreeMap.insert-All (All λ y. P y.asset) k _ m
        (All-append (λ y. P y.asset) _ (x ∷ [])
          (BTreeMap.get-All (All λ y. P y.asset) (All λ y. P y.asset) or_default k m tt (λ v q. q)
            h)
          (p, tt))
        h

  list_assets-All :
      (name : String) (market : MarketType) (entries : BTreeMap String Asset)
      (m : BTreeMap String (List Listed))
      → All (λ e. P e.1) entries
      → Entries m
      → Entries (list_assets name market entries m)
  unfolding list_assets
  list_assets-All name market [] m p h = h
  list_assets-All name market ((k, a) ∷ entries) m p h =
      list_assets-All name market entries _ p.1
        (if_elim Entries (str_eq a.quote "USDT") _ _ (push_listed-All a.base _ m p.0 h) h)

  list_exchanges-All :
      (es : List Exchange) (m : BTreeMap String (List Listed))
      → All (λ e. AllAssets P e.assets) es
      → Entries m
      → Entries (list_exchanges es m)
  unfolding list_exchanges
  list_exchanges-All [] m p h = h
  list_exchanges-All (e ∷ es) m p h = list_exchanges-All es _ p.1 (
      list_assets-All e.name MarketType.future e.assets.future _ p.0.1
        (list_assets-All e.name MarketType.spot e.assets.spot m p.0.0 h))

  push_arbitrage-All :
      (k : String) (x : Arbitrage) (m : HashMap (List Arbitrage))
      → P x.spot × P x.future
      → AllPairs m
      → AllPairs (push_arbitrage k x m)
  unfolding push_arbitrage
  push_arbitrage-All k x m p h =
      let Good : List Arbitrage → Type 0 = All λ y. P y.spot × P y.future in
      HashMap.insert-All Good k _ m
        (All-append (λ y. P y.spot × P y.future) _ (x ∷ [])
          (HashMap.get-All Good Good or_default k m tt (λ v q. q) h) (p, tt))
        h

  cross_spot-All :
      (a : Asset) (fs : List Asset) (m : HashMap (List Arbitrage))
      → P a
      → All P fs
      → AllPairs m
      → AllPairs (cross_spot a fs m)
  unfolding cross_spot
  cross_spot-All a [] m p q h = h
  cross_spot-All a (f ∷ fs) m p q h =
      cross_spot-All a fs _ p q.1 (push_arbitrage-All a.symbol _ m (p, q.0) h)

  cross_spots-All :
      (ss fs : List Asset) (m : HashMap (List Arbitrage))
      → All P ss
      → All P fs
      → AllPairs m
      → AllPairs (cross_spots ss fs m)
  unfolding cross_spots
  cross_spots-All [] fs m p q h = h
  cross_spots-All (a ∷ ss) fs m p q h =
      cross_spots-All ss fs _ p.1 q (cross_spot-All a fs m p.0 q h)

  assets_of-All :
      (spot : Bool) (xs : List Listed) → All (λ x. P x.asset) xs → All P (assets_of spot xs)
  unfolding assets_of
  assets_of-All spot [] h = tt
  assets_of-All spot (x ∷ xs) h =
      let rest = assets_of-All spot xs h.1 in
      elim x.market
        as (λ m. All P (elim m [
          | MarketType.spot ↦ if spot then x.asset ∷ assets_of spot xs else assets_of spot xs
          | MarketType.future ↦ if spot then assets_of spot xs else x.asset ∷ assets_of spot xs
        ])) [
          | MarketType.spot ↦ if_elim (All P) spot _ _ (h.0, rest) rest
          | MarketType.future ↦ if_elim (All P) spot _ _ rest (h.0, rest)
        ]

  cross_entries-All :
      (es : BTreeMap String (List Listed)) (m : HashMap (List Arbitrage))
      → Entries es
      → AllPairs m
      → AllPairs (cross_entries es m)
  unfolding cross_entries
  cross_entries-All [] m p h = h
  cross_entries-All ((base, xs) ∷ rest) m p h =
      cross_entries-All rest _ p.1
        (cross_spots-All _ _ m (assets_of-All true xs p.0) (assets_of-All false xs p.0) h)

  -- What holds of all assets of the exchanges holds of the assets of the pairs.
  pub cross_assets-All :
      (es : List Exchange) → All (λ e. AllAssets P e.assets) es → AllPairs (cross_assets es)
  unfolding cross_assets
  cross_assets-All es h = cross_entries-All _ [] (list_exchanges-All es [] h tt) tt
