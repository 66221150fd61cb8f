-- ===== src/Workers/Watched.antt =====
-- `cross_assets_all_exchanges` of src/main.rs as a whole: the guard by `started`, the pairs of
-- Workers/Crossing, and a request for each of them. A request is the symbol that it is for; its
-- items are those of the symbol.
pub mod Requests
use arbexpert_backend.Base.{
  ℕ, String, Bool, true, false, Option, none, some, List, [], ◌∷◌, ◌++◌, if◌then◌else◌,
}
use arbexpert_backend.Std.HashMap.{HashMap}
use arbexpert_backend.Startup.{Assets}
use arbexpert_backend.Workers.{GlobalState, monitor_symbol}
use arbexpert_backend.Workers.Crossing.{Exchange, Arbitrage, cross_assets}

-- The rest of `GlobalState`: the pairs that are watched, and whether the watching was started.
pub record Server : Type 0 where
  pub workers : GlobalState
  pub arbitrages : List Arbitrage
  pub started : Bool

-- An exchange as `setup_exchanges` returns it: its name, and its assets if they could be loaded.
pub record Opened : Type 0 where
  pub name : String
  pub assets : Option Assets

-- `exchange.assets().unwrap()` in the loop over the exchanges; `none` is the panic.
unfoldable pub unwrap_assets : List Opened → Option (List Exchange)
unwrap_assets [] = some []
unwrap_assets (o ∷ os) = elim o.assets [
  | none ↦ none
  | some assets ↦ elim (unwrap_assets os) [
    | none ↦ none
    | some es ↦ some (record { name = o.name; assets = assets } ∷ es)
  ]
]

-- A turn of the last loop.
unfoldable pub watch_entry : ℕ → String → List Arbitrage → Server → Server
watch_entry cpus key items s = record s {
  workers = (monitor_symbol cpus key s.workers).0;
  arbitrages = s.arbitrages ++ items;
}

unfoldable pub watch_entries : ℕ → HashMap (List Arbitrage) → Server → Server
watch_entries cpus [] s = s
watch_entries cpus ((key, items) ∷ rest) s = watch_entries cpus rest (watch_entry cpus key items s)

-- The whole: the state, and whether it returns; otherwise it panics. `arrange` is the order in which
-- the last loop meets the entries of the map of pairs, which `HashMap` does not promise.
unfoldable pub cross_assets_all_exchanges :
    (HashMap (List Arbitrage) → HashMap (List Arbitrage)) → ℕ → List Opened → Server → Server × Bool
cross_assets_all_exchanges arrange cpus exchanges s =
    if s.started then (s, true) else (elim (unwrap_assets exchanges) [
      | none ↦ (record s { started = true }, false)
      | some es ↦
          (watch_entries cpus (arrange (cross_assets es)) (record s { started = true }), true)
    ])
