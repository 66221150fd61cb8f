-- ===== src/Workers.antt =====
-- Which worker a symbol goes to: `start_arbitrage`, the last loop of `cross_assets_all_exchanges`,
-- and `on_worker_start` of src/main.rs, on the state of src/worker/state.rs. A worker's channel is its
-- number; a request is the symbol that it is for.
pub mod Assign
pub mod Crossing
pub mod Watched
pub mod Setup
pub mod Pages
pub mod Commands
pub mod Frames
use arbexpert_backend.Base.{
  ℕ, ◌+◌, ◌%◌, String, Bool, true, false, ◌||◌, Option, none, some, List, [], ◌∷◌, ◌++◌, ◌==◌,
  inc32, if◌then◌else◌,
}
use arbexpert_backend.Std.HashMap
use arbexpert_backend.Std.HashMap.{HashMap}
use arbexpert_backend.Std.Text.{replace}

pub record GlobalState : Type 0 where
  pub last_id : ℕ
  pub symbol_map : HashMap ℕ
  pub worker_channels : List ℕ
  pub next_worker : ℕ
  -- The requests that were sent, each with the worker.
  pub sent : List (ℕ × String)

unfoldable pub on_worker_start : GlobalState → GlobalState
on_worker_start s = record s {
  last_id = inc32 s.last_id;
  worker_channels = s.last_id ∷ s.worker_channels;
}

unfoldable pub has_channel : ℕ → List ℕ → Bool
has_channel id [] = false
has_channel id (c ∷ cs) = c == id || has_channel id cs

-- The worker of a symbol: the one that it has, or `fresh`, which is kept.
unfoldable pub assign : ℕ → String → GlobalState → GlobalState × ℕ
assign fresh symbol s = elim (HashMap.get symbol s.symbol_map) [
  | some id ↦ (s, id)
  | none ↦ (
    record s {
      next_worker = inc32 s.next_worker;
      symbol_map = HashMap.insert symbol fresh s.symbol_map;
    },
    fresh,
  )
]

-- The request goes out if the worker has a channel.
unfoldable pub send_to : ℕ → String → GlobalState → GlobalState × Bool
send_to id symbol s =
    if has_channel id s.worker_channels
    then (record s { sent = s.sent ++ (id, symbol) ∷ [] }, true)
    else (s, false)

-- A turn of the last loop of `cross_assets_all_exchanges`; `cpus` is `num_cpus::get()`.
unfoldable pub monitor_symbol : ℕ → String → GlobalState → GlobalState × Bool
monitor_symbol cpus symbol s =
    let r = assign (s.next_worker % cpus) symbol s in send_to r.1 symbol r.0

-- `start_arbitrage`, once the body is read and parsed: `false` is the answer "Worker not found".
unfoldable pub start_arbitrage : String → GlobalState → GlobalState × Bool
start_arbitrage name s =
    let symbol = replace b'-' "/" name in
    let r = assign s.next_worker symbol s in send_to r.1 symbol r.0
