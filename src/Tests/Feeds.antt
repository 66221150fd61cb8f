-- ===== src/Tests/Feeds.antt =====
-- The theorems on the feeds at a small stream of updates.
use arbexpert_backend.Base.{
  ℕ, ◌+◌, ◌-◌, ◌≡◌, ◌<◌, ◌⊎◌, refl, String, true, false, Option, none, some, List, [], ◌∷◌, arith,
}
use arbexpert_backend.Std.HashMap
use arbexpert_backend.Std.BTreeMap
use arbexpert_backend.Std.BTreeMap.{reverse_ord}
use arbexpert_backend.Std.HashSet
use arbexpert_backend.Decimal.{decimal_ord}
use arbexpert_backend.OrderBook.{OrderBook, OrderBookUpdate}
use arbexpert_backend.OrderBook.Update.{apply_all}
use arbexpert_backend.SubClient.{Shared}
use arbexpert_backend.Feed.{spot, Message, from_first}
use arbexpert_backend.Feed.Sync.{Splits}
use arbexpert_backend.Feed.Depth.{
  Snapshot, to_book, got, failed, process_gate_depth, process_binance_depth,
}
use arbexpert_backend.Feed.Depth.Laws.{Fresh, GivesUp, gate_depth_exact, binance_depth_finds}
use arbexpert_backend.Feed.Binance.{BinanceFeed}
use arbexpert_backend.Feed.Binance
use arbexpert_backend.Feed.Binance.Laws.{binance_in_step, binance_gap, binance_serves}
use arbexpert_backend.Feed.Gate.{GateFeed}
use arbexpert_backend.Feed.Gate
use arbexpert_backend.Feed.Gate.Laws.{gate_replays, gate_in_step}
use arbexpert_backend.Feed.Gate.Live.{gate_gap, gate_serves}
use arbexpert_backend.Tests.{nat_decimal}

abbrev btc : String
btc = "BTC_USDT"

abbrev update : ℕ → ℕ → OrderBookUpdate ℕ
update first last = record {
  bids = (99, 5) ∷ [];
  asks = (101, 4) ∷ [];
  first_update_id = first;
  last_update_id = last;
  full = false;
}

-- A snapshot with the id 12, and a buffer whose second update follows on it.
abbrev snapshot : OrderBook ℕ
snapshot = record { bids = []; asks = (102, 3) ∷ []; update_id = 12 }

abbrev buffered : List (OrderBookUpdate ℕ)
buffered = update 9 10 ∷ update 11 13 ∷ update 14 14 ∷ []

abbrev following : List (OrderBookUpdate ℕ)
following = update 11 13 ∷ update 14 14 ∷ []

abbrev at_id : ℕ → Shared ℕ
at_id id = record {
  books = λ r. record { bids = []; asks = []; update_id = id };
  next_book = 1;
  subscribed = (btc, 0) ∷ [];
  pending = (btc, 7 ∷ []) ∷ [];
  connecting = [];
  sent = [];
}

abbrev binance : ℕ → BinanceFeed ℕ
binance id = record { shared = at_id id; init = (btc, buffered) ∷ [] }

abbrev gate : ℕ → GateFeed ℕ
gate id = record {
  shared = at_id id;
  init = (btc, buffered) ∷ [];
  backup = (btc, ("first", []) ∷ []) ∷ [];
  history = [];
  breakpoint = none;
  temp = none;
}

abbrev message : ℕ → ℕ → Message ℕ
message first last = record {
  text = "{}";
  symbol = some btc;
  last_update_id = some last;
  first_update_id = some first;
  previous_id = some (first - 1);
  full = false;
  asks = some ((101, 4) ∷ []);
  bids = some ((99, 5) ∷ []);
}

binance_in_step_example :
    Splits 12 buffered following
    × Binance.Laws.Installs 0
        (apply_all following (record snapshot { update_id = 1 }))
        (Binance.look btc 0 snapshot 0 (binance 1))
unfolding HashMap.get from_first
binance_in_step_example =
    binance_in_step btc 0 0 snapshot (binance 1) buffered following (omega arith) refl refl
      (omega arith)
      (
        (omega arith, omega arith, omega arith),
        refl,
        ((omega arith, omega arith, omega arith), refl, (omega arith, omega arith, omega arith)),
      )

binance_serves_example :
    Binance.Laws.Publishes btc 0
      (update 15 17)
      (binance 14)
      (Binance.handle_message spot (message 15 17) (binance 14))
unfolding HashMap.get
binance_serves_example =
    binance_serves (message 15 17) btc 17 15 14 0 (binance 14) refl refl refl refl (omega arith)
      spot (update 15 17) (λ e. refl) (omega arith, omega arith) refl

gate_in_step_example :
    Splits 12 buffered following
    × Gate.Laws.Installs 0 (apply_all following snapshot) (Gate.look btc 0 snapshot 0 (gate 1))
unfolding HashMap.get from_first
gate_in_step_example =
    gate_in_step btc 0 0 snapshot (gate 1) buffered following ("first", []) [] (omega arith) refl
      refl refl (omega arith)
      (
        (omega arith, omega arith, omega arith),
        refl,
        ((omega arith, omega arith, omega arith), refl, (omega arith, omega arith, omega arith)),
      )

abbrev gate_arrives :
    (first last id : ℕ) → Gate.Live.Arrives (message first last) btc last first 0 (gate id)
gate_arrives first last id = record {
  symbol_read = refl;
  last_read = refl;
  first_read = refl;
  found = unfold HashMap.get in refl;
}

nothing_at :
    (p q : ℕ) → BTreeMap.get {V = ℕ} (BTreeMap.reverse p) [] ≡ some q → HashSet.contains p [] ≡ true
unfolding BTreeMap.get
nothing_at p q e = absurd cc

gate_serves_example :
    Gate.Live.Publishes btc 0
      (update 15 17)
      (gate 14)
      (Gate.handle_message spot (message 15 17) (gate 14))
unfolding HashMap.get Gate.or_empty
gate_serves_example =
    gate_serves spot (message 15 17) btc 17 15 0 (gate 14) (gate_arrives 15 17 14) (omega arith)
      (update 15 17) (omega arith) (omega arith) refl
      (record {
        book = record { bids_sorted = tt; asks_sorted = tt; bids_nonzero = tt; asks_nonzero = tt };
        known = record { at = λ p q e. nothing_at p q e };
      })

abbrev served : ℕ → Option (Snapshot ℕ)
served n = some (record { id = 9 + n; bids = []; asks = (102, 3) ∷ [] })

gate_depth_exact_example :
    ((b : OrderBook ℕ) × (i : ℕ) × (i < 5)
      × (process_gate_depth 10 served ≡ got b)
      × Fresh 10 served 0 i b)
    ⊎ ((process_gate_depth 10 served ≡ failed) × GivesUp 10 served 5 0)
gate_depth_exact_example = gate_depth_exact 10 served (omega arith)

binance_depth_finds_example :
    process_binance_depth 3 10 served
    ≡ got (to_book (record { id = 10; bids = []; asks = (102, 3) ∷ [] }))
binance_depth_finds_example =
    binance_depth_finds 10 served 3 1 (record { id = 10; bids = []; asks = (102, 3) ∷ [] })
      (omega arith) refl (omega arith)
      (λ j h. (record { id = 9 + j; bids = []; asks = (102, 3) ∷ [] }, refl, omega (arith, h)))
      (omega arith)
