-- ===== src/Monitor.antt =====
-- `detect_arbitrage` of src/worker/monitor.rs, and the snapshot of src/main.rs that it keeps. The
-- two tasks of a pair, one for each market, take turns on the one snapshot: between the await of
-- `watch_orderbook` and the end of the function there is no other await.
pub mod Snapshots
pub mod Notices
pub mod Tasks
use arbexpert_backend.Base.{
  ℕ, String, Bool, true, false, not, ◌&&◌, ◌||◌, Option, none, some, if◌then◌else◌,
}
use arbexpert_backend.Std.BTreeMap.{unreverse}
use arbexpert_backend.Decimal.{Decimal, lt, gt, eq}
use arbexpert_backend.OrderBook.{OrderBook}
use arbexpert_backend.OrderBook.Best.{get_price}
use arbexpert_backend.Symbol.{is_future_symbol}

pub record ArbitrageSnapshot (D : Type 0) : Type 0 where
  pub base : String
  pub quote : String
  pub spot_ask : D
  pub spot_bid : D
  pub future_ask : D
  pub future_bid : D
  pub future_bid_qty : D
  pub entry_percent : D
  pub exit_percent : D

-- What a call leaves in `arbitrage.snapshot`, and the text that it broadcasts, if any.
pub record Detected (D J : Type 0) : Type 0 where
  pub stored : ArbitrageSnapshot D
  pub sent : Option J

-- The prices of a book at the front of its sides: the ask, the bid and the bid's quantity.
pub record Front (D : Type 0) : Type 0 where
  pub ask : D
  pub bid : D
  pub bid_qty : D

module _ {D : Type 0} ⦃d : Decimal D⦄ where
  unfoldable pub default_snapshot : ArbitrageSnapshot D
  default_snapshot = record {
    base = "";
    quote = "";
    spot_ask = d.nil;
    spot_bid = d.nil;
    future_ask = d.nil;
    future_bid = d.nil;
    future_bid_qty = d.nil;
    entry_percent = d.nil;
    exit_percent = d.nil;
  }

  -- How far `sell` stands above `buy`, in percent with two places.
  unfoldable pub percent_over : D → D → D
  percent_over sell buy =
      d.trunc_with_scale
        (if not (eq buy d.nil) then d.mul (d.div (d.sub sell buy) buy) (d.new 100 0) else d.nil) 2

  -- `none` is the panic of `get_price`.
  unfoldable pub front : OrderBook D → Option (Front D)
  front book = elim (get_price book.asks) [
    | none ↦ none
    | some a ↦ elim (get_price book.bids) [
      | none ↦ none
      | some b ↦ some (record { ask = a.0; bid = unreverse b.0; bid_qty = b.1 })
    ]
  ]

  -- The snapshot of the old one and the book of one market: the other market's prices stay.
  unfoldable pub merge_front : Bool → Front D → ArbitrageSnapshot D → ArbitrageSnapshot D
  merge_front true f old = record {
    base = "";
    quote = "";
    spot_ask = old.spot_ask;
    spot_bid = old.spot_bid;
    future_ask = f.ask;
    future_bid = f.bid;
    future_bid_qty = f.bid_qty;
    entry_percent = percent_over f.bid old.spot_ask;
    exit_percent = percent_over old.spot_bid f.ask;
  }
  merge_front false f old = record {
    base = "";
    quote = "";
    spot_ask = f.ask;
    spot_bid = f.bid;
    future_ask = old.future_ask;
    future_bid = old.future_bid;
    future_bid_qty = old.future_bid_qty;
    entry_percent = percent_over old.future_bid f.ask;
    exit_percent = percent_over f.bid old.future_ask;
  }

  -- `entry_delta > percent || exit_delta > percent`.
  abbrev pub moved : ArbitrageSnapshot D → ArbitrageSnapshot D → Bool
  moved old s =
      gt (d.abs (d.sub s.entry_percent old.entry_percent)) (d.new 5 2)
      || gt (d.abs (d.sub s.exit_percent old.exit_percent)) (d.new 5 2)

  abbrev pub not_first : ArbitrageSnapshot D → Bool
  not_first s =
      gt s.spot_ask d.nil
      && (gt s.spot_bid d.nil && (gt s.future_ask d.nil && gt s.future_bid d.nil))

  abbrev pub is_valid : ArbitrageSnapshot D → Bool
  is_valid s = lt (d.abs s.entry_percent) (d.new 50 0) && lt (d.abs s.exit_percent) (d.new 50 0)

  unfoldable pub need_notification : ArbitrageSnapshot D → ArbitrageSnapshot D → Bool
  need_notification old s = moved old s && (not_first s && is_valid s)

  -- `detect_arbitrage` once `watch_orderbook` has answered: `none` is an error. `to_json` is
  -- `serde_json::to_string` of the arbitrage, as a function of what its snapshot cell holds.
  unfoldable pub detect_arbitrage :
      {J : Type 0}
      → (ArbitrageSnapshot D → Option J)
      → String
      → Option (OrderBook D)
      → ArbitrageSnapshot D
      → Option (Detected D J)
  detect_arbitrage to_json symbol none old =
      some (record { stored = default_snapshot; sent = none })
  detect_arbitrage to_json symbol (some book) old = elim (front book) [
    | none ↦ none
    | some f ↦
        let s = merge_front (is_future_symbol symbol) f old in
        some (record { stored = s; sent = if need_notification old s then to_json old else none })
  ]
