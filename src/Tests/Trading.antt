-- ===== src/Tests/Trading.antt =====
-- The theorems on the matchers, the monitor, the account and the catch of orders at small inputs.
use arbexpert_backend.Base.{
  String, ℕ, ◌≡◌, ◌≢◌, refl, Option, true, false, none, some, List, [], ◌∷◌, arith,
}
use arbexpert_backend.Std.BTreeMap
use arbexpert_backend.Std.Text.{contains}
use arbexpert_backend.OrderBook.{OrderBook}
use arbexpert_backend.OrderBook.Best.{get_price}
use arbexpert_backend.Arbitrage.{
  ExitRequest, find_max_price, search_max, skip_below, out_of_fuel, to_levels,
}
use arbexpert_backend.Arbitrage.Exit.{do_exit_arbitrage}
use arbexpert_backend.Arbitrage.Limit.{Meets, find_max_price-Meets}
use arbexpert_backend.Arbitrage.Ending.{exit_ends}
use arbexpert_backend.Monitor.{
  ArbitrageSnapshot, default_snapshot, percent_over, front, merge_front, detect_arbitrage,
}
use arbexpert_backend.Monitor.Snapshots.{Call, detect_all, latest, Shows, detect_all-Shows}
use arbexpert_backend.Account.{Order, TimedOrder, SharedState, order_exists, insert_order}
use arbexpert_backend.Account.Orders.{InOrder, Distinct, IsHistory, insert_order-IsHistory}
use arbexpert_backend.OrderCatch.{new_state, next_end}
use arbexpert_backend.OrderCatch.Delivery.{receive_all, next_delivers}
use arbexpert_backend.Tests.{nat_decimal, nat_float}

abbrev spot_side : List (ℕ × ℕ)
spot_side = (100, 2) ∷ (101, 5) ∷ []

abbrev future_side : List (ℕ × ℕ)
future_side = (250, 3) ∷ (240, 3) ∷ []

find_max_price-Meets_example :
    Meets nat_float 0 spot_side future_side (record { spot = 100; future = 240 })
unfolding find_max_price search_max skip_below
find_max_price-Meets_example =
    find_max_price-Meets nat_float 0 spot_side future_side (record { spot = 100; future = 240 })
      refl

abbrev exit_request : ExitRequest ℕ
exit_request = record {
  spot_orders = (250, 2) ∷ (240, 5) ∷ [];
  future_orders = (100, 3) ∷ (101, 3) ∷ [];
  executed = 4;
  percent = 0;
  contract_size = 100;
}

exit_ends_example : do_exit_arbitrage nat_float 6 exit_request ≢ out_of_fuel
unfolding to_levels
exit_ends_example =
    exit_ends nat_float (λ a. omega arith) (λ a b h. ground arith) exit_request 100 refl
      (λ v. omega arith) 6 ((250, 2) ∷ (240, 5) ∷ []) ((100, 3) ∷ (101, 3) ∷ []) refl refl
      (refl, (refl, tt)) (refl, (refl, tt)) (omega arith)

abbrev spot_book : OrderBook ℕ
spot_book = record { bids = (BTreeMap.reverse 99, 5) ∷ []; asks = (100, 4) ∷ []; update_id = 7 }

abbrev future_book : OrderBook ℕ
future_book = record { bids = (BTreeMap.reverse 140, 5) ∷ []; asks = (141, 4) ∷ []; update_id = 9 }

abbrev spot_call : Call ℕ
spot_call = record { symbol = "BTC/USDT"; answer = some spot_book }

abbrev future_call : Call ℕ
future_call = record { symbol = "BTC/USDT:USDT"; answer = some future_book }

abbrev to_json : ArbitrageSnapshot ℕ → Option ℕ
to_json s = some s.entry_percent

abbrev after_spot : ArbitrageSnapshot ℕ
after_spot = record {
  base = "";
  quote = "";
  spot_ask = 100;
  spot_bid = 99;
  future_ask = 0;
  future_bid = 0;
  future_bid_qty = 0;
  entry_percent = 0;
  exit_percent = 0;
}

abbrev after_both : ArbitrageSnapshot ℕ
after_both = record after_spot {
  future_ask = 141;
  future_bid = 140;
  future_bid_qty = 5;
  entry_percent = 4000;
}

detect_all-Shows_example :
    Shows to_json
      (latest to_json false (spot_call ∷ future_call ∷ []) none)
      (latest to_json true (spot_call ∷ future_call ∷ []) none)
      after_both
unfolding detect_all detect_arbitrage front get_price merge_front default_snapshot percent_over
    contains
detect_all-Shows_example =
    detect_all-Shows to_json refl (spot_call ∷ future_call ∷ []) after_both refl

abbrev order : Order ℕ
order = record {
  id = "a1";
  symbol = "BTC/USDT";
  side = "buy";
  amount = 2;
  price = 100;
  status = "closed";
  timestamp = 1;
  filled = 2;
  remaning = 0;
}

abbrev timed : TimedOrder ℕ
timed = record { order = order; inserted_at = 10 }

abbrev account : SharedState ℕ
account = record {
  actual_balance = record { spot = ("USDT", 800) ∷ []; future = [] };
  temporary_balance = record { spot = ("USDT", 1000) ∷ []; future = [] };
  orders = timed ∷ [];
}

insert_order-IsHistory_example :
    IsHistory 40000000000
      (insert_order (λ s. s) 40000000000 (record order { id = "a2" }) account).orders
unfolding InOrder Distinct order_exists
insert_order-IsHistory_example =
    insert_order-IsHistory (λ s. s) 10 40000000000 (record order { id = "a2" }) account
      (omega arith)
      (record {
        in_order = (omega arith, (tt, tt));
        distinct = (refl, tt);
        fresh = (omega arith, tt);
      })

next_delivers_example :
    next_end 1 (receive_all ("a1" ∷ "a2" ∷ "a3" ∷ []) (new_state {O = String}))
    ≡ record { orders = "a2" ∷ "a3" ∷ []; nonce = 3 }
next_delivers_example = next_delivers 1 ("a1" ∷ "a2" ∷ "a3" ∷ []) (omega arith)
