-- ===== src/Tests/Sockets.antt =====
-- The theorems on the web sockets at one connection, and at a private one of Mexc.
use mathlib.Core.List.{Perm}
use arbexpert_backend.Base.{
  ℕ, ◌≤◌, ◌≡◌, refl, length, String, true, false, some, List, [], ◌∷◌, ◌++◌, map,
}
use arbexpert_backend.Std.HashMap
use arbexpert_backend.Std.HashMap.{HashMap}
use arbexpert_backend.Std.Text.{starts_with}
use arbexpert_backend.Account.{Order}
use arbexpert_backend.Socket.{new_ws, is_connected, waits, connect_begin, connect_end, send}
use arbexpert_backend.Socket.Status.{to_repr, try_from}
use arbexpert_backend.Socket.Life.{
  Socket, Reach, here, next, begins, ends, start, send-is_connected, build_error_is_final,
}
use arbexpert_backend.Socket.Loop.{
  Event, ticks, texts, pinged, ext_done, LoopState, ping, pong, goes_on, take_at, on_event, run,
  new_loop,
}
use arbexpert_backend.Socket.Loop.Delivery.{all_replies, all_texts, run_delivers}
use arbexpert_backend.Mexc.Private.{
  PrivateOrder, PrivateWs, leaves, on_binary, catch_orders, on_fail,
}
use arbexpert_backend.Mexc.Private.Catching.{private_order_delivers, catch_orders_stays_silent}
use arbexpert_backend.Tests.{nat_decimal}

-- A client whose call of `connect` has succeeded.
abbrev dialling : Socket
dialling = record { client = record new_ws { status = 0 }; dialling = true }

abbrev joined : Socket
joined = record {
  client = record new_ws {
    status = 1;
    sender = some 0;
    loops = 0 ∷ [];
    next_channel = 1;
    opened = 1;
  };
  dialling = false;
}

joined-Reach : Reach start joined
unfolding connect_begin connect_end to_repr try_from
joined-Reach = next (next here (begins true 7 refl refl)) (ends true refl refl)

send-is_connected_example :
    (send joined.client ≡ is_connected joined.client)
    × (length joined.client.loops ≤ 1)
    × (joined.dialling ≡ true → joined.client.loops ≡ [])
send-is_connected_example = send-is_connected joined joined-Reach

abbrev stuck : Socket
stuck = record { client = (connect_begin false 7 new_ws).0; dialling = false }

build_error_is_final_example :
    (is_connected stuck.client ≡ false) × ((connect_begin true 9 stuck.client).1 ≡ waits)
build_error_is_final_example = build_error_is_final start stuck 7 9 true here refl here

-- A tick, a text, a ping, and the sending of the first of the two replies.
abbrev events : List (Event ℕ)
events = ticks true ∷ texts (some "book") false ∷ pinged 5 ∷ ext_done 0 true ∷ []

abbrev looped : LoopState ℕ
looped = record {
  client_tasks = 0;
  ext_tasks = pong 5 ∷ [];
  texts_handled = "book" ∷ [];
  binaries_handled = [];
  sent = ping 0 ∷ [];
}

events-looped : run 0 events new_loop ≡ goes_on looped
unfolding run on_event take_at
events-looped = refl

run_delivers_example :
    Perm (looped.sent ++ looped.ext_tasks) (all_replies 0 events)
    × (looped.texts_handled ≡ all_texts 0 events)
run_delivers_example = run_delivers 0 events looped events-looped

-- A private socket on which two calls catch the orders of one symbol.
abbrev names : HashMap String
names = ("BTCUSDT", "BTC/USDT") ∷ []

abbrev catching : PrivateWs ℕ
catching = record {
  inited_private_ws = true;
  subscribed_private_orders = true;
  private_last_id = 2;
  private_pending = ("BTCUSDT", (1, 7) ∷ (2, 8) ∷ []) ∷ [];
  subscriptions = 1;
  sent = [];
}

abbrev half_filled : PrivateOrder ℕ
half_filled = record {
  id = "9";
  amount = some 400;
  price = some 100;
  remain_quantity = some 300;
  cumulative_quantity = some 100;
  trade_type = 1;
  status = 2;
}

orders_channel : starts_with "spot@private.orders.v3.api.pb" "spot@private.orders.v3.api.pb" ≡ true
unfolding starts_with
orders_channel = refl

private_order_delivers_example :
    (order : Order ℕ) × (t : PrivateWs ℕ) × (on_binary names
        (some (record {
          symbol = some "BTCUSDT";
          channel = "spot@private.orders.v3.api.pb";
          body = some half_filled;
        }))
        catching
      ≡ leaves t)
    × (t.sent ≡ catching.sent ++ map {A = ℕ × ℕ} (λ e. (e.1, order)) ((1, 7) ∷ (2, 8) ∷ []))
    × ((k : String) → HashMap.get k t.private_pending ≡ HashMap.get k catching.private_pending)
    × (order.id ≡ half_filled.id)
    × (order.symbol ≡ "BTC/USDT")
    × (order.side ≡ "buy")
    × (order.price ≡ 100)
    × (order.amount ≡ 400)
    × (order.status ≡ "open")
    × (order.filled ≡ 300)
    × (order.remaning ≡ 100)
unfolding HashMap.get
private_order_delivers_example =
    private_order_delivers names "BTCUSDT" "BTC/USDT" "spot@private.orders.v3.api.pb" half_filled
      100 300 100 ((1, 7) ∷ (2, 8) ∷ []) catching refl orders_channel refl refl refl refl

catch_orders_stays_silent_example :
    (t : PrivateWs ℕ) × (id : ℕ) × (catch_orders "BTCUSDT" 9 true true (on_fail catching)
      ≡ (t, some id))
    × (t.inited_private_ws ≡ true)
    × (t.subscriptions ≡ 0)
    × (HashMap.get "BTCUSDT" t.private_pending ≡ some ((id, 9) ∷ []))
catch_orders_stays_silent_example = catch_orders_stays_silent "BTCUSDT" 9 true catching refl
