-- ===== src/Tests/Batches.antt =====
-- The theorems on the public web sockets of Mexc at one symbol.
use arbexpert_backend.Base.{
  ℕ, ◌+◌, ◌%◌, ◌^◌, ◌≡◌, refl, String, true, false, some, List, [], ◌∷◌, is_some, ltb, arith,
}
use arbexpert_backend.Std.HashMap
use arbexpert_backend.Std.Text.{starts_with, contains_text, after_last, replace, contains}
use arbexpert_backend.OrderBook.{OrderBookUpdate, empty_book}
use arbexpert_backend.OrderBook.Update.{apply_all}
use arbexpert_backend.Mexc
use arbexpert_backend.Mexc.{
  Item, depths, MexcClient, returns, parse_side, parse_item, depth_channel, handle_binary, register,
  watch, subscribe_new, has_symbol, subscribed_count,
}
use arbexpert_backend.Mexc.Books
use arbexpert_backend.Mexc.Books.{IsKept, mexc_keeps_books, watches}
use arbexpert_backend.Mexc.Sync.{parse_all, changing, stored, mexc_serves}
use arbexpert_backend.Mexc.Pool.{MexcPool, watch_orderbook, watch_new, normalize_symbol, position}
use arbexpert_backend.Mexc.Pool.Room
use arbexpert_backend.Mexc.Pool.Room.{IsRoomy}
use arbexpert_backend.Mexc.Pool.Kept.{no_clients, mexc_pool_keeps}
use arbexpert_backend.Tests.{nat_decimal}

-- The client after the first `watch` of a symbol.
abbrev first_watch : MexcClient ℕ
first_watch = record {
  subscribed = ("BTCUSDT", empty_book) ∷ [];
  pending = ("BTCUSDT", 7 ∷ []) ∷ [];
  sent = [];
}

first_watch_lem : watch "BTCUSDT" 7 true Mexc.new ≡ some (first_watch, true)
unfolding watch register subscribe_new has_symbol Mexc.new HashMap.get HashMap.insert
    HashMap.or_insert
first_watch_lem = refl

mexc_keeps_books_example :
    IsKept first_watch × (is_some (watch "ETHUSDT" 8 true first_watch) ≡ true)
mexc_keeps_books_example =
    mexc_keeps_books first_watch "ETHUSDT" 8 true
      (Books.next Books.here (watches "BTCUSDT" 7 true first_watch true first_watch_lem))

abbrev btc_channel : String
btc_channel = "spot@public.increase.depth.batch.v3.api.pb@BTCUSDT"

abbrev two_items : List (Item ℕ)
two_items =
    record { asks = (some 101, some 5) ∷ []; bids = [] }
    ∷ record { asks = []; bids = (some 99, some 3) ∷ [] }
    ∷ []

abbrev plain : List (ℕ × ℕ) → List (ℕ × ℕ) → OrderBookUpdate ℕ
plain asks bids = record {
  bids = bids;
  asks = asks;
  first_update_id = 0;
  last_update_id = 0;
  full = false;
}

abbrev two_updates : List (OrderBookUpdate ℕ)
two_updates = plain ((101, 5) ∷ []) [] ∷ plain [] ((99, 3) ∷ []) ∷ []

btc_fits : contains_text depth_channel btc_channel ≡ true
unfolding contains_text starts_with
btc_fits = refl

btc_symbol : after_last b'@' btc_channel ≡ "BTCUSDT"
unfolding after_last contains
btc_symbol = refl

mexc_serves_example :
    (handle_binary
        (some (record { channel = btc_channel; body = some (depths two_items) }))
        first_watch
      ≡ returns true (
          stored
            (ltb 0 (changing two_updates))
            (after_last b'@' btc_channel)
            (apply_all two_updates empty_book)
            (7 ∷ [])
            first_watch))
    × ((apply_all two_updates empty_book).update_id ≡ (0 + changing two_updates) % 2 ^ 64)
unfolding HashMap.get after_last contains parse_all parse_item parse_side changing
mexc_serves_example =
    mexc_serves btc_channel two_items two_updates empty_book (7 ∷ []) first_watch btc_fits refl refl
      refl (omega arith) (omega arith)

-- The exchange while the first `watch_orderbook` waits on the client that it made.
abbrev opening_pool : MexcPool ℕ
opening_pool = record {
  sub_clients = [];
  opening = some first_watch;
  pairs = ("BTCUSDT", "BTC/USDT") ∷ [];
}

opening_pool_lem :
    watch_orderbook (λ s. s) "BTC/USDT" 7 true true no_clients ≡ some (opening_pool, true)
unfolding watch_orderbook watch_new normalize_symbol position replace watch register subscribe_new
    has_symbol Mexc.new HashMap.get HashMap.insert HashMap.or_insert
opening_pool_lem = refl

mexc_pool_keeps_example : IsRoomy opening_pool
mexc_pool_keeps_example =
    mexc_pool_keeps (λ s. s) opening_pool
      (Room.next Room.here
        (Room.watches "BTC/USDT" 7 true true opening_pool true refl opening_pool_lem))
