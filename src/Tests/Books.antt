-- ===== src/Tests/Books.antt =====
-- The books' theorems at concrete updates.
use arbexpert_backend.Base.{ℕ, ◌≡◌, false, some, refl, [], ◌∷◌, ◌⊎◌, Ordering}
use arbexpert_backend.Std.BTreeMap.{reverse, reverse_ord}
use arbexpert_backend.Decimal.{decimal_ord, eq}
use arbexpert_backend.OrderBook.Best.{get_price, get_price_lowest_ask}
use arbexpert_backend.Std.BTreeMap
use arbexpert_backend.OrderBook.{
  OrderBook, OrderBookUpdate, empty_book, apply_update, apply_levels, apply_level,
}
use arbexpert_backend.OrderBook.Levels.{last_write}
use arbexpert_backend.OrderBook.Update.{
  IsBook, empty_book-IsBook, bid_at, ask_at, level_after, apply_update-IsBook, apply_update_levels,
  apply_all,
}
use arbexpert_backend.Tests.{nat_decimal}

-- Two bids and two asks, one of them removed again by a second update.
abbrev pub first_update : OrderBookUpdate ℕ
first_update = record {
  bids = (99, 5) ∷ (98, 7) ∷ [];
  asks = (102, 3) ∷ (101, 4) ∷ [];
  first_update_id = 1;
  last_update_id = 2;
  full = false;
}

abbrev pub second_update : OrderBookUpdate ℕ
second_update = record {
  bids = (98, 0) ∷ (90, 0) ∷ [];
  asks = (101, 0) ∷ (103, 6) ∷ [];
  first_update_id = 3;
  last_update_id = 4;
  full = false;
}

abbrev pub first_book : OrderBook ℕ
first_book = (apply_update first_update empty_book).0

first_book-IsBook : IsBook first_book
first_book-IsBook = apply_update-IsBook first_update empty_book empty_book-IsBook

apply_update-IsBook_example : IsBook (apply_update second_update first_book).0
apply_update-IsBook_example = apply_update-IsBook second_update first_book first_book-IsBook

apply_update_levels_example :
    (bid_at 98 (apply_update second_update first_book).0
      ≡ level_after second_update
          (last_write reverse (reverse 98) second_update.bids)
          (bid_at 98 first_book))
    × (ask_at 98 (apply_update second_update first_book).0
        ≡ level_after second_update
            (last_write (λ x. x) 98 second_update.asks)
            (ask_at 98 first_book))
apply_update_levels_example = apply_update_levels second_update first_book 98 first_book-IsBook

-- The book of both updates.
abbrev second_book : OrderBook ℕ
second_book = apply_all (first_update ∷ second_update ∷ []) empty_book

lowest_ask : get_price second_book.asks ≡ some (102, 3)
unfolding get_price apply_all apply_update apply_levels apply_level BTreeMap.insert BTreeMap.remove
lowest_ask = refl

next_ask : ask_at 103 second_book ≡ some 6
unfolding apply_all apply_update apply_levels apply_level BTreeMap.insert BTreeMap.remove
    BTreeMap.get
next_ask = refl

get_price_lowest_ask_example :
    (eq 3 nat_decimal.nil ≡ false)
    × ((nat_decimal.order.cmp 102 103 ≡ Ordering.lt) ⊎ ◌≡◌ {A = ℕ} 102 103)
get_price_lowest_ask_example =
    get_price_lowest_ask (first_update ∷ second_update ∷ []) 102 3 103 6 lowest_ask next_ask
