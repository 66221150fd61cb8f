-- ===== src/Feed.antt =====
-- The handlers that keep the order books of an exchange from its messages: what those of Binance
-- and Gate share (src/exchange/binance/public/sub_client.rs, src/exchange/gate/public/sub_client.rs).
-- A handler is cut at its awaits, and each piece is one function to an `Outcome`.
pub mod Subscribe
pub mod Depth
pub mod Sync
pub mod Binance
pub mod Gate
use arbexpert_backend.Base.{
  ℕ, String, Bool, true, false, Option, none, some, List, [], ◌∷◌, ◌&&◌, ◌||◌, ltb, leb, inc64,
  if◌then◌else◌,
}
use arbexpert_backend.Std.HashMap.{HashMap}
use arbexpert_backend.Decimal.{Decimal}
use arbexpert_backend.OrderBook.{OrderBook, OrderBookUpdate, apply_update}
use arbexpert_backend.SubClient.{Shared, set_book}

-- src/base/exchange/assets.rs.
pub data MarketType : Type 0 where
  spot future : MarketType

-- What the accessors of `serde_json` return on a message: the fields "s", "u", "U", "pu", "full",
-- and the sides "a" and "b" as `parse_side` reads them, `none` where one of its steps fails.
pub record Message (D : Type 0) : Type 0 where
  pub text : String
  pub symbol : Option String
  pub last_update_id : Option ℕ
  pub first_update_id : Option ℕ
  pub previous_id : Option ℕ
  pub full : Bool
  pub asks : Option (List (D × D))
  pub bids : Option (List (D × D))

-- How a piece of a handler ends, with the state that it leaves.
pub data Outcome (D S : Type 0) : Type 0 where
  -- The handler returns `Some(())`, or `None` for `false`.
  returns : Bool → S → Outcome D S
  -- It waits for a snapshot for the symbol, its book and the message's first id.
  fetches : String → ℕ → ℕ → S → Outcome D S
  -- It sleeps before the next look at the buffer: symbol, book, snapshot and retries so far.
  sleeps : String → ℕ → OrderBook D → ℕ → S → Outcome D S
  panics : Outcome D S

-- `e?` in a handler: on `None` it returns `None` with the state as it is.
abbrev pub try : {A D S : Type 0} → Option A → S → (A → Outcome D S) → Outcome D S
try none s k = returns false s
try (some a) s k = k a

-- The test that a message does not continue a book with this id.
abbrev pub gap : ℕ → ℕ → ℕ → Bool
gap id first last = ltb (inc64 id) first || ltb last (inc64 id)

module _ {D : Type 0} where
  -- The closure `build_update`.
  abbrev pub build_update : Bool → ℕ → ℕ → Message D → Option (OrderBookUpdate D)
  build_update full last first m = elim m.asks [
    | none ↦ none
    | some asks ↦ elim m.bids [
      | none ↦ none
      | some bids ↦ some (record {
        bids = bids;
        asks = asks;
        first_update_id = first;
        last_update_id = last;
        full = full;
      })
    ]
  ]

  -- The update follows on the snapshot with this id, and is not wholly in it.
  abbrev pub follows : ℕ → OrderBookUpdate D → Bool
  follows id u = leb u.first_update_id (inc64 id) && ltb id u.last_update_id

  -- `position` and `drain`: the buffer from the first update that follows on the snapshot.
  unfoldable pub from_first : ℕ → List (OrderBookUpdate D) → Option (List (OrderBookUpdate D))
  from_first id [] = none
  from_first id (u ∷ us) = if follows id u then some (u ∷ us) else from_first id us

  -- `book.borrow_mut().update_id = id`.
  abbrev pub set_id : ℕ → ℕ → Shared D → Shared D
  set_id r id s = set_book r (record (s.books r) { update_id = id }) s

  -- Both sides cleared, and the id reset to 0.
  abbrev pub cleared : OrderBook D
  cleared = record { bids = []; asks = []; update_id = 0 }
