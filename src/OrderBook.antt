-- ===== src/OrderBook.antt =====
-- src/base/exchange/order.rs: the order book and the update that an exchange sends for it.
pub mod Levels
pub mod Update
pub mod Best
use arbexpert_backend.Base.{
  ℕ, ◌≡◌, Bool, true, false, Option, none, some, List, [], ◌∷◌, ◌++◌, Ordering, ltb, ◌||◌, length,
  if◌then◌else◌, inc64,
}
use arbexpert_backend.Std.BTreeMap.{
  BTreeMap, Ord, Reverse, reverse, reverse_ord, get, insert, remove,
}
use arbexpert_backend.Decimal.{Decimal, decimal_ord, eq}

pub record OrderBook (D : Type 0) : Type 0 where
  pub bids : BTreeMap (Reverse D) D
  pub asks : BTreeMap D D
  pub update_id : ℕ

pub record OrderBookUpdate (D : Type 0) : Type 0 where
  pub bids : List (D × D)
  pub asks : List (D × D)
  pub first_update_id : ℕ
  pub last_update_id : ℕ
  pub full : Bool

-- `OrderBook::default()`.
abbrev pub empty_book : {D : Type 0} → OrderBook D
empty_book = record { bids = []; asks = []; update_id = 0 }

-- The two messages that `apply_update` can push, with the price that they print.
pub data Failure (D : Type 0) : Type 0 where
  removal_bid_failed : D → Failure D
  removal_ask_failed : D → Failure D

module _ {D : Type 0} ⦃d : Decimal D⦄ where
  -- The body of either loop: `key` is `Reverse` for the bids and the price itself for the asks.
  module _ {K : Type 0} ⦃o : Ord K⦄ (key : D → K) (failed : D → Failure D) where
    unfoldable pub apply_level : D → D → BTreeMap K D → BTreeMap K D × List (Failure D)
    apply_level price qty m =
        if eq qty d.nil
        then (
          remove (key price) m,
          elim (get (key price) m) [ none ↦ failed price ∷ [] | some q ↦ [] ],
        )
        else (insert (key price) qty m, [])

    unfoldable pub apply_levels : List (D × D) → BTreeMap K D → BTreeMap K D × List (Failure D)
    apply_levels [] m = (m, [])
    apply_levels ((price, qty) ∷ rest) m =
        let (m', f) = apply_level price qty m in
        let (m'', fs) = apply_levels rest m' in (m'', f ++ fs)

  -- Some side of the update has an entry.
  abbrev pub has_levels : OrderBookUpdate D → Bool
  has_levels u = ltb 0 (length u.bids) || ltb 0 (length u.asks)

  abbrev pub next_update_id : OrderBookUpdate D → ℕ → ℕ
  next_update_id u id =
      let counted = if has_levels u then inc64 id else id in
      if ltb 0 u.last_update_id then u.last_update_id else counted

  -- The book and what was pushed on `updates`.
  unfoldable pub apply_update : OrderBookUpdate D → OrderBook D → OrderBook D × List (Failure D)
  apply_update u b =
      let bids = if u.full then [] else b.bids in
      let asks = if u.full then [] else b.asks in
      let (bids', fs) = apply_levels reverse removal_bid_failed u.bids bids in
      let (asks', gs) = apply_levels (λ p. p) removal_ask_failed u.asks asks in
      (record { bids = bids'; asks = asks'; update_id = next_update_id u b.update_id }, fs ++ gs)

  unfoldable pub get_bids : OrderBook D → List (Reverse D × D)
  get_bids b = b.bids

  unfoldable pub get_asks : OrderBook D → List (D × D)
  get_asks b = b.asks
