-- ===== src/OrderBook/Update.antt =====
-- What `OrderBook::apply_update` promises (src/base/exchange/order.rs).
use arbexpert_backend.Base.{
  ◌≡◌, false, Option, none, some, List, [], ◌∷◌, ◌++◌, arith, All, if◌then◌else◌, if_elim, ◌<◌,
}
use arbexpert_backend.Std.BTreeMap.{Ord, reverse, reverse_ord, get, IsSorted}
use arbexpert_backend.Decimal.{Decimal, decimal_ord, eq}
use arbexpert_backend.OrderBook.{
  OrderBook, OrderBookUpdate, empty_book, removal_bid_failed, removal_ask_failed, apply_update,
}
use arbexpert_backend.OrderBook.Levels.{
  last_write, shown, expected_failures, levels-IsSorted, levels-nonzero, levels_lookup,
  levels_failures,
}

module _ {D : Type 0} ⦃d : Decimal D⦄ where
  -- Both sides are ordered, each price stands once, and no level has quantity zero.
  pub record IsBook (b : OrderBook D) : Type 0 where
    pub bids_sorted : IsSorted b.bids
    pub asks_sorted : IsSorted b.asks
    pub bids_nonzero : All (λ e. eq e.1 d.nil ≡ false) b.bids
    pub asks_nonzero : All (λ e. eq e.1 d.nil ≡ false) b.asks

  pub empty_book-IsBook : IsBook empty_book
  empty_book-IsBook = record {
    bids_sorted = tt;
    asks_sorted = tt;
    bids_nonzero = tt;
    asks_nonzero = tt;
  }

  abbrev pub bid_at : D → OrderBook D → Option D
  bid_at p b = get (reverse p) b.bids

  abbrev pub ask_at : D → OrderBook D → Option D
  ask_at p b = get p b.asks

  -- The side that the loop starts from.
  abbrev pub start_of : {K : Type 0} → OrderBookUpdate D → List (K × D) → List (K × D)
  start_of u m = if u.full then [] else m

  pub start-IsSorted :
      {K : Type 0} ⦃o : Ord K⦄ (u : OrderBookUpdate D) (m : List (K × D))
      → IsSorted m
      → IsSorted (start_of u m)
  start-IsSorted u m = if_elim IsSorted u.full [] m tt

  start-nonzero :
      {K : Type 0} (u : OrderBookUpdate D) (m : List (K × D))
      → All (λ e. eq e.1 d.nil ≡ false) m
      → All (λ e. eq e.1 d.nil ≡ false) (start_of u m)
  start-nonzero u m = if_elim (All (λ e. eq e.1 d.nil ≡ false)) u.full [] m tt

  -- Any update, full or not, leads from a well-formed book to a well-formed book.
  pub apply_update-IsBook :
      (u : OrderBookUpdate D) (b : OrderBook D) → IsBook b → IsBook (apply_update u b).0
  unfolding apply_update
  apply_update-IsBook u b h = record {
    bids_sorted = levels-IsSorted _ _ u.bids _ (start-IsSorted u b.bids h.bids_sorted);
    asks_sorted = levels-IsSorted _ _ u.asks _ (start-IsSorted u b.asks h.asks_sorted);
    bids_nonzero = levels-nonzero _ _ u.bids _ (start-nonzero u b.bids h.bids_nonzero);
    asks_nonzero = levels-nonzero _ _ u.asks _ (start-nonzero u b.asks h.asks_nonzero);
  }

  -- The level that a side shows once an update has written `written`, from what it showed before.
  abbrev pub level_after : OrderBookUpdate D → Option D → Option D → Option D
  level_after u (some q) old = shown q
  level_after u none old = if u.full then none else old

  pub get-start :
      {K : Type 0} ⦃o : Ord K⦄ (u : OrderBookUpdate D) (k : K) (m : List (K × D))
      → get k (start_of u m) ≡ (if u.full then none else get k m)
  unfolding get
  get-start u k m = ground arith

  -- Where the book is well formed: after an update each price shows what the update's last entry
  -- for it says, a zero quantity removing it; a price that is not in the update keeps its level,
  -- or loses it if the update is full.
  pub apply_update_levels :
      (u : OrderBookUpdate D) (b : OrderBook D) (p : D)
      → IsBook b
      → (bid_at p (apply_update u b).0
          ≡ level_after u (last_write reverse (reverse p) u.bids) (bid_at p b))
        × (ask_at p (apply_update u b).0
            ≡ level_after u (last_write (λ x. x) p u.asks) (ask_at p b))
  unfolding apply_update
  apply_update_levels u b p h =
      let bids =
        levels_lookup reverse removal_bid_failed (reverse p) u.bids (start_of u b.bids)
          (start-IsSorted u b.bids h.bids_sorted) in
      let asks =
        levels_lookup (λ x. x) removal_ask_failed p u.asks (start_of u b.asks)
          (start-IsSorted u b.asks h.asks_sorted) in
      (
        ground (arith, bids, get-start u (reverse p) b.bids),
        ground (arith, asks, get-start u p b.asks),
      )

  -- Where the book is well formed, applying an update a second time changes no level of it.
  pub apply_update_twice :
      (u : OrderBookUpdate D) (b : OrderBook D) (p : D)
      → IsBook b
      → (bid_at p (apply_update u (apply_update u b).0).0 ≡ bid_at p (apply_update u b).0)
        × (ask_at p (apply_update u (apply_update u b).0).0 ≡ ask_at p (apply_update u b).0)
  apply_update_twice u b p h =
      let once = apply_update_levels u b p h in
      let twice = apply_update_levels u (apply_update u b).0 p (apply_update-IsBook u b h) in
      (ground (arith, once.0, twice.0), ground (arith, once.1, twice.1))

  -- Where the book is well formed: `apply_update` pushes one message for each removal of a price
  -- that has no level when its turn comes, the bids' messages before the asks', and no other
  -- message.
  pub apply_update_failures :
      (u : OrderBookUpdate D) (b : OrderBook D)
      → IsBook b
      → (apply_update u b).1
        ≡ expected_failures reverse removal_bid_failed (λ k. get k (start_of u b.bids)) u.bids
          ++ expected_failures (λ x. x) removal_ask_failed (λ k. get k (start_of u b.asks)) u.asks
  unfolding apply_update
  apply_update_failures u b h = rw (
    levels_failures reverse removal_bid_failed u.bids _ (start-IsSorted u b.bids h.bids_sorted),
    levels_failures (λ x. x) removal_ask_failed u.asks _ (start-IsSorted u b.asks h.asks_sorted),
  )

  -- The book after a run of updates.
  unfoldable pub apply_all : List (OrderBookUpdate D) → OrderBook D → OrderBook D
  apply_all [] b = b
  apply_all (u ∷ us) b = apply_all us (apply_update u b).0

  pub apply_all-IsBook :
      (us : List (OrderBookUpdate D)) (b : OrderBook D) → IsBook b → IsBook (apply_all us b)
  unfolding apply_all
  apply_all-IsBook [] b h = h
  apply_all-IsBook (u ∷ us) b h = apply_all-IsBook us _ (apply_update-IsBook u b h)

  -- An update that carries an id gives it to the book.
  pub update_id-apply_update :
      (u : OrderBookUpdate D) (b : OrderBook D)
      → 0 < u.last_update_id
      → (apply_update u b).0.update_id ≡ u.last_update_id
  unfolding apply_update
  update_id-apply_update u b h = ground arith
