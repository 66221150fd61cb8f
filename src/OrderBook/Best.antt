-- ===== src/OrderBook/Best.antt =====
-- `get_price` of src/utils/exchange.rs: the entry of a side that stands first.
use arbexpert_backend.Base.{
  ◌≡◌, false, Option, none, some, List, [], ◌∷◌, Ordering, arith, ◌⊎◌, All,
}
use arbexpert_backend.Std.BTreeMap.{Ord, BTreeMap, reverse, reverse_ord, get, IsSorted, first_below}
use arbexpert_backend.Decimal.{Decimal, decimal_ord, eq}
use arbexpert_backend.OrderBook.{OrderBookUpdate, empty_book}
use arbexpert_backend.OrderBook.Update.{
  bid_at, ask_at, apply_all, apply_all-IsBook, empty_book-IsBook,
}

-- `none` is the panic of `expect("no price")` on an empty side.
unfoldable pub get_price : {K V : Type 0} → BTreeMap K V → Option (K × V)
get_price [] = none
get_price (e ∷ m) = some e

module _ {D : Type 0} ⦃d : Decimal D⦄ where
  get_price-first :
      {K : Type 0} ⦃o : Ord K⦄ (i j : K) (v w : D) (m : BTreeMap K D)
      → IsSorted m
      → get_price m ≡ some (i, w)
      → get j m ≡ some v
      → (o.cmp i j ≡ Ordering.lt) ⊎ (i ≡ j)
  unfolding get_price
  get_price-first i j v w [] s e h = cc
  get_price-first i j v w ((k, x) ∷ m) s e h = ground (arith, first_below k j x v m s)

  get_price-nonzero :
      {K : Type 0} (i : K) (w : D) (m : BTreeMap K D)
      → All (λ e. eq e.1 d.nil ≡ false) m
      → get_price m ≡ some (i, w)
      → eq w d.nil ≡ false
  unfolding get_price
  get_price-nonzero i w [] s e = cc
  get_price-nonzero i w ((k, x) ∷ m) s e = ground (arith, s.0)

  -- Whatever updates built the book from the empty one: where `get_price` of the asks returns a
  -- level, its quantity is not zero, and every price that has a level among the asks is not below
  -- its price.
  pub get_price_lowest_ask :
      (us : List (OrderBookUpdate D)) (p q p' q' : D)
      → get_price (apply_all us empty_book).asks ≡ some (p, q)
      → ask_at p' (apply_all us empty_book) ≡ some q'
      → (eq q d.nil ≡ false) × ((d.order.cmp p p' ≡ Ordering.lt) ⊎ (p ≡ p'))
  get_price_lowest_ask us p q p' q' e h =
      let b = apply_all-IsBook us empty_book empty_book-IsBook in
      (get_price-nonzero p q _ b.asks_nonzero e, get_price-first p p' q' q _ b.asks_sorted e h)

  -- Whatever updates built the book from the empty one: where `get_price` of the bids returns a
  -- level, its quantity is not zero, and every price that has a level among the bids is not above
  -- its price.
  pub get_price_highest_bid :
      (us : List (OrderBookUpdate D)) (p q p' q' : D)
      → get_price (apply_all us empty_book).bids ≡ some (reverse p, q)
      → bid_at p' (apply_all us empty_book) ≡ some q'
      → (eq q d.nil ≡ false) × ((d.order.cmp p' p ≡ Ordering.lt) ⊎ (reverse p ≡ reverse p'))
  get_price_highest_bid us p q p' q' e h =
      let b = apply_all-IsBook us empty_book empty_book-IsBook in
      (
        get_price-nonzero (reverse p) q _ b.bids_nonzero e,
        get_price-first (reverse p) (reverse p') q' q _ b.bids_sorted e h,
      )
