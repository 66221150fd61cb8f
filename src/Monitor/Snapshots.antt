-- ===== src/Monitor/Snapshots.antt =====
-- The snapshots that the tasks of a pair store, over any order of their calls (src/worker/monitor.rs).
use arbexpert_backend.Base.{
  String, ◌≡◌, refl, sym, ap, subst, Option-cases, Bool, true, false, Option, none, some, List, [],
  ◌∷◌, arith, inl, inr, if◌then◌else◌,
}
use arbexpert_backend.Decimal.{Decimal}
use arbexpert_backend.OrderBook.{OrderBook}
use arbexpert_backend.Symbol.{is_future_symbol}
use arbexpert_backend.Monitor.{
  ArbitrageSnapshot, Detected, default_snapshot, percent_over, Front, front, merge_front,
  detect_arbitrage,
}

-- A call of `detect_arbitrage`: its symbol and what `watch_orderbook` answers.
pub record Call (D : Type 0) : Type 0 where
  pub symbol : String
  pub answer : Option (OrderBook D)

module _ {D J : Type 0} ⦃d : Decimal D⦄ (to_json : ArbitrageSnapshot D → Option J) where
  -- The calls, one after the other: the snapshot in the end; `none` if one panics.
  unfoldable pub detect_all : List (Call D) → ArbitrageSnapshot D → Option (ArbitrageSnapshot D)
  detect_all [] s = some s
  detect_all (c ∷ cs) s = elim (detect_arbitrage to_json c.symbol c.answer s) [
    | none ↦ none
    | some o ↦ detect_all cs o.stored
  ]

  -- What a market's last answer is after a call: an error forgets those of both markets.
  abbrev pub after : Bool → Call D → Option (Front D) → Option (Front D)
  after of_future c known = elim c.answer [
    | none ↦ none
    | some book ↦
        if is_future_symbol c.symbol
        then (if of_future then front book else known)
        else if of_future
        then known
        else front book
  ]

  -- The last answer for the market since the last error; `of_future` chooses the market.
  unfoldable pub latest : Bool → List (Call D) → Option (Front D) → Option (Front D)
  latest of_future [] known = known
  latest of_future (c ∷ cs) known = latest of_future cs (after of_future c known)

  -- A number of the front, and zero where there is none.
  abbrev pub at_front : (Front D → D) → Option (Front D) → D
  at_front part none = d.nil
  at_front part (some f) = part f

  -- The prices of the snapshot are those of the two fronts, and its percentages theirs.
  pub record Shows (spot future : Option (Front D)) (s : ArbitrageSnapshot D) : Type 0 where
    pub spot_ask : s.spot_ask ≡ at_front (λ f. f.ask) spot
    pub spot_bid : s.spot_bid ≡ at_front (λ f. f.bid) spot
    pub future_ask : s.future_ask ≡ at_front (λ f. f.ask) future
    pub future_bid : s.future_bid ≡ at_front (λ f. f.bid) future
    pub future_bid_qty : s.future_bid_qty ≡ at_front (λ f. f.bid_qty) future
    pub entry :
        s.entry_percent ≡ percent_over (at_front (λ f. f.bid) future) (at_front (λ f. f.ask) spot)
    pub exit :
        s.exit_percent ≡ percent_over (at_front (λ f. f.bid) spot) (at_front (λ f. f.ask) future)

  merge_front-Shows :
      (b : Bool) (f : Front D) (spot future : Option (Front D)) (old : ArbitrageSnapshot D)
      → Shows spot future old
      → Shows (if b then spot else some f) (if b then some f else future) (merge_front b f old)
  unfolding merge_front
  merge_front-Shows true f spot future old h = record {
    spot_ask = h.spot_ask;
    spot_bid = h.spot_bid;
    future_ask = refl;
    future_bid = refl;
    future_bid_qty = refl;
    entry = ap (percent_over f.bid) h.spot_ask;
    exit = ap (λ x. percent_over x f.ask) h.spot_bid;
  }
  merge_front-Shows false f spot future old h = record {
    spot_ask = refl;
    spot_bid = refl;
    future_ask = h.future_ask;
    future_bid = h.future_bid;
    future_bid_qty = h.future_bid_qty;
    entry = ap (λ x. percent_over x f.ask) h.future_bid;
    exit = ap (percent_over f.bid) h.future_ask;
  }

  module _ (trunc_nil : d.trunc_with_scale d.nil 2 ≡ d.nil) where
    nil_percent : percent_over d.nil d.nil ≡ d.nil
    unfolding percent_over
    nil_percent = ground (arith, d.order.cmp_refl d.nil)

    default-Shows : Shows none none default_snapshot
    unfolding default_snapshot
    default-Shows = record {
      spot_ask = refl;
      spot_bid = refl;
      future_ask = refl;
      future_bid = refl;
      future_bid_qty = refl;
      entry = sym nil_percent;
      exit = sym nil_percent;
    }

    detect-Shows :
        (symbol : String) (answer : Option (OrderBook D)) (spot future : Option (Front D))
        (s : ArbitrageSnapshot D) (o : Detected D J)
        → Shows spot future s
        → detect_arbitrage to_json symbol answer s ≡ some o
        → let c : Call D = record { symbol = symbol; answer = answer } in
          Shows (after false c spot) (after true c future) o.stored
    unfolding detect_arbitrage
    detect-Shows symbol none spot future s o h e =
        subst (Shows none none) (ground arith) default-Shows
    detect-Shows symbol (some book) spot future s o h e = elim (Option-cases (front book)) [
      | inl k ↦ absurd (ground arith)
      | inr (f, k) ↦
          let b = is_future_symbol symbol in
          subst (λ x. Shows (if b then spot else x) (if b then x else future) o.stored) (sym k)
            (subst (Shows _ _) (ground (arith, k)) (merge_front-Shows b f spot future s h))
    ]

    detect_all-keeps :
        (cs : List (Call D)) (spot future : Option (Front D)) (s t : ArbitrageSnapshot D)
        → Shows spot future s
        → detect_all cs s ≡ some t
        → Shows (latest false cs spot) (latest true cs future) t
    unfolding detect_all latest
    detect_all-keeps [] spot future s t h e = subst (Shows spot future) (ground arith) h
    detect_all-keeps (c ∷ cs) spot future s t h e =
        elim (Option-cases (detect_arbitrage to_json c.symbol c.answer s)) [
          | inl k ↦ absurd (ground arith)
          | inr (o, k) ↦
              detect_all-keeps cs _ _ o.stored t
                (detect-Shows c.symbol c.answer spot future s o h k) (ground (arith, k))
        ]

    -- Where truncating zero gives zero: whatever calls the two tasks of a pair make, in whatever
    -- order, and as long as none panics, the stored prices of each market are those of its last
    -- answer since the last error, zero where there is none, and the stored percentages are those
    -- of these prices.
    pub detect_all-Shows :
        (cs : List (Call D)) (s : ArbitrageSnapshot D)
        → detect_all cs default_snapshot ≡ some s
        → Shows (latest false cs none) (latest true cs none) s
    detect_all-Shows cs s e = detect_all-keeps cs none none default_snapshot s default-Shows e
