-- ===== src/Monitor/Notices.antt =====
-- What `detect_arbitrage` broadcasts (src/worker/monitor.rs).
use arbexpert_backend.Base.{
  String, ◌≡◌, refl, subst, Option-cases, Bool, true, false, Option, none, some, List, [], ◌∷◌,
  ◌++◌, arith, inl, inr, All, ◌&&◌, if◌then◌else◌,
}
use arbexpert_backend.Decimal.{Decimal}
use arbexpert_backend.OrderBook.{OrderBook}
use arbexpert_backend.Symbol.{is_future_symbol}
use arbexpert_backend.Monitor.{
  ArbitrageSnapshot, Detected, default_snapshot, front, merge_front, need_notification, moved,
  not_first, is_valid, detect_arbitrage,
}
use arbexpert_backend.Monitor.Snapshots.{Call}

module _ {D J : Type 0} ⦃d : Decimal D⦄ (to_json : ArbitrageSnapshot D → Option J) where
  sent_parts :
      (m n v : Bool) (a s : ArbitrageSnapshot D) (x : Option J) (j : J)
      → ◌≡◌ {A = Option (Detected D J)}
          (some (record { stored = a; sent = if m && (n && v) then x else none }))
          (some (record { stored = s; sent = some j }))
      → (a ≡ s) × ((x ≡ some j) × ((m ≡ true) × ((n ≡ true) × (v ≡ true))))
  sent_parts true true true a s x j e = ground arith
  sent_parts true true false a s x j e = ground arith
  sent_parts true false v a s x j e = ground arith
  sent_parts false n v a s x j e = ground arith

  -- A call that broadcasts has moved a percentage by more than 0.05, to a snapshot that has all four
  -- prices and no percentage of 50 or more. The text is that of the snapshot before, not of this one.
  pub notice_of_old :
      (symbol : String) (answer : Option (OrderBook D)) (old s : ArbitrageSnapshot D) (j : J)
      → detect_arbitrage to_json symbol answer old ≡ some (record { stored = s; sent = some j })
      → (to_json old ≡ some j)
        × ((moved old s ≡ true) × ((not_first s ≡ true) × (is_valid s ≡ true)))
  unfolding detect_arbitrage need_notification
  notice_of_old symbol none old s j e = absurd (ground arith)
  notice_of_old symbol (some book) old s j e = elim (Option-cases (front book)) [
    | inl h ↦ absurd (ground arith)
    | inr (f, h) ↦
        let s' = merge_front (is_future_symbol symbol) f old in
        let p =
          sent_parts (moved old s') (not_first s') (is_valid s') s' s (to_json old) j
            (rw (h, detect_arbitrage, need_notification) at e) in
        (
          p.1.0,
          subst (λ t. (moved old t ≡ true) × ((not_first t ≡ true) × (is_valid t ≡ true))) p.0
              p.1.1,
        )
  ]

  texts : Option J → List J
  texts none = []
  texts (some j) = j ∷ []

  -- The texts that the calls broadcast, in order, up to a panic.
  unfoldable pub notices : List (Call D) → ArbitrageSnapshot D → List J
  unfolding texts
  notices [] s = []
  notices (c ∷ cs) s = elim (detect_arbitrage to_json c.symbol c.answer s) [
    | none ↦ []
    | some o ↦ texts o.sent ++ notices cs o.stored
  ]

  -- The ask of the other market than the given one is still unknown.
  Unseen : Bool → ArbitrageSnapshot D → Type 0
  Unseen true s = s.spot_ask ≡ d.nil
  Unseen false s = s.future_ask ≡ d.nil

  detect-Unseen :
      (b : Bool) (symbol : String) (answer : Option (OrderBook D)) (s : ArbitrageSnapshot D)
      (o : Detected D J)
      → is_future_symbol symbol ≡ b
      → Unseen b s
      → detect_arbitrage to_json symbol answer s ≡ some o
      → (o.sent ≡ none) × Unseen b o.stored
  unfolding detect_arbitrage need_notification merge_front Unseen default_snapshot
  detect-Unseen true symbol none s o h u e = ground arith
  detect-Unseen true symbol (some book) s o h u e = ground (arith, d.order.cmp_refl d.nil)
  detect-Unseen false symbol none s o h u e = ground arith
  detect-Unseen false symbol (some book) s o h u e = ground (arith, d.order.cmp_refl d.nil)

  notices-Unseen :
      (b : Bool) (cs : List (Call D)) (s : ArbitrageSnapshot D)
      → Unseen b s
      → All (λ c. is_future_symbol c.symbol ≡ b) cs
      → notices cs s ≡ []
  unfolding notices texts
  notices-Unseen b [] s u h = refl
  notices-Unseen b (c ∷ cs) s u h =
      elim (Option-cases (detect_arbitrage to_json c.symbol c.answer s)) [
        | inl k ↦ ground (arith, k)
        | inr (o, k) ↦
            let p = detect-Unseen b c.symbol c.answer s o h.0 u k in
            ground (arith, k, p.0, notices-Unseen b cs o.stored p.1 h.1)
      ]

  -- An error of one watch forgets the prices of both markets: whatever calls of a single market's
  -- task follow, with books or errors, none broadcasts.
  pub error_silences :
      (b : Bool) (symbol : String) (cs : List (Call D)) (s : ArbitrageSnapshot D)
      → All (λ c. is_future_symbol c.symbol ≡ b) cs
      → notices (record { symbol = symbol; answer = none } ∷ cs) s ≡ []
  unfolding notices texts detect_arbitrage Unseen default_snapshot
  error_silences true symbol cs s h = notices-Unseen true cs default_snapshot refl h
  error_silences false symbol cs s h = notices-Unseen false cs default_snapshot refl h
