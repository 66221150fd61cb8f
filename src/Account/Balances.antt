-- ===== src/Account/Balances.antt =====
-- `apply_order` of src/base/exchange/account.rs, through `simulate_order`.
use arbexpert_backend.Base.{
  String, ◌≡◌, ◌⊎◌, inl, inr, subst, Bool-cases, Bool, true, false, none, some, str_eq, eq_iff,
  if◌then◌else◌, arith,
}
use arbexpert_backend.Std.HashMap
use arbexpert_backend.Std.HashMap.{HashMap}
use arbexpert_backend.Decimal.{Decimal}
use arbexpert_backend.Symbol.{is_future_symbol}
use arbexpert_backend.Account.{
  Balance, OrderRequest, SharedState, apply_side, apply_entry, apply_order, simulate_order,
}

module _ {D : Type 0} ⦃d : Decimal D⦄ where
  -- What an account has of a currency in a market: nothing where there is no entry.
  abbrev pub held : HashMap D → String → D
  held m currency = elim (HashMap.get currency m) [ none ↦ d.nil | some v ↦ v ]

  abbrev pub balance_of : Bool → String → Balance D → D
  balance_of true currency b = held b.future currency
  balance_of false currency b = held b.spot currency

module _ {D : Type 0} ⦃d : Decimal D⦄ (to_lowercase : String → String) where
  -- The opposite sides of a trade.
  abbrev pub Opposite : OrderRequest D → OrderRequest D → Type 0
  Opposite o p =
      ((to_lowercase o.side ≡ "buy") × (to_lowercase p.side ≡ "sell"))
      ⊎ ((to_lowercase o.side ≡ "sell") × (to_lowercase p.side ≡ "buy"))

  held-apply_entry :
      (b : Bool) (o : OrderRequest D) (m : HashMap D) (currency : String)
      → held (apply_entry to_lowercase b o m) currency ≡ (
          if str_eq "USDT" currency
          then apply_side b (to_lowercase o.side) (d.mul o.amount o.price) (held m "USDT")
          else held m currency)
  unfolding apply_entry
  held-apply_entry b o m currency = ground (
    arith,
    HashMap.get-insert currency "USDT"
        (apply_side b (to_lowercase o.side) (d.mul o.amount o.price) (held m "USDT")) m,
  )

  -- Adding the value and subtracting it cancel on this balance.
  abbrev pub Cancels : D → D → Type 0
  Cancels v a = (d.add (d.sub a v) v ≡ a) × (d.sub (d.add a v) v ≡ a)

  apply_side-twice :
      (b : Bool) (o p : OrderRequest D) (v entry : D)
      → Opposite o p
      → Cancels v entry
      → apply_side b (to_lowercase p.side) v (apply_side b (to_lowercase o.side) v entry) ≡ entry
  unfolding apply_side
  apply_side-twice true o p v entry (inl h) k = rw (h.0, h.1) k.1
  apply_side-twice true o p v entry (inr h) k = rw (h.0, h.1) k.0
  apply_side-twice false o p v entry (inl h) k = rw (h.0, h.1) k.0
  apply_side-twice false o p v entry (inr h) k = rw (h.0, h.1) k.1

  held-twice :
      (b : Bool) (currency : String) (o p : OrderRequest D) (m : HashMap D)
      → d.mul o.amount o.price ≡ d.mul p.amount p.price
      → Opposite o p
      → Cancels (d.mul o.amount o.price) (held m "USDT")
      → held (apply_entry to_lowercase b p (apply_entry to_lowercase b o m)) currency
        ≡ held m currency
  held-twice b currency o p m v h k = ground (
    arith,
    held-apply_entry b p (apply_entry to_lowercase b o m) currency,
    held-apply_entry b o m currency,
    held-apply_entry b o m "USDT",
    eq_iff "USDT" currency,
    eq_iff "USDT" "USDT",
    apply_side-twice b o p (d.mul o.amount o.price) (held m "USDT") h k,
  )

  -- Where adding and subtracting the orders' value cancel on the balance, without loss of digits: two
  -- simulated orders of one value and opposite sides, in one market, leave every temporary balance
  -- of both markets as it was.
  pub simulate_order_twice :
      (b : Bool) (currency : String) (o p : OrderRequest D) (s : SharedState D)
      → is_future_symbol o.symbol ≡ is_future_symbol p.symbol
      → d.mul o.amount o.price ≡ d.mul p.amount p.price
      → Opposite o p
      → Cancels
          (d.mul o.amount o.price)
          (balance_of (is_future_symbol o.symbol) "USDT" s.temporary_balance)
      → balance_of b currency
          (simulate_order to_lowercase p (simulate_order to_lowercase o s)).temporary_balance
        ≡ balance_of b currency s.temporary_balance
  unfolding simulate_order apply_order
  simulate_order_twice b currency o p s m v h k = elim (Bool-cases (is_future_symbol o.symbol)) [
    | inl e ↦
        future b
          (subst (λ x. Cancels (d.mul o.amount o.price) (balance_of x "USDT" s.temporary_balance)) e
            k)
          e
    | inr e ↦
        spot b
          (subst (λ x. Cancels (d.mul o.amount o.price) (balance_of x "USDT" s.temporary_balance)) e
            k)
          e
  ]
    where
      after : Balance D
      after = (simulate_order to_lowercase p (simulate_order to_lowercase o s)).temporary_balance

      future :
          (b : Bool)
          → Cancels (d.mul o.amount o.price) (held s.temporary_balance.future "USDT")
          → is_future_symbol o.symbol ≡ true
          → balance_of b currency after ≡ balance_of b currency s.temporary_balance
      future true k e =
          ground (arith, e, m, held-twice true currency o p s.temporary_balance.future v h k)
      future false k e = ground (arith, e, m)

      spot :
          (b : Bool)
          → Cancels (d.mul o.amount o.price) (held s.temporary_balance.spot "USDT")
          → is_future_symbol o.symbol ≡ false
          → balance_of b currency after ≡ balance_of b currency s.temporary_balance
      spot true k e = ground (arith, e, m)
      spot false k e =
          ground (arith, e, m, held-twice false currency o p s.temporary_balance.spot v h k)
