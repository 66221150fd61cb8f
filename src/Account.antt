-- ===== src/Account.antt =====
-- src/base/exchange/account.rs: the balances of an account and the orders that changed them.
-- Each method holds the mutex from its first line to its end, so it is one function on the state.
-- An `Instant` is a number of nanoseconds; the credentials are only handed out, and are left out.
pub mod Orders
pub mod Balances
use arbexpert_backend.Base.{
  ℕ, String, ◌-◌, Bool, true, false, ◌||◌, Option, none, some, List, [], ◌∷◌, ◌++◌, map, ltb,
  str_eq, if◌then◌else◌,
}
use arbexpert_backend.Std.HashMap
use arbexpert_backend.Std.HashMap.{HashMap}
use arbexpert_backend.Decimal.{Decimal}
use arbexpert_backend.Symbol.{is_future_symbol}

pub record Balance (D : Type 0) : Type 0 where
  pub spot : HashMap D
  pub future : HashMap D

-- src/base/exchange/order.rs.
pub record Order (D : Type 0) : Type 0 where
  pub id : String
  pub symbol : String
  pub side : String
  pub amount : D
  pub price : D
  pub status : String
  pub timestamp : ℕ
  pub filled : D
  pub remaning : D

pub record OrderRequest (D : Type 0) : Type 0 where
  pub symbol : String
  pub side : String
  pub amount : D
  pub price : D

pub record TimedOrder (D : Type 0) : Type 0 where
  pub order : Order D
  pub inserted_at : ℕ

pub record SharedState (D : Type 0) : Type 0 where
  pub actual_balance : Balance D
  pub temporary_balance : Balance D
  pub orders : List (TimedOrder D)

-- `Duration::from_secs(30)`.
abbrev pub max_age : ℕ
max_age = 30000000000

abbrev pub default_state : {D : Type 0} → SharedState D
default_state = record {
  actual_balance = record { spot = []; future = [] };
  temporary_balance = record { spot = []; future = [] };
  orders = [];
}

module _ {D : Type 0} where
  unfoldable pub order_exists : List (TimedOrder D) → String → Bool
  order_exists [] id = false
  order_exists (o ∷ os) id = str_eq o.order.id id || order_exists os id

  -- The `while let`: the orders at the front that are older than the limit go.
  -- `now.duration_since(t)` is zero if `t` is later.
  unfoldable pub clean_up : ℕ → List (TimedOrder D) → List (TimedOrder D)
  clean_up now [] = []
  clean_up now (o ∷ os) =
      let rest = clean_up now os in if ltb max_age (now - o.inserted_at) then rest else o ∷ os

  unfoldable pub get_orders : SharedState D → List (Order D)
  get_orders s = map (λ t. t.order) s.orders

  unfoldable pub get_actual_balance : SharedState D → Balance D
  get_actual_balance s = s.actual_balance

  unfoldable pub get_temporary_balance : SharedState D → Balance D
  get_temporary_balance s = s.temporary_balance

  unfoldable pub reset_temporary_balance : SharedState D → SharedState D
  reset_temporary_balance s = record s { temporary_balance = s.actual_balance }

module _ {D : Type 0} ⦃d : Decimal D⦄ where
  -- The two `match`es on the side: what the entry becomes.
  unfoldable pub apply_side : Bool → String → D → D → D
  apply_side true side value entry =
      if str_eq side "sell"
      then d.sub entry value
      else if str_eq side "buy"
      then d.add entry value
      else entry
  apply_side false side value entry =
      if str_eq side "buy"
      then d.sub entry value
      else if str_eq side "sell"
      then d.add entry value
      else entry

-- `to_lowercase` of `str` is an argument.
module _ {D : Type 0} ⦃d : Decimal D⦄ (to_lowercase : String → String) where
  -- `entry("USDT").or_default()`, changed in place.
  unfoldable pub apply_entry : Bool → OrderRequest D → HashMap D → HashMap D
  apply_entry is_future order m =
      let entry : D = elim (HashMap.get "USDT" m) [ none ↦ d.nil | some v ↦ v ] in
      HashMap.insert "USDT"
        (apply_side is_future (to_lowercase order.side) (d.mul order.amount order.price) entry) m

  unfoldable pub apply_order : Balance D → OrderRequest D → Balance D
  apply_order balance order =
      if is_future_symbol order.symbol
      then record balance { future = apply_entry true order balance.future }
      else record balance { spot = apply_entry false order balance.spot }

  unfoldable pub simulate_order : OrderRequest D → SharedState D → SharedState D
  simulate_order order s = record s { temporary_balance = apply_order s.temporary_balance order }

  abbrev pub request_of : Order D → OrderRequest D
  request_of o = record { symbol = o.symbol; side = o.side; amount = o.amount; price = o.price }

  unfoldable pub insert_order : ℕ → Order D → SharedState D → SharedState D
  insert_order now order s =
      let kept = clean_up now s.orders in
      if order_exists kept order.id then record s { orders = kept } else record s {
        orders = kept ++ record { order = order; inserted_at = now } ∷ [];
        actual_balance = apply_order s.actual_balance (request_of order);
      }
