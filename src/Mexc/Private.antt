-- ===== src/Mexc/Private.antt =====
-- The private web socket of Mexc (src/exchange/mexc/private/watch.rs): the handler of its messages and
-- `catch_orders`. The decoder is not part of the repository: what it returns is an argument, with each number
-- as `parse` reads it. The task that `catch_orders` starts is modelled in OrderCatch.
pub mod Catching
use arbexpert_backend.Base.{
  ℕ, ◌+◌, String, Bool, true, false, Option, none, some, List, [], ◌∷◌, ◌++◌, map, ◌==◌, inc32,
  if◌then◌else◌,
}
use arbexpert_backend.Std.HashMap
use arbexpert_backend.Std.HashMap.{HashMap}
use arbexpert_backend.Std.Text.{starts_with}
use arbexpert_backend.Decimal.{Decimal}
use arbexpert_backend.Account.{Order}

-- The body of an order's message; `none` where a `parse` fails.
pub record PrivateOrder (D : Type 0) : Type 0 where
  pub id : String
  pub amount : Option D
  pub price : Option D
  pub remain_quantity : Option D
  pub cumulative_quantity : Option D
  pub trade_type : ℕ
  pub status : ℕ

-- A message; `body` is `none` for a body that is not an order.
pub record Wrapper (D : Type 0) : Type 0 where
  pub symbol : Option String
  pub channel : String
  pub body : Option (PrivateOrder D)

pub record PrivateWs (D : Type 0) : Type 0 where
  pub inited_private_ws : Bool
  pub subscribed_private_orders : Bool
  pub private_last_id : ℕ
  pub private_pending : HashMap (List (ℕ × ℕ))
  -- The subscriptions that the socket in use was sent, and the orders that were sent to the senders.
  pub subscriptions : ℕ
  pub sent : List (ℕ × Order D)

-- How the handler ends.
pub data Outcome (D : Type 0) : Type 0 where
  leaves : PrivateWs D → Outcome D
  panics : Outcome D

unfoldable pub status_text : ℕ → String
status_text n =
    if n == 1
    then "open"
    else if n == 2
    then "open"
    else if n == 3
    then "filled"
    else if n == 4
    then "canceled"
    else "unknown"

module _ {D : Type 0} ⦃d : Decimal D⦄ where
  abbrev pub or_zero : Option D → D
  or_zero none = d.nil
  or_zero (some x) = x

  -- The order of a message, for the name of its symbol; `none` is the panic of an `unwrap`.
  unfoldable pub read_order : String → PrivateOrder D → Option (Order D)
  read_order symbol o = elim o.price [
    | none ↦ none
    | some price ↦ elim o.remain_quantity [
      | none ↦ none
      | some remain ↦ elim o.cumulative_quantity [
        | none ↦ none
        | some cumulative ↦ some (record {
          id = o.id;
          symbol = symbol;
          side = if o.trade_type == 1 then "buy" else "sell";
          amount = or_zero o.amount;
          price = price;
          status = status_text o.status;
          timestamp = 0;
          filled = remain;
          remaning = cumulative;
        })
      ]
    ]
  ]

  -- The senders of a symbol are taken, sent to, and put back.
  unfoldable pub deliver : String → Order D → PrivateWs D → Outcome D
  deliver name order s = elim (HashMap.get name s.private_pending) [
    | none ↦ panics
    | some subs ↦ leaves (record s {
      private_pending = HashMap.insert name ([] ++ subs) (HashMap.insert name [] s.private_pending);
      sent = s.sent ++ map (λ e. (e.1, order)) subs;
    })
  ]

  -- The handler of binary messages, with the names of the symbols.
  unfoldable pub on_binary : HashMap String → Option (Wrapper D) → PrivateWs D → Outcome D
  on_binary pairs none s = leaves s
  on_binary pairs (some w) s = elim w.symbol [
    | none ↦ leaves s
    | some name ↦ elim (HashMap.get name pairs) [
      | none ↦ panics
      | some symbol ↦
          if starts_with "spot@private.orders.v3.api.pb" w.channel
          then elim w.body [
            | none ↦ leaves s
            | some o ↦ elim (read_order symbol o) [
              | none ↦ panics
              | some order ↦ deliver name order s
            ]
          ]
          else leaves s
    ]
  ]

abbrev pub or_default : Option (List (ℕ × ℕ)) → List (ℕ × ℕ)
or_default none = []
or_default (some subs) = subs

module _ {D : Type 0} where
  -- What both handlers of an end of the socket do.
  unfoldable pub on_fail : PrivateWs D → PrivateWs D
  on_fail s = record s { inited_private_ws = false; private_pending = [] }

  -- `ensure_private_ws`, with how `init_private_ws` ends; `none` is its error.
  unfoldable pub ensure_private_ws : Bool → PrivateWs D → Option (PrivateWs D)
  ensure_private_ws inits s =
      if s.inited_private_ws
      then some s
      else if inits
      then some (record s { inited_private_ws = true; subscriptions = 0 })
      else none

  -- The subscription of the first call; `false` is the error of `send`.
  unfoldable pub subscribe_private : Bool → PrivateWs D → PrivateWs D × Bool
  subscribe_private sends s = if s.subscribed_private_orders then (s, true) else (
    record s {
      subscribed_private_orders = true;
      subscriptions = if sends then s.subscriptions + 1 else s.subscriptions;
    },
    sends,
  )

  -- `catch_orders` for a symbol by its normalised name and a sender: the state and the id, if there
  -- is no error.
  unfoldable pub catch_orders : String → ℕ → Bool → Bool → PrivateWs D → PrivateWs D × Option ℕ
  catch_orders name tx inits sends s = elim (ensure_private_ws inits s) [
    | none ↦ (s, none)
    | some r ↦
        let t = (subscribe_private sends r).0 in
        let id = inc32 t.private_last_id in
        if (subscribe_private sends r).1
        then (
          record t {
            private_last_id = id;
            private_pending =
                HashMap.insert name
                  (or_default (HashMap.get name t.private_pending) ++ (id, tx) ∷ [])
                  t.private_pending;
          },
          some id,
        )
        else (t, none)
  ]
