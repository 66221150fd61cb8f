-- ===== src/Mexc/Private/Catching.antt =====
-- What reaches the tasks that catch orders (src/exchange/mexc/private/watch.rs).
use arbexpert_backend.Base.{
  ℕ, String, ◌≡◌, refl, ap, ◌∙◌, Bool, true, Option, none, some, List, [], ◌∷◌, ◌++◌, map, arith,
  eq_iff, ◌==◌, ◌||◌, ltb, if◌then◌else◌, if_true, elim_some, elim_none, inc32,
}
use arbexpert_backend.Std.HashMap
use arbexpert_backend.Std.HashMap.{HashMap, get-insert}
use arbexpert_backend.Std.Text.{starts_with}
use arbexpert_backend.Decimal.{Decimal}
use arbexpert_backend.Account.{Order}
use arbexpert_backend.Mexc.Private.{
  PrivateOrder, Wrapper, PrivateWs, leaves, panics, status_text, or_zero, read_order, deliver,
  on_binary, on_fail, ensure_private_ws, subscribe_private, catch_orders, or_default,
}

kept-pending :
    (name k : String) (subs : List (ℕ × ℕ)) (pending : HashMap (List (ℕ × ℕ)))
    → HashMap.get name pending ≡ some subs
    → HashMap.get k (HashMap.insert name ([] ++ subs) (HashMap.insert name [] pending))
      ≡ HashMap.get k pending
kept-pending name k subs pending e = ground (
  arith,
  e,
  eq_iff name k,
  get-insert k name ([] ++ subs) (HashMap.insert name [] pending),
  get-insert k name [] pending,
)

-- The statuses as the message numbers them.
abbrev pub status_name : ℕ → String
status_name n =
    if n == 0 || ltb 4 n
    then "unknown"
    else if ltb n 3
    then "open"
    else if n == 4
    then "canceled"
    else "filled"

status_text-status_name : (n : ℕ) → status_text n ≡ status_name n
unfolding status_text
status_text-status_name n = ground arith

module _ {D : Type 0} ⦃d : Decimal D⦄ where
  or_zero_lem : (a : Option D) → or_zero a ≡ (elim a [ none ↦ d.nil | some x ↦ x ])
  or_zero_lem none = refl
  or_zero_lem (some x) = refl

  -- An order of a symbol whose name is known and which has an entry in `private_pending`, in which
  -- the price and both quantities are numbers: the handler sends it to every sender of the symbol,
  -- in their order, and leaves all senders of all symbols in place. The order has the message's id,
  -- price and amount, zero for an amount that is no number; it is a buy for the type 1 and a sell
  -- for any other; its status is open for 1 and 2, filled for 3, canceled for 4 and otherwise
  -- unknown. It has the quantity that remains as the one that is filled, and the cumulative one as
  -- the one that remains.
  pub private_order_delivers :
      (pairs : HashMap String) (name symbol channel : String) (o : PrivateOrder D)
      (price remain cumulative : D) (subs : List (ℕ × ℕ)) (s : PrivateWs D)
      → HashMap.get name pairs ≡ some symbol
      → starts_with "spot@private.orders.v3.api.pb" channel ≡ true
      → o.price ≡ some price
      → o.remain_quantity ≡ some remain
      → o.cumulative_quantity ≡ some cumulative
      → HashMap.get name s.private_pending ≡ some subs
      → (order : Order D) × (t : PrivateWs D) × (on_binary pairs
            (some (record { symbol = some name; channel = channel; body = some o }))
            s
          ≡ leaves t)
        × (t.sent ≡ s.sent ++ map (λ e. (e.1, order)) subs)
        × ((k : String) → HashMap.get k t.private_pending ≡ HashMap.get k s.private_pending)
        × (order.id ≡ o.id)
        × (order.symbol ≡ symbol)
        × (order.side ≡ (if o.trade_type == 1 then "buy" else "sell"))
        × (order.price ≡ price)
        × (order.amount ≡ (elim o.amount [ none ↦ d.nil | some amount ↦ amount ]))
        × (order.status ≡ status_name o.status)
        × (order.filled ≡ remain)
        × (order.remaning ≡ cumulative)
  unfolding on_binary read_order deliver
  private_order_delivers pairs name symbol channel o price remain cumulative subs s h c p r q e = (
    record {
      id = o.id;
      symbol = symbol;
      side = if o.trade_type == 1 then "buy" else "sell";
      amount = or_zero o.amount;
      price = price;
      status = status_text o.status;
      timestamp = 0;
      filled = remain;
      remaning = cumulative;
    },
    _,
    elim_some _ _ _ symbol h
        ∙ if_true _ _ _ c
        ∙ elim_some _ _ _ _
            (elim_some _ _ _ price p ∙ elim_some _ _ _ remain r ∙ elim_some _ _ _ cumulative q)
        ∙ elim_some _ _ _ subs e,
    refl,
    λ k. kept-pending name k subs s.private_pending e,
    refl,
    refl,
    refl,
    refl,
    or_zero_lem o.amount,
    status_text-status_name o.status,
    refl,
    refl,
  )

  -- A private message for a symbol that the program never named makes the handler panic.
  pub private_order_panics :
      (pairs : HashMap String) (w : Wrapper D) (name : String) (s : PrivateWs D)
      → w.symbol ≡ some name
      → HashMap.get name pairs ≡ none
      → on_binary pairs (some w) s ≡ panics
  unfolding on_binary
  private_order_panics pairs w name s e h = elim_some _ _ _ name e ∙ elim_none _ _ _ h

  -- The end of `catch_orders`, from what the subscription leaves.
  abbrev answered : PrivateWs D × Bool → String → ℕ → PrivateWs D × Option ℕ
  answered x name tx =
      let t = x.0 in
      let id = inc32 t.private_last_id in
      if x.1
      then (
        record t {
          private_last_id = id;
          private_pending =
              HashMap.insert name (or_default (HashMap.get name t.private_pending) ++ (id, tx) ∷ [])
                t.private_pending;
        },
        some id,
      )
      else (t, none)

  subscribe_private-again :
      (sends : Bool) (s : PrivateWs D)
      → s.subscribed_private_orders ≡ true
      → subscribe_private sends s ≡ (s, true)
  unfolding subscribe_private
  subscribe_private-again sends s h = if_true _ _ _ h

  -- Once the orders were subscribed and the socket then failed: the next `catch_orders` opens a
  -- socket, registers its sender and succeeds, but the new socket is sent no subscription.
  pub catch_orders_stays_silent :
      (name : String) (tx : ℕ) (sends : Bool) (s : PrivateWs D)
      → s.subscribed_private_orders ≡ true
      → (t : PrivateWs D) × (id : ℕ) × (catch_orders name tx true sends (on_fail s) ≡ (t, some id))
        × (t.inited_private_ws ≡ true)
        × (t.subscriptions ≡ 0)
        × (HashMap.get name t.private_pending ≡ some ((id, tx) ∷ []))
  unfolding catch_orders on_fail ensure_private_ws subscribe_private HashMap.get
  catch_orders_stays_silent name tx sends s h =
      let r : PrivateWs D = record s {
        inited_private_ws = true;
        private_pending = [];
        subscriptions = 0;
      } in
      let id = inc32 s.private_last_id in
      let pending = HashMap.insert name ((id, tx) ∷ []) [] in
      (
        record r { private_last_id = id; private_pending = pending },
        id,
        ap (λ x. answered x name tx) (subscribe_private-again sends r h),
        refl,
        refl,
        ground
            (arith, get-insert {V = List (ℕ × ℕ)} name name ((id, tx) ∷ []) [], eq_iff name name),
      )
