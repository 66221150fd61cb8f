-- ===== src/Mexc.antt =====
-- `SubClient` of src/exchange/mexc/public/sub_client.rs: the books that one web socket of Mexc keeps. A
-- book is owned by the map; what is sent is a copy. The protobuf decoder is not part of the
-- repository: what it returns is an argument, with each price and quantity as `parse` reads it.
pub mod Books
pub mod Sync
pub mod Gains
pub mod Pool
pub mod Request
pub mod Private
pub mod Symbols
pub mod Start
pub mod Orders
pub mod Listen
use arbexpert_backend.Base.{
  ℕ, ◌+◌, String, Bool, true, false, Option, none, some, List, [], ◌∷◌, ◌++◌, map, is_some, length,
  ◌==◌, if◌then◌else◌,
}
use arbexpert_backend.Std.HashMap
use arbexpert_backend.Std.HashMap.{HashMap}
use arbexpert_backend.Std.Text.{contains_text, after_last}
use arbexpert_backend.Decimal.{Decimal}
use arbexpert_backend.OrderBook.{OrderBook, OrderBookUpdate, empty_book, apply_update}

-- An item of a batch: its levels, `none` where a `parse` fails.
pub record Item (D : Type 0) : Type 0 where
  pub asks : List (Option D × Option D)
  pub bids : List (Option D × Option D)

pub data Body (D : Type 0) : Type 0 where
  depths : List (Item D) → Body D
  other : Body D

pub record PushData (D : Type 0) : Type 0 where
  pub channel : String
  pub body : Option (Body D)

pub record MexcClient (D : Type 0) : Type 0 where
  pub subscribed : HashMap (OrderBook D)
  pub pending : HashMap (List ℕ)
  -- The senders that were sent to, each with the book.
  pub sent : List (ℕ × OrderBook D)

-- How `handle_binary` ends: it returns `Some(())`, or `None` for `false`, or panics.
pub data Handled (D : Type 0) : Type 0 where
  returns : Bool → MexcClient D → Handled D
  panics : Handled D

abbrev pub depth_channel : String
depth_channel = "spot@public.increase.depth.batch.v3.api.pb@"

-- The `unwrap`s on a side.
unfoldable pub parse_side : {D : Type 0} → List (Option D × Option D) → Option (List (D × D))
parse_side [] = some []
parse_side ((none, q) ∷ es) = none
parse_side ((some p, none) ∷ es) = none
parse_side ((some p, some q) ∷ es) = elim (parse_side es) [
  | none ↦ none
  | some ls ↦ some ((p, q) ∷ ls)
]

unfoldable pub parse_item : {D : Type 0} → Item D → Option (OrderBookUpdate D)
parse_item item = elim (parse_side item.asks) [
  | none ↦ none
  | some asks ↦ elim (parse_side item.bids) [
    | none ↦ none
    | some bids ↦
        some (record {
          bids = bids;
          asks = asks;
          first_update_id = 0;
          last_update_id = 0;
          full = false;
        })
  ]
]

module _ {D : Type 0} where
  unfoldable pub new : MexcClient D
  new = record { subscribed = []; pending = []; sent = [] }

  unfoldable pub on_fail : MexcClient D → MexcClient D
  on_fail c = record c { subscribed = []; pending = [] }

  unfoldable pub has_symbol : String → MexcClient D → Bool
  has_symbol symbol c = is_some (HashMap.get symbol c.subscribed)

  unfoldable pub subscribed_count : MexcClient D → ℕ
  subscribed_count c = length c.subscribed

  -- `subscriptions` taken and each sent the book; `false` is the `?` on a missing entry.
  unfoldable pub broadcast : String → OrderBook D → MexcClient D → MexcClient D × Bool
  broadcast symbol book c = elim (HashMap.get symbol c.pending) [
    | none ↦ (c, false)
    | some txs ↦ (
      record c {
        pending = HashMap.insert symbol [] c.pending;
        sent = c.sent ++ map (λ tx. (tx, book)) txs;
      },
      true,
    )
  ]

module _ {D : Type 0} ⦃d : Decimal D⦄ where
  -- The loop over the items; `none` is a panic.
  unfoldable pub apply_items : List (Item D) → OrderBook D → Option (OrderBook D)
  apply_items [] b = some b
  apply_items (i ∷ is) b = elim (parse_item i) [
    | none ↦ none
    | some u ↦ apply_items is (apply_update u b).0
  ]

  -- `handle_binary` from the updated book on.
  unfoldable pub publish : String → ℕ → OrderBook D → MexcClient D → Handled D
  publish symbol old_id book c =
      let kept = record c { subscribed = HashMap.insert symbol book c.subscribed } in
      if old_id == book.update_id
      then returns true kept
      else returns (broadcast symbol book kept).1 (broadcast symbol book kept).0

  -- `handle_binary` on a book that `mem::take` took out of the map: a default one is in its place.
  unfoldable pub on_book : String → OrderBook D → Option (Body D) → MexcClient D → Handled D
  on_book symbol book none c =
      returns false (record c { subscribed = HashMap.insert symbol empty_book c.subscribed })
  on_book symbol book (some other) c = publish symbol book.update_id book c
  on_book symbol book (some (depths items)) c = elim (apply_items items book) [
    | none ↦ panics
    | some book' ↦ publish symbol book.update_id book' c
  ]

  unfoldable pub handle_binary : Option (PushData D) → MexcClient D → Handled D
  handle_binary none c = returns false c
  handle_binary (some w) c =
      if contains_text depth_channel w.channel
      then elim (HashMap.get (after_last b'@' w.channel) c.subscribed) [
        | none ↦ returns false c
        | some book ↦ on_book (after_last b'@' w.channel) book w.body c
      ]
      else returns false c

module _ {D : Type 0} where
  unfoldable pub subscribe_new : String → MexcClient D → MexcClient D
  subscribe_new symbol c = record c {
    subscribed = HashMap.insert symbol empty_book c.subscribed;
    pending = HashMap.or_insert symbol [] c.pending;
  }

  -- `watch` up to the sending of the subscription: the state, and whether this call is the first.
  unfoldable pub register : String → ℕ → MexcClient D → Option (MexcClient D × Bool)
  register symbol tx c =
      let known = has_symbol symbol c in
      let c' = if known then c else subscribe_new symbol c in
      elim (HashMap.get symbol c'.pending) [
        | none ↦ none
        | some txs ↦ some (
          record c' { pending = HashMap.insert symbol (txs ++ tx ∷ []) c'.pending },
          if known then false else true,
        )
      ]

  -- `watch` up to its await; the last part is whether it goes on to wait: `sends` is what `send`
  -- answers to a first call. `none` is the panic of the `unwrap`.
  unfoldable pub watch : String → ℕ → Bool → MexcClient D → Option (MexcClient D × Bool)
  watch symbol tx sends c = elim (register symbol tx c) [
    | none ↦ none
    | some r ↦ some (r.0, if r.1 then sends else true)
  ]

  -- `unwatch`, with what `send` answers: whether it returns `Ok`.
  unfoldable pub unwatch : String → Bool → MexcClient D → MexcClient D × Bool
  unwatch symbol sends c =
      if has_symbol symbol c
      then (
        record c {
          subscribed = HashMap.remove symbol c.subscribed;
          pending = HashMap.remove symbol c.pending;
        },
        sends,
      )
      else (c, true)
