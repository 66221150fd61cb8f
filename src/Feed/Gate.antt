-- ===== src/Feed/Gate.antt =====
-- `GateSubClient::handle_message` (src/exchange/gate/public/sub_client.rs).
pub mod Laws
pub mod History
pub mod Live
use arbexpert_backend.Base.{
  ℕ, zero, suc, ◌+◌, String, Bool, true, false, not, Option, none, some, List, [], ◌∷◌, ◌++◌, ◌==◌,
  ◌&&◌, str_eq, if◌then◌else◌,
}
use arbexpert_backend.Std.HashMap
use arbexpert_backend.Std.HashMap.{HashMap}
use arbexpert_backend.Std.HashSet
use arbexpert_backend.Std.BTreeMap.{Reverse, reverse, unreverse, BTreeMap}
use arbexpert_backend.Decimal.{Decimal, decimal_ord, eq}
use arbexpert_backend.OrderBook.{OrderBook, OrderBookUpdate, Failure, apply_update}
use arbexpert_backend.SubClient
use arbexpert_backend.SubClient.{Shared, set_book, broadcast}
use arbexpert_backend.Feed.{
  MarketType, spot, future, Message, Outcome, returns, fetches, sleeps, panics, try, build_update,
  from_first, gap, set_id, cleared,
}

-- A message kept for debugging, with the failures that were noted behind it, a list for each time.
abbrev pub Noted : Type 0 → Type 0
Noted D = String × List (List (Failure D))

pub record GateFeed (D : Type 0) : Type 0 where
  pub shared : Shared D
  pub open shared use *
  pub init : HashMap (List (OrderBookUpdate D))
  -- The messages of each symbol.
  pub backup : HashMap (List (Noted D))
  -- The bid prices that each symbol's updates left standing.
  pub history : HashMap (List D)
  -- The statics `BREAKPOINT` and `TEMP` of src/main.rs.
  pub breakpoint : Option String
  pub temp : Option (List (Noted D) × OrderBook D)

-- `*last_message = format!("{last_message} | […]")`; `none` is the panic on an empty list.
pub note : {D : Type 0} → List (Failure D) → List (Noted D) → Option (List (Noted D))
note fs [] = none
note fs ((m, ns) ∷ []) = some ((m, ns ++ fs ∷ []) ∷ [])
note fs (x ∷ y ∷ ms) = elim (note fs (y ∷ ms)) [ none ↦ none | some r ↦ some (x ∷ r) ]

unfoldable pub or_empty : {A : Type 0} → Option (List A) → List A
or_empty none = []
or_empty (some xs) = xs

is_future : MarketType → Bool
is_future spot = false
is_future future = true

module _ {D : Type 0} ⦃d : Decimal D⦄ where
  abbrev with_shared : Shared D → GateFeed D → GateFeed D
  with_shared s f = record f { shared = s }

  -- The loop over `update.bids` that keeps `history`.
  pub keep_history : List (D × D) → List D → List D
  keep_history [] h = h
  keep_history ((price, qty) ∷ rest) h =
      keep_history rest (if eq qty d.nil then HashSet.remove price h else HashSet.insert price h)

  -- Every bid of the book is in `history`; otherwise the handler panics.
  pub all_known : BTreeMap (Reverse D) D → List D → Bool
  all_known [] h = true
  all_known ((price, qty) ∷ m) h = HashSet.contains (unreverse price) h && all_known m h

  -- The breakpoint that an operator set for the symbol: the messages and the book are kept in `TEMP`.
  pub hit_breakpoint : MarketType → String → List (Noted D) → OrderBook D → GateFeed D → GateFeed D
  unfolding is_future
  hit_breakpoint market symbol messages b f = elim f.breakpoint [
    | none ↦ f
    | some wanted ↦
        if str_eq wanted symbol && is_future market
        then record f { temp = some (messages, b); breakpoint = none }
        else f
  ]

  -- `mem::take` of the senders that wait, each sent the book.
  pub finish : String → ℕ → GateFeed D → GateFeed D
  finish symbol r f = elim (broadcast symbol r f.shared) [ none ↦ f | some t ↦ with_shared t f ]

  -- The closure `broadcast_update`, once `messages` has the last message noted.
  unfoldable pub broadcast_noted :
      MarketType
      → String
      → ℕ
      → OrderBookUpdate D
      → List (Noted D)
      → GateFeed D
      → Option (GateFeed D)
  broadcast_noted market symbol r u messages f =
      let b = (apply_update u (f.books r)).0 in
      let h = keep_history u.bids (or_empty (HashMap.get symbol f.history)) in
      let f' = hit_breakpoint market symbol messages b (record f {
        shared = set_book r b f.shared;
        backup = HashMap.insert symbol messages f.backup;
        history = HashMap.insert symbol h f.history;
      }) in
      if all_known b.bids h then some (finish symbol r f') else none

  -- The closure `broadcast_update`: its callers ignore what it returns, and `none` is its panic.
  unfoldable pub broadcast_update :
      MarketType → String → ℕ → OrderBookUpdate D → GateFeed D → Option (GateFeed D)
  unfolding note
  broadcast_update market symbol r u f = elim (HashMap.get symbol f.backup) [
    | none ↦ some f
    | some messages ↦ elim (note (apply_update u (f.books r)).1 messages) [
      | none ↦ none
      | some noted ↦ broadcast_noted market symbol r u noted f
    ]
  ]

  abbrev after_broadcast : Option (GateFeed D) → Outcome D (GateFeed D)
  after_broadcast none = panics
  after_broadcast (some f) = returns true f

  publish : Bool → MarketType → String → ℕ → ℕ → ℕ → Message D → GateFeed D → Outcome D (GateFeed D)
  publish full market symbol last first r m f =
      try (build_update full last first m) f
        λ u. after_broadcast (broadcast_update market symbol r u f)

  -- A message for a book with no levels yet: a full one starts it, any other asks for a snapshot.
  pub start : MarketType → String → ℕ → ℕ → ℕ → Message D → GateFeed D → Outcome D (GateFeed D)
  unfolding publish
  start market symbol last first r m f =
      if m.full
      then publish true market symbol last first r m f
      else fetches symbol r first
          (record f { shared = set_id r 1 f.shared; init = HashMap.or_insert symbol [] f.init })

  -- A message while the snapshot is on its way.
  pub buffer : String → ℕ → ℕ → Message D → GateFeed D → Outcome D (GateFeed D)
  buffer symbol last first m f = try (HashMap.get symbol f.init) f λ us.
      try (build_update m.full last first m) f
        λ u. returns true (record f { init = HashMap.insert symbol (us ++ u ∷ []) f.init })

  -- A message for a book that is live.
  pub live : MarketType → String → ℕ → ℕ → ℕ → Message D → GateFeed D → Outcome D (GateFeed D)
  unfolding publish
  live market symbol last first r m f =
      if gap (f.books r).update_id first last
      then returns true (with_shared (set_book r cleared f.shared) f)
      else publish m.full market symbol last first r m f

  -- `messages.push(text)`.
  keep_text : String → String → GateFeed D → GateFeed D
  unfolding or_empty
  keep_text symbol text f = record f {
    backup =
        HashMap.insert symbol (or_empty (HashMap.get symbol f.backup) ++ (text, []) ∷ []) f.backup;
  }

  -- `on_fail`, which runs right behind that of the client.
  unfoldable pub on_fail : GateFeed D → GateFeed D
  on_fail f = record f { shared = SubClient.on_fail f.shared; init = [] }

  -- `handle_message` up to its first await.
  unfoldable pub handle_message : MarketType → Message D → GateFeed D → Outcome D (GateFeed D)
  unfolding start buffer live keep_text
  handle_message market m f = try m.symbol f λ symbol. try m.last_update_id f λ last.
      try m.first_update_id f λ first. try (HashMap.get symbol f.subscribed) f λ r.
        let g = keep_text symbol m.text f in
        let id = (g.books r).update_id in
        if id == 0
        then start market symbol last first r m g
        else if id == 1
        then buffer symbol last first m g
        else live market symbol last first r m g

  -- The replay of the buffered updates: it stops with the id 0 at the first that does not continue
  -- the book. It returns the book, the history and the failures noted.
  pub replay :
      List (OrderBookUpdate D) → OrderBook D → List D → OrderBook D × List D × List (Failure D)
  replay [] b h = (b, h, [])
  replay (u ∷ us) b h =
      let (b', fs) = apply_update u b in
      let (c, g, gs) = replay us b' (keep_history u.bids h) in
      if gap b.update_id u.first_update_id u.last_update_id
      then (record b { update_id = 0 }, h, [])
      else (c, g, fs ++ gs)

  pub insert_all : List (Reverse D × D) → List D → List D
  insert_all [] h = h
  insert_all ((price, qty) ∷ m) h = insert_all m (HashSet.insert (unreverse price) h)

  -- The snapshot, then the buffered updates.
  install :
      String → ℕ → OrderBook D → List (OrderBookUpdate D) → GateFeed D → Outcome D (GateFeed D)
  install symbol r snapshot us f =
      let h = insert_all snapshot.bids (or_empty (HashMap.get symbol f.history)) in
      let (b, h', fs) = replay us snapshot h in
      let f' = record f {
        shared = set_book r snapshot f.shared;
        history = HashMap.insert symbol h f.history;
      } in
      try (HashMap.get symbol f.backup) f' λ messages. elim (note fs messages) [
        | none ↦ panics
        | some noted ↦ returns true (record f {
          shared = set_book r b f.shared;
          history = HashMap.insert symbol h' f.history;
          backup = HashMap.insert symbol noted f.backup;
        })
      ]

  -- One round of the loop that looks for the update that follows on the snapshot. The buffer is
  -- taken whether or not it holds one.
  unfoldable pub look : String → ℕ → OrderBook D → ℕ → GateFeed D → Outcome D (GateFeed D)
  unfolding install
  look symbol r snapshot retries f =
      if retries == 5
      then returns true (with_shared (set_id r 0 f.shared) f)
      else try (HashMap.get symbol f.init) f λ us.
        let f' = record f { init = HashMap.insert symbol [] f.init } in
        elim (from_first snapshot.update_id us) [
          | none ↦ sleeps symbol r snapshot (retries + 1) f'
          | some rest ↦ install symbol r snapshot rest f'
        ]

  -- `handle_message` from the answer to its request for a snapshot on.
  unfoldable pub on_snapshot :
      String → ℕ → Option (OrderBook D) → GateFeed D → Outcome D (GateFeed D)
  unfolding look
  on_snapshot symbol r none f = returns true (with_shared (set_id r 0 f.shared) f)
  on_snapshot symbol r (some snapshot) f = look symbol r snapshot 0 f
