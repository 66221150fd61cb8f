-- ===== src/Feed/Binance.antt =====
-- `BinanceSubClient::handle_message` (src/exchange/binance/public/sub_client.rs).
pub mod Laws
use arbexpert_backend.Base.{
  ℕ, zero, suc, ◌+◌, String, Bool, true, false, not, Option, none, some, List, [], ◌∷◌, ◌++◌, ◌==◌,
  if◌then◌else◌,
}
use arbexpert_backend.Std.HashMap
use arbexpert_backend.Std.HashMap.{HashMap}
use arbexpert_backend.Decimal.{Decimal}
use arbexpert_backend.OrderBook.{OrderBook, OrderBookUpdate, apply_update}
use arbexpert_backend.SubClient
use arbexpert_backend.SubClient.{Shared, set_book, broadcast}
use arbexpert_backend.Feed.{
  MarketType, spot, future, Message, Outcome, returns, fetches, sleeps, try, build_update,
  from_first, gap, set_id, cleared,
}

-- The state that the handler shares with the client: `init` holds the updates that came while a
-- snapshot was on its way.
pub record BinanceFeed (D : Type 0) : Type 0 where
  pub shared : Shared D
  pub open shared use *
  pub init : HashMap (List (OrderBookUpdate D))

module _ {D : Type 0} ⦃d : Decimal D⦄ where
  abbrev with_shared : Shared D → BinanceFeed D → BinanceFeed D
  with_shared s f = record f { shared = s }

  -- The closure `broadcast_update`; its callers ignore what it returns.
  unfoldable pub broadcast_update : String → ℕ → OrderBookUpdate D → BinanceFeed D → BinanceFeed D
  broadcast_update symbol r u f =
      let s = set_book r (apply_update u (f.books r)).0 f.shared in
      elim (broadcast symbol r s) [ none ↦ with_shared s f | some t ↦ with_shared t f ]

  -- The first message for a book: it asks for a snapshot, and buffers what comes meanwhile.
  pub ask_snapshot : String → ℕ → ℕ → BinanceFeed D → Outcome D (BinanceFeed D)
  ask_snapshot symbol first r f =
      fetches symbol r first
        (record f { shared = set_id r 1 f.shared; init = HashMap.or_insert symbol [] f.init })

  -- A message while the snapshot is on its way.
  pub buffer : String → ℕ → ℕ → Message D → BinanceFeed D → Outcome D (BinanceFeed D)
  buffer symbol last first m f = try (HashMap.get symbol f.init) f λ us.
      try (build_update false last first m) f
        λ u. returns true (record f { init = HashMap.insert symbol (us ++ u ∷ []) f.init })

  -- A message for a book that is live, once the test for a gap is made.
  pub continue : Bool → String → ℕ → ℕ → ℕ → Message D → BinanceFeed D → Outcome D (BinanceFeed D)
  unfolding broadcast_update
  continue true symbol last first r m f = returns true (with_shared (set_book r cleared f.shared) f)
  continue false symbol last first r m f =
      try (build_update false last first m) f λ u. returns true (broadcast_update symbol r u f)

  live : MarketType → String → ℕ → ℕ → ℕ → Message D → BinanceFeed D → Outcome D (BinanceFeed D)
  unfolding continue
  live spot symbol last first r m f =
      continue (gap (f.books r).update_id first last) symbol last first r m f
  live future symbol last first r m f =
      try m.previous_id f
        λ previous. continue (not (previous == (f.books r).update_id)) symbol last first r m f

  -- `on_fail`, which runs right behind that of the client.
  unfoldable pub on_fail : BinanceFeed D → BinanceFeed D
  on_fail f = record f { shared = SubClient.on_fail f.shared; init = [] }

  -- `handle_message` up to its first await.
  unfoldable pub handle_message : MarketType → Message D → BinanceFeed D → Outcome D (BinanceFeed D)
  unfolding ask_snapshot buffer live
  handle_message market m f = try m.symbol f λ symbol. try m.last_update_id f λ last.
      try m.first_update_id f λ first. try (HashMap.get symbol f.subscribed) f λ r.
        let id = (f.books r).update_id in
        if id == 0
        then ask_snapshot symbol first r f
        else if id == 1
        then buffer symbol last first m f
        else live market symbol last first r m f

  pub apply_updates : List (OrderBookUpdate D) → OrderBook D → OrderBook D
  apply_updates [] b = b
  apply_updates (u ∷ us) b = apply_updates us (apply_update u b).0

  -- The snapshot's levels, then the buffered updates.
  install : ℕ → OrderBook D → List (OrderBookUpdate D) → BinanceFeed D → BinanceFeed D
  unfolding apply_updates
  install r snapshot us f =
      let b = record snapshot { update_id = (f.books r).update_id } in
      with_shared (set_book r (apply_updates us b) f.shared) f

  -- One round of the loop that looks for the update that follows on the snapshot. The buffer is
  -- taken whether or not it holds one.
  unfoldable pub look : String → ℕ → OrderBook D → ℕ → BinanceFeed D → Outcome D (BinanceFeed D)
  unfolding install
  look symbol r snapshot retries f =
      if retries == 5
      then returns true (with_shared (set_id r 0 f.shared) f)
      else try (HashMap.get symbol f.init) f λ us.
        let f' = record f { init = HashMap.insert symbol [] f.init } in
        elim (from_first snapshot.update_id us) [
          | none ↦ sleeps symbol r snapshot (retries + 1) f'
          | some rest ↦ returns true (install r snapshot rest f')
        ]

  -- `handle_message` from the answer to its request for a snapshot on.
  unfoldable pub on_snapshot :
      String → ℕ → Option (OrderBook D) → BinanceFeed D → Outcome D (BinanceFeed D)
  unfolding look
  on_snapshot symbol r none f = returns true (with_shared (set_id r 0 f.shared) f)
  on_snapshot symbol r (some snapshot) f = look symbol r snapshot 0 f
