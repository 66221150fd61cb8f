-- ===== src/Feed/Binance/Laws.antt =====
-- How Binance's books are brought in step with the exchange and kept so
-- (src/exchange/binance/public/sub_client.rs).
use mathlib.Core.List.{append-nil}
use arbexpert_backend.Base.{
  ℕ, ◌+◌, ◌^◌, ◌≤◌, ◌<◌, String, ◌≡◌, refl, ◌∙◌, ap, true, false, some, List, [], ◌∷◌, ◌++◌, arith,
  All, Option-cases, inl, inr, map, inc64, subst, sym,
}
use arbexpert_backend.Std.HashMap
use arbexpert_backend.Decimal.{Decimal}
use arbexpert_backend.OrderBook.{OrderBook, OrderBookUpdate, apply_update}
use arbexpert_backend.OrderBook.Update.{apply_all, update_id-apply_update}
use arbexpert_backend.SubClient.{set_book, broadcast}
use arbexpert_backend.SubClient.Calls.{broadcast_lem, broadcast-none, books-broadcast}
use arbexpert_backend.SubClient.Registry.{waiting}
use arbexpert_backend.Feed.{
  MarketType, spot, future, Message, Outcome, returns, from_first, build_update, cleared,
}
use arbexpert_backend.Feed.Sync.{Contiguous, Splits, from_first-Splits, last_id}
use arbexpert_backend.Feed.Binance.{
  BinanceFeed, with_shared, broadcast_update, apply_updates, install, continue, look,
  handle_message,
}

-- A message continues a book with this id: on the spot market by its first and last ids, on the
-- futures market by the id of the message before it.
abbrev pub Continues : MarketType → ℕ → ℕ → ℕ → ℕ → Type 0
Continues spot id first last previous = (first ≤ inc64 id) × (inc64 id ≤ last)
Continues future id first last previous = previous ≡ id

module _ {D : Type 0} ⦃d : Decimal D⦄ where
  apply_updates-apply_all :
      (us : List (OrderBookUpdate D)) (b : OrderBook D) → apply_updates us b ≡ apply_all us b
  unfolding apply_updates apply_all
  apply_updates-apply_all [] b = refl
  apply_updates-apply_all (u ∷ us) b = apply_updates-apply_all us (apply_update u b).0

  id-apply_all :
      (us : List (OrderBookUpdate D)) (b : OrderBook D)
      → All (λ u. 0 < u.last_update_id) us
      → (apply_all us b).update_id ≡ last_id b.update_id us
  unfolding apply_all last_id
  id-apply_all [] b p = refl
  id-apply_all (u ∷ us) b p =
      let b' = (apply_update u b).0 in
      id-apply_all us b' p.1 ∙ ap (λ n. last_id n us) (update_id-apply_update u b p.0)

  -- The handler returned with this book in the cell.
  pub record Installs (r : ℕ) (b : OrderBook D) (o : Outcome D (BinanceFeed D)) : Type 0 where
    pub state : BinanceFeed D
    pub returned : o ≡ returns true state
    pub book : state.books r ≡ b

  module _ (symbol : String) (r retries : ℕ) (snapshot : OrderBook D) (f : BinanceFeed D)
      (us rest : List (OrderBookUpdate D)) (tries : retries < 5)
      (buffered : HashMap.get symbol f.init ≡ some us)
      (found : from_first snapshot.update_id us ≡ some rest) where
    abbrev start_book : OrderBook D
    start_book = record snapshot { update_id = (f.books r).update_id }

    look-Installs : Installs r (apply_all rest start_book) (look symbol r snapshot retries f)
    unfolding look install
    look-Installs = record {
      state = install r snapshot rest (record f { init = HashMap.insert symbol [] f.init });
      returned = ground arith;
      book = ground (arith, apply_updates-apply_all rest start_book);
    }

    -- Where fewer than five looks were taken, the buffer holds an update which follows on the
    -- snapshot, the ids are below 2 ^ 64 - 1, and the exchange sent the buffered updates without
    -- holes: the updates applied are exactly the ones that are not wholly in the snapshot.
    pub binance_in_step :
        snapshot.update_id + 1 < 2 ^ 64
        → Contiguous us
        → Splits snapshot.update_id us rest
          × Installs r (apply_all rest start_book) (look symbol r snapshot retries f)
    binance_in_step b c = (from_first-Splits snapshot.update_id us rest b c found, look-Installs)

  -- The handler returned, with the update applied to the book and the book sent to all who waited.
  pub record Publishes (symbol : String) (r : ℕ) (u : OrderBookUpdate D) (f : BinanceFeed D)
      (o : Outcome D (BinanceFeed D)) : Type 0 where
    pub state : BinanceFeed D
    pub returned : o ≡ returns true state
    pub applied : state.books r ≡ (apply_update u (f.books r)).0
    pub sent : state.sent ≡ f.sent ++ map (λ tx. (tx, r)) (waiting symbol f.shared)
    pub emptied : waiting symbol state.shared ≡ []

  broadcast_update-Publishes :
      (symbol : String) (r : ℕ) (u : OrderBookUpdate D) (f : BinanceFeed D)
      → Publishes symbol r u f (returns true (broadcast_update symbol r u f))
  unfolding broadcast_update
  broadcast_update-Publishes symbol r u f =
      let s = set_book r (apply_update u (f.books r)).0 f.shared in
      elim (Option-cases (broadcast symbol r s)) [
        | inl e ↦ record {
          state = with_shared s f;
          returned = ground arith;
          applied = ground arith;
          sent = ground (arith, broadcast-none symbol r s e, append-nil f.sent);
          emptied = broadcast-none symbol r s e;
        }
        | inr (t, e) ↦
            let (sent, w, _) = broadcast_lem symbol r s t symbol e in
            record {
              state = with_shared t f;
              returned = ground arith;
              applied = ap (λ g. g r) (books-broadcast symbol r s t e) ∙ ground arith;
              sent = sent;
              emptied = w;
            }
      ]

  module _ (m : Message D) (symbol : String) (last first previous r : ℕ) (f : BinanceFeed D)
      (symbol_read : m.symbol ≡ some symbol) (last_read : m.last_update_id ≡ some last)
      (first_read : m.first_update_id ≡ some first)
      (known : HashMap.get symbol f.subscribed ≡ some r) (is_live : 1 < (f.books r).update_id) where
    -- A message whose header can be read, for a subscribed symbol with a live book, that does not
    -- continue the book by its market's rule, empties the book and resets its id to 0; no sender
    -- is served and none is dropped.
    pub binance_gap :
        (market : MarketType)
        → (market ≡ future → m.previous_id ≡ some previous)
        → ¬ Continues market (f.books r).update_id first last previous
        → (g : BinanceFeed D) × (handle_message market m f ≡ returns true g)
          × (g.books r ≡ cleared)
          × (g.sent ≡ f.sent)
          × (g.pending ≡ f.pending)
    unfolding handle_message continue
    binance_gap spot p h =
        (with_shared (set_book r cleared f.shared) f, ground arith, ground arith, refl, refl)
    binance_gap future p h =
        let read = p refl in
        (with_shared (set_book r cleared f.shared) f, ground arith, ground arith, refl, refl)

    handle-broadcast :
        (market : MarketType) (u : OrderBookUpdate D)
        → (market ≡ future → m.previous_id ≡ some previous)
        → Continues market (f.books r).update_id first last previous
        → build_update false last first m ≡ some u
        → handle_message market m f ≡ returns true (broadcast_update symbol r u f)
    unfolding handle_message continue
    handle-broadcast spot u p h built = ground arith
    handle-broadcast future u p h built = let read = p refl in ground arith

    -- A message whose header and sides can be read, for a subscribed symbol with a live book,
    -- that continues the book by its market's rule, is applied to it; every sender that waits for
    -- the symbol is sent the book, in order, and none is left waiting.
    pub binance_serves :
        (market : MarketType) (u : OrderBookUpdate D)
        → (market ≡ future → m.previous_id ≡ some previous)
        → Continues market (f.books r).update_id first last previous
        → build_update false last first m ≡ some u
        → Publishes symbol r u f (handle_message market m f)
    binance_serves market u p h built =
        subst (Publishes symbol r u f) (sym (handle-broadcast market u p h built))
          (broadcast_update-Publishes symbol r u f)
