-- ===== src/Feed/Gate/Live.antt =====
-- What a message does to a book of Gate that is live (src/exchange/gate/public/sub_client.rs).
use mathlib.Core.List.{append-nil}
use arbexpert_backend.Base.{
  ℕ, ◌≤◌, ◌<◌, String, ◌≡◌, ◌≢◌, refl, true, some, List, [], ◌∷◌, ◌++◌, arith, Option-cases, inl,
  inr, map, eq_iff, inc64, ◌⊎◌, ap, ◌∙◌, sym, subst,
}
use arbexpert_backend.Std.HashMap
use arbexpert_backend.Std.HashMap.{get-insert}
use arbexpert_backend.Decimal.{Decimal}
use arbexpert_backend.OrderBook.{OrderBook, OrderBookUpdate, Failure, apply_update}
use arbexpert_backend.OrderBook.Update.{IsBook, apply_update-IsBook}
use arbexpert_backend.SubClient.{set_book, broadcast}
use arbexpert_backend.SubClient.Calls.{broadcast_lem, broadcast-none}
use arbexpert_backend.SubClient.Registry.{waiting}
use arbexpert_backend.Feed.{MarketType, Message, Outcome, returns, build_update, cleared}
use arbexpert_backend.Feed.Gate.{
  GateFeed, Noted, note, or_empty, keep_history, live, publish, keep_text, after_broadcast,
  hit_breakpoint, finish, broadcast_noted, broadcast_update, handle_message,
}
use arbexpert_backend.Feed.Gate.Laws.{note-some}
use arbexpert_backend.Feed.Gate.History.{Known, apply_update-Known, Known-all_known}

module _ {D : Type 0} ⦃d : Decimal D⦄ where
  -- The book is well formed, and its bids are in the history of the symbol.
  pub record InStep (symbol : String) (r : ℕ) (f : GateFeed D) : Type 0 where
    pub book : IsBook (f.books r)
    pub known : Known (f.books r).bids (or_empty (HashMap.get symbol f.history))

  -- The handler returned, with the update applied to the book and the book sent to all who waited.
  pub record Publishes (symbol : String) (r : ℕ) (u : OrderBookUpdate D) (f : GateFeed D)
      (o : Outcome D (GateFeed D)) : Type 0 where
    pub state : GateFeed D
    pub returned : o ≡ returns true state
    pub applied : state.books r ≡ (apply_update u (f.books r)).0
    pub sent : state.sent ≡ f.sent ++ map (λ tx. (tx, r)) (waiting symbol f.shared)
    pub emptied : waiting symbol state.shared ≡ []
    pub in_step : InStep symbol r state

  shared-hit_breakpoint :
      (market : MarketType) (symbol : String) (ms : List (Noted D)) (b : OrderBook D)
      (f : GateFeed D)
      → (hit_breakpoint market symbol ms b f).shared ≡ f.shared
  unfolding hit_breakpoint
  shared-hit_breakpoint market symbol ms b f = ground arith

  history-hit_breakpoint :
      (market : MarketType) (symbol : String) (ms : List (Noted D)) (b : OrderBook D)
      (f : GateFeed D)
      → (hit_breakpoint market symbol ms b f).history ≡ f.history
  unfolding hit_breakpoint
  history-hit_breakpoint market symbol ms b f = ground arith

  history-finish :
      (symbol : String) (r : ℕ) (f : GateFeed D) → (finish symbol r f).history ≡ f.history
  unfolding finish
  history-finish symbol r f = ground arith

  books-finish : (symbol : String) (r : ℕ) (f : GateFeed D) → (finish symbol r f).books ≡ f.books
  unfolding finish broadcast
  books-finish symbol r f = ground arith

  sent-finish :
      (symbol : String) (r : ℕ) (f : GateFeed D)
      → ((finish symbol r f).sent ≡ f.sent ++ map (λ tx. (tx, r)) (waiting symbol f.shared))
        × (waiting symbol (finish symbol r f).shared ≡ [])
  unfolding finish
  sent-finish symbol r f = elim (Option-cases (broadcast symbol r f.shared)) [
    | inl e ↦ (
      ground (arith, broadcast-none symbol r f.shared e, append-nil f.sent),
      ground (arith, broadcast-none symbol r f.shared e),
    )
    | inr (t, e) ↦
        let (s, w, _) = broadcast_lem symbol r f.shared t symbol e in
        (ground (arith, s), ground (arith, w))
  ]

  -- The state with the update in it, before the senders are served.
  noted_state :
      MarketType → String → ℕ → OrderBookUpdate D → List (Noted D) → GateFeed D → GateFeed D
  noted_state market symbol r u messages f =
      let b = (apply_update u (f.books r)).0 in
      let h = keep_history u.bids (or_empty (HashMap.get symbol f.history)) in
      hit_breakpoint market symbol messages b (record f {
        shared = set_book r b f.shared;
        backup = HashMap.insert symbol messages f.backup;
        history = HashMap.insert symbol h f.history;
      })

  module _ (market : MarketType) (symbol : String) (r : ℕ) (u : OrderBookUpdate D)
      (messages : List (Noted D)) (f : GateFeed D) where
    noted : GateFeed D
    noted = noted_state market symbol r u messages f

    noted-shared : noted.shared ≡ set_book r (apply_update u (f.books r)).0 f.shared
    unfolding noted noted_state
    noted-shared = shared-hit_breakpoint market symbol messages _ _

    noted-history :
        or_empty (HashMap.get symbol noted.history)
        ≡ keep_history u.bids (or_empty (HashMap.get symbol f.history))
    unfolding noted noted_state or_empty
    noted-history =
        let h = keep_history u.bids (or_empty (HashMap.get symbol f.history)) in
        rw (history-hit_breakpoint market symbol messages _ _, get-insert symbol symbol h f.history)
          (ground (arith, eq_iff symbol symbol))

    served : GateFeed D
    served = finish symbol r noted

    served-book : served.books r ≡ (apply_update u (f.books r)).0
    unfolding served
    served-book =
        ap (λ k. k r) (books-finish symbol r noted)
        ∙ ap (λ s. s.books r) noted-shared
        ∙ ground arith

    served-history :
        or_empty (HashMap.get symbol served.history)
        ≡ keep_history u.bids (or_empty (HashMap.get symbol f.history))
    unfolding served
    served-history =
        ap (λ h. or_empty (HashMap.get symbol h)) (history-finish symbol r noted) ∙ noted-history

    served-sent :
        (served.sent ≡ f.sent ++ map (λ tx. (tx, r)) (waiting symbol f.shared))
        × (waiting symbol served.shared ≡ [])
    unfolding served
    served-sent =
        let (s, w) = sent-finish symbol r noted in
        (s ∙ ap (λ t. t.sent ++ map (λ tx. (tx, r)) (waiting symbol t)) noted-shared, w)

    module _ (i : InStep symbol r f) where
      served-InStep : InStep symbol r served
      served-InStep = record {
        book = subst IsBook (sym served-book) (apply_update-IsBook u (f.books r) i.book);
        known =
            rw (served-book, served-history) (apply_update-Known u (f.books r) _ i.book i.known);
      }

      -- The check of the bids against the history passes.
      broadcast_noted-some : broadcast_noted market symbol r u messages f ≡ some served
      unfolding broadcast_noted served noted noted_state
      broadcast_noted-some =
          let b = apply_update-IsBook u (f.books r) i.book in
          rw (Known-all_known _ _ b.bids_sorted (apply_update-Known u (f.books r) _ i.book i.known))

      served-Publishes :
          (o : Outcome D (GateFeed D)) → o ≡ returns true served → Publishes symbol r u f o
      served-Publishes o e = record {
        state = served;
        returned = e;
        applied = served-book;
        sent = served-sent.0;
        emptied = served-sent.1;
        in_step = served-InStep;
      }

  -- The header of a message that is for the symbol, whose book is `r`.
  pub record Arrives (m : Message D) (symbol : String) (last first r : ℕ) (f : GateFeed D)
      : Type 0 where
    pub symbol_read : m.symbol ≡ some symbol
    pub last_read : m.last_update_id ≡ some last
    pub first_read : m.first_update_id ≡ some first
    pub found : HashMap.get symbol f.subscribed ≡ some r

  handle-live :
      (market : MarketType) (m : Message D) (symbol : String) (last first r : ℕ) (f : GateFeed D)
      → Arrives m symbol last first r f
      → (f.books r).update_id ≢ 0
      → (f.books r).update_id ≢ 1
      → handle_message market m f ≡ live market symbol last first r m (keep_text symbol m.text f)
  unfolding handle_message
  handle-live market m symbol last first r f a n0 n1 = ground arith

  note-last :
      (fs : List (Failure D)) (xs : List (Noted D)) (x : Noted D)
      → (ys : List (Noted D)) × (note fs (xs ++ x ∷ []) ≡ some ys)
  note-last fs [] x = note-some fs x []
  note-last fs (y ∷ xs) x = note-some fs y (xs ++ x ∷ [])

  keep_text-InStep :
      (symbol text : String) (r : ℕ) (f : GateFeed D)
      → InStep symbol r f
      → InStep symbol r (keep_text symbol text f)
  unfolding keep_text
  keep_text-InStep symbol text r f i = record { book = i.book; known = i.known }

  keep_text-Publishes :
      (symbol text : String) (r : ℕ) (u : OrderBookUpdate D) (f : GateFeed D)
      (o : Outcome D (GateFeed D))
      → Publishes symbol r u (keep_text symbol text f) o
      → Publishes symbol r u f o
  unfolding keep_text
  keep_text-Publishes symbol text r u f o p = record {
    state = p.state;
    returned = p.returned;
    applied = p.applied;
    sent = p.sent;
    emptied = p.emptied;
    in_step = p.in_step;
  }

  kept_update :
      (market : MarketType) (symbol text : String) (r : ℕ) (u : OrderBookUpdate D) (f : GateFeed D)
      (ys : List (Noted D))
      → note
          (apply_update u (f.books r)).1
          (or_empty (HashMap.get symbol f.backup) ++ (text, []) ∷ [])
        ≡ some ys
      → broadcast_update market symbol r u (keep_text symbol text f)
        ≡ broadcast_noted market symbol r u ys (keep_text symbol text f)
  unfolding keep_text broadcast_update
  kept_update market symbol text r u f ys e =
      let kept = or_empty (HashMap.get symbol f.backup) ++ (text, []) ∷ [] in
      ground (arith, e, get-insert symbol symbol kept f.backup, eq_iff symbol symbol)

  -- Once its message is kept, an update is published.
  publishes :
      (market : MarketType) (symbol text : String) (r : ℕ) (u : OrderBookUpdate D) (f : GateFeed D)
      → InStep symbol r f
      → Publishes symbol r u f
          (after_broadcast (broadcast_update market symbol r u (keep_text symbol text f)))
  publishes market symbol text r u f i =
      let g = keep_text symbol text f in
      let old = or_empty (HashMap.get symbol f.backup) in
      let (ys, e) = note-last (apply_update u (f.books r)).1 old (text, []) in
      let step = keep_text-InStep symbol text r f i in
      keep_text-Publishes symbol text r u f _ (
        served-Publishes market symbol r u ys g step _ (
          ap after_broadcast (
            kept_update market symbol text r u f ys e
            ∙ broadcast_noted-some market symbol r u ys g step)))

  module _ (market : MarketType) (m : Message D) (symbol : String) (last first r : ℕ)
      (f : GateFeed D) (arrives : Arrives m symbol last first r f)
      (is_live : 1 < (f.books r).update_id) where
    -- A message whose header can be read, for a subscribed symbol with a live book, that leaves a
    -- gap behind the book or is wholly in it, empties the book and resets its id to 0; no sender
    -- is served and none is dropped.
    pub gate_gap :
        (inc64 (f.books r).update_id < first) ⊎ (last < inc64 (f.books r).update_id)
        → (g : GateFeed D) × (handle_message market m f ≡ returns true g)
          × (g.books r ≡ cleared)
          × (g.sent ≡ f.sent)
          × (g.pending ≡ f.pending)
    gate_gap h = (
      record (keep_text symbol m.text f) { shared = set_book r cleared f.shared },
      handle-live market m symbol last first r f arrives (omega arith) (omega arith)
          ∙ (unfold live keep_text in ground arith),
      ground arith,
      refl,
      refl,
    )

    continues :
        (u : OrderBookUpdate D)
        → first ≤ inc64 (f.books r).update_id
        → inc64 (f.books r).update_id ≤ last
        → build_update m.full last first m ≡ some u
        → live market symbol last first r m (keep_text symbol m.text f)
          ≡ after_broadcast (broadcast_update market symbol r u (keep_text symbol m.text f))
    unfolding live keep_text publish
    continues u lo hi built = ground arith

    -- A message whose header and sides can be read, for a subscribed symbol with a live book that
    -- is well formed and whose bids are in the history, and that continues the book, is applied
    -- to it; the handler does not panic, the book and the history stay in step, every sender that
    -- waits for the symbol is sent the book, in order, and none is left waiting.
    pub gate_serves :
        (u : OrderBookUpdate D)
        → first ≤ inc64 (f.books r).update_id
        → inc64 (f.books r).update_id ≤ last
        → build_update m.full last first m ≡ some u
        → InStep symbol r f
        → Publishes symbol r u f (handle_message market m f)
    gate_serves u lo hi built i =
        subst (Publishes symbol r u f)
          (sym (
            handle-live market m symbol last first r f arrives (omega arith) (omega arith)
            ∙ continues u lo hi built))
          (publishes market symbol m.text r u f i)
