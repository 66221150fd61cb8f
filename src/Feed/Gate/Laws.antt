-- ===== src/Feed/Gate/Laws.antt =====
-- How Gate's books are brought in step with the exchange and kept so
-- (src/exchange/gate/public/sub_client.rs).
use arbexpert_backend.Base.{
  ℕ, ◌+◌, ◌^◌, ◌<◌, String, ◌≡◌, refl, true, false, some, List, [], ◌∷◌, ◌++◌, arith, All, subst,
  All-mono,
}
use arbexpert_backend.Std.HashMap
use arbexpert_backend.Std.HashMap.{get-insert}
use arbexpert_backend.Decimal.{Decimal}
use arbexpert_backend.OrderBook.{OrderBook, OrderBookUpdate, apply_update}
use arbexpert_backend.OrderBook.Update.{apply_all, update_id-apply_update}
use arbexpert_backend.SubClient.{set_book}
use arbexpert_backend.Feed.{Outcome, returns, from_first}
use arbexpert_backend.Feed.Sync.{
  chain, Contiguous, Splits, from_first-Splits, from_first-All, Contiguous-All,
}
use arbexpert_backend.Feed.Gate.{
  GateFeed, Noted, note, replay, keep_history, insert_all, or_empty, install, look,
}

module _ {D : Type 0} ⦃d : Decimal D⦄ where
  -- The replay of a chain applies every update.
  replay-chain :
      (us : List (OrderBookUpdate D)) (b : OrderBook D) (h : List D)
      → All (λ u. 0 < u.last_update_id) us
      → chain b.update_id us ≡ true
      → (replay us b h).0 ≡ apply_all us b
  unfolding replay apply_all
  replay-chain [] b h p c = refl
  replay-chain (u ∷ us) b h p c =
      let b' = (apply_update u b).0 in
      ground (arith, update_id-apply_update u b p.0, replay-chain us b' (keep_history u.bids h) p.1)

  -- The replay of a stream that is no chain leaves the id 0.
  replay-broken :
      (us : List (OrderBookUpdate D)) (b : OrderBook D) (h : List D)
      → All (λ u. 0 < u.last_update_id) us
      → chain b.update_id us ≡ false
      → (replay us b h).0.update_id ≡ 0
  unfolding replay
  replay-broken [] b h p c = cc
  replay-broken (u ∷ us) b h p c =
      let b' = (apply_update u b).0 in
      ground
        (arith, update_id-apply_update u b p.0, replay-broken us b' (keep_history u.bids h) p.1)

  pub note-some :
      (fs : List (_)) (m : Noted D) (ms : List (Noted D))
      → (r : List (Noted D)) × (note fs (m ∷ ms) ≡ some r)
  unfolding note
  note-some fs m [] = ((m.0, m.1 ++ fs ∷ []) ∷ [], refl)
  note-some fs m (n ∷ ms) = let (r, e) = note-some fs n ms in (m ∷ r, ground (arith, e))

  -- What the look at the buffer makes of the handler's state.
  pub record Installs (r : ℕ) (b : OrderBook D) (o : Outcome D (GateFeed D)) : Type 0 where
    pub state : GateFeed D
    pub returned : o ≡ returns true state
    pub book : state.books r ≡ b

  install-Installs :
      (symbol : String) (r : ℕ) (snapshot : OrderBook D) (us : List (OrderBookUpdate D))
      (f : GateFeed D) (m : Noted D) (ms : List (Noted D))
      → HashMap.get symbol f.backup ≡ some (m ∷ ms)
      → (h : List D) × Installs r (replay us snapshot h).0 (install symbol r snapshot us f)
  unfolding install
  install-Installs symbol r snapshot us f m ms e =
      let h = insert_all snapshot.bids (or_empty (HashMap.get symbol f.history)) in
      let (b, h', fs) = replay us snapshot h in
      let (noted, n) = note-some fs m ms in
      (
        h,
        record {
          state = record f {
            shared = set_book r b f.shared;
            history = HashMap.insert symbol h' f.history;
            backup = HashMap.insert symbol noted f.backup;
          };
          returned = ground (arith, e, n);
          book = ground arith;
        },
      )

  module _ (symbol : String) (r retries : ℕ) (snapshot : OrderBook D) (f : GateFeed D)
      (us rest : List (OrderBookUpdate D)) (m : Noted D) (ms : List (Noted D)) (tries : retries < 5)
      (buffered : HashMap.get symbol f.init ≡ some us)
      (kept : HashMap.get symbol f.backup ≡ some (m ∷ ms))
      (found : from_first snapshot.update_id us ≡ some rest) where
    look-install :
        look symbol r snapshot retries f
        ≡ install symbol r snapshot rest (record f { init = HashMap.insert symbol [] f.init })
    unfolding look
    look-install = ground arith

    -- Where fewer than five looks were taken, a message of the symbol is kept, the buffer holds
    -- an update which follows on the snapshot, and every buffered update has an id: the look ends
    -- the handler. If the updates from there on continue one another, the book is the snapshot
    -- with all of them applied; if not, its id is 0, so that the next message asks for a snapshot
    -- again.
    pub gate_replays :
        All (λ u. 0 < u.last_update_id) us
        → (b : OrderBook D) × Installs r b (look symbol r snapshot retries f)
          × (chain snapshot.update_id rest ≡ true → b ≡ apply_all rest snapshot)
          × (chain snapshot.update_id rest ≡ false → b.update_id ≡ 0)
    gate_replays p =
        let (h, i) =
          install-Installs symbol r snapshot rest
            (record f { init = HashMap.insert symbol [] f.init }) m ms kept in
        let q = from_first-All (λ u. 0 < u.last_update_id) snapshot.update_id us rest p found in
        (
          (replay rest snapshot h).0,
          rw look-install i,
          replay-chain rest snapshot h q,
          replay-broken rest snapshot h q,
        )

    -- Where fewer than five looks were taken, a message of the symbol is kept, the buffer holds
    -- an update which follows on the snapshot, the ids are below 2 ^ 64 - 1, and the exchange
    -- sent the buffered updates without holes: the book is the snapshot with every update applied
    -- that is not wholly in the snapshot, and no other.
    pub gate_in_step :
        snapshot.update_id + 1 < 2 ^ 64
        → Contiguous us
        → Splits snapshot.update_id us rest
          × Installs r (apply_all rest snapshot) (look symbol r snapshot retries f)
    gate_in_step b c =
        let s = from_first-Splits snapshot.update_id us rest b c found in
        let p = All-mono _ _ (λ u h. h.1) us (Contiguous-All us c) in
        let (book, i, exact, _) = gate_replays p in
        (s, subst (λ x. Installs r x (look symbol r snapshot retries f)) (exact s.chained) i)
