-- ===== src/Mexc/Sync.antt =====
-- What a message of Mexc does to the book and to the tasks that wait for it
-- (src/exchange/mexc/public/sub_client.rs).
use arbexpert_backend.Base.{
  ℕ, ◌+◌, ◌%◌, ◌^◌, ◌<◌, String, ◌≡◌, refl, subst, ap, ◌∙◌, Bool, true, false, Option, none, some,
  List, [], ◌∷◌, ◌++◌, map, arith, ◌==◌, Option-cases, Option_split, inl, inr, ltb, if_true,
  elim_some, if◌then◌else◌, eq_iff, inc64,
}
use mathlib.Core.Option.{some-injective}
use arbexpert_backend.Std.HashMap
use arbexpert_backend.Std.HashMap.{HashMap, get-insert}
use arbexpert_backend.Std.Text.{contains_text, after_last}
use arbexpert_backend.Decimal.{Decimal}
use arbexpert_backend.OrderBook.{OrderBook, OrderBookUpdate, empty_book, apply_update, has_levels}
use arbexpert_backend.OrderBook.Update.{apply_all}
use arbexpert_backend.Mexc.{
  Item, parse_side, parse_item, depths, MexcClient, returns, broadcast, apply_items, publish,
  on_book, handle_binary, depth_channel,
}

count_next :
    (id next last n : ℕ) (counts : Bool)
    → id < 2 ^ 64
    → next ≡ (if counts then inc64 id else id)
    → (next < 2 ^ 64)
      × (last ≡ (next + n) % 2 ^ 64 → last ≡ (id + (if counts then n + 1 else n)) % 2 ^ 64)
count_next id next last n true h e = (ground arith, λ k. ground arith)
count_next id next last n false h e = (ground arith, λ k. ground arith)

fresh_iff :
    (id n last : ℕ)
    → id < 2 ^ 64
    → n < 2 ^ 64
    → last ≡ (id + n) % 2 ^ 64
    → (if id == last then false else true) ≡ ltb 0 n
fresh_iff id n last h k e = ground arith

module _ {D : Type 0} ⦃d : Decimal D⦄ where
  -- A batch whose prices and quantities are all numbers, as updates.
  unfoldable pub parse_all : List (Item D) → Option (List (OrderBookUpdate D))
  parse_all [] = some []
  parse_all (i ∷ is) = elim (parse_item i) [
    | none ↦ none
    | some u ↦ elim (parse_all is) [ none ↦ none | some us ↦ some (u ∷ us) ]
  ]

  -- How many updates have a level.
  unfoldable pub changing : List (OrderBookUpdate D) → ℕ
  changing [] = 0
  changing (u ∷ us) = let rest = changing us in if has_levels u then rest + 1 else rest

  parse_all-cons :
      (i : Item D) (is : List (Item D)) (us : List (OrderBookUpdate D))
      → parse_all (i ∷ is) ≡ some us
      → (v : OrderBookUpdate D) × (vs : List (OrderBookUpdate D)) × (parse_item i ≡ some v)
        × (parse_all is ≡ some vs)
        × (v ∷ vs ≡ us)
  unfolding parse_all
  parse_all-cons i is us e = elim (Option-cases (parse_item i)) [
    | inl k ↦ absurd (ground (arith, k, e))
    | inr (v, k) ↦ elim (Option-cases (parse_all is)) [
      | inl l ↦ absurd (ground (arith, k, l, e))
      | inr (vs, l) ↦ (v, vs, k, l, some-injective (v ∷ vs) us (ground (arith, k, l, e)))
    ]
  ]

  apply_items-cons :
      (i : Item D) (is : List (Item D)) (v : OrderBookUpdate D) (b : OrderBook D)
      → parse_item i ≡ some v
      → apply_items (i ∷ is) b ≡ apply_items is (apply_update v b).0
  unfolding apply_items
  apply_items-cons i is v b k =
      ap (λ o. elim o [ none ↦ none | some u ↦ apply_items is (apply_update u b).0 ]) k

  -- The items are the updates, in their order.
  apply_items-parsed :
      (is : List (Item D)) (us : List (OrderBookUpdate D)) (b : OrderBook D)
      → parse_all is ≡ some us
      → apply_items is b ≡ some (apply_all us b)
  unfolding parse_all apply_items apply_all
  apply_items-parsed [] us b e = ap (λ vs. some (apply_all vs b)) (some-injective [] us e)
  apply_items-parsed (i ∷ is) us b e =
      let (v, vs, k, l, q) = parse_all-cons i is us e in
      apply_items-cons i is v b k
      ∙ apply_items-parsed is vs (apply_update v b).0 l
      ∙ ap (λ ws. some (apply_all ws b)) q

  -- An update without an id.
  IsPlain : Option (OrderBookUpdate D) → Type 0
  IsPlain none = Unit
  IsPlain (some u) = u.last_update_id ≡ 0

  parse_item-IsPlain : (i : Item D) → IsPlain (parse_item i)
  unfolding parse_item IsPlain
  parse_item-IsPlain i =
      Option_split IsPlain (parse_side i.asks) _ _ (λ e. tt)
        λ asks e. Option_split IsPlain (parse_side i.bids) _ _ (λ k. tt) λ bids k. refl

  update_id-plain :
      (u : OrderBookUpdate D) (b : OrderBook D)
      → u.last_update_id ≡ 0
      → (apply_update u b).0.update_id ≡ (if has_levels u then inc64 b.update_id else b.update_id)
  unfolding apply_update
  update_id-plain u b h = ground (arith, h)

  update_id-apply_all :
      (is : List (Item D)) (us : List (OrderBookUpdate D)) (b : OrderBook D)
      → parse_all is ≡ some us
      → b.update_id < 2 ^ 64
      → (apply_all us b).update_id ≡ (b.update_id + changing us) % 2 ^ 64
  unfolding changing apply_all parse_all IsPlain
  update_id-apply_all [] [] b e h = ground arith
  update_id-apply_all [] (u ∷ us) b e h = absurd (ground (arith, e))
  update_id-apply_all (i ∷ is) us b e h =
      let (v, vs, k, l, q) = parse_all-cons i is us e in
      let step = update_id-plain v b (subst IsPlain k (parse_item-IsPlain i)) in
      let (small, next) =
        count_next b.update_id _ (apply_all vs (apply_update v b).0).update_id (changing vs) _ h
          step in
      subst (λ ws. (apply_all ws b).update_id ≡ (b.update_id + changing ws) % 2 ^ 64) q
        (next (update_id-apply_all is vs (apply_update v b).0 l small))

  broadcast_waiting :
      (symbol : String) (book : OrderBook D) (c : MexcClient D) (txs : List ℕ)
      → HashMap.get symbol c.pending ≡ some txs
      → broadcast symbol book c ≡ (
        record c {
          pending = HashMap.insert symbol [] c.pending;
          sent = c.sent ++ map (λ tx. (tx, book)) txs;
        },
        true,
      )
  unfolding broadcast
  broadcast_waiting symbol book c txs e =
      ap
        (λ o. elim o [
          | none ↦ (c, false)
          | some xs ↦ (
            record c {
              pending = HashMap.insert symbol [] c.pending;
              sent = c.sent ++ map (λ tx. (tx, book)) xs;
            },
            true,
          )
        ])
        e

  -- The client once `book` is stored for the symbol and, if it is `new`, sent to the waiting tasks.
  pub stored : Bool → String → OrderBook D → List ℕ → MexcClient D → MexcClient D
  stored fresh symbol book txs c =
      let kept = record c { subscribed = HashMap.insert symbol book c.subscribed } in
      if fresh
      then record kept {
        pending = HashMap.insert symbol [] c.pending;
        sent = c.sent ++ map (λ tx. (tx, book)) txs;
      }
      else kept

  stored_if :
      (same : Bool) (symbol : String) (book : OrderBook D) (c : MexcClient D) (txs : List ℕ)
      (kept : MexcClient D)
      → kept ≡ record c { subscribed = HashMap.insert symbol book c.subscribed }
      → HashMap.get symbol kept.pending ≡ some txs
      → (if same
          then returns true kept
          else returns (broadcast symbol book kept).1 (broadcast symbol book kept).0)
        ≡ returns true (stored (if same then false else true) symbol book txs c)
  unfolding stored
  stored_if true symbol book c txs kept h e = ap (returns true) h
  stored_if false symbol book c txs kept h e =
      ap (λ r. returns r.1 r.0) (broadcast_waiting symbol book kept txs e)
      ∙ ap
          (λ k. returns true (record k {
            pending = HashMap.insert symbol [] k.pending;
            sent = k.sent ++ map (λ tx. (tx, book)) txs;
          }))
          h

  publish-stored :
      (symbol : String) (old : ℕ) (book : OrderBook D) (c : MexcClient D) (txs : List ℕ)
      → HashMap.get symbol c.pending ≡ some txs
      → publish symbol old book c
        ≡ returns true (stored (if old == book.update_id then false else true) symbol book txs c)
  unfolding publish
  publish-stored symbol old book c txs e =
      stored_if (old == book.update_id) symbol book c txs
        (record c { subscribed = HashMap.insert symbol book c.subscribed }) refl e

  -- A batch for a subscribed symbol, in which each price and quantity is a number and fewer than
  -- 2^64 items have a level: the book becomes the one with all items applied in order, its id
  -- counts the items that have a level (modulo 2^64), and each task that waits is sent the book, in
  -- order, and none waits any more; if no item has a level, no task is sent to.
  pub mexc_serves :
      (channel : String) (items : List (Item D)) (us : List (OrderBookUpdate D)) (b : OrderBook D)
      (txs : List ℕ) (c : MexcClient D)
      → contains_text depth_channel channel ≡ true
      → HashMap.get (after_last b'@' channel) c.subscribed ≡ some b
      → HashMap.get (after_last b'@' channel) c.pending ≡ some txs
      → parse_all items ≡ some us
      → b.update_id < 2 ^ 64
      → changing us < 2 ^ 64
      → (handle_binary (some (record { channel = channel; body = some (depths items) })) c
          ≡ returns true
              (stored (ltb 0 (changing us)) (after_last b'@' channel) (apply_all us b) txs c))
        × ((apply_all us b).update_id ≡ (b.update_id + changing us) % 2 ^ 64)
  unfolding handle_binary on_book
  mexc_serves channel items us b txs c fits k waits p h n =
      let counted = update_id-apply_all items us b p h in
      (
        if_true _ _ _ fits
            ∙ elim_some _ _ _ b k
            ∙ elim_some _ _ _ (apply_all us b) (apply_items-parsed items us b p)
            ∙ publish-stored (after_last b'@' channel) b.update_id (apply_all us b) c txs waits
            ∙ ap (λ f. returns true (stored f (after_last b'@' channel) (apply_all us b) txs c))
                (fresh_iff b.update_id (changing us) _ h n counted),
        counted,
      )

  -- A message for a subscribed symbol that has no body leaves an empty book in the place of the
  -- symbol's, and sends nothing.
  pub mexc_loses_book :
      (channel : String) (b : OrderBook D) (c : MexcClient D)
      → contains_text depth_channel channel ≡ true
      → HashMap.get (after_last b'@' channel) c.subscribed ≡ some b
      → (t : MexcClient D) × (handle_binary (some (record { channel = channel; body = none })) c
          ≡ returns false t)
        × (HashMap.get (after_last b'@' channel) t.subscribed ≡ some empty_book)
        × (t.sent ≡ c.sent)
  unfolding handle_binary on_book
  mexc_loses_book channel b c fits k =
      let symbol = after_last b'@' channel in
      (
        record c { subscribed = HashMap.insert symbol empty_book c.subscribed },
        if_true _ _ _ fits ∙ elim_some _ _ _ b k,
        ground (arith, get-insert symbol symbol empty_book c.subscribed, eq_iff symbol symbol),
        refl,
      )
