-- ===== src/Mexc/Books.antt =====
-- What every order of calls and messages keeps of the books of a Mexc client
-- (src/exchange/mexc/public/sub_client.rs).
use arbexpert_backend.Base.{
  ℕ, String, ◌≡◌, refl, subst, Bool, true, Option, none, some, List, [], ◌∷◌, ◌++◌, is_some, arith,
  eq_iff, str_eq, Option-cases, Bool-cases, Option_split, if_split, if_elim, ◌==◌, inl, inr,
  if◌then◌else◌,
}
use mathlib.Core.Option.{some-injective}
use arbexpert_backend.Std.HashMap
use arbexpert_backend.Std.HashMap.{HashMap, get-insert, get-remove, get-or_insert}
use arbexpert_backend.Std.Text.{contains_text, after_last}
use arbexpert_backend.Decimal.{Decimal}
use arbexpert_backend.OrderBook.{OrderBook, empty_book, apply_update}
use arbexpert_backend.OrderBook.Update.{IsBook, empty_book-IsBook, apply_update-IsBook}
use arbexpert_backend.Mexc.{
  Item, parse_item, Body, depths, other, PushData, MexcClient, Handled, returns, panics, new,
  on_fail, has_symbol, broadcast, apply_items, publish, on_book, handle_binary, depth_channel,
  subscribe_new, register, watch, unwatch,
}

module _ {D : Type 0} ⦃d : Decimal D⦄ where
  -- Every subscribed symbol has an entry in `pending`, and every book is well formed.
  pub record IsKept (c : MexcClient D) : Type 0 where
    pub covered :
        (k : String)
        → is_some (HashMap.get k c.subscribed) ≡ true
        → is_some (HashMap.get k c.pending) ≡ true
    pub books : (k : String) (b : OrderBook D) → HashMap.get k c.subscribed ≡ some b → IsBook b

  pub new-IsKept : IsKept new
  unfolding new HashMap.get
  new-IsKept = record { covered = λ k h. cc; books = λ k b h. absurd (ground arith) }

  on_fail-IsKept : (c : MexcClient D) → IsKept (on_fail c)
  unfolding on_fail HashMap.get
  on_fail-IsKept c = record { covered = λ k h. cc; books = λ k b h. absurd (ground arith) }

  -- A book of a map into which one was put is that one, or one from before.
  get-inserted :
      (k symbol : String) (b x : OrderBook D) (m : HashMap (OrderBook D))
      → IsBook x
      → ((j : String) (y : OrderBook D) → HashMap.get j m ≡ some y → IsBook y)
      → HashMap.get k (HashMap.insert symbol x m) ≡ some b
      → IsBook b
  get-inserted k symbol b x m i h e = elim (Bool-cases (str_eq symbol k)) [
    | inl s ↦ subst IsBook (some-injective x b (ground (arith, s, e, get-insert k symbol x m))) i
    | inr s ↦ h k b (ground (arith, s, e, get-insert k symbol x m))
  ]

  put-IsKept :
      (symbol : String) (b x : OrderBook D) (c : MexcClient D)
      → IsKept c
      → HashMap.get symbol c.subscribed ≡ some b
      → IsBook x
      → IsKept (record c { subscribed = HashMap.insert symbol x c.subscribed })
  put-IsKept symbol b x c h e i = record {
    covered =
        λ k p. ground (arith, h.covered k, e, get-insert k symbol x c.subscribed, eq_iff symbol k);
    books = λ k y p. get-inserted k symbol y x c.subscribed i h.books p;
  }

  broadcast-IsKept :
      (symbol : String) (b : OrderBook D) (c : MexcClient D)
      → IsKept c
      → IsKept (broadcast symbol b c).0
  unfolding broadcast
  broadcast-IsKept symbol b c h =
      Option_split {B = MexcClient D × Bool} (λ r. IsKept r.0) (HashMap.get symbol c.pending) _ _
        (λ e. h)
        (λ txs e. record {
          covered = λ k p. ground (arith, h.covered k, get-insert k symbol [] c.pending);
          books = h.books;
        })

  apply_items-IsBook :
      (is : List (Item D)) (b x : OrderBook D) → IsBook b → apply_items is b ≡ some x → IsBook x
  unfolding apply_items
  apply_items-IsBook [] b x h e = subst IsBook (some-injective b x e) h
  apply_items-IsBook (i ∷ is) b x h e = elim (Option-cases (parse_item i)) [
    | inl k ↦ absurd (ground (arith, k, e))
    | inr (u, k) ↦
        apply_items-IsBook is (apply_update u b).0 x (apply_update-IsBook u b h)
          (ground (arith, k, e))
  ]

  -- The state that the handler leaves, where it does not panic.
  abbrev Leaves : Handled D → Type 0
  Leaves (returns ok c) = IsKept c
  Leaves panics = Unit

  publish-IsKept :
      (symbol : String) (old : ℕ) (b x : OrderBook D) (c : MexcClient D)
      → IsKept c
      → HashMap.get symbol c.subscribed ≡ some b
      → IsBook x
      → Leaves (publish symbol old x c)
  unfolding publish
  publish-IsKept symbol old b x c h e i =
      let kept = put-IsKept symbol b x c h e i in
      if_split Leaves (old == x.update_id) _ _ (λ same. kept)
        (λ moved. broadcast-IsKept symbol x _ kept)

  on_book-IsKept :
      (symbol : String) (b : OrderBook D) (body : Option (Body D)) (c : MexcClient D)
      → IsKept c
      → HashMap.get symbol c.subscribed ≡ some b
      → Leaves (on_book symbol b body c)
  unfolding on_book
  on_book-IsKept symbol b none c h e = put-IsKept symbol b empty_book c h e empty_book-IsBook
  on_book-IsKept symbol b (some other) c h e =
      publish-IsKept symbol b.update_id b b c h e (h.books symbol b e)
  on_book-IsKept symbol b (some (depths items)) c h e =
      Option_split Leaves (apply_items items b) _ _ (λ k. tt)
        λ x k.
          publish-IsKept symbol b.update_id b x c h e
            (apply_items-IsBook items b x (h.books symbol b e) k)

  handle_binary-IsKept :
      (w : Option (PushData D)) (c : MexcClient D) → IsKept c → Leaves (handle_binary w c)
  unfolding handle_binary
  handle_binary-IsKept none c h = h
  handle_binary-IsKept (some w) c h =
      if_split Leaves (contains_text depth_channel w.channel) _ _
        (λ fits.
          Option_split Leaves (HashMap.get (after_last b'@' w.channel) c.subscribed) _ _ (λ e. h)
            λ b e. on_book-IsKept (after_last b'@' w.channel) b w.body c h e)
        (λ misses. h)

  -- The state and the tasks' steps: the pieces of `watch` and `unwatch`, the messages, and a failure.
  pub data Step (c : MexcClient D) : MexcClient D → Type 0 where
    watches :
        (symbol : String) (tx : ℕ) (sends : Bool) (t : MexcClient D) (ok : Bool)
        → watch symbol tx sends c ≡ some (t, ok)
        → Step c t
    unwatches : (symbol : String) (sends : Bool) → Step c (unwatch symbol sends c).0
    handles :
        (w : Option (PushData D)) (ok : Bool) (t : MexcClient D)
        → handle_binary w c ≡ returns ok t
        → Step c t
    fails : Step c (on_fail c)

  pub data Reach (c : MexcClient D) : MexcClient D → Type 0 where
    here : Reach c c
    next : {t u : MexcClient D} → Reach c t → Step t u → Reach c u

  unwatch-IsKept :
      (symbol : String) (sends : Bool) (c : MexcClient D)
      → IsKept c
      → IsKept (unwatch symbol sends c).0
  unfolding unwatch
  unwatch-IsKept symbol sends c h =
      if_split {A = MexcClient D × Bool} (λ r. IsKept r.0) (has_symbol symbol c) _ _
        (λ known. record {
          covered = λ k p.
              ground (
                arith,
                h.covered k,
                get-remove k symbol c.subscribed,
                get-remove k symbol c.pending,
              );
          books = λ k b p. h.books k b (ground (arith, p, get-remove k symbol c.subscribed));
        })
        (λ unknown. h)

  subscribe_new-IsKept :
      (symbol : String) (c : MexcClient D) → IsKept c → IsKept (subscribe_new symbol c)
  unfolding subscribe_new
  subscribe_new-IsKept symbol c h = record {
    covered = λ k p. ground (
      arith,
      h.covered k,
      get-insert k symbol empty_book c.subscribed,
      get-or_insert k symbol [] c.pending,
    );
    books = λ k b p. get-inserted k symbol b empty_book c.subscribed empty_book-IsBook h.books p;
  }

  -- The state in which `watch` looks for the entry of `pending`.
  entered : String → MexcClient D → MexcClient D
  entered symbol c = if has_symbol symbol c then c else subscribe_new symbol c

  entered-IsKept : (symbol : String) (c : MexcClient D) → IsKept c → IsKept (entered symbol c)
  unfolding entered
  entered-IsKept symbol c h =
      if_elim IsKept (has_symbol symbol c) _ _ h (subscribe_new-IsKept symbol c h)

  entered-pending :
      (symbol : String) (c : MexcClient D)
      → IsKept c
      → is_some (HashMap.get symbol (entered symbol c).pending) ≡ true
  unfolding entered has_symbol subscribe_new
  entered-pending symbol c h =
      ground
        (arith, h.covered symbol, get-or_insert symbol symbol [] c.pending, eq_iff symbol symbol)

  queued-IsKept :
      (symbol : String) (txs : List ℕ) (c : MexcClient D)
      → IsKept c
      → IsKept (record c { pending = HashMap.insert symbol txs c.pending })
  queued-IsKept symbol txs c h = record {
    covered = λ k p. ground (arith, h.covered k, get-insert k symbol txs c.pending);
    books = h.books;
  }

  -- What `watch` leaves.
  abbrev Watched : Option (MexcClient D × Bool) → Type 0
  Watched none = ⊥
  Watched (some r) = IsKept r.0

  register-IsKept :
      (symbol : String) (tx : ℕ) (c : MexcClient D) → IsKept c → Watched (register symbol tx c)
  unfolding register entered
  register-IsKept symbol tx c h =
      let k = entered-IsKept symbol c h in
      Option_split Watched (HashMap.get symbol (entered symbol c).pending) _ _
        (λ e. absurd (ground (arith, e, entered-pending symbol c h)))
        λ txs e. queued-IsKept symbol (txs ++ tx ∷ []) (entered symbol c) k

  sent-Watched :
      (sends : Bool) (r : Option (MexcClient D × Bool))
      → Watched r
      → Watched (elim r [ none ↦ none | some x ↦ some (x.0, if x.1 then sends else true) ])
  sent-Watched sends none h = h
  sent-Watched sends (some x) h = h

  watch-IsKept :
      (symbol : String) (tx : ℕ) (sends : Bool) (c : MexcClient D)
      → IsKept c
      → Watched (watch symbol tx sends c)
  unfolding watch
  watch-IsKept symbol tx sends c h =
      sent-Watched sends (register symbol tx c) (register-IsKept symbol tx c h)

  Step-IsKept : {c t : MexcClient D} → IsKept c → Step c t → IsKept t
  Step-IsKept {c} h (watches symbol tx sends t ok e) =
      subst Watched e (watch-IsKept symbol tx sends c h)
  Step-IsKept {c} h (unwatches symbol sends) = unwatch-IsKept symbol sends c h
  Step-IsKept {c} h (handles w ok t e) = subst Leaves e (handle_binary-IsKept w c h)
  Step-IsKept {c} h fails = on_fail-IsKept c

  Reach-IsKept : {c t : MexcClient D} → IsKept c → Reach c t → IsKept t
  Reach-IsKept h here = h
  Reach-IsKept h (next r st) = Step-IsKept (Reach-IsKept h r) st

  is_some-Watched : (r : Option (MexcClient D × Bool)) → Watched r → is_some r ≡ true
  is_some-Watched none h = absurd h
  is_some-Watched (some x) h = refl

  -- Whatever calls, messages and failures a new client had: every book that it keeps is well formed,
  -- and a `watch` does not panic on its `unwrap`.
  pub mexc_keeps_books :
      (c : MexcClient D) (symbol : String) (tx : ℕ) (sends : Bool)
      → Reach new c
      → IsKept c × (is_some (watch symbol tx sends c) ≡ true)
  mexc_keeps_books c symbol tx sends r =
      let h = Reach-IsKept new-IsKept r in
      (h, is_some-Watched (watch symbol tx sends c) (watch-IsKept symbol tx sends c h))
