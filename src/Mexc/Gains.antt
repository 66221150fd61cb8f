-- ===== src/Mexc/Gains.antt =====
-- Which symbols a client of Mexc can gain by each call and message
-- (src/exchange/mexc/public/sub_client.rs).
use arbexpert_backend.Base.{
  ℕ, suc, ◌≤◌, ◌⊎◌, inl, String, ◌≡◌, refl, sym, subst, Bool, true, Option, none, some, [], ◌∷◌,
  length, ◌==◌, if◌then◌else◌, arith, str_eq, eq_iff, is_some, if_split, if_elim, Option_split,
}
use arbexpert_backend.Std.HashMap
use arbexpert_backend.Std.HashMap.{HashMap, get-insert, get-remove, get-or_insert}
use arbexpert_backend.Std.Text.{contains_text, after_last}
use arbexpert_backend.Decimal.{Decimal}
use arbexpert_backend.OrderBook.{OrderBook, empty_book}
use arbexpert_backend.Mexc.{
  MexcClient, Handled, returns, panics, Body, depths, other, PushData, has_symbol, broadcast,
  publish, on_book, handle_binary, apply_items, depth_channel, subscribe_new, register, watch,
  unwatch,
}

-- The entries of a map into which one was put, or from which one was taken.
length-insert :
    {V : Type 0} (k : String) (v : V) (m : HashMap V)
    → length (HashMap.insert k v m)
      ≡ (if is_some (HashMap.get k m) then length m else suc (length m))
unfolding HashMap.insert HashMap.get
length-insert k v [] = refl
length-insert k v ((j, w) ∷ m) = ground (arith, length-insert k v m, eq_iff j k)

length-remove : {V : Type 0} (k : String) (m : HashMap V) → length (HashMap.remove k m) ≤ length m
unfolding HashMap.remove
length-remove k [] = omega arith
length-remove k ((j, w) ∷ m) = ground (arith, length-remove k m)

abbrev pub has : {V : Type 0} → String → HashMap V → Bool
has k m = is_some (HashMap.get k m)

-- `t` has no key that `s` does not have, but for `symbol` if there is one, and no more keys than that
-- allows.
unfoldable pub Gains : {V : Type 0} → Option String → HashMap V → HashMap V → Type 0
Gains none s t = ((k : String) → has k t ≡ true → has k s ≡ true) × (length t ≤ length s)
Gains (some symbol) s t =
    ((k : String) → has k t ≡ true → (has k s ≡ true) ⊎ (str_eq symbol k ≡ true))
    × (length t ≤ (if has symbol s then length s else suc (length s)))

pub Gains-empty : {V : Type 0} (s : HashMap V) → Gains none s []
unfolding Gains HashMap.get
Gains-empty s = (λ k h. absurd (ground (arith, h)), omega arith)

Gains-refl : {V : Type 0} (s : HashMap V) → Gains none s s
unfolding Gains
Gains-refl s = (λ k h. h, omega arith)

Gains-insert :
    {V : Type 0} (symbol : String) (x : V) (s : HashMap V)
    → Gains (some symbol) s (HashMap.insert symbol x s)
unfolding Gains
Gains-insert symbol x s =
    (λ k h. ground (arith, h, get-insert k symbol x s), ground (arith, length-insert symbol x s))

pub Gains-known :
    {V : Type 0} (symbol : String) (s t : HashMap V)
    → has symbol s ≡ true
    → Gains (some symbol) s t
    → Gains none s t
unfolding Gains
Gains-known symbol s t h g =
    (λ k p. ground (arith, h, g.0 k p, eq_iff symbol k), ground (arith, h, g.1))

Gains-remove :
    {V : Type 0} (symbol : String) (s : HashMap V) → Gains none s (HashMap.remove symbol s)
unfolding Gains
Gains-remove symbol s = (λ k h. ground (arith, h, get-remove k symbol s), length-remove symbol s)

module _ {D : Type 0} ⦃d : Decimal D⦄ where
  put-Gains :
      (symbol : String) (b x : OrderBook D) (s : HashMap (OrderBook D))
      → HashMap.get symbol s ≡ some b
      → Gains none s (HashMap.insert symbol x s)
  put-Gains symbol b x s e = Gains-known symbol s _ (ground (arith, e)) (Gains-insert symbol x s)

  broadcast-subscribed :
      (symbol : String) (b : OrderBook D) (c : MexcClient D)
      → (broadcast symbol b c).0.subscribed ≡ c.subscribed
  unfolding broadcast
  broadcast-subscribed symbol b c = ground arith

  -- The state that the handler leaves, where it does not panic.
  abbrev pub Gained : MexcClient D → Handled D → Type 0
  Gained c (returns ok t) = Gains none c.subscribed t.subscribed
  Gained c panics = Unit

  publish-Gained :
      (symbol : String) (old : ℕ) (b x : OrderBook D) (c : MexcClient D)
      → HashMap.get symbol c.subscribed ≡ some b
      → Gained c (publish symbol old x c)
  unfolding publish
  publish-Gained symbol old b x c e =
      if_split (Gained c) (old == x.update_id) _ _ (λ same. put-Gains symbol b x c.subscribed e)
        (λ moved.
          subst (Gains none c.subscribed) (sym (broadcast-subscribed symbol x _))
            (put-Gains symbol b x c.subscribed e))

  on_book-Gained :
      (symbol : String) (b : OrderBook D) (body : Option (Body D)) (c : MexcClient D)
      → HashMap.get symbol c.subscribed ≡ some b
      → Gained c (on_book symbol b body c)
  unfolding on_book
  on_book-Gained symbol b none c e = put-Gains symbol b empty_book c.subscribed e
  on_book-Gained symbol b (some other) c e = publish-Gained symbol b.update_id b b c e
  on_book-Gained symbol b (some (depths items)) c e =
      Option_split (Gained c) (apply_items items b) _ _ (λ k. tt)
        λ x k. publish-Gained symbol b.update_id b x c e

  pub handle_binary-Gained :
      (w : Option (PushData D)) (c : MexcClient D) → Gained c (handle_binary w c)
  unfolding handle_binary
  handle_binary-Gained none c = Gains-refl c.subscribed
  handle_binary-Gained (some w) c =
      if_split (Gained c) (contains_text depth_channel w.channel) _ _
        (λ fits.
          Option_split (Gained c) (HashMap.get (after_last b'@' w.channel) c.subscribed) _ _
            (λ e. Gains-refl c.subscribed)
            λ b e. on_book-Gained (after_last b'@' w.channel) b w.body c e)
        (λ misses. Gains-refl c.subscribed)

  pub unwatch-Gains :
      (symbol : String) (sends : Bool) (c : MexcClient D)
      → Gains none c.subscribed (unwatch symbol sends c).0.subscribed
  unfolding unwatch
  unwatch-Gains symbol sends c =
      if_split {A = MexcClient D × Bool} (λ r. Gains none c.subscribed r.0.subscribed)
        (has_symbol symbol c) _ _ (λ known. Gains-remove symbol c.subscribed)
        (λ unknown. Gains-refl c.subscribed)

  -- What `watch` leaves.
  abbrev pub Entered : String → MexcClient D → Option (MexcClient D × Bool) → Type 0
  Entered symbol c none = Unit
  Entered symbol c (some r) = Gains (some symbol) c.subscribed r.0.subscribed

  Gains-some : (symbol : String) (s : HashMap (OrderBook D)) → Gains (some symbol) s s
  unfolding Gains
  Gains-some symbol s = (λ k h. inl h, ground arith)

  register-Entered :
      (symbol : String) (tx : ℕ) (c : MexcClient D) → Entered symbol c (register symbol tx c)
  unfolding register subscribe_new
  register-Entered symbol tx c =
      let entered : Gains (some symbol) c.subscribed
          (if has_symbol symbol c then c else subscribe_new symbol c).subscribed =
        if_elim (λ x. Gains (some symbol) c.subscribed x.subscribed) (has_symbol symbol c) c
          (subscribe_new symbol c) (Gains-some symbol c.subscribed)
          (Gains-insert symbol empty_book c.subscribed) in
      Option_split (Entered symbol c)
        (HashMap.get symbol (if has_symbol symbol c then c else subscribe_new symbol c).pending) _ _
        (λ e. tt) (λ txs e. entered)

  sent-Entered :
      (symbol : String) (c : MexcClient D) (sends : Bool) (r : Option (MexcClient D × Bool))
      → Entered symbol c r
      → Entered symbol c (elim r [ none ↦ none | some x ↦ some (x.0, if x.1 then sends else true) ])
  sent-Entered symbol c sends none h = h
  sent-Entered symbol c sends (some x) h = h

  pub watch-Entered :
      (symbol : String) (tx : ℕ) (sends : Bool) (c : MexcClient D)
      → Entered symbol c (watch symbol tx sends c)
  unfolding watch
  watch-Entered symbol tx sends c = sent-Entered symbol c sends _ (register-Entered symbol tx c)
