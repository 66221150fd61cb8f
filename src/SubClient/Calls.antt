-- ===== src/SubClient/Calls.antt =====
-- The calls of a `SubClient` from start to end, and what comes of two that overlap
-- (src/base/exchange/sub_client.rs).
use arbexpert_backend.Base.{
  ℕ, String, ◌≡◌, ◌≢◌, refl, Bool, true, false, Option, none, some, [], ◌++◌, is_some, arith,
  eq_iff, str_eq, if◌then◌else◌, Option-cases, inl, inr, map, ◌&&◌,
}
use arbexpert_backend.Std.HashMap
use arbexpert_backend.Std.HashMap.{get-insert, get-remove}
use arbexpert_backend.SubClient.{
  Shared, has_symbol, register, fails, subscribe_answer, unwatch_begin, unwatch_finish, broadcast,
}
use arbexpert_backend.SubClient.Registry.{
  IsCovered, waiting, register_lem, register-Registers, Registers-IsCovered, register_uncovered,
}

module _ {D : Type 0} where
  -- `unwatch` where the `unsubscribe` closure does not suspend, as those of the exchanges do not.
  unfoldable pub unwatch : String → Option String → Bool → Shared D → Shared D × Bool
  unfolding unwatch_begin unwatch_finish
  unwatch symbol json sends s =
      let (s', was) = unwatch_begin symbol s in unwatch_finish symbol was json sends s'

  begin-IsCovered :
      (symbol : String) (s : Shared D) → IsCovered s → IsCovered (unwatch_begin symbol s).0
  unfolding unwatch_begin
  begin-IsCovered symbol s h = record {
    covered = λ k. ground (arith, h.covered k, get-remove k symbol s.subscribed);
  }

  begin_known :
      (symbol : String) (b : ℕ) (s : Shared D)
      → HashMap.get symbol s.subscribed ≡ some b
      → (unwatch_begin symbol s).1 ≡ some b
  unfolding unwatch_begin
  begin_known symbol b s e = e

  -- Where every subscribed symbol has an entry in `pending`, and the symbol is subscribed: an
  -- `unwatch` whose `unsubscribe` closure suspends, while another task watches the symbol, takes
  -- that task's entry of `pending` away once the closure has answered with a text, and the next
  -- `watch` of the symbol panics.
  pub unwatch_race :
      (symbol json : String) (tx tx' : ℕ) (sends first : Bool) (s t : Shared D)
      → IsCovered s
      → has_symbol symbol s ≡ true
      → register symbol tx (unwatch_begin symbol s).0 ≡ some (t, first)
      → let (u, done) = unwatch_finish symbol (unwatch_begin symbol s).1 (some json) sends t in
        register symbol tx' u ≡ none
  unfolding has_symbol unwatch_finish
  unwatch_race symbol json tx tx' sends first s t h known e =
      elim (Option-cases (HashMap.get symbol s.subscribed)) [
        | inl f ↦ absurd (ground arith)
        | inr (b, f) ↦
            let covered = begin-IsCovered symbol s h in
            let (g, _) = register-Registers symbol tx _ t first covered e in
            rw (begin_known symbol b s f) (
              register_uncovered symbol tx' _ _ g.subscribes
                (ground (arith, get-remove symbol symbol t.pending, eq_iff symbol symbol)))
      ]

  -- Where every subscribed symbol has an entry in `pending`: a first `watch` whose subscription
  -- cannot be sent returns an error and leaves the symbol subscribed, so that the next `watch` is
  -- not a first one and sends no subscription.
  pub watch_send_failure :
      (symbol json : String) (tx tx' : ℕ) (s t : Shared D)
      → IsCovered s
      → register symbol tx s ≡ some (t, true)
      → (u : Shared D) × ((subscribe_answer symbol true (some json) false t).1 ≡ fails)
        × (register symbol tx' (subscribe_answer symbol true (some json) false t).0
            ≡ some (u, false))
  unfolding subscribe_answer has_symbol
  watch_send_failure symbol json tx tx' s t h e =
      let (g, _) = register-Registers symbol tx s t true h e in
      let (u, r, _) = register_lem symbol tx' t (Registers-IsCovered symbol tx s t h g) in
      (u, refl, ground (arith, r, g.subscribes))

  -- Where every subscribed symbol has an entry in `pending`: a first `watch` whose closure fails
  -- to build the subscription returns an error and puts the symbols back as they were, and nobody
  -- waits for this one.
  pub watch_rolls_back :
      (symbol : String) (tx : ℕ) (sends : Bool) (s t : Shared D) (k : String)
      → IsCovered s
      → register symbol tx s ≡ some (t, true)
      → let (u, outcome) = subscribe_answer symbol true none sends t in
        (outcome ≡ fails)
        × (HashMap.get k u.subscribed ≡ HashMap.get k s.subscribed)
        × (HashMap.get k u.pending ≡ (if str_eq symbol k then none else HashMap.get k s.pending))
  unfolding subscribe_answer has_symbol
  watch_rolls_back symbol tx sends s t k h e =
      let (g, first) = register-Registers symbol tx s t true h e in
      (
        refl,
        ground (
          arith,
          first,
          eq_iff symbol k,
          g.others_subscribed k,
          get-remove k symbol t.subscribed,
        ),
        ground (arith, eq_iff symbol k, g.others_pending k, get-remove k symbol t.pending),
      )

  -- Where the symbol is subscribed, and no other task runs in between: `unwatch` unsubscribes
  -- exactly its symbol, and drops whoever waits for it, if the message can be built; if it
  -- cannot, every subscription and every waiting sender stays.
  pub unwatch_lem :
      (symbol : String) (json : Option String) (sends : Bool) (s : Shared D) (k : String)
      → has_symbol symbol s ≡ true
      → let u = (unwatch symbol json sends s).0 in
        let gone = is_some json && str_eq symbol k in
        (HashMap.get k u.subscribed ≡ (if gone then none else HashMap.get k s.subscribed))
        × (HashMap.get k u.pending ≡ (if gone then none else HashMap.get k s.pending))
  unfolding unwatch has_symbol
  unwatch_lem symbol (some json) sends s k known = (
    ground (arith, get-remove k symbol s.subscribed),
    ground (arith, get-remove k symbol s.pending),
  )
  unwatch_lem symbol none sends s k known = elim (Option-cases (HashMap.get symbol s.subscribed)) [
    | inl e ↦ absurd (ground arith)
    | inr (b, e) ↦ (
      ground (
        arith,
        eq_iff symbol k,
        get-remove k symbol s.subscribed,
        get-insert k symbol b (HashMap.remove symbol s.subscribed),
      ),
      ground arith,
    )
  ]

  -- Where a broadcast for a symbol finds its entry in `pending`: it sends the book once to each
  -- sender that waits for the symbol, in their order, leaves none waiting for it, and leaves the
  -- senders of other symbols alone.
  pub broadcast_lem :
      (symbol : String) (book : ℕ) (s t : Shared D) (k : String)
      → broadcast symbol book s ≡ some t
      → (t.sent ≡ s.sent ++ map (λ tx. (tx, book)) (waiting symbol s))
        × (waiting symbol t ≡ [])
        × (symbol ≢ k → waiting k t ≡ waiting k s)
  unfolding broadcast
  broadcast_lem symbol book s t k e = (
    ground arith,
    ground (arith, get-insert symbol symbol [] s.pending, eq_iff symbol symbol),
    λ n. ground (arith, get-insert k symbol [] s.pending, eq_iff symbol k),
  )

  -- Without an entry for the symbol nobody waits for it.
  pub broadcast-none :
      (symbol : String) (book : ℕ) (s : Shared D)
      → broadcast symbol book s ≡ none
      → waiting symbol s ≡ []
  unfolding broadcast
  broadcast-none symbol book s e = ground arith

  pub books-broadcast :
      (symbol : String) (book : ℕ) (s t : Shared D)
      → broadcast symbol book s ≡ some t
      → t.books ≡ s.books
  unfolding broadcast
  books-broadcast symbol book s t e = ground arith
