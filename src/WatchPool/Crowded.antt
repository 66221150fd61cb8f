-- ===== src/WatchPool/Crowded.antt =====
-- Calls of `watch_orderbook` and `unwatch_orderbook` that overlap (src/exchange/gate/public/watch.rs,
-- src/exchange/binance/public/watch.rs): each runs to its first await, before any of them goes on.
use arbexpert_backend.Base.{
  ℕ, zero, suc, ◌≤◌, ◌≡◌, refl, sym, subst, String, Bool, true, false, none, some, List, [], ◌∷◌,
  arith, All, Option-cases, inl, inr, length,
}
use arbexpert_backend.Symbol.{is_future_symbol}
use arbexpert_backend.SubClient
use arbexpert_backend.SubClient.{Shared, has_symbol, subscribed_count, at_cell}
use arbexpert_backend.WatchPool.{
  Clients, find, remove_at, sub_clients, set_sub_clients, push_client, select_client, unwatch_end,
}

module _ {D : Type 0} (normalize_symbol : String → String) where
  -- The clients of the calls, each of which waits for its connection while the next one starts.
  unfoldable pub select_all : List String → Clients D → List ℕ
  select_all [] s = []
  select_all (symbol ∷ symbols) s =
      let r = select_client normalize_symbol symbol s in r.1 ∷ select_all symbols r.0

  -- The market has one client, and nothing is registered with it.
  record HasEmpty (b : Bool) (c : ℕ) (s : Clients D) : Type 0 where
    single : sub_clients b s ≡ c ∷ []
    unregistered : (s.client c).subscribed ≡ []

  select_same :
      (symbol : String) (c : ℕ) (s : Clients D)
      → HasEmpty (is_future_symbol symbol) c s
      → select_client normalize_symbol symbol s ≡ (s, c)
  unfolding select_client find has_symbol subscribed_count
  select_same symbol c s h = ground (arith, h.single, h.unregistered)

  each_same :
      (b : Bool) (symbols : List String) (c : ℕ) (s : Clients D)
      → HasEmpty b c s
      → All (λ symbol. is_future_symbol symbol ≡ b) symbols
      → All (λ x. x ≡ c) (select_all symbols s)
  unfolding select_all
  each_same b [] c s h k = tt
  each_same b (symbol ∷ symbols) c s h k =
      let e = select_same symbol c s (subst (λ x. HasEmpty x c s) (sym k.0) h) in
      subst (λ r. (r.1 ≡ c) × All (λ x. x ≡ c) (select_all symbols r.0)) (sym e)
        (refl, each_same b symbols c s h k.1)

  first_pushed :
      (symbol : String) (s : Clients D)
      → sub_clients (is_future_symbol symbol) s ≡ []
      → select_client normalize_symbol symbol s
        ≡ (push_client (is_future_symbol symbol) s, s.next_client)
  unfolding select_client find
  first_pushed symbol s h = ground (arith, h)

  pushed-HasEmpty :
      (b : Bool) (s : Clients D) → sub_clients b s ≡ [] → HasEmpty b s.next_client (push_client b s)
  unfolding push_client SubClient.new
  pushed-HasEmpty true s h = record { single = ground (arith, h); unregistered = ground arith }
  pushed-HasEmpty false s h = record { single = ground (arith, h); unregistered = ground arith }

  -- However many symbols of one market are watched at once, while none of the calls is connected
  -- yet: where the market has no client, they all go to one new client, past any limit.
  pub crowded :
      (b : Bool) (symbols : List String) (s : Clients D)
      → sub_clients b s ≡ []
      → All (λ symbol. is_future_symbol symbol ≡ b) symbols
      → All (λ c. c ≡ s.next_client) (select_all symbols s)
  unfolding select_all
  crowded b [] s h k = tt
  crowded b (symbol ∷ symbols) s h k =
      let e = first_pushed symbol s (subst (λ x. sub_clients x s ≡ []) (sym k.0) h) in
      let f =
        subst (λ x. HasEmpty x s.next_client (push_client x s)) (sym k.0) (pushed-HasEmpty b s h) in
      subst (λ r. (r.1 ≡ s.next_client) × All (λ x. x ≡ s.next_client) (select_all symbols r.0))
        (sym e)
        (
          refl,
          each_same b symbols s.next_client (push_client (is_future_symbol symbol) s)
              (subst (λ x. HasEmpty x s.next_client (push_client (is_future_symbol symbol) s)) k.0
                f)
              k.1,
        )

length-remove_at : (n : ℕ) (cs ds : List ℕ) → remove_at n cs ≡ some ds → length cs ≡ suc (length ds)
unfolding remove_at
length-remove_at n [] ds e = ground arith
length-remove_at zero (c ∷ cs) ds e = ground arith
length-remove_at (suc n) (c ∷ cs) ds e = elim (Option-cases (remove_at n cs)) [
  | inl k ↦ ground (arith, k)
  | inr (es, k) ↦ ground (arith, k, length-remove_at n cs es k)
]

remove_at-beyond : (n : ℕ) (cs : List ℕ) → length cs ≤ n → remove_at n cs ≡ none
unfolding remove_at
remove_at-beyond n [] h = refl
remove_at-beyond zero (c ∷ cs) h = ground arith
remove_at-beyond (suc n) (c ∷ cs) h = ground (arith, remove_at-beyond n cs)

module _ {D : Type 0} where
  sub_clients-set :
      (b : Bool) (cs : List ℕ) (s : Clients D) → sub_clients b (set_sub_clients b cs s) ≡ cs
  sub_clients-set true cs s = refl
  sub_clients-set false cs s = refl

  client-set : (b : Bool) (cs : List ℕ) (s : Clients D) → (set_sub_clients b cs s).client ≡ s.client
  client-set true cs s = refl
  client-set false cs s = refl

  unwatch_end_beyond :
      (b : Bool) (other : String) (last e : ℕ) (cs : List ℕ) (s : Clients D)
      → is_future_symbol other ≡ b
      → last ≡ length cs
      → subscribed_count (s.client e) ≡ 0
      → unwatch_end other last e (set_sub_clients b cs s) ≡ none
  unfolding unwatch_end
  unwatch_end_beyond true other last e cs s m l h =
      ground (arith, m, h, remove_at-beyond last cs, l)
  unwatch_end_beyond false other last e cs s m l h =
      ground (arith, m, h, remove_at-beyond last cs, l)

  -- Two calls of `unwatch_orderbook` that overlap, in one market, each with the number of a
  -- client that has no symbol left, the second with the position of the last client: once the
  -- first one has removed a client, the second one panics.
  pub stale_position_panics :
      (symbol other : String) (pos last c e : ℕ) (s t : Clients D)
      → is_future_symbol other ≡ is_future_symbol symbol
      → suc last ≡ length (sub_clients (is_future_symbol symbol) s)
      → subscribed_count (s.client c) ≡ 0
      → subscribed_count (s.client e) ≡ 0
      → unwatch_end symbol pos c s ≡ some t
      → unwatch_end other last e t ≡ none
  unfolding unwatch_end
  stale_position_panics symbol other pos last c e s t m l h k u =
      elim (Option-cases (remove_at pos (sub_clients (is_future_symbol symbol) s))) [
        | inl x ↦ absurd (ground (arith, x, h))
        | inr (cs, x) ↦
            let shorter = length-remove_at pos (sub_clients (is_future_symbol symbol) s) cs x in
            let removed : set_sub_clients (is_future_symbol symbol) cs s ≡ t =
              ground (arith, x, h, u) in
            subst (λ r. unwatch_end other last e r ≡ none) removed
              (unwatch_end_beyond (is_future_symbol symbol) other last e cs s m
                (omega (arith, shorter, l)) k)
      ]
