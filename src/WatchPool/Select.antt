-- ===== src/WatchPool/Select.antt =====
-- Which client `watch_orderbook` chooses (src/exchange/gate/public/watch.rs,
-- src/exchange/binance/public/watch.rs).
use arbexpert_backend.Base.{
  ℕ, ◌<◌, ◌≡◌, ◌⊎◌, inl, inr, sym, subst, String, Bool, true, false, none, some, List, [], ◌∷◌, ltb,
  arith, All, Option-cases,
}
use arbexpert_backend.Symbol.{is_future_symbol}
use arbexpert_backend.SubClient
use arbexpert_backend.SubClient.{Shared, has_symbol, subscribed_count, at_cell}
use arbexpert_backend.WatchPool.{Clients, limit, find, sub_clients, push_client, select_client}

find-some : (p : ℕ → Bool) (cs : List ℕ) (c : ℕ) → find p cs ≡ some c → p c ≡ true
unfolding find
find-some p [] c e = cc
find-some p (x ∷ cs) c e = ground (arith, find-some p cs c)

find-none : (p : ℕ → Bool) (cs : List ℕ) → find p cs ≡ none → All (λ c. p c ≡ false) cs
unfolding find
find-none p [] e = tt
find-none p (x ∷ cs) e = (ground arith, find-none p cs (ground arith))

module _ {D : Type 0} (normalize_symbol : String → String) where
  -- What `watch_orderbook` makes sure of by its choice: the client has the symbol, or no client of
  -- the market has it and the chosen one, if it is new or not, has room.
  pub Chosen : String → Clients D → Clients D → ℕ → Type 0
  Chosen symbol s t c =
      (has_symbol (normalize_symbol symbol) (t.client c) ≡ true)
      ⊎ (All (λ x. has_symbol (normalize_symbol symbol) (s.client x) ≡ false)
            (sub_clients (is_future_symbol symbol) s)
          × (subscribed_count (t.client c) < limit))

  room_lt : (c : Shared D) → ltb (subscribed_count c) limit ≡ true → subscribed_count c < limit
  room_lt c h = ground arith

  new_has_room :
      (symbol : String) (s : Clients D)
      → subscribed_count ((push_client (is_future_symbol symbol) s).client s.next_client) < limit
  unfolding push_client SubClient.new subscribed_count
  new_has_room symbol s = ground arith

  -- `watch_orderbook` goes to a client that has the symbol, or, where no client of the market has
  -- it, to one with fewer than 35 symbols.
  pub select_client-Chosen :
      (symbol : String) (s : Clients D)
      → Chosen symbol s
          (select_client normalize_symbol symbol s).0
          (select_client normalize_symbol symbol s).1
  unfolding select_client Chosen
  select_client-Chosen symbol s = elim (Option-cases (find known cs)) [
    | inr (c, e) ↦ chosen (s, c) (ground (arith, e)) (inl (find-some known cs c e))
    | inl e ↦ elim (Option-cases (find room cs)) [
      | inr (c, k) ↦
          chosen (s, c) (ground (arith, e, k))
            (inr (find-none known cs e, room_lt (s.client c) (find-some room cs c k)))
      | inl k ↦
          chosen (push_client (is_future_symbol symbol) s, s.next_client) (ground (arith, e, k))
            (inr (find-none known cs e, new_has_room symbol s))
    ]
  ]
    where
      cs : List ℕ
      cs = sub_clients (is_future_symbol symbol) s

      known : ℕ → Bool
      known c = has_symbol (normalize_symbol symbol) (s.client c)

      room : ℕ → Bool
      room c = ltb (subscribed_count (s.client c)) limit

      chosen :
          (r : Clients D × ℕ)
          → select_client normalize_symbol symbol s ≡ r
          → Chosen symbol s r.0 r.1
          → Chosen symbol s
              (select_client normalize_symbol symbol s).0
              (select_client normalize_symbol symbol s).1
      chosen r e h = subst (λ q. Chosen symbol s q.0 q.1) (sym e) h
