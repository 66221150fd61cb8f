-- ===== src/WatchPool.antt =====
-- `watch_orderbook` and `unwatch_orderbook` of src/exchange/gate/public/watch.rs and
-- src/exchange/binance/public/watch.rs, one text but for the names of the types: the clients of an
-- exchange, and which of them a symbol goes to. A client (`Rc<SubClient>`) is its number; what is
-- done with it, `client.watch` and `client.unwatch`, is modelled in SubClient. Each method is cut
-- at its awaits.
pub mod Select
pub mod Crowded
use arbexpert_backend.Base.{
  ℕ, zero, suc, ◌+◌, String, Bool, true, false, Option, none, some, List, [], ◌∷◌, ◌++◌, ltb, ◌==◌,
  if◌then◌else◌,
}
use arbexpert_backend.Symbol.{is_future_symbol, binance_normalize_symbol}
use arbexpert_backend.SubClient
use arbexpert_backend.SubClient.{Shared, has_symbol, subscribed_count, at_cell}

pub record Clients (D : Type 0) : Type 0 where
  pub client : ℕ → Shared D
  pub next_client : ℕ
  pub spot_clients : List ℕ
  pub future_clients : List ℕ

abbrev pub limit : ℕ
limit = 35

-- `iter().find(..)`.
unfoldable pub find : (ℕ → Bool) → List ℕ → Option ℕ
find p [] = none
find p (c ∷ cs) = let later = find p cs in if p c then some c else later

-- `iter().position(..)`, from the index of the first.
unfoldable pub position : (ℕ → Bool) → ℕ → List ℕ → Option ℕ
position p i [] = none
position p i (c ∷ cs) = let later = position p (i + 1) cs in if p c then some i else later

-- `Vec::remove`; `none` is its panic.
unfoldable pub remove_at : ℕ → List ℕ → Option (List ℕ)
remove_at n [] = none
remove_at zero (c ∷ cs) = some cs
remove_at (suc n) (c ∷ cs) = elim (remove_at n cs) [ none ↦ none | some ds ↦ some (c ∷ ds) ]

module _ {D : Type 0} where
  abbrev pub sub_clients : Bool → Clients D → List ℕ
  sub_clients true s = s.future_clients
  sub_clients false s = s.spot_clients

  abbrev pub set_sub_clients : Bool → List ℕ → Clients D → Clients D
  set_sub_clients true cs s = record s { future_clients = cs }
  set_sub_clients false cs s = record s { spot_clients = cs }

  -- `new` and `push`.
  unfoldable pub push_client : Bool → Clients D → Clients D
  push_client b s =
      let pushed = set_sub_clients b (sub_clients b s ++ s.next_client ∷ []) s in
      record pushed {
        client = at_cell s.client s.next_client SubClient.new;
        next_client = s.next_client + 1;
      }

  -- `watch_orderbook` up to the call of `client.watch`: the client, and the name it gets.
  unfoldable pub select_client : (String → String) → String → Clients D → Clients D × ℕ
  select_client normalize_symbol symbol s =
      let formatted = normalize_symbol symbol in
      let b = is_future_symbol symbol in
      elim (find (λ c. has_symbol formatted (s.client c)) (sub_clients b s)) [
        | some c ↦ (s, c)
        | none ↦ elim (find (λ c. ltb (subscribed_count (s.client c)) limit) (sub_clients b s)) [
          | some c ↦ (s, c)
          | none ↦ (push_client b s, s.next_client)
        ]
      ]

  -- `unwatch_orderbook` up to the await of `client.unwatch`: the position of the client.
  unfoldable pub unwatch_position : (String → String) → String → Clients D → Option ℕ
  unwatch_position normalize_symbol symbol s =
      position (λ c. has_symbol (normalize_symbol symbol) (s.client c)) 0
        (sub_clients (is_future_symbol symbol) s)

  -- `unwatch_orderbook` from a success of `client.unwatch` on, for the client at the position.
  unfoldable pub unwatch_end : String → ℕ → ℕ → Clients D → Option (Clients D)
  unwatch_end symbol pos c s =
      let b = is_future_symbol symbol in
      if subscribed_count (s.client c) == 0
      then elim (remove_at pos (sub_clients b s)) [
        | none ↦ none
        | some cs ↦ some (set_sub_clients b cs s)
      ]
      else some s

  -- The two methods of src/exchange/binance/public/watch.rs.
  abbrev pub binance_watch_orderbook : String → Clients D → Clients D × ℕ
  binance_watch_orderbook = select_client binance_normalize_symbol

  abbrev pub binance_unwatch_orderbook : String → Clients D → Option ℕ
  binance_unwatch_orderbook = unwatch_position binance_normalize_symbol

  abbrev pub binance_unwatch_end : String → ℕ → ℕ → Clients D → Option (Clients D)
  binance_unwatch_end = unwatch_end
