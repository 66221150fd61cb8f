-- ===== src/Mexc/Pool.antt =====
-- `watch_orderbook` and `unwatch_orderbook` of src/exchange/mexc/public/watch.rs, and the name that
-- src/exchange/mexc/utils.rs makes of a symbol. Both methods borrow the exchange for themselves until they
-- end, so one runs at a time; only the sockets' tasks run beside it. `to_uppercase` is a parameter.
pub mod Room
pub mod Entered
pub mod Kept
use arbexpert_backend.Base.{
  ℕ, zero, suc, String, Bool, true, false, Option, none, some, List, [], ◌∷◌, ◌++◌, ltb, ◌==◌,
  if◌then◌else◌,
}
use arbexpert_backend.Std.HashMap
use arbexpert_backend.Std.HashMap.{HashMap}
use arbexpert_backend.Std.Text.{replace}
use arbexpert_backend.Mexc
use arbexpert_backend.Mexc.{MexcClient, has_symbol, subscribed_count, watch, unwatch}

pub record MexcPool (D : Type 0) : Type 0 where
  pub sub_clients : List (MexcClient D)
  -- The client that a running `watch_orderbook` made and has not pushed yet.
  pub opening : Option (MexcClient D)
  pub pairs : HashMap String

-- `iter().position(..)`, which `iter_mut().find(..)` is too.
unfoldable pub position : {A : Type 0} → (A → Bool) → List A → Option ℕ
position p [] = none
position p (x ∷ xs) =
    if p x then some 0 else elim (position p xs) [ none ↦ none | some i ↦ some (suc i) ]

-- The element at a position, and the list with another in its place, or without it.
unfoldable pub get_at : {A : Type 0} → ℕ → List A → Option A
get_at n [] = none
get_at zero (x ∷ xs) = some x
get_at (suc n) (x ∷ xs) = get_at n xs

unfoldable pub set_at : {A : Type 0} → ℕ → A → List A → List A
set_at n y [] = []
set_at zero y (x ∷ xs) = y ∷ xs
set_at (suc n) y (x ∷ xs) = x ∷ set_at n y xs

unfoldable pub remove_at : {A : Type 0} → ℕ → List A → List A
remove_at n [] = []
remove_at zero (x ∷ xs) = xs
remove_at (suc n) (x ∷ xs) = x ∷ remove_at n xs

abbrev pub limit : ℕ
limit = 35

abbrev pub normal_name : (String → String) → String → String
normal_name to_uppercase symbol = to_uppercase (replace b'/' "" symbol)

module _ {D : Type 0} (to_uppercase : String → String) where
  unfoldable pub normalize_symbol : String → MexcPool D → MexcPool D
  normalize_symbol symbol p = record p {
    pairs = HashMap.insert (normal_name to_uppercase symbol) symbol p.pairs;
  }

  -- `client.watch` on the client at a position; `none` is a panic.
  unfoldable pub watch_at : ℕ → String → ℕ → Bool → MexcPool D → Option (MexcPool D × Bool)
  watch_at i name tx sends p = elim (get_at i p.sub_clients) [
    | none ↦ none
    | some c ↦ elim (watch name tx sends c) [
      | none ↦ none
      | some r ↦ some (record p { sub_clients = set_at i r.0 p.sub_clients }, r.1)
    ]
  ]

  -- The part that makes a client: it is not pushed before its `watch` has answered.
  unfoldable pub watch_new : String → ℕ → Bool → Bool → MexcPool D → Option (MexcPool D × Bool)
  watch_new name tx connects sends p =
      if connects
      then elim (watch {D = D} name tx sends Mexc.new) [
        | none ↦ none
        | some r ↦ some (record p { opening = if r.1 then some r.0 else none }, r.1)
      ]
      else some (p, false)

  -- `watch_orderbook` up to the await for the book, and whether it comes to that; `connects` is how
  -- a `connect` ends, `sends` what `send` answers.
  unfoldable pub watch_orderbook :
      String → ℕ → Bool → Bool → MexcPool D → Option (MexcPool D × Bool)
  watch_orderbook symbol tx connects sends p =
      let q = normalize_symbol symbol p in
      elim (position (has_symbol (normal_name to_uppercase symbol)) q.sub_clients) [
        | some i ↦ watch_at i (normal_name to_uppercase symbol) tx sends q
        | none ↦ elim (position (λ c. ltb (subscribed_count c) limit) q.sub_clients) [
          | some i ↦ watch_at i (normal_name to_uppercase symbol) tx sends q
          | none ↦ watch_new (normal_name to_uppercase symbol) tx connects sends q
        ]
      ]

  -- The end of `watch_orderbook` for a new client: `answered` is whether its `watch` gave a book.
  unfoldable pub watch_end : Bool → MexcPool D → MexcPool D
  watch_end answered p = elim p.opening [
    | none ↦ p
    | some c ↦ record p {
      sub_clients = if answered then p.sub_clients ++ c ∷ [] else p.sub_clients;
      opening = none;
    }
  ]

  -- What `unwatch_orderbook` does with the client at a position.
  unfoldable pub unwatch_at : ℕ → String → Bool → MexcPool D → MexcPool D
  unwatch_at i name sends p = elim (get_at i p.sub_clients) [
    | none ↦ p
    | some c ↦
        let r = unwatch name sends c in
        let kept = record p { sub_clients = set_at i r.0 p.sub_clients } in
        if r.1
        then if subscribed_count r.0 == 0
          then record p { sub_clients = remove_at i p.sub_clients }
          else kept
        else kept
  ]

  unfoldable pub unwatch_orderbook : String → Bool → MexcPool D → MexcPool D
  unwatch_orderbook symbol sends p =
      let q = normalize_symbol symbol p in
      elim (position (has_symbol (normal_name to_uppercase symbol)) q.sub_clients) [
        | none ↦ q
        | some i ↦ unwatch_at i (normal_name to_uppercase symbol) sends q
      ]
