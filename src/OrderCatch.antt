-- ===== src/OrderCatch.antt =====
-- src/exchange/catch.rs, and the task that feeds it (`catch_orders` of
-- src/exchange/mexc/private/watch.rs): the orders of a symbol, numbered as they come. `next` is cut
-- at its await; a waker (`oneshot` sender) is a number.
pub mod Delivery
use arbexpert_backend.Base.{
  ℕ, String, Bool, true, false, Option, none, some, List, [], ◌∷◌, ◌++◌, ltb, leb, ◌==◌, inc64,
  if◌then◌else◌,
}
use arbexpert_backend.Std.HashMap
use arbexpert_backend.Std.HashMap.{HashMap}
use arbexpert_backend.Std.Text.{replace}

pub record OrderCatchState (O : Type 0) : Type 0 where
  pub orders : List (ℕ × O)
  pub nonce : ℕ
  pub wakers : List ℕ
  -- The wakers that were sent to.
  pub woken : List ℕ

pub record CatchReturn (O : Type 0) : Type 0 where
  pub orders : List O
  pub nonce : ℕ

module _ {O : Type 0} where
  unfoldable pub new_state : OrderCatchState O
  new_state = record { orders = []; nonce = 0; wakers = []; woken = [] }

  -- The body of the task's loop.
  unfoldable pub receive : O → OrderCatchState O → OrderCatchState O
  receive order s =
      let nonce = inc64 s.nonce in
      record {
        orders = s.orders ++ (nonce, order) ∷ [];
        nonce = nonce;
        wakers = [];
        woken = s.woken ++ s.wakers;
      }

  -- `filter` and `map`.
  unfoldable pub newer : ℕ → List (ℕ × O) → List O
  newer last [] = []
  newer last ((n, o) ∷ os) = let rest = newer last os in if ltb last n then o ∷ rest else rest

  -- `next` behind its await.
  unfoldable pub next_end : ℕ → OrderCatchState O → CatchReturn O
  next_end last s = record { orders = newer last s.orders; nonce = s.nonce }

  -- `next` up to its await: it returns, or leaves its waker and waits.
  unfoldable pub next_begin : ℕ → ℕ → OrderCatchState O → OrderCatchState O × Option (CatchReturn O)
  next_begin last tx s =
      if ltb last s.nonce
      then (s, some (record { orders = newer last s.orders; nonce = s.nonce }))
      else (record s { wakers = s.wakers ++ tx ∷ [] }, none)

-- `subscriptions.remove(index)` of the first with the id.
unfoldable pub remove_id : ℕ → List (ℕ × ℕ) → List (ℕ × ℕ)
remove_id id [] = []
remove_id id ((i, tx) ∷ rest) =
    let others = remove_id id rest in if i == id then rest else (i, tx) ∷ others

-- `drop`, where `strong_count` counts the holders of the state, this one included. `to_uppercase` is
-- an argument; `none` is the panic of the `unwrap`.
unfoldable pub drop_catch :
    (String → String) → ℕ → String → ℕ → HashMap (List (ℕ × ℕ)) → Option (HashMap (List (ℕ × ℕ)))
drop_catch to_uppercase strong_count symbol id pending =
    let key = to_uppercase (replace b'/' "" symbol) in
    if leb strong_count 2
    then elim (HashMap.get key pending) [
      | none ↦ none
      | some subs ↦ some (HashMap.insert key (remove_id id subs) pending)
    ]
    else some pending
