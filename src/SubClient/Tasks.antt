-- ===== src/SubClient/Tasks.antt =====
-- The tasks that share one `SubClient`, each call cut at its awaits (src/base/exchange/sub_client.rs).
pub mod Safety
use arbexpert_backend.Base.{
  ℕ, String, ◌≡◌, Bool, true, false, not, Option, none, some, [], is_some, arith, eq_iff, str_eq,
  ◌&&◌, ◌||◌,
}
use arbexpert_backend.Std.HashMap
use arbexpert_backend.Std.HashMap.{HashMap, get-insert, get-remove}
use arbexpert_backend.OrderBook.{OrderBook}
use arbexpert_backend.SubClient.{
  Shared, set_book, new, on_fail, has_symbol, register, subscribe_answer, unwatch_begin,
  unwatch_finish, broadcast,
}
use arbexpert_backend.SubClient.Registry.{IsCovered, Registers, register_lem, register-Registers}

-- The client, and the calls of `unwatch` that wait for the `unsubscribe` closure: under its symbol,
-- the book that each took out of `subscribed`.
pub record Tasks (D : Type 0) : Type 0 where
  pub shared : Shared D
  pub suspended : HashMap ℕ

module _ {D : Type 0} where
  abbrev pub start : Tasks D
  start = record { shared = new; suspended = [] }

  -- `unwatch` up to its await, which a symbol that is not subscribed does not reach.
  unfoldable pub suspend : String → Tasks D → Tasks D
  unfolding unwatch_begin
  suspend symbol x = record {
    shared = (unwatch_begin symbol x.shared).0;
    suspended = elim (unwatch_begin symbol x.shared).1 [
      | none ↦ x.suspended
      | some book ↦ HashMap.insert symbol book x.suspended
    ];
  }

  -- The rest of it, from the answer of the closure on.
  unfoldable pub resume : String → ℕ → Option String → Bool → Tasks D → Tasks D
  unfolding unwatch_finish
  resume symbol book json sends x = record {
    shared = (unwatch_finish symbol (some book) json sends x.shared).0;
    suspended = HashMap.remove symbol x.suspended;
  }

  -- What the tasks do, in any order, as long as, while an `unwatch` waits for its closure, no task
  -- starts or goes on with a `watch` of the same symbol, and the socket does not fail: the pieces
  -- of `watch` and of `unwatch`, the messages of the exchange, and a failure of the socket.
  pub data Step (x : Tasks D) : Tasks D → Type 0 where
    registers :
        (symbol : String) (tx : ℕ) (t : Shared D) (first : Bool)
        → HashMap.get symbol x.suspended ≡ none
        → register symbol tx x.shared ≡ some (t, first)
        → Step x (record x { shared = t })
    answers :
        (symbol : String) (first : Bool) (json : Option String) (sends : Bool)
        → HashMap.get symbol x.suspended ≡ none
        → Step x (record x { shared = (subscribe_answer symbol first json sends x.shared).0 })
    suspends : (symbol : String) → Step x (suspend symbol x)
    resumes :
        (symbol : String) (book : ℕ) (json : Option String) (sends : Bool)
        → HashMap.get symbol x.suspended ≡ some book
        → Step x (resume symbol book json sends x)
    broadcasts :
        (symbol : String) (book : ℕ) (t : Shared D)
        → broadcast symbol book x.shared ≡ some t
        → Step x (record x { shared = t })
    writes : (r : ℕ) (b : OrderBook D) → Step x (record x { shared = set_book r b x.shared })
    breaks : x.suspended ≡ [] → Step x (record x { shared = on_fail x.shared })

  pub data Reach (x : Tasks D) : Tasks D → Type 0 where
    here : Reach x x
    next : {y z : Tasks D} → Reach x y → Step y z → Reach x z
