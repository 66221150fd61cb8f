-- ===== src/Monitor/Tasks.antt =====
-- `start_monitor` of src/worker/monitor.rs: the tasks of a worker. A task that ends is started again with
-- what it had; which one ends next is the choice of the executor.
use arbexpert_backend.Base.{
  ℕ, zero, suc, ◌*◌, String, ◌≡◌, refl, sym, ◌∙◌, subst, Bool, true, false, Option, none, some,
  List, [], ◌∷◌, ◌++◌, str_eq, if◌then◌else◌, length, arith, All, is_some, Option-cases, elim_some,
  length-append, ◌||◌, inl, inr, ◌⊎◌, ◌≢◌,
}
use mathlib.Core.List.{Perm, perm_append_singleton}
use mathlib.Core.List.Perm
use mathlib.Core.Option.{some-injective}
use arbexpert_backend.Std.BTreeMap.{BTreeMap}
use arbexpert_backend.Decimal.{Decimal}
use arbexpert_backend.OrderBook.{OrderBook}
use arbexpert_backend.OrderBook.Best.{get_price}
use arbexpert_backend.Monitor.{ArbitrageSnapshot, front, detect_arbitrage}
use arbexpert_backend.Workers.Crossing.{Arbitrage}
use arbexpert_backend.Symbol.{spot_symbol, future_symbol}

-- The positions of the two exchanges, the symbol, and the pair.
pub record Task : Type 0 where
  pub spot : ℕ
  pub future : ℕ
  pub symbol : String
  pub arbitrage : Arbitrage

-- `iter().find(..)` by the name of the exchange.
unfoldable pub find_exchange : String → List String → Option ℕ
find_exchange name [] = none
find_exchange name (x ∷ xs) =
    let later = find_exchange name xs in
    if str_eq x name then some 0 else elim later [ none ↦ none | some i ↦ some (suc i) ]

-- The tasks of an item; `none` is the panic of an `unwrap`.
unfoldable pub item_tasks : List String → Arbitrage → Option (List Task)
item_tasks exchanges item = elim (find_exchange item.spot.exchange exchanges) [
  | none ↦ none
  | some spot ↦ elim (find_exchange item.future.exchange exchanges) [
    | none ↦ none
    | some future ↦ some (
        record {
          spot = spot;
          future = future;
          symbol = spot_symbol item.spot.base item.spot.quote;
          arbitrage = item;
        }
        ∷ record {
          spot = spot;
          future = future;
          symbol = future_symbol item.future.base item.future.quote;
          arbitrage = item;
        }
        ∷ [])
  ]
]

unfoldable pub start_tasks : List String → List Arbitrage → Option (List Task)
start_tasks exchanges [] = some []
start_tasks exchanges (i ∷ is) = elim (item_tasks exchanges i) [
  | none ↦ none
  | some ts ↦ elim (start_tasks exchanges is) [ none ↦ none | some us ↦ some (ts ++ us) ]
]

-- Which task ends next; `none` is no such task.
unfoldable pub take_task : ℕ → List Task → Option (Task × List Task)
take_task n [] = none
take_task zero (t ∷ ts) = some (t, ts)
take_task (suc n) (t ∷ ts) = elim (take_task n ts) [ none ↦ none | some r ↦ some (r.0, t ∷ r.1) ]

-- What a turn of the loop comes to: the tasks that are left, or there is no such task, or the task
-- panics.
pub data Turned : Type 0 where
  goes : List Task → Turned
  no_task panics : Turned

take_task-Perm :
    (n : ℕ) (ts us : List Task) (t : Task) → take_task n ts ≡ some (t, us) → Perm (t ∷ us) ts
unfolding take_task
take_task-Perm n [] us t e = absurd (ground (arith, e))
take_task-Perm zero (x ∷ ts) us t e =
    subst (λ r. Perm (r.0 ∷ r.1) (x ∷ ts)) (some-injective (x, ts) (t, us) e) (Perm.refl (x ∷ ts))
take_task-Perm (suc n) (x ∷ ts) us t e = elim (Option-cases (take_task n ts)) [
  | inl k ↦ absurd (ground (arith, k, e))
  | inr (r, k) ↦
      let taken : ◌≡◌ {A = Option (Task × List Task)} (some (r.0, x ∷ r.1)) (some (t, us)) =
        sym (elim_some (take_task n ts) none (λ q. some (q.0, x ∷ q.1)) r k) ∙ e in
      subst (λ q. Perm (q.0 ∷ q.1) (x ∷ ts)) (some-injective (r.0, x ∷ r.1) (t, us) taken)
        (Perm.trans (Perm.swap x r.0 r.1) (Perm.cons x (take_task-Perm n ts r.1 r.0 k)))
]

-- What `watch_orderbook` answers: an error, or a book that has asks and bids.
abbrev pub Answers : {D : Type 0} → Option (OrderBook D) → Type 0
Answers none = Unit
Answers (some book) = (book.asks ≢ []) × (book.bids ≢ [])

get_price-known : {K V : Type 0} (m : BTreeMap K V) → m ≢ [] → is_some (get_price m) ≡ true
unfolding get_price
get_price-known [] n = absurd (n refl)
get_price-known (e ∷ m) n = refl

module _ {D J : Type 0} ⦃d : Decimal D⦄ (to_json : ArbitrageSnapshot D → Option J) where
  -- A turn of the loop: the task at the position has its answer, with what the pair's cell holds, runs
  -- to its end and is pushed again.
  unfoldable pub turn : ℕ → Option (OrderBook D) → ArbitrageSnapshot D → List Task → Turned
  turn n answer old ts = elim (take_task n ts) [
    | none ↦ no_task
    | some r ↦ elim (detect_arbitrage to_json r.0.symbol answer old) [
      | none ↦ panics
      | some o ↦ goes (r.1 ++ r.0 ∷ [])
    ]
  ]

  detect_arbitrage-returns :
      (symbol : String) (answer : Option (OrderBook D)) (old : ArbitrageSnapshot D)
      → Answers answer
      → is_some (detect_arbitrage to_json symbol answer old) ≡ true
  unfolding detect_arbitrage front
  detect_arbitrage-returns symbol none old h = refl
  detect_arbitrage-returns symbol (some book) old h =
      ground (arith, get_price-known book.asks h.0, get_price-known book.bids h.1)

  -- Where the answer is an error or a book that has asks and bids: the turn does not panic, and what it
  -- leaves is a permutation of the tasks.
  pub turn-Perm :
      (n : ℕ) (answer : Option (OrderBook D)) (old : ArbitrageSnapshot D) (ts : List Task)
      → Answers answer
      → (turn n answer old ts ≡ no_task)
        ⊎ ((us : List Task) × (turn n answer old ts ≡ goes us) × Perm us ts)
  unfolding turn
  turn-Perm n answer old ts h = elim (Option-cases (take_task n ts)) [
    | inl e ↦ inl (ground (arith, e))
    | inr (r, e) ↦ elim (Option-cases (detect_arbitrage to_json r.0.symbol answer old)) [
      | inl k ↦ absurd (ground (arith, k, detect_arbitrage-returns r.0.symbol answer old h))
      | inr (o, k) ↦ inr (
        r.1 ++ r.0 ∷ [],
        elim_some (take_task n ts) _ _ r e ∙ elim_some _ _ _ o k,
        Perm.trans (perm_append_singleton r.0 r.1) (take_task-Perm n ts r.1 r.0 e),
      )
    ]
  ]

-- The worker has an exchange of that name.
unfoldable pub known : List String → String → Bool
known [] name = false
known (x ∷ xs) name = str_eq x name || known xs name

is_some-find_exchange :
    (name : String) (xs : List String) → is_some (find_exchange name xs) ≡ known xs name
unfolding find_exchange known
is_some-find_exchange name [] = refl
is_some-find_exchange name (x ∷ xs) = ground (arith, is_some-find_exchange name xs)

item_tasks-two :
    (exchanges : List String) (item : Arbitrage)
    → known exchanges item.spot.exchange ≡ true
    → known exchanges item.future.exchange ≡ true
    → (ts : List Task) × (item_tasks exchanges item ≡ some ts) × (length ts ≡ 2)
unfolding item_tasks
item_tasks-two exchanges item h k =
    elim (Option-cases (find_exchange item.spot.exchange exchanges)) [
      | inl e ↦ absurd (ground (arith, h, e, is_some-find_exchange item.spot.exchange exchanges))
      | inr (spot, e) ↦ elim (Option-cases (find_exchange item.future.exchange exchanges)) [
        | inl f ↦
            absurd (ground (arith, k, f, is_some-find_exchange item.future.exchange exchanges))
        | inr (future, f) ↦ (_, elim_some _ _ _ spot e ∙ elim_some _ _ _ future f, refl)
      ]
    ]

-- Where the worker has the exchanges of every item by name, there are two tasks for each item.
pub start_tasks-length :
    (exchanges : List String) (items : List Arbitrage)
    → All
        (λ i. (known exchanges i.spot.exchange ≡ true) × (known exchanges i.future.exchange ≡ true))
        items
    → (ts : List Task) × (start_tasks exchanges items ≡ some ts) × (length ts ≡ 2 * length items)
unfolding start_tasks
start_tasks-length exchanges [] h = ([], refl, refl)
start_tasks-length exchanges (i ∷ is) h =
    let (ts, e, n) = item_tasks-two exchanges i h.0.0 h.0.1 in
    let (us, f, m) = start_tasks-length exchanges is h.1 in
    (
      ts ++ us,
      elim_some _ _ _ ts e ∙ elim_some _ _ _ us f,
      omega (arith, length-append ts us, n, m),
    )
