-- ===== src/Workers/Setup/Loop.antt =====
-- The loop of a worker and the tasks of its requests (src/worker/mod.rs).
use arbexpert_backend.Base.{
  ℕ, zero, suc, sym, inl, inr, ◌*◌, ◌++◌, elim_some, ◌≡◌, refl, ◌∙◌, subst, arith, String, Option,
  none, some, List, [], ◌∷◌, All, length,
}
use mathlib.Core.List.{Perm, append-nil, append_assoc}
use mathlib.Core.List.Perm
use arbexpert_backend.Decimal.{Decimal}
use arbexpert_backend.OrderBook.{OrderBook}
use arbexpert_backend.Monitor.{ArbitrageSnapshot}
use arbexpert_backend.Workers.Crossing.{Arbitrage}
use arbexpert_backend.Workers.Setup.{
  start_arbitrage, start_monitor, process_request, worker_loop, Request, Event, receives, ends,
  turn_at,
}
use arbexpert_backend.Monitor.Tasks.{Task, start_tasks, Answers, turn-Perm}

-- Two tasks for each pair of the items, in some order.
abbrev pub Works : List String → List Arbitrage → List Task → Type 0
Works exchanges items ts =
    (us : List Task) × (start_tasks exchanges items ≡ some us)
    × (length us ≡ 2 * length items)
    × Perm ts us

-- The same for each request that a worker got, in the order of the requests.
abbrev pub WorkAll : List String → List (List Arbitrage) → List (List Task) → Type 0
WorkAll exchanges [] [] = Unit
WorkAll exchanges (items ∷ lists) (ts ∷ tss) =
    Works exchanges items ts × WorkAll exchanges lists tss
WorkAll exchanges [] (ts ∷ tss) = ⊥
WorkAll exchanges (items ∷ lists) [] = ⊥

-- Items for which a worker can start the tasks.
abbrev pub Starts : List String → List Arbitrage → Type 0
Starts exchanges items =
    (us : List Task) × (start_tasks exchanges items ≡ some us) × (length us ≡ 2 * length items)

WorkAll-more :
    (exchanges : List String) (lists : List (List Arbitrage)) (running : List (List Task))
    (items : List Arbitrage) (ts : List Task)
    → WorkAll exchanges lists running
    → Works exchanges items ts
    → WorkAll exchanges (lists ++ items ∷ []) (running ++ ts ∷ [])
WorkAll-more exchanges [] [] items ts h w = (w, tt)
WorkAll-more exchanges [] (us ∷ uss) items ts h w = absurd h
WorkAll-more exchanges (is ∷ lists) [] items ts h w = absurd h
WorkAll-more exchanges (is ∷ lists) (us ∷ uss) items ts h w =
    (h.0, WorkAll-more exchanges lists uss items ts h.1 w)

-- The items of a request.
abbrev items_of : Request → List Arbitrage
items_of start_arbitrage = []
items_of (start_monitor items) = items

module _ {D : Type 0} where
  -- The items of the requests, in their order.
  unfoldable pub received : List (Event D) → List (List Arbitrage)
  received [] = []
  received (receives none ∷ events) = received events
  received (receives (some r) ∷ events) = items_of r ∷ received events
  received (ends i n answer old ∷ events) = received events

  -- A request with good items, or the end of a task whose answer is an error or a book with asks and
  -- bids.
  abbrev pub IsFine : (List Arbitrage → Type 0) → Event D → Type 0
  IsFine Good (receives none) = ⊥
  IsFine Good (receives (some start_arbitrage)) = Unit
  IsFine Good (receives (some (start_monitor items))) = Good items
  IsFine Good (ends i n answer old) = Answers answer

  pub IsFine-mono :
      (P Q : List Arbitrage → Type 0) (e : Event D)
      → ((items : List Arbitrage) → P items → Q items)
      → IsFine P e
      → IsFine Q e
  IsFine-mono P Q (receives none) f h = h
  IsFine-mono P Q (receives (some start_arbitrage)) f h = h
  IsFine-mono P Q (receives (some (start_monitor items))) f h = f items h
  IsFine-mono P Q (ends i n answer old) f h = h

module _ {D J : Type 0} ⦃d : Decimal D⦄ (to_json : ArbitrageSnapshot D → Option J)
    (exchanges : List String) where
  turn_at-WorkAll :
      (i n : ℕ) (answer : Option (OrderBook D)) (old : ArbitrageSnapshot D)
      (lists : List (List Arbitrage)) (running : List (List Task))
      → Answers answer
      → WorkAll exchanges lists running
      → (after : List (List Task)) × (turn_at to_json i n answer old running ≡ some after)
        × WorkAll exchanges lists after
  unfolding turn_at
  turn_at-WorkAll i n answer old lists [] a h = ([], refl, h)
  turn_at-WorkAll i n answer old [] (ts ∷ tss) a h = absurd h
  turn_at-WorkAll zero n answer old (items ∷ lists) (ts ∷ tss) a h =
      elim (turn-Perm to_json n answer old ts a) [
        | inl e ↦ (ts ∷ tss, ground (arith, e), h)
        | inr (us, e, p) ↦
            let (started, k, l, q) = h.0 in
            (us ∷ tss, ground (arith, e), ((started, k, l, Perm.trans p q), h.1))
      ]
  turn_at-WorkAll (suc i) n answer old (items ∷ lists) (ts ∷ tss) a h =
      let (after, e, w) = turn_at-WorkAll i n answer old lists tss a h.1 in
      (ts ∷ after, elim_some (turn_at to_json i n answer old tss) _ _ after e, (h.0, w))

  process_request-Works :
      (r : Request)
      → IsFine {D = D} (Starts exchanges) (receives (some r))
      → (ts : List Task) × (process_request exchanges r ≡ some ts) × Works exchanges (items_of r) ts
  unfolding process_request start_tasks
  process_request-Works start_arbitrage h = ([], refl, ([], refl, refl, Perm.refl []))
  process_request-Works (start_monitor items) h =
      let (us, e, l) = h in (us, e, (us, e, l, Perm.refl us))

  pub worker_loop-runs :
      (events : List (Event D)) (lists : List (List Arbitrage)) (running : List (List Task))
      → All (IsFine (Starts exchanges)) events
      → WorkAll exchanges lists running
      → (after : List (List Task)) × (worker_loop to_json exchanges events running ≡ some after)
        × WorkAll exchanges (lists ++ received events) after
  unfolding worker_loop received
  worker_loop-runs [] lists running h w =
      (running, refl, subst (λ l. WorkAll exchanges l running) (sym (append-nil lists)) w)
  worker_loop-runs (receives none ∷ events) lists running h w = absurd h.0
  worker_loop-runs (receives (some r) ∷ events) lists running h w =
      let (ts, e, k) = process_request-Works r h.0 in
      let (after, f, v) =
        worker_loop-runs events (lists ++ items_of r ∷ []) (running ++ ts ∷ []) h.1
          (WorkAll-more exchanges lists running (items_of r) ts w k) in
      (
        after,
        elim_some (process_request exchanges r) _ _ ts e ∙ f,
        subst (λ l. WorkAll exchanges l after)
            (append_assoc lists (items_of r ∷ []) (received events)) v,
      )
  worker_loop-runs (ends i n answer old ∷ events) lists running h w =
      let (next, e, k) = turn_at-WorkAll i n answer old lists running h.0 w in
      let (after, f, v) = worker_loop-runs events lists next h.1 k in
      (after, elim_some (turn_at to_json i n answer old running) _ _ next e ∙ f, v)
