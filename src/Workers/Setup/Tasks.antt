-- ===== src/Workers/Setup/Tasks.antt =====
-- The pairs that come of the start of Gate (src/exchange/gate/public/constructor.rs) through
-- src/main.rs, as the workers of src/worker/monitor.rs take them.
use arbexpert_backend.Base.{
  ℕ, ◌≡◌, refl, ap, ◌∙◌, subst, arith, map, String, true, Option, none, some, List, [], ◌∷◌, All,
  All-mono,
}
use mathlib.Core.Option.{some-injective}
use arbexpert_backend.Std.HashMap
use arbexpert_backend.Decimal.{Decimal}
use arbexpert_backend.Monitor.{ArbitrageSnapshot}
use arbexpert_backend.Requests.{Answer}
use arbexpert_backend.Startup
use arbexpert_backend.Startup.{Assets, Statics, Public, Lists, gate_asset}
use arbexpert_backend.Startup.Named.{AllAssets, IsGate, Known, Started, new-Started}
use arbexpert_backend.Workers.Crossing.{Exchange, Arbitrage, cross_assets}
use arbexpert_backend.Workers.Watched.{Opened, unwrap_assets}
use arbexpert_backend.Workers.Setup.{worker_loop, setup_exchanges, cross_assets-All, Event}
use arbexpert_backend.Monitor.Tasks.{Task, known, start_tasks-length}
use arbexpert_backend.Workers.Setup.Loop.{
  WorkAll, Starts, received, IsFine, IsFine-mono, worker_loop-runs,
}

abbrev Open : List Opened → Type 0
Open = All λ o. Known o.assets

setup_exchanges-Open :
    (gate binance : Option (Statics × Public)) (os : List Opened)
    → Started gate
    → setup_exchanges gate binance ≡ some os
    → Open os
unfolding setup_exchanges
setup_exchanges-Open none binance os h e = absurd (ground (arith, e))
setup_exchanges-Open (some gate) none os h e = absurd (ground (arith, e))
setup_exchanges-Open (some gate) (some binance) os h e = subst Open (some-injective _ _ e) (h, tt)

abbrev Unwrapped : Option (List Exchange) → Type 0
Unwrapped none = Unit
Unwrapped (some es) = All (λ x. AllAssets IsGate x.assets) es

unwrap_assets-Unwrapped : (os : List Opened) → Open os → Unwrapped (unwrap_assets os)
unfolding unwrap_assets
unwrap_assets-Unwrapped [] h = tt
unwrap_assets-Unwrapped (o ∷ os) h =
    joined o.assets (unwrap_assets os) h.0 (unwrap_assets-Unwrapped os h.1)
  where
    joined :
        (a : Option Assets) (r : Option (List Exchange))
        → Known a
        → Unwrapped r
        → Unwrapped (elim a [
          | none ↦ none
          | some assets ↦ elim r [
            | none ↦ none
            | some es ↦ some (record { name = o.name; assets = assets } ∷ es)
          ]
        ])
    joined none r k u = tt
    joined (some assets) none k u = tt
    joined (some assets) (some es) k u = (k, u)

-- `name()` of the exchanges.
abbrev pub names : List Opened → List String
names os = map (λ o. o.name) os

known_gate :
    (gate binance : Option (Statics × Public)) (os : List Opened)
    → setup_exchanges gate binance ≡ some os
    → known (names os) "Gate" ≡ true
unfolding setup_exchanges known
known_gate none binance os e = absurd (ground (arith, e))
known_gate (some gate) none os e = absurd (ground (arith, e))
known_gate (some gate) (some binance) os e =
    subst (λ xs. known (names xs) "Gate" ≡ true) (some-injective _ _ e) refl

-- The items that are sent for some symbol.
abbrev pub AreSent : List Exchange → List Arbitrage → Type 0
AreSent es items = (k : String) × (HashMap.get k (cross_assets es) ≡ some items)

sent-Starts :
    (exchanges : List String) (es : List Exchange) (items : List Arbitrage)
    → All (λ e. Starts exchanges e.1) (cross_assets es)
    → AreSent es items
    → Starts exchanges items
sent-Starts exchanges es items h (k, e) =
    subst StartsAt e
      (HashMap.get-All (Starts exchanges) StartsAt (λ o. o) k (cross_assets es) tt (λ v w. w) h)
  where
    StartsAt : Option (List Arbitrage) → Type 0
    StartsAt none = Unit
    StartsAt (some xs) = Starts exchanges xs

gate_items-Starts :
    (answer : Answer (Option ℕ)) (local : ℕ) (lists : Lists) (s : Statics)
    (binance : Option (Statics × Public)) (os : List Opened) (es : List Exchange)
    (exchanges : List String)
    → AllAssets IsGate s.assets
    → setup_exchanges (Startup.new gate_asset answer local lists s) binance ≡ some os
    → unwrap_assets os ≡ some es
    → known exchanges "Gate" ≡ true
    → All (λ e. Starts exchanges e.1) (cross_assets es)
gate_items-Starts answer local lists s binance os es exchanges h e u gate =
    let opened =
      setup_exchanges-Open (Startup.new gate_asset answer local lists s) binance os
        (new-Started answer local lists s h) e in
    All-mono (λ x. All (λ i. IsGate i.spot × IsGate i.future) x.1) _
      (λ x g. start_tasks-length exchanges x.1 (
        All-mono (λ i. IsGate i.spot × IsGate i.future) _
          (λ i k. (ap (known exchanges) k.0 ∙ gate, ap (known exchanges) k.1 ∙ gate)) x.1 g))
      (cross_assets es)
      (cross_assets-All IsGate es (subst Unwrapped u (unwrap_assets-Unwrapped os opened)))

-- Where what the threads share has assets of Gate only, as at first, the exchanges of the pairs come
-- from a start of Gate, whatever its requests are answered, and those of a worker from any start
-- that returns: whichever symbols' requests the worker gets, in whatever order, and whichever of
-- its tasks end in between, as long as its channel stays open and each end of a task follows on an
-- error or on a book that has asks and bids, the worker does not panic, and it has for each request
-- a permutation of the tasks that it started for it, two for each of its pairs.
pub gate_pairs_work :
    {D J : Type 0} ⦃d : Decimal D⦄ (to_json : ArbitrageSnapshot D → Option J)
    (answer : Answer (Option ℕ)) (local : ℕ) (lists : Lists) (s : Statics)
    (binance gate' binance' : Option (Statics × Public)) (os os' : List Opened) (es : List Exchange)
    (events : List (Event D))
    → AllAssets IsGate s.assets
    → setup_exchanges (Startup.new gate_asset answer local lists s) binance ≡ some os
    → unwrap_assets os ≡ some es
    → setup_exchanges gate' binance' ≡ some os'
    → All (IsFine (AreSent es)) events
    → (running : List (List Task)) × (worker_loop to_json (names os') events [] ≡ some running)
      × WorkAll (names os') (received events) running
gate_pairs_work to_json answer local lists s binance gate' binance' os os' es events h e u e' sent =
    let starts =
      gate_items-Starts answer local lists s binance os es (names os') h e u
        (known_gate gate' binance' os' e') in
    worker_loop-runs to_json (names os') events [] []
      (All-mono (IsFine (AreSent es)) (IsFine (Starts (names os')))
        (λ v.
          IsFine-mono (AreSent es) (Starts (names os')) v
            (λ items. sent-Starts (names os') es items starts))
        events sent)
      tt
