-- ===== src/Workers/Watched/Requests.antt =====
-- What `cross_assets_all_exchanges` sends and keeps (src/main.rs), once and for all.
use arbexpert_backend.Base.{
  ℕ, suc, ◌<◌, ◌≤◌, ◌≡◌, ◌↔◌, refl, sym, ap, ◌∙◌, subst, String, true, false, some, List, [], ◌∷◌,
  ◌++◌, All, arith, str_eq, if◌then◌else◌, is_some, if_true, if_false, elim_some,
}
use mathlib.Core.List.{append-nil, append_assoc, Perm, foldr}
use mathlib.Core.List.Perm
use native.Mathlib.Nat.{ℕ_set}
use arbexpert_backend.Std.HashMap
use arbexpert_backend.Std.HashMap.{HashMap}
use arbexpert_backend.Workers.{has_channel}
use arbexpert_backend.Workers.Assign.{IsStaffed, Sends, monitor_symbol-Sends}
use arbexpert_backend.Workers.Crossing.{Exchange, Arbitrage, cross_assets}
use arbexpert_backend.Workers.Crossing.Keys.{entries_of, cross_assets-IsMap, crossed_iff, Crosses}
use arbexpert_backend.Workers.Watched.{
  Server, Opened, unwrap_assets, watch_entry, watch_entries, cross_assets_all_exchanges,
}

-- How many requests are for a symbol.
pub requests_for : String → List (ℕ × String) → ℕ
requests_for k [] = 0
requests_for k ((id, symbol) ∷ rs) =
    let later = requests_for k rs in if str_eq symbol k then suc later else later

-- All the pairs of a map.
pub all_items : HashMap (List Arbitrage) → List Arbitrage
all_items [] = []
all_items ((key, items) ∷ rest) = items ++ all_items rest

-- The entries of `m` are watched: a request for each of them goes to a worker with a channel, and the
-- pairs are kept.
pub record Covers (cpus : ℕ) (m : HashMap (List Arbitrage)) (s t : Server) : Type 0 where
  pub requests : List (ℕ × String)
  pub sent : t.workers.sent ≡ s.workers.sent ++ requests
  pub has_workers : All (λ r. has_channel r.0 s.workers.worker_channels ≡ true) requests
  pub one_each : (k : String) → requests_for k requests ≡ entries_of k m
  pub kept : t.arbitrages ≡ s.arbitrages ++ all_items m
  pub staffed : IsStaffed cpus t.workers
  pub still_started : t.started ≡ s.started

Covers-none : (cpus : ℕ) (s : Server) → IsStaffed cpus s.workers → Covers cpus [] s s
unfolding requests_for entries_of all_items
Covers-none cpus s h = record {
  requests = [];
  sent = sym (append-nil s.workers.sent);
  has_workers = tt;
  one_each = λ k. refl;
  kept = sym (append-nil s.arbitrages);
  staffed = h;
  still_started = refl;
}

Covers-more :
    (cpus : ℕ) (key : String) (items : List Arbitrage) (m : HashMap (List Arbitrage)) (s t : Server)
    → Sends cpus key s.workers (watch_entry cpus key items s).workers
    → Covers cpus m (watch_entry cpus key items s) t
    → Covers cpus ((key, items) ∷ m) s t
unfolding watch_entry requests_for entries_of all_items
Covers-more cpus key items m s t a w = record {
  requests = (a.worker, key) ∷ w.requests;
  sent =
      w.sent
      ∙ ap (◌++ w.requests) a.sent
      ∙ append_assoc s.workers.sent ((a.worker, key) ∷ []) w.requests;
  has_workers = (
    a.has_worker,
    subst (λ c. All (λ r. has_channel r.0 c ≡ true) w.requests) a.channels w.has_workers,
  );
  one_each = λ k. ground (arith, w.one_each k);
  kept = w.kept ∙ append_assoc s.arbitrages items (all_items m);
  staffed = w.staffed;
  still_started = w.still_started;
}

watch_entries-Covers :
    (cpus : ℕ) (m : HashMap (List Arbitrage)) (s : Server)
    → 0 < cpus
    → IsStaffed cpus s.workers
    → Covers cpus m s (watch_entries cpus m s)
unfolding watch_entries watch_entry
watch_entries-Covers cpus [] s p h = Covers-none cpus s h
watch_entries-Covers cpus ((key, items) ∷ m) s p h =
    let a = monitor_symbol-Sends cpus key s.workers p h in
    Covers-more cpus key items m s _ a
      (watch_entries-Covers cpus m (watch_entry cpus key items s) p a.staffed)

-- An order of a map.
abbrev pub Arrangement : Type 0
Arrangement = HashMap (List Arbitrage) → HashMap (List Arbitrage)

cross_assets_all_exchanges-started :
    (arrange : Arrangement) (cpus : ℕ) (others : List Opened) (s : Server)
    → s.started ≡ true
    → cross_assets_all_exchanges arrange cpus others s ≡ (s, true)
unfolding cross_assets_all_exchanges
cross_assets_all_exchanges-started arrange cpus others s h = if_true s.started _ _ h

start_returns :
    (arrange : Arrangement) (cpus : ℕ) (exchanges : List Opened) (es : List Exchange) (s : Server)
    → s.started ≡ false
    → unwrap_assets exchanges ≡ some es
    → cross_assets_all_exchanges arrange cpus exchanges s
      ≡ (watch_entries cpus (arrange (cross_assets es)) (record s { started = true }), true)
unfolding cross_assets_all_exchanges
start_returns arrange cpus exchanges es s h u =
    if_false s.started _ _ h ∙ elim_some (unwrap_assets exchanges) _ _ es u

-- One request for a symbol just if it has pairs, and otherwise none.
one_request :
    (k : String) (n entries : ℕ) (es : List Exchange)
    → n ≡ entries
    → entries ≡ (if is_some (HashMap.get k (cross_assets es)) then 1 else 0)
    → (n ≤ 1) × ((n ≡ 1) ↔ Crosses k es)
one_request k n entries es e h =
    let (has_pairs, pairs_of) = crossed_iff k es in
    (
      ground (arith, e, h),
      (λ m. has_pairs (ground (arith, m, e, h)), λ c. ground (arith, pairs_of c, e, h)),
    )

-- One entry more for the key, if this is one of its entries.
abbrev count_key : String → String × List Arbitrage → ℕ → ℕ
count_key k e n = if str_eq e.0 k then suc n else n

entries_of-foldr :
    (k : String) (m : HashMap (List Arbitrage)) → entries_of k m ≡ foldr (count_key k) 0 m
unfolding entries_of
entries_of-foldr k [] = refl
entries_of-foldr k (e ∷ m) = ap (count_key k e) (entries_of-foldr k m)

-- An order of the entries changes nothing in how many there are for a key.
entries_of-Perm :
    (k : String) (m n : HashMap (List Arbitrage)) → Perm m n → entries_of k m ≡ entries_of k n
entries_of-Perm k m n p =
    entries_of-foldr k m
    ∙ Perm.foldr-eq ℕ_set (count_key k) (λ x y r. ground arith) p 0
    ∙ sym (entries_of-foldr k n)

-- Where each processor has its worker and each symbol one of them, nothing was started, every
-- exchange has its assets, and the loop meets each entry of the map of pairs once, in whatever
-- order: `cross_assets_all_exchanges` returns; it sends a request for a symbol just
-- if some exchange lists a spot of that symbol and some exchange a future of its base, both in
-- USDT, one request for each, and to a worker with a channel; it keeps all the pairs, and each
-- processor has its worker and each symbol one of them again. A later call, whatever the exchanges
-- then, changes nothing.
pub start_watches_all :
    (arrange : Arrangement) (cpus : ℕ) (exchanges : List Opened) (es : List Exchange) (s : Server)
    → ((m : HashMap (List Arbitrage)) → Perm (arrange m) m)
    → 0 < cpus
    → IsStaffed cpus s.workers
    → s.started ≡ false
    → unwrap_assets exchanges ≡ some es
    → (t : Server) × (w : Covers cpus (arrange (cross_assets es)) (record s { started = true }) t)
      × (cross_assets_all_exchanges arrange cpus exchanges s ≡ (t, true))
      × ((k : String)
          → (requests_for k w.requests ≤ 1) × ((requests_for k w.requests ≡ 1) ↔ Crosses k es))
      × ((again : Arrangement) (others : List Opened)
          → cross_assets_all_exchanges again cpus others t ≡ (t, true))
start_watches_all arrange cpus exchanges es s a p h n u =
    let started : Server = record s { started = true } in
    let w = watch_entries-Covers cpus (arrange (cross_assets es)) started p h in
    (
      watch_entries cpus (arrange (cross_assets es)) started,
      w,
      start_returns arrange cpus exchanges es s n u,
      λ k.
          one_request k _ (entries_of k (cross_assets es)) es
            (w.one_each k ∙ entries_of-Perm k _ _ (a (cross_assets es))) (cross_assets-IsMap es k),
      λ again others. cross_assets_all_exchanges-started again cpus others _ w.still_started,
    )
