-- ===== src/Startup/Named.antt =====
-- That all assets that come of the start of Gate name it as their exchange
-- (src/exchange/gate/public/constructor.rs).
use arbexpert_backend.Base.{
  ℕ, ◌≡◌, refl, sym, subst, String, Option, none, some, List, [], ◌∷◌, All, if_elim, Option_split,
  ◌==◌,
}
use arbexpert_backend.Std.BTreeMap
use arbexpert_backend.Std.BTreeMap.{BTreeMap}
use arbexpert_backend.Std.StringOrd.{string_ord}
use arbexpert_backend.Feed.{MarketType}
use arbexpert_backend.Requests.{
  Result, ok, err, Answer, request_fails, body_fails, not_utf8, not_json, json, ExchangeError,
}
use arbexpert_backend.Startup
use arbexpert_backend.Startup.{
  Asset, Assets, Entry, Statics, Public, Lists, gate_asset, gate_trades, make_asset, read_entries,
  collect, fetch_assets_by, join_lists, keep_assets, show_assets, fetch_assets, load_assets,
  sync_time, time_request_error, i64_max, is_empty,
}

-- Every asset of the two maps satisfies `P`.
abbrev pub AllAssets : (Asset → Type 0) → Assets → Type 0
AllAssets P a = All (λ e. P e.1) a.spot × All (λ e. P e.1) a.future

abbrev pub IsGate : Asset → Type 0
IsGate a = a.exchange ≡ "Gate"

read_entries-IsGate :
    (market : MarketType) (es : List Entry) → All IsGate (read_entries (gate_asset market) es)
unfolding read_entries gate_asset make_asset
read_entries-IsGate market [] = tt
read_entries-IsGate market (e ∷ es) =
    let rest = read_entries-IsGate market es in
    if_elim {A = Option Asset}
      (λ o. All IsGate (elim o [
        | none ↦ read_entries (gate_asset market) es
        | some a ↦ a ∷ read_entries (gate_asset market) es
      ]))
      (gate_trades market e) _ _ (refl, rest) rest

collect-All :
    (P : Asset → Type 0) (xs : List Asset) (m : BTreeMap String Asset)
    → All P xs
    → All (λ e. P e.1) m
    → All (λ e. P e.1) (collect xs m)
unfolding collect
collect-All P [] m h k = k
collect-All P (a ∷ xs) m h k = collect-All P xs _ h.1 (BTreeMap.insert-All P a.symbol a m h.0 k)

abbrev OkList : Result (List Asset) → Type 0
OkList (err e) = Unit
OkList (ok xs) = All IsGate xs

abbrev OkAssets : Result Assets → Type 0
OkAssets (err e) = Unit
OkAssets (ok a) = AllAssets IsGate a

fetch_assets_by-IsGate :
    (market : MarketType) (answer : Answer (Option (List Entry)))
    → OkList (fetch_assets_by (gate_asset market) answer)
unfolding fetch_assets_by
fetch_assets_by-IsGate market (request_fails e) = tt
fetch_assets_by-IsGate market (body_fails e) = tt
fetch_assets_by-IsGate market (not_utf8 e) = tt
fetch_assets_by-IsGate market (not_json e) = tt
fetch_assets_by-IsGate market (json none) = tt
fetch_assets_by-IsGate market (json (some es)) = read_entries-IsGate market es

join_lists-IsGate :
    (spot future : Result (List Asset))
    → OkList spot
    → OkList future
    → OkAssets (join_lists spot future)
unfolding join_lists
join_lists-IsGate (err e) future h k = tt
join_lists-IsGate (ok spot) (err e) h k = tt
join_lists-IsGate (ok spot) (ok future) h k =
    (collect-All IsGate spot [] h tt, collect-All IsGate future [] k tt)

abbrev pub Known : Option Assets → Type 0
Known none = Unit
Known (some a) = AllAssets IsGate a

keep_assets-IsGate :
    (r : Result Assets) (s : Statics)
    → OkAssets r
    → AllAssets IsGate s.assets
    → AllAssets IsGate (keep_assets r s).assets
unfolding keep_assets
keep_assets-IsGate (err e) s h k = k
keep_assets-IsGate (ok a) s h k = h

show_assets-Known :
    (r : Result Assets) (p : Public) → OkAssets r → Known p.assets → Known (show_assets r p).assets
unfolding show_assets
show_assets-Known (err e) p h k = k
show_assets-Known (ok a) p h k = h

abbrev Loaded : Option (Result Assets × Statics × Public) → Type 0
Loaded none = Unit
Loaded (some (r, s, p)) = Known p.assets

load_assets-Known :
    (lists : Lists) (s : Statics) (p : Public)
    → AllAssets IsGate s.assets
    → Known p.assets
    → Loaded (load_assets gate_asset lists s p)
unfolding load_assets fetch_assets
load_assets-Known lists s p h k =
    let fetched =
      join_lists-IsGate _ _ (fetch_assets_by-IsGate MarketType.spot lists.spot)
        (fetch_assets_by-IsGate MarketType.future lists.future) in
    if_elim Loaded (is_empty s.assets.spot) _ _
      (if_elim {A = Option (Result Assets × Statics)}
        (λ o. Loaded (elim o [ none ↦ none | some r ↦ some (r.0, r.1, show_assets r.0 p) ]))
        s.limiters _ _ (show_assets-Known _ p fetched k) tt)
      h

Synced : Type 0
Synced = Option ExchangeError × Statics × Public

-- `sync_time` leaves the assets as they are.
sync_time-assets :
    (answer : Answer (Option ℕ)) (local : ℕ) (s : Statics) (p : Public)
    → ((sync_time answer local s p).1.assets ≡ s.assets)
      × ((sync_time answer local s p).2.assets ≡ p.assets)
unfolding sync_time Synced
sync_time-assets answer local s p =
    if_elim {A = Synced} (λ r. (r.1.assets ≡ s.assets) × (r.2.assets ≡ p.assets))
      (s.time_offset == i64_max) _ _
      (Option_split {B = Synced} (λ r. (r.1.assets ≡ s.assets) × (r.2.assets ≡ p.assets))
        (time_request_error answer) _ _ (λ e. (refl, refl)) λ x e. (refl, refl))
      (refl, refl)

abbrev pub Started : Option (Statics × Public) → Type 0
Started none = Unit
Started (some (s, p)) = Known p.assets

pub new-Started :
    (answer : Answer (Option ℕ)) (local : ℕ) (lists : Lists) (s : Statics)
    → AllAssets IsGate s.assets
    → Started (Startup.new gate_asset answer local lists s)
unfolding Startup.new
new-Started answer local lists s h =
    let first : Public = record { assets = none; time_offset_ms = 0 } in
    let synced = sync_time answer local s first in
    let (kept, none_yet) = sync_time-assets answer local s first in
    started (load_assets gate_asset lists synced.1 synced.2) (
      load_assets-Known lists synced.1 synced.2 (subst (AllAssets IsGate) (sym kept) h)
        (subst Known (sym none_yet) tt))
  where
    started :
        (r : Option (Result Assets × Statics × Public))
        → Loaded r
        → Started (elim r [ none ↦ none | some q ↦ some (q.1, q.2) ])
    started none k = tt
    started (some (r, t, p)) k = k
