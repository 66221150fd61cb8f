-- ===== src/Startup/Sync.antt =====
-- What the threads share of the start of an exchange: the clock is compared once, the lists of
-- assets are read once, and when a start panics (src/exchange/gate/public/constructor.rs,
-- src/exchange/binance/public/constructor.rs).
use arbexpert_backend.Base.{
  ℕ, ◌≡◌, ◌≢◌, refl, ap, ◌∙◌, subst, true, false, Option, none, some, arith, is_some, ap₂, not,
  ◌||◌, Option_split, if_split, if_false, ◌==◌,
}
use arbexpert_backend.Feed.{MarketType}
use arbexpert_backend.Requests.{ExchangeError, Answer, Result, ok, err}
use arbexpert_backend.Startup
use arbexpert_backend.Startup.{
  Asset, Assets, Entry, Lists, Statics, Public, i64_max, first_statics, time_request_error,
  sync_time, fetch_assets, load_assets, is_empty, keep_assets, show_assets,
}

abbrev Synced : Type 0
Synced = Option ExchangeError × Statics × Public

same_sync :
    (answer : Answer (Option ℕ)) (local : ℕ) (s : Statics) (p : Public)
    → s.time_offset ≢ i64_max
    → sync_time answer local s p ≡ (none, s, record p { time_offset_ms = s.time_offset })
unfolding sync_time
same_sync answer local s p h = if_false (s.time_offset == i64_max) _ _ (ground arith)

synced_offset :
    (answer : Answer (Option ℕ)) (local : ℕ) (s : Statics) (p : Public)
    → (sync_time answer local s p).0 ≡ none
    → (sync_time answer local s p).1.time_offset ≡ (sync_time answer local s p).2.time_offset_ms
unfolding sync_time
synced_offset answer local s p =
    if_split {A = Synced} (λ r. r.0 ≡ none → r.1.time_offset ≡ r.2.time_offset_ms)
      (s.time_offset == i64_max) _ _
      (λ e.
        Option_split {B = Synced} (λ r. r.0 ≡ none → r.1.time_offset ≡ r.2.time_offset_ms)
          (time_request_error answer) _ _ (λ k h. refl) λ x k h. absurd (ground (arith, h)))
      (λ e h. refl)

-- Once a call of `sync_time` succeeded, with an offset that is not the mark `i64::MAX`: every later
-- call, of any exchange of the process and whatever its request would answer, succeeds with the
-- same offset and changes nothing that is shared.
pub sync_time_again :
    (answer answer' : Answer (Option ℕ)) (local local' : ℕ) (s : Statics) (p p' : Public)
    → (sync_time answer local s p).0 ≡ none
    → (sync_time answer local s p).1.time_offset ≢ i64_max
    → sync_time answer' local' (sync_time answer local s p).1 p' ≡ (
      none,
      (sync_time answer local s p).1,
      record p' { time_offset_ms = (sync_time answer local s p).2.time_offset_ms },
    )
sync_time_again answer answer' local local' s p p' h k =
    same_sync answer' local' (sync_time answer local s p).1 p' k
    ∙ ap (λ o. (none, (sync_time answer local s p).1, record p' { time_offset_ms = o }))
        (synced_offset answer local s p h)

-- Whoever has an offset has limiters.
unfoldable pub IsLimited : Statics → Type 0
IsLimited s = s.time_offset ≢ i64_max → s.limiters ≡ true

sync_time-limiters :
    (answer : Answer (Option ℕ)) (local : ℕ) (s : Statics) (p : Public)
    → IsLimited s
    → ((sync_time answer local s p).1.limiters
        ≡ (s.limiters || not (is_some (time_request_error answer))))
      × ((sync_time answer local s p).1.assets ≡ s.assets)
unfolding sync_time IsLimited
sync_time-limiters answer local s p h =
    if_split {A = Synced}
      (λ r.
        (r.1.limiters ≡ (s.limiters || not (is_some (time_request_error answer))))
        × (r.1.assets ≡ s.assets))
      (s.time_offset == i64_max) _ _
      (λ e.
        Option_split {B = Synced}
          (λ r.
            (r.1.limiters ≡ (s.limiters || not (is_some (time_request_error answer))))
            × (r.1.assets ≡ s.assets))
          (time_request_error answer) _ _ (λ k. (ground (arith, k), refl))
          λ x k. (ground (arith, k), refl))
      (λ e. (ground (arith, e, h (ground (arith, e))), refl))

is_some-map :
    {A B : Type 0} (o : Option A) (f : A → B)
    → is_some (elim o [ none ↦ none | some x ↦ some (f x) ]) ≡ is_some o
is_some-map none f = refl
is_some-map (some x) f = refl

-- What a load that succeeds leaves for all: the assets that it returns.
abbrev Loaded : Option (Result Assets × Statics × Public) → Type 0
Loaded none = Unit
Loaded (some (err e, s, p)) = Unit
Loaded (some (ok a, s, p)) = s.assets ≡ a

module _ (read : MarketType → Entry → Option Asset) where
  is_some-load_assets :
      (lists : Lists) (s : Statics) (p : Public)
      → is_some (load_assets read lists s p) ≡ (not (is_empty s.assets.spot) || s.limiters)
  unfolding load_assets fetch_assets
  is_some-load_assets lists s p = ground arith

  is_some-new :
      (answer : Answer (Option ℕ)) (local : ℕ) (lists : Lists) (s : Statics) (synced : Synced)
      → sync_time answer local s (record { assets = none; time_offset_ms = 0 }) ≡ synced
      → is_some (Startup.new read answer local lists s)
        ≡ is_some (load_assets read lists synced.1 synced.2)
  unfolding Startup.new
  is_some-new answer local lists s synced e =
      is_some-map {A = Result Assets × Statics × Public} {B = Statics × Public} _ (λ x. (x.1, x.2))
      ∙ ap (λ r. is_some {A = Result Assets × Statics × Public} (load_assets read lists r.1 r.2)) e

  -- Where no offset was stored without setting the limiters, as `sync_time` keeps it: the start of an
  -- exchange returns just if the assets were read before, the limiters were set before, or its
  -- request for the time succeeds; otherwise it panics.
  pub new_returns :
      (answer : Answer (Option ℕ)) (local : ℕ) (lists : Lists) (s : Statics)
      → IsLimited s
      → is_some (Startup.new read answer local lists s) ≡ (
          not (is_empty s.assets.spot) || (s.limiters || not (is_some (time_request_error answer))))
  new_returns answer local lists s h =
      let first : Public = record { assets = none; time_offset_ms = 0 } in
      let (limited, kept) = sync_time-limiters answer local s first h in
      let synced = sync_time answer local s first in
      is_some-new answer local lists s synced refl
      ∙ is_some-load_assets lists synced.1 synced.2
      ∙ ap₂ (λ a l. not (is_empty a.spot) || l) kept limited

  Loaded-fetched :
      (fetched : Result Assets) (s : Statics) (p : Public)
      → Loaded (some (fetched, keep_assets fetched s, show_assets fetched p))
  unfolding keep_assets
  Loaded-fetched (err e) s p = tt
  Loaded-fetched (ok a) s p = refl

  load_assets-Loaded :
      (lists : Lists) (s : Statics) (p : Public) → Loaded (load_assets read lists s p)
  unfolding load_assets fetch_assets
  load_assets-Loaded lists s p =
      if_split Loaded (is_empty s.assets.spot) _ _
        (λ e.
          if_split {A = Option (Result Assets × Statics)}
            (λ o. Loaded (elim o [ none ↦ none | some r ↦ some (r.0, r.1, show_assets r.0 p) ]))
            s.limiters _ _ (λ l. Loaded-fetched _ s p) (λ l. tt))
        (λ e. refl)

  -- Once a call of `load_assets` returned assets with some spot pair: every later call, of any
  -- exchange of the process, returns the same assets and keeps them as its own, makes no request
  -- and changes nothing that is shared.
  pub load_assets_again :
      (lists lists' : Lists) (s t : Statics) (p q p' : Public) (a : Assets)
      → load_assets read lists s p ≡ some (ok a, t, q)
      → is_empty a.spot ≡ false
      → load_assets read lists' t p' ≡ some (ok a, t, record p' { assets = some a })
  unfolding load_assets
  load_assets_again lists lists' s t p q p' a e h =
      let kept : t.assets ≡ a = subst Loaded e (load_assets-Loaded lists s p) in
      if_false (is_empty t.assets.spot) _ _ (ap (λ x. is_empty x.spot) kept ∙ h)
      ∙ ap (λ x. some (ok x, t, record p' { assets = some x })) kept
