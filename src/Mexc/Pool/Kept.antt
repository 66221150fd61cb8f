-- ===== src/Mexc/Pool/Kept.antt =====
-- That every order of calls and messages keeps the clients of Mexc small and their symbols apart
-- (src/exchange/mexc/public/watch.rs).
use arbexpert_backend.Base.{
  ℕ, ◌+◌, ◌≤◌, ◌<◌, inl, inr, String, ◌≡◌, subst, Bool, true, Option, none, some, List, [], ◌∷◌,
  ◌++◌, ltb, ◌==◌, arith, if_split, if_elim, Option_split, All-append,
}
use arbexpert_backend.Decimal.{Decimal}
use arbexpert_backend.Mexc
use arbexpert_backend.Mexc.{MexcClient, has_symbol, subscribed_count, watch, unwatch}
use arbexpert_backend.Mexc.Gains.{Gains, unwatch-Gains, watch-Entered, Entered}
use arbexpert_backend.Mexc.Pool.{
  MexcPool, position, get_at, remove_at, limit, normal_name, normalize_symbol, watch_at, watch_new,
  watch_orderbook, watch_end, unwatch_at, unwatch_orderbook,
}
use arbexpert_backend.Mexc.Pool.Room.{
  one, holders, holders-append, Fits-remove_at, position-test, position-none, Heard-Gains,
  one-Gains, count-Gains, opened, OpenedFits, IsRoomy, Step, watches, ends, unwatches, hears,
  opening_hears, Reach, here, next,
}
use arbexpert_backend.Mexc.Pool.Entered.{set_at-IsRoomy, entered-IsRoomy, opening-IsRoomy, May}

abbrev pub no_clients : {D : Type 0} → MexcPool D
no_clients = record { sub_clients = []; opening = none; pairs = [] }

module _ {D : Type 0} ⦃d : Decimal D⦄ where
  opened_one :
      (k : String) (c : MexcClient D) (p : MexcPool D)
      → p.opening ≡ some c
      → holders k p.sub_clients + opened k p.opening ≤ 1
      → holders k p.sub_clients + one k c ≤ 1
  unfolding opened
  opened_one k c p e h = subst (λ o. holders k p.sub_clients + opened k o ≤ 1) e h

  closed_one :
      (k : String) (cs : List (MexcClient D))
      → holders k cs ≤ 1
      → holders k cs + opened {D = D} k none ≤ 1
  unfolding opened
  closed_one k cs h = omega (arith, h)

  opening_one :
      (k : String) (c : MexcClient D) (cs : List (MexcClient D))
      → holders k cs + one k c ≤ 1
      → holders k cs + opened k (some c) ≤ 1
  unfolding opened
  opening_one k c cs h = h

  removed-IsRoomy :
      (i : ℕ) (p : MexcPool D)
      → IsRoomy p
      → IsRoomy (record p { sub_clients = remove_at i p.sub_clients })
  removed-IsRoomy i p h = record {
    fit = (Fits-remove_at "" i p.sub_clients h.fit).0;
    opened_fits = h.opened_fits;
    single = λ k. omega (arith, (Fits-remove_at k i p.sub_clients h.fit).1, h.single k);
  }

  room_lt : (c : MexcClient D) → ltb (subscribed_count c) limit ≡ true → subscribed_count c < limit
  room_lt c h = ground (arith, h)

  -- What `watch_orderbook` leaves.
  abbrev Roomy : Option (MexcPool D × Bool) → Type 0
  Roomy none = Unit
  Roomy (some r) = IsRoomy r.0

  module _ (to_uppercase : String → String) where
    watch_at-Roomy :
        (i : ℕ) (name : String) (tx : ℕ) (sends : Bool) (p : MexcPool D)
        → IsRoomy p
        → p.opening ≡ none
        → ((c : MexcClient D) → get_at i p.sub_clients ≡ some c → May name c p.sub_clients)
        → Roomy (watch_at to_uppercase i name tx sends p)
    unfolding watch_at
    watch_at-Roomy i name tx sends p h o may =
        Option_split Roomy (get_at i p.sub_clients) _ _ (λ e. tt)
          λ c e.
            Option_split {A = MexcClient D × Bool} Roomy (watch name tx sends c) _ _ (λ k. tt)
              λ r k.
                entered-IsRoomy i name c r.0 p h o e (may c e)
                  (subst (Entered name c) k (watch-Entered name tx sends c))

    watch_new-Roomy :
        (name : String) (tx : ℕ) (connects sends : Bool) (p : MexcPool D)
        → IsRoomy p
        → holders name p.sub_clients ≡ 0
        → Roomy (watch_new to_uppercase name tx connects sends p)
    unfolding watch_new Mexc.new
    watch_new-Roomy name tx connects sends p h nobody =
        if_split Roomy connects _ _
          (λ e.
            Option_split {A = MexcClient D × Bool} Roomy (watch name tx sends Mexc.new) _ _
              (λ k. tt)
              λ r k.
                let g : Gains (some name) [] r.0.subscribed =
                  subst (Entered name Mexc.new) k (watch-Entered name tx sends Mexc.new) in
                opening-IsRoomy name r.0 r.1 p h nobody g)
          (λ e. h)

    renamed-IsRoomy :
        (symbol : String) (p : MexcPool D)
        → IsRoomy p
        → IsRoomy (normalize_symbol to_uppercase symbol p)
    unfolding normalize_symbol
    renamed-IsRoomy symbol p h = record {
      fit = h.fit;
      opened_fits = h.opened_fits;
      single = h.single;
    }

    watch_orderbook-Roomy :
        (symbol : String) (tx : ℕ) (connects sends : Bool) (p : MexcPool D)
        → IsRoomy p
        → p.opening ≡ none
        → Roomy (watch_orderbook to_uppercase symbol tx connects sends p)
    unfolding watch_orderbook normalize_symbol May
    watch_orderbook-Roomy symbol tx connects sends p h o =
        let q = normalize_symbol to_uppercase symbol p in
        let name = normal_name to_uppercase symbol in
        let k = renamed-IsRoomy symbol p h in
        Option_split Roomy (position (has_symbol name) p.sub_clients) _ _
          (λ nowhere.
            let nobody = position-none name p.sub_clients nowhere in
            Option_split Roomy (position (λ c. ltb (subscribed_count c) limit) p.sub_clients) _ _
              (λ full. watch_new-Roomy name tx connects sends q k nobody)
              λ i e.
                watch_at-Roomy i name tx sends q k o
                  (λ c f. inr (nobody, room_lt c (position-test _ i c p.sub_clients e f))))
          λ i e.
            watch_at-Roomy i name tx sends q k o
              (λ c f. inl (position-test (has_symbol name) i c p.sub_clients e f))

    watch_end-IsRoomy :
        (answered : Bool) (p : MexcPool D) → IsRoomy p → IsRoomy (watch_end to_uppercase answered p)
    unfolding watch_end
    watch_end-IsRoomy answered p h =
        Option_split IsRoomy p.opening _ _ (λ e. h)
          λ c e.
            let fits : subscribed_count c ≤ limit = subst OpenedFits e h.opened_fits in
            let single : (k : String) → holders k p.sub_clients + one k c ≤ 1 =
              λ k. opened_one k c p e (h.single k) in
            if_elim (λ cs. IsRoomy (record p { sub_clients = cs; opening = none })) answered _ _
              (record {
                fit =
                    All-append (λ x. subscribed_count x ≤ limit) p.sub_clients (c ∷ []) h.fit
                      (fits, tt);
                opened_fits = tt;
                single = λ k.
                    closed_one k (p.sub_clients ++ c ∷ [])
                      (omega (arith, single k, holders-append k p.sub_clients c));
              })
              (record {
                fit = h.fit;
                opened_fits = tt;
                single = λ k. closed_one k p.sub_clients (omega (arith, single k));
              })

    unwatch_at-IsRoomy :
        (i : ℕ) (name : String) (sends : Bool) (p : MexcPool D)
        → IsRoomy p
        → IsRoomy (unwatch_at to_uppercase i name sends p)
    unfolding unwatch_at
    unwatch_at-IsRoomy i name sends p h =
        Option_split IsRoomy (get_at i p.sub_clients) _ _ (λ e. h)
          λ c e.
            let r = unwatch name sends c in
            let kept = set_at-IsRoomy i c r.0 p h e (unwatch-Gains name sends c) in
            if_elim IsRoomy r.1 _ _
              (if_elim IsRoomy (subscribed_count r.0 == 0) _ _ (removed-IsRoomy i p h) kept) kept

    unwatch_orderbook-IsRoomy :
        (symbol : String) (sends : Bool) (p : MexcPool D)
        → IsRoomy p
        → IsRoomy (unwatch_orderbook to_uppercase symbol sends p)
    unfolding unwatch_orderbook
    unwatch_orderbook-IsRoomy symbol sends p h =
        let q = normalize_symbol to_uppercase symbol p in
        let name = normal_name to_uppercase symbol in
        let k = renamed-IsRoomy symbol p h in
        Option_split IsRoomy (position (has_symbol name) q.sub_clients) _ _ (λ e. k)
          λ i e. unwatch_at-IsRoomy i name sends q k

    Step-IsRoomy : {p q : MexcPool D} → IsRoomy p → Step to_uppercase p q → IsRoomy q
    Step-IsRoomy {p} h (watches symbol tx connects sends q waits o e) =
        subst Roomy e (watch_orderbook-Roomy symbol tx connects sends p h o)
    Step-IsRoomy {p} h (ends answered) = watch_end-IsRoomy answered p h
    Step-IsRoomy {p} h (unwatches symbol sends o) = unwatch_orderbook-IsRoomy symbol sends p h
    Step-IsRoomy {p} h (hears i c t e heard) = set_at-IsRoomy i c t p h e (Heard-Gains heard)
    Step-IsRoomy {p} h (opening_hears c t e heard) = record {
      fit = h.fit;
      opened_fits = count-Gains c t (Heard-Gains heard) (subst OpenedFits e h.opened_fits);
      single = λ k.
          let before = opened_one k c p e (h.single k) in
          opening_one k t p.sub_clients
            (omega (arith, before, one-Gains k c t (Heard-Gains heard)));
    }

    Reach-IsRoomy : {p q : MexcPool D} → IsRoomy p → Reach to_uppercase p q → IsRoomy q
    Reach-IsRoomy h here = h
    Reach-IsRoomy h (next r s) = Step-IsRoomy (Reach-IsRoomy h r) s

    -- Whatever calls, answers, messages and failures there were since the start, with no client: no
    -- client of Mexc has more than 35 symbols, and no symbol is subscribed by two of them, the one
    -- that a running call has just made included.
    pub mexc_pool_keeps : (p : MexcPool D) → Reach to_uppercase no_clients p → IsRoomy p
    unfolding holders opened
    mexc_pool_keeps p r =
        Reach-IsRoomy (record { fit = tt; opened_fits = tt; single = λ k. omega arith }) r
