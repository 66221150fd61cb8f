-- ===== src/Workers/Crossing/Pairs.antt =====
-- Which pairs `cross_assets_all_exchanges` makes (src/main.rs).
use arbexpert_backend.Base.{
  String, ◌≡◌, refl, sym, ap, ap₂, ◌∙◌, subst, fun_ext, Bool, true, false, ◌&&◌, ◌||◌, some, List,
  [], ◌∷◌, ◌++◌, arith, All, if◌then◌else◌, Bool-cases, inl, inr, str_eq, eq_iff, if_elim, not,
  Ordering, All-append,
}
use arbexpert_backend.Std.BTreeMap
use arbexpert_backend.Std.BTreeMap.{
  BTreeMap, IsSorted, Above, get-insert, insert-IsSorted, Above-get, at_key,
}
use arbexpert_backend.Std.HashMap
use arbexpert_backend.Std.HashMap.{HashMap}
use arbexpert_backend.Std.StringOrd.{string_ord}
use arbexpert_backend.Feed.{MarketType}
use arbexpert_backend.Startup.{Asset, Assets}
use arbexpert_backend.Workers.Crossing.{
  Exchange, Listed, Arbitrage, or_default, push_listed, push_arbitrage, list_assets, list_exchanges,
  assets_of, cross_spot, cross_spots, cross_entries, cross_assets, is_spot,
}

unfoldable pub any : {A : Type 0} → (A → Bool) → List A → Bool
any p [] = false
any p (x ∷ xs) = p x || any p xs

any-append :
    {A : Type 0} (p : A → Bool) (xs : List A) (x : A) → any p (xs ++ x ∷ []) ≡ (any p xs || p x)
unfolding any
any-append p [] x = ground arith
any-append p (y ∷ xs) x = ground (arith, any-append p xs x)

-- A list under `k` has an element that passes the test.
shows : (Arbitrage → Bool) → String → HashMap (List Arbitrage) → Bool
shows p k m = any p (or_default (HashMap.get k m))

shows-push_arbitrage :
    (p : Arbitrage → Bool) (j k : String) (x : Arbitrage) (m : HashMap (List Arbitrage))
    → shows p k (push_arbitrage j x m) ≡ (shows p k m || (str_eq j k && p x))
unfolding shows push_arbitrage any
shows-push_arbitrage p j k x m =
    let pushed = or_default (HashMap.get j m) ++ x ∷ [] in
    ap (λ o. any p (or_default o)) (HashMap.get-insert k j pushed m)
    ∙ ground (arith, eq_iff j k, any-append p (or_default (HashMap.get j m)) x)

other_key : (b j : String) → string_ord.cmp b j ≡ Ordering.lt → str_eq b j ≡ false
other_key b j h = ground (arith, h, eq_iff b j, string_ord.cmp_refl b)

get-first :
    (b j : String) (xs : List Listed) (es : BTreeMap String (List Listed))
    → BTreeMap.get b ((j, xs) ∷ es) ≡ (if str_eq b j then some xs else BTreeMap.get b es)
unfolding BTreeMap.get
get-first b j xs es = ground (arith, eq_iff b j, string_ord.cmp_eq b j, string_ord.cmp_refl b)

-- Every asset under a base has that base.
IsGrouped : BTreeMap String (List Listed) → Type 0
IsGrouped = All (λ e. All (λ x. x.asset.base ≡ e.0) e.1)

module _ (p q : Asset → Bool) where
  both : Arbitrage → Bool
  both x = p x.spot && q x.future

  named : String → Asset → Bool
  named k s = str_eq s.symbol k && p s

  shows-cross_spot :
      (k : String) (s : Asset) (fs : List Asset) (m : HashMap (List Arbitrage))
      → shows both k (cross_spot s fs m) ≡ (shows both k m || (named k s && any q fs))
  unfolding cross_spot any both named
  shows-cross_spot k s [] m = ground arith
  shows-cross_spot k s (f ∷ fs) m =
      let x : Arbitrage = record { spot = s; future = f } in
      ground (
        arith,
        shows-cross_spot k s fs (push_arbitrage s.symbol x m),
        shows-push_arbitrage both s.symbol k x m,
      )

  shows-cross_spots :
      (k : String) (ss fs : List Asset) (m : HashMap (List Arbitrage))
      → shows both k (cross_spots ss fs m) ≡ (shows both k m || (any (named k) ss && any q fs))
  unfolding cross_spots any
  shows-cross_spots k [] fs m = ground arith
  shows-cross_spots k (s ∷ ss) fs m =
      ground (arith, shows-cross_spots k ss fs (cross_spot s fs m), shows-cross_spot k s fs m)

  crossed : String → List Listed → Bool
  crossed k xs = any (named k) (assets_of true xs) && any q (assets_of false xs)

  any_entry : String → BTreeMap String (List Listed) → Bool
  any_entry k [] = false
  any_entry k ((j, xs) ∷ rest) = crossed k xs || any_entry k rest

  shows-cross_entries :
      (k : String) (es : BTreeMap String (List Listed)) (m : HashMap (List Arbitrage))
      → shows both k (cross_entries es m) ≡ (shows both k m || any_entry k es)
  unfolding cross_entries any_entry crossed
  shows-cross_entries k [] m = ground arith
  shows-cross_entries k ((j, xs) ∷ rest) m = ground (
    arith,
    shows-cross_entries k rest (cross_spots (assets_of true xs) (assets_of false xs) m),
    shows-cross_spots k (assets_of true xs) (assets_of false xs) m,
  )

  -- The tests pass only for assets of the base `b`.
  module _ (b : String) (of_base : (a : Asset) → q a ≡ true → a.base ≡ b) where
    any_future-other :
        (j : String) (xs : List Listed)
        → str_eq b j ≡ false
        → All (λ x. x.asset.base ≡ j) xs
        → any q (assets_of false xs) ≡ false
    unfolding any assets_of
    any_future-other j [] h g = refl
    any_future-other j (x ∷ xs) h g =
        ground (arith, any_future-other j xs h g.1, of_base x.asset, eq_iff b j, g.0)

    any_entry-Above :
        (k : String) (es : BTreeMap String (List Listed))
        → Above b es
        → IsGrouped es
        → any_entry k es ≡ false
    unfolding any_entry crossed IsGrouped
    any_entry-Above k [] h g = refl
    any_entry-Above k ((j, xs) ∷ es) h g =
        ground (arith, any_entry-Above k es h.1 g.1, any_future-other j xs (other_key b j h.0) g.0)

    any_entry-at :
        (k : String) (es : BTreeMap String (List Listed))
        → IsSorted es
        → IsGrouped es
        → any_entry k es ≡ crossed k (or_default (BTreeMap.get b es))
    unfolding any_entry crossed IsGrouped BTreeMap.get any assets_of
    any_entry-at k [] h g = refl
    any_entry-at k ((j, xs) ∷ es) h g = sym (
        ap (λ o. crossed k (or_default o)) (get-first b j xs es) ∙ elim (Bool-cases (str_eq b j)) [
          | inl e ↦
              let above = subst (λ i. Above i es) (sym ((eq_iff b j).0 e)) h.0 in
              ground (arith, e, any_entry-Above k es above g.1)
          | inr e ↦ ground (arith, e, any_entry-at k es h.1 g.1, any_future-other j xs e g.0)
        ])

abbrev fits : Bool → MarketType → Bool
fits spot market = if spot then is_spot market else not (is_spot market)

any-assets_of :
    (r : Asset → Bool) (t : Bool) (xs : List Listed) (x : Listed)
    → any r (assets_of t (xs ++ x ∷ []))
      ≡ (any r (assets_of t xs) || (fits t x.market && r x.asset))
unfolding any assets_of
any-assets_of r t [] x = ground arith
any-assets_of r t (y ∷ xs) x = ground (arith, any-assets_of r t xs x)

-- Some asset under the base `b`, of the market, passes the test.
listed : (Asset → Bool) → Bool → String → BTreeMap String (List Listed) → Bool
listed r t b m = any r (assets_of t (or_default (BTreeMap.get b m)))

listed-push_listed :
    (r : Asset → Bool) (t : Bool) (b k : String) (x : Listed) (m : BTreeMap String (List Listed))
    → listed r t b (push_listed k x m)
      ≡ (listed r t b m || (str_eq k b && (fits t x.market && r x.asset)))
unfolding listed push_listed
listed-push_listed r t b k x m =
    ap (λ o. any r (assets_of t (or_default o)))
      (get-insert b k (or_default (BTreeMap.get k m) ++ x ∷ []) m)
    ∙ ground (
      arith,
      eq_iff k b,
      string_ord.cmp_eq b k,
      string_ord.cmp_refl b,
      any-assets_of r t (or_default (BTreeMap.get k m)) x,
    )

-- An asset in US dollars of the base `b` that passes the test.
pub offers : (Asset → Bool) → String → Asset → Bool
offers r b a = str_eq a.quote "USDT" && (str_eq a.base b && r a)

listed-list_assets :
    (r : Asset → Bool) (t : Bool) (b name : String) (market : MarketType)
    (entries : BTreeMap String Asset) (m : BTreeMap String (List Listed))
    → listed r t b (list_assets name market entries m)
      ≡ (listed r t b m || (fits t market && any (λ e. offers r b e.1) entries))
unfolding list_assets any offers
listed-list_assets r t b name market [] m = ground arith
listed-list_assets r t b name market ((k, a) ∷ entries) m =
    let x : Listed = record { asset = a; market = market; exchange = name } in
    ground (
      arith,
      listed-list_assets r t b name market entries
          (if str_eq a.quote "USDT" then push_listed a.base x m else m),
      listed-push_listed r t b a.base x m,
    )

abbrev pub market_of : Bool → Assets → BTreeMap String Asset
market_of true assets = assets.spot
market_of false assets = assets.future

-- Some exchange has such an asset in the market.
pub offered : (Asset → Bool) → Bool → String → List Exchange → Bool
offered r t b exchanges = any (λ x. any (λ e. offers r b e.1) (market_of t x.assets)) exchanges

listed-list_exchanges :
    (r : Asset → Bool) (t : Bool) (b : String) (es : List Exchange)
    (m : BTreeMap String (List Listed))
    → listed r t b (list_exchanges es m) ≡ (listed r t b m || offered r t b es)
unfolding list_exchanges any offered
listed-list_exchanges r t b [] m = ground arith
listed-list_exchanges r true b (e ∷ es) m =
    let spots = list_assets e.name MarketType.spot e.assets.spot m in
    ground (
      arith,
      listed-list_exchanges r true b es
          (list_assets e.name MarketType.future e.assets.future spots),
      listed-list_assets r true b e.name MarketType.future e.assets.future spots,
      listed-list_assets r true b e.name MarketType.spot e.assets.spot m,
    )
listed-list_exchanges r false b (e ∷ es) m =
    let spots = list_assets e.name MarketType.spot e.assets.spot m in
    ground (
      arith,
      listed-list_exchanges r false b es
          (list_assets e.name MarketType.future e.assets.future spots),
      listed-list_assets r false b e.name MarketType.future e.assets.future spots,
      listed-list_assets r false b e.name MarketType.spot e.assets.spot m,
    )

-- The order of two texts, with its equation.
at_order :
    {A : Type 0} (P : A → Type 0) (o : Ordering) (x y z : A)
    → (o ≡ Ordering.lt → P x)
    → (o ≡ Ordering.eq → P y)
    → (o ≡ Ordering.gt → P z)
    → P (elim o [ Ordering.lt ↦ x | Ordering.eq ↦ y | Ordering.gt ↦ z ])
at_order P Ordering.lt x y z px py pz = px refl
at_order P Ordering.eq x y z px py pz = py refl
at_order P Ordering.gt x y z px py pz = pz refl

insert-IsGrouped :
    (k : String) (xs : List Listed) (m : BTreeMap String (List Listed))
    → All (λ x. x.asset.base ≡ k) xs
    → IsGrouped m
    → IsGrouped (BTreeMap.insert k xs m)
unfolding IsGrouped BTreeMap.insert
insert-IsGrouped k xs [] h g = (h, tt)
insert-IsGrouped k xs ((j, ys) ∷ m) h g =
    at_order IsGrouped (string_ord.cmp k j) _ _ _ (λ e. (h, g))
      (λ e. (subst (λ i. All (λ x. x.asset.base ≡ i) xs) (string_ord.cmp_eq k j e) h, g.1))
      (λ e. (g.0, insert-IsGrouped k xs m h g.1))

get-IsGrouped :
    (k : String) (m : BTreeMap String (List Listed))
    → IsGrouped m
    → All (λ x. x.asset.base ≡ k) (or_default (BTreeMap.get k m))
unfolding IsGrouped BTreeMap.get
get-IsGrouped k [] g = tt
get-IsGrouped k ((j, ys) ∷ m) g =
    at_order (λ o. All {A = Listed} (λ x. x.asset.base ≡ k) (or_default o)) (string_ord.cmp k j) _ _
      _ (λ e. get-IsGrouped k m g.1)
      (λ e. subst (λ i. All (λ x. x.asset.base ≡ i) ys) (sym (string_ord.cmp_eq k j e)) g.0)
      (λ e. get-IsGrouped k m g.1)

push_listed-IsGrouped :
    (x : Listed) (m : BTreeMap String (List Listed))
    → IsSorted m
    → IsGrouped m
    → IsSorted (push_listed x.asset.base x m) × IsGrouped (push_listed x.asset.base x m)
unfolding push_listed IsGrouped
push_listed-IsGrouped x m h g = (
  insert-IsSorted x.asset.base _ m h,
  insert-IsGrouped x.asset.base _ m
      (All-append (λ y. y.asset.base ≡ x.asset.base) _ (x ∷ []) (get-IsGrouped x.asset.base m g)
        (refl, tt))
      g,
)

list_assets-IsGrouped :
    (name : String) (market : MarketType) (entries : BTreeMap String Asset)
    (m : BTreeMap String (List Listed))
    → IsSorted m × IsGrouped m
    → IsSorted (list_assets name market entries m) × IsGrouped (list_assets name market entries m)
unfolding list_assets
list_assets-IsGrouped name market [] m h = h
list_assets-IsGrouped name market ((k, a) ∷ entries) m h =
    let x : Listed = record { asset = a; market = market; exchange = name } in
    list_assets-IsGrouped name market entries _ (
      if_elim (λ n. IsSorted n × IsGrouped n) (str_eq a.quote "USDT") _ _
        (push_listed-IsGrouped x m h.0 h.1) h)

list_exchanges-IsGrouped :
    (es : List Exchange) (m : BTreeMap String (List Listed))
    → IsSorted m × IsGrouped m
    → IsSorted (list_exchanges es m) × IsGrouped (list_exchanges es m)
unfolding list_exchanges
list_exchanges-IsGrouped [] m h = h
list_exchanges-IsGrouped (e ∷ es) m h = list_exchanges-IsGrouped es _ (
    list_assets-IsGrouped e.name MarketType.future e.assets.future _
      (list_assets-IsGrouped e.name MarketType.spot e.assets.spot m h))

offers-again : (q : Asset → Bool) (b : String) → offers (λ f. str_eq f.base b && q f) b ≡ offers q b
unfolding offers
offers-again q b = fun_ext λ f. ground arith

-- Under a symbol `k`, `cross_assets_all_exchanges` makes an arbitrage of a spot that passes `p` and a
-- future of the base `b` that passes `q` just if some exchange lists such a spot with the symbol `k`
-- and the base `b`, some exchange, the same or another, lists such a future of the base `b`, and both
-- are quoted in USDT. The tests are any: those for one asset each say which pairs there are.
pub cross_assets_exact :
    (p q : Asset → Bool) (k b : String) (exchanges : List Exchange)
    → any
        (λ x. p x.spot && (str_eq x.future.base b && q x.future))
        (or_default (HashMap.get k (cross_assets exchanges)))
      ≡ (offered (λ s. str_eq s.symbol k && p s) true b exchanges && offered q false b exchanges)
unfolding cross_assets IsGrouped crossed any listed any_entry shows list_exchanges HashMap.get both
    cross_entries named assets_of BTreeMap.get offered
cross_assets_exact p q k b exchanges =
    let q' : Asset → Bool = λ f. str_eq f.base b && q f in
    let es = list_exchanges exchanges [] in
    let (sorted, grouped) = list_exchanges-IsGrouped exchanges [] (tt, tt) in
    shows-cross_entries p q' k es []
    ∙ any_entry-at p q' b (λ f h. (eq_iff f.base b).0 (ground (arith, h))) k es sorted grouped
    ∙ ap₂ ◌&&◌ (listed-list_exchanges (named p q' k) true b exchanges []) (
        listed-list_exchanges q' false b exchanges []
        ∙ ap (λ r. any (λ x. any (λ e. r e.1) x.assets.future) exchanges) (offers-again q b))
