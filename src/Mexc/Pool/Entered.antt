-- ===== src/Mexc/Pool/Entered.antt =====
-- What a symbol that a client gets does to the sizes and the symbols of all
-- (src/exchange/mexc/public/watch.rs).
use arbexpert_backend.Base.{
  ℕ, suc, ◌≤◌, ◌<◌, ◌⊎◌, inl, inr, String, ◌≡◌, ap, subst, Bool, true, false, none, some, List, [],
  if◌then◌else◌, arith, str_eq, eq_iff, Bool-cases,
}
use arbexpert_backend.Std.HashMap
use arbexpert_backend.Decimal.{Decimal}
use arbexpert_backend.Mexc.{MexcClient, has_symbol, subscribed_count}
use arbexpert_backend.Mexc.Gains.{Gains, Gains-known}
use arbexpert_backend.Mexc.Pool.{MexcPool, get_at, set_at, limit}
use arbexpert_backend.Mexc.Pool.Room.{
  one, holders, holders-set_at, Fits-set_at, Fits-get_at, one-Gains, count-Gains, opened, IsRoomy,
}

module _ {D : Type 0} ⦃d : Decimal D⦄ where
  pub set_at-IsRoomy :
      (i : ℕ) (c t : MexcClient D) (p : MexcPool D)
      → IsRoomy p
      → get_at i p.sub_clients ≡ some c
      → Gains none c.subscribed t.subscribed
      → IsRoomy (record p { sub_clients = set_at i t p.sub_clients })
  set_at-IsRoomy i c t p h e g = record {
    fit =
        Fits-set_at i t p.sub_clients h.fit
          (count-Gains c t g (Fits-get_at i c p.sub_clients h.fit e));
    opened_fits = h.opened_fits;
    single =
        λ k. omega (arith, holders-set_at k i c t p.sub_clients e, one-Gains k c t g, h.single k);
  }

  one-entered :
      (k name : String) (c t : MexcClient D)
      → Gains (some name) c.subscribed t.subscribed
      → one k t ≤ (if str_eq name k then 1 else one k c)
  unfolding Gains one
  one-entered k name c t g = ground (arith, g.0 k)

  count-entered :
      (name : String) (c t : MexcClient D)
      → Gains (some name) c.subscribed t.subscribed
      → subscribed_count t ≤ suc (subscribed_count c)
  unfolding Gains subscribed_count
  count-entered name c t g = ground (arith, g.1)

  -- A client may get a symbol: it has it, or no client has it and this one has room.
  unfoldable pub May : String → MexcClient D → List (MexcClient D) → Type 0
  May name c cs =
      (has_symbol name c ≡ true) ⊎ ((holders name cs ≡ 0) × (subscribed_count c < limit))

  nobody_holds :
      (name k : String) (cs : List (MexcClient D))
      → str_eq name k ≡ true
      → holders name cs ≡ 0
      → holders k cs ≡ 0
  nobody_holds name k cs s h = subst (λ j. holders j cs ≡ 0) ((eq_iff name k).0 s) h

  pub entered-IsRoomy :
      (i : ℕ) (name : String) (c t : MexcClient D) (p : MexcPool D)
      → IsRoomy p
      → p.opening ≡ none
      → get_at i p.sub_clients ≡ some c
      → May name c p.sub_clients
      → Gains (some name) c.subscribed t.subscribed
      → IsRoomy (record p { sub_clients = set_at i t p.sub_clients })
  unfolding May has_symbol opened
  entered-IsRoomy i name c t p h o e (inl known) g =
      set_at-IsRoomy i c t p h e (Gains-known name c.subscribed t.subscribed known g)
  entered-IsRoomy i name c t p h o e (inr (nobody, room)) g = record {
    fit = Fits-set_at i t p.sub_clients h.fit (omega (arith, count-entered name c t g, room));
    opened_fits = h.opened_fits;
    single = λ k. elim (Bool-cases (str_eq name k)) [
      | inl s ↦
          let free = nobody_holds name k p.sub_clients s nobody in
          let closed = ap (opened k) o in
          let gained = one-entered k name c t g in
          ground (arith, s, gained, free, closed, holders-set_at k i c t p.sub_clients e)
      | inr s ↦
          let gained = one-entered k name c t g in
          ground (arith, s, gained, holders-set_at k i c t p.sub_clients e, h.single k)
    ];
  }

  opening-small :
      (name : String) (c : MexcClient D)
      → Gains (some name) [] c.subscribed
      → (subscribed_count c ≤ limit) × ((k : String) → one k c ≤ (if str_eq name k then 1 else 0))
  unfolding Gains HashMap.get subscribed_count one
  opening-small name c g = (ground (arith, g.1), λ k. ground (arith, g.0 k))

  pub opening-IsRoomy :
      (name : String) (c : MexcClient D) (waits : Bool) (p : MexcPool D)
      → IsRoomy p
      → holders name p.sub_clients ≡ 0
      → Gains (some name) [] c.subscribed
      → IsRoomy (record p { opening = if waits then some c else none })
  unfolding opened
  opening-IsRoomy name c true p h nobody g = record {
    fit = h.fit;
    opened_fits = (opening-small name c g).0;
    single = λ k.
        let gained = (opening-small name c g).1 k in
        elim (Bool-cases (str_eq name k)) [
          | inl s ↦
              let free = nobody_holds name k p.sub_clients s nobody in
              ground (arith, s, gained, free)
          | inr s ↦ ground (arith, s, gained, h.single k)
        ];
  }
  opening-IsRoomy name c false p h nobody g = record {
    fit = h.fit;
    opened_fits = tt;
    single = λ k. omega (arith, h.single k);
  }
