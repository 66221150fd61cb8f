-- ===== src/Mexc/Pool/Room.antt =====
-- What the exchange keeps of its clients (src/exchange/mexc/public/watch.rs): their size, and that a symbol
-- has one book.
use arbexpert_backend.Base.{
  ℕ, zero, suc, ◌+◌, ◌≤◌, inl, inr, String, ◌≡◌, refl, sym, ap, ◌∙◌, subst, Bool, true, Option,
  none, some, List, [], ◌∷◌, ◌++◌, if◌then◌else◌, arith, All, Option-cases, Bool-cases, if_true,
  if_false, elim_some,
}
use mathlib.Core.Option.{some-injective}
use arbexpert_backend.Decimal.{Decimal}
use arbexpert_backend.Mexc.{
  MexcClient, returns, PushData, has_symbol, subscribed_count, on_fail, handle_binary,
}
use arbexpert_backend.Mexc.Gains.{has, Gains, Gains-empty, handle_binary-Gained, Gained}
use arbexpert_backend.Mexc.Pool.{
  MexcPool, position, get_at, set_at, remove_at, limit, watch_orderbook, watch_end,
  unwatch_orderbook,
}

module _ {D : Type 0} ⦃d : Decimal D⦄ where
  unfoldable pub one : String → MexcClient D → ℕ
  one k c = if has k c.subscribed then 1 else 0

  -- How many clients have the symbol.
  unfoldable pub holders : String → List (MexcClient D) → ℕ
  holders k [] = 0
  holders k (c ∷ cs) = holders k cs + one k c

  abbrev pub Fits : List (MexcClient D) → Type 0
  Fits cs = All (λ c. subscribed_count c ≤ limit) cs

  pub holders-append :
      (k : String) (cs : List (MexcClient D)) (c : MexcClient D)
      → holders k (cs ++ c ∷ []) ≡ holders k cs + one k c
  unfolding holders
  holders-append k [] c = omega arith
  holders-append k (x ∷ cs) c = omega (arith, holders-append k cs c)

  pub holders-set_at :
      (k : String) (i : ℕ) (c t : MexcClient D) (cs : List (MexcClient D))
      → get_at i cs ≡ some c
      → holders k (set_at i t cs) + one k c ≡ holders k cs + one k t
  unfolding holders set_at get_at
  holders-set_at k i c t [] e = absurd (ground (arith, e))
  holders-set_at k zero c t (x ∷ cs) e =
      let same = ap (one k) (some-injective x c e) in omega (arith, same)
  holders-set_at k (suc i) c t (x ∷ cs) e = omega (arith, holders-set_at k i c t cs e)

  pub Fits-set_at :
      (i : ℕ) (t : MexcClient D) (cs : List (MexcClient D))
      → Fits cs
      → subscribed_count t ≤ limit
      → Fits (set_at i t cs)
  unfolding set_at
  Fits-set_at i t [] h p = tt
  Fits-set_at zero t (x ∷ cs) h p = (p, h.1)
  Fits-set_at (suc i) t (x ∷ cs) h p = (h.0, Fits-set_at i t cs h.1 p)

  pub Fits-get_at :
      (i : ℕ) (c : MexcClient D) (cs : List (MexcClient D))
      → Fits cs
      → get_at i cs ≡ some c
      → subscribed_count c ≤ limit
  unfolding get_at
  Fits-get_at i c [] h e = absurd (ground (arith, e))
  Fits-get_at zero c (x ∷ cs) h e =
      subst (λ y. subscribed_count y ≤ limit) (some-injective x c e) h.0
  Fits-get_at (suc i) c (x ∷ cs) h e = Fits-get_at i c cs h.1 e

  pub Fits-remove_at :
      (k : String) (i : ℕ) (cs : List (MexcClient D))
      → Fits cs
      → Fits (remove_at i cs) × (holders k (remove_at i cs) ≤ holders k cs)
  unfolding remove_at holders
  Fits-remove_at k i [] h = (tt, omega arith)
  Fits-remove_at k zero (x ∷ cs) h = (h.1, omega arith)
  Fits-remove_at k (suc i) (x ∷ cs) h =
      let r = Fits-remove_at k i cs h.1 in ((h.0, r.0), omega (arith, r.1))

  position-some :
      (p : MexcClient D → Bool) (i : ℕ) (cs : List (MexcClient D))
      → position p cs ≡ some i
      → (c : MexcClient D) × (get_at i cs ≡ some c) × (p c ≡ true)
  unfolding position get_at
  position-some p i [] e = absurd (ground (arith, e))
  position-some p i (x ∷ cs) e = elim (Bool-cases (p x)) [
    | inl h ↦
        let first = some-injective 0 i (sym (if_true (p x) _ _ h) ∙ e) in
        (x, subst (λ j. get_at j (x ∷ cs) ≡ some x) first refl, h)
    | inr h ↦ elim (Option-cases (position p cs)) [
      | inl k ↦ absurd (ground (arith, h, k, e))
      | inr (j, k) ↦
          let (c, f, g) = position-some p j cs k in
          let later =
            some-injective (suc j) i (sym (if_false (p x) _ _ h ∙ elim_some _ _ _ j k) ∙ e) in
          (c, subst (λ n. get_at n (x ∷ cs) ≡ some c) later f, g)
    ]
  ]

  pub position-test :
      (p : MexcClient D → Bool) (i : ℕ) (c : MexcClient D) (cs : List (MexcClient D))
      → position p cs ≡ some i
      → get_at i cs ≡ some c
      → p c ≡ true
  position-test p i c cs e f =
      let (x, g, t) = position-some p i cs e in
      subst (λ y. p y ≡ true) (some-injective x c (sym g ∙ f)) t

  pub position-none :
      (k : String) (cs : List (MexcClient D)) → position (has_symbol k) cs ≡ none → holders k cs ≡ 0
  unfolding position holders has_symbol one
  position-none k [] e = refl
  position-none k (x ∷ cs) e = ground (arith, e, position-none k cs)

  -- The messages and failures that a client's socket brings.
  pub data Heard (c : MexcClient D) : MexcClient D → Type 0 where
    handles :
        (w : Option (PushData D)) (ok : Bool) (t : MexcClient D)
        → handle_binary w c ≡ returns ok t
        → Heard c t
    fails : Heard c (on_fail c)

  pub Heard-Gains : {c t : MexcClient D} → Heard c t → Gains none c.subscribed t.subscribed
  unfolding on_fail
  Heard-Gains {c} (handles w ok t e) = subst (Gained c) e (handle_binary-Gained w c)
  Heard-Gains {c} fails = Gains-empty c.subscribed

  pub one-Gains :
      (k : String) (c t : MexcClient D) → Gains none c.subscribed t.subscribed → one k t ≤ one k c
  unfolding Gains one
  one-Gains k c t g = ground (arith, g.0 k)

  pub count-Gains :
      (c t : MexcClient D)
      → Gains none c.subscribed t.subscribed
      → subscribed_count c ≤ limit
      → subscribed_count t ≤ limit
  unfolding Gains subscribed_count
  count-Gains c t g h = omega (arith, g.1, h)

  -- The client that a running `watch_orderbook` made.
  unfoldable pub opened : String → Option (MexcClient D) → ℕ
  opened k none = 0
  opened k (some c) = one k c

  abbrev pub OpenedFits : Option (MexcClient D) → Type 0
  OpenedFits none = Unit
  OpenedFits (some c) = subscribed_count c ≤ limit

  -- No client, pushed or not, has more than 35 symbols, and no symbol has two clients.
  pub record IsRoomy (p : MexcPool D) : Type 0 where
    pub fit : Fits p.sub_clients
    pub opened_fits : OpenedFits p.opening
    pub single : (k : String) → holders k p.sub_clients + opened k p.opening ≤ 1

  module _ (to_uppercase : String → String) where
    -- What can happen to the exchange: one method at a time, and the sockets' tasks.
    pub data Step (p : MexcPool D) : MexcPool D → Type 0 where
      watches :
          (symbol : String) (tx : ℕ) (connects sends : Bool) (q : MexcPool D) (waits : Bool)
          → p.opening ≡ none
          → watch_orderbook to_uppercase symbol tx connects sends p ≡ some (q, waits)
          → Step p q
      ends : (answered : Bool) → Step p (watch_end to_uppercase answered p)
      unwatches :
          (symbol : String) (sends : Bool)
          → p.opening ≡ none
          → Step p (unwatch_orderbook to_uppercase symbol sends p)
      hears :
          (i : ℕ) (c t : MexcClient D)
          → get_at i p.sub_clients ≡ some c
          → Heard c t
          → Step p (record p { sub_clients = set_at i t p.sub_clients })
      opening_hears :
          (c t : MexcClient D)
          → p.opening ≡ some c
          → Heard c t
          → Step p (record p { opening = some t })

    pub data Reach (p : MexcPool D) : MexcPool D → Type 0 where
      here : Reach p p
      next : {q r : MexcPool D} → Reach p q → Step q r → Reach p r
