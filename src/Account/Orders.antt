-- ===== src/Account/Orders.antt =====
-- `insert_order` of src/base/exchange/account.rs: which orders are kept, and which are applied.
use arbexpert_backend.Base.{
  ℕ, String, ◌-◌, ◌≤◌, ◌≡◌, refl, true, false, ◌||◌, List, [], ◌∷◌, ◌++◌, ltb, str_eq, eq_iff,
  arith, All, All-append, All-mono, if_elim, Bool-cases, inl, inr,
}
use arbexpert_backend.Decimal.{Decimal}
use arbexpert_backend.Account.{
  Order, TimedOrder, SharedState, max_age, order_exists, clean_up, insert_order,
}

module _ {D : Type 0} where
  -- The times of the orders do not fall, and none is later than the given one.
  unfoldable pub InOrder : ℕ → List (TimedOrder D) → Type 0
  InOrder now [] = Unit
  InOrder now (o ∷ os) =
      (o.inserted_at ≤ now) × (All (λ p. o.inserted_at ≤ p.inserted_at) os × InOrder now os)

  -- No two orders have one id.
  unfoldable pub Distinct : List (TimedOrder D) → Type 0
  Distinct [] = Unit
  Distinct (o ∷ os) = (order_exists os o.order.id ≡ false) × Distinct os

  abbrev pub IsFresh : ℕ → TimedOrder D → Type 0
  IsFresh now o = now - o.inserted_at ≤ max_age

  exists-append :
      (xs : List (TimedOrder D)) (o : TimedOrder D) (ys : List (TimedOrder D))
      → order_exists (xs ++ o ∷ ys) o.order.id ≡ true
  unfolding order_exists
  exists-append [] o ys = ground (arith, eq_iff o.order.id o.order.id)
  exists-append (x ∷ xs) o ys = ground (arith, exists-append xs o ys)

  -- A fresh order stays: the loop stops before it, or at it.
  fresh_exists :
      (now : ℕ) (xs : List (TimedOrder D)) (o : TimedOrder D) (ys : List (TimedOrder D))
      → IsFresh now o
      → order_exists (clean_up now (xs ++ o ∷ ys)) o.order.id ≡ true
  unfolding order_exists clean_up
  fresh_exists now [] o ys h = ground (arith, eq_iff o.order.id o.order.id)
  fresh_exists now (x ∷ xs) o ys h =
      ground (arith, fresh_exists now xs o ys h, exists-append xs o ys)

  clean_up-All :
      (P : TimedOrder D → Type 0) (now : ℕ) (os : List (TimedOrder D))
      → All P os
      → All P (clean_up now os)
  unfolding clean_up
  clean_up-All P now [] h = tt
  clean_up-All P now (o ∷ os) h =
      if_elim (All P) (ltb max_age (now - o.inserted_at)) _ _ (clean_up-All P now os h.1) h

  clean_up-InOrder :
      (now : ℕ) (os : List (TimedOrder D)) → InOrder now os → InOrder now (clean_up now os)
  unfolding clean_up InOrder
  clean_up-InOrder now [] h = tt
  clean_up-InOrder now (o ∷ os) h =
      if_elim (InOrder now) (ltb max_age (now - o.inserted_at)) _ _ (clean_up-InOrder now os h.1.1)
        h

  clean_up-Distinct :
      (now : ℕ) (os : List (TimedOrder D)) → Distinct os → Distinct (clean_up now os)
  unfolding clean_up Distinct
  clean_up-Distinct now [] h = tt
  clean_up-Distinct now (o ∷ os) h =
      if_elim Distinct (ltb max_age (now - o.inserted_at)) _ _ (clean_up-Distinct now os h.1) h

  IsFresh-later :
      (now : ℕ) (o p : TimedOrder D)
      → o.inserted_at ≤ p.inserted_at
      → ltb max_age (now - o.inserted_at) ≡ false
      → IsFresh now p
  IsFresh-later now o p h e = ground arith

  -- Where the times do not fall, whatever the loop leaves is fresh.
  clean_up-IsFresh :
      (now : ℕ) (os : List (TimedOrder D)) → InOrder now os → All (IsFresh now) (clean_up now os)
  unfolding clean_up InOrder
  clean_up-IsFresh now [] h = tt
  clean_up-IsFresh now (o ∷ os) h = elim (Bool-cases (ltb max_age (now - o.inserted_at))) [
    | inl e ↦ rw e (clean_up-IsFresh now os h.1.1)
    | inr e ↦
        rw e
          (ground (arith, e), All-mono _ (IsFresh now) (λ p k. IsFresh-later now o p k e) os h.1.0)
  ]

  InOrder-later :
      (earlier now : ℕ) (os : List (TimedOrder D))
      → earlier ≤ now
      → InOrder earlier os
      → InOrder now os
  unfolding InOrder
  InOrder-later earlier now [] h k = tt
  InOrder-later earlier now (o ∷ os) h k =
      (omega (arith, h, k.0), (k.1.0, InOrder-later earlier now os h k.1.1))

  append-InOrder :
      (now : ℕ) (os : List (TimedOrder D)) (o : Order D)
      → InOrder now os
      → InOrder now (os ++ record { order = o; inserted_at = now } ∷ [])
  unfolding InOrder
  append-InOrder now [] o k = (omega arith, (tt, tt))
  append-InOrder now (p ∷ os) o k =
      (k.0, (All-append _ os _ k.1.0 (k.0, tt), append-InOrder now os o k.1.1))

  order_exists-append :
      (os : List (TimedOrder D)) (o : TimedOrder D) (id : String)
      → order_exists (os ++ o ∷ []) id ≡ (order_exists os id || str_eq o.order.id id)
  unfolding order_exists
  order_exists-append [] o id = ground arith
  order_exists-append (p ∷ os) o id = ground (arith, order_exists-append os o id)

  append-Distinct :
      (os : List (TimedOrder D)) (o : TimedOrder D)
      → order_exists os o.order.id ≡ false
      → Distinct os
      → Distinct (os ++ o ∷ [])
  unfolding Distinct order_exists
  append-Distinct [] o h k = (refl, tt)
  append-Distinct (p ∷ os) o h k = (
    ground (
      arith,
      order_exists-append os o p.order.id,
      eq_iff o.order.id p.order.id,
      eq_iff p.order.id o.order.id,
      k.0,
    ),
    append-Distinct os o (ground (arith, h)) k.1,
  )

  -- What the orders of an account satisfy after a call at the given time.
  pub record IsHistory (now : ℕ) (os : List (TimedOrder D)) : Type 0 where
    pub in_order : InOrder now os
    pub distinct : Distinct os
    pub fresh : All (IsFresh now) os

module _ {D : Type 0} ⦃d : Decimal D⦄ (to_lowercase : String → String) where
  -- An order with the id of one that is kept, which was kept no more than 30 seconds ago, changes
  -- no balance, and the kept orders are only cleaned up.
  pub insert_order_again :
      (now : ℕ) (xs : List (TimedOrder D)) (o : TimedOrder D) (ys : List (TimedOrder D))
      (s : SharedState D) (again : Order D)
      → s.orders ≡ xs ++ o ∷ ys
      → again.id ≡ o.order.id
      → IsFresh now o
      → insert_order to_lowercase now again s ≡ record s { orders = clean_up now s.orders }
  unfolding insert_order
  insert_order_again now xs o ys s again e i h = ground (arith, e, i, fresh_exists now xs o ys h)

  -- Where the clock does not go back, `insert_order` keeps the orders in the order of their times,
  -- each id once, and none older than 30 seconds.
  pub insert_order-IsHistory :
      (earlier now : ℕ) (o : Order D) (s : SharedState D)
      → earlier ≤ now
      → IsHistory earlier s.orders
      → IsHistory now (insert_order to_lowercase now o s).orders
  unfolding insert_order
  insert_order-IsHistory earlier now o s h k =
      let os = clean_up now s.orders in
      let later = InOrder-later earlier now s.orders h k.in_order in
      let in_order = clean_up-InOrder now s.orders later in
      let distinct = clean_up-Distinct now s.orders k.distinct in
      let fresh = clean_up-IsFresh now s.orders later in
      elim (Bool-cases (order_exists os o.id)) [
        | inl e ↦ rw e (record { in_order = in_order; distinct = distinct; fresh = fresh })
        | inr e ↦ rw e (record {
          in_order = append-InOrder now os o in_order;
          distinct = append-Distinct os (record { order = o; inserted_at = now }) e distinct;
          fresh = All-append (IsFresh now) os _ fresh (omega arith, tt);
        })
      ]
