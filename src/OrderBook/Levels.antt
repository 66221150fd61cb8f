-- ===== src/OrderBook/Levels.antt =====
-- What one side of an update does to the price levels (src/base/exchange/order.rs).
use arbexpert_backend.Base.{
  ◌≡◌, refl, false, Option, none, some, List, [], ◌∷◌, arith, All, if◌then◌else◌, fun_ext,
  Bool-cases, inl, inr,
}
use arbexpert_backend.Std.BTreeMap.{
  BTreeMap, Ord, get, at_key, IsSorted, get-insert, get-remove, insert-IsSorted, remove-IsSorted,
  insert-All, remove-All,
}
use arbexpert_backend.Decimal.{Decimal, eq}
use arbexpert_backend.OrderBook.{Failure, apply_level, apply_levels}

-- What a book shows for a quantity that was written: nothing for zero.
abbrev pub shown : {D : Type 0} ⦃d : Decimal D⦄ → D → Option D
shown ⦃d⦄ q = if eq q d.nil then none else some q

module _ {D K : Type 0} ⦃d : Decimal D⦄ ⦃o : Ord K⦄ (key : D → K) where
  -- The quantity of the last entry for the price, read off the update alone.
  abbrev pub last_write : K → List (D × D) → Option D
  last_write k [] = none
  last_write k ((p, q) ∷ rest) = elim (last_write k rest) [
    | some r ↦ some r
    | none ↦ at_key (o.cmp k (key p)) (some q) none
  ]

  module _ (failed : D → Failure D) where
    pub level-IsSorted :
        (p q : D) (m : BTreeMap K D) → IsSorted m → IsSorted (apply_level key failed p q m).0
    unfolding apply_level
    level-IsSorted p q m s = ground (arith, insert-IsSorted (key p) q m, remove-IsSorted (key p) m)

    pub levels-IsSorted :
        (es : List (D × D)) (m : BTreeMap K D)
        → IsSorted m
        → IsSorted (apply_levels key failed es m).0
    unfolding apply_levels
    levels-IsSorted [] m s = s
    levels-IsSorted ((p, q) ∷ es) m s =
        levels-IsSorted es (apply_level key failed p q m).0 (level-IsSorted p q m s)

    pub level_lookup :
        (k : K) (p q : D) (m : BTreeMap K D)
        → IsSorted m
        → get k (apply_level key failed p q m).0 ≡ at_key (o.cmp k (key p)) (shown q) (get k m)
    unfolding apply_level
    level_lookup k p q m s = ground (arith, get-insert k (key p) q m, get-remove k (key p) m)

    pub levels_lookup :
        (k : K) (es : List (D × D)) (m : BTreeMap K D)
        → IsSorted m
        → get k (apply_levels key failed es m).0
          ≡ elim (last_write k es) [ none ↦ get k m | some q ↦ shown q ]
    unfolding apply_levels
    levels_lookup k [] m s = refl
    levels_lookup k ((p, q) ∷ es) m s =
        let m' = (apply_level key failed p q m).0 in
        ground (arith, level_lookup k p q m s, levels_lookup k es m' (level-IsSorted p q m s))

    -- The messages, computed from what the side showed before: one for each removal of a price
    -- that no level stands at when its turn comes.
    abbrev pub expected_failures : (K → Option D) → List (D × D) → List (Failure D)
    expected_failures view [] = []
    expected_failures view ((p, q) ∷ es) =
        let later = expected_failures (λ k. at_key (o.cmp k (key p)) (shown q) (view k)) es in
        if eq q d.nil
        then elim (view (key p)) [ none ↦ failed p ∷ later | some r ↦ later ]
        else later

    pub levels_failures :
        (es : List (D × D)) (m : BTreeMap K D)
        → IsSorted m
        → (apply_levels key failed es m).1 ≡ expected_failures (λ k. get k m) es
    unfolding apply_levels
    levels_failures [] m s = refl
    levels_failures ((p, q) ∷ es) m s =
        let m' = (apply_level key failed p q m).0 in
        let same = fun_ext (λ k. level_lookup k p q m s) in
        let ih = levels_failures es m' (level-IsSorted p q m s) in
        rw (ih, same) (unfold apply_level in ground arith)

    level-nonzero :
        (p q : D) (m : BTreeMap K D)
        → All (λ e. eq e.1 d.nil ≡ false) m
        → All (λ e. eq e.1 d.nil ≡ false) (apply_level key failed p q m).0
    unfolding apply_level
    level-nonzero p q m h = elim (Bool-cases (eq q d.nil)) [
      | inl e ↦ rw e (remove-All (λ r. eq r d.nil ≡ false) (key p) m h)
      | inr e ↦ rw e (insert-All (λ r. eq r d.nil ≡ false) (key p) q m e h)
    ]

    pub levels-nonzero :
        (es : List (D × D)) (m : BTreeMap K D)
        → All (λ e. eq e.1 d.nil ≡ false) m
        → All (λ e. eq e.1 d.nil ≡ false) (apply_levels key failed es m).0
    unfolding apply_levels
    levels-nonzero [] m h = h
    levels-nonzero ((p, q) ∷ es) m h =
        levels-nonzero es (apply_level key failed p q m).0 (level-nonzero p q m h)
