-- ===== src/Std/BTreeMap.antt =====
-- `std::collections::BTreeMap` as the list of its entries in ascending order of the keys, and
-- `std::cmp::Ord`, `std::cmp::Reverse` that it is ordered by.
use arbexpert_backend.Base.{
  ◌≡◌, ◌⊎◌, refl, sym, ap, Option, none, some, List, [], ◌∷◌, arith, Ordering, All, All-mono,
}

-- A total order. Keys that compare equal are one key.
pub record Ord {ℓ} (K : Type ℓ) : Type ℓ where
  pub cmp : K → K → Ordering
  pub cmp_refl : (a : K) → cmp a a ≡ Ordering.eq
  pub cmp_eq : (a b : K) → cmp a b ≡ Ordering.eq → a ≡ b
  pub cmp_flip : (a b : K) → cmp a b ≡ Ordering.gt → cmp b a ≡ Ordering.lt
  pub cmp_trans :
      (a b c : K) → cmp a b ≡ Ordering.lt → cmp b c ≡ Ordering.lt → cmp a c ≡ Ordering.lt

-- `Reverse(k)`: the same keys in the opposite order.
pub data Reverse {ℓ} (K : Type ℓ) : Type ℓ where
  reverse : K → Reverse K

abbrev pub unreverse {ℓ} : {K : Type ℓ} → Reverse K → K
unreverse (reverse k) = k

pub reverse-cmp_eq {ℓ} :
    {K : Type ℓ} ⦃o : Ord K⦄ (a b : Reverse K)
    → o.cmp (unreverse b) (unreverse a) ≡ Ordering.eq
    → a ≡ b
reverse-cmp_eq ⦃o⦄ (reverse a) (reverse b) h = ap reverse (sym (o.cmp_eq b a h))

instance abbrev pub reverse_ord {ℓ} : {K : Type ℓ} ⦃o : Ord K⦄ → Ord (Reverse K)
reverse_ord ⦃o⦄ = record {
  cmp = λ a b. o.cmp (unreverse b) (unreverse a);
  cmp_refl = λ a. o.cmp_refl (unreverse a);
  cmp_eq = reverse-cmp_eq;
  cmp_flip = λ a b h. o.cmp_flip (unreverse b) (unreverse a) h;
  cmp_trans = λ a b c h k. o.cmp_trans (unreverse c) (unreverse b) (unreverse a) k h;
}

-- `a` where the keys compare equal, and otherwise `b`.
abbrev pub at_key {ℓ} : {A : Type ℓ} → Ordering → A → A → A
at_key Ordering.eq a b = a
at_key _ a b = b

abbrev pub BTreeMap {ℓ κ} : Type ℓ → Type κ → Type (ℓ ⊔ κ)
BTreeMap K V = List (K × V)

module _ {ℓ κ} {K : Type ℓ} {V : Type κ} ⦃o : Ord K⦄ where
  unfoldable pub get : K → BTreeMap K V → Option V
  get k [] = none
  get k ((j, w) ∷ m) = elim (o.cmp k j) [ Ordering.eq ↦ some w | _ ↦ get k m ]

  -- An equal key keeps its place and has its value replaced.
  unfoldable pub insert : K → V → BTreeMap K V → BTreeMap K V
  insert k v [] = (k, v) ∷ []
  insert k v ((j, w) ∷ m) = elim (o.cmp k j) [
    | Ordering.lt ↦ (k, v) ∷ (j, w) ∷ m
    | Ordering.eq ↦ (j, v) ∷ m
    | Ordering.gt ↦ (j, w) ∷ insert k v m
  ]

  unfoldable pub remove : K → BTreeMap K V → BTreeMap K V
  remove k [] = []
  remove k ((j, w) ∷ m) = elim (o.cmp k j) [ Ordering.eq ↦ m | _ ↦ (j, w) ∷ remove k m ]

  -- All keys of `m` lie above `k`.
  abbrev pub Above : K → BTreeMap K V → Type 0
  Above k m = All (λ e. o.cmp k e.0 ≡ Ordering.lt) m

  abbrev pub IsSorted : BTreeMap K V → Type 0
  IsSorted [] = Unit {0}
  IsSorted ((j, w) ∷ m) = Above j m × IsSorted m

  pub get-insert :
      (j k : K) (v : V) (m : BTreeMap K V)
      → get j (insert k v m) ≡ at_key (o.cmp j k) (some v) (get j m)
  unfolding get insert
  get-insert j k v [] = ground arith
  get-insert j k v ((i, w) ∷ m) = ground (
    arith,
    get-insert j k v m,
    o.cmp_eq k i,
    o.cmp_eq j i,
    o.cmp_eq j k,
    o.cmp_refl k,
    o.cmp_refl i,
    o.cmp_refl j,
  )

  pub Above-get : (k : K) (m : BTreeMap K V) → Above k m → get k m ≡ none
  unfolding get
  Above-get k [] h = refl
  Above-get k ((i, w) ∷ m) h = ground (arith, Above-get k m h.1)

  Above-trans : (j k : K) (m : BTreeMap K V) → o.cmp j k ≡ Ordering.lt → Above k m → Above j m
  Above-trans j k m h = All-mono _ _ (λ e. o.cmp_trans j k e.0 h) m

  pub get-remove :
      (j k : K) (m : BTreeMap K V)
      → IsSorted m
      → get j (remove k m) ≡ at_key (o.cmp j k) none (get j m)
  unfolding get remove
  get-remove j k [] h = ground arith
  get-remove j k ((i, w) ∷ m) h = ground (
    arith,
    get-remove j k m h.1,
    Above-get i m h.0,
    o.cmp_eq k i,
    o.cmp_eq j i,
    o.cmp_eq j k,
    o.cmp_refl k,
    o.cmp_refl i,
    o.cmp_refl j,
  )

  insert-Above :
      (j k : K) (v : V) (m : BTreeMap K V)
      → o.cmp j k ≡ Ordering.lt
      → Above j m
      → Above j (insert k v m)
  unfolding insert
  insert-Above j k v [] h a = (h, tt)
  insert-Above j k v ((i, w) ∷ m) h a = ground (arith, insert-Above j k v m h a.1)

  remove-Above : (j k : K) (m : BTreeMap K V) → Above j m → Above j (remove k m)
  unfolding remove
  remove-Above j k [] a = tt
  remove-Above j k ((i, w) ∷ m) a = ground (arith, remove-Above j k m a.1)

  pub insert-IsSorted : (k : K) (v : V) (m : BTreeMap K V) → IsSorted m → IsSorted (insert k v m)
  unfolding insert
  insert-IsSorted k v [] s = (tt, tt)
  insert-IsSorted k v ((i, w) ∷ m) s =
      ground
        (arith, insert-IsSorted k v m s.1, o.cmp_flip k i, insert-Above i k v m, Above-trans k i m)

  pub remove-IsSorted : (k : K) (m : BTreeMap K V) → IsSorted m → IsSorted (remove k m)
  unfolding remove
  remove-IsSorted k [] s = tt
  remove-IsSorted k ((i, w) ∷ m) s = ground (arith, remove-IsSorted k m s.1, remove-Above i k m s.0)

  pub get-Above :
      (i j : K) (v : V) (m : BTreeMap K V) → Above i m → get j m ≡ some v → o.cmp i j ≡ Ordering.lt
  unfolding get
  get-Above i j v [] a h = cc
  get-Above i j v ((k, w) ∷ m) a h = ground (arith, get-Above i j v m a.1, o.cmp_eq j k, a.0)

  -- The first entry is below every other key that is found.
  pub first_below :
      (i j : K) (w v : V) (m : BTreeMap K V)
      → IsSorted ((i, w) ∷ m)
      → get j ((i, w) ∷ m) ≡ some v
      → (o.cmp i j ≡ Ordering.lt) ⊎ (i ≡ j)
  unfolding get
  first_below i j w v m s h = ground (arith, get-Above i j v m s.0, o.cmp_eq j i)

  -- A property of the values passes from an entry and a map to the map with the entry.
  pub insert-All {μ} :
      (P : V → Type μ) (k : K) (v : V) (m : BTreeMap K V)
      → P v
      → All (λ e. P e.1) m
      → All (λ e. P e.1) (insert k v m)
  unfolding insert
  insert-All P k v [] p h = (p, tt)
  insert-All P k v ((i, w) ∷ m) p h =
      elim (o.cmp k i)
        as (λ c.
          All (λ e. P e.1)
            (elim c [
              | Ordering.lt ↦ (k, v) ∷ (i, w) ∷ m
              | Ordering.eq ↦ (i, v) ∷ m
              | Ordering.gt ↦ (i, w) ∷ insert k v m
            ])) [
              | Ordering.lt ↦ (p, h)
              | Ordering.eq ↦ (p, h.1)
              | Ordering.gt ↦ (h.0, insert-All P k v m p h.1)
            ]

  pub remove-All {μ} :
      (P : V → Type μ) (k : K) (m : BTreeMap K V)
      → All (λ e. P e.1) m
      → All (λ e. P e.1) (remove k m)
  unfolding remove
  remove-All P k [] h = tt
  remove-All P k ((i, w) ∷ m) h =
      elim (o.cmp k i)
        as (λ c. All (λ e. P e.1) (elim c [ Ordering.eq ↦ m | _ ↦ (i, w) ∷ remove k m ])) [
          | Ordering.eq ↦ h.1
          | _ ↦ (h.0, remove-All P k m h.1)
        ]

  -- What holds of all values holds of the one under a key, or of another where there is none.
  pub get-All {μ ν} :
      {A : Type ν} (P : V → Type μ) (Q : A → Type μ) (f : Option V → A) (k : K) (m : BTreeMap K V)
      → Q (f none)
      → ((v : V) → P v → Q (f (some v)))
      → All (λ e. P e.1) m
      → Q (f (get k m))
  unfolding get
  get-All P Q f k [] q g h = q
  get-All P Q f k ((j, w) ∷ m) q g h =
      elim (o.cmp k j) as (λ c. Q (f (elim c [ Ordering.eq ↦ some w | _ ↦ get k m ]))) [
        | Ordering.eq ↦ g w h.0
        | _ ↦ get-All P Q f k m q g h.1
      ]
