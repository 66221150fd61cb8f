-- ===== src/Std/HashMap.antt =====
-- `std::collections::HashMap` with keys that are texts. Its order is not observed by the model.
use arbexpert_backend.Base.{
  String, ◌≡◌, refl, Option, none, some, List, [], ◌∷◌, arith, str_eq, eq_iff, if◌then◌else◌,
  is_some, All, if_elim,
}

abbrev pub HashMap {ℓ} : Type ℓ → Type ℓ
HashMap V = List (String × V)

module _ {ℓ} {V : Type ℓ} where
  unfoldable pub get : String → HashMap V → Option V
  get k [] = none
  get k ((j, v) ∷ m) = if str_eq j k then some v else get k m

  unfoldable pub insert : String → V → HashMap V → HashMap V
  insert k v [] = (k, v) ∷ []
  insert k v ((j, w) ∷ m) = if str_eq j k then (j, v) ∷ m else (j, w) ∷ insert k v m

  unfoldable pub remove : String → HashMap V → HashMap V
  remove k [] = []
  remove k ((j, w) ∷ m) = let rest = remove k m in if str_eq j k then rest else (j, w) ∷ rest

  -- `entry(k).or_insert(v)`, for its effect on the map.
  unfoldable pub or_insert : String → V → HashMap V → HashMap V
  or_insert k v m = elim (get k m) [ none ↦ insert k v m | some w ↦ m ]

  pub get-insert :
      (j k : String) (v : V) (m : HashMap V)
      → get j (insert k v m) ≡ (if str_eq k j then some v else get j m)
  unfolding get insert
  get-insert j k v [] = refl
  get-insert j k v ((i, w) ∷ m) =
      ground (arith, get-insert j k v m, eq_iff i k, eq_iff i j, eq_iff k j)

  pub get-remove :
      (j k : String) (m : HashMap V) → get j (remove k m) ≡ (if str_eq k j then none else get j m)
  unfolding get remove
  get-remove j k [] = ground arith
  get-remove j k ((i, w) ∷ m) = ground (arith, get-remove j k m, eq_iff i k, eq_iff i j, eq_iff k j)

  pub get-or_insert :
      (j k : String) (v : V) (m : HashMap V)
      → get j (or_insert k v m)
        ≡ (if is_some (get j m) then get j m else if str_eq k j then some v else none)
  unfolding or_insert
  get-or_insert j k v m = ground (arith, get-insert j k v m, eq_iff k j)

  pub insert-All {κ} :
      (P : V → Type κ) (k : String) (v : V) (m : HashMap V)
      → P v
      → All (λ e. P e.1) m
      → All (λ e. P e.1) (insert k v m)
  unfolding insert
  insert-All P k v [] p h = (p, tt)
  insert-All P k v ((j, w) ∷ m) p h =
      if_elim (All λ e. P e.1) (str_eq j k) _ _ (p, h.1) (h.0, insert-All P k v m p h.1)

  -- What holds of all values holds of the one under a key, or of another where there is none.
  pub get-All {κ μ} :
      {A : Type κ} (P : V → Type μ) (Q : A → Type μ) (f : Option V → A) (k : String) (m : HashMap V)
      → Q (f none)
      → ((v : V) → P v → Q (f (some v)))
      → All (λ e. P e.1) m
      → Q (f (get k m))
  unfolding get
  get-All P Q f k [] q g h = q
  get-All P Q f k ((j, w) ∷ m) q g h =
      if_elim (λ o. Q (f o)) (str_eq j k) _ _ (g w h.0) (get-All P Q f k m q g h.1)
