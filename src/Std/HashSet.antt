-- ===== src/Std/HashSet.antt =====
-- `std::collections::HashSet` (`ntex::util::HashSet` is the same with another hasher), with keys
-- that are compared by their order.
use arbexpert_backend.Base.{
  ◌≡◌, refl, Bool, true, false, ◌||◌, not, ◌&&◌, List, [], ◌∷◌, Ordering, arith, if◌then◌else◌,
}
use arbexpert_backend.Std.BTreeMap.{Ord}

module _ {ℓ} {K : Type ℓ} ⦃o : Ord K⦄ where
  abbrev pub same : K → K → Bool
  same a b = elim (o.cmp a b) [ Ordering.eq ↦ true | _ ↦ false ]

  unfoldable pub contains : K → List K → Bool
  contains k [] = false
  contains k (j ∷ s) = same k j || contains k s

  unfoldable pub insert : K → List K → List K
  insert k s = if contains k s then s else k ∷ s

  unfoldable pub remove : K → List K → List K
  remove k [] = []
  remove k (j ∷ s) = let rest = remove k s in if same k j then rest else j ∷ rest

  contains-cons : (j k : K) (s : List K) → contains j (k ∷ s) ≡ (same j k || contains j s)
  unfolding contains
  contains-cons j k s = refl

  pub contains-insert :
      (j k : K) (s : List K) → contains j (insert k s) ≡ (same j k || contains j s)
  unfolding insert
  contains-insert j k s = ground (arith, o.cmp_eq j k, contains-cons j k s)

  pub contains-remove :
      (j k : K) (s : List K) → contains j (remove k s) ≡ (not (same j k) && contains j s)
  unfolding contains remove
  contains-remove j k [] = ground arith
  contains-remove j k (i ∷ s) = ground (
    arith,
    contains-remove j k s,
    o.cmp_eq j i,
    o.cmp_eq k i,
    o.cmp_eq j k,
    o.cmp_refl i,
    o.cmp_refl j,
    o.cmp_refl k,
  )
