-- ===== src/Arbitrage/Naive.antt =====
-- `find_max_price` (src/arbitrage/common.rs) against a search without its second pointer.
use mathlib.Core.List.{reverse}
use arbexpert_backend.Base.{
  ◌≡◌, refl, sym, ap, ◌∙◌, true, Option, none, some, List, [], ◌∷◌, if◌then◌else◌, Bool-cases, inl,
  inr,
}
use arbexpert_backend.Arbitrage.{
  Float, MaxPrice, required, excess, skip_below, search_max, find_max_price,
}

-- Two case splits on one list agree if their cases do.
List_agree :
    {A B : Type 0} (o : List A) (x y : B) (f g : A → List A → B)
    → (o ≡ [] → x ≡ y)
    → ((a : A) (rest : List A) → o ≡ a ∷ rest → f a rest ≡ g a rest)
    → (elim o [ [] ↦ x | a ∷ rest ↦ f a rest ]) ≡ (elim o [ [] ↦ y | a ∷ rest ↦ g a rest ])
List_agree [] x y f g h k = h refl
List_agree (a ∷ rest) x y f g h k = k a rest refl

module _ {F D : Type 0} (fl : Float F D) (percentage : F) where
  -- The search that goes back to the end of the decreasing side for each level of the other.
  pub search_naive : List (F × F) → List (F × F) → Option (MaxPrice F) → F → Option (MaxPrice F)
  search_naive [] all best min_excess = best
  search_naive ((inc, q) ∷ more) all best min_excess =
      elim (skip_below fl (required fl percentage inc) all) [
        | [] ↦ search_naive more all best min_excess
        | (dec, v) ∷ rest ↦
            let e = excess fl percentage inc dec in
            let better = fl.lt_f e min_excess in
            search_naive more all
              (if better then some (record { spot = inc; future = dec }) else best)
              (if better then e else min_excess)
      ]

  -- What is below the price that a level requires is below what the next one requires.
  abbrev pub Rises : List (F × F) → Type 0
  Rises [] = Unit
  Rises (a ∷ []) = Unit
  Rises (a ∷ b ∷ more) =
      ((x : F)
        → fl.lt_f x (required fl percentage a.0) ≡ true
        → fl.lt_f x (required fl percentage b.0) ≡ true)
      × Rises (b ∷ more)

  skip_again :
      (r s : F) (left : List (F × F))
      → ((x : F) → fl.lt_f x r ≡ true → fl.lt_f x s ≡ true)
      → skip_below fl s (skip_below fl r left) ≡ skip_below fl s left
  unfolding skip_below
  skip_again r s [] h = refl
  skip_again r s ((p, q) ∷ left) h = elim (Bool-cases (fl.lt_f p r)) [
    | inl e ↦ rw (e, h p e) (skip_again r s left h)
    | inr e ↦ rw e
  ]

  -- Seen from the first level, the levels that are left are as good as all.
  abbrev Agree : List (F × F) → List (F × F) → List (F × F) → Type 0
  Agree [] left all = Unit
  Agree (a ∷ more) left all =
      skip_below fl (required fl percentage a.0) left
      ≡ skip_below fl (required fl percentage a.0) all

  Agree-next :
      (a : F × F) (more rest all : List (F × F))
      → Rises (a ∷ more)
      → skip_below fl (required fl percentage a.0) all ≡ rest
      → Agree more rest all
  Agree-next a [] rest all h e = tt
  Agree-next a (b ∷ more) rest all h e =
      ap (skip_below fl (required fl percentage b.0)) (sym e)
      ∙ skip_again (required fl percentage a.0) (required fl percentage b.0) all h.0

  Rises-tail : (a : F × F) (more : List (F × F)) → Rises (a ∷ more) → Rises more
  Rises-tail a [] h = tt
  Rises-tail a (b ∷ more) h = h.1

  Agree-refl : (increasing all : List (F × F)) → Agree increasing all all
  Agree-refl [] all = tt
  Agree-refl (a ∷ more) all = refl

  -- From a level on for which nothing is left, nothing is found.
  search_naive-none :
      (increasing all : List (F × F)) (best : Option (MaxPrice F)) (least : F)
      → Rises increasing
      → Agree increasing [] all
      → search_naive increasing all best least ≡ best
  unfolding search_naive skip_below
  search_naive-none [] all best least h a = refl
  search_naive-none ((inc, q) ∷ more) all best least h a =
      let e = sym a in
      rw (e, search_naive)
        (search_naive-none more all best least (Rises-tail (inc, q) more h)
          (Agree-next (inc, q) more [] all h e))

  search_max-search_naive :
      (increasing left all : List (F × F)) (best : Option (MaxPrice F)) (least : F)
      → Rises increasing
      → Agree increasing left all
      → search_max fl percentage increasing left best least ≡ search_naive increasing all best least
  unfolding search_max search_naive
  search_max-search_naive [] left all best least h a = refl
  search_max-search_naive ((inc, q) ∷ more) left all best least h a =
      rw (a, search_max)
        (List_agree (skip_below fl (required fl percentage inc) all) _ _ _ _
          (λ e. sym (
            search_naive-none more all best least (Rises-tail (inc, q) more h)
              (Agree-next (inc, q) more [] all h e)))
          λ l rest e.
            search_max-search_naive more (l ∷ rest) all _ _ (Rises-tail (inc, q) more h)
              (Agree-next (inc, q) more (l ∷ rest) all h e))

  -- Where the levels of the increasing side require rising prices of the other: the search with two
  -- pointers finds what the search finds that goes through the whole decreasing side each time.
  pub find_max_price-naive :
      (increasing decreasing : List (F × F))
      → Rises increasing
      → find_max_price fl increasing decreasing percentage
        ≡ search_naive increasing (reverse decreasing) none fl.infinity
  unfolding find_max_price
  find_max_price-naive increasing decreasing h =
      search_max-search_naive increasing (reverse decreasing) (reverse decreasing) none fl.infinity
        h (Agree-refl increasing (reverse decreasing))
