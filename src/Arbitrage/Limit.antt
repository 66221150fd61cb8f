-- ===== src/Arbitrage/Limit.antt =====
-- What `find_max_price` returns (src/arbitrage/common.rs).
use mathlib.Core.List.{reverse, Mem, mem-reverse, mem-cons_self, mem-cons_of_mem}
use arbexpert_backend.Base.{
  ◌≡◌, refl, Bool, true, false, Option, none, some, List, [], ◌∷◌, arith, Bool-cases, inl, inr,
  if◌then◌else◌, ◌⊎◌,
}
use arbexpert_backend.Arbitrage.{
  Float, MaxPrice, required, excess, skip_below, search_max, find_max_price,
}

-- Some level has this price.
abbrev pub Lists : {F : Type 0} → F → List (F × F) → Type 0
Lists {F} p ls = (q : F) × Mem (p, q) ls

module _ {F D : Type 0} (fl : Float F D) (percentage : F) where
  -- A spot price and a future price of the two sides, the future one not below what the percentage
  -- requires of the spot one.
  pub record Meets (increasing decreasing : List (F × F)) (m : MaxPrice F) : Type 0 where
    pub spot_listed : Lists m.spot increasing
    pub future_listed : Lists m.future decreasing
    pub reached : fl.lt_f m.future (required fl percentage m.spot) ≡ false

  skip_below_head :
      (r : F) (left rest : List (F × F)) (p v : F)
      → skip_below fl r left ≡ (p, v) ∷ rest
      → fl.lt_f p r ≡ false
  unfolding skip_below
  skip_below_head r [] rest p v e = cc
  skip_below_head r ((q, w) ∷ left) rest p v e = ground (arith, skip_below_head r left rest p v)

  skip_below_mem :
      (r : F) (left : List (F × F)) (l : F × F) → Mem l (skip_below fl r left) → Mem l left
  unfolding skip_below
  skip_below_mem r [] l h = h
  skip_below_mem r ((q, w) ∷ left) l h = elim (Bool-cases (fl.lt_f q r)) [
    | inl e ↦ mem-cons_of_mem (q, w) (skip_below_mem r left l (rw e at h))
    | inr e ↦ rw e at h
  ]

  -- Whatever the search has, or finds among the levels that are left.
  abbrev Found : List (F × F) → List (F × F) → Option (MaxPrice F) → MaxPrice F → Type 0
  Found increasing left best m = (best ≡ some m) ⊎ Meets increasing left m

  Meets-more :
      (l : F × F) (more left rest : List (F × F)) (m : MaxPrice F)
      → ((x : F × F) → Mem x rest → Mem x left)
      → Meets more rest m
      → Meets (l ∷ more) left m
  Meets-more l more left rest m sub h = record {
    spot_listed = (h.spot_listed.0, mem-cons_of_mem l h.spot_listed.1);
    future_listed = (h.future_listed.0, sub _ h.future_listed.1);
    reached = h.reached;
  }

  -- The levels that the inner loop leaves, with their head.
  module _ (inc q dec v : F) (more left rest : List (F × F))
      (skipped : skip_below fl (required fl percentage inc) left ≡ (dec, v) ∷ rest) where
    kept : (x : F × F) → Mem x ((dec, v) ∷ rest) → Mem x left
    kept x h = skip_below_mem (required fl percentage inc) left x (rw skipped h)

    Meets-here : (m : MaxPrice F) → m.spot ≡ inc → m.future ≡ dec → Meets ((inc, q) ∷ more) left m
    Meets-here m s f = record {
      spot_listed = (q, rw s mem-cons_self);
      future_listed = (v, rw f (kept (dec, v) mem-cons_self));
      reached = rw (s, f) (skip_below_head (required fl percentage inc) left rest dec v skipped);
    }

    Found-next :
        (better : Bool) (best : Option (MaxPrice F)) (m : MaxPrice F)
        → Found more
            ((dec, v) ∷ rest)
            (if better then some (record { spot = inc; future = dec }) else best)
            m
        → Found ((inc, q) ∷ more) left best m
    Found-next true best m (inl e) = inr (Meets-here m (ground arith) (ground arith))
    Found-next false best m (inl e) = inl e
    Found-next better best m (inr h) = inr (Meets-more (inc, q) more left _ m kept h)

  search_max-Found :
      (increasing left : List (F × F)) (best : Option (MaxPrice F)) (least : F) (m : MaxPrice F)
      → search_max fl percentage increasing left best least ≡ some m
      → Found increasing left best m
  unfolding search_max
  search_max-Found [] left best least m e = inl e
  search_max-Found ((inc, q) ∷ more) left best least m e =
      next (λ l b x. search_max-Found more l b x m)
        (skip_below fl (required fl percentage inc) left) refl
    where
      next :
          ((l : List (F × F)) (b : Option (MaxPrice F)) (x : F)
            → search_max fl percentage more l b x ≡ some m
            → Found more l b m)
          → (found : List (F × F)) → skip_below fl (required fl percentage inc) left ≡ found
          → Found ((inc, q) ∷ more) left best m
      next ih [] s = inl (ground arith)
      next ih ((dec, v) ∷ rest) s =
          let excess_here = excess fl percentage inc dec in
          let better = fl.lt_f excess_here least in
          Found-next inc q dec v more left rest s better best m (
            ih ((dec, v) ∷ rest)
              (if better then some (record { spot = inc; future = dec }) else best)
              (if better then excess_here else least) (rw (s, search_max) at e))

  -- The pair that `find_max_price` returns is a price of each side, and the decreasing side's is not
  -- below what the percentage requires of the increasing side's.
  pub find_max_price-Meets :
      (increasing decreasing : List (F × F)) (m : MaxPrice F)
      → find_max_price fl increasing decreasing percentage ≡ some m
      → Meets increasing decreasing m
  unfolding find_max_price
  find_max_price-Meets increasing decreasing m e =
      elim (search_max-Found increasing (reverse decreasing) none fl.infinity m e) [
        | inl none_yet ↦ absurd (cc)
        | inr h ↦ record {
          spot_listed = h.spot_listed;
          future_listed = (h.future_listed.0, mem-reverse.0 h.future_listed.1);
          reached = h.reached;
        }
      ]
