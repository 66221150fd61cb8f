-- ===== src/Arbitrage.antt =====
-- src/arbitrage/common.rs: the types of the two order matchers, and the search for the price limit.
-- `f64` and the conversions of `rust_decimal` are an argument of the model, with no laws assumed.
pub mod Entry
pub mod Exit
pub mod Limit
pub mod Naive
pub mod Rounds
pub mod Ending
pub mod EntryEnding
pub mod Spending
pub mod Request
use arbexpert_backend.Base.{
  ℕ, zero, suc, ◌+◌, Bool, true, false, not, ◌&&◌, ◌||◌, Option, none, some, List, [], ◌∷◌, ◌++◌,
  map, length, if◌then◌else◌,
}
use mathlib.Core.List.{reverse}
use arbexpert_backend.Decimal.{Decimal, decimal_ord, lt, gt, eq}

pub record Float (F D : Type 0) : Type 0 where
  pub zero_f : F
  pub infinity : F
  pub epsilon : F
  pub one : F
  pub hundred : F
  pub add_f : F → F → F
  pub sub_f : F → F → F
  pub mul_f : F → F → F
  pub div_f : F → F → F
  pub abs_f : F → F
  pub lt_f : F → F → Bool
  -- `Decimal::from_f64`, and `to_f64().unwrap()`, which the crate does not let fail.
  pub from_f64 : F → Option D
  pub to_f64 : D → F

pub record MaxPrice (F : Type 0) : Type 0 where
  pub spot : F
  pub future : F

pub record EntryRequest (F : Type 0) : Type 0 where
  pub spot_orders : List (F × F)
  pub future_orders : List (F × F)
  pub amount : F
  pub margin_quantity_percent : F
  pub percent : F
  pub contract_size : F

pub record ExitRequest (F : Type 0) : Type 0 where
  pub spot_orders : List (F × F)
  pub future_orders : List (F × F)
  pub executed : F
  pub percent : F
  pub contract_size : F

pub record EntryResult (F : Type 0) : Type 0 where
  pub spot_orders : List (F × F)
  pub future_orders : List (F × F)
  pub max_price : MaxPrice F
  pub executed : F
  pub completed : Bool
  pub profit_percent : F

pub record ExitResult (F : Type 0) : Type 0 where
  pub spot_orders : List (F × F)
  pub future_orders : List (F × F)
  pub max_price : MaxPrice F
  pub executed : F
  pub completed : Bool

module _ {D : Type 0} ⦃d : Decimal D⦄ where
  abbrev pub eps : D
  eps = d.new 1 12

  abbrev pub hundred_d : D
  hundred_d = d.new 100 0

  unfoldable pub clean_residual : D → D → D
  clean_residual value epsilon = if lt (d.abs value) epsilon then d.nil else value

  unfoldable pub is_outside_tolerance : D → D → D → Bool
  is_outside_tolerance base target percent =
      let tolerance = d.div (d.mul base percent) hundred_d in
      lt target (d.sub base tolerance) || gt target (d.add base tolerance)

module _ {F D : Type 0} (fl : Float F D) where
  -- `inc_price * (1.0 + percentage / 100.0)`.
  abbrev pub required : F → F → F
  required percentage inc = fl.mul_f inc (fl.add_f fl.one (fl.div_f percentage fl.hundred))

  abbrev pub excess : F → F → F → F
  excess percentage inc dec =
      fl.sub_f (fl.mul_f (fl.div_f (fl.sub_f dec inc) inc) fl.hundred) percentage

  -- The inner `while`: the levels from index j down, the last one first.
  unfoldable pub skip_below : F → List (F × F) → List (F × F)
  skip_below r [] = []
  skip_below r ((p, q) ∷ rest) =
      let skipped = skip_below r rest in if fl.lt_f p r then skipped else (p, q) ∷ rest

  -- The loop over `increasing`, with the levels that index j leaves.
  unfoldable pub search_max :
      F → List (F × F) → List (F × F) → Option (MaxPrice F) → F → Option (MaxPrice F)
  search_max percentage [] left best min_excess = best
  search_max percentage ((inc, q) ∷ more) left best min_excess =
      elim (skip_below (required percentage inc) left) [
        | [] ↦ best
        | (dec, v) ∷ rest ↦
            let e = excess percentage inc dec in
            let better = fl.lt_f e min_excess in
            search_max percentage more ((dec, v) ∷ rest)
              (if better then some (record { spot = inc; future = dec }) else best)
              (if better then e else min_excess)
      ]

  unfoldable pub find_max_price : List (F × F) → List (F × F) → F → Option (MaxPrice F)
  unfolding search_max skip_below
  find_max_price increasing decreasing percentage =
      search_max percentage increasing (reverse decreasing) none fl.infinity

  -- A fill in a result: it joins the last entry if the prices are closer than epsilon.
  unfoldable pub add_fill : F → F → List (F × F) → List (F × F)
  add_fill price qty [] = (price, qty) ∷ []
  add_fill price qty ((p, q) ∷ []) =
      if fl.lt_f (fl.abs_f (fl.sub_f p price)) fl.epsilon
      then (p, fl.add_f q qty) ∷ []
      else (p, q) ∷ (price, qty) ∷ []
  add_fill price qty (x ∷ y ∷ fills) = x ∷ add_fill price qty (y ∷ fills)

  -- The conversions at the start of either matcher; `none` is the panic of an `unwrap`.
  unfoldable pub to_levels : List (F × F) → Option (List (D × D))
  to_levels [] = some []
  to_levels ((p, q) ∷ rest) = elim (fl.from_f64 p) [
    | none ↦ none
    | some p' ↦ elim (fl.from_f64 q) [
      | none ↦ none
      | some q' ↦ elim (to_levels rest) [ none ↦ none | some ls ↦ some ((p', q') ∷ ls) ]
    ]
  ]

-- A pass through a matcher's `while`: it breaks, panics, or goes on.
pub data Round (S : Type 0) : Type 0 where
  breaks panicked : Round S
  goes : S → Round S

-- How a matcher, or its loop, ends.
pub data Ends (R : Type 0) : Type 0 where
  returns : R → Ends R
  panics out_of_fuel : Ends R

-- `Decimal::from_f64(..).unwrap()`.
abbrev pub unwrap : {A B : Type 0} → Option A → (A → Ends B) → Ends B
unwrap none k = panics
unwrap (some a) k = k a

-- `while`, for as many rounds as there is fuel.
unfoldable pub while_rounds : {S : Type 0} → ℕ → (S → Round S) → S → Ends S
while_rounds zero step s = out_of_fuel
while_rounds (suc fuel) step s = elim (step s) [
  | breaks ↦ returns s
  | panicked ↦ panics
  | goes t ↦ while_rounds fuel step t
]

-- `max_price.as_ref().map_or(0.0, …)`.
abbrev pub price_or_zero : {F D : Type 0} → Float F D → Option (MaxPrice F) → (MaxPrice F → F) → F
price_or_zero fl none side = fl.zero_f
price_or_zero fl (some m) side = side m
