-- ===== src/Arbitrage/Ending.antt =====
-- The `while` of `do_exit_arbitrage` ends (src/arbitrage/exit.rs) where a contract is one unit.
use arbexpert_backend.Base.{
  ℕ, suc, ◌+◌, ◌≤◌, ◌<◌, ◌≡◌, ◌≢◌, ◌⊎◌, sym, subst, Bool, true, false, some, List, [], ◌∷◌, inl,
  inr, arith, All, length, if◌then◌else◌, Option-cases,
}
use arbexpert_backend.Decimal.{Decimal, lt, gt, min}
use arbexpert_backend.Decimal.Order.{le_trans, min-le_left, min-le_right, min_cases}
use arbexpert_backend.Arbitrage.{
  Float, ExitRequest, eps, clean_residual, to_levels, goes, out_of_fuel, while_rounds,
}
use arbexpert_backend.Arbitrage.Rounds.{while_rounds-ends}
use arbexpert_backend.Arbitrage.Exit.{
  ExitState, take_level, exit_quantity, exit_round, exit_body, exit_step, do_exit_arbitrage,
}

module _ {D : Type 0} ⦃d : Decimal D⦄ where
  -- No level has a negative volume.
  abbrev pub NonNegative : List (D × D) → Type 0
  NonNegative = All (λ l. lt l.1 d.nil ≡ false)

  -- Quantities are left to execute.
  abbrev pub open_amount : D → Bool
  open_amount available = gt (clean_residual available eps) d.nil

module _ {F D : Type 0} ⦃d : Decimal D⦄ (fl : Float F D) (sub_self : (a : D) → d.sub a a ≡ d.nil)
    (sub_nonneg : (a b : D) → lt a b ≡ false → lt (d.sub a b) d.nil ≡ false) where
  take_level-all :
      (price vol : D) (rest : List (D × D))
      → lt vol d.nil ≡ false
      → take_level fl vol price vol rest ≡ rest
  unfolding take_level clean_residual
  take_level-all price vol rest h =
      ground (arith, sub_self vol, d.order.cmp_refl d.nil, d.order.cmp_eq vol d.nil)

  take_level-NonNegative :
      (qty price vol : D) (rest : List (D × D))
      → lt vol d.nil ≡ false
      → lt vol qty ≡ false
      → NonNegative rest
      → NonNegative (take_level fl qty price vol rest)
  unfolding take_level
  take_level-NonNegative qty price vol rest h k r = ground (arith, sub_nonneg vol qty)

  length-take_level :
      (qty price vol : D) (rest : List (D × D))
      → length (take_level fl qty price vol rest) ≤ suc (length rest)
  unfolding take_level
  length-take_level qty price vol rest = ground arith

  open_amount-nil : (a : D) → open_amount (d.sub a a) ≡ false
  unfolding clean_residual
  open_amount-nil a = ground (arith, sub_self a, d.order.cmp_refl d.nil)

  -- The levels left, and one more round while there is an amount left.
  abbrev weight : ExitState F D → ℕ
  weight s = length s.spot + length s.future + (if open_amount s.available then 1 else 0)

  -- The quantity of a round is all that is left to execute, or all of a level.
  abbrev TakesAll : D → D → D → D → Type 0
  TakesAll q available sv fv = (q ≡ available) ⊎ ((q ≡ sv) ⊎ (q ≡ fv))

  weight-take :
      (q available sp sv : D) (spot_rest : List (D × D)) (fp fv : D) (future_rest : List (D × D))
      → TakesAll q available sv fv
      → lt sv d.nil ≡ false
      → lt fv d.nil ≡ false
      → length (take_level fl q sp sv spot_rest)
          + length (take_level fl q fp fv future_rest)
          + (if open_amount (d.sub available q) then 1 else 0)
        < suc (length spot_rest) + suc (length future_rest) + 1
  weight-take q available sp sv spot_rest fp fv future_rest (inl e) hs hf = ground (
    arith,
    length-take_level q sp sv spot_rest,
    length-take_level q fp fv future_rest,
    open_amount-nil q,
  )
  weight-take q available sp sv spot_rest fp fv future_rest (inr (inl e)) hs hf =
      ground (arith, take_level-all sp sv spot_rest hs, length-take_level q fp fv future_rest)
  weight-take q available sp sv spot_rest fp fv future_rest (inr (inr e)) hs hf =
      ground (arith, take_level-all fp fv future_rest hf, length-take_level q sp sv spot_rest)

  module _ (request : ExitRequest F) (size : D)
      (contract : fl.from_f64 request.contract_size ≡ some size)
      (mul_one : (v : D) → d.mul v size ≡ v) where
    exit_quantity-TakesAll :
        (available sv fv : D) → TakesAll (exit_quantity fl size available sv fv) available sv fv
    exit_quantity-TakesAll available sv fv =
        ground
          (arith, mul_one fv, min_cases (min available sv) (d.mul fv size), min_cases available sv)

    exit_quantity-le_spot :
        (available sv fv : D) → lt sv (exit_quantity fl size available sv fv) ≡ false
    exit_quantity-le_spot available sv fv =
        le_trans (exit_quantity fl size available sv fv) (min available sv) sv
          (min-le_left (min available sv) (d.mul fv size)) (min-le_right available sv)

    exit_quantity-le_future :
        (available sv fv : D) → lt fv (exit_quantity fl size available sv fv) ≡ false
    exit_quantity-le_future available sv fv =
        subst (λ v. lt v (exit_quantity fl size available sv fv) ≡ false) (mul_one fv)
          (min-le_right (min available sv) (d.mul fv size))

    -- The rounds' state on its own levels.
    abbrev with_levels : List (D × D) → List (D × D) → ExitState F D → ExitState F D
    with_levels spot future s = record s { spot = spot; future = future }

    exit_step_goes :
        (sp sv fp fv : D) (spot_rest future_rest : List (D × D)) (s t : ExitState F D)
        → exit_step fl request (with_levels ((sp, sv) ∷ spot_rest) ((fp, fv) ∷ future_rest) s)
          ≡ goes t
        → (open_amount s.available ≡ true)
          × (t
              ≡ exit_round fl size sp sv spot_rest fp fv future_rest
                  (with_levels ((sp, sv) ∷ spot_rest) ((fp, fv) ∷ future_rest) s))
    unfolding exit_step exit_body
    exit_step_goes sp sv fp fv spot_rest future_rest s t e = ground (arith, contract)

    -- No level has a negative volume.
    abbrev Kept : ExitState F D → Type 0
    Kept s = NonNegative s.spot × NonNegative s.future

    levels_step :
        (spot future : List (D × D)) (s t : ExitState F D)
        → NonNegative spot
        → NonNegative future
        → exit_step fl request (with_levels spot future s) ≡ goes t
        → (weight t < weight (with_levels spot future s)) × Kept t
    unfolding exit_step exit_round
    levels_step [] future s t hs hf e = ground arith
    levels_step (l ∷ spot) [] s t hs hf e = ground arith
    levels_step ((sp, sv) ∷ r1) ((fp, fv) ∷ r2) s t hs hf e =
        let h = exit_step_goes sp sv fp fv r1 r2 s t e in
        let q = exit_quantity fl size s.available sv fv in
        let less =
          weight-take q s.available sp sv r1 fp fv r2 (exit_quantity-TakesAll s.available sv fv)
            hs.0 hf.0 in
        subst (λ u. (weight u < weight (with_levels ((sp, sv) ∷ r1) ((fp, fv) ∷ r2) s)) × Kept u)
          (sym h.1)
          (
            ground (arith, less, h.0),
            (
              take_level-NonNegative q sp sv r1 hs.0 (exit_quantity-le_spot s.available sv fv) hs.1,
              take_level-NonNegative q fp fv r2 hf.0 (exit_quantity-le_future s.available sv fv)
                  hf.1,
            ),
          )

    while-ends :
        (fuel : ℕ) (s : ExitState F D)
        → Kept s
        → weight s < fuel
        → while_rounds fuel (exit_step fl request) s ≢ out_of_fuel
    while-ends =
        while_rounds-ends (exit_step fl request) Kept weight
          λ s t k e. levels_step s.spot s.future s t k.0 k.1 e

    -- Where a contract is one unit of the base currency, multiplying by one unit changes nothing,
    -- a - a is zero, a difference is not negative if it takes away no more than there is, and no
    -- level has a negative volume: the loop of `do_exit_arbitrage` ends, with fuel for two rounds
    -- more than there are levels.
    pub exit_ends :
        (fuel : ℕ) (spot future : List (D × D))
        → to_levels fl request.spot_orders ≡ some spot
        → to_levels fl request.future_orders ≡ some future
        → NonNegative spot
        → NonNegative future
        → length spot + length future + 1 < fuel
        → do_exit_arbitrage fl fuel request ≢ out_of_fuel
    unfolding do_exit_arbitrage
    exit_ends fuel spot future es ef hs hf h = elim (Option-cases (fl.from_f64 request.executed)) [
      | inl e ↦ λ k. ground arith
      | inr (available, e) ↦ λ k. loop-ends available (started-ends available) e k
    ]
      where
        started : D → ExitState F D
        started available = record {
          spot = spot;
          future = future;
          available = available;
          spot_results = [];
          future_results = [];
        }

        started-ends :
            (available : D)
            → while_rounds fuel (exit_step fl request) (started available) ≢ out_of_fuel
        started-ends available = while-ends fuel (started available) (hs, hf) (ground (arith, h))

        loop-ends :
            (available : D)
            → while_rounds fuel (exit_step fl request) (started available) ≢ out_of_fuel
            → fl.from_f64 request.executed ≡ some available
            → do_exit_arbitrage fl fuel request ≢ out_of_fuel
        loop-ends available n e k = n (ground (arith, k, e, es, ef))
