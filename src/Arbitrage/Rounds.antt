-- ===== src/Arbitrage/Rounds.antt =====
-- The `while` of a matcher (src/arbitrage/entry.rs, src/arbitrage/exit.rs), for any pass through it.
use arbexpert_backend.Base.{ℕ, zero, suc, ◌<◌, ◌≡◌, ◌≢◌, refl, sym, ap, ◌∙◌, subst, arith}
use arbexpert_backend.Arbitrage.{
  Round, breaks, panicked, goes, Ends, returns, panics, out_of_fuel, while_rounds,
}

module _ {S : Type 0} (step : S → Round S) where
  while_rounds-next :
      (fuel : ℕ) (s : S) (r : Round S)
      → step s ≡ r
      → ((t : S) → r ≡ goes t → while_rounds fuel step t ≢ out_of_fuel)
      → while_rounds (suc fuel) step s ≢ out_of_fuel
  unfolding while_rounds
  while_rounds-next fuel s breaks e ih = λ h. ground arith
  while_rounds-next fuel s panicked e ih = λ h. ground arith
  while_rounds-next fuel s (goes t) e ih = λ h. ih t refl (ground arith)

  module _ (Kept : S → Type 0) (weight : S → ℕ)
      (lighter : (s t : S) → Kept s → step s ≡ goes t → (weight t < weight s) × Kept t) where
    -- A loop whose rounds keep a property and lower a weight ends, with fuel for the weight.
    pub while_rounds-ends :
        (fuel : ℕ) (s : S) → Kept s → weight s < fuel → while_rounds fuel step s ≢ out_of_fuel
    while_rounds-ends zero s k h = absurd (ground arith)
    while_rounds-ends (suc fuel) s k h = while_rounds-next fuel s (step s) refl λ t e.
        let (less, kept) = lighter s t k e in while_rounds-ends fuel t kept (omega (arith, less, h))

  -- The state that a loop returns, or `s`.
  abbrev final : S → Ends S → S
  final s (returns t) = t
  final s panics = s
  final s out_of_fuel = s

  -- What every round keeps holds of the state that the loop returns.
  pub while_rounds-keeps :
      (Kept : S → Type 0)
      → ((s t : S) → Kept s → step s ≡ goes t → Kept t)
      → (fuel : ℕ) (s t : S) → Kept s
      → while_rounds fuel step s ≡ returns t
      → Kept t
  unfolding while_rounds
  while_rounds-keeps Kept keeps zero s t k h = absurd (ground (arith, h))
  while_rounds-keeps Kept keeps (suc fuel) s t k h =
      next (step s) refl λ u e. while_rounds-keeps Kept keeps fuel u t (keeps s u k e)
    where
      next :
          (r : Round S)
          → step s ≡ r
          → ((u : S) → step s ≡ goes u → while_rounds fuel step u ≡ returns t → Kept t)
          → Kept t
      next breaks e ih = subst Kept (ap (final s) (sym stops ∙ h)) k
        where
          stops : while_rounds (suc fuel) step s ≡ returns s
          stops = ground (arith, e)
      next panicked e ih = absurd (ground (arith, e, h))
      next (goes u) e ih = ih u e (ground (arith, e, h))
