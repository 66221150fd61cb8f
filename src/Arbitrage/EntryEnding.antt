-- ===== src/Arbitrage/EntryEnding.antt =====
-- The `while` of `do_entry_arbitrage` ends (src/arbitrage/entry.rs) where a contract is one unit.
use arbexpert_backend.Base.{
  ℕ, ◌+◌, ◌≡◌, ◌⊎◌, true, false, some, List, ◌∷◌, All, length, if◌then◌else◌,
}
use arbexpert_backend.Decimal.{Decimal, lt, gt}
use arbexpert_backend.Arbitrage.{Float, EntryRequest}
use arbexpert_backend.Arbitrage.Ending.{NonNegative, open_amount}
use arbexpert_backend.Arbitrage.Entry.{EntryState, entry_round}

module _ {F D : Type 0} ⦃d : Decimal D⦄ (fl : Float F D) (sub_self : (a : D) → d.sub a a ≡ d.nil)
    (sub_nonneg : (a b : D) → lt a b ≡ false → lt (d.sub a b) d.nil ≡ false) where
  -- The levels left, and one more round while there is an amount left.
  abbrev weight : EntryState F D → ℕ
  weight s = length s.spot + length s.future + (if open_amount s.available then 1 else 0)

  -- What a round buys leaves nothing of the amount, or takes all of a level.
  abbrev TakesAll : D → D → D → D → D → Type 0
  TakesAll q available sp sv fv =
      (open_amount (d.sub available (d.mul sp q)) ≡ false) ⊎ ((q ≡ sv) ⊎ (q ≡ fv))

  module _ (request : EntryRequest F) (amount size : D)
      (contract : fl.from_f64 request.contract_size ≡ some size)
      (mul_one : (v : D) → d.mul v size ≡ v)
      (sub_le : (a b : D) → lt b d.nil ≡ false → lt a (d.sub a b) ≡ false)
      (mul_nonneg : (a b : D)
        → lt a d.nil ≡ false
        → lt b d.nil ≡ false
        → lt (d.mul a b) d.nil ≡ false)
      (div_nonneg : (a b : D)
        → lt a d.nil ≡ false
        → gt b d.nil ≡ true
        → lt (d.div a b) d.nil ≡ false) where
    -- Every price is positive, and buying at it for any amount up to the whole leaves nothing.
    abbrev pub Spends : List (D × D) → Type 0
    Spends = All λ l.
        (gt l.0 d.nil ≡ true)
        × ((a : D) → lt amount a ≡ false → open_amount (d.sub a (d.mul l.0 (d.div a l.0))) ≡ false)

    abbrev Kept : EntryState F D → Type 0
    Kept s =
        (NonNegative s.spot × Spends s.spot)
        × (NonNegative s.future × (lt amount s.available ≡ false))

    abbrev with_levels : List (D × D) → List (D × D) → EntryState F D → EntryState F D
    with_levels spot future s = record s { spot = spot; future = future }

    -- The state after a round.
    abbrev after_round :
        D → D → D → List (D × D) → D → D → List (D × D) → EntryState F D → EntryState F D
    after_round margin sp sv spot_rest fp fv future_rest s =
        entry_round fl amount margin size sp sv spot_rest fp fv future_rest
          (with_levels ((sp, sv) ∷ spot_rest) ((fp, fv) ∷ future_rest) s)
