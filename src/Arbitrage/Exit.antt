-- ===== src/Arbitrage/Exit.antt =====
-- `do_exit_arbitrage` of src/arbitrage/exit.rs. The levels before the indices i and j are done with:
-- the state has those from the indices on.
use arbexpert_backend.Base.{ℕ, none, some, List, [], ◌∷◌, if◌then◌else◌}
use arbexpert_backend.Decimal.{Decimal, lt, gt, eq, min}
use arbexpert_backend.Arbitrage.{
  Float, ExitRequest, ExitResult, eps, hundred_d, clean_residual, find_max_price, add_fill,
  to_levels, Round, breaks, panicked, goes, Ends, returns, panics, out_of_fuel, unwrap,
  while_rounds, price_or_zero,
}

pub record ExitState (F D : Type 0) : Type 0 where
  pub spot : List (D × D)
  pub future : List (D × D)
  pub available : D
  pub spot_results : List (F × F)
  pub future_results : List (F × F)

module _ {F D : Type 0} ⦃d : Decimal D⦄ (fl : Float F D) where
  -- The level after `qty` was taken from it, dropped if nothing is left.
  unfoldable pub take_level : D → D → D → List (D × D) → List (D × D)
  take_level qty price vol rest =
      let left = if gt qty d.nil then d.sub vol qty else vol in
      if eq (clean_residual left eps) d.nil then rest else (price, left) ∷ rest

  -- The quantity that a round takes from both sides.
  abbrev pub exit_quantity : D → D → D → D → D
  exit_quantity size available spot_vol future_vol =
      min (min available spot_vol) (d.mul future_vol size)

  -- The body of the loop on the two levels at the indices, once it does not break.
  unfoldable pub exit_round :
      D → D → D → List (D × D) → D → D → List (D × D) → ExitState F D → ExitState F D
  exit_round size spot_price spot_vol spot_rest future_price future_vol future_rest s =
      let qty = exit_quantity size s.available spot_vol future_vol in
      record {
        spot = take_level qty spot_price spot_vol spot_rest;
        future = take_level qty future_price future_vol future_rest;
        available = d.sub s.available qty;
        spot_results = add_fill fl (fl.to_f64 spot_price) (fl.to_f64 qty) s.spot_results;
        future_results = add_fill fl (fl.to_f64 future_price) (fl.to_f64 qty) s.future_results;
      }

  unfoldable pub exit_body :
      ExitRequest F
      → D
      → D
      → List (D × D)
      → D
      → D
      → List (D × D)
      → ExitState F D
      → Round (ExitState F D)
  exit_body request sp sv spot_rest fp fv future_rest s = elim (fl.from_f64 request.contract_size) [
    | none ↦ panicked
    | some size ↦ elim (fl.from_f64 request.percent) [
      | none ↦ panicked
      | some percent ↦
          if lt (d.mul (d.div (d.sub sp fp) fp) hundred_d) percent
          then breaks
          else goes (exit_round size sp sv spot_rest fp fv future_rest s)
    ]
  ]

  -- One pass through the `while`, its condition included.
  unfoldable pub exit_step : ExitRequest F → ExitState F D → Round (ExitState F D)
  unfolding exit_body
  exit_step request s =
      if gt (clean_residual s.available eps) d.nil
      then elim s.spot [
        | [] ↦ breaks
        | (sp, sv) ∷ spot_rest ↦ elim s.future [
          | [] ↦ breaks
          | (fp, fv) ∷ future_rest ↦ exit_body request sp sv spot_rest fp fv future_rest s
        ]
      ]
      else breaks

  pub exit_result : ExitRequest F → ExitState F D → ExitResult F
  exit_result request s =
      let limit = find_max_price fl request.future_orders request.spot_orders request.percent in
      record {
        spot_orders = s.spot_results;
        future_orders = s.future_results;
        max_price = record {
          spot = price_or_zero fl limit (λ m. m.future);
          future = price_or_zero fl limit (λ m. m.spot);
        };
        executed = fl.sub_f request.executed (fl.to_f64 s.available);
        completed = eq (clean_residual s.available eps) d.nil;
      }

  unfoldable pub do_exit_arbitrage : ℕ → ExitRequest F → Ends (ExitResult F)
  unfolding exit_result
  do_exit_arbitrage fuel request = unwrap (to_levels fl request.spot_orders) λ spot.
      unwrap (to_levels fl request.future_orders) λ future.
        unwrap (fl.from_f64 request.executed) λ available.
          elim (while_rounds fuel (exit_step request) (record {
            spot = spot;
            future = future;
            available = available;
            spot_results = [];
            future_results = [];
          })) [
            | returns s ↦ returns (exit_result request s)
            | panics ↦ panics
            | out_of_fuel ↦ out_of_fuel
          ]
