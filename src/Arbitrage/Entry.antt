-- ===== src/Arbitrage/Entry.antt =====
-- `do_entry_arbitrage` of src/arbitrage/entry.rs, its state as in Arbitrage/Exit.
use arbexpert_backend.Base.{
  ℕ, Bool, false, not, ◌&&◌, ◌||◌, none, some, List, [], ◌∷◌, if◌then◌else◌,
}
use arbexpert_backend.Decimal.{Decimal, lt, gt, eq, min}
use arbexpert_backend.Arbitrage.{
  Float, EntryRequest, EntryResult, eps, hundred_d, clean_residual, is_outside_tolerance,
  find_max_price, add_fill, to_levels, Round, breaks, panicked, goes, Ends, returns, panics,
  out_of_fuel, unwrap, while_rounds, price_or_zero,
}

pub record EntryState (F D : Type 0) : Type 0 where
  pub spot : List (D × D)
  pub future : List (D × D)
  pub total_spot : D
  pub total_future : D
  pub available : D
  pub spot_results : List (F × F)
  pub future_results : List (F × F)
  pub qty : D
  pub completed : Bool

module _ {F D : Type 0} ⦃d : Decimal D⦄ (fl : Float F D) where
  -- The level after `qty` was taken from it, dropped if nothing is left.
  unfoldable pub reduce_level : D → D → D → List (D × D) → List (D × D)
  reduce_level qty price vol rest =
      let left = d.sub vol qty in
      if eq (clean_residual left eps) d.nil then rest else (price, left) ∷ rest

  abbrev pub entry_quantity : D → D → D → D → D → D
  entry_quantity size available spot_price spot_vol future_vol =
      min (min (d.div available spot_price) spot_vol) (d.mul future_vol size)

  -- The body of the loop on the two levels at the indices, once it does not break.
  unfoldable pub entry_round :
      D → D → D → D → D → List (D × D) → D → D → List (D × D) → EntryState F D → EntryState F D
  entry_round amount margin size spot_price spot_vol spot_rest future_price future_vol future_rest
        s =
      let current = entry_quantity size s.available spot_price spot_vol future_vol in
      let total_spot = d.add s.total_spot (d.mul spot_price current) in
      let total_future = d.add s.total_future (d.mul future_price current) in
      record {
        spot = reduce_level current spot_price spot_vol spot_rest;
        future = reduce_level current future_price future_vol future_rest;
        total_spot = total_spot;
        total_future = total_future;
        available = d.sub s.available (d.mul spot_price current);
        spot_results = add_fill fl (fl.to_f64 spot_price) (fl.to_f64 current) s.spot_results;
        future_results = add_fill fl (fl.to_f64 future_price) (fl.to_f64 current) s.future_results;
        qty = d.add s.qty current;
        completed =
            not (is_outside_tolerance amount total_spot margin)
            && not (is_outside_tolerance amount total_future margin);
      }

  -- The two tests that break from the body: the spread is too small, or there is nothing to take.
  abbrev pub spread : D → D → D
  spread spot_price future_price =
      d.mul (d.div (d.sub future_price spot_price) spot_price) hundred_d

  unfoldable pub entry_body :
      EntryRequest F
      → D
      → D
      → D
      → List (D × D)
      → D
      → D
      → List (D × D)
      → EntryState F D
      → Round (EntryState F D)
  entry_body request amount sp sv spot_rest fp fv future_rest s =
      elim (fl.from_f64 request.contract_size) [
        | none ↦ panicked
        | some size ↦
            if eq (clean_residual (spread sp fp) eps) d.nil
            then breaks
            else elim (fl.from_f64 request.percent) [
              | none ↦ panicked
              | some percent ↦
                  if lt (spread sp fp) percent
                    || eq (clean_residual (entry_quantity size s.available sp sv fv) eps) d.nil
                  then breaks
                  else elim (fl.from_f64 request.margin_quantity_percent) [
                    | none ↦ panicked
                    | some margin ↦
                        goes (entry_round amount margin size sp sv spot_rest fp fv future_rest s)
                  ]
            ]
      ]

  -- One pass through the `while`, its condition included.
  unfoldable pub entry_step : EntryRequest F → D → EntryState F D → Round (EntryState F D)
  unfolding entry_body
  entry_step request amount s = elim s.spot [
    | [] ↦ breaks
    | (sp, sv) ∷ spot_rest ↦ elim s.future [
      | [] ↦ breaks
      | (fp, fv) ∷ future_rest ↦
          if gt (clean_residual s.available eps) d.nil
          then entry_body request amount sp sv spot_rest fp fv future_rest s
          else breaks
    ]
  ]

  abbrev nothing_done : EntryResult F
  nothing_done = record {
    spot_orders = [];
    future_orders = [];
    max_price = record { spot = fl.zero_f; future = fl.zero_f };
    executed = fl.zero_f;
    completed = false;
    profit_percent = fl.zero_f;
  }

  unfoldable pub entry_result : EntryRequest F → EntryState F D → EntryResult F
  entry_result request s =
      let profit = d.sub s.total_future s.total_spot in
      let profit_percent =
        if gt s.total_spot d.nil then d.mul (d.div profit s.total_spot) hundred_d else d.nil in
      let limit = find_max_price fl request.spot_orders request.future_orders request.percent in
      if eq (clean_residual s.qty eps) d.nil then nothing_done else record {
        spot_orders = s.spot_results;
        future_orders = s.future_results;
        max_price = record {
          spot = price_or_zero fl limit (λ m. m.spot);
          future = price_or_zero fl limit (λ m. m.future);
        };
        executed = fl.to_f64 s.qty;
        completed = s.completed;
        profit_percent = fl.to_f64 profit_percent;
      }

  unfoldable pub do_entry_arbitrage : ℕ → EntryRequest F → Ends (EntryResult F)
  unfolding entry_result
  do_entry_arbitrage fuel request = unwrap (to_levels fl request.spot_orders) λ spot.
      unwrap (to_levels fl request.future_orders) λ future.
        unwrap (fl.from_f64 request.amount) λ amount.
          elim (while_rounds fuel (entry_step request amount) (record {
            spot = spot;
            future = future;
            total_spot = d.nil;
            total_future = d.nil;
            available = amount;
            spot_results = [];
            future_results = [];
            qty = d.nil;
            completed = false;
          })) [
            | returns s ↦ returns (entry_result request s)
            | panics ↦ panics
            | out_of_fuel ↦ out_of_fuel
          ]
