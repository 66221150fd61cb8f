-- ===== src/Arbitrage/Spending.antt =====
-- What the loop of `do_entry_arbitrage` takes and what it adds up (src/arbitrage/entry.rs).
use arbexpert_backend.Base.{
  ℕ, false, some, ◌⊎◌, inl, inr, All-mono, ◌≡◌, refl, ap, ◌||◌, List, [], ◌∷◌, All, if_elim,
  if_split, subst, Option_split, arith,
}
use arbexpert_backend.Decimal.{Decimal, lt, gt, eq}
use arbexpert_backend.Arbitrage.{
  Float, EntryRequest, eps, clean_residual, add_fill, Round, breaks, panicked, goes, returns,
  while_rounds,
}
use arbexpert_backend.Arbitrage.Rounds.{while_rounds-keeps}
use arbexpert_backend.Arbitrage.Entry.{
  EntryState, entry_quantity, entry_round, entry_body, entry_step, spread, reduce_level,
}

-- A price of one of the levels.
abbrev pub Offers : {D : Type 0} → List (D × D) → D → Type 0
Offers [] price = ⊥
Offers ((p, v) ∷ levels) price = (price ≡ p) ⊎ Offers levels price

Offers-All : {D : Type 0} (levels : List (D × D)) → All (λ l. Offers levels l.0) levels
Offers-All [] = tt
Offers-All ((p, v) ∷ levels) = (
  inl refl,
  All-mono (λ l. Offers levels l.0) (λ l. Offers ((p, v) ∷ levels) l.0) (λ l h. inr h) levels
      (Offers-All levels),
)

-- A quantity that was bought on the spot side and sold on the future side.
pub record Fill (D : Type 0) : Type 0 where
  pub spot_price : D
  pub future_price : D
  pub quantity : D

module _ {F D : Type 0} ⦃d : Decimal D⦄ (fl : Float F D) where
  -- The state before the first round of the loop.
  abbrev pub before : D → List (D × D) → List (D × D) → EntryState F D
  before amount spot future = record {
    spot = spot;
    future = future;
    total_spot = d.nil;
    total_future = d.nil;
    available = amount;
    spot_results = [];
    future_results = [];
    qty = d.nil;
    completed = false;
  }

  -- The sum over the fills, of which the last one stands first.
  unfoldable pub sum_of : (Fill D → D) → List (Fill D) → D
  sum_of part [] = d.nil
  sum_of part (f ∷ fs) = d.add (sum_of part fs) (part f)

  -- What the fills leave of the amount.
  unfoldable pub left_of : D → List (Fill D) → D
  left_of amount [] = amount
  left_of amount (f ∷ fs) = d.sub (left_of amount fs) (d.mul f.spot_price f.quantity)

  -- The orders for the fills, at the prices of one side.
  unfoldable pub orders_of : (Fill D → D) → List (Fill D) → List (F × F)
  orders_of price [] = []
  orders_of price (f ∷ fs) =
      add_fill fl (fl.to_f64 (price f)) (fl.to_f64 f.quantity) (orders_of price fs)

  reduce_level-All :
      (P : D → Type 0) (q p v : D) (rest : List (D × D))
      → P p
      → All (λ l. P l.0) rest
      → All (λ l. P l.0) (reduce_level fl q p v rest)
  unfolding reduce_level
  reduce_level-All P q p v rest h k =
      if_elim (All (λ l. P l.0)) (eq (clean_residual (d.sub v q) eps) d.nil) rest
        ((p, d.sub v q) ∷ rest) k (h, k)

  module _ (request : EntryRequest F) (amount : D) (spot future : List (D × D)) where
    -- The prices of a fill are those of levels of the two sides, its spread reaches the requested
    -- percentage, and its quantity is no residue.
    abbrev pub IsWorth : Fill D → Type 0
    IsWorth f =
        Offers spot f.spot_price
        × Offers future f.future_price
        × (percent : D) × (fl.from_f64 request.percent ≡ some percent)
        × (lt (spread fl f.spot_price f.future_price) percent ≡ false)
        × (eq (clean_residual f.quantity eps) d.nil ≡ false)

    -- What the state adds up is that of fills that are worth it.
    pub record Ledger (s : EntryState F D) : Type 0 where
      pub fills : List (Fill D)
      pub worth : All IsWorth fills
      pub spot_prices : All (λ l. Offers spot l.0) s.spot
      pub future_prices : All (λ l. Offers future l.0) s.future
      pub total_spot : s.total_spot ≡ sum_of (λ f. d.mul f.spot_price f.quantity) fills
      pub total_future : s.total_future ≡ sum_of (λ f. d.mul f.future_price f.quantity) fills
      pub qty : s.qty ≡ sum_of (λ f. f.quantity) fills
      pub available : s.available ≡ left_of amount fills
      pub spot_results : s.spot_results ≡ orders_of (λ f. f.spot_price) fills
      pub future_results : s.future_results ≡ orders_of (λ f. f.future_price) fills

    before-Ledger : Ledger (before amount spot future)
    unfolding sum_of left_of orders_of
    before-Ledger = record {
      fills = [];
      worth = tt;
      spot_prices = Offers-All spot;
      future_prices = Offers-All future;
      total_spot = refl;
      total_future = refl;
      qty = refl;
      available = refl;
      spot_results = refl;
      future_results = refl;
    }

    round-Ledger :
        (margin size sp sv : D) (spot_rest : List (D × D)) (fp fv : D) (future_rest : List (D × D))
        (s : EntryState F D)
        → IsWorth (record {
          spot_price = sp;
          future_price = fp;
          quantity = entry_quantity fl size s.available sp sv fv;
        })
        → All (λ l. Offers spot l.0) spot_rest
        → All (λ l. Offers future l.0) future_rest
        → Ledger s
        → Ledger (entry_round fl amount margin size sp sv spot_rest fp fv future_rest s)
    unfolding entry_round sum_of left_of orders_of
    round-Ledger margin size sp sv spot_rest fp fv future_rest s w sh fh l =
        let q = entry_quantity fl size s.available sp sv fv in
        record {
          fills = record { spot_price = sp; future_price = fp; quantity = q } ∷ l.fills;
          worth = (w, l.worth);
          spot_prices = reduce_level-All (Offers spot) q sp sv spot_rest w.0 sh;
          future_prices = reduce_level-All (Offers future) q fp fv future_rest w.1 fh;
          total_spot = ap (λ x. d.add x (d.mul sp q)) l.total_spot;
          total_future = ap (λ x. d.add x (d.mul fp q)) l.total_future;
          qty = ap (λ x. d.add x q) l.qty;
          available = ap (λ x. d.sub x (d.mul sp q)) l.available;
          spot_results = ap (add_fill fl (fl.to_f64 sp) (fl.to_f64 q)) l.spot_results;
          future_results = ap (add_fill fl (fl.to_f64 fp) (fl.to_f64 q)) l.future_results;
        }

    abbrev Kept : Round (EntryState F D) → Type 0
    Kept breaks = Unit
    Kept panicked = Unit
    Kept (goes t) = Ledger t

    body-Ledger :
        (sp sv : D) (spot_rest : List (D × D)) (fp fv : D) (future_rest : List (D × D))
        (s : EntryState F D)
        → All (λ l. Offers spot l.0) ((sp, sv) ∷ spot_rest)
        → All (λ l. Offers future l.0) ((fp, fv) ∷ future_rest)
        → Ledger s
        → Kept (entry_body fl request amount sp sv spot_rest fp fv future_rest s)
    unfolding entry_body
    body-Ledger sp sv spot_rest fp fv future_rest s sh fh l =
        Option_split Kept (fl.from_f64 request.contract_size) _ _ (λ e. tt)
          λ size e. if_elim Kept (eq (clean_residual (spread fl sp fp) eps) d.nil) _ _ tt (
            Option_split Kept (fl.from_f64 request.percent) _ _ (λ e. tt)
              λ percent e.
                if_split Kept
                  (lt (spread fl sp fp) percent
                    || eq (clean_residual (entry_quantity fl size s.available sp sv fv) eps) d.nil)
                  _ _ (λ h. tt)
                  λ h.
                    Option_split Kept (fl.from_f64 request.margin_quantity_percent) _ _ (λ e. tt)
                      λ margin m.
                        round-Ledger margin size sp sv spot_rest fp fv future_rest s
                          (sh.0, fh.0, percent, e, ground (arith, h), ground (arith, h)) sh.1 fh.1
                          l)

    step-Ledger :
        (s : EntryState F D) (spots futures : List (D × D))
        → Ledger (record s { spot = spots; future = futures })
        → Kept (entry_step fl request amount (record s { spot = spots; future = futures }))
    unfolding entry_step
    step-Ledger s [] futures l = tt
    step-Ledger s (x ∷ spots) [] l = tt
    step-Ledger s ((sp, sv) ∷ spots) ((fp, fv) ∷ futures) l =
        if_elim Kept (gt (clean_residual s.available eps) d.nil) _ _
          (body-Ledger sp sv spots fp fv futures
            (record s { spot = (sp, sv) ∷ spots; future = (fp, fv) ∷ futures }) l.spot_prices
            l.future_prices l)
          tt

    -- Whenever the loop of `do_entry_arbitrage` returns, there are fills, each at a price of a level
    -- of either side, with a spread that is not below the requested percentage and a quantity that
    -- is no residue, and the totals of both sides, the quantity, what is left of the amount and the
    -- orders of both sides are those of the fills, added up in their order: nothing else is spent
    -- or ordered. The decimals need no laws.
    pub entry_spends :
        (fuel : ℕ) (t : EntryState F D)
        → while_rounds fuel (entry_step fl request amount) (before amount spot future) ≡ returns t
        → Ledger t
    entry_spends fuel t h =
        while_rounds-keeps (entry_step fl request amount) Ledger
          (λ u v l e. subst Kept e (step-Ledger u u.spot u.future l)) fuel
          (before amount spot future) t before-Ledger h
