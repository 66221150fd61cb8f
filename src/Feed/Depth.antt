-- ===== src/Feed/Depth.antt =====
-- The snapshots of a book that the exchanges serve over HTTP: `process_gate_depth` of
-- src/exchange/gate/public/sub_client.rs and `process_binance_depth` of
-- src/exchange/binance/public/sub_client.rs. The answers to the requests are an argument, the n-th
-- request's at n: `none` where the request or the decoding fails. The rate limiter only delays.
pub mod Laws
use arbexpert_backend.Base.{
  ℕ, zero, suc, ◌+◌, Option, none, some, List, [], ◌∷◌, true, false, ltb, if◌then◌else◌, map,
}
use arbexpert_backend.Std.BTreeMap.{Ord, BTreeMap, reverse, reverse_ord, insert}
use arbexpert_backend.Decimal.{Decimal, decimal_ord}
use arbexpert_backend.OrderBook.{OrderBook, empty_book}

pub record Snapshot (D : Type 0) : Type 0 where
  pub id : ℕ
  pub bids : List (D × D)
  pub asks : List (D × D)

-- `collect` into a `BTreeMap`: the entries are inserted from the first to the last.
unfoldable pub collect : {K V : Type 0} ⦃o : Ord K⦄ → List (K × V) → BTreeMap K V → BTreeMap K V
collect [] m = m
collect ((k, v) ∷ es) m = collect es (insert k v m)

-- How the loops end: with a book, with an error, or not within the fuel.
pub data Depth (D : Type 0) : Type 0 where
  got : OrderBook D → Depth D
  failed stuck : Depth D

module _ {D : Type 0} ⦃d : Decimal D⦄ where
  unfoldable pub to_book : Snapshot D → OrderBook D
  unfolding collect
  to_book s = record {
    bids = collect (map (λ e. (reverse e.0, e.1)) s.bids) [];
    asks = collect s.asks [];
    update_id = s.id;
  }

  -- The loop of `process_gate_depth`: `left` of its five tries are left, `n` requests were made.
  unfoldable pub gate_loop : ℕ → ℕ → (ℕ → Option (Snapshot D)) → ℕ → OrderBook D → Depth D
  gate_loop zero initial answers n book = if ltb book.update_id initial then failed else got book
  gate_loop (suc left) initial answers n book =
      let rest : Depth D = elim (answers n) [
        | none ↦ failed
        | some s ↦ gate_loop left initial answers (n + 1) (to_book s)
      ] in
      if ltb book.update_id initial then rest else got book

  unfoldable pub process_gate_depth : ℕ → (ℕ → Option (Snapshot D)) → Depth D
  unfolding gate_loop
  process_gate_depth initial answers = gate_loop 5 initial answers 0 empty_book

  -- The loop of `process_binance_depth`, which has no bound of its own.
  unfoldable pub binance_loop : ℕ → ℕ → (ℕ → Option (Snapshot D)) → ℕ → Snapshot D → Depth D
  binance_loop zero initial answers n last = stuck
  binance_loop (suc fuel) initial answers n last =
      let rest : Depth D = elim (answers n) [
        | none ↦ failed
        | some s ↦ binance_loop fuel initial answers (n + 1) s
      ] in
      if ltb last.id initial then rest else got (to_book last)

  unfoldable pub process_binance_depth : ℕ → ℕ → (ℕ → Option (Snapshot D)) → Depth D
  unfolding binance_loop
  process_binance_depth fuel initial answers =
      binance_loop fuel initial answers 0 (record { id = 0; bids = []; asks = [] })
