-- ===== src/Decimal.antt =====
-- The crate `rust_decimal` is not part of the repository: its type and the operations that the
-- program calls are an argument of the model. Decimals that compare equal (1.0 and 1.00) are one
-- value. An operation that would overflow and a division by zero panic in the crate; the model does
-- not reach past that: its operations are total.
pub mod Order
use arbexpert_backend.Base.{ℕ, Bool, true, false, Ordering}
use arbexpert_backend.Std.BTreeMap.{Ord}

pub record Decimal (D : Type 0) : Type 0 where
  pub order : Ord D
  -- `Decimal::ZERO`, and `Decimal::new(num, scale)`, which is num / 10 ^ scale.
  pub nil : D
  pub new : ℕ → ℕ → D
  pub add : D → D → D
  pub sub : D → D → D
  pub mul : D → D → D
  pub div : D → D → D
  pub abs : D → D
  pub trunc_with_scale : D → ℕ → D

instance abbrev pub decimal_ord : {D : Type 0} ⦃d : Decimal D⦄ → Ord D
decimal_ord ⦃d⦄ = d.order

module _ {D : Type 0} ⦃d : Decimal D⦄ where
  -- The comparisons, all from the one order.
  abbrev pub lt : D → D → Bool
  lt a b = elim (d.order.cmp a b) [ Ordering.lt ↦ true | _ ↦ false ]

  abbrev pub gt : D → D → Bool
  gt a b = elim (d.order.cmp a b) [ Ordering.gt ↦ true | _ ↦ false ]

  abbrev pub eq : D → D → Bool
  eq a b = elim (d.order.cmp a b) [ Ordering.eq ↦ true | _ ↦ false ]

  -- `Ord::min`: the first argument on equality.
  abbrev pub min : D → D → D
  min a b = elim (d.order.cmp a b) [ Ordering.gt ↦ b | _ ↦ a ]
