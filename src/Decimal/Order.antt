-- ===== src/Decimal/Order.antt =====
-- The comparisons of decimals: `lt b a ≡ false` is a ≤ b.
use arbexpert_backend.Base.{◌≡◌, ◌⊎◌, false, Ordering, arith}
use arbexpert_backend.Decimal.{Decimal, lt, min}

module _ {D : Type 0} ⦃d : Decimal D⦄ where
  pub cmp_gt : (a b : D) → d.order.cmp a b ≡ Ordering.lt → d.order.cmp b a ≡ Ordering.gt
  cmp_gt a b h =
      ground (
        arith,
        d.order.cmp_trans a b a h,
        d.order.cmp_eq b a,
        d.order.cmp_refl a,
        d.order.cmp_refl b,
      )

  pub le_trans : (a b c : D) → lt b a ≡ false → lt c b ≡ false → lt c a ≡ false
  le_trans a b c h k = ground (
    arith,
    cmp_gt c a,
    d.order.cmp_flip b a,
    d.order.cmp_flip c b,
    d.order.cmp_flip a b,
    d.order.cmp_flip b c,
    d.order.cmp_trans a b c,
    d.order.cmp_trans c a b,
    d.order.cmp_eq b a,
    d.order.cmp_eq c b,
    cmp_gt a b,
    cmp_gt b c,
    d.order.cmp_refl b,
  )

  pub min-le_left : (a b : D) → lt a (min a b) ≡ false
  min-le_left a b = ground (arith, d.order.cmp_refl a, cmp_gt a b)

  pub min-le_right : (a b : D) → lt b (min a b) ≡ false
  min-le_right a b = ground (arith, d.order.cmp_refl b, cmp_gt b a)

  pub min_cases : (a b : D) → (min a b ≡ a) ⊎ (min a b ≡ b)
  min_cases a b = ground arith
