-- ===== src/Tests.antt =====
-- The decimals and floats that the tests run on: natural numbers, the decimals in hundredths.
pub mod Books
pub mod Client
pub mod Feeds
pub mod Trading
pub mod Staff
pub mod Sockets
pub mod Batches
pub mod Starting
pub mod Entering
pub mod Signing
use Prim.Native.Nat.{compare}
use arbexpert_backend.Base.{ℕ, ◌+◌, ◌-◌, ◌*◌, ◌/◌, ◌%◌, ◌^◌, ◌≡◌, some, ltb, arith}
use arbexpert_backend.Std.BTreeMap.{Ord}
use arbexpert_backend.Decimal.{Decimal}
use arbexpert_backend.Arbitrage.{Float}

abbrev nat_ord : Ord ℕ
nat_ord = record {
  cmp = compare;
  cmp_refl = λ a. ground arith;
  cmp_eq = λ a b h. ground arith;
  cmp_flip = λ a b h. ground arith;
  cmp_trans = λ a b c h k. ground arith;
}

instance abbrev pub nat_decimal : Decimal ℕ
nat_decimal = record {
  order = nat_ord;
  nil = 0;
  new = λ n scale. n * 100 / 10 ^ scale;
  add = λ a b. a + b;
  sub = λ a b. a - b;
  mul = λ a b. a * b / 100;
  div = λ a b. a * 100 / b;
  abs = λ a. a;
  trunc_with_scale = λ a scale. a;
}

abbrev pub nat_float : Float ℕ ℕ
nat_float = record {
  zero_f = 0;
  infinity = 1000000;
  epsilon = 1;
  one = 1;
  hundred = 100;
  add_f = λ a b. a + b;
  sub_f = λ a b. a - b;
  mul_f = λ a b. a * b;
  div_f = λ a b. a / b;
  abs_f = λ a. a;
  lt_f = ltb;
  from_f64 = λ a. some a;
  to_f64 = λ a. a;
}
