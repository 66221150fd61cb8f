-- ===== src/Std/StringOrd.antt =====
-- `impl Ord for str`: the lexicographic order that ordered maps with texts as keys use.
use Prim.Native.String.{compare}
use Prim.Native.String.compare
use text.Mathlib.TextPositions.{compare_refl}
use text.Mathlib.TextEquality.{path_by_compare}
use arbexpert_backend.Base.{String, ◌≡◌, arith, Ordering}
use arbexpert_backend.Std.BTreeMap.{Ord}

pub compare-flip : (s t : String) → compare s t ≡ Ordering.gt → compare t s ≡ Ordering.lt
compare-flip String.[] String.[] h = absurd (ground (arith, h, compare.nil-nil))
compare-flip String.[] (String.◌∷◌ d t) h = absurd (ground (arith, h, compare.nil-cons d t))
compare-flip (String.◌∷◌ c s) String.[] h = compare.nil-cons c s
compare-flip (String.◌∷◌ c s) (String.◌∷◌ d t) h =
    ground (arith, compare-flip s t, compare.cons-cons c d s t, compare.cons-cons d c t s)

pub compare_trans :
    (s t u : String)
    → compare s t ≡ Ordering.lt
    → compare t u ≡ Ordering.lt
    → compare s u ≡ Ordering.lt
compare_trans String.[] String.[] u h k = k
compare_trans String.[] (String.◌∷◌ d t) String.[] h k =
    absurd (ground (arith, k, compare.cons-nil d t))
compare_trans String.[] (String.◌∷◌ d t) (String.◌∷◌ e u) h k = compare.nil-cons e u
compare_trans (String.◌∷◌ c s) String.[] u h k = absurd (ground (arith, h, compare.cons-nil c s))
compare_trans (String.◌∷◌ c s) (String.◌∷◌ d t) String.[] h k =
    absurd (ground (arith, k, compare.cons-nil d t))
compare_trans (String.◌∷◌ c s) (String.◌∷◌ d t) (String.◌∷◌ e u) h k = ground (
  arith,
  compare_trans s t u,
  compare.cons-cons c d s t,
  compare.cons-cons d e t u,
  compare.cons-cons c e s u,
)

instance abbrev pub string_ord : Ord String
string_ord = record {
  cmp = compare;
  cmp_refl = compare_refl;
  cmp_eq = path_by_compare;
  cmp_flip = compare-flip;
  cmp_trans = compare_trans;
}
