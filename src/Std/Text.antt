-- ===== src/Std/Text.antt =====
-- What the program uses of `str`: `contains` and `find` of a character, the text before it, and
-- `replace` of a character by a text.
use Prim.Native.Char.{code}
use Prim.Native.String.{◌++◌}
use text.Mathlib.TextEquality.{codes_equal}
use text.Mathlib.TextLemmas.{cons-append, nil-append, append_assoc}
use arbexpert_backend.Base.{
  ℕ, String, ◌≡◌, refl, sym, ap, ◌∙◌, Bool, true, false, ◌||◌, ◌&&◌, ◌==◌, arith, if◌then◌else◌,
  Bool-cases, inl, inr,
}

unfoldable pub contains : ℕ → String → Bool
contains k String.[] = false
contains k (String.◌∷◌ c s) = code c == k || contains k s

-- `match s.find(k) { Some(pos) => &s[..pos], None => s }`.
unfoldable pub before : ℕ → String → String
before k String.[] = String.[]
before k (String.◌∷◌ c s) = if code c == k then String.[] else String.◌∷◌ c (before k s)

unfoldable pub replace : ℕ → String → String → String
replace k w String.[] = String.[]
replace k w (String.◌∷◌ c s) =
    let rest = replace k w s in if code c == k then w ++ rest else String.◌∷◌ c rest

pub contains-append : (k : ℕ) (s t : String) → contains k (s ++ t) ≡ (contains k s || contains k t)
unfolding contains
contains-append k String.[] t = rw nil-append
contains-append k (String.◌∷◌ c s) t = rw cons-append (ground (arith, contains-append k s t))

pub before-append :
    (k : ℕ) (s t : String) → contains k s ≡ false → before k (s ++ t) ≡ s ++ before k t
unfolding contains before
before-append k String.[] t h = rw (nil-append, nil-append)
before-append k (String.◌∷◌ c s) t h =
    rw (cons-append, cons-append) (ground (arith, before-append k s t))

pub replace-append :
    (k : ℕ) (w s t : String) → replace k w (s ++ t) ≡ replace k w s ++ replace k w t
unfolding replace
replace-append k w String.[] t = rw (nil-append, nil-append)
replace-append k w (String.◌∷◌ c s) t = rw cons-append (elim (Bool-cases (code c == k)) [
  | inl e ↦ rw e (ap (◌++◌ w) (replace-append k w s t) ∙ sym (append_assoc w _ _))
  | inr e ↦ rw (e, cons-append) (ap (String.◌∷◌ c) (replace-append k w s t))
])

pub replace_absent : (k : ℕ) (w s : String) → contains k s ≡ false → replace k w s ≡ s
unfolding contains replace
replace_absent k w String.[] h = refl
replace_absent k w (String.◌∷◌ c s) h = ground (arith, replace_absent k w s)

pub contains-before : (k : ℕ) (s : String) → contains k (before k s) ≡ false
unfolding contains before
contains-before k String.[] = refl
contains-before k (String.◌∷◌ c s) = elim (Bool-cases (code c == k)) [
  | inl e ↦ rw e
  | inr e ↦ rw e (ground (arith, e, contains-before k s))
]

pub before_absent : (k : ℕ) (s : String) → contains k s ≡ false → before k s ≡ s
unfolding contains before
before_absent k String.[] h = refl
before_absent k (String.◌∷◌ c s) h = ground (arith, before_absent k s)

-- Replacing a character by a text without it leaves none.
pub contains-replace :
    (k : ℕ) (w s : String) → contains k w ≡ false → contains k (replace k w s) ≡ false
unfolding contains replace
contains-replace k w String.[] h = refl
contains-replace k w (String.◌∷◌ c s) h = elim (Bool-cases (code c == k)) [
  | inl e ↦ rw e (ground (arith, contains-append k w (replace k w s), contains-replace k w s h))
  | inr e ↦ rw e (ground (arith, e, contains-replace k w s h))
]

-- `str::starts_with` and `str::contains` of a text.
unfoldable pub starts_with : String → String → Bool
starts_with String.[] s = true
starts_with (String.◌∷◌ c p) String.[] = false
starts_with (String.◌∷◌ c p) (String.◌∷◌ d s) = code c == code d && starts_with p s

unfoldable pub contains_text : String → String → Bool
contains_text p String.[] = starts_with p String.[]
contains_text p (String.◌∷◌ c s) = starts_with p (String.◌∷◌ c s) || contains_text p s

-- `rsplit(k).next().unwrap()`: the text behind the last such character, or all of it.
unfoldable pub after_last : ℕ → String → String
after_last k String.[] = String.[]
after_last k (String.◌∷◌ c s) =
    let rest = after_last k s in
    if contains k s then rest else if code c == k then s else String.◌∷◌ c s

-- `splitn(2, k)`: what is behind the first such character, and the empty text where there is none.
unfoldable pub behind : ℕ → String → String
behind k String.[] = String.[]
behind k (String.◌∷◌ c s) = let rest = behind k s in if code c == k then s else rest

pub before-behind :
    (s : String) → contains b'_' s ≡ true → before b'_' s ++ ("_" ++ behind b'_' s) ≡ s
unfolding contains before behind
before-behind String.[] h = absurd (ground (arith, h))
before-behind (String.◌∷◌ c s) h = elim (Bool-cases (code c == b'_')) [
  | inl e ↦ rw e (
      nil-append ("_" ++ s)
      ∙ cons-append "_" "" s
      ∙ ap (String.◌∷◌ "_") (nil-append s)
      ∙ ap (λ d. String.◌∷◌ d s) (codes_equal "_" c (ground (arith, e))))
  | inr e ↦ rw (e, cons-append) (ap (String.◌∷◌ c) (before-behind s (ground (arith, e, h))))
]
