-- ===== src/Workers/Crossing/Keys.antt =====
-- The keys of the pairs that `cross_assets_all_exchanges` makes (src/main.rs): each has one list, which is not
-- empty.
use arbexpert_backend.Base.{
  ℕ, suc, ◌≡◌, ◌≢◌, ◌↔◌, refl, sym, ap, ap₂, ◌∙◌, fun_ext, String, Bool, true, false, not, ◌&&◌,
  none, some, List, [], ◌∷◌, ◌++◌, All, arith, str_eq, eq_iff, if◌then◌else◌, is_some, Option,
}
use arbexpert_backend.Std.BTreeMap.{BTreeMap}
use arbexpert_backend.Std.HashMap
use arbexpert_backend.Std.HashMap.{HashMap}
use arbexpert_backend.Startup.{Asset}
use arbexpert_backend.Workers.Crossing.{
  Exchange, Arbitrage, Listed, or_default, push_arbitrage, cross_spot, cross_spots, cross_entries,
  cross_assets, assets_of, list_exchanges,
}
use arbexpert_backend.Workers.Crossing.Pairs.{any, offered, cross_assets_exact}

-- What pushing a pair keeps, the pairs keep.
module _ (Q : HashMap (List Arbitrage) → Type 0)
    (pushes : (k : String) (x : Arbitrage) (m : HashMap (List Arbitrage))
      → Q m
      → Q (push_arbitrage k x m)) where
  cross_spot-keeps :
      (a : Asset) (fs : List Asset) (m : HashMap (List Arbitrage)) → Q m → Q (cross_spot a fs m)
  unfolding cross_spot
  cross_spot-keeps a [] m h = h
  cross_spot-keeps a (f ∷ fs) m h = cross_spot-keeps a fs _ (pushes a.symbol _ m h)

  cross_spots-keeps :
      (ss fs : List Asset) (m : HashMap (List Arbitrage)) → Q m → Q (cross_spots ss fs m)
  unfolding cross_spots
  cross_spots-keeps [] fs m h = h
  cross_spots-keeps (a ∷ ss) fs m h = cross_spots-keeps ss fs _ (cross_spot-keeps a fs m h)

  cross_entries-keeps :
      (es : BTreeMap String (List Listed)) (m : HashMap (List Arbitrage))
      → Q m
      → Q (cross_entries es m)
  unfolding cross_entries
  cross_entries-keeps [] m h = h
  cross_entries-keeps ((base, xs) ∷ rest) m h =
      cross_entries-keeps rest _ (cross_spots-keeps (assets_of true xs) (assets_of false xs) m h)

  cross_assets-keeps : (es : List Exchange) → Q [] → Q (cross_assets es)
  unfolding cross_assets
  cross_assets-keeps es h = cross_entries-keeps (list_exchanges es []) [] h

-- How many entries a map has for a key.
unfoldable pub entries_of : {V : Type 0} → String → HashMap V → ℕ
entries_of k [] = 0
entries_of k ((j, v) ∷ m) = let later = entries_of k m in if str_eq j k then suc later else later

-- No key has two entries.
abbrev pub IsMap : {V : Type 0} → HashMap V → Type 0
IsMap m = (k : String) → entries_of k m ≡ (if is_some (HashMap.get k m) then 1 else 0)

entries_of-insert :
    {V : Type 0} (k j : String) (v : V) (m : HashMap V)
    → entries_of k (HashMap.insert j v m) ≡ (
        if str_eq j k && not (is_some (HashMap.get j m))
        then suc (entries_of k m)
        else entries_of k m)
unfolding entries_of HashMap.insert HashMap.get
entries_of-insert k j v [] = ground arith
entries_of-insert k j v ((i, w) ∷ m) =
    ground (arith, entries_of-insert k j v m, eq_iff i j, eq_iff i k, eq_iff j k)

insert-IsMap :
    {V : Type 0} (j : String) (v : V) (m : HashMap V) → IsMap m → IsMap (HashMap.insert j v m)
insert-IsMap j v m h k =
    ground (arith, h k, h j, entries_of-insert k j v m, HashMap.get-insert k j v m, eq_iff j k)

pub cross_assets-IsMap : (es : List Exchange) → IsMap (cross_assets es)
unfolding entries_of HashMap.get push_arbitrage
cross_assets-IsMap es = cross_assets-keeps IsMap (λ k x m. insert-IsMap k _ m) es λ k. refl

abbrev Filled : HashMap (List Arbitrage) → Type 0
Filled = All λ e. e.1 ≢ []

append-filled : (xs : List Arbitrage) (x : Arbitrage) → xs ++ x ∷ [] ≢ []
append-filled [] x = λ e. ground arith
append-filled (y ∷ xs) x = λ e. ground arith

cross_assets-Filled : (es : List Exchange) → Filled (cross_assets es)
unfolding push_arbitrage
cross_assets-Filled es =
    cross_assets-keeps Filled
      (λ k x m h.
        HashMap.insert-All (λ xs. xs ≢ []) k _ m (append-filled (or_default (HashMap.get k m)) x) h)
      es tt

-- Some exchange lists a spot of the symbol `k` and a base `b`, and some exchange a future of that base,
-- both quoted in USDT.
abbrev pub Crosses : String → List Exchange → Type 0
Crosses k es =
    (b : String) × (offered (λ s. str_eq s.symbol k) true b es ≡ true)
    × (offered (λ f. true) false b es ≡ true)

crossed_at :
    (k b : String) (es : List Exchange)
    → any (λ x. str_eq x.future.base b) (or_default (HashMap.get k (cross_assets es)))
      ≡ (offered (λ s. str_eq s.symbol k) true b es && offered (λ f. true) false b es)
crossed_at k b es =
    ap (λ t. any t (or_default (HashMap.get k (cross_assets es)))) (fun_ext λ x. ground arith)
    ∙ cross_assets_exact (λ s. true) (λ f. true) k b es
    ∙ ap (λ r. offered r true b es && offered (λ f. true) false b es) (fun_ext λ s. ground arith)

abbrev FilledAt : Option (List Arbitrage) → Type 0
FilledAt none = Unit
FilledAt (some xs) = xs ≢ []

first_base :
    (o : Option (List Arbitrage))
    → FilledAt o
    → is_some o ≡ true
    → (b : String) × (any (λ x. str_eq x.future.base b) (or_default o) ≡ true)
unfolding any
first_base none f h = absurd (ground (arith, h))
first_base (some []) f h = absurd (f refl)
first_base (some (x ∷ xs)) f h = (x.future.base, ground (arith, eq_iff x.future.base x.future.base))

any-is_some :
    (p : Arbitrage → Bool) (o : Option (List Arbitrage))
    → any p (or_default o) ≡ true
    → is_some o ≡ true
unfolding any
any-is_some p none h = absurd (ground (arith, h))
any-is_some p (some xs) h = refl

-- A symbol has pairs just if such a spot and such a future are listed.
pub crossed_iff :
    (k : String) (es : List Exchange)
    → (is_some (HashMap.get k (cross_assets es)) ≡ true) ↔ Crosses k es
crossed_iff k es = (
  λ h.
      let filled =
        HashMap.get-All (λ xs. xs ≢ []) FilledAt (λ o. o) k (cross_assets es) tt (λ v f. f)
          (cross_assets-Filled es) in
      let (b, e) = first_base (HashMap.get k (cross_assets es)) filled h in
      let both = sym (crossed_at k b es) ∙ e in (b, ground (arith, both), ground (arith, both)),
  λ (b, p, q). any-is_some _ (HashMap.get k (cross_assets es)) (crossed_at k b es ∙ ap₂ ◌&&◌ p q),
)
