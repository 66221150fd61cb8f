-- ===== src/Workers/Commands.antt =====
-- The JSON of the requests to a worker: `StartMonitor` of src/worker/commands.rs, the pairs of src/main.rs and
-- their assets of src/base/exchange/assets.rs. A JSON object is the record of its fields, `none` for
-- one of another form; the JSON of a snapshot is an argument.
use arbexpert_backend.Base.{
  String, ◌≡◌, refl, sym, ◌∙◌, subst, Option, none, some, List, [], ◌∷◌, map, elim_some,
  Option-cases, inl, inr, arith,
}
use mathlib.Core.Option.{some-injective}
use arbexpert_backend.Feed.{MarketType}
use arbexpert_backend.Startup.{Asset}

-- A pair with its snapshot.
pub record Watched (S : Type 0) : Type 0 where
  pub spot : Asset
  pub future : Asset
  pub snapshot : S

-- The fields of an asset that are written: `symbol` is skipped.
pub record AssetJson : Type 0 where
  pub base : String
  pub quote : String
  pub market : MarketType
  pub exchange : String

pub record WatchedJson (J : Type 0) : Type 0 where
  pub spot : AssetJson
  pub future : AssetJson
  pub snapshot : J

unfoldable pub write_asset : Asset → AssetJson
write_asset a = record { base = a.base; quote = a.quote; market = a.market; exchange = a.exchange }

-- A skipped field is read as its default.
unfoldable pub read_asset : AssetJson → Asset
read_asset j = record {
  symbol = "";
  base = j.base;
  quote = j.quote;
  market = j.market;
  exchange = j.exchange;
}

module _ {S J : Type 0} (write : S → Option J) (read : J → Option S) where
  -- An element of the sequence; the cell of the snapshot is loaded, and made anew.
  unfoldable pub write_item : Watched S → Option (WatchedJson J)
  write_item a = elim (write a.snapshot) [
    | none ↦ none
    | some j ↦
        some (record { spot = write_asset a.spot; future = write_asset a.future; snapshot = j })
  ]

  unfoldable pub read_item : WatchedJson J → Option (Watched S)
  read_item j = elim (read j.snapshot) [
    | none ↦ none
    | some s ↦
        some (record { spot = read_asset j.spot; future = read_asset j.future; snapshot = s })
  ]

  -- `serialize`, with `?` on each element.
  unfoldable pub serialize : List (Watched S) → Option (List (WatchedJson J))
  serialize [] = some []
  serialize (a ∷ items) = elim (write_item a) [
    | none ↦ none
    | some j ↦ elim (serialize items) [ none ↦ none | some js ↦ some (j ∷ js) ]
  ]

  unfoldable pub deserialize : List (WatchedJson J) → Option (List (Watched S))
  deserialize [] = some []
  deserialize (j ∷ js) = elim (read_item j) [
    | none ↦ none
    | some a ↦ elim (deserialize js) [ none ↦ none | some items ↦ some (a ∷ items) ]
  ]

  -- A pair whose assets have lost their symbols.
  pub without_symbols : Watched S → Watched S
  without_symbols a = record a {
    spot = record (a.spot) { symbol = "" };
    future = record (a.future) { symbol = "" };
  }

  read-write_item :
      ((s : S) (j : J) → write s ≡ some j → read j ≡ some s)
      → (a : Watched S) (j : WatchedJson J) → write_item a ≡ some j
      → read_item j ≡ some (without_symbols a)
  unfolding write_item read_item write_asset read_asset without_symbols
  read-write_item inverse a j e = elim (Option-cases (write a.snapshot)) [
    | inl h ↦ absurd (ground (arith, h, e))
    | inr (s, h) ↦
        subst (λ x. read_item x ≡ some (without_symbols a))
          (some-injective _ _ (sym (elim_some (write a.snapshot) _ _ s h) ∙ e))
          (elim_some (read s) _ _ a.snapshot (inverse a.snapshot s h))
  ]

  -- Where a snapshot that is written is read back: what `StartMonitor` serialises to is deserialised
  -- to the same pairs in the same order, but with the symbols of their assets empty.
  pub deserialize-serialize :
      ((s : S) (j : J) → write s ≡ some j → read j ≡ some s)
      → (items : List (Watched S)) (js : List (WatchedJson J)) → serialize items ≡ some js
      → deserialize js ≡ some (map without_symbols items)
  unfolding serialize deserialize
  deserialize-serialize inverse [] js e =
      subst (λ x. deserialize x ≡ some []) (some-injective _ _ e) refl
  deserialize-serialize inverse (a ∷ items) js e = elim (Option-cases (write_item a)) [
    | inl h ↦ absurd (ground (arith, h, e))
    | inr (j, h) ↦ elim (Option-cases (serialize items)) [
      | inl k ↦ absurd (ground (arith, h, k, e))
      | inr (rest, k) ↦
          subst (λ x. deserialize x ≡ some (map without_symbols (a ∷ items)))
            (some-injective _ _
              (sym (elim_some (write_item a) _ _ j h ∙ elim_some (serialize items) _ _ rest k) ∙ e))
            (elim_some (read_item j) _ _ _ (read-write_item inverse a j h)
              ∙ elim_some (deserialize rest) _ _ _ (deserialize-serialize inverse items rest k))
    ]
  ]
