-- ===== src/Workers/Crossing.antt =====
-- The first part of `cross_assets_all_exchanges` of src/main.rs: which pairs of a spot and a future are
-- watched. The `HashMap` of the pairs is observed only as a map.
pub mod Pairs
pub mod Keys
use arbexpert_backend.Base.{
  String, Bool, true, false, Option, none, some, List, [], ◌∷◌, ◌++◌, str_eq, if◌then◌else◌,
}
use arbexpert_backend.Std.BTreeMap
use arbexpert_backend.Std.BTreeMap.{BTreeMap}
use arbexpert_backend.Std.HashMap
use arbexpert_backend.Std.HashMap.{HashMap}
use arbexpert_backend.Std.StringOrd.{string_ord}
use arbexpert_backend.Feed.{MarketType}
use arbexpert_backend.Startup.{Asset, Assets}

-- An exchange as the crossing sees it: `name()` and `assets().unwrap()`.
pub record Exchange : Type 0 where
  pub name : String
  pub assets : Assets

-- An entry of the map by base: the asset, the market of its list, and the exchange.
pub record Listed : Type 0 where
  pub asset : Asset
  pub market : MarketType
  pub exchange : String

-- A pair. Its snapshot is in Monitor.
pub record Arbitrage : Type 0 where
  pub spot : Asset
  pub future : Asset

abbrev pub or_default : {A : Type 0} → Option (List A) → List A
or_default none = []
or_default (some xs) = xs

-- `entry(k).or_default().push(x)` on either map.
unfoldable pub push_listed :
    String → Listed → BTreeMap String (List Listed) → BTreeMap String (List Listed)
push_listed k x m = BTreeMap.insert k (or_default (BTreeMap.get k m) ++ x ∷ []) m

unfoldable pub push_arbitrage :
    String → Arbitrage → HashMap (List Arbitrage) → HashMap (List Arbitrage)
push_arbitrage k x m = HashMap.insert k (or_default (HashMap.get k m) ++ x ∷ []) m

-- The loop over the values of one list of an exchange.
unfoldable pub list_assets :
    String
    → MarketType
    → BTreeMap String Asset
    → BTreeMap String (List Listed)
    → BTreeMap String (List Listed)
list_assets name market [] m = m
list_assets name market ((k, a) ∷ rest) m = list_assets name market rest (
    if str_eq a.quote "USDT"
    then push_listed a.base (record { asset = a; market = market; exchange = name }) m
    else m)

-- The loop over the exchanges.
unfoldable pub list_exchanges :
    List Exchange → BTreeMap String (List Listed) → BTreeMap String (List Listed)
list_exchanges [] m = m
list_exchanges (e ∷ es) m = list_exchanges es (
    list_assets e.name MarketType.future e.assets.future
      (list_assets e.name MarketType.spot e.assets.spot m))

abbrev pub is_spot : MarketType → Bool
is_spot MarketType.spot = true
is_spot MarketType.future = false

-- `spot_assets` and `future_assets` of the entries.
unfoldable pub assets_of : Bool → List Listed → List Asset
assets_of spot [] = []
assets_of spot (x ∷ xs) =
    let rest = assets_of spot xs in
    elim x.market [
      | MarketType.spot ↦ if spot then x.asset ∷ rest else rest
      | MarketType.future ↦ if spot then rest else x.asset ∷ rest
    ]

-- The loop over the futures for a spot, and the loop over the spots.
unfoldable pub cross_spot : Asset → List Asset → HashMap (List Arbitrage) → HashMap (List Arbitrage)
cross_spot spot [] m = m
cross_spot spot (f ∷ fs) m =
    cross_spot spot fs (push_arbitrage spot.symbol (record { spot = spot; future = f }) m)

unfoldable pub cross_spots :
    List Asset → List Asset → HashMap (List Arbitrage) → HashMap (List Arbitrage)
cross_spots [] fs m = m
cross_spots (s ∷ ss) fs m = cross_spots ss fs (cross_spot s fs m)

-- The loop over `symbol_map.values()`.
unfoldable pub cross_entries :
    BTreeMap String (List Listed) → HashMap (List Arbitrage) → HashMap (List Arbitrage)
cross_entries [] m = m
cross_entries ((base, xs) ∷ rest) m =
    cross_entries rest (cross_spots (assets_of true xs) (assets_of false xs) m)

-- `arbitrages`, by the symbol of the spot.
unfoldable pub cross_assets : List Exchange → HashMap (List Arbitrage)
cross_assets exchanges = cross_entries (list_exchanges exchanges []) []
