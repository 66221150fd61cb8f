-- ===== src/Mexc/Symbols.antt =====
-- `fetch_symbols` of src/exchange/mexc/public/symbols.rs, on the map that all threads share. It holds the
-- lock of the map until it ends, so that a panic leaves the lock poisoned, in a build that unwinds.
use Prim.Native.String.{◌++◌}
use arbexpert_backend.Base.{
  String, ◌≡◌, refl, ap, ◌∙◌, Bool, true, false, Option, none, some, List, [], ◌∷◌, arith, eq_iff,
  str_eq, if◌then◌else◌, if_true, if_false, elim_none,
}
use arbexpert_backend.Std.BTreeMap
use arbexpert_backend.Std.BTreeMap.{BTreeMap, get-insert, at_key}
use arbexpert_backend.Std.HashMap
use arbexpert_backend.Std.HashMap.{HashMap}
use arbexpert_backend.Std.StringOrd.{string_ord}
use arbexpert_backend.Requests.{Answer, request_fails, body_fails, not_utf8, not_json, json}

pub record SymbolItem : Type 0 where
  pub cd : String
  pub vn : String
  pub mcd : String
  pub image : String

pub record Item : Type 0 where
  pub id : String
  pub image : String

pub record SymbolEntry : Type 0 where
  pub id : String
  pub items : BTreeMap String Item

pub record SharedSymbols : Type 0 where
  pub symbols : HashMap SymbolEntry
  pub poisoned : Bool

-- How a call ends.
pub data Fetched : Type 0 where
  returns : HashMap SymbolEntry → Fetched
  errs : String → Fetched
  panics : Fetched

-- The inner loop.
unfoldable pub read_items : List SymbolItem → BTreeMap String Item → BTreeMap String Item
read_items [] m = m
read_items (i ∷ is) m =
    read_items is (BTreeMap.insert i.vn (record { id = i.cd; image = i.image }) m)

-- The body of the outer loop; `none` is the panic of `items[0]`.
unfoldable pub read_entry : List SymbolItem → Option SymbolEntry
read_entry [] = none
read_entry (i ∷ is) = some (record { id = i.mcd; items = read_items (i ∷ is) [] })

unfoldable pub read_symbols :
    HashMap (List SymbolItem) → HashMap SymbolEntry → Option (HashMap SymbolEntry)
read_symbols [] m = some m
read_symbols ((name, items) ∷ rest) m = elim (read_entry items) [
  | none ↦ none
  | some e ↦ read_symbols rest (HashMap.insert name e m)
]

abbrev pub is_empty : HashMap SymbolEntry → Bool
is_empty [] = true
is_empty (e ∷ m) = false

-- What the request comes to.
unfoldable pub read_answer :
    Answer (HashMap (List SymbolItem)) → SharedSymbols → SharedSymbols × Fetched
read_answer (request_fails e) s = (s, errs e)
read_answer (body_fails e) s = (s, errs ("Failed to read body: " ++ e))
read_answer (not_utf8 e) s = (s, errs e)
read_answer (not_json e) s = (s, errs e)
read_answer (json symbols) s = elim (read_symbols symbols []) [
  | none ↦ (record s { poisoned = true }, panics)
  | some m ↦ (record s { symbols = m }, returns m)
]

unfoldable pub fetch_symbols :
    Answer (HashMap (List SymbolItem)) → SharedSymbols → SharedSymbols × Fetched
fetch_symbols answer s =
    if s.poisoned
    then (s, panics)
    else if is_empty s.symbols
    then read_answer answer s
    else (s, returns s.symbols)

-- The last item with a name.
pub last_item : String → List SymbolItem → Option Item → Option Item
last_item k [] old = old
last_item k (i ∷ is) old =
    last_item k is (if str_eq i.vn k then some (record { id = i.cd; image = i.image }) else old)

pub get-read_items :
    (k : String) (is : List SymbolItem) (m : BTreeMap String Item)
    → BTreeMap.get k (read_items is m) ≡ last_item k is (BTreeMap.get k m)
unfolding read_items last_item
get-read_items k [] m = refl
get-read_items k (i ∷ is) m =
    let x : Item = record { id = i.cd; image = i.image } in
    get-read_items k is (BTreeMap.insert i.vn x m)
    ∙ ap (last_item k is) (
        get-insert k i.vn x m
        ∙ ground (arith, eq_iff i.vn k, string_ord.cmp_eq k i.vn, string_ord.cmp_refl k))

-- An empty list of items anywhere in the answer, where the map is empty, makes the call panic, and
-- every later one with it, whatever its answer would be.
pub fetch_symbols_poisons :
    (symbols : HashMap (List SymbolItem)) (later : Answer (HashMap (List SymbolItem)))
    (s : SharedSymbols)
    → read_symbols symbols [] ≡ none
    → s.poisoned ≡ false
    → is_empty s.symbols ≡ true
    → ((fetch_symbols (json symbols) s).1 ≡ panics)
      × ((fetch_symbols later (fetch_symbols (json symbols) s).0).1 ≡ panics)
unfolding fetch_symbols read_answer
fetch_symbols_poisons symbols later s h p e =
    let first : fetch_symbols (json symbols) s ≡ (record s { poisoned = true }, panics) =
      if_false _ _ _ p ∙ if_true _ _ _ e ∙ elim_none _ _ _ h in
    (ap (λ r. r.1) first, ap (λ r. (fetch_symbols later r.0).1) first)
