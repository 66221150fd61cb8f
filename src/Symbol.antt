-- ===== src/Symbol.antt =====
-- The names of trading pairs: `normalize_symbol` of src/exchange/gate/utils.rs and
-- src/exchange/binance/utils.rs, and the names that src/worker/monitor.rs builds.
use Prim.Native.String.{◌++◌}
use text.Mathlib.TextLemmas.{append-nil, nil-append}
use arbexpert_backend.Base.{String, ◌≡◌, refl, ap, ap₂, ◌∙◌, Bool, true, false, arith}
use arbexpert_backend.Std.Text.{
  contains, before, replace, before-append, before_absent, replace-append, replace_absent,
  contains-append,
}

-- A future's name has a colon.
abbrev pub is_future_symbol : String → Bool
is_future_symbol symbol = contains b':' symbol

unfoldable pub gate_normalize_symbol : String → String
gate_normalize_symbol symbol = replace b'/' "_" (before b':' symbol)

unfoldable pub binance_normalize_symbol : String → String
binance_normalize_symbol symbol = replace b'/' "" (before b':' symbol)

-- `format!("{}/{}")` and `format!("{}/{}:USDT")` in `start_monitor`.
unfoldable pub spot_symbol : String → String → String
spot_symbol base quote = base ++ ("/" ++ quote)

unfoldable pub future_symbol : String → String → String
future_symbol base quote = base ++ ("/" ++ (quote ++ ":USDT"))

-- The part of a name that an exchange is asked for: neither half has a `:` or a `/`.
pub record IsAsset (s : String) : Type 0 where
  pub no_colon : contains b':' s ≡ false
  pub no_slash : contains b'/' s ≡ false

slash : contains b':' "/" ≡ false
unfolding contains
slash = refl

before-usdt : before b':' ":USDT" ≡ ""
unfolding before
before-usdt = refl

colon-usdt : contains b':' ":USDT" ≡ true
unfolding contains
colon-usdt = refl

replace-slash : (w : String) → replace b'/' w "/" ≡ w
unfolding replace
replace-slash w = append-nil w

module _ (base quote : String) (b : IsAsset base) (q : IsAsset quote) where
  before-spot : before b':' (spot_symbol base quote) ≡ base ++ ("/" ++ quote)
  unfolding spot_symbol
  before-spot =
      before-append b':' base ("/" ++ quote) b.no_colon
      ∙ ap (◌++◌ base)
          (before-append b':' "/" quote slash ∙ ap (◌++◌ "/") (before_absent b':' quote q.no_colon))

  before-future : before b':' (future_symbol base quote) ≡ base ++ ("/" ++ quote)
  unfolding future_symbol
  before-future =
      before-append b':' base ("/" ++ (quote ++ ":USDT")) b.no_colon
      ∙ ap (◌++◌ base) (
          before-append b':' "/" (quote ++ ":USDT") slash
          ∙ ap (◌++◌ "/") (
              before-append b':' quote ":USDT" q.no_colon
              ∙ ap (◌++◌ quote) before-usdt
              ∙ append-nil quote))

  colon-spot : is_future_symbol (spot_symbol base quote) ≡ false
  unfolding spot_symbol
  colon-spot = ground (
    arith,
    b.no_colon,
    q.no_colon,
    slash,
    contains-append b':' base ("/" ++ quote),
    contains-append b':' "/" quote,
  )

  colon-future : is_future_symbol (future_symbol base quote) ≡ true
  unfolding future_symbol
  colon-future = ground (
    arith,
    colon-usdt,
    contains-append b':' base ("/" ++ (quote ++ ":USDT")),
    contains-append b':' "/" (quote ++ ":USDT"),
    contains-append b':' quote ":USDT",
  )

  pub replaced : (w : String) → replace b'/' w (base ++ ("/" ++ quote)) ≡ base ++ (w ++ quote)
  replaced w =
      replace-append b'/' w base ("/" ++ quote)
      ∙ ap₂ ◌++◌ (replace_absent b'/' w base b.no_slash) (
          replace-append b'/' w "/" quote
          ∙ ap₂ ◌++◌ (replace-slash w) (replace_absent b'/' w quote q.no_slash))

  -- Where neither asset's name has a `:` or a `/`: the spot pair and the future of the two have
  -- one name at an exchange, the two assets joined by `_` at Gate and by nothing at Binance; and
  -- the colon tells the markets apart.
  pub normalize_pair :
      (gate_normalize_symbol (spot_symbol base quote) ≡ base ++ ("_" ++ quote))
      × (gate_normalize_symbol (future_symbol base quote) ≡ base ++ ("_" ++ quote))
      × (binance_normalize_symbol (spot_symbol base quote) ≡ base ++ quote)
      × (binance_normalize_symbol (future_symbol base quote) ≡ base ++ quote)
      × (is_future_symbol (spot_symbol base quote) ≡ false)
      × (is_future_symbol (future_symbol base quote) ≡ true)
  unfolding gate_normalize_symbol binance_normalize_symbol
  normalize_pair = (
    ap (replace b'/' "_") before-spot ∙ replaced "_",
    ap (replace b'/' "_") before-future ∙ replaced "_",
    ap (replace b'/' "") before-spot ∙ replaced "" ∙ ap (◌++◌ base) (nil-append quote),
    ap (replace b'/' "") before-future ∙ replaced "" ∙ ap (◌++◌ base) (nil-append quote),
    colon-spot,
    colon-future,
  )
