-- ===== src/Mexc/Start.antt =====
-- The start of Mexc (src/exchange/mexc/public/constructor.rs): the clock that all threads share, and the
-- list of symbols, of which an error leaves none.
use arbexpert_backend.Base.{
  ℕ, ◌≡◌, refl, Bool, false, not, ◌&&◌, ◌||◌, Option, none, some, List, [], ◌==◌, if◌then◌else◌,
  is_some, arith,
}
use arbexpert_backend.Std.HashMap.{HashMap}
use arbexpert_backend.Requests.{
  ExchangeError, Answer, request_fails, body_fails, not_utf8, not_json, json,
}
use arbexpert_backend.Startup.{time_request_error, server_time, time_offset_of, i64_max}
use arbexpert_backend.Mexc.Symbols.{
  SymbolItem, SymbolEntry, SharedSymbols, Fetched, returns, errs, panics, fetch_symbols,
  read_answer, read_symbols, is_empty,
}

-- `sync_time`, on the offset of all threads and that of the exchange; `none` is `Ok(())`.
unfoldable pub mexc_sync_time : Answer (Option ℕ) → ℕ → ℕ → ℕ → Option ExchangeError × ℕ × ℕ
mexc_sync_time answer local shared own =
    if shared == i64_max
    then elim (time_request_error answer) [
      | some e ↦ (some e, shared, own)
      | none ↦ let offset = time_offset_of (server_time answer) local in (none, offset, offset)
    ]
    else (none, shared, shared)

-- What all threads share.
pub record MexcStatics : Type 0 where
  pub time_offset : ℕ
  pub symbols : SharedSymbols

-- What `new` sets of `public`.
pub record MexcPublic : Type 0 where
  pub symbols : HashMap SymbolEntry
  pub time_offset_ms : ℕ

-- `unwrap_or_default` of the symbols; `none` is the panic.
abbrev pub symbols_or_none : Fetched → Option (HashMap SymbolEntry)
symbols_or_none (returns m) = some m
symbols_or_none (errs e) = some []
symbols_or_none panics = none

-- `new`, with what its two requests come to; `none` is a panic.
unfoldable pub mexc_new :
    Answer (Option ℕ)
    → ℕ
    → Answer (HashMap (List SymbolItem))
    → MexcStatics
    → MexcStatics × Option MexcPublic
mexc_new time local items s =
    let synced = mexc_sync_time time local s.time_offset 0 in
    let fetched = fetch_symbols items s.symbols in
    (
      record { time_offset = synced.1; symbols = fetched.0 },
      elim (symbols_or_none fetched.1) [
        | none ↦ none
        | some m ↦ some (record { symbols = m; time_offset_ms = synced.2 })
      ],
    )

-- Whether an answer has a symbol without items.
abbrev pub has_empty : Answer (HashMap (List SymbolItem)) → Bool
has_empty (json symbols) = not (is_some (read_symbols symbols []))
has_empty _ = false

is_some-read_answer :
    (items : Answer (HashMap (List SymbolItem))) (s : SharedSymbols)
    → is_some (symbols_or_none (read_answer items s).1) ≡ not (has_empty items)
unfolding read_answer
is_some-read_answer (request_fails e) s = refl
is_some-read_answer (body_fails e) s = refl
is_some-read_answer (not_utf8 e) s = refl
is_some-read_answer (not_json e) s = refl
is_some-read_answer (json symbols) s = ground arith

-- A start of Mexc returns just if the lock of the symbols is sound and either symbols are there or no
-- symbol of the answer is without items; whether its clock was set does not matter.
pub mexc_new_returns :
    (time : Answer (Option ℕ)) (local : ℕ) (items : Answer (HashMap (List SymbolItem)))
    (s : MexcStatics)
    → is_some (mexc_new time local items s).1
      ≡ (not s.symbols.poisoned && (not (is_empty s.symbols.symbols) || not (has_empty items)))
unfolding mexc_new fetch_symbols
mexc_new_returns time local items s = ground (arith, is_some-read_answer items s.symbols)
