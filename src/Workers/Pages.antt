-- ===== src/Workers/Pages.antt =====
-- The pages of src/main.rs that read a body, or show a book or the list of the pairs. A stream is what
-- its `try_next` comes to, call by call; JSON and the printing of a book are arguments.
use Prim.Native.String.{◌++◌ as ◌&◌}
use arbexpert_backend.Base.{
  ℕ, zero, suc, ◌+◌, ◌≡◌, ◌≢◌, refl, String, Bool, Option, none, some, List, [], ◌++◌, arith,
  elim_none, if◌then◌else◌,
}
use arbexpert_backend.Workers
use arbexpert_backend.Workers.{GlobalState}
use arbexpert_backend.Workers.Crossing.{Arbitrage}

-- `payload.try_next().await`: a chunk, the end, or an error.
pub data Next (B : Type 0) : Type 0 where
  chunk : List B → Next B
  end_of_body : Next B
  stream_error : Next B

-- An answer with the status 200 or 500.
pub data HttpResponse : Type 0 where
  ok : String → HttpResponse
  internal_server_error : String → HttpResponse

module _ {B : Type 0} where
  -- The `while let` over the payload, from its call `n` on; `none` is that it runs on.
  unfoldable pub read_body : ℕ → (ℕ → Next B) → ℕ → List B → Option (List B)
  read_body zero payload n body = none
  read_body (suc fuel) payload n body = elim (payload n) [
    | chunk c ↦ read_body fuel payload (n + 1) (body ++ c)
    | end_of_body ↦ read_body fuel payload (n + 1) body
    | stream_error ↦ some body
  ]

  -- `start_arbitrage`, whose command is not looked at once it is parsed.
  unfoldable pub start_arbitrage_page :
      (List B → Bool)
      → ℕ
      → (ℕ → Next B)
      → String
      → GlobalState
      → Option (GlobalState × HttpResponse)
  start_arbitrage_page parses fuel payload symbol s = elim (read_body fuel payload 0 []) [
    | none ↦ none
    | some body ↦ some (
        if parses body
        then (let r = Workers.start_arbitrage symbol s in
            (r.0, if r.1 then ok "Started!" else internal_server_error "Worker not found"))
        else (s, internal_server_error "Worker not found"))
  ]

  read_body-runs :
      (fuel : ℕ) (payload : ℕ → Next B) (n : ℕ) (body : List B)
      → ((i : ℕ) → payload i ≢ stream_error)
      → read_body fuel payload n body ≡ none
  unfolding read_body
  read_body-runs zero payload n body h = refl
  read_body-runs (suc fuel) payload n body h =
      next (payload n) refl λ b. read_body-runs fuel payload (n + 1) b h
    where
      next :
          (x : Next B)
          → payload n ≡ x
          → ((b : List B) → read_body fuel payload (n + 1) b ≡ none)
          → read_body (suc fuel) payload n body ≡ none
      next (chunk c) e ih = ground (arith, e, ih (body ++ c))
      next end_of_body e ih = ground (arith, e, ih body)
      next stream_error e ih = absurd (h n e)

  -- Where no read of the body fails, as with every body that arrives whole: `start_arbitrage` never
  -- answers, however long it runs.
  pub start_arbitrage_page_hangs :
      (parses : List B → Bool) (fuel : ℕ) (payload : ℕ → Next B) (symbol : String) (s : GlobalState)
      → ((i : ℕ) → payload i ≢ stream_error)
      → start_arbitrage_page parses fuel payload symbol s ≡ none
  unfolding start_arbitrage_page
  start_arbitrage_page_hangs parses fuel payload symbol s h =
      elim_none (read_body fuel payload 0 []) _ _ (read_body-runs fuel payload 0 [] h)

-- The two pages of a book: both watch this symbol.
module _ {Book : Type 0} (watch : String → Option Book) (show : Book → String) where
  abbrev book_page : String → HttpResponse
  book_page symbol = elim (watch symbol) [
    | none ↦ internal_server_error "Worker not found"
    | some book ↦ ok (show book)
  ]

  unfoldable pub monitor_futures_orderbook : String → HttpResponse
  monitor_futures_orderbook symbol = book_page (symbol & "/USDT:USDT")

  unfoldable pub monitor_spot_orderbook : String → HttpResponse
  monitor_spot_orderbook symbol = book_page (symbol & "/USDT:USDT")

-- `list_arbitrage`, where the lock is not poisoned.
unfoldable pub list_arbitrage : (List Arbitrage → Option String) → List Arbitrage → HttpResponse
list_arbitrage to_json arbitrages = elim (to_json arbitrages) [
  | none ↦ internal_server_error "Strange"
  | some text ↦ ok text
]
