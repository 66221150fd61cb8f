-- ===== src/Mexc/Orders.antt =====
-- `fetch_last_orders` of src/exchange/mexc/private/fetch.rs, on the signed requests of Mexc/Request and the
-- clock of Mexc/Start. A time is an `i64` by its 64 bits, and `show` writes a natural number.
use Prim.Native.String.{◌++◌ as ◌&◌}
use arbexpert_backend.Base.{
  ℕ, ◌+◌, ◌-◌, ◌%◌, ◌^◌, ◌<◌, ◌≤◌, ◌≡◌, ap, ◌∙◌, String, Bool, true, false, not, ◌&&◌, Option, none,
  some, List, [], ltb, if◌then◌else◌, arith,
}
use arbexpert_backend.Std.BTreeMap
use arbexpert_backend.Std.BTreeMap.{BTreeMap}
use arbexpert_backend.Std.HashMap
use arbexpert_backend.Std.HashMap.{HashMap}
use arbexpert_backend.Std.StringOrd.{string_ord}
use arbexpert_backend.Requests.{api_error, Result, ok, err, json}
use arbexpert_backend.Startup.{i64_max, time_request_error, server_time}
use arbexpert_backend.Mexc.Request.{
  Credentials, Sent, Reply, prepare, query, read_reply, with_params, sent_value, request_signs,
}
use arbexpert_backend.Mexc.Pool.{normal_name}
use arbexpert_backend.Mexc.Start.{mexc_sync_time}

abbrev pub is_negative : ℕ → Bool
is_negative n = not (ltb n (2 ^ 63))

unfoldable pub show_i64 : (ℕ → String) → ℕ → String
show_i64 show n = if is_negative n then "-" & show (2 ^ 64 - n) else show n

-- The sum and the difference in 64 bits.
abbrev pub add_i64 : ℕ → ℕ → ℕ
add_i64 a b = (a + b) % 2 ^ 64

abbrev pub sub_i64 : ℕ → ℕ → ℕ
sub_i64 a b = (a + 2 ^ 64 - b) % 2 ^ 64

abbrev differs : Bool → Bool → Bool
differs true b = not b
differs false b = b

-- `i64::checked_sub`: `none` where the signs of the two differ and that of the difference is not the
-- first one's.
unfoldable pub checked_sub : ℕ → ℕ → Option ℕ
checked_sub a b =
    if differs (is_negative a) (is_negative b)
      && differs (is_negative a) (is_negative (sub_i64 a b))
    then none
    else some (sub_i64 a b)

-- `as_array_mut().map(mem::take)` of an answer.
unfoldable pub read_array : {J : Type 0} → (J → Option (List J)) → Result J → Result (List J)
read_array as_array (err e) = err e
read_array as_array (ok value) = elim (as_array value) [
  | none ↦ err (api_error "Unexpected response format")
  | some values ↦ ok values
]

module _ (hmac : String → String → Result String) (show : ℕ → String) where
  -- `request` as a whole, at a local time and with the offset of the clock: what is sent, if
  -- anything is, and what it returns.
  unfoldable pub request :
      {J : Type 0}
      → Credentials
      → ℕ
      → ℕ
      → String
      → HashMap String
      → Option (Result String)
      → Reply J
      → Option Sent × Result J
  request c local offset url params body reply =
      elim (prepare hmac c (show_i64 show (add_i64 local offset)) url params body) [
        | err e ↦ (none, err e)
        | ok sent ↦ (some sent, read_reply reply)
      ]

  abbrev pub last_orders_params : String → ℕ → HashMap String
  last_orders_params name start =
      HashMap.insert "limit" "50"
        (HashMap.insert "startTime" (show_i64 show start) (HashMap.insert "symbol" name []))

  -- `fetch_last_orders` for a symbol, whose name is noted in `pairs`, with the clock read at `local` for
  -- the start and at `later` for the request; `last` is in milliseconds.
  unfoldable pub fetch_last_orders :
      {J : Type 0}
      → (String → String)
      → (J → Option (List J))
      → Credentials
      → String
      → ℕ
      → ℕ
      → ℕ
      → ℕ
      → Reply J
      → HashMap String
      → HashMap String × Option Sent × Result (List J)
  fetch_last_orders to_uppercase as_array c symbol local later offset last reply pairs =
      let name = normal_name to_uppercase symbol in
      let noted = HashMap.insert name symbol pairs in
      elim (checked_sub (add_i64 local offset) (last % 2 ^ 64)) [
        | none ↦ (noted, none, err (api_error "Duration is too long"))
        | some start ↦
            let r =
              request c later offset "https://api.mexc.com/api/v3/allOrders"
                (last_orders_params name start) none reply in
            (noted, r.0, read_array as_array r.1)
      ]

  show_i64-small : (n : ℕ) → n < 2 ^ 63 → show_i64 show n ≡ show n
  unfolding show_i64
  show_i64-small n h = ground (arith, h)

  -- A request that is sent returns what its answer is read as.
  pub request_sends :
      {J : Type 0} (c : Credentials) (local offset : ℕ) (url : String) (params : HashMap String)
      (reply : Reply J) (sent : Sent)
      → prepare hmac c (show_i64 show (add_i64 local offset)) url params none ≡ ok sent
      → request c local offset url params none reply ≡ (some sent, read_reply reply)
  unfolding request
  request_sends c local offset url params reply sent e =
      ap (λ r. elim r [ err x ↦ (none, err x) | ok x ↦ (some x, read_reply reply) ]) e

checked_sub-small : (a b : ℕ) → a < 2 ^ 63 → b ≤ a → checked_sub a b ≡ some (a - b)
unfolding checked_sub
checked_sub-small a b h k = ground (arith, h, k)

add_i64-synced :
    (s l d : ℕ)
    → s < 2 ^ 63
    → l + d < 2 ^ 63
    → s + d < 2 ^ 63
    → add_i64 (l + d) ((s + 2 ^ 64 - l) % 2 ^ 64) ≡ s + d
add_i64-synced s l d h k m = omega (arith, h, k, m)

abbrev orders_url : String
orders_url = "https://api.mexc.com/api/v3/allOrders"

fetch_last_orders-run :
    {J : Type 0} (hmac : String → String → Result String) (show : ℕ → String)
    (to_uppercase : String → String) (as_array : J → Option (List J)) (c : Credentials)
    (symbol : String) (local later offset last start now : ℕ) (reply : Reply J)
    (pairs : HashMap String) (sent : Sent)
    → checked_sub (add_i64 local offset) (last % 2 ^ 64) ≡ some start
    → add_i64 later offset ≡ now
    → prepare hmac c
        (show_i64 show now)
        orders_url
        (last_orders_params hmac show (normal_name to_uppercase symbol) start)
        none
      ≡ ok sent
    → fetch_last_orders hmac show to_uppercase as_array c symbol local later offset last reply pairs
      ≡ (
        HashMap.insert (normal_name to_uppercase symbol) symbol pairs,
        some sent,
        read_array as_array (read_reply reply),
      )
unfolding fetch_last_orders request
fetch_last_orders-run hmac show to_uppercase as_array c symbol local later offset last start now
      reply pairs sent e f g =
    ground (arith, e, f, g)

-- Where the clock was set by an answer with the server's time `server`, read at the local time `local`,
-- both credentials are there, and the signing succeeds: `fetch_last_orders`, `d` milliseconds of the
-- local clock later, asks for at most 50 orders of the symbol since `server + d - last`, and gives
-- as the time of the request what the server's clock shows then, `server + d'`. It returns the array
-- of the answer, and the symbol's name is noted. Times are below 2^63, and `last` is no more than
-- `server + d`.
pub last_orders_since :
    {J : Type 0} (hmac : String → String → Result String) (show : ℕ → String)
    (to_uppercase : String → String) (as_array : J → Option (List J)) (secret key symbol : String)
    (signature : String → String) (server local d d' last own : ℕ) (reply : Reply J)
    (pairs : HashMap String)
    → ((text : String) → hmac secret text ≡ ok (signature text))
    → server + d < 2 ^ 63
    → server + d' < 2 ^ 63
    → local + d < 2 ^ 63
    → local + d' < 2 ^ 63
    → last ≤ server + d
    → (sent : BTreeMap String String) × (fetch_last_orders hmac show to_uppercase as_array
          (record { secret = some secret; api_key = some key })
          symbol
          (local + d)
          (local + d')
          (mexc_sync_time (json (some server)) local i64_max own).2
          last
          reply
          pairs
        ≡ (
          HashMap.insert (normal_name to_uppercase symbol) symbol pairs,
          some (record {
            url = "https://api.mexc.com/api/v3/allOrders" & ("?" & query sent);
            api_key = key;
            body = none;
          }),
          read_array as_array (read_reply reply),
        ))
      × (BTreeMap.get "symbol" sent ≡ some (normal_name to_uppercase symbol))
      × (BTreeMap.get "startTime" sent ≡ some (show (server + d - last)))
      × (BTreeMap.get "limit" sent ≡ some "50")
      × (BTreeMap.get "timestamp" sent ≡ some (show (server + d')))
unfolding mexc_sync_time time_request_error server_time sent_value HashMap.get HashMap.insert
last_orders_since hmac show to_uppercase as_array secret key symbol signature server local d d' last
      own reply pairs s h h' k k' m =
    let params =
      last_orders_params hmac show (normal_name to_uppercase symbol) (server + d - last) in
    let timestamp = show_i64 show (server + d') in
    let (sent, e, g, _, _) =
      request_signs hmac secret key timestamp orders_url
        (signature (query (with_params timestamp params))) params (s _) in
    (
      sent,
      fetch_last_orders-run hmac show to_uppercase as_array _ symbol (local + d) (local + d')
          ((server + 2 ^ 64 - local) % 2 ^ 64) last (server + d - last) (server + d') reply pairs _
          (ap (λ a. checked_sub a (last % 2 ^ 64))
              (add_i64-synced server local d (omega (arith, h)) k h)
            ∙ ap (checked_sub (server + d)) (omega (arith, h, m))
            ∙ checked_sub-small (server + d) last h m)
          (add_i64-synced server local d' (omega (arith, h')) k' h') e,
      g "symbol",
      g "startTime" ∙ ap some (show_i64-small hmac show (server + d - last) (omega (arith, h))),
      g "limit",
      g "timestamp" ∙ ap some (show_i64-small hmac show (server + d') h'),
    )
