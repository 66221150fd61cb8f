-- ===== src/Mexc/Request.antt =====
-- `sign_request` and `request` of src/exchange/mexc/private/request.rs. The HMAC is a parameter; the
-- local time comes as its text, and a body as its JSON text.
use Prim.Native.String.{◌++◌}
use arbexpert_backend.Base.{
  ℕ, ◌/◌, String, ◌≡◌, refl, ap, ◌∙◌, Bool, true, false, ◌&&◌, Option, none, some, [], ◌∷◌, leb,
  ◌==◌, str_eq, eq_iff, if◌then◌else◌, arith,
}
use arbexpert_backend.Std.BTreeMap
use arbexpert_backend.Std.BTreeMap.{BTreeMap, get-insert, at_key, IsSorted, insert-IsSorted}
use arbexpert_backend.Std.HashMap
use arbexpert_backend.Std.HashMap.{HashMap}
use arbexpert_backend.Std.StringOrd.{string_ord}
use arbexpert_backend.Requests.{
  ExchangeError, bad_request, authentication_error, invalid_order, api_error, missing_credentials,
  Result, ok, err,
}

pub record Credentials : Type 0 where
  pub secret : Option String
  pub api_key : Option String

-- `format!("{k}={v}")` of the entries, joined by `&`.
unfoldable pub query : BTreeMap String String → String
query [] = ""
query ((k, v) ∷ []) = k ++ ("=" ++ v)
query ((k, v) ∷ e ∷ m) = k ++ ("=" ++ (v ++ ("&" ++ query (e ∷ m))))

-- `drain` into an ordered map; the order of the entries of a `HashMap` is none that matters.
unfoldable pub sort_params : HashMap String → BTreeMap String String
sort_params [] = []
sort_params ((k, v) ∷ m) = BTreeMap.insert k v (sort_params m)

-- What is sent.
pub record Sent : Type 0 where
  pub url : String
  pub api_key : String
  pub body : Option String

-- What comes of it: an error on the way, or the status and the text; of the text, the JSON value or
-- the error of its parsing, and the number under "code", an `i64` by its bits.
pub data Reply (J : Type 0) : Type 0 where
  fails : String → Reply J
  replies : Bool → String → Result J → Option ℕ → Reply J

abbrev pub in_range : ℕ → ℕ → ℕ → Bool
in_range first last code = leb first code && leb code last

-- The error of an answer that is no success; `format!("API Error {status}: {text}")` is `text`.
unfoldable pub error_of_code : Option ℕ → String → ExchangeError
error_of_code none text = api_error text
error_of_code (some code) text =
    if in_range 10000 19999 code
    then bad_request text
    else if in_range 20000 29999 code
    then authentication_error text
    else if in_range 30000 39999 code
    then invalid_order text
    else api_error text

-- The end of `request`, from the answer on.
unfoldable pub read_reply : {J : Type 0} → Reply J → Result J
read_reply (fails e) = err (api_error e)
read_reply (replies true text value code) = value
read_reply (replies false text value code) = err (error_of_code code text)

abbrev pub with_params : String → HashMap String → BTreeMap String String
with_params timestamp params =
    sort_params (HashMap.insert "timestamp" timestamp (HashMap.insert "recvWindow" "10000" params))

-- The text of a body: there is none, or an error of its serialisation.
abbrev pub body_text : Option (Result String) → Result (Option String)
body_text none = ok none
body_text (some (err e)) = err e
body_text (some (ok s)) = ok (if str_eq s "" then none else some s)

module _ (hmac : String → String → Result String) where
  unfoldable pub sign_request : Credentials → BTreeMap String String → Result String
  sign_request c sorted = elim c.secret [
    | none ↦ err missing_credentials
    | some secret ↦ hmac secret (query sorted)
  ]

  -- `request` up to the sending.
  unfoldable pub prepare :
      Credentials → String → String → HashMap String → Option (Result String) → Result Sent
  prepare c timestamp url params body =
      let sorted = with_params timestamp params in
      elim (sign_request c sorted) [
        | err e ↦ err e
        | ok signature ↦ elim (body_text body) [
          | err e ↦ err e
          | ok text ↦ elim c.api_key [
            | none ↦ err missing_credentials
            | some key ↦ ok (record {
              url = url ++ ("?" ++ query (BTreeMap.insert "signature" signature sorted));
              api_key = key;
              body = text;
            })
          ]
        ]
      ]

get-sort_params :
    (k : String) (m : HashMap String) → BTreeMap.get k (sort_params m) ≡ HashMap.get k m
unfolding sort_params BTreeMap.get HashMap.get
get-sort_params k [] = refl
get-sort_params k ((j, v) ∷ m) = ground (
  arith,
  get-insert k j v (sort_params m),
  get-sort_params k m,
  eq_iff j k,
  string_ord.cmp_eq k j,
  string_ord.cmp_refl k,
)

sort_params-IsSorted : (m : HashMap String) → IsSorted (sort_params m)
unfolding sort_params
sort_params-IsSorted [] = tt
sort_params-IsSorted ((k, v) ∷ m) = insert-IsSorted k v (sort_params m) (sort_params-IsSorted m)

-- The value that is sent under a key.
unfoldable pub sent_value : String → String → HashMap String → String → Option String
sent_value signature timestamp params k =
    if str_eq k "signature"
    then some signature
    else if str_eq k "timestamp"
    then some timestamp
    else if str_eq k "recvWindow"
    then some "10000"
    else HashMap.get k params

get-timed :
    (k timestamp : String) (params : HashMap String)
    → BTreeMap.get k (with_params timestamp params) ≡ (
        if str_eq k "timestamp"
        then some timestamp
        else if str_eq k "recvWindow"
        then some "10000"
        else HashMap.get k params)
get-timed k timestamp params =
    let windowed = HashMap.insert "recvWindow" "10000" params in
    get-sort_params k (HashMap.insert "timestamp" timestamp windowed)
    ∙ ground (
      arith,
      HashMap.get-insert k "timestamp" timestamp windowed,
      HashMap.get-insert k "recvWindow" "10000" params,
      eq_iff "timestamp" k,
      eq_iff "recvWindow" k,
      eq_iff k "timestamp",
      eq_iff k "recvWindow",
    )

-- Where both credentials are there, the signing succeeds and there is no body: what is sent is the
-- query of a map that has under each key the caller's parameter, with the window and the time in
-- the place of the caller's, and the signature, its keys in strictly ascending order; and the
-- signature is that of the query of the map without it, whose keys are in that order too.
pub request_signs :
    (hmac : String → String → Result String) (secret key timestamp url signature : String)
    (params : HashMap String)
    → hmac secret (query (with_params timestamp params)) ≡ ok signature
    → (sent : BTreeMap String String) × (prepare hmac
          (record { secret = some secret; api_key = some key })
          timestamp
          url
          params
          none
        ≡ ok (record { url = url ++ ("?" ++ query sent); api_key = key; body = none }))
      × ((k : String) → BTreeMap.get k sent ≡ sent_value signature timestamp params k)
      × IsSorted sent
      × IsSorted (with_params timestamp params)
unfolding prepare sign_request sent_value
request_signs hmac secret key timestamp url signature params h = (
  BTreeMap.insert "signature" signature (with_params timestamp params),
  ap
      (λ r. elim r [
        | err e ↦ err e
        | ok s ↦ ok (record {
          url =
              url ++ ("?" ++ query (BTreeMap.insert "signature" s (with_params timestamp params)));
          api_key = key;
          body = none;
        })
      ])
      h,
  λ k.
      get-insert k "signature" signature (with_params timestamp params)
      ∙ ground (
        arith,
        string_ord.cmp_eq k "signature",
        eq_iff k "signature",
        string_ord.cmp_refl "signature",
        get-timed k timestamp params,
      ),
  insert-IsSorted "signature" signature (with_params timestamp params) (sort_params-IsSorted _),
  sort_params-IsSorted _,
)

-- The kind of an error code, by its ten thousands.
abbrev pub kind_of : ℕ → String → ExchangeError
kind_of n =
    if n == 1
    then bad_request
    else if n == 2
    then authentication_error
    else if n == 3
    then invalid_order
    else api_error

-- The ranges of the error codes are those of the ten thousands: 1 is a bad request, 2 a failed
-- authentication, 3 an invalid order, and each other number an error of the API.
pub error_of_code-kind_of :
    (code : ℕ) (text : String) → error_of_code (some code) text ≡ kind_of (code / 10000) text
unfolding error_of_code
error_of_code-kind_of code text = ground arith
