-- ===== src/Mexc/Listen.antt =====
-- The listen key of the private socket (src/exchange/mexc/private/watch.rs): how it is asked for, which
-- socket has it, and when it is given back.
use Prim.Native.String.{◌++◌ as ◌&◌}
use arbexpert_backend.Base.{
  ℕ, ◌≡◌, ap, ◌∙◌, String, Bool, true, false, Option, none, some, List, [], ◌∷◌, ◌++◌,
  if◌then◌else◌,
}
use arbexpert_backend.Std.BTreeMap
use arbexpert_backend.Std.BTreeMap.{BTreeMap}
use arbexpert_backend.Std.HashMap
use arbexpert_backend.Std.HashMap.{HashMap}
use arbexpert_backend.Std.StringOrd.{string_ord}
use arbexpert_backend.Requests.{api_error, missing_credentials, error_text, Result, ok, err}
use arbexpert_backend.Mexc.Request.{
  Credentials, Sent, Reply, query, read_reply, with_params, sent_value, request_signs,
}
use arbexpert_backend.Mexc.Private.{PrivateWs}
use arbexpert_backend.Mexc.Orders.{show_i64, add_i64, request, request_sends}

-- `listen_key` of the client, the key in the address of `private_ws`, and the requests that gave keys
-- back.
pub record Listening : Type 0 where
  pub listen_key : Option String
  pub private_ws : Option String
  pub released : List String

-- What `with_credentials` makes of the keys (src/exchange/mexc/private/constructor.rs); the rest is that
-- of `new`.
unfoldable pub with_credentials :
    {D : Type 0} → String → String → Credentials × Listening × PrivateWs D
with_credentials api_key secret = (
  record { secret = some secret; api_key = some api_key },
  record { listen_key = none; private_ws = none; released = [] },
  record {
    inited_private_ws = false;
    subscribed_private_orders = false;
    private_last_id = 0;
    private_pending = [];
    subscriptions = 0;
    sent = [];
  },
)

abbrev pub listen_url : String
listen_url = "https://api.mexc.com/api/v3/userDataStream"

abbrev pub key_params : String → HashMap String
key_params key = HashMap.insert "X-MEXC-APIKEY" key []

-- `json.get("listenKey").and_then(Value::as_str)`, and the printing of a value.
module _ {J : Type 0} (listen_key_of : J → Option String) (text_of : J → String)
    (hmac : String → String → Result String) (show : ℕ → String) where
  -- What is read of the answer.
  unfoldable pub read_listen_key : Result J → Listening → Listening × Result String
  read_listen_key (err e) l = (l, err (api_error ("Listen key error: " & error_text e)))
  read_listen_key (ok value) l = elim (listen_key_of value) [
    | none ↦ (l, err (api_error ("Missing listenKey in response: " & text_of value)))
    | some key ↦ (record l { listen_key = some key }, ok key)
  ]

  -- `create_listen_key`, with what is sent.
  unfoldable pub create_listen_key :
      Credentials → ℕ → ℕ → Reply J → Listening → Option Sent × Listening × Result String
  create_listen_key c local offset reply l = elim c.api_key [
    | none ↦ (none, l, err missing_credentials)
    | some key ↦
        let r = request hmac show c local offset listen_url (key_params key) none reply in
        let read = read_listen_key r.1 l in (r.0, read.0, read.1)
  ]

  -- `init_private_ws` after the key; `connects` is whether the socket's `connect` succeeds. The state,
  -- and whether it returns `Ok`.
  unfoldable pub open_private_ws : Bool → Listening × Result String → Listening × Bool
  open_private_ws connects (l, err e) = (l, false)
  open_private_ws connects (l, ok key) =
      if connects then (record l { private_ws = some key }, true) else (l, false)

  unfoldable pub init_private_ws :
      Credentials → ℕ → ℕ → Reply J → Bool → Listening → Listening × Bool
  init_private_ws c local offset reply connects l =
      let r = create_listen_key c local offset reply l in open_private_ws connects (r.1, r.2)

  -- Both closures for the end of the socket with a key, of which the socket's task calls one after
  -- the other: each gives the key back.
  unfoldable pub private_ws_ends : String → Listening → Listening
  private_ws_ends key l = record l { released = (l.released ++ key ∷ []) ++ key ∷ [] }

  -- Where both credentials are there and the signing succeeds: the request for a listen key has the
  -- API key among the parameters of its address, as well as in the header; and where the answer has
  -- a key but the socket does not connect, `init_private_ws` fails with the key kept and not given
  -- back, and no socket has it.
  pub init_private_ws_leaks :
      (secret key listen_key : String) (signature : String → String) (local offset : ℕ)
      (reply : Reply J) (value : J) (l : Listening)
      → ((text : String) → hmac secret text ≡ ok (signature text))
      → read_reply reply ≡ ok value
      → listen_key_of value ≡ some listen_key
      → (sent : BTreeMap String String) × ((create_listen_key
            (record { secret = some secret; api_key = some key })
            local
            offset
            reply
            l).0
          ≡ some (record { url = listen_url & ("?" & query sent); api_key = key; body = none }))
        × (BTreeMap.get "X-MEXC-APIKEY" sent ≡ some key)
        × (init_private_ws
              (record { secret = some secret; api_key = some key })
              local
              offset
              reply
              false
              l
            ≡ (record l { listen_key = some listen_key }, false))
  unfolding create_listen_key request sent_value HashMap.get HashMap.insert init_private_ws
      read_listen_key open_private_ws
  init_private_ws_leaks secret key listen_key signature local offset reply value l s h k =
      let timestamp = show_i64 show (add_i64 local offset) in
      let (sent, e, g, _, _) =
        request_signs hmac secret key timestamp listen_url
          (signature (query (with_params timestamp (key_params key)))) (key_params key) (s _) in
      let sending : Sent = record {
        url = listen_url & ("?" & query sent);
        api_key = key;
        body = none;
      } in
      let answered : request hmac show (record { secret = some secret; api_key = some key }) local
            offset listen_url (key_params key) none reply
          ≡ (some sending, ok value) =
        request_sends hmac show _ local offset listen_url (key_params key) reply sending e
        ∙ ap (λ a. (some sending, a)) h in
      (
        sent,
        ap (λ r. r.0) answered,
        g "X-MEXC-APIKEY",
        ap (λ r. open_private_ws false (read_listen_key r.1 l)) answered
            ∙ ap
                (λ o. open_private_ws false (elim o [
                  | none ↦ (l, err (api_error ("Missing listenKey in response: " & text_of value)))
                  | some x ↦ (record l { listen_key = some x }, ok x)
                ]))
                k,
      )
