-- ===== src/Tests/Signing.antt =====
-- The theorems on the signed requests of Mexc, with an HMAC that signs every text alike.
use Prim.Native.String.{◌++◌}
use arbexpert_backend.Base.{
  ℕ, ◌+◌, ◌-◌, ◌≡◌, refl, String, true, false, Option, none, some, List, [], ◌∷◌, arith,
}
use arbexpert_backend.Std.BTreeMap
use arbexpert_backend.Std.BTreeMap.{BTreeMap}
use arbexpert_backend.Std.HashMap
use arbexpert_backend.Std.Text
use arbexpert_backend.Std.StringOrd.{string_ord}
use arbexpert_backend.Requests.{Result, ok, json}
use arbexpert_backend.Mexc.Request.{Credentials, Reply, replies, query, read_reply}
use arbexpert_backend.Mexc.Start.{mexc_sync_time}
use arbexpert_backend.Startup.{i64_max}
use arbexpert_backend.Mexc.Orders.{read_array, fetch_last_orders, last_orders_since}
use arbexpert_backend.Mexc.Listen.{
  Listening, listen_url, create_listen_key, init_private_ws, init_private_ws_leaks,
}

abbrev one_signature : String → String → Result String
one_signature secret text = ok "abc"

-- A way to write numbers that the theorems do not look into.
abbrev show_any : ℕ → String
show_any n = "7"

abbrev credentials : Credentials
credentials = record { secret = some "s"; api_key = some "k" }

-- The answer to a request, a number that stands for an array of one value.
abbrev reply : Reply ℕ
reply = replies true "5" (ok 5) none

abbrev as_array : ℕ → Option (List ℕ)
as_array n = some (n ∷ [])

last_orders_since_example :
    (sent : BTreeMap String String) × (fetch_last_orders one_signature show_any
        (λ t. t)
        as_array
        credentials
        "BTC/USDT"
        (900 + 50)
        (900 + 60)
        (mexc_sync_time (json (some 1000)) 900 i64_max 0).2
        500
        reply
        []
      ≡ (
        ("BTCUSDT", "BTC/USDT") ∷ [],
        some (record {
          url = "https://api.mexc.com/api/v3/allOrders" ++ ("?" ++ query sent);
          api_key = "k";
          body = none;
        }),
        read_array as_array (read_reply reply),
      ))
    × (BTreeMap.get "symbol" sent ≡ some "BTCUSDT")
    × (BTreeMap.get "startTime" sent ≡ some (show_any (1000 + 50 - 500)))
    × (BTreeMap.get "limit" sent ≡ some "50")
    × (BTreeMap.get "timestamp" sent ≡ some (show_any (1000 + 60)))
unfolding HashMap.insert Text.replace
last_orders_since_example =
    last_orders_since one_signature show_any (λ t. t) as_array "s" "k" "BTC/USDT" (λ t. "abc") 1000
      900 50 60 500 0 reply [] (λ t. refl) (omega arith) (omega arith) (omega arith) (omega arith)
      (omega arith)

abbrev not_listening : Listening
not_listening = record { listen_key = none; private_ws = none; released = [] }

abbrev key_of : ℕ → Option String
key_of n = some "listen"

init_private_ws_leaks_example :
    (sent : BTreeMap String String) × ((create_listen_key key_of show_any one_signature show_any
        credentials 900 100 reply not_listening).0
      ≡ some (record { url = listen_url ++ ("?" ++ query sent); api_key = "k"; body = none }))
    × (BTreeMap.get "X-MEXC-APIKEY" sent ≡ some "k")
    × (init_private_ws key_of show_any one_signature show_any credentials 900 100 reply false
          not_listening
        ≡ (record not_listening { listen_key = some "listen" }, false))
unfolding read_reply
init_private_ws_leaks_example =
    init_private_ws_leaks key_of show_any one_signature show_any "s" "k" "listen" (λ t. "abc") 900
      100 reply 5 not_listening (λ t. refl) refl refl
