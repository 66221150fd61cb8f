-- ===== src/Http.antt =====
-- The HTTP client: src/base/http/client/ntex.rs, and the builder of src/base/http/builder.rs over any client
-- of src/base/http/generic.rs. The crate ntex is an argument: how it reads a method, and what
-- sending comes to.
use arbexpert_backend.Base.{
  String, ◌≡◌, refl, ap, ◌∙◌, Option, none, some, List, [], ◌∷◌, str_eq, if◌then◌else◌,
}
use arbexpert_backend.Std.HashMap
use arbexpert_backend.Std.HashMap.{HashMap}

-- A body behind `dyn HttpBody`, by its type: `Vec<u8>`, `String`, `&'static [u8]`, or another.
pub data HttpBody (B : Type 0) : Type 0 where
  vec : B → HttpBody B
  text : String → HttpBody B
  slice : B → HttpBody B
  foreign : HttpBody B

-- What ntex is given to send.
pub data Payload (B : Type 0) : Type 0 where
  bytes : B → Payload B
  text_bytes : String → Payload B

pub record Outgoing (M B : Type 0) : Type 0 where
  pub method : M
  pub uri : String
  pub headers : List (String × String)
  pub payload : Option (Payload B)

-- How a request ends: with a response, an error of ntex by its text, or an error of the client.
pub data Reached (R : Type 0) : Type 0 where
  responds : R → Reached R
  bad_method : Reached R
  body_error : Reached R
  send_error : String → Reached R
  panics : Reached R

-- The three downcasts, one after the other.
unfoldable pub downcast_body : {B : Type 0} → HttpBody B → Option (Payload B)
downcast_body (vec b) = some (bytes b)
downcast_body (text s) = some (text_bytes s)
downcast_body (slice b) = some (bytes b)
downcast_body foreign = none

-- The builder.
pub record HttpRequestBuilder (B : Type 0) : Type 0 where
  pub method : Option String
  pub url : Option String
  pub headers : HashMap String
  pub body : Option (HttpBody B)

unfoldable pub new_builder : {B : Type 0} → String → String → HttpRequestBuilder B
new_builder method url = record { method = some method; url = some url; headers = []; body = none }

unfoldable pub set_header :
    {B : Type 0} → String → String → HttpRequestBuilder B → HttpRequestBuilder B
set_header key value b = record b { headers = HashMap.insert key value b.headers }

unfoldable pub set_body : {B : Type 0} → HttpBody B → HttpRequestBuilder B → HttpRequestBuilder B
set_body body b = record b { body = some body }

-- The calls of `set_header`, in order, and the map that they leave.
unfoldable pub set_headers :
    {B : Type 0} → List (String × String) → HttpRequestBuilder B → HttpRequestBuilder B
set_headers [] b = b
set_headers ((k, v) ∷ hs) b = set_headers hs (set_header k v b)

added : List (String × String) → HashMap String → HashMap String
added [] m = m
added ((k, v) ∷ hs) m = added hs (HashMap.insert k v m)

-- The last value that is set under a key.
pub last_value : String → List (String × String) → Option String → Option String
last_value k [] old = old
last_value k ((j, v) ∷ hs) old = last_value k hs (if str_eq j k then some v else old)

set_headers-added :
    {B : Type 0} (hs : List (String × String)) (b : HttpRequestBuilder B)
    → set_headers hs b ≡ record b { headers = added hs b.headers }
unfolding set_headers set_header added
set_headers-added [] b = refl
set_headers-added ((k, v) ∷ hs) b = set_headers-added hs (set_header k v b)

get-added :
    (k : String) (hs : List (String × String)) (m : HashMap String)
    → HashMap.get k (added hs m) ≡ last_value k hs (HashMap.get k m)
unfolding added last_value
get-added k [] m = refl
get-added k ((j, v) ∷ hs) m =
    get-added k hs (HashMap.insert j v m) ∙ ap (last_value k hs) (HashMap.get-insert k j v m)

module _ {M B R : Type 0} (parse : String → Option M) (send : Outgoing M B → Reached R) where
  -- `NtexHttpClient::request`.
  unfoldable pub request :
      String → String → List (String × String) → Option (HttpBody B) → Reached R
  request method uri headers body = elim (parse method) [
    | none ↦ bad_method
    | some m ↦ elim body [
      | none ↦ send (record { method = m; uri = uri; headers = headers; payload = none })
      | some b ↦ elim (downcast_body b) [
        | none ↦ body_error
        | some p ↦ send (record { method = m; uri = uri; headers = headers; payload = some p })
      ]
    ]
  ]

  -- `do_request`; an absent method or url is unwrapped.
  unfoldable pub do_request : HttpRequestBuilder B → Reached R
  do_request b = elim b.method [
    | none ↦ panics
    | some method ↦ elim b.url [ none ↦ panics | some url ↦ request method url b.headers b.body ]
  ]

  -- A builder with its headers set one after the other, and with a body of one of the three types:
  -- what is sent has the method, the url, the body, and a map of headers with the last value that
  -- was set under each key; an unreadable method ends it before anything is sent.
  pub builder_sends :
      (method url : String) (headers : List (String × String)) (body : HttpBody B) (p : Payload B)
      → downcast_body body ≡ some p
      → (sent : HashMap String) × (do_request
            (set_body body (set_headers headers (new_builder method url)))
          ≡ (elim (parse method) [
            | none ↦ bad_method
            | some m ↦ send (record { method = m; uri = url; headers = sent; payload = some p })
          ]))
        × ((k : String) → HashMap.get k sent ≡ last_value k headers none)
  unfolding do_request request set_body new_builder HashMap.get
  builder_sends method url headers body p e =
      let start : HttpRequestBuilder B = new_builder method url in
      (
        added headers [],
        ap (λ b. do_request (set_body body b)) (set_headers-added headers start)
            ∙ ap
                (λ o. elim (parse method) [
                  | none ↦ bad_method
                  | some m ↦ elim o [
                    | none ↦ body_error
                    | some q ↦ send (record {
                      method = m;
                      uri = url;
                      headers = added headers [];
                      payload = some q;
                    })
                  ]
                ])
                e,
        λ k. get-added k headers [],
      )
