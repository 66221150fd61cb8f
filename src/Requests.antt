-- ===== src/Requests.antt =====
-- The errors of src/base/exchange/error.rs, and what an HTTP request comes to. An error of a library is
-- its text.
use Prim.Native.String.{◌++◌}
use arbexpert_backend.Base.{String}

pub data ExchangeError : Type 0 where
  bad_request invalid_nonce bad_symbol invalid_order invalid_address : String → ExchangeError
  insufficient_funds permission_denied authentication_error account_suspended :
      String → ExchangeError
  on_maintenance not_supported network_error json_error api_error : String → ExchangeError
  missing_credentials : ExchangeError

-- `Display`.
unfoldable pub error_text : ExchangeError → String
error_text (bad_request e) = "Bad request: " ++ e
error_text (invalid_nonce e) = "Invalid nonce: " ++ e
error_text (bad_symbol e) = "Bad symbol: " ++ e
error_text (invalid_order e) = "Invalid order: " ++ e
error_text (invalid_address e) = "Invalid address: " ++ e
error_text (insufficient_funds e) = "Insufficient funds: " ++ e
error_text (permission_denied e) = "Permission denied: " ++ e
error_text (authentication_error e) = "Authentication error: " ++ e
error_text (account_suspended e) = "Account suspended: " ++ e
error_text (on_maintenance e) = "On maintenance: " ++ e
error_text (not_supported e) = "Not supported: " ++ e
error_text (network_error e) = "Network error: " ++ e
error_text (json_error e) = "JSON parsing error: " ++ e
error_text (api_error e) = "API error: " ++ e
error_text missing_credentials = "Missing credentials"

pub data Result (A : Type 0) : Type 0 where
  ok : A → Result A
  err : ExchangeError → Result A

-- What a request comes to: an error's text, or the JSON value.
pub data Answer (J : Type 0) : Type 0 where
  request_fails : String → Answer J
  body_fails : String → Answer J
  not_utf8 : String → Answer J
  not_json : String → Answer J
  json : J → Answer J
