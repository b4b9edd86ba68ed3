-- ===== src/Forwarder.antt =====
-- flow_proxy_plugin/core/request_forwarder.py: authenticating a proxied request, and its errors.
-- Header names are bytes, and a header is set to a tuple; log lines are left out.
pub mod Headers
pub mod Tests
use flow_proxy.Base.{
  ℕ, ◌+◌, Bool, true, false, ◌&&◌, ◌||◌, Option, none, some, List, [], ◌∷◌, ◌++◌, map, Text, Bytes,
  codes, text_eq, is_blank, leb, starts_with, utf8, show, insert, delete, if◌then◌else◌, ◌==◌, Exc,
  ExcClass, is_value_error, Result, ok, err,
}
use flow_proxy.Config.{raises}
use flow_proxy.RequestFilter.Rules.{Request, HeaderValue, pair}

abbrev pub target_host : Text
target_host = codes "flow.ciandt.com"

abbrev pub target_base_url : Text
target_base_url = codes "https://flow.ciandt.com/flow-llm-proxy"

-- `bytes.lower`
unfoldable pub bytes_lower : Bytes → Bytes
bytes_lower b = map (λ c. if leb 65 c && leb c 90 then c + 32 else c) b

unfoldable pub is_authorization : Bytes → Bool
is_authorization name = bytes_lower name == codes "authorization"

abbrev pub HeaderDict : Type 0
HeaderDict = List (Bytes × HeaderValue)

headers_to_remove : HeaderDict → List Bytes
headers_to_remove [] = []
headers_to_remove ((name, value) ∷ rest) =
    let more = headers_to_remove rest in if is_authorization name then name ∷ more else more

delete_all : List Bytes → HeaderDict → HeaderDict
delete_all [] headers = headers
delete_all (name ∷ names) headers = delete_all names (delete name headers)

set_own : Text → HeaderDict → HeaderDict
set_own token headers =
    insert (codes "Host") (pair (utf8 target_host) [])
      (insert (codes "Authorization") (pair (utf8 (codes "Bearer " ++ token)) []) headers)

modified : Request → Text → Option HeaderDict → Result Request
unfolding headers_to_remove delete_all set_own
modified request token none = err (raises ExcClass.value_error "request.headers is None")
modified request token (some headers) = ok (record request {
  headers = some (set_own token (delete_all (headers_to_remove headers) headers));
})

-- The request is changed in place and returned; where this raises it is as it was.
unfoldable pub modify_request_headers : Option Request → Text → Result Request
unfolding modified
modify_request_headers none token = err (raises ExcClass.value_error "request is None")
modify_request_headers (some request) token =
    if is_blank token
    then err (raises ExcClass.value_error "jwt_token is empty")
    else modified request token request.headers

unfoldable pub get_target_url : Text → Result Text
get_target_url original_path =
    if is_blank original_path
    then err (raises ExcClass.value_error "original_path is empty")
    else if starts_with original_path (codes "/")
    then ok (target_base_url ++ original_path)
    else ok (target_base_url ++ codes "/" ++ original_path)

-- `handle_response_chunk` and `handle_streaming_response`
unfoldable pub handle_response_chunk : Bytes → Bytes
handle_response_chunk chunk = chunk

abbrev is_connection_error : ExcClass → Bool
is_connection_error ExcClass.connection_error = true
is_connection_error _ = false

abbrev is_timeout_error : ExcClass → Bool
is_timeout_error ExcClass.timeout_error = true
is_timeout_error _ = false

pub record ErrorStatus : Type 0 where
  pub status_code : ℕ
  pub status_text : Text
  pub message : Text

unfoldable pub error_status : Exc → Text → ErrorStatus
error_status error error_type =
    if error_type == codes "network" || is_connection_error error.cls
    then record {
      status_code = 502;
      status_text = codes "Bad Gateway";
      message = codes "Unable to connect to Flow LLM Proxy";
    }
    else if error_type == codes "timeout" || is_timeout_error error.cls
    then record {
      status_code = 502;
      status_text = codes "Bad Gateway";
      message = codes "Request to Flow LLM Proxy timed out";
    }
    else if error_type == codes "invalid_request" || is_value_error error.cls
    then record {
      status_code = 400;
      status_text = codes "Bad Request";
      message = codes "Invalid request format";
    }
    else record {
      status_code = 500;
      status_text = codes "Internal Server Error";
      message = codes "An unexpected error occurred";
    }

pub handle_forwarding_error : Exc → Text → Bytes
handle_forwarding_error error error_type =
    let s = error_status error error_type in
    utf8 (
      codes "HTTP/1.1 "
      ++ show s.status_code
      ++ codes " "
      ++ s.status_text
      ++ codes "\r\nContent-Type: application/json\r\nConnection: close\r\n\r\n{\"error\": \""
      ++ s.message
      ++ codes "\", \"details\": \""
      ++ error.message
      ++ codes "\"}")

valid_parts : Option Bytes → Option Bytes → Bool
valid_parts none path = false
valid_parts (some method) none = false
valid_parts (some method) (some path) = if method == codes "CONNECT" then false else true

unfoldable pub validate_request : Option Request → Bool
unfolding valid_parts
validate_request none = false
validate_request (some request) = valid_parts request.method request.path
