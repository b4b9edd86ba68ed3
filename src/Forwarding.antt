-- ===== src/Forwarding.antt =====
-- flow_proxy_plugin/plugins/web_server_plugin.py: `handle_request`, up to the start of the worker.
-- `bytes.decode`, `str.lower`, the JSON codec, nested-property and the token encoder are
-- parameters, and so is whether the pipe and the thread can be made. The debug
-- lines of a request are in `Details`, the other log lines are left out.
pub mod Headers
pub mod Original
pub mod Details
pub mod Handler
pub mod Accepts
pub mod Tests
use flow_proxy.Base.{
  ℕ, Bool, true, false, Option, none, some, List, [], ◌∷◌, ◌++◌, Text, Bytes, codes, text_eq,
  lookup, insert, contains, if◌then◌else◌, Exc, ExcClass, Result, ok, err, ◌>>=◌,
}
use flow_proxy.Json.{Json, obj, entries}
use flow_proxy.Jwt.{Payload}
use flow_proxy.Failover.{Services, Grant, get_config_and_token}
use flow_proxy.Streaming.Output.{error_response}
use flow_proxy.Forwarder.{target_host, target_base_url}
use flow_proxy.RequestFilter.Rules.{
  Request, HeaderValue, pair, single, FilterRule, find_matching_rule, get_headers_to_skip,
}
use flow_proxy.RequestFilter.Query.{filter_query_params}
use flow_proxy.RequestFilter.Body.{Nested, filter_body_params}

-- What the code under third parties' names does.
pub record Platform : Type 0 where
  -- `bytes.decode()`, and with errors="replace".
  pub decode : Bytes → Result Text
  pub decode_replace : Bytes → Text
  pub lower : Text → Text
  -- `json.loads` of bytes, of the decoded text, and `json.dumps(…).encode`.
  pub loads_bytes : Bytes → Result Json
  pub loads : Bytes → Result Json
  pub dumps : Json → Result Bytes
  pub nested : Nested
  -- `jwt.encode`
  pub encode : Payload → Text → Result Text

abbrev pub bearer : Text → Text
bearer token = codes "Bearer " ++ token

-- The headers that the proxy sets itself.
abbrev pub own_headers : Text → List (Text × Text)
own_headers token = (codes "Authorization", bearer token) ∷ (codes "Host", target_host) ∷ []

-- `body` where it is there and not empty, else `buffer`.
pub body_or_buffer : Option Bytes → Option Bytes → Option Bytes
body_or_buffer (some (b ∷ bs)) buffer = some (b ∷ bs)
body_or_buffer body (some (b ∷ bs)) = some (b ∷ bs)
body_or_buffer body buffer = none

-- `except (json.JSONDecodeError, UnicodeDecodeError)`
abbrev pub is_undecodable : ExcClass → Bool
is_undecodable ExcClass.json_decode_error = true
is_undecodable ExcClass.unicode_decode_error = true
is_undecodable _ = false

stream_of : Result Json → Result (Option Json)
stream_of (ok (obj fs)) = ok (lookup (codes "stream") (entries fs))
stream_of (ok v) = ok none
stream_of (err e) = if is_undecodable e.cls then ok none else err e

parse_body : (Bytes → Result Json) → Option Bytes → Result (Option Json)
unfolding stream_of
parse_body loads none = ok none
parse_body loads (some body) = stream_of (loads body)

-- `_extract_header_value`, undecoded: the first part of a tuple. Of a header that proxy.py parsed
-- this is the name as it was sent, see `Original`.
pub header_bytes : HeaderValue → Bytes
header_bytes (pair first second) = first
header_bytes (single value) = value

-- What the worker is started with.
pub record UpstreamCall : Type 0 where
  pub method : Text
  pub url : Text
  pub headers : List (Text × Text)
  pub body : Option Bytes
  pub stream : Option Json

-- The worker runs, the client was sent an error response, or the handler raises.
pub data Outcome : Type 0 where
  calling : UpstreamCall → Outcome
  refused : Bytes → Outcome
  raising : Exc → Outcome

-- How making the pipe and starting the thread goes.
pub data Setup : Type 0 where
  started : Setup
  no_pipe : Exc → Setup
  no_thread : Setup

launch : Setup → UpstreamCall → Outcome
launch started call = calling call
launch (no_pipe e) call = raising e
launch no_thread call = refused (error_response 500 (codes "Failed to start streaming"))

module _ (env : Platform) where
  pub parse_stream_field : Request → Result (Option Json)
  unfolding parse_body body_or_buffer
  parse_stream_field request =
      parse_body env.loads_bytes (body_or_buffer request.body request.buffer)

  -- One round of the loop of `_build_headers`, with the decoded name.
  put_header : List Text → Text → HeaderValue → List (Text × Text) → Result (List (Text × Text))
  unfolding header_bytes
  put_header skip name value headers =
      if contains (env.lower name) skip
      then ok headers
      else (env.decode (header_bytes value) >>= (λ v. ok (insert name v headers)))

  add_headers :
      List Text → List (Bytes × HeaderValue) → List (Text × Text) → Result (List (Text × Text))
  unfolding put_header
  add_headers skip [] headers = ok headers
  add_headers skip ((name, value) ∷ rest) headers = do
    text ← env.decode name
    more ← put_header skip text value headers
    add_headers skip rest more

  headers_from :
      Text → Option FilterRule → Option (List (Bytes × HeaderValue)) → Result (List (Text × Text))
  unfolding add_headers
  headers_from token rule none = ok (own_headers token)
  headers_from token rule (some headers) =
      add_headers (get_headers_to_skip env.lower rule) headers (own_headers token)

  unfoldable pub build_headers : Request → Text → Option FilterRule → Result (List (Text × Text))
  unfolding headers_from
  build_headers request token rule = headers_from token rule request.headers

  filtered_body : Option FilterRule → Option Bytes → Option Bytes
  filtered_body none body = body
  filtered_body (some rule) body =
      filter_body_params env.nested env.loads env.dumps body rule.body_params_to_remove

  unfoldable pub get_request_body : Request → Option FilterRule → Option Bytes
  unfolding filtered_body body_or_buffer
  get_request_body request rule = filtered_body rule (body_or_buffer request.body request.buffer)

  filtered_path : Text → Option FilterRule → Text
  filtered_path path none = path
  filtered_path path (some rule) = filter_query_params env.lower path rule.query_params_to_remove

  -- `self._decode_bytes(value) if value else default`
  decoded_or : Text → Option Bytes → Result Text
  decoded_or default none = ok default
  decoded_or default (some []) = ok default
  decoded_or default (some (b ∷ bs)) = env.decode (b ∷ bs)

  launch_with :
      Setup
      → Request
      → Text
      → Text
      → Option Json
      → Option FilterRule
      → Result (List (Text × Text))
      → Outcome
  unfolding launch filtered_path
  launch_with setup request method path stream rule (err e) = raising e
  launch_with setup request method path stream rule (ok headers) = launch setup (record {
    method = method;
    url = target_base_url ++ filtered_path path rule;
    headers = headers;
    body = get_request_body request rule;
    stream = stream;
  })

  -- After the authentication: the target, the headers, the body and the worker.
  forward : Setup → Request → Text → Text → Option Json → Text → Option FilterRule → Outcome
  unfolding launch_with
  forward setup request method path stream token rule =
      launch_with setup request method path stream rule (build_headers request token rule)

  authenticated : Setup → Request → Text → Text → Option Json → Result Grant → Outcome
  unfolding forward
  authenticated setup request method path stream (ok g) =
      forward setup request method path stream g.jwt_token
        (find_matching_rule env.lower env.decode_replace request path)
  authenticated setup request method path stream (err e) =
      refused (error_response 503 (codes "Auth error"))

  begin : Request → Result (Text × Text × Option Json)
  unfolding decoded_or
  begin request = do
    method ← decoded_or (codes "GET") request.method
    path ← decoded_or (codes "/") request.path
    stream ← parse_stream_field request
    ok (method, path, stream)

  handle_begun :
      Setup → ℕ → ℕ → Request → Services → Result (Text × Text × Option Json) → Outcome × Services
  unfolding authenticated
  handle_begun setup now later request s (ok (method, path, stream)) =
      let (granted, next) = get_config_and_token env.encode now later s in
      (authenticated setup request method path stream granted, next)
  handle_begun setup now later request s (err e) = (raising e, s)

  unfoldable pub handle_request : Setup → ℕ → ℕ → Request → Services → Outcome × Services
  unfolding handle_begun begin
  handle_request setup now later request s = handle_begun setup now later request s (begin request)
