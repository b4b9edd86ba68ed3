-- ===== src/ProxyPlugin.antt =====
-- flow_proxy_plugin/plugins/proxy_plugin.py: a request that comes in as a proxy request.
-- `bytes.decode` and proxy.py's `set_url` are parameters; log lines and the request context are
-- left out.
pub mod Requests
pub mod Accepts
pub mod Tests
use flow_proxy.Base.{
  ℕ, Bool, true, false, ◌&&◌, ◌||◌, Option, none, some, List, [], ◌∷◌, ◌++◌, Text, Bytes, codes,
  utf8, show, length, insert, text_eq, starts_with, if◌then◌else◌, Exc, Result, ok, err, ◌>>=◌,
}
use flow_proxy.Json.{Json, num, str, obj, field, end}
use flow_proxy.Jwt.{Payload}
use flow_proxy.Failover.{Services, Grant, get_config_and_token}
use flow_proxy.RequestFilter.Rules.{Request}
use flow_proxy.Forwarder.{
  target_base_url, modify_request_headers, validate_request, handle_response_chunk,
}

pub record Platform : Type 0 where
  pub decode : Bytes → Result Text
  pub set_url : Request → Bytes → Result Request
  pub encode : Payload → Text → Result Text

module _ (env : Platform) where
  converted : Request → Option Bytes → Result Request
  converted request none = ok request
  converted request (some []) = ok request
  converted request (some (b ∷ bs)) =
      if starts_with (b ∷ bs) (codes "http://") || starts_with (b ∷ bs) (codes "https://")
      then ok request
      else (env.decode (b ∷ bs) >>= (λ path. env.set_url request (utf8 (target_base_url ++ path))))

  unfoldable pub convert_reverse_proxy_request : Request → Result Request
  unfolding converted
  convert_reverse_proxy_request request = converted request request.path

  decoded_or_default : Option Bytes → Result Text
  decoded_or_default none = ok []
  decoded_or_default (some []) = ok []
  decoded_or_default (some (b ∷ bs)) = env.decode (b ∷ bs)

  -- The method and the path are decoded for the log line, which may raise.
  logged : Request → Result Request
  unfolding decoded_or_default
  logged request = do
    method ← decoded_or_default request.method
    path ← decoded_or_default request.path
    ok request

  authenticated : Request → Result Grant → Result Request
  unfolding logged
  authenticated request granted = do
    g ← granted
    result ← modify_request_headers (some request) g.jwt_token
    logged result

  -- Both `except` clauses.
  or_none : Result Request → Option Request
  or_none (ok request) = some request
  or_none (err e) = none

  intercepted : ℕ → ℕ → Services → Result Request → Option Request × Services
  unfolding authenticated or_none
  intercepted now later s (err e) = (none, s)
  intercepted now later s (ok request) =
      if validate_request (some request)
      then (
        or_none (authenticated request (get_config_and_token env.encode now later s).0),
        (get_config_and_token env.encode now later s).1,
      )
      else (none, s)

  unfoldable pub before_upstream_connection : ℕ → ℕ → Request → Services → Option Request × Services
  unfolding intercepted
  before_upstream_connection now later request s =
      intercepted now later s (convert_reverse_proxy_request request)

unfoldable pub handle_upstream_chunk : Bytes → Bytes
handle_upstream_chunk [] = []
handle_upstream_chunk (b ∷ bs) = handle_response_chunk (b ∷ bs)

-- `on_access_log`: `context.update` with the plugin's entries.
unfoldable pub on_access_log : Services → List (Text × Json) → List (Text × Json)
on_access_log s context =
    insert (codes "load_balancer_stats")
      (obj (
        field (codes "available_configs") (num (show (length s.load_balancer.available_configs))) (
          field (codes "failed_configs") (num (show (length s.load_balancer.failed_configs)))
            (field (codes "total_requests") (num (show s.load_balancer.total_requests)) end))))
      (insert (codes "plugin") (str (codes "FlowProxyPlugin")) context)
