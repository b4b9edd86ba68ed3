-- ===== src/ProxyPlugin/Accepts.antt =====
-- What becomes of a proxied request that can be read and passes validation.
use flow_proxy.Base.{
  ℕ, ◌≡◌, refl, subst, true, false, Option, none, some, [], ◌∷◌, Text, Bytes, is_blank, ok,
}
use flow_proxy.Jwt.{Payload, Cache}
use flow_proxy.Jwt.Freshness.{IsSound}
use flow_proxy.Failover.{Services, Grant, get_config_and_token}
use flow_proxy.Failover.Outcome.{
  IsHealthy, IsTotal, at_once, on_failover, IsGranted, get_config_and_token_ok,
}
use flow_proxy.RequestFilter.Rules.{Request}
use flow_proxy.Forwarder.{HeaderDict, validate_request, modify_request_headers}
use flow_proxy.Forwarder.Headers.{modify_request_headers_ok}
use flow_proxy.ProcessServices.Startup.{IsReady, granted-IsReady}
use flow_proxy.ProxyPlugin.{
  Platform, decoded_or_default, logged, authenticated, or_none, intercepted,
  convert_reverse_proxy_request, before_upstream_connection,
}

module _ (env : Platform) where
  abbrev pub IsText : Option Bytes → Type 0
  IsText none = Unit
  IsText (some b) = (t : Text) × (env.decode b ≡ ok t)

  -- The request converts to one that is valid, has headers, and whose method and path decode.
  pub record IsProxied (request : Request) : Type 0 where
    pub converted : Request
    pub conversion : convert_reverse_proxy_request env request ≡ ok converted
    pub valid : validate_request (some converted) ≡ true
    pub headers : HeaderDict
    pub given : converted.headers ≡ some headers
    pub method : IsText converted.method
    pub path : IsText converted.path

  decoded_or_default_lem :
      (o : Option Bytes) → IsText o → (t : Text) × (decoded_or_default env o ≡ ok t)
  unfolding decoded_or_default
  decoded_or_default_lem none h = ([], refl)
  decoded_or_default_lem (some []) h = ([], refl)
  decoded_or_default_lem (some (b ∷ bs)) h = h

  logged_lem : (r : Request) → IsText r.method → IsText r.path → logged env r ≡ ok r
  unfolding logged
  logged_lem r m p =
      let (method, h) = decoded_or_default_lem r.method m in
      let (path, k) = decoded_or_default_lem r.path p in rw (h, k) refl

  module _
      (printed : (p : Payload) (t : Text)
        → env.encode p p.client_secret ≡ ok t
        → is_blank t ≡ false) where
    served_not_blank :
        (now : ℕ) (cache : Cache) (g : Grant)
        → IsSound env.encode cache
        → IsGranted env.encode now cache g
        → is_blank g.jwt_token ≡ false
    served_not_blank now cache g sound granted =
        let (e, found, same, _) = granted.served in
        let (p, _, made) = sound granted.payload.client_id e found in
        subst (λ t. is_blank t ≡ false) same (printed p e.token made)

    token_not_blank :
        (now later : ℕ) (s : Services) (g : Grant)
        → IsHealthy env.encode (get_config_and_token env.encode now later s).1
        → (get_config_and_token env.encode now later s).0 ≡ ok g
        → is_blank g.jwt_token ≡ false
    token_not_blank now later s g h granted =
        let next = (get_config_and_token env.encode now later s).1 in
        elim (get_config_and_token_ok env.encode now later s g next (λ i. (granted i, next))) [
          | at_once q made k ↦ served_not_blank now next.cache g h.sound k
          | on_failover c e q raised caught r k ↦ served_not_blank later next.cache g h.sound k
        ]

    with_headers :
        (r : Request) (x : Option HeaderDict) (g : Grant)
        → modify_request_headers (some r) g.jwt_token ≡ ok (record r { headers = x })
        → IsText r.method
        → IsText r.path
        → (result : Request) × (authenticated env r (ok g) ≡ ok result)
    unfolding authenticated
    with_headers r x g done m p =
        (record r { headers = x }, rw done (logged_lem (record r { headers = x }) m p))

    authenticated_lem :
        (r : Request) (hs : HeaderDict) (g : Grant)
        → is_blank g.jwt_token ≡ false
        → r.headers ≡ some hs
        → IsText r.method
        → IsText r.path
        → (result : Request) × (authenticated env r (ok g) ≡ ok result)
    authenticated_lem r hs g b h m p =
        with_headers r _ g (modify_request_headers_ok r g.jwt_token hs b h) m p

    -- While the process is ready and signing raises for no payload and gives no blank token, a
    -- request that converts to a valid one with headers, whose method and path decode, goes on;
    -- the process is ready for the next one.
    pub before_upstream_connection_accepts :
        (now later : ℕ) (request : Request) (s : Services)
        → IsReady env.encode s
        → IsTotal env.encode
        → IsProxied request
        → ((result : Request) × ((before_upstream_connection env now later request s).0
              ≡ some result))
          × IsReady env.encode (before_upstream_connection env now later request s).1
    unfolding before_upstream_connection intercepted or_none
    before_upstream_connection_accepts now later request s ready total r =
        let (g, granted, next) = granted-IsReady env.encode now later s ready total in
        let (result, q) =
          authenticated_lem r.converted r.headers g
            (token_not_blank now later s g next.healthy granted) r.given r.method r.path in
        rw (r.conversion, r.valid, granted, q) ((result, refl), next)
