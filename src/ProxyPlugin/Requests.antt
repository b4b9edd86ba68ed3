-- ===== src/ProxyPlugin/Requests.antt =====
-- What a request that goes on to the upstream is.
use flow_proxy.Base.{
  ℕ, ◌≡◌, refl, ap, ◌∙◌, ◌⊎◌, inl, inr, true, Option, some, [], ◌++◌, codes, text_eq, utf8, insert,
  Bool-cases, Result-cases, if_intro, Result, ok, err, ok_inj, some_inj,
}
use flow_proxy.Failover.{Services, Grant, get_config_and_token}
use flow_proxy.Failover.Outcome.{
  IsHealthy, Source, get_config_and_token_ok, get_config_and_token-IsHealthy,
}
use flow_proxy.RequestFilter.Rules.{Request, pair}
use flow_proxy.Forwarder.{HeaderDict, target_host, validate_request, modify_request_headers}
use flow_proxy.Forwarder.Headers.{others, own, modify_request_headers_inv}
use flow_proxy.ProxyPlugin.{
  Platform, decoded_or_default, logged, authenticated, or_none, intercepted,
  convert_reverse_proxy_request, before_upstream_connection,
}

-- A grant of this request, and the converted request with exactly its token.
pub record IsBacked (env : Platform) (now later : ℕ) (request result : Request) (s next : Services)
    : Type 0 where
  pub grant : Grant
  pub granted : get_config_and_token env.encode now later s ≡ (ok grant, next)
  pub source : Source env.encode now later s grant next
  pub converted : Request
  pub conversion : convert_reverse_proxy_request env request ≡ ok converted
  pub valid : validate_request (some converted) ≡ true
  pub headers : HeaderDict
  pub given : converted.headers ≡ some headers
  pub answer : result ≡ record converted {
    headers = some (
        insert (codes "Host") (pair (utf8 target_host) []) (others headers ++ own grant.jwt_token));
  }

module _ (env : Platform) where
  logged_inv : (request result : Request) → logged env request ≡ ok result → request ≡ result
  unfolding logged
  logged_inv request result h = elim (Result-cases (decoded_or_default env request.method)) [
    | inr (e, q) ↦ cc (rw q at h)
    | inl (m, q) ↦ elim (Result-cases (decoded_or_default env request.path)) [
      | inr (e, p) ↦ cc (rw (q, p) at h)
      | inl (t, p) ↦ ok_inj (rw (q, p) at h)
    ]
  ]

  or_none_inv :
      (r : Result Request) (result : Request) → or_none env r ≡ some result → r ≡ ok result
  unfolding or_none
  or_none_inv (ok r) result h = ap ok (some_inj h)
  or_none_inv (err e) result h = cc

  authenticated_inv :
      (request result : Request) (g : Grant)
      → authenticated env request (ok g) ≡ ok result
      → modify_request_headers (some request) g.jwt_token ≡ ok result
  unfolding authenticated
  authenticated_inv request result g h =
      elim (Result-cases (modify_request_headers (some request) g.jwt_token)) [
        | inr (e, q) ↦ cc (rw q at h)
        | inl (r, q) ↦ q ∙ ap ok (logged_inv r result (rw q at h))
      ]

  module _ (now later : ℕ) (request result : Request) (s next : Services) where
    answered :
        (r : Request) (granted : Result Grant)
        → convert_reverse_proxy_request env request ≡ ok r
        → validate_request (some r) ≡ true
        → get_config_and_token env.encode now later s ≡ (granted, next)
        → or_none env (authenticated env r granted) ≡ some result
        → IsBacked env now later request result s next
    unfolding authenticated
    answered r (err e) c v g h = cc (or_none_inv (err e) result h)
    answered r (ok grant) c v g h =
        let (headers, given, answer) =
          modify_request_headers_inv r result grant.jwt_token
            (authenticated_inv r result grant (or_none_inv _ result h)) in
        record {
          grant = grant;
          granted = g;
          source = get_config_and_token_ok env.encode now later s grant next g;
          converted = r;
          conversion = c;
          valid = v;
          headers = headers;
          given = given;
          answer = answer;
        }

    intercepted_inv :
        (r : Result Request)
        → convert_reverse_proxy_request env request ≡ r
        → intercepted env now later s r ≡ (some result, next)
        → IsBacked env now later request result s next
    unfolding intercepted
    intercepted_inv (err e) c h = cc
    intercepted_inv (ok r) c h = elim (Bool-cases (validate_request (some r))) [
      | inr v ↦ cc (rw v at h)
      | inl v ↦
          let q : (
            or_none env (authenticated env r (get_config_and_token env.encode now later s).0),
            (get_config_and_token env.encode now later s).1,
          )
              ≡ (some result, next) =
            rw v at h in
          answered r (get_config_and_token env.encode now later s).0 c v
            (λ i. ((get_config_and_token env.encode now later s).0, (q i).1)) (λ i. (q i).0)
    ]

    -- A proxied request goes on only when it passes validation after its conversion, and with a
    -- grant of its own; it then is that request, with its credentials replaced by the grant's token.
    pub before_upstream_connection-IsBacked :
        before_upstream_connection env now later request s ≡ (some result, next)
        → IsBacked env now later request result s next
    unfolding before_upstream_connection
    before_upstream_connection-IsBacked h =
        intercepted_inv (convert_reverse_proxy_request env request) refl h

  intercepted-IsHealthy :
      (now later : ℕ) (s : Services) (r : Result Request)
      → IsHealthy env.encode s
      → IsHealthy env.encode (intercepted env now later s r).1
  unfolding intercepted
  intercepted-IsHealthy now later s (err e) h = h
  intercepted-IsHealthy now later s (ok r) h =
      if_intro (λ (x : Option Request × Services). IsHealthy env.encode x.1)
        (validate_request (some r)) _ _ (get_config_and_token-IsHealthy env.encode now later s h) h

  -- Whatever the request, and whether it goes on or not, the services stay well formed.
  pub before_upstream_connection-IsHealthy :
      (now later : ℕ) (request : Request) (s : Services)
      → IsHealthy env.encode s
      → IsHealthy env.encode (before_upstream_connection env now later request s).1
  unfolding before_upstream_connection
  before_upstream_connection-IsHealthy now later request s h =
      intercepted-IsHealthy now later s (convert_reverse_proxy_request env request) h

  intercepted-next :
      (now later : ℕ) (s : Services) (r : Result Request)
      → ((intercepted env now later s r).1 ≡ s)
        ⊎ ((intercepted env now later s r).1 ≡ (get_config_and_token env.encode now later s).1)
  unfolding intercepted
  intercepted-next now later s (err e) = inl refl
  intercepted-next now later s (ok r) =
      if_intro
        (λ (x : Option Request × Services).
          (x.1 ≡ s) ⊎ (x.1 ≡ (get_config_and_token env.encode now later s).1))
        (validate_request (some r)) _ _ (inr refl) (inl refl)

  -- The services change by the call for the grant, or not at all.
  pub before_upstream_connection-next :
      (now later : ℕ) (request : Request) (s : Services)
      → ((before_upstream_connection env now later request s).1 ≡ s)
        ⊎ ((before_upstream_connection env now later request s).1
            ≡ (get_config_and_token env.encode now later s).1)
  unfolding before_upstream_connection
  before_upstream_connection-next now later request s =
      intercepted-next now later s (convert_reverse_proxy_request env request)
