-- ===== src/Forwarding/Handler.antt =====
-- What a handled request comes to.
use flow_proxy.Base.{
  ℕ, ◌≡◌, refl, sym, subst, ◌∙◌, ◌⊎◌, inl, inr, ap, Option, none, some, List, [], ◌∷◌, ◌++◌, Text,
  text_eq, Bytes, codes, lookup, All, Result, ok, err, ok_inj, Result-cases,
}
use flow_proxy.Json.{Json}
use flow_proxy.Failover.{Services, Grant, get_config_and_token}
use flow_proxy.Failover.Outcome.{Source, get_config_and_token_ok}
use flow_proxy.RequestFilter.Rules.{Request, FilterRule, find_matching_rule, get_headers_to_skip}
use flow_proxy.Forwarding.{
  Platform, UpstreamCall, calling, Setup, started, no_pipe, no_thread, build_headers, launch,
  launch_with, bearer, parse_stream_field, body_or_buffer, get_request_body, filtered_body,
  filtered_path, decoded_or, forward, authenticated, handle_begun, begin, handle_request,
}
use flow_proxy.Forwarding.Headers.{IsOwn, Lowers, build_headers-IsOwn, build_headers-lookup_own}
use flow_proxy.Forwarder.{target_host, target_base_url}
use flow_proxy.RequestFilter.Query.{filter_query_params}
use flow_proxy.RequestFilter.Body.{filter_body_params}

calling_inj : {a b : UpstreamCall} → calling a ≡ calling b → a ≡ b
calling_inj h = cc

-- The text of a part of the request line, or the default where it is not there or empty.
abbrev IsRead : Platform → Text → Option Bytes → Text → Type 0
IsRead env default none t = t ≡ default
IsRead env default (some []) t = t ≡ default
IsRead env default (some (b ∷ bs)) t = env.decode (b ∷ bs) ≡ ok t

-- The target's address, with the path less the query parameters of the rule.
abbrev IsUrl : Platform → Option FilterRule → Text → Text → Type 0
IsUrl env none path url = url ≡ target_base_url ++ path
IsUrl env (some rule) path url =
    url ≡ target_base_url ++ filter_query_params env.lower path rule.query_params_to_remove

-- The first that is there and not empty.
abbrev first_given : List (Option Bytes) → Option Bytes
first_given [] = none
first_given (some (b ∷ bs) ∷ others) = some (b ∷ bs)
first_given (some [] ∷ others) = first_given others
first_given (none ∷ others) = first_given others

-- The body of the request, or its buffer, less the body parameters of the rule.
abbrev IsBody : Platform → Option FilterRule → Request → Option Bytes → Type 0
IsBody env none request body = body ≡ first_given (request.body ∷ request.buffer ∷ [])
IsBody env (some rule) request body =
    body
    ≡ filter_body_params env.nested env.loads env.dumps
        (first_given (request.body ∷ request.buffer ∷ [])) rule.body_params_to_remove

-- What stands behind a call of the upstream: a grant of this request, and the request itself,
-- filtered by the rule that matches it.
pub record IsBacked (env : Platform) (now later : ℕ) (request : Request) (s next : Services)
    (call : UpstreamCall) : Type 0 where
  pub grant : Grant
  pub granted : get_config_and_token env.encode now later s ≡ (ok grant, next)
  pub source : Source env.encode now later s grant next
  pub method : IsRead env (codes "GET") request.method call.method
  pub path : Text
  pub path_read : IsRead env (codes "/") request.path path
  pub rule : Option FilterRule
  pub matched : rule ≡ find_matching_rule env.lower env.decode_replace request path
  pub url : IsUrl env rule path call.url
  pub built : build_headers env request grant.jwt_token rule ≡ ok call.headers
  pub own : All (IsOwn env.lower (get_headers_to_skip env.lower rule) grant.jwt_token) call.headers
  pub authorization : lookup (codes "Authorization") call.headers ≡ some (bearer grant.jwt_token)
  pub host : lookup (codes "Host") call.headers ≡ some target_host
  pub body : IsBody env rule request call.body
  pub stream : parse_stream_field env request ≡ ok call.stream

launch_inv : (setup : Setup) (call c : UpstreamCall) → launch setup call ≡ calling c → call ≡ c
unfolding launch
launch_inv started call c h = calling_inj h
launch_inv (no_pipe e) call c h = cc
launch_inv no_thread call c h = cc

decoded_or-IsRead :
    (env : Platform) (default : Text) (o : Option Bytes) (t : Text)
    → decoded_or env default o ≡ ok t
    → IsRead env default o t
unfolding decoded_or
decoded_or-IsRead env default none t h = sym (ok_inj h)
decoded_or-IsRead env default (some []) t h = sym (ok_inj h)
decoded_or-IsRead env default (some (b ∷ bs)) t h = h

filtered_path-IsUrl :
    (env : Platform) (rule : Option FilterRule) (path : Text)
    → IsUrl env rule path (target_base_url ++ filtered_path env path rule)
unfolding filtered_path
filtered_path-IsUrl env none path = refl
filtered_path-IsUrl env (some rule) path = refl

body_or_buffer_lem :
    (body buffer : Option Bytes) → body_or_buffer body buffer ≡ first_given (body ∷ buffer ∷ [])
unfolding body_or_buffer
body_or_buffer_lem (some (b ∷ bs)) buffer = refl
body_or_buffer_lem (some []) (some (b ∷ bs)) = refl
body_or_buffer_lem (some []) (some []) = refl
body_or_buffer_lem (some []) none = refl
body_or_buffer_lem none (some (b ∷ bs)) = refl
body_or_buffer_lem none (some []) = refl
body_or_buffer_lem none none = refl

get_request_body-IsBody :
    (env : Platform) (request : Request) (rule : Option FilterRule)
    → IsBody env rule request (get_request_body env request rule)
unfolding get_request_body filtered_body
get_request_body-IsBody env request none = body_or_buffer_lem request.body request.buffer
get_request_body-IsBody env request (some rule) =
    ap (λ o. filter_body_params env.nested env.loads env.dumps o rule.body_params_to_remove)
      (body_or_buffer_lem request.body request.buffer)

begin_inv :
    (env : Platform) (request : Request) (method path : Text) (stream : Option Json)
    → begin env request ≡ ok (method, path, stream)
    → (decoded_or env (codes "GET") request.method ≡ ok method)
      × (decoded_or env (codes "/") request.path ≡ ok path)
      × (parse_stream_field env request ≡ ok stream)
unfolding begin
begin_inv env request method path stream h =
    elim (Result-cases (decoded_or env (codes "GET") request.method)) [
      | inr (e, x) ↦ cc (rw x at h)
      | inl (m, x) ↦ elim (Result-cases (decoded_or env (codes "/") request.path)) [
        | inr (e, y) ↦ cc (rw (x, y) at h)
        | inl (p, y) ↦ elim (Result-cases (parse_stream_field env request)) [
          | inr (e, z) ↦ cc (rw (x, y, z) at h)
          | inl (st, z) ↦
              let q : ◌≡◌ {A = Text × Text × Option Json} (m, p, st) (method, path, stream) =
                ok_inj (rw (x, y, z) at h) in
              (x ∙ ap (λ t. ok t.0) q, y ∙ ap (λ t. ok t.1) q, z ∙ ap (λ t. ok t.2) q)
        ]
      ]
    ]

module _ (env : Platform) (setup : Setup) (request : Request) where
  -- The call that is launched, and its headers.
  launched_call :
      (method path : Text) (stream : Option Json) (rule : Option FilterRule)
      (r : Result (List (Text × Text))) (c : UpstreamCall)
      → launch_with env setup request method path stream rule r ≡ calling c
      → (headers : List (Text × Text)) × (r ≡ ok headers)
        × (◌≡◌ {A = UpstreamCall}
            (record {
              method = method;
              url = target_base_url ++ filtered_path env path rule;
              headers = headers;
              body = get_request_body env request rule;
              stream = stream;
            })
            c)
  unfolding launch_with
  launched_call method path stream rule (err e) c h = cc
  launched_call method path stream rule (ok headers) c h = (headers, refl, launch_inv setup _ c h)

  module _ (now later : ℕ) (s next : Services) (call : UpstreamCall)
      (lowers : Lowers env.lower) where
    backed :
        (method path : Text) (stream : Option Json) (r : Result Grant)
        → begin env request ≡ ok (method, path, stream)
        → get_config_and_token env.encode now later s ≡ (r, next)
        → authenticated env setup request method path stream r ≡ calling call
        → IsBacked env now later request s next call
    unfolding authenticated forward
    backed method path stream (err e) begun q h = cc
    backed method path stream (ok g) begun q h =
        let rule = find_matching_rule env.lower env.decode_replace request path in
        let (m, p, st) = begin_inv env request method path stream begun in
        let (headers, built, same) =
          launched_call method path stream rule (build_headers env request g.jwt_token rule) call
            h in
        let (authorization, host) =
          build_headers-lookup_own env request g.jwt_token rule headers lowers built in
        subst (IsBacked env now later request s next) same (record {
          grant = g;
          granted = q;
          source = get_config_and_token_ok env.encode now later s g next q;
          method = decoded_or-IsRead env (codes "GET") request.method method m;
          path = path;
          path_read = decoded_or-IsRead env (codes "/") request.path path p;
          rule = rule;
          matched = refl;
          url = filtered_path-IsUrl env rule path;
          built = built;
          own = build_headers-IsOwn env request g.jwt_token rule headers built;
          authorization = authorization;
          host = host;
          body = get_request_body-IsBody env request rule;
          stream = st;
        })

    begun-IsBacked :
        (r : Result (Text × Text × Option Json))
        → begin env request ≡ r
        → handle_begun env setup now later request s r ≡ (calling call, next)
        → IsBacked env now later request s next call
    unfolding handle_begun
    begun-IsBacked (err e) begun h = cc
    begun-IsBacked (ok (method, path, stream)) begun h =
        backed method path stream (get_config_and_token env.encode now later s).0 begun
          (λ i. ((get_config_and_token env.encode now later s).0, (h i).1)) (λ i. (h i).0)

    -- Where `str.lower` gives "authorization" for "Authorization" and "host" for "Host": the
    -- upstream is called only with a grant of this very request, whose token is cached for one of
    -- the balancer's configurations. The call has the request's method, its path and body less
    -- what the rule that matches the request takes out of them, and what the body says about
    -- streaming; its headers are those that are built for the token and that rule, so it has the
    -- token as its Authorization and the target as its Host, and nothing else is there under the
    -- name of a skipped header, in any spelling.
    pub handle_request-IsBacked :
        handle_request env setup now later request s ≡ (calling call, next)
        → IsBacked env now later request s next call
    unfolding handle_request
    handle_request-IsBacked h = begun-IsBacked (begin env request) refl h

module _ (env : Platform) (setup : Setup) (now later : ℕ) (request : Request) (s : Services) where
  begun-next :
      (r : Result (Text × Text × Option Json))
      → ((handle_begun env setup now later request s r).1 ≡ s)
        ⊎ ((handle_begun env setup now later request s r).1
            ≡ (get_config_and_token env.encode now later s).1)
  unfolding handle_begun
  begun-next (ok (method, path, stream)) = inr refl
  begun-next (err e) = inl refl

  -- The services change by the call for the grant, or not at all.
  pub handle_request-next :
      ((handle_request env setup now later request s).1 ≡ s)
      ⊎ ((handle_request env setup now later request s).1
          ≡ (get_config_and_token env.encode now later s).1)
  unfolding handle_request
  handle_request-next = begun-next (begin env request)
