-- ===== src/Forwarding/Accepts.antt =====
-- What becomes of a request that can be read and has its grant.
use flow_proxy.Base.{
  ℕ, ◌≡◌, refl, inl, inr, true, Bool-cases, Option, none, some, List, [], ◌∷◌, Text, Bytes, codes,
  contains, insert, text_eq, All, Exc, Result, ok, err, Result-cases, lookup,
}
use flow_proxy.Json.{Json, obj, entries}
use flow_proxy.Failover.{Services, Grant, get_config_and_token}
use flow_proxy.RequestFilter.Rules.{Request, HeaderValue, FilterRule, find_matching_rule}
use flow_proxy.Forwarding.{
  Platform, UpstreamCall, calling, started, is_undecodable, stream_of, parse_body,
  parse_stream_field, body_or_buffer, header_bytes, own_headers, put_header, add_headers,
  headers_from, build_headers, decoded_or, launch, launch_with, forward, authenticated, begin,
  handle_begun, handle_request,
}

abbrev IsOk {ℓ} : {A : Type ℓ} → Result A → Type ℓ
IsOk {A} r = (a : A) × (r ≡ ok a)

stream_of_read : (v : Json) → IsOk (stream_of (ok v))
unfolding stream_of
stream_of_read (obj fs) = (lookup (codes "stream") (entries fs), refl)
stream_of_read v = (none, refl)

module _ (env : Platform) where
  -- A header's name and value decode.
  abbrev IsDecoded : Bytes × HeaderValue → Type 0
  IsDecoded h = IsOk (env.decode h.0) × IsOk (env.decode (header_bytes h.1))

  abbrev AreDecoded : Option (List (Bytes × HeaderValue)) → Type 0
  AreDecoded none = Unit
  AreDecoded (some headers) = All IsDecoded headers

  abbrev IsText : Option Bytes → Type 0
  IsText none = Unit
  IsText (some b) = IsOk (env.decode b)

  -- The bytes of the request line and of the headers decode.
  pub record IsReadable (request : Request) : Type 0 where
    pub method : IsText request.method
    pub path : IsText request.path
    pub headers : AreDecoded request.headers

  decoded_or-IsOk : (default : Text) (o : Option Bytes) → IsText o → IsOk (decoded_or env default o)
  unfolding decoded_or
  decoded_or-IsOk default none h = (default, refl)
  decoded_or-IsOk default (some []) h = (default, refl)
  decoded_or-IsOk default (some (b ∷ bs)) h = h

  put_header-IsOk :
      (skip : List Text) (name : Text) (value : HeaderValue) (headers : List (Text × Text))
      → IsOk (env.decode (header_bytes value))
      → IsOk (put_header env skip name value headers)
  unfolding put_header
  put_header-IsOk skip name value headers (v, h) =
      elim (Bool-cases (contains (env.lower name) skip)) [
        | inl skipped ↦ rw skipped (headers, refl)
        | inr sent ↦ rw (sent, h) (insert name v headers, refl)
      ]

  add_headers-IsOk :
      (skip : List Text) (given : List (Bytes × HeaderValue)) (headers : List (Text × Text))
      → All IsDecoded given
      → IsOk (add_headers env skip given headers)
  unfolding add_headers
  add_headers-IsOk skip [] headers h = (headers, refl)
  add_headers-IsOk skip ((name, value) ∷ rest) headers (((text, n), v), hs) =
      let (more, put) = put_header-IsOk skip text value headers v in
      rw (n, put) (add_headers-IsOk skip rest more hs)

  headers_from-IsOk :
      (token : Text) (rule : Option FilterRule) (o : Option (List (Bytes × HeaderValue)))
      → AreDecoded o
      → IsOk (headers_from env token rule o)
  unfolding headers_from
  headers_from-IsOk token rule none h = (own_headers token, refl)
  headers_from-IsOk token rule (some headers) h = add_headers-IsOk _ headers _ h

  module _
      (json : (b : Bytes) (e : Exc) → env.loads_bytes b ≡ err e → is_undecodable e.cls ≡ true) where
    parse_body-IsOk : (o : Option Bytes) → IsOk (parse_body env.loads_bytes o)
    unfolding parse_body stream_of
    parse_body-IsOk none = (none, refl)
    parse_body-IsOk (some b) = elim (Result-cases (env.loads_bytes b)) [
      | inl (v, read) ↦ rw read (stream_of_read v)
      | inr (e, failed) ↦ rw (failed, json b e failed) (none, refl)
    ]

    begin-IsOk : (request : Request) → IsReadable request → IsOk (begin env request)
    unfolding begin parse_stream_field
    begin-IsOk request r =
        let (method, m) = decoded_or-IsOk (codes "GET") request.method r.method in
        let (path, p) = decoded_or-IsOk (codes "/") request.path r.path in
        let (stream, s) = parse_body-IsOk (body_or_buffer request.body request.buffer) in
        rw (m, p, s) ((method, path, stream), refl)

    authenticated_calls :
        (request : Request) (method path : Text) (stream : Option Json) (g : Grant)
        → IsReadable request
        → (c : UpstreamCall) × (authenticated env started request method path stream (ok g)
            ≡ calling c)
    unfolding authenticated forward launch_with launch build_headers
    authenticated_calls request method path stream g r =
        let (headers, h) =
          headers_from-IsOk g.jwt_token
            (find_matching_rule env.lower env.decode_replace request path) request.headers
            r.headers in
        rw h (_, refl)

    -- A request whose bytes decode and that has its grant goes upstream, where `json.loads` raises
    -- nothing but the two errors that are caught.
    pub handle_request_calls :
        (now later : ℕ) (request : Request) (s next : Services) (g : Grant)
        → IsReadable request
        → get_config_and_token env.encode now later s ≡ (ok g, next)
        → (c : UpstreamCall) × (handle_request env started now later request s ≡ (calling c, next))
    unfolding handle_request handle_begun
    handle_request_calls now later request s next g r granted =
        let ((method, path, stream), b) = begin-IsOk request r in
        let (c, q) = authenticated_calls request method path stream g r in
        (c, rw (b, granted) (λ i. (q i, next)))
