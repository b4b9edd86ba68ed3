-- ===== src/Forwarding/Original.antt =====
-- The headers that are sent upstream for a request that proxy.py parsed:
-- flow_proxy_plugin/plugins/base_plugin.py, `_extract_header_value`, in `_build_headers` of
-- flow_proxy_plugin/plugins/web_server_plugin.py.
use flow_proxy.Base.{
  ◌==◌, ◌≡◌, refl, inl, inr, Bool, false, Bool-cases, Option, none, some, List, [], ◌∷◌, Text,
  Bytes, text_eq, contains, lookup, if◌then◌else◌, Result, ok, err,
}
use flow_proxy.RequestFilter.Rules.{Request, HeaderValue, pair, FilterRule, get_headers_to_skip}
use flow_proxy.Forwarding.{Platform, own_headers, header_bytes, build_headers}
use flow_proxy.Forwarding.Headers.{found, prefer, sent, build_headers-lookup}

-- How `HttpParser.headers` of proxy.py keeps headers: the name in lower case, with the pair of the
-- name as it was sent and the value.
abbrev pub parsed_headers : (Bytes → Bytes) → List (Bytes × Bytes) → List (Bytes × HeaderValue)
parsed_headers lower [] = []
parsed_headers lower ((name, value) ∷ rest) =
    (lower name, pair name value) ∷ parsed_headers lower rest

named : Text → Result Text → Bool
named k (ok name) = name == k
named k (err e) = false

text_of : Result Text → Option Text
text_of (ok t) = some t
text_of (err e) = none

-- The last header that is kept under `k`: its name, as it was sent.
pub spelled : Platform → (Bytes → Bytes) → Text → List (Bytes × Bytes) → Option Text
unfolding named text_of
spelled env lower k [] = none
spelled env lower k ((name, value) ∷ rest) =
    let this = if named k (env.decode (lower name)) then text_of (env.decode name) else none in
    prefer (spelled env lower k rest) this

found_lem :
    (k : Text) (name v : Result Text) → found k name v ≡ (if named k name then text_of v else none)
unfolding found named text_of
found_lem k (ok name) (ok v) = refl
found_lem k (ok name) (err e) = elim (Bool-cases (name == k)) [
  | inl same ↦ rw same refl
  | inr other ↦ rw other refl
]
found_lem k (err e) v = refl

sent-spelled :
    (env : Platform) (lower : Bytes → Bytes) (k : Text) (given : List (Bytes × Bytes))
    → sent env k (parsed_headers lower given) ≡ spelled env lower k given
unfolding sent spelled header_bytes
sent-spelled env lower k [] = refl
sent-spelled env lower k ((name, value) ∷ rest) =
    rw (sent-spelled env lower k rest, found_lem k (env.decode (lower name)) (env.decode name)) refl

-- Of headers that are kept as proxy.py keeps them, for every header name: a skipped one has what
-- the proxy itself sets, in exactly that spelling, and nothing else. Any other one, under which
-- proxy.py keeps a header of the client, has as its value the header's own name, as the client
-- spelled it in the last such header, whatever value the client gave; one under which it keeps none
-- has what the proxy sets.
pub build_headers-spelled :
    (env : Platform) (lower_bytes : Bytes → Bytes) (request : Request) (token : Text)
    (rule : Option FilterRule) (given : List (Bytes × Bytes)) (out : List (Text × Text)) (k : Text)
    → request.headers ≡ some (parsed_headers lower_bytes given)
    → build_headers env request token rule ≡ ok out
    → lookup k out ≡ (
        if contains (env.lower k) (get_headers_to_skip env.lower rule)
        then lookup k (own_headers token)
        else prefer (spelled env lower_bytes k given) (lookup k (own_headers token)))
build_headers-spelled env lower_bytes request token rule given out k g h =
    rw (← sent-spelled env lower_bytes k given)
      (build_headers-lookup env request token rule (parsed_headers lower_bytes given) out k g h)
