-- ===== src/RequestFilter/Tests.antt =====
-- The filters at concrete requests, with ASCII letters for `str.lower` and a codec for one body.
use flow_proxy.Base.{
  ◌≡◌, refl, true, false, ◌&&◌, some, List, [], ◌∷◌, ◌+◌, map, Text, Bytes, codes, text_eq, leb,
  if◌then◌else◌, keep_if, cut, split, join, Result, ok,
}
use flow_proxy.Json.{Json, num, bool, obj, Fields, end, field}
use flow_proxy.RequestFilter.Query.{
  key_of, stays, filter_query_params, parsed, filter_query_params-parsed,
}
use flow_proxy.RequestFilter.Body.{Nested, keys, or_same, filter_body_params}
use flow_proxy.RequestFilter.Body.Plain.{Distinct, without, any_key, filter_body_params_plain}

abbrev pub ascii_lower : Text → Text
ascii_lower s = map (λ c. if leb 65 c && leb c 90 then c + 32 else c) s

abbrev path : Text
path = codes "/v1/messages?beta=true&Debug=1&x"

abbrev to_remove : List Text
to_remove = codes "Beta" ∷ codes "debug" ∷ []

filters : filter_query_params ascii_lower path to_remove ≡ codes "/v1/messages?x"
unfolding filter_query_params stays key_of keep_if cut split join
filters = refl

filter_query_params-parsed_example :
    parsed (filter_query_params ascii_lower path to_remove)
    ≡ ((parsed path).0, keep_if (stays ascii_lower to_remove) (parsed path).1)
filter_query_params-parsed_example = filter_query_params-parsed ascii_lower path to_remove

abbrev document : Fields
document =
    field (codes "model") (num (codes "1")) (field (codes "context_management") (bool true) end)

abbrev body : Bytes
body = codes "{\"model\": 1, \"context_management\": true}"

abbrev pub loads : Bytes → Result Json
loads b = ok (obj document)

abbrev pub dumps : Json → Result Bytes
dumps d = ok (codes "{\"model\": 1}")

abbrev pub no_nesting : Nested
no_nesting = record {
  has = λ d p. ok false;
  get = λ d p. ok d;
  delete = λ d p. ok d;
  set = λ d p v. d;
}

abbrev names : List Text
names = codes "context_management" ∷ []

document-Distinct : Distinct document
unfolding Distinct keys
document-Distinct = (refl, (refl, tt))

filter_body_params_plain_example :
    filter_body_params no_nesting loads dumps (some body) names
    ≡ some (
        if any_key names document
        then or_same body (dumps (obj (without names document)))
        else body)
filter_body_params_plain_example =
    filter_body_params_plain no_nesting loads dumps body names document (λ q. cc) refl
      document-Distinct (refl, tt)
