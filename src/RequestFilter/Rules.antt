-- ===== src/RequestFilter/Rules.antt =====
-- flow_proxy_plugin/plugins/request_filter.py: the rules and which requests they are for. Of
-- proxy.py's parsed request this is what the program reads; header names are bytes, a value is
-- bytes or a tuple of them.
use flow_proxy.Base.{
  Bool, false, ◌&&◌, ◌||◌, Option, none, some, List, [], ◌∷◌, ◌++◌, map, Text, Bytes, codes,
  text_eq, contains, starts_with, cut, if◌then◌else◌,
}

pub data HeaderValue : Type 0 where
  pair : Bytes → Bytes → HeaderValue
  single : Bytes → HeaderValue

pub record Request : Type 0 where
  pub method : Option Bytes
  pub path : Option Bytes
  pub headers : Option (List (Bytes × HeaderValue))
  pub body : Option Bytes
  pub buffer : Option Bytes

pub record FilterRule : Type 0 where
  pub name : Text
  pub matcher : Request → Text → Bool
  pub query_params_to_remove : List Text
  pub body_params_to_remove : List Text
  pub headers_to_remove : List Text

before_query : Text → Option (Text × Text) → Text
before_query path none = path
before_query path (some (base, query)) = base

abbrev pub anthropic_headers : List Text
anthropic_headers = codes "anthropic-version" ∷ codes "anthropic-beta" ∷ codes "x-api-key" ∷ []

-- `decode` is `bytes.decode` with errors replaced.
module _ (lower : Text → Text) (decode : Bytes → Text) where
  any_anthropic : List (Bytes × HeaderValue) → Bool
  any_anthropic [] = false
  any_anthropic ((name, value) ∷ rest) =
      contains (lower (decode name)) anthropic_headers || any_anthropic rest

  has_anthropic : Option (List (Bytes × HeaderValue)) → Bool
  unfolding any_anthropic
  has_anthropic none = false
  has_anthropic (some headers) = any_anthropic headers

  unfoldable pub is_anthropic_messages_request : Request → Text → Bool
  unfolding has_anthropic before_query
  is_anthropic_messages_request request path =
      starts_with (before_query path (cut 63 path)) (codes "/v1/messages")
      && has_anthropic request.headers

  -- `_initialize_rules`
  abbrev pub rules : List FilterRule
  rules =
      record {
        name = codes "Anthropic Messages API";
        matcher = is_anthropic_messages_request;
        query_params_to_remove = [];
        body_params_to_remove = codes "context_management" ∷ [];
        headers_to_remove = codes "anthropic-beta" ∷ [];
      }
      ∷ []

  first_match : Request → Text → List FilterRule → Option FilterRule
  first_match request path [] = none
  first_match request path (rule ∷ rest) =
      let later = first_match request path rest in
      if rule.matcher request path then some rule else later

  unfoldable pub find_matching_rule : Request → Text → Option FilterRule
  unfolding first_match
  find_matching_rule request path = first_match request path rules

abbrev pub skip_headers : List Text
skip_headers =
    codes "host" ∷ codes "connection" ∷ codes "content-length" ∷ codes "authorization" ∷ []

-- The set as a list.
unfoldable pub get_headers_to_skip : (Text → Text) → Option FilterRule → List Text
get_headers_to_skip lower none = skip_headers
get_headers_to_skip lower (some rule) = skip_headers ++ map lower rule.headers_to_remove
