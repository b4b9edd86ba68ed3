-- ===== src/Forwarding/Tests.antt =====
-- A handled request, with the configuration of the failover's tests.
use flow_proxy.Base.{
  ◌≡◌, refl, none, some, List, [], ◌∷◌, ◌++◌, Text, Bytes, codes, text_eq, lookup, insert, contains,
  cut, starts_with, is_blank, ok, if◌then◌else◌,
}
use flow_proxy.LoadBalancer.{get_next_config}
use flow_proxy.Jwt.{validated_payload, cached_token, store, generate_token}
use flow_proxy.Jwt.Tests.{encode}
use flow_proxy.Failover.{config_name, get_config_and_token}
use flow_proxy.Failover.Tests.{services}
use flow_proxy.RequestFilter.Rules.{
  Request, find_matching_rule, is_anthropic_messages_request, get_headers_to_skip,
}
use flow_proxy.RequestFilter.Query.{filter_query_params}
use flow_proxy.RequestFilter.Body.{filter_body_params}
use flow_proxy.RequestFilter.Tests.{ascii_lower, loads, dumps, no_nesting}
use flow_proxy.Forwarder.{target_base_url}
use flow_proxy.Forwarding.{
  Platform, UpstreamCall, calling, started, own_headers, build_headers, get_request_body,
  parse_stream_field, handle_request,
}
use flow_proxy.Forwarding.Headers.{prefer}
use flow_proxy.Forwarding.Original.{parsed_headers, spelled, build_headers-spelled}
use flow_proxy.Forwarding.Handler.{IsBacked, handle_request-IsBacked}

abbrev pub env : Platform
env = record {
  decode = λ b. ok b;
  decode_replace = λ b. b;
  lower = ascii_lower;
  loads_bytes = loads;
  loads = loads;
  dumps = dumps;
  nested = no_nesting;
  encode = encode;
}

abbrev pub given : List (Bytes × Bytes)
given =
    (codes "AUTHORIZATION", codes "Basic x")
    ∷ (codes "Accept", codes "a/b")
    ∷ (codes "Anthropic-Beta", codes "1")
    ∷ []

abbrev pub request : Request
request = record {
  method = none;
  path = some (codes "/v1/messages");
  headers = some (parsed_headers ascii_lower given);
  body = none;
  buffer = none;
}

abbrev built : List (Text × Text)
built =
    own_headers (codes "t")
    ++ (codes "accept", codes "Accept") ∷ (codes "anthropic-beta", codes "Anthropic-Beta") ∷ []

builds : build_headers env request (codes "t") none ≡ ok built
unfolding build_headers get_headers_to_skip insert
builds = refl

build_headers-spelled_example : lookup (codes "accept") built ≡ (
    if contains (codes "accept") (get_headers_to_skip ascii_lower none)
    then lookup (codes "accept") (own_headers (codes "t"))
    else prefer
        (spelled env ascii_lower (codes "accept") given)
        (lookup (codes "accept") (own_headers (codes "t"))))
build_headers-spelled_example =
    build_headers-spelled env ascii_lower request (codes "t") none given built (codes "accept") refl
      builds

abbrev call : UpstreamCall
call = record {
  method = codes "GET";
  url = target_base_url ++ codes "/v1/messages";
  headers = own_headers (codes "idtkey") ++ (codes "accept", codes "Accept") ∷ [];
  body = none;
  stream = none;
}

handles :
    handle_request env started 0 1 request services
    ≡ (calling call, (get_config_and_token encode 0 1 services).1)
unfolding handle_request build_headers get_request_body find_matching_rule
    is_anthropic_messages_request filter_query_params get_headers_to_skip get_config_and_token
    get_next_config generate_token validated_payload cached_token store config_name lookup insert
    is_blank cut starts_with parse_stream_field filter_body_params
handles = refl

handle_request-IsBacked_example :
    IsBacked env 0 1 request services (get_config_and_token encode 0 1 services).1 call
handle_request-IsBacked_example =
    handle_request-IsBacked env started request 0 1 services
      (get_config_and_token encode 0 1 services).1 call (refl, refl) handles
