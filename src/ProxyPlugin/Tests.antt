-- ===== src/ProxyPlugin/Tests.antt =====
-- A proxied request, with the configuration of the failover's tests.
use flow_proxy.Base.{
  ◌≡◌, refl, none, some, [], ◌∷◌, Text, Result, ok_inj, true, false, subst, codes, text_eq,
  is_blank, utf8, lookup, insert, delete, starts_with, ok,
}
use flow_proxy.LoadBalancer.{get_next_config}
use flow_proxy.Jwt.{Payload, validated_payload, cached_token, store, generate_token}
use flow_proxy.Jwt.Tests.{encode}
use flow_proxy.Failover.{config_name, get_config_and_token}
use flow_proxy.Failover.Tests.{services}
use flow_proxy.RequestFilter.Rules.{Request, pair}
use flow_proxy.Forwarder.{is_authorization, bytes_lower, validate_request, modify_request_headers}
use flow_proxy.ProxyPlugin.{Platform, convert_reverse_proxy_request, before_upstream_connection}
use flow_proxy.ProxyPlugin.Requests.{IsBacked, before_upstream_connection-IsBacked}
use flow_proxy.ProxyPlugin.Accepts.{before_upstream_connection_accepts}
use flow_proxy.Json.{arr, cons, nil}
use flow_proxy.Config.Tests.{usable}
use flow_proxy.ProcessServices.Startup.{IsReady, initialize-IsReady}
use flow_proxy.ProcessServices.Tests.{starts}

abbrev env : Platform
env = record {
  decode = λ b. ok b;
  set_url = λ r url. ok (record r { path = some url });
  encode = encode;
}

abbrev request : Request
request = record {
  method = some (codes "GET");
  path = some (codes "http://a/b");
  headers = some ((codes "authorization", pair (codes "Basic x") []) ∷ []);
  body = none;
  buffer = none;
}

abbrev result : Request
result = record request {
  headers = some (
      (codes "Authorization", pair (codes "Bearer idtkey") [])
      ∷ (codes "Host", pair (codes "flow.ciandt.com") [])
      ∷ []);
}

passes :
    before_upstream_connection env 0 1 request services
    ≡ (some result, (get_config_and_token encode 0 1 services).1)
unfolding before_upstream_connection convert_reverse_proxy_request validate_request
    modify_request_headers is_authorization bytes_lower get_config_and_token get_next_config
    generate_token validated_payload cached_token store config_name lookup insert delete is_blank
    utf8 starts_with
passes = refl

before_upstream_connection-IsBacked_example :
    IsBacked env 0 1 request result services (get_config_and_token encode 0 1 services).1
before_upstream_connection-IsBacked_example =
    before_upstream_connection-IsBacked env 0 1 request result services
      (get_config_and_token encode 0 1 services).1 passes

-- An encoder whose tokens are not blank.
abbrev dotted : Payload → Text → Result Text
dotted p secret = ok (codes "a.b.c")

abbrev signing : Platform
signing = record env { encode = dotted }

dotted_lem : (p : Payload) (t : Text) → dotted p p.client_secret ≡ ok t → is_blank t ≡ false
unfolding is_blank
dotted_lem p t h = subst (λ x. is_blank x ≡ false) (ok_inj h) refl

before_upstream_connection_accepts_example :
    ((out : Request) × ((before_upstream_connection signing 0 1 request services).0 ≡ some out))
    × IsReady dotted (before_upstream_connection signing 0 1 request services).1
unfolding starts_with convert_reverse_proxy_request validate_request
before_upstream_connection_accepts_example =
    before_upstream_connection_accepts signing dotted_lem 0 1 request services
      (initialize-IsReady dotted (ok true) (ok (arr (cons usable nil))) services starts)
      (λ p. (codes "a.b.c", refl))
      (record {
        converted = request;
        conversion = refl;
        valid = refl;
        headers = (codes "authorization", pair (codes "Basic x") []) ∷ [];
        given = refl;
        method = (codes "GET", refl);
        path = (codes "http://a/b", refl);
      })
