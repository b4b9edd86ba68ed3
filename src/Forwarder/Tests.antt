-- ===== src/Forwarder/Tests.antt =====
-- A request of a client that sends credentials of its own.
use flow_proxy.Base.{
  ◌≡◌, refl, false, none, some, [], ◌∷◌, ◌++◌, codes, text_eq, is_blank, utf8, insert, ok,
}
use flow_proxy.RequestFilter.Rules.{Request, pair}
use flow_proxy.Forwarder.{
  HeaderDict, target_host, is_authorization, bytes_lower, modify_request_headers,
}
use flow_proxy.Forwarder.Headers.{others, own, modify_request_headers_ok}

abbrev given : HeaderDict
given =
    (codes "authorization", pair (codes "Basic x") [])
    ∷ (codes "host", pair (codes "localhost") [])
    ∷ (codes "AUTHORIZATION", pair (codes "Basic y") [])
    ∷ []

abbrev request : Request
request = record {
  method = some (codes "GET");
  path = some (codes "/");
  headers = some given;
  body = none;
  buffer = none;
}

not_blank : is_blank (codes "t") ≡ false
unfolding is_blank
not_blank = refl

host_other : is_authorization (codes "host") ≡ false
unfolding is_authorization bytes_lower
host_other = refl

modify_request_headers_ok_example :
    modify_request_headers (some request) (codes "t")
    ≡ ok (record request {
      headers =
          some
            (insert (codes "Host") (pair (utf8 target_host) []) (others given ++ own (codes "t")));
    })
modify_request_headers_ok_example =
    modify_request_headers_ok request (codes "t") given not_blank refl
