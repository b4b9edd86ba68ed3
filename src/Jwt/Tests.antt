-- ===== src/Jwt/Tests.antt =====
-- Token generation at concrete configurations, with an encoder for the tests.
use flow_proxy.Base.{
  ◌≡◌, ◌*◌, refl, [], ◌∷◌, ◌++◌, Text, codes, text_eq, lookup, insert, is_blank, Result, ok, arith,
}
use flow_proxy.Json.{str, obj, end, field}
use flow_proxy.Config.{Config}
use flow_proxy.Config.Tests.{usable}
use flow_proxy.Jwt.{Cache, Payload, second, validated_payload, cached_token, store, generate_token}
use flow_proxy.Jwt.Freshness.{IsServed, IsSound, generate_token-IsServed, generate_token_shared}

abbrev pub encode : Payload → Text → Result Text
encode p secret = ok (p.client_id ++ p.tenant ++ secret)

abbrev other_tenant : Config
other_tenant = obj (
    field (codes "clientId") (str (codes "id")) (
      field (codes "clientSecret") (str (codes "other"))
        (field (codes "tenant") (str (codes "u")) end)))

abbrev payload : Payload
payload = record { client_id = codes "id"; client_secret = codes "key"; tenant = codes "t" }

abbrev other_payload : Payload
other_payload = record { client_id = codes "id"; client_secret = codes "other"; tenant = codes "u" }

usable_payload : validated_payload usable ≡ ok payload
unfolding validated_payload lookup is_blank
usable_payload = refl

other_tenant_payload : validated_payload other_tenant ≡ ok other_payload
unfolding validated_payload lookup is_blank
other_tenant_payload = refl

abbrev filed : Cache
filed = (codes "id", record { token = codes "idtkey"; expiry = 3600 * second }) ∷ []

generated : generate_token encode [] 0 usable ≡ (ok (codes "idtkey"), filed)
unfolding generate_token validated_payload cached_token store lookup insert is_blank
generated = refl

generate_token-IsServed_example : IsServed encode filed 0 (codes "id") (codes "idtkey")
generate_token-IsServed_example =
    generate_token-IsServed encode [] 0 usable payload (codes "idtkey") filed usable_payload
      generated

generate_token_shared_example :
    (generate_token encode (generate_token encode [] 0 usable).1 (60 * second) other_tenant).0
    ≡ ok (codes "idtkey")
unfolding cached_token lookup
generate_token_shared_example =
    generate_token_shared encode [] 0 (60 * second) usable other_tenant payload other_payload
      (codes "idtkey") usable_payload other_tenant_payload refl refl refl (omega arith)

pub empty-IsSound : IsSound encode []
unfolding lookup
empty-IsSound id e h = cc
