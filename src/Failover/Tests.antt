-- ===== src/Failover/Tests.antt =====
-- A call for a configuration and its token, with one configuration.
use flow_proxy.Base.{◌≡◌, refl, [], ◌∷◌, ◌++◌, codes, text_eq, lookup, insert, is_blank, ok}
use flow_proxy.Json.{str, json_eq}
use flow_proxy.Config.{Config}
use flow_proxy.Config.Tests.{usable, usable-IsUsable}
use flow_proxy.LoadBalancer.{LoadBalancer, init, get_next_config}
use flow_proxy.LoadBalancer.Invariant.{init-IsValid}
use flow_proxy.Jwt.{validated_payload, cached_token, store, generate_token}
use flow_proxy.Jwt.Tests.{encode, empty-IsSound}
use flow_proxy.Failover.{Services, Grant, config_name, get_config_and_token}
use flow_proxy.Failover.Outcome.{
  IsHealthy, Source, get_config_and_token_ok, get_config_and_token_total,
}

abbrev single : LoadBalancer Config
single = record {
  all_configs = usable ∷ [];
  available_configs = usable ∷ [];
  failed_configs = [];
  current_index = 0;
  total_requests = 0;
}

abbrev pub services : Services
services = record { load_balancer = single; cache = [] }

single-init : init (usable ∷ []) ≡ ok single
unfolding init
single-init = refl

pub services-IsHealthy : IsHealthy encode services
services-IsHealthy = record {
  balanced = init-IsValid (usable ∷ []) single single-init;
  sound = empty-IsSound;
}

granted : Grant
granted = record { config = usable; config_name = str (codes "first"); jwt_token = codes "idtkey" }

gives : (get_config_and_token encode 0 1 services).0 ≡ ok granted
unfolding get_config_and_token get_next_config generate_token validated_payload cached_token store
    config_name lookup insert is_blank granted
gives = refl

get_config_and_token_ok_example :
    Source encode 0 1 services granted (get_config_and_token encode 0 1 services).1
get_config_and_token_ok_example =
    get_config_and_token_ok encode 0 1 services granted (get_config_and_token encode 0 1 services).1
      (λ i. (gives i, (get_config_and_token encode 0 1 services).1))

get_config_and_token_total_example :
    (g : Grant) × ((get_config_and_token encode 0 1 services).0 ≡ ok g)
    × ((get_config_and_token encode 0 1 services).1.load_balancer.available_configs ≡ usable ∷ [])
get_config_and_token_total_example =
    get_config_and_token_total encode 0 1 services services-IsHealthy (usable-IsUsable, tt)
      (λ q. cc) (λ p. (p.client_id ++ p.tenant ++ p.client_secret, refl))
