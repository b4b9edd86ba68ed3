-- ===== src/ProcessServices.antt =====
-- flow_proxy_plugin/utils/process_services.py: the services of a process.
-- `Singleton` and `HttpClient` have the threads that ask for them, a shared access at a time. The
-- logger's set-up is in `Initialize`; reading the secrets file and making an `httpx.Client` are
-- parameters.
pub mod Singleton
pub mod HttpClient
pub mod Startup
pub mod Initialize
pub mod Tests
use flow_proxy.Base.{Bool, List, [], Result, ok, err, ◌>>=◌}
use flow_proxy.Json.{Json}
use flow_proxy.Config.{load_secrets}
use flow_proxy.LoadBalancer.{init}
use flow_proxy.Failover.{Services}

-- `_initialize`: the configurations, a balancer over them, and a generator with an empty cache.
unfoldable pub initialize : Result Bool → Result Json → Result Services
initialize present read = do
  configs ← load_secrets present read
  load_balancer ← init configs
  ok (record { load_balancer = load_balancer; cache = [] })
