-- ===== src/Failover.antt =====
-- flow_proxy_plugin/plugins/base_plugin.py: a configuration and its token, with one failover.
-- The services are those of the process; `component_context` only tags log lines.
pub mod Outcome
pub mod Kept
pub mod Tests
use flow_proxy.Base.{
  ℕ, Bool, Option, none, some, List, Text, codes, lookup, text_eq, if◌then◌else◌, Exc,
  is_value_error, Result, ok, err,
}
use flow_proxy.Json.{Json, str, obj, entries, json_eq}
use flow_proxy.Config.{Config}
use flow_proxy.LoadBalancer
use flow_proxy.LoadBalancer.{LoadBalancer, get_next_config, mark_config_failed}
use flow_proxy.Jwt.{Cache, Payload, generate_token}

-- The state that a call reads and changes.
pub record Services : Type 0 where
  pub load_balancer : LoadBalancer Config
  pub cache : Cache

pub record Grant : Type 0 where
  pub config : Config
  pub config_name : Json
  pub jwt_token : Text

or_else : Option Json → Json → Json
or_else none d = d
or_else (some v) d = v

-- `config.get("name", config.get("clientId", "unknown"))`; a configuration that is no dict has no
-- `get`, and none such is loaded.
unfoldable pub config_name : Config → Json
unfolding or_else
config_name (obj fs) =
    or_else (lookup (codes "name") (entries fs))
      (or_else (lookup (codes "clientId") (entries fs)) (str (codes "unknown")))
config_name config = str (codes "unknown")

module _ (encode : Payload → Text → Result Text) where
  grant : Config → Result Text → Result Grant
  grant config (ok token) =
      ok (record { config = config; config_name = config_name config; jwt_token = token })
  grant config (err e) = err e

  -- Generate a token for the configuration that the balancer gave, and stop there.
  last_try : ℕ → LoadBalancer Config → Cache → Result Config → Result Grant × Services
  unfolding grant
  last_try now lb cache (ok config) = (
    grant config (generate_token encode cache now config).0,
    record { load_balancer = lb; cache = (generate_token encode cache now config).1 },
  )
  last_try now lb cache (err e) = (err e, record { load_balancer = lb; cache = cache })

  -- The `except ValueError` block.
  failover : ℕ → LoadBalancer Config → Cache → Config → Result Grant × Services
  unfolding last_try
  failover later lb cache config =
      let marked = mark_config_failed lb config in
      last_try later (get_next_config marked).1 cache (get_next_config marked).0

  after_generate : ℕ → LoadBalancer Config → Config → Result Text × Cache → Result Grant × Services
  unfolding grant failover
  after_generate later lb config (ok token, cache) =
      (grant config (ok token), record { load_balancer = lb; cache = cache })
  after_generate later lb config (err e, cache) =
      if is_value_error e.cls
      then failover later lb cache config
      else (err e, record { load_balancer = lb; cache = cache })

  first_try : ℕ → ℕ → LoadBalancer Config → Cache → Result Config → Result Grant × Services
  unfolding after_generate
  first_try now later lb cache (ok config) =
      after_generate later lb config (generate_token encode cache now config)
  first_try now later lb cache (err e) = (err e, record { load_balancer = lb; cache = cache })

  -- `now` and `later` are the times that the two calls of `generate_token` read.
  unfoldable pub get_config_and_token : ℕ → ℕ → Services → Result Grant × Services
  unfolding first_try
  get_config_and_token now later s =
      first_try now later (get_next_config s.load_balancer).1 s.cache
        (get_next_config s.load_balancer).0
