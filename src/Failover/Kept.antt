-- ===== src/Failover/Kept.antt =====
-- What a call does with the configurations that the process was given.
use flow_proxy.Base.{ℕ, ◌≡◌, refl, ◌∙◌, inl, inr, Text, Bool-cases, is_value_error, Result, ok, err}
use flow_proxy.Json.{json_eq}
use flow_proxy.Config.{Config}
use flow_proxy.LoadBalancer.{LoadBalancer, mark_config_failed}
use flow_proxy.LoadBalancer.Kept.{get_next_config-all_configs, mark_config_failed-all_configs}
use flow_proxy.Jwt.{Cache, Payload}
use flow_proxy.Failover.{
  Services, last_try, failover, after_generate, first_try, get_config_and_token,
}

module _ (encode : Payload → Text → Result Text) where
  last_try-all_configs :
      (now : ℕ) (lb : LoadBalancer Config) (cache : Cache) (r : Result Config)
      → (last_try encode now lb cache r).1.load_balancer.all_configs ≡ lb.all_configs
  unfolding last_try
  last_try-all_configs now lb cache (ok c) = refl
  last_try-all_configs now lb cache (err e) = refl

  after_generate-all_configs :
      (later : ℕ) (lb : LoadBalancer Config) (c : Config) (r : Result Text × Cache)
      → (after_generate encode later lb c r).1.load_balancer.all_configs ≡ lb.all_configs
  unfolding after_generate failover
  after_generate-all_configs later lb c (ok t, cache) = refl
  after_generate-all_configs later lb c (err e, cache) = elim (Bool-cases (is_value_error e.cls)) [
    | inl caught ↦ rw caught (
        last_try-all_configs later _ cache _
        ∙ get_next_config-all_configs (mark_config_failed lb c)
        ∙ mark_config_failed-all_configs lb c)
    | inr passed ↦ rw passed refl
  ]

  first_try-all_configs :
      (now later : ℕ) (lb : LoadBalancer Config) (cache : Cache) (r : Result Config)
      → (first_try encode now later lb cache r).1.load_balancer.all_configs ≡ lb.all_configs
  unfolding first_try
  first_try-all_configs now later lb cache (ok c) = after_generate-all_configs later lb c _
  first_try-all_configs now later lb cache (err e) = refl

  pub get_config_and_token-all_configs :
      (now later : ℕ) (s : Services)
      → (get_config_and_token encode now later s).1.load_balancer.all_configs
        ≡ s.load_balancer.all_configs
  unfolding get_config_and_token
  get_config_and_token-all_configs now later s =
      first_try-all_configs now later _ s.cache _ ∙ get_next_config-all_configs s.load_balancer
