-- ===== src/LoadBalancer/Naming.antt =====
-- How the balancer of flow_proxy_plugin/core/load_balancer.py names a configuration in its log
-- lines, and what it tells of itself. A configuration is a dict, as those that are loaded are;
-- what a slice of a `clientId` that is no text gives, the number that `id` gives, and `str` of a
-- JSON value are parameters.
use flow_proxy.Base.{
  ℕ, ◌≡◌, refl, sym, subst, inl, inr, Option, none, some, Option-cases, ◌++◌, Text, codes, show,
  text_eq, lookup, length, take, Result, ok, ◌>>=◌,
}
use flow_proxy.Json.{Json, str, obj, Fields, entries}
use flow_proxy.Config.Validation.{IsUsable}
use flow_proxy.LoadBalancer.{LoadBalancer, get_stats}

pub usage_line {ℓ} : {C : Type ℓ} → (Json → Text) → LoadBalancer C → Json → Text
usage_line str_of s name =
    codes "Using config '"
    ++ (str_of name
        ++ (codes "' (request #"
            ++ (show s.total_requests
                ++ (codes ", index " ++ (show s.current_index ++ codes ")")))))

module _ (slice : Json → Result Text) (id_of : Fields → ℕ) where
  sliced : Json → Result Text
  sliced (str t) = ok (take 8 t)
  sliced v = slice v

  client_name : Fields → Option Json → Result Json
  unfolding sliced
  client_name fs none = ok (str (codes "config-" ++ show (id_of fs)))
  client_name fs (some v) = sliced v >>= (λ t. ok (str (codes "config-" ++ (t ++ codes "..."))))

  name_or_client : Fields → Option Json → Result Json
  unfolding client_name
  name_or_client fs (some name) = ok name
  name_or_client fs none = client_name fs (lookup (codes "clientId") (entries fs))

  -- `_extract_config_name`
  unfoldable pub extract_config_name : Fields → Result Json
  unfolding name_or_client
  extract_config_name fs = name_or_client fs (lookup (codes "name") (entries fs))

  -- `_log_config_usage`: the message, with the counters as they are.
  unfoldable pub log_config_usage {ℓ} :
      {C : Type ℓ} → (Json → Text) → LoadBalancer C → Fields → Result Text
  unfolding extract_config_name
  log_config_usage str_of s fs = do name ← extract_config_name fs; ok (usage_line str_of s name)

  client_name_text :
      (fs : Fields) (o : Option Json) (t : Text)
      → o ≡ some (str t)
      → (v : Json) × (client_name fs o ≡ ok v)
  unfolding client_name sliced
  client_name_text fs o t e =
      subst (λ (p : Option Json). (v : Json) × (client_name fs p ≡ ok v)) (sym e) (_, refl)

  -- A configuration that passed validation has a name.
  extract_config_name_ok :
      (fs : Fields) → IsUsable (obj fs) → (v : Json) × (extract_config_name fs ≡ ok v)
  unfolding extract_config_name name_or_client
  extract_config_name_ok fs u = elim (Option-cases (lookup (codes "name") (entries fs))) [
    | inl missing ↦
        let (t, here, filled) = u.0 in
        subst (λ (o : Option Json). (v : Json) × (name_or_client fs o ≡ ok v)) (sym missing)
          (client_name_text fs (lookup (codes "clientId") (entries fs)) t here)
    | inr (name, there) ↦
        subst (λ (o : Option Json). (v : Json) × (name_or_client fs o ≡ ok v)) (sym there)
          (name, refl)
  ]

  -- The line of a request is logged for every configuration that passed validation.
  pub log_config_usage_ok {ℓ} :
      {C : Type ℓ} (str_of : Json → Text) (s : LoadBalancer C) (fs : Fields)
      → IsUsable (obj fs)
      → (line : Text) × (log_config_usage str_of s fs ≡ ok line)
  unfolding log_config_usage
  log_config_usage_ok str_of s fs u =
      let (v, named) = extract_config_name_ok fs u in
      subst
        (λ (r : Result Json).
          (line : Text) × ((r >>= (λ name. ok (usage_line str_of s name))) ≡ ok line))
        (sym named) (usage_line str_of s v, refl)

module _ {ℓ} {C : Type ℓ} where
  pub available_count : LoadBalancer C → ℕ
  available_count s = length s.available_configs

  pub failed_count : LoadBalancer C → ℕ
  failed_count s = length s.failed_configs

  pub total_count : LoadBalancer C → ℕ
  total_count s = length s.all_configs

  pub total_requests_of : LoadBalancer C → ℕ
  total_requests_of s = s.total_requests

  -- `__repr__`
  unfoldable pub repr : LoadBalancer C → Text
  unfolding get_stats
  repr s =
      let stats = get_stats s in
      codes "LoadBalancer(total="
      ++ (show stats.total_count
          ++ (codes ", available="
              ++ (show stats.available_count
                  ++ (codes ", failed="
                      ++ (show stats.failed_count
                          ++ (codes ", requests=" ++ (show stats.total_requests ++ codes ")")))))))
