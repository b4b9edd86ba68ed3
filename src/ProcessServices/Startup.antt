-- ===== src/ProcessServices/Startup.antt =====
-- What a process that has started can rely on.
use flow_proxy.Base.{
  ℕ, text_eq, ◌≡◌, ◌≢◌, ap, sym, subst, ◌∙◌, Bool, List, [], ◌∷◌, All, Result, ok, err, ok_inj,
  Result-cases, inl, inr, ◌>>=◌, Text, lookup, none, some,
}
use flow_proxy.Json.{Json}
use flow_proxy.Config.{Config, load_secrets}
use flow_proxy.Config.Validation.{IsUsable, load_secrets_iff}
use flow_proxy.LoadBalancer.{LoadBalancer, init}
use flow_proxy.LoadBalancer.Invariant.{init-IsValid}
use flow_proxy.Jwt.{Payload, Cache}
use flow_proxy.Jwt.Freshness.{IsSound}
use flow_proxy.Failover.{Services, Grant, get_config_and_token}
use flow_proxy.Failover.Outcome.{
  IsHealthy, IsTotal, get_config_and_token_total, get_config_and_token-IsHealthy,
}
use flow_proxy.Failover.Kept.{get_config_and_token-all_configs}
use flow_proxy.ProcessServices.{initialize}

init_cases :
    (cs : List Config) (lb : LoadBalancer Config)
    → init cs ≡ ok lb
    → (lb.all_configs ≡ cs) × (lb.available_configs ≡ cs)
unfolding init
init_cases [] lb h = cc
init_cases (c ∷ cs) lb h =
    let e = sym (ok_inj h) in
    (
      ap (λ (x : LoadBalancer Config). x.all_configs) e,
      ap (λ (x : LoadBalancer Config). x.available_configs) e,
    )

balanced_cases :
    (r : Result (LoadBalancer Config)) (s : Services)
    → (r >>= (λ lb. ok (record { load_balancer = lb; cache = [] }))) ≡ ok s
    → (r ≡ ok s.load_balancer) × (s.cache ≡ [])
balanced_cases (ok lb) s h =
    let e = ok_inj h in
    (ap ok (ap (λ (x : Services). x.load_balancer) e), sym (ap (λ (x : Services). x.cache) e))
balanced_cases (err e) s h = cc

initialize_cases :
    (present : Result Bool) (read : Result Json) (s : Services)
    → initialize present read ≡ ok s
    → (cs : List Config) × (load_secrets present read ≡ ok cs)
      × (init cs ≡ ok s.load_balancer)
      × (s.cache ≡ [])
unfolding initialize
initialize_cases present read s h = elim (Result-cases (load_secrets present read)) [
  | inl (cs, loaded) ↦
      let (made, empty) = balanced_cases (init cs) s (rw loaded at h) in (cs, loaded, made, empty)
  | inr (e, failed) ↦ cc (rw failed at h)
]

module _ (encode : Payload → Text → Result Text) where
  -- What `_get_config_and_token` gives to one request after the other.
  pub grants : Services → List (ℕ × ℕ) → List (Result Grant)
  grants s [] = []
  grants s ((now, later) ∷ ts) =
      (get_config_and_token encode now later s).0
      ∷ grants (get_config_and_token encode now later s).1 ts

  abbrev pub IsGiven : Result Grant → Type 0
  IsGiven r = (g : Grant) × (r ≡ ok g)

  no_entries-IsSound : (cache : Cache) → cache ≡ [] → IsSound encode cache
  unfolding lookup
  no_entries-IsSound cache e id x q =
      let no_entry : none ≡ some x = subst (λ (c : Cache). lookup id c ≡ some x) e q in cc

  -- What a start leaves, and every request keeps.
  pub record IsReady (s : Services) : Type 0 where
    pub healthy : IsHealthy encode s
    pub usable : All IsUsable s.load_balancer.all_configs
    pub available : s.load_balancer.available_configs ≢ []

  pub initialize-IsReady :
      (present : Result Bool) (read : Result Json) (s : Services)
      → initialize present read ≡ ok s
      → IsReady s
  initialize-IsReady present read s h =
      let (cs, loaded, made, empty) = initialize_cases present read s h in
      let (all, available) = init_cases cs s.load_balancer made in
      let l = (load_secrets_iff present read cs).0 loaded in
      record {
        healthy = record {
          balanced = init-IsValid cs s.load_balancer made;
          sound = no_entries-IsSound s.cache empty;
        };
        usable = subst (All IsUsable) (sym all) l.usable;
        available = λ q. l.non_empty (sym available ∙ q);
      }

  -- A call by a process that is ready is granted and leaves it ready.
  pub granted-IsReady :
      (now later : ℕ) (s : Services)
      → IsReady s
      → IsTotal encode
      → (g : Grant) × ((get_config_and_token encode now later s).0 ≡ ok g)
        × IsReady (get_config_and_token encode now later s).1
  granted-IsReady now later s r total =
      let (g, given, stay) =
        get_config_and_token_total encode now later s r.healthy r.usable r.available total in
      (
        g,
        given,
        record {
          healthy = get_config_and_token-IsHealthy encode now later s r.healthy;
          usable =
              subst (All IsUsable) (sym (get_config_and_token-all_configs encode now later s))
                r.usable;
          available = λ q. r.available (sym stay ∙ q);
        },
      )

  grants-IsReady :
      (s : Services) (times : List (ℕ × ℕ))
      → IsReady s
      → IsTotal encode
      → All IsGiven (grants s times)
  unfolding grants
  grants-IsReady s [] r total = tt
  grants-IsReady s ((now, later) ∷ ts) r total =
      let (g, given, ready) = granted-IsReady now later s r total in
      ((g, given), grants-IsReady (get_config_and_token encode now later s).1 ts ready total)

  -- When the services of a process could be set up, and signing raises for no payload, every one
  -- of any number of requests, at any times, is given a configuration and its token.
  pub initialize-grants :
      (present : Result Bool) (read : Result Json) (s : Services) (times : List (ℕ × ℕ))
      → initialize present read ≡ ok s
      → IsTotal encode
      → All IsGiven (grants s times)
  initialize-grants present read s times h total =
      grants-IsReady s times (initialize-IsReady present read s h) total
