-- ===== src/Failover/Outcome.antt =====
-- What `_get_config_and_token` gives and what it leaves behind.
use mathlib.Core.List.{Mem, mem-cons, not-mem-nil}
use mathlib.Core.Logic.Or
use flow_proxy.Base.{
  Exc, ℕ, ◌≡◌, ◌≢◌, refl, ap, sym, subst, ◌∙◌, ◌⊎◌, inl, inr, true, List, [], ◌∷◌, Text, All,
  Bool-cases, Result-cases, is_value_error, Result, ok, err, ok_inj,
}
use flow_proxy.Json.{json_eq}
use flow_proxy.Config.{Config, validate_single_config}
use flow_proxy.Config.Validation.{IsUsable, validate_single_config_iff}
use flow_proxy.LoadBalancer.{LoadBalancer, get_next_config, mark_config_failed}
use flow_proxy.LoadBalancer.Invariant.{IsValid, get_next_config-IsValid, mark_config_failed-IsValid}
use flow_proxy.LoadBalancer.Failover.{get_next_config_cases, get_next_config-Mem}
use flow_proxy.Jwt.{Cache, Payload, validated_payload, generate_token}
use flow_proxy.Jwt.Freshness.{
  IsServed, IsSound, generate_token-payload, generate_token-IsServed, generate_token-IsSound,
  generate_token_total,
}
use flow_proxy.Failover.{
  Services, Grant, config_name, grant, last_try, failover, after_generate, first_try,
  get_config_and_token,
}

module _ (encode : Payload → Text → Result Text) where
  -- The balancer's invariant, and tokens filed under the client they were made for.
  pub record IsHealthy (s : Services) : Type 0 where
    pub balanced : IsValid s.load_balancer
    pub sound : IsSound encode s.cache

  last_try-IsHealthy :
      (now : ℕ) (lb : LoadBalancer Config) (cache : Cache) (r : Result Config)
      → IsValid lb
      → IsSound encode cache
      → IsHealthy (last_try encode now lb cache r).1
  unfolding last_try
  last_try-IsHealthy now lb cache (ok c) v s = record {
    balanced = v;
    sound = generate_token-IsSound encode cache now c s;
  }
  last_try-IsHealthy now lb cache (err e) v s = record { balanced = v; sound = s }

  failover-IsHealthy :
      (later : ℕ) (lb : LoadBalancer Config) (cache : Cache) (c : Config)
      → IsValid lb
      → IsSound encode cache
      → IsHealthy (failover encode later lb cache c).1
  unfolding failover
  failover-IsHealthy later lb cache c v s =
      last_try-IsHealthy later _ cache _
        (get_next_config-IsValid _ (mark_config_failed-IsValid lb c v)) s

  after_generate-IsHealthy :
      (later : ℕ) (lb : LoadBalancer Config) (c : Config) (r : Result Text × Cache)
      → IsValid lb
      → IsSound encode r.1
      → IsHealthy (after_generate encode later lb c r).1
  unfolding after_generate
  after_generate-IsHealthy later lb c (ok t, cache) v s = record { balanced = v; sound = s }
  after_generate-IsHealthy later lb c (err e, cache) v s =
      elim (Bool-cases (is_value_error e.cls)) [
        | inl caught ↦ rw caught (failover-IsHealthy later lb cache c v s)
        | inr passed ↦ rw passed (record { balanced = v; sound = s })
      ]

  first_try-IsHealthy :
      (now later : ℕ) (lb : LoadBalancer Config) (cache : Cache) (r : Result Config)
      → IsValid lb
      → IsSound encode cache
      → IsHealthy (first_try encode now later lb cache r).1
  unfolding first_try
  first_try-IsHealthy now later lb cache (ok c) v s =
      after_generate-IsHealthy later lb c _ v (generate_token-IsSound encode cache now c s)
  first_try-IsHealthy now later lb cache (err e) v s = record { balanced = v; sound = s }

  -- Whatever the outcome, the balancer stays valid and the cache sound.
  pub get_config_and_token-IsHealthy :
      (now later : ℕ) (s : Services)
      → IsHealthy s
      → IsHealthy (get_config_and_token encode now later s).1
  unfolding get_config_and_token
  get_config_and_token-IsHealthy now later s h =
      first_try-IsHealthy now later _ s.cache _ (get_next_config-IsValid s.load_balancer h.balanced)
        h.sound

  -- The configuration passes the checks, and the token is filed under its client id and is good
  -- for longer than the margin.
  pub record IsGranted (now : ℕ) (cache : Cache) (g : Grant) : Type 0 where
    pub payload : Payload
    pub accepted : validated_payload g.config ≡ ok payload
    pub served : IsServed encode cache now payload.client_id g.jwt_token

  grant_token : (c : Config) (t : Text) (g : Grant) → grant encode c (ok t) ≡ ok g → t ≡ g.jwt_token
  unfolding grant
  grant_token c t g h = ap (λ (x : Grant). x.jwt_token) (ok_inj h)

  generated-IsGranted :
      (now : ℕ) (cache : Cache) (c : Config) (t : Text) (g : Grant)
      → (generate_token encode cache now c).0 ≡ ok t
      → grant encode c (ok t) ≡ ok g
      → (c ≡ g.config) × IsGranted now (generate_token encode cache now c).1 g
  unfolding grant
  generated-IsGranted now cache c t g h q =
      let (p, v) = generate_token-payload encode cache now c t h in
      let same : _ ≡ g = ok_inj q in
      (
        ap (λ (x : Grant). x.config) same,
        subst (IsGranted now (generate_token encode cache now c).1) same (record {
          payload = p;
          accepted = v;
          served =
              generate_token-IsServed encode cache now c p t (generate_token encode cache now c).1 v
                (λ i. (h i, (generate_token encode cache now c).1));
        }),
      )

  last_try_ok :
      (now : ℕ) (lb : LoadBalancer Config) (cache : Cache) (r : Result Config) (g : Grant)
      (s : Services)
      → last_try encode now lb cache r ≡ (ok g, s)
      → (r ≡ ok g.config) × IsGranted now s.cache g
  unfolding last_try
  last_try_ok now lb cache (err e) g s h = cc
  last_try_ok now lb cache (ok c) g s h =
      elim (Result-cases (generate_token encode cache now c).0) [
        | inr (e, q) ↦ cc (rw (q, grant) at (ap (λ (x : Result Grant × Services). x.0) h))
        | inl (t, q) ↦
            let (same, granted) =
              generated-IsGranted now cache c t g q
                (ap (grant encode c) (sym q) ∙ ap (λ (x : Result Grant × Services). x.0) h) in
            (
              ap ok same,
              subst (λ (x : Services). IsGranted now x.cache g)
                  (ap (λ (x : Result Grant × Services). x.1) h) granted,
            )
      ]

  -- Where a grant comes from: the balancer's next configuration, or the one after a failure.
  pub data Source (now later : ℕ) (s : Services) (g : Grant) (s' : Services) : Type 0 where
    at_once :
        (get_next_config s.load_balancer).0 ≡ ok g.config
        → (generate_token encode s.cache now g.config).0 ≡ ok g.jwt_token
        → IsGranted now s'.cache g
        → Source now later s g s'
    on_failover :
        (c : Config) (e : Exc)
        → (get_next_config s.load_balancer).0 ≡ ok c
        → (generate_token encode s.cache now c).0 ≡ err e
        → is_value_error e.cls ≡ true
        → (get_next_config (mark_config_failed (get_next_config s.load_balancer).1 c)).0
          ≡ ok g.config
        → IsGranted later s'.cache g
        → Source now later s g s'

  after_generate_ok :
      (later : ℕ) (lb : LoadBalancer Config) (c : Config) (r : Result Text × Cache) (g : Grant)
      (s' : Services)
      → after_generate encode later lb c r ≡ (ok g, s')
      → ((t : Text) × (r.0 ≡ ok t) × (grant encode c (ok t) ≡ ok g) × (r.1 ≡ s'.cache))
        ⊎ ((e : Exc) × (r.0 ≡ err e)
            × (is_value_error e.cls ≡ true)
            × ((get_next_config (mark_config_failed lb c)).0 ≡ ok g.config)
            × IsGranted later s'.cache g)
  unfolding after_generate failover
  after_generate_ok later lb c (ok t, cache) g s' h = inl (
    t,
    refl,
    ap (λ (x : Result Grant × Services). x.0) h,
    ap (λ (x : Result Grant × Services). x.1.cache) h,
  )
  after_generate_ok later lb c (err e, cache) g s' h = elim (Bool-cases (is_value_error e.cls)) [
    | inl caught ↦
        let (again, granted) = last_try_ok later _ cache _ g s' (rw caught at h) in
        inr (e, refl, caught, again, granted)
    | inr passed ↦ cc (rw passed at h)
  ]

  first_try_ok :
      (now later : ℕ) (s : Services) (c : Config) (g : Grant) (s' : Services)
      → (get_next_config s.load_balancer).0 ≡ ok c
      → after_generate encode later
          (get_next_config s.load_balancer).1
          c
          (generate_token encode s.cache now c)
        ≡ (ok g, s')
      → Source now later s g s'
  first_try_ok now later s c g s' q h =
      elim (after_generate_ok later (get_next_config s.load_balancer).1 c
        (generate_token encode s.cache now c) g s' h) [
          | inr (e, raised, caught, again, granted) ↦ on_failover c e q raised caught again granted
          | inl (t, made, given, kept) ↦
              let (same, granted) = generated-IsGranted now s.cache c t g made given in
              at_once (q ∙ ap ok same)
                (subst (λ x. (generate_token encode s.cache now x).0 ≡ ok g.jwt_token) same
                  (made ∙ ap ok (grant_token c t g given)))
                (subst (λ (d : Cache). IsGranted now d g) kept granted)
        ]

  -- A grant is for the configuration that the balancer gave at once, or, where
  -- the generation for that one raised a ValueError, for the one that it gave after the failure was recorded; either way the configuration passes
  -- the checks and the token is in the cache with more than the margin left.
  pub get_config_and_token_ok :
      (now later : ℕ) (s : Services) (g : Grant) (s' : Services)
      → get_config_and_token encode now later s ≡ (ok g, s')
      → Source now later s g s'
  unfolding get_config_and_token first_try
  get_config_and_token_ok now later s g s' h =
      elim (Result-cases (get_next_config s.load_balancer).0) [
        | inr (e, q) ↦ cc (rw (q, first_try) at h)
        | inl (c, q) ↦ first_try_ok now later s c g s' q (rw (q, first_try) at h)
      ]

  -- `encode` raises for no payload.
  abbrev pub IsTotal : Type 0
  IsTotal = (p : Payload) → (t : Text) × (encode p p.client_secret ≡ ok t)

  abbrev Passes : Config → Type 0
  Passes c = (validate_single_config c).0 ≡ true

  Passes-prop : (c : Config) → IsProp (Passes c)
  Passes-prop c = hlevel

  usable_of_mem : (c : Config) (cs : List Config) → All IsUsable cs → Mem c cs → Passes c
  usable_of_mem c [] u m = absurd (not-mem-nil m)
  usable_of_mem c (x ∷ xs) u m =
      Or.elim (Passes-prop c) (mem-cons.0 m)
        (λ q. subst Passes (sym q) ((validate_single_config_iff x).1 u.0)) (usable_of_mem c xs u.1)

  generated_at_once :
      (now later : ℕ) (s : Services) (c : Config) (t : Text)
      → (get_next_config s.load_balancer).0 ≡ ok c
      → (generate_token encode s.cache now c).0 ≡ ok t
      → (get_config_and_token encode now later s) ≡ (
        grant encode c (ok t),
        record {
          load_balancer = (get_next_config s.load_balancer).1;
          cache = (generate_token encode s.cache now c).1;
        },
      )
  unfolding get_config_and_token first_try after_generate
  generated_at_once now later s c t q made =
      rw (q, first_try)
        (ap (after_generate encode later (get_next_config s.load_balancer).1 c)
          (λ i. (made i, (generate_token encode s.cache now c).1)))

  -- With validated configurations, at least one of them available, and an encoder that raises for
  -- no payload, every call gives a grant and takes no configuration out of use.
  pub get_config_and_token_total :
      (now later : ℕ) (s : Services)
      → IsHealthy s
      → All IsUsable s.load_balancer.all_configs
      → s.load_balancer.available_configs ≢ []
      → IsTotal
      → (g : Grant) × ((get_config_and_token encode now later s).0 ≡ ok g)
        × ((get_config_and_token encode now later s).1.load_balancer.available_configs
            ≡ s.load_balancer.available_configs)
  get_config_and_token_total now later s h u some_left total =
      elim (get_next_config_cases s.load_balancer h.balanced) [
        | inl (none_left, _) ↦ absurd (some_left none_left)
        | inr (c, here, given, stay) ↦
            let m = get_next_config-Mem s.load_balancer c h.balanced given in
            let usable =
              (validate_single_config_iff c).0 (usable_of_mem c s.load_balancer.all_configs u m) in
            let (t, made) = generate_token_total encode s.cache now c total usable in
            let run = generated_at_once now later s c t given made in
            (
              record { config = c; config_name = config_name c; jwt_token = t },
              ap (λ (x : Result Grant × Services). x.0) run ∙ (unfold grant in refl),
              ap (λ (x : Result Grant × Services). x.1.load_balancer.available_configs) run ∙ stay,
            )
      ]
