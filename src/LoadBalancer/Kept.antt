-- ===== src/LoadBalancer/Kept.antt =====
-- What a call does with the configurations that a balancer was given.
use flow_proxy.Base.{
  ◌≡◌, refl, sym, ap, subst, ◌∙◌, inl, inr, List, [], ◌∷◌, ◌++◌, Option, none, some, Bool-cases,
  contains, HasEq, ok, ok_inj,
}
use mathlib.Core.List.{Perm}
use flow_proxy.LoadBalancer.{
  LoadBalancer, Call, next, fail, reset, init, select_at, next_of, get_next_config, reset_of,
  reset_failed_configs, mark_config_failed, step, run,
}
use flow_proxy.LoadBalancer.Invariant.{InRange, init-IsValid, run-IsValid}

module _ {ℓ} {C : Type ℓ} where
  select_at-all_configs :
      (s : LoadBalancer C) (o : Option C) → (select_at s o).1.all_configs ≡ s.all_configs
  unfolding select_at
  select_at-all_configs s none = refl
  select_at-all_configs s (some c) = refl

  next_of-all_configs :
      (s : LoadBalancer C) (xs : List C) → (next_of s xs).1.all_configs ≡ s.all_configs
  unfolding next_of
  next_of-all_configs s [] = refl
  next_of-all_configs s (c ∷ cs) = select_at-all_configs s _

  pub get_next_config-all_configs :
      (s : LoadBalancer C) → (get_next_config s).1.all_configs ≡ s.all_configs
  unfolding get_next_config
  get_next_config-all_configs s = next_of-all_configs s s.available_configs

  reset_of-all_configs :
      (s : LoadBalancer C) (xs : List C) → (reset_of s xs).all_configs ≡ s.all_configs
  unfolding reset_of
  reset_of-all_configs s [] = refl
  reset_of-all_configs s (c ∷ cs) = refl

  reset_failed_configs-all_configs :
      (s : LoadBalancer C) → (reset_failed_configs s).all_configs ≡ s.all_configs
  unfolding reset_failed_configs
  reset_failed_configs-all_configs s = reset_of-all_configs s s.failed_configs

  init-all_configs :
      (configs : List C) (s : LoadBalancer C) → init configs ≡ ok s → s.all_configs ≡ configs
  unfolding init
  init-all_configs [] s h = cc
  init-all_configs (c ∷ cs) s h = ap (λ (x : LoadBalancer C). x.all_configs) (sym (ok_inj h))

module _ {ℓ} {C : Type ℓ} ⦃e : HasEq C⦄ where
  pub mark_config_failed-all_configs :
      (s : LoadBalancer C) (c : C) → (mark_config_failed s c).all_configs ≡ s.all_configs
  unfolding mark_config_failed
  mark_config_failed-all_configs s c = elim (Bool-cases (contains c s.available_configs)) [
    | inl here ↦ rw here refl
    | inr gone ↦ rw gone refl
  ]

  step-all_configs : (s : LoadBalancer C) (c : Call C) → (step s c).all_configs ≡ s.all_configs
  unfolding step
  step-all_configs s next = get_next_config-all_configs s
  step-all_configs s (fail c) = mark_config_failed-all_configs s c
  step-all_configs s reset = reset_failed_configs-all_configs s

  run-all_configs :
      (s : LoadBalancer C) (calls : List (Call C)) → (run s calls).all_configs ≡ s.all_configs
  unfolding run
  run-all_configs s [] = refl
  run-all_configs s (c ∷ calls) = run-all_configs (step s c) calls ∙ step-all_configs s c

  -- Of a balancer that was built from `configs`, after any calls: the list of all configurations is
  -- still `configs`, the available and the failed ones together are those of `configs`, each as
  -- often, and the index is that of an available one, or 0 where there is none.
  pub run_conserves :
      (configs : List C) (s : LoadBalancer C) (calls : List (Call C))
      → init configs ≡ ok s
      → ((run s calls).all_configs ≡ configs)
        × Perm ((run s calls).available_configs ++ (run s calls).failed_configs) configs
        × InRange (run s calls).available_configs (run s calls).current_index
  run_conserves configs s calls h =
      let valid = run-IsValid s calls (init-IsValid configs s h) in
      let same = run-all_configs s calls ∙ init-all_configs configs s h in
      (
        same,
        subst (Perm ((run s calls).available_configs ++ (run s calls).failed_configs)) same
            valid.conserved,
        valid.in_range,
      )
