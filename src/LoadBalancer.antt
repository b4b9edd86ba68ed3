-- ===== src/LoadBalancer.antt =====
-- flow_proxy_plugin/core/load_balancer.py: the round-robin load balancer.
-- Every method runs under the object's lock, so a call is one step on the state; the line that a
-- request logs and `__repr__` are in `Naming`, the other log lines are left out. A configuration is
-- any type that `==` decides.
pub mod Invariant
pub mod Kept
pub mod Naming
pub mod Rotation
pub mod Ring
pub mod Failover
pub mod Tests
use flow_proxy.Base.{
  ℕ, ◌+◌, ◌%◌, Bool, Option, none, some, List, [], ◌∷◌, ◌++◌, HasEq, ◌==◌, contains, length,
  get_elem?, if◌then◌else◌, Exc, ExcClass, Result, ok, err, codes,
}

pub record LoadBalancerStats : Type 0 where
  pub total_requests : ℕ
  pub available_count : ℕ
  pub failed_count : ℕ
  pub total_count : ℕ

pub record LoadBalancer {ℓ} (C : Type ℓ) : Type ℓ where
  pub all_configs : List C
  pub available_configs : List C
  pub failed_configs : List C
  pub current_index : ℕ
  pub total_requests : ℕ

abbrev pub empty_configs : Exc
empty_configs = record {
  cls = ExcClass.value_error;
  message = codes "Cannot initialize LoadBalancer with empty configs list";
}

abbrev pub no_configs : Exc
no_configs = record {
  cls = ExcClass.runtime_error;
  message = codes "No available authentication configurations - all configs have failed";
}

abbrev pub index_out_of_range : Exc
index_out_of_range = record {
  cls = ExcClass.index_error;
  message = codes "list index out of range";
}

module _ {ℓ} {C : Type ℓ} where
  -- `__init__`
  unfoldable pub init : List C → Result (LoadBalancer C)
  init [] = err empty_configs
  init (c ∷ cs) = ok (record {
    all_configs = c ∷ cs;
    available_configs = c ∷ cs;
    failed_configs = [];
    current_index = 0;
    total_requests = 0;
  })

  -- An index past the end would raise; the list is read before anything is assigned.
  select_at : LoadBalancer C → Option C → Result C × LoadBalancer C
  select_at s none = (err index_out_of_range, s)
  select_at s (some config) = (
    ok config,
    record s {
      total_requests = s.total_requests + 1;
      current_index = (s.current_index + 1) % length s.available_configs;
    },
  )

  next_of : LoadBalancer C → List C → Result C × LoadBalancer C
  next_of s [] = (err no_configs, s)
  next_of s (c ∷ cs) = select_at s (get_elem? (c ∷ cs) s.current_index)

  unfoldable pub get_next_config : LoadBalancer C → Result C × LoadBalancer C
  unfolding next_of select_at
  get_next_config s = next_of s s.available_configs

  adjusted : List C → ℕ → ℕ
  adjusted [] i = 0
  adjusted (c ∷ cs) i = i % length (c ∷ cs)

  adjust_current_index : LoadBalancer C → LoadBalancer C
  unfolding adjusted
  adjust_current_index s = record s { current_index = adjusted s.available_configs s.current_index }

  reset_of : LoadBalancer C → List C → LoadBalancer C
  reset_of s [] = s
  reset_of s (c ∷ cs) = record s {
    available_configs = s.available_configs ++ c ∷ cs;
    failed_configs = [];
    current_index = 0;
  }

  unfoldable pub reset_failed_configs : LoadBalancer C → LoadBalancer C
  unfolding reset_of
  reset_failed_configs s = reset_of s s.failed_configs

  unfoldable pub get_stats : LoadBalancer C → LoadBalancerStats
  get_stats s = record {
    total_requests = s.total_requests;
    available_count = length s.available_configs;
    failed_count = length s.failed_configs;
    total_count = length s.all_configs;
  }

module _ {ℓ} {C : Type ℓ} ⦃e : HasEq C⦄ where
  -- `list.remove`: the first item that is equal.
  unfoldable pub remove : C → List C → List C
  remove c [] = []
  remove c (x ∷ xs) = if x == c then xs else x ∷ remove c xs

  unfoldable pub mark_config_failed : LoadBalancer C → C → LoadBalancer C
  unfolding adjust_current_index remove
  mark_config_failed s config =
      if contains config s.available_configs
      then adjust_current_index (record s {
        available_configs = remove config s.available_configs;
        failed_configs = s.failed_configs ++ config ∷ [];
      })
      else s

-- The calls that clients make, in the order in which they take the lock.
pub data Call {ℓ} (C : Type ℓ) : Type ℓ where
  next : Call C
  fail : C → Call C
  reset : Call C

module _ {ℓ} {C : Type ℓ} ⦃e : HasEq C⦄ where
  unfoldable pub step : LoadBalancer C → Call C → LoadBalancer C
  unfolding get_next_config mark_config_failed reset_failed_configs
  step s next = (get_next_config s).1
  step s (fail c) = mark_config_failed s c
  step s reset = reset_failed_configs s

  unfoldable pub run : LoadBalancer C → List (Call C) → LoadBalancer C
  run s [] = s
  run s (c ∷ cs) = run (step s c) cs
