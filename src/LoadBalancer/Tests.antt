-- ===== src/LoadBalancer/Tests.antt =====
-- Runs of the load balancer, and its theorems at concrete inputs.
use mathlib.Core.List.{Perm, Mem, Nodup, Nodup-cons, Nodup-nil, mem-cons, not-mem-nil}
use mathlib.Core.HLevel.{⊥_prop}
use mathlib.Core.Logic.Or
use flow_proxy.Base.{ℕ, ◌≡◌, ◌≢◌, refl, [], List, ◌∷◌, ◌++◌, All, nat_eq, ok, arith}
use flow_proxy.LoadBalancer.{
  LoadBalancer, Call, next, fail, reset, init, get_next_config, mark_config_failed,
  reset_failed_configs, run, step,
}
use flow_proxy.LoadBalancer.Invariant.{InRange, IsValid, init-IsValid, run-IsValid}
use flow_proxy.LoadBalancer.Kept.{run_conserves}
use flow_proxy.LoadBalancer.Rotation.{results}
use flow_proxy.LoadBalancer.Failover.{answers, failed_not_answered}
use flow_proxy.LoadBalancer.Ring.{ring_results, results-ring_results}

abbrev three : LoadBalancer ℕ
three = record {
  all_configs = 10 ∷ 20 ∷ 30 ∷ [];
  available_configs = 10 ∷ 20 ∷ 30 ∷ [];
  failed_configs = [];
  current_index = 0;
  total_requests = 0;
}

three-init : init (10 ∷ 20 ∷ 30 ∷ []) ≡ ok three
unfolding init
three-init = refl

three-IsValid : IsValid three
three-IsValid = init-IsValid (10 ∷ 20 ∷ 30 ∷ []) three three-init

one_request : LoadBalancer ℕ
unfolding get_next_config
one_request = (get_next_config three).1

three-Nodup : Nodup three.all_configs
three-Nodup = Nodup-cons.1 (ten, Nodup-cons.1 (twenty, Nodup-cons.1 (not-mem-nil, Nodup-nil)))
  where
    ten : ¬ Mem {A = ℕ} 10 (20 ∷ 30 ∷ [])
    ten m =
        Or.elim ⊥_prop (mem-cons.0 m) (λ q. omega arith)
          (λ k. Or.elim ⊥_prop (mem-cons.0 k) (λ q. omega arith) not-mem-nil)

    twenty : ¬ Mem {A = ℕ} 20 (30 ∷ [])
    twenty m = Or.elim ⊥_prop (mem-cons.0 m) (λ q. omega arith) not-mem-nil

-- The second configuration fails, and requests go on with the others until the reset.
script :
    answers three (next ∷ fail 20 ∷ next ∷ next ∷ reset ∷ next ∷ [])
    ≡ ok 10 ∷ ok 30 ∷ ok 10 ∷ ok 10 ∷ []
unfolding answers step get_next_config mark_config_failed reset_failed_configs
script = refl

abbrev calls : List (Call ℕ)
calls = next ∷ fail 20 ∷ next ∷ reset ∷ fail 30 ∷ []

run_conserves_example :
    ((run three calls).all_configs ≡ 10 ∷ 20 ∷ 30 ∷ [])
    × Perm
        ((run three calls).available_configs ++ (run three calls).failed_configs)
        (10 ∷ 20 ∷ 30 ∷ [])
    × InRange (run three calls).available_configs (run three calls).current_index
run_conserves_example = run_conserves (10 ∷ 20 ∷ 30 ∷ []) three calls three-init

failed_not_answered_example :
    All (λ r. r ≢ ok 20) (answers (mark_config_failed three 20) (next ∷ fail 10 ∷ next ∷ next ∷ []))
failed_not_answered_example =
    failed_not_answered three 20 (next ∷ fail 10 ∷ next ∷ next ∷ []) three-IsValid three-Nodup tt

results-ring_results_example : results 5 one_request ≡ ok 20 ∷ ok 30 ∷ ok 10 ∷ ok 20 ∷ ok 30 ∷ []
unfolding one_request run step ring_results
results-ring_results_example =
    results-ring_results 5 one_request (run-IsValid three (next ∷ []) three-IsValid)
