-- ===== src/LoadBalancer/Rotation.antt =====
-- Round robin: what consecutive requests are given while no configuration fails.
use Prim.Native.Nat.add
use mathlib.Core.Path.{ap₂}
use native.Mathlib.Nat.{
  mod-eq_of_lt, mod-add-mod, mod-lt, mod_self, add-zero, add-mod_right, sub-zero, suc-sub-suc,
  zero-sub,
}
use mathlib.Core.List.{map-append}
use flow_proxy.Base.{
  ℕ, zero, suc, ◌+◌, ◌-◌, ◌%◌, ◌<◌, ◌≤◌, ◌≡◌, ◌≢◌, refl, sym, ap, ◌∙◌, List, [], ◌∷◌, ◌++◌, map,
  length, get_elem?, get_elem?_lt, take, drop, some, Result, ok, arith,
}
use flow_proxy.LoadBalancer.{LoadBalancer, select_at, next_of, get_next_config}
use flow_proxy.LoadBalancer.Invariant.{InRange, IsValid}

module _ {ℓ} {C : Type ℓ} where
  -- What `n` consecutive requests are given, and the state that they leave.
  unfoldable pub results : ℕ → LoadBalancer C → List (Result C)
  results zero s = []
  results (suc n) s = (get_next_config s).0 ∷ results n (get_next_config s).1

  pub after : ℕ → LoadBalancer C → LoadBalancer C
  after zero s = s
  after (suc n) s = after n (get_next_config s).1

  next_of_lem :
      (s : LoadBalancer C) (xs : List C) (x : C)
      → get_elem? xs s.current_index ≡ some x
      → next_of s xs ≡ select_at s (some x)
  unfolding next_of
  next_of_lem s [] x h = cc
  next_of_lem s (c ∷ cs) x h = ap (select_at s) h

  pub next_lem :
      (s : LoadBalancer C) (x : C)
      → get_elem? s.available_configs s.current_index ≡ some x
      → get_next_config s ≡ (
        ok x,
        record s {
          total_requests = s.total_requests + 1;
          current_index = (s.current_index + 1) % length s.available_configs;
        },
      )
  unfolding get_next_config
  next_lem s x h = next_of_lem s s.available_configs x h ∙ (unfold select_at in refl)

  take-drop-suc :
      (xs : List C) (i k : ℕ) (x : C)
      → get_elem? xs i ≡ some x
      → take (suc k) (drop i xs) ≡ x ∷ take k (drop (suc i) xs)
  take-drop-suc [] i k x h = cc
  take-drop-suc (y ∷ ys) zero k x h = cc
  take-drop-suc (y ∷ ys) (suc i) k x h = take-drop-suc ys i k x h

  at : LoadBalancer C → ℕ → ℕ → LoadBalancer C
  at s i t = record s { total_requests = t; current_index = i }

  next_at :
      (s : LoadBalancer C) (i t : ℕ) (x : C)
      → get_elem? s.available_configs i ≡ some x
      → get_next_config (at s i t) ≡ (ok x, at s ((i + 1) % length s.available_configs) (t + 1))
  unfolding at
  next_at s i t x h = next_lem (at s i t) x h

  sweep :
      (s : LoadBalancer C) (k i t : ℕ)
      → i + k ≤ length s.available_configs
      → results k (at s i t) ≡ map ok (take k (drop i s.available_configs))
  unfolding results
  sweep s zero i t h = refl
  sweep s (suc zero) i t h =
      let (x, e) = get_elem?_lt s.available_configs i (omega arith) in
      rw (next_at s i t x e, take-drop-suc s.available_configs i 0 x e) refl
  sweep s (suc (suc k)) i t h =
      let (x, e) = get_elem?_lt s.available_configs i (omega arith) in
      let m : (i + 1) % length s.available_configs ≡ suc i =
        mod-eq_of_lt (omega arith) ∙ omega arith in
      rw (next_at s i t x e, take-drop-suc s.available_configs i (suc k) x e, m)
        (ap (λ r. ok x ∷ r) (sweep s (suc k) (suc i) (t + 1) (omega arith)))

  results-append :
      (a b : ℕ) (s : LoadBalancer C) → results (a + b) s ≡ results a s ++ results b (after a s)
  unfolding results after
  results-append zero b s = rw (add.zero b) refl
  results-append (suc a) b s =
      rw (add.suc a b)
        (ap (λ r. (get_next_config s).0 ∷ r) (results-append a b (get_next_config s).1))

  after-at :
      (s : LoadBalancer C) (k i t : ℕ)
      → i < length s.available_configs
      → after k (at s i t) ≡ at s ((i + k) % length s.available_configs) (t + k)
  unfolding after
  after-at s zero i t h =
      ap₂ (at s) (sym (ap (λ n. n % length s.available_configs) (add-zero i) ∙ mod-eq_of_lt h))
        (omega arith)
  after-at s (suc k) i t h =
      let (x, e) = get_elem?_lt s.available_configs i h in
      rw (next_at s i t x e) (
        after-at s k ((i + 1) % length s.available_configs) (t + 1) (mod-lt (i + 1) (omega arith))
        ∙ ap₂ (at s)
            (mod-add-mod (i + 1) (length s.available_configs) k
              ∙ ap (λ n. n % length s.available_configs) (omega arith))
            (omega arith))

  InRange-lt : (xs : List C) (i : ℕ) → InRange xs i → xs ≢ [] → i < length xs
  InRange-lt [] i h n = absurd (n refl)
  InRange-lt (x ∷ xs) i h n = h

  pub take_all : (xs : List C) → take (length xs) xs ≡ xs
  take_all [] = refl
  take_all (x ∷ xs) = ap (λ r. x ∷ r) (take_all xs)

  take-drop_all : (xs : List C) (i : ℕ) → take (length xs - i) (drop i xs) ≡ drop i xs
  take-drop_all xs zero = rw (sub-zero (length xs)) (take_all xs)
  take-drop_all [] (suc i) = rw (zero-sub (suc i)) refl
  take-drop_all (x ∷ xs) (suc i) = rw (suc-sub-suc (length xs) i) (take-drop_all xs i)

  rotation :
      (s : LoadBalancer C)
      → s.current_index < length s.available_configs
      → (results (length s.available_configs) s
          ≡ map ok (
              drop s.current_index s.available_configs ++ take s.current_index s.available_configs))
        × (after (length s.available_configs) s
            ≡ record s { total_requests = s.total_requests + length s.available_configs })
  unfolding at
  rotation s h = (
    ap (λ n. results n s) split
        ∙ results-append a i s
        ∙ ap₂ ◌++◌ (first_part ∙ ap (map ok) (take-drop_all s.available_configs i)) second_part
        ∙ sym (map-append ok (drop i s.available_configs) (take i s.available_configs)),
    after-at s (length s.available_configs) i s.total_requests h
        ∙ ap (λ n. at s n (s.total_requests + length s.available_configs)) back,
  )
    where
      i : ℕ
      i = s.current_index

      a : ℕ
      a = length s.available_configs - i

      split : length s.available_configs ≡ a + i
      split = omega arith

      first_part : results a s ≡ map ok (take a (drop i s.available_configs))
      first_part = sweep s a i s.total_requests (omega arith)

      wrap : (i + a) % length s.available_configs ≡ 0
      wrap =
          ap (λ n. n % length s.available_configs) (omega arith)
          ∙ mod_self (length s.available_configs)

      second_part : results i (after a s) ≡ map ok (take i s.available_configs)
      second_part =
          ap (results i)
            (after-at s a i s.total_requests h ∙ ap (λ n. at s n (s.total_requests + a)) wrap)
          ∙ sweep s i 0 (s.total_requests + a) (omega arith)

      back : (i + length s.available_configs) % length s.available_configs ≡ i
      back = add-mod_right i (length s.available_configs) ∙ mod-eq_of_lt h

  -- Without failures, as many requests as there are available configurations are given each of
  -- them once, in the pool's order from the current index on, and leave the balancer as it was
  -- but for the request counter.
  pub results-rotation :
      (s : LoadBalancer C)
      → IsValid s
      → s.available_configs ≢ []
      → (results (length s.available_configs) s
          ≡ map ok (
              drop s.current_index s.available_configs ++ take s.current_index s.available_configs))
        × (after (length s.available_configs) s
            ≡ record s { total_requests = s.total_requests + length s.available_configs })
  results-rotation s v n = rotation s (InRange-lt s.available_configs s.current_index v.in_range n)
