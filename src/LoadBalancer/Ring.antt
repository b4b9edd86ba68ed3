-- ===== src/LoadBalancer/Ring.antt =====
-- The specification of a balancer while no configuration fails: a ring, from which each request
-- takes the first and puts it behind the others.
use native.Mathlib.Nat.{mod-eq_of_lt, mod_self}
use mathlib.Core.Path.{ap₂}
use flow_proxy.Base.{
  ℕ, zero, suc, ◌+◌, ◌%◌, ◌<◌, ◌≡◌, refl, sym, ap, subst, ◌∙◌, inl, inr, List, [], ◌∷◌, ◌++◌,
  append-nil, append_assoc, length, get_elem?, get_elem?_lt, take, drop, some, Result, ok, err, ltb,
  Bool-cases, arith,
}
use flow_proxy.LoadBalancer.{LoadBalancer, no_configs, next_of, get_next_config}
use flow_proxy.LoadBalancer.Invariant.{InRange, IsValid, get_next_config-IsValid}
use flow_proxy.LoadBalancer.Rotation.{results, next_lem, take_all}

module _ {ℓ} {C : Type ℓ} where
  ring_next : List C → Result C × List C
  ring_next [] = (err no_configs, [])
  ring_next (x ∷ xs) = (ok x, xs ++ x ∷ [])

  -- What `n` requests to a ring are given.
  unfoldable pub ring_results : ℕ → List C → List (Result C)
  unfolding ring_next
  ring_results zero q = []
  ring_results (suc n) q = (ring_next q).0 ∷ ring_results n (ring_next q).1

  -- The ring that a balancer stands for.
  abbrev pub ring_of : LoadBalancer C → List C
  ring_of s = drop s.current_index s.available_configs ++ take s.current_index s.available_configs

  drop-get_elem? :
      (xs : List C) (i : ℕ) (x : C)
      → get_elem? xs i ≡ some x
      → (drop i xs ≡ x ∷ drop (suc i) xs) × (take (suc i) xs ≡ take i xs ++ x ∷ [])
  drop-get_elem? [] i x h = cc
  drop-get_elem? (y ∷ ys) zero x h = (cc, cc)
  drop-get_elem? (y ∷ ys) (suc i) x h =
      let (d, t) = drop-get_elem? ys i x h in (d, ap (λ r. y ∷ r) t)

  drop_all : (xs : List C) → drop (length xs) xs ≡ []
  drop_all [] = refl
  drop_all (x ∷ xs) = drop_all xs

  turned :
      (xs : List C) (i : ℕ) (x : C)
      → i < length xs
      → get_elem? xs i ≡ some x
      → drop ((i + 1) % length xs) xs ++ take ((i + 1) % length xs) xs
        ≡ drop (suc i) xs ++ (take i xs ++ x ∷ [])
  turned xs i x n h =
      let (_, t) = drop-get_elem? xs i x h in
      elim (Bool-cases (ltb (suc i) (length xs))) [
        | inl inside ↦
            let m : (i + 1) % length xs ≡ suc i =
              mod-eq_of_lt (ground (arith, inside)) ∙ omega arith in
            rw (m, t) refl
        | inr last ↦
            let e : suc i ≡ length xs = ground (arith, last, n) in
            let m : (i + 1) % length xs ≡ 0 =
              ap (λ k. k % length xs) (omega (arith, e)) ∙ mod_self (length xs) in
            rw (m, append-nil)
              (sym (
                ap (λ r. r ++ (take i xs ++ x ∷ [])) (ap (λ k. drop k xs) e ∙ drop_all xs)
                ∙ sym t
                ∙ ap (λ k. take k xs) e
                ∙ take_all xs))
      ]

  IsSimulated : LoadBalancer C → Result C × LoadBalancer C → Type ℓ
  IsSimulated s after =
      (after.0 ≡ (ring_next (ring_of s)).0) × (ring_of after.1 ≡ (ring_next (ring_of s)).1)

  next_of-IsSimulated :
      (s : LoadBalancer C) (xs : List C)
      → s.available_configs ≡ xs
      → InRange xs s.current_index
      → IsSimulated s (get_next_config s)
  unfolding IsSimulated ring_next get_next_config next_of
  next_of-IsSimulated s [] e r = rw (e, r) (refl, refl)
  next_of-IsSimulated s (c ∷ cs) e r =
      let n : s.current_index < length s.available_configs = rw e r in
      let (x, h) = get_elem?_lt s.available_configs s.current_index n in
      let (d, t) = drop-get_elem? s.available_configs s.current_index x h in
      let q : ring_of s
          ≡ x
            ∷ (drop (suc s.current_index) s.available_configs
                ++ take s.current_index s.available_configs) =
        ap (λ r. r ++ take s.current_index s.available_configs) d in
      subst (λ a. IsSimulated s a) (sym (next_lem s x h))
        (rw q (
          refl,
          turned s.available_configs s.current_index x n h
              ∙ sym (
                  append_assoc (drop (suc s.current_index) s.available_configs)
                    (take s.current_index s.available_configs) (x ∷ [])),
        ))

  -- The balancer refines the ring: any number of requests are given what the ring of the available
  -- configurations, from the current index on, gives them; all raise where there is none.
  pub results-ring_results :
      (n : ℕ) (s : LoadBalancer C) → IsValid s → results n s ≡ ring_results n (ring_of s)
  unfolding results ring_results IsSimulated
  results-ring_results zero s v = refl
  results-ring_results (suc n) s v =
      let (given, next) = next_of-IsSimulated s s.available_configs refl v.in_range in
      ap₂ ◌∷◌ given (
        results-ring_results n (get_next_config s).1 (get_next_config-IsValid s v)
        ∙ ap (ring_results n) next)
