-- ===== src/LoadBalancer/Invariant.antt =====
-- The well-formed states of a balancer.
use mathlib.Core.List.{Perm, perm_middle}
use mathlib.Core.List.Perm
use flow_proxy.Base.{
  ℕ, ◌+◌, ◌%◌, ◌<◌, ◌≡◌, refl, sym, inl, inr, true, List, [], ◌∷◌, ◌++◌, append-nil, append_assoc,
  HasEq, ◌==◌, contains, length, get_elem?, Bool-cases, Option-cases, ok, ok_inj, arith,
}
use flow_proxy.LoadBalancer.{
  LoadBalancer, Call, next, fail, reset, init, select_at, next_of, get_next_config, adjusted,
  reset_of, reset_failed_configs, remove, mark_config_failed, step, run,
}

module _ {ℓ} {C : Type ℓ} where
  -- The index is that of an available configuration, or 0 when there is none.
  abbrev pub InRange : List C → ℕ → Type 0
  InRange [] i = i ≡ 0
  InRange (c ∷ cs) i = i < length (c ∷ cs)

  pub record IsValid (s : LoadBalancer C) : Type ℓ where
    pub in_range : InRange s.available_configs s.current_index
    pub conserved : Perm (s.available_configs ++ s.failed_configs) s.all_configs

  initial-IsValid : (c : C) (cs : List C) (s : LoadBalancer C) → init (c ∷ cs) ≡ ok s → IsValid s
  unfolding init
  initial-IsValid c cs s h =
      let e : s ≡ _ = sym (ok_inj h) in
      rw e (record { in_range = omega arith; conserved = rw append-nil (Perm.refl _) })

  -- A balancer that is built without an error is valid.
  pub init-IsValid : (configs : List C) (s : LoadBalancer C) → init configs ≡ ok s → IsValid s
  init-IsValid [] s h = unfold init in cc
  init-IsValid (c ∷ cs) s h = initial-IsValid c cs s h

  InRange-mod :
      (xs : List C) (i : ℕ) (c : C) (cs : List C) → xs ≡ c ∷ cs → InRange xs (i % length xs)
  InRange-mod xs i c cs e = rw e (omega arith)

  InRange-adjusted : (xs : List C) (i : ℕ) → InRange xs (adjusted xs i)
  unfolding adjusted
  InRange-adjusted [] i = refl
  InRange-adjusted (x ∷ xs) i = omega arith

  next_of-IsValid :
      (s : LoadBalancer C) (xs : List C)
      → s.available_configs ≡ xs
      → IsValid s
      → IsValid (next_of s xs).1
  unfolding next_of select_at
  next_of-IsValid s [] e v = v
  next_of-IsValid s (c ∷ cs) e v = elim (Option-cases (get_elem? (c ∷ cs) s.current_index)) [
    | inl missing ↦ rw (missing, select_at) v
    | inr (config, found) ↦
        rw (found, select_at)
          (record {
            in_range = InRange-mod s.available_configs (s.current_index + 1) c cs e;
            conserved = v.conserved;
          })
  ]

  pub get_next_config-IsValid : (s : LoadBalancer C) → IsValid s → IsValid (get_next_config s).1
  unfolding get_next_config
  get_next_config-IsValid s v = next_of-IsValid s s.available_configs refl v

  InRange-zero : (xs : List C) → InRange xs 0
  InRange-zero [] = refl
  InRange-zero (x ∷ xs) = omega arith

  reset_of-IsValid :
      (s : LoadBalancer C) (xs : List C)
      → s.failed_configs ≡ xs
      → IsValid s
      → IsValid (reset_of s xs)
  unfolding reset_of
  reset_of-IsValid s [] e v = v
  reset_of-IsValid s (c ∷ cs) e v = record {
    in_range = InRange-zero (s.available_configs ++ c ∷ cs);
    conserved = rw append-nil (rw e at v.conserved);
  }

  pub reset_failed_configs-IsValid :
      (s : LoadBalancer C) → IsValid s → IsValid (reset_failed_configs s)
  unfolding reset_failed_configs
  reset_failed_configs-IsValid s v = reset_of-IsValid s s.failed_configs refl v

module _ {ℓ} {C : Type ℓ} ⦃e : HasEq C⦄ where
  pub remove-perm : (c : C) (xs : List C) → contains c xs ≡ true → Perm (c ∷ remove c xs) xs
  unfolding remove
  remove-perm c [] h = cc
  remove-perm c (x ∷ xs) h = elim (Bool-cases (x == c)) [
    | inl hit ↦ rw hit (Perm.cons' (sym ((e.test_iff x c).0 hit)) (Perm.refl xs))
    | inr miss ↦
        rw miss (Perm.trans (Perm.swap x c _) (Perm.cons x (remove-perm c xs (ground arith))))
  ]

  move-perm :
      (c : C) (xs ys all : List C)
      → contains c xs ≡ true
      → Perm (xs ++ ys) all
      → Perm (remove c xs ++ (ys ++ c ∷ [])) all
  move-perm c xs ys all h p =
      Perm.trans
        (Perm.trans
          (rw (← append_assoc)
            (Perm.trans (perm_middle (remove c xs ++ ys) []) (rw append-nil (Perm.refl _))))
          (Perm.append_right ys (remove-perm c xs h)))
        p

  pub mark_config_failed-IsValid :
      (s : LoadBalancer C) (c : C) → IsValid s → IsValid (mark_config_failed s c)
  unfolding mark_config_failed
  mark_config_failed-IsValid s c v = elim (Bool-cases (contains c s.available_configs)) [
    | inl here ↦ rw here (record {
      in_range = InRange-adjusted (remove c s.available_configs) s.current_index;
      conserved = move-perm c s.available_configs s.failed_configs s.all_configs here v.conserved;
    })
    | inr gone ↦ rw gone v
  ]

  pub step-IsValid : (s : LoadBalancer C) (c : Call C) → IsValid s → IsValid (step s c)
  unfolding step
  step-IsValid s next v = get_next_config-IsValid s v
  step-IsValid s (fail c) v = mark_config_failed-IsValid s c v
  step-IsValid s reset v = reset_failed_configs-IsValid s v

  -- Calls keep a balancer well formed.
  pub run-IsValid : (s : LoadBalancer C) (calls : List (Call C)) → IsValid s → IsValid (run s calls)
  unfolding run
  run-IsValid s [] v = v
  run-IsValid s (c ∷ calls) v = run-IsValid (step s c) calls (step-IsValid s c v)
