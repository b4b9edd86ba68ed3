-- ===== src/LoadBalancer/Failover.antt =====
-- What becomes of a configuration that was marked as failed.
use mathlib.Core.List.{
  Mem, Mem-prop, Nodup, Nodup-cons, Nodup-append, mem-cons, mem-cons_self, mem-cons_of_mem,
  mem-append_left, not-mem-nil,
}
use native.Mathlib.Nat.{mod-eq_of_lt}
use mathlib.Core.HLevel.{⊥_prop}
use mathlib.Core.Logic.Or
use mathlib.Core.List.Perm
use flow_proxy.Base.{
  ℕ, zero, suc, ◌≡◌, ◌≢◌, refl, sym, subst, ◌∙◌, ◌⊎◌, inl, inr, true, false, List, [], ◌∷◌, HasEq,
  ◌==◌, All, contains, length, get_elem?, get_elem?_lt, Bool-cases, some, Result, ok, err, ok_inj,
  some_inj, arith, if◌then◌else◌,
}
use flow_proxy.LoadBalancer.{
  LoadBalancer, Call, next, fail, reset, select_at, next_of, get_next_config, remove,
  mark_config_failed, step, no_configs,
}
use flow_proxy.LoadBalancer.Invariant.{
  InRange, IsValid, get_next_config-IsValid, mark_config_failed-IsValid, remove-perm,
}

module _ {ℓ} {C : Type ℓ} where
  get_elem?-Mem : (xs : List C) (i : ℕ) (x : C) → get_elem? xs i ≡ some x → Mem x xs
  get_elem?-Mem [] i x h = cc
  get_elem?-Mem (y ∷ ys) zero x h = subst (λ z. Mem z (y ∷ ys)) (some_inj h) mem-cons_self
  get_elem?-Mem (y ∷ ys) (suc i) x h = mem-cons_of_mem y (get_elem?-Mem ys i x h)

  next_of_cases :
      (s : LoadBalancer C) (xs : List C)
      → s.available_configs ≡ xs
      → InRange xs s.current_index
      → ((xs ≡ []) × (next_of s xs ≡ (err no_configs, s)))
        ⊎ ((c : C) × Mem c xs
            × ((next_of s xs).0 ≡ ok c)
            × ((next_of s xs).1.available_configs ≡ xs))
  unfolding next_of select_at
  next_of_cases s [] e r = inl (refl, refl)
  next_of_cases s (x ∷ xs) e r =
      let (c, found) = get_elem?_lt (x ∷ xs) s.current_index r in
      inr (
        c,
        get_elem?-Mem (x ∷ xs) s.current_index c found,
        rw (found, select_at) refl,
        rw (found, select_at) e,
      )

  -- A request fails exactly when no configuration is available; it then raises the error and
  -- changes nothing. Otherwise it is given one of the available configurations, and they stay.
  pub get_next_config_cases :
      (s : LoadBalancer C)
      → IsValid s
      → ((s.available_configs ≡ []) × (get_next_config s ≡ (err no_configs, s)))
        ⊎ ((c : C) × Mem c s.available_configs
            × ((get_next_config s).0 ≡ ok c)
            × ((get_next_config s).1.available_configs ≡ s.available_configs))
  unfolding get_next_config
  get_next_config_cases s v = next_of_cases s s.available_configs refl v.in_range

module _ {ℓ} {C : Type ℓ} ⦃e : HasEq C⦄ where
  -- What the requests among the calls are given.
  unfoldable pub answers : LoadBalancer C → List (Call C) → List (Result C)
  answers s [] = []
  answers s (next ∷ calls) = (get_next_config s).0 ∷ answers (step s next) calls
  answers s (fail c ∷ calls) = answers (step s (fail c)) calls
  answers s (reset ∷ calls) = answers (step s reset) calls

  abbrev pub NoReset : List (Call C) → Type 0
  NoReset [] = Unit
  NoReset (reset ∷ calls) = ⊥
  NoReset (_ ∷ calls) = NoReset calls

  Mem-contains : (c : C) (xs : List C) → contains c xs ≡ false → ¬ Mem c xs
  Mem-contains c [] h m = not-mem-nil m
  Mem-contains c (x ∷ xs) h m =
      Or.elim ⊥_prop (mem-cons.0 m) (λ q. ground (arith, e.test_iff x c, q))
        (Mem-contains c xs (ground arith))

  mem-remove : (c d : C) (xs : List C) → Mem c (remove d xs) → Mem c xs
  unfolding remove
  mem-remove c d [] m = m
  mem-remove c d (x ∷ xs) m = elim (Bool-cases (x == d)) [
    | inl hit ↦ mem-cons_of_mem x (subst (λ b. Mem c (if b then xs else x ∷ remove d xs)) hit m)
    | inr miss ↦
        Or.elim Mem-prop
          (mem-cons.0 (subst (λ b. Mem c (if b then xs else x ∷ remove d xs)) miss m))
          (λ q. mem-cons.1 (Or.inl q)) (λ k. mem-cons_of_mem x (mem-remove c d xs k))
  ]

  not-mem-remove : (c : C) (xs : List C) → contains c xs ≡ true → Nodup xs → ¬ Mem c (remove c xs)
  not-mem-remove c xs h n = (Nodup-cons.0 (Perm.nodup (Perm.symm (remove-perm c xs h)) n)).0

  available-Nodup :
      (s : LoadBalancer C) → IsValid s → Nodup s.all_configs → Nodup s.available_configs
  available-Nodup s v n = (Nodup-append.0 (Perm.nodup (Perm.symm v.conserved) n)).0

  abbrev IsOut : C → LoadBalancer C → Type ℓ
  IsOut c s = ¬ Mem c s.available_configs

  mark_config_failed-IsOut_self :
      (s : LoadBalancer C) (c : C) → Nodup s.available_configs → IsOut c (mark_config_failed s c)
  unfolding mark_config_failed
  mark_config_failed-IsOut_self s c n = elim (Bool-cases (contains c s.available_configs)) [
    | inl here ↦ rw here (not-mem-remove c s.available_configs here n)
    | inr gone ↦ rw gone (Mem-contains c s.available_configs gone)
  ]

  mark_config_failed-IsOut :
      (s : LoadBalancer C) (c d : C) → IsOut c s → IsOut c (mark_config_failed s d)
  unfolding mark_config_failed
  mark_config_failed-IsOut s c d o = elim (Bool-cases (contains d s.available_configs)) [
    | inl here ↦ rw here (λ m. o (mem-remove c d s.available_configs m))
    | inr gone ↦ rw gone o
  ]

  get_next_config-IsOut :
      (s : LoadBalancer C) (c : C)
      → IsValid s
      → IsOut c s
      → IsOut c (get_next_config s).1 × ((get_next_config s).0 ≢ ok c)
  get_next_config-IsOut s c v o = elim (get_next_config_cases s v) [
    | inl (none_left, same) ↦ rw same (o, λ q. cc)
    | inr (d, here, given, stay) ↦
        (rw stay o, λ q. o (subst (λ x. Mem x s.available_configs) (ok_inj (sym given ∙ q)) here))
  ]

  answers-IsOut :
      (s : LoadBalancer C) (c : C) (calls : List (Call C))
      → IsValid s
      → IsOut c s
      → NoReset calls
      → All (λ r. r ≢ ok c) (answers s calls)
  unfolding answers step
  answers-IsOut s c [] v o n = tt
  answers-IsOut s c (next ∷ calls) v o n =
      let (o', safe) = get_next_config-IsOut s c v o in
      (safe, answers-IsOut (get_next_config s).1 c calls (get_next_config-IsValid s v) o' n)
  answers-IsOut s c (fail d ∷ calls) v o n =
      answers-IsOut (mark_config_failed s d) c calls (mark_config_failed-IsValid s d v)
        (mark_config_failed-IsOut s c d o) n
  answers-IsOut s c (reset ∷ calls) v o n = absurd n

  -- Where the configurations are distinct, one that is marked as failed is given to no request
  -- until the next reset, whatever calls come in between.
  pub failed_not_answered :
      (s : LoadBalancer C) (c : C) (calls : List (Call C))
      → IsValid s
      → Nodup s.all_configs
      → NoReset calls
      → All (λ r. r ≢ ok c) (answers (mark_config_failed s c) calls)
  failed_not_answered s c calls v n q =
      answers-IsOut _ c calls (mark_config_failed-IsValid s c v)
        (mark_config_failed-IsOut_self s c (available-Nodup s v n)) q

  abbrev three_left : LoadBalancer C → ℕ → C → C → C → List C → LoadBalancer C
  three_left s i a b c rest = record s { available_configs = a ∷ b ∷ c ∷ rest; current_index = i }

  skip_lem :
      (s : LoadBalancer C) (a b c : C) (rest : List C)
      → ((get_next_config (three_left s 0 a b c rest)).0 ≡ ok a)
        × ((get_next_config
              (mark_config_failed (get_next_config (three_left s 0 a b c rest)).1 a)).0
            ≡ ok c)
  unfolding get_next_config mark_config_failed
  skip_lem s a b c rest = (
    refl,
    rw (
      (e.test_iff a a).1 refl,
      mod-eq_of_lt {n = 1} {m = suc (suc (suc (length rest)))} (omega arith),
      mod-eq_of_lt {n = 1} {m = suc (suc (length rest))} (omega arith),
    ),
  )

  -- The configuration behind one that fails on being handed out is passed over: with the index at
  -- the first of three, the request after the failure is given the third.
  pub failover_skips :
      (s : LoadBalancer C) (a b c : C) (rest : List C)
      → s.available_configs ≡ a ∷ b ∷ c ∷ rest
      → s.current_index ≡ 0
      → ((get_next_config s).0 ≡ ok a)
        × ((get_next_config (mark_config_failed (get_next_config s).1 a)).0 ≡ ok c)
  failover_skips s a b c rest h z =
      subst
        (λ (u : LoadBalancer C).
          ((get_next_config u).0 ≡ ok a)
          × ((get_next_config (mark_config_failed (get_next_config u).1 a)).0 ≡ ok c))
        (sym same) (skip_lem s a b c rest)
    where
      same : s ≡ three_left s 0 a b c rest
      same = λ i. record s { available_configs = h i; current_index = z i }

  -- What a request is given is one of the balancer's configurations.
  pub get_next_config-Mem :
      (s : LoadBalancer C) (c : C) → IsValid s → (get_next_config s).0 ≡ ok c → Mem c s.all_configs
  get_next_config-Mem s c v h = elim (get_next_config_cases s v) [
    | inl (none_left, same) ↦ cc
    | inr (d, here, given, stay) ↦
        subst (λ x. Mem x s.all_configs) (ok_inj (sym given ∙ h))
          ((Perm.mem_iff v.conserved).0 (mem-append_left s.failed_configs here))
  ]
