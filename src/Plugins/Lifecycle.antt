-- ===== src/Plugins/Lifecycle.antt =====
-- Which instances serve which connections.
use mathlib.Core.List.{perm_middle, Nodup, Nodup-nil, not-mem-nil}
use mathlib.Core.List.Perm
use flow_proxy.Base.{
  ℕ, ◌+◌, ◌==◌, nat_eq, ◌≡◌, refl, sym, ap, subst, ◌∙◌, inl, inr, true, none, some, List, [], ◌∷◌,
  ◌++◌, append_assoc, All, contains, if_intro, if_true, arith,
}
use flow_proxy.Plugins.Numbers.{
  AreFresh, AreFresh-perm, AreFresh-cons, AreFresh-tail, AreFresh-later, AreFresh-apart,
  All-contains, All-remove,
}
use flow_proxy.Plugins.Objects.{set_same, All_moved, All_set, All_kept}
use flow_proxy.LoadBalancer.{remove}
use flow_proxy.LoadBalancer.Invariant.{remove-perm}
use flow_proxy.PluginPool.{Pool}
use flow_proxy.PluginPool.Reuse.{
  IsClean, acquire_cases, release_cases, acquire-IsClean, release-IsClean,
}
use flow_proxy.Plugins.{
  Plugin, Server, ServerEvent, connects, streams, closes, new_number, kept_number, init_pooled,
  init, create, rebind, reset, set_object, acquired, new_server, connected, connect, give_back,
  without, close, stream, run,
}

module _ {ℓ} {C : Type ℓ} where
  -- An instance in the pool has been set up, and has no stream.
  pub record IsIdle (i : Plugin C) : Type 0 where
    pub initialised : i.pooled ≡ true
    pub quiet : i.streaming_state ≡ none

  abbrev pub all_numbers : Server C → List ℕ
  all_numbers s = s.pool.instances ++ s.in_use

  abbrev pub IsTidy : Server C → Type 0
  IsTidy s = IsClean new_number kept_number new_number (λ (n : ℕ). IsIdle (s.objects n)) s.pool

  record IsSorted (s : Server C) : Type 0 where
    fresh : AreFresh s.made (all_numbers s)
    clean : IsTidy s
    initialised : All (λ n. (s.objects n).pooled ≡ true) s.in_use

  -- The newest instance in use is the connection's, and has no stream; the instances of the other
  -- connections are as before.
  pub record IsBound (c : C) (before s : Server C) : Type ℓ where
    pub number : ℕ
    pub newest : s.in_use ≡ number ∷ before.in_use
    pub bound : (s.objects number).connection ≡ some c
    pub quiet : (s.objects number).streaming_state ≡ none
    pub others : All (λ k. s.objects k ≡ before.objects k) before.in_use

  -- Set up, bound to the connection, and without a stream.
  abbrev IsNew : C → Plugin C → Type ℓ
  IsNew c i = (i.pooled ≡ true) × (i.connection ≡ some c) × (i.streaming_state ≡ none)

  acquired-IsNew : (c : C) (s : Server C) (n : ℕ) → IsNew c (init c (acquired c s n))
  unfolding acquired create rebind init init_pooled
  acquired-IsNew c s n =
      if_intro (λ i. IsNew c (init c i)) (n == s.made) (create c) (rebind c (s.objects n))
        (refl, refl, refl) (refl, refl, refl)

  -- An instance that is neither in use nor in the pool is taken.
  connected-IsSorted :
      (c : C) (s : Server C) (n : ℕ) (pool : Pool ℕ)
      → AreFresh (s.made + 1) (pool.instances ++ n ∷ s.in_use)
      → IsClean new_number kept_number new_number (λ (k : ℕ). IsIdle (s.objects k)) pool
      → All (λ k. (s.objects k).pooled ≡ true) s.in_use
      → IsSorted (connected c s (n, pool)) × IsBound c s (connected c s (n, pool))
  unfolding connected
  connected-IsSorted c s n pool fresh clean all =
      let i = init c (acquired c s n) in
      let (p, bound, quiet) = acquired-IsNew c s n in
      let (apart, elsewhere) = AreFresh-apart (s.made + 1) n pool.instances s.in_use fresh in
      let here = set_same n i s.objects in
      (
        record {
          fresh = fresh;
          clean = record {
            bounded = clean.bounded;
            clean = All_moved IsIdle n i s.objects pool.instances apart clean.clean;
          };
          initialised = (
            subst (λ (x : Plugin C). x.pooled ≡ true) (sym here) p,
            All_set (λ x. x.pooled ≡ true) n i s.objects s.in_use p all,
          );
        },
        record {
          number = n;
          newest = refl;
          bound = subst (λ (x : Plugin C). x.connection ≡ some c) (sym here) bound;
          quiet = subst (λ (x : Plugin C). x.streaming_state ≡ none) (sym here) quiet;
          others = All_kept n i s.objects s.in_use elsewhere;
        },
      )

  connect-IsSorted :
      (c : C) (s : Server C) → IsSorted s → IsSorted (connect c s) × IsBound c s (connect c s)
  unfolding connect
  connect-IsSorted c s h = elim (acquire_cases new_number kept_number new_number s.pool s.made) [
    | inl (empty, made) ↦
        subst (λ got. IsSorted (connected c s got) × IsBound c s (connected c s got)) (sym made)
          (connected-IsSorted c s s.made s.pool
            (AreFresh-perm (s.made + 1) (s.made ∷ all_numbers s) _
              (Perm.symm (perm_middle s.pool.instances s.in_use))
              (AreFresh-cons s.made (all_numbers s) h.fresh))
            h.clean h.initialised)
    | inr (n, rest, were, got) ↦
        subst (λ x. IsSorted (connected c s x) × IsBound c s (connected c s x)) (sym got)
          (connected-IsSorted c s n (record s.pool { instances = rest })
            (AreFresh-later s.made _ (
              subst (AreFresh s.made)
                (ap (λ ns. ns ++ s.in_use) were ∙ append_assoc rest (n ∷ []) s.in_use) h.fresh))
            (subst
              (λ (x : ℕ × Pool ℕ).
                IsClean new_number kept_number new_number (λ (k : ℕ). IsIdle (s.objects k)) x.1)
              got
              (acquire-IsClean new_number kept_number new_number (λ (k : ℕ). IsIdle (s.objects k))
                s.pool s.made h.clean).1)
            h.initialised)
  ]

  -- An instance in use, in front of the others.
  fronted :
      (s : Server C) (n : ℕ)
      → contains n s.in_use ≡ true
      → IsSorted s
      → AreFresh s.made (s.pool.instances ++ n ∷ remove n s.in_use)
  fronted s n there h =
      AreFresh-perm s.made _ _
        (Perm.symm (Perm.append_left s.pool.instances (remove-perm n s.in_use there))) h.fresh

  given_back-IsSorted :
      (s : Server C) (n : ℕ)
      → contains n s.in_use ≡ true
      → (s.objects n).pooled ≡ true
      → IsSorted s
      → IsSorted (without n (give_back n s))
  unfolding without give_back reset
  given_back-IsSorted s n there p h = record {
    fresh = elim (release_cases new_number kept_number new_number s.pool n) [
      | inl kept ↦
          subst (AreFresh s.made)
            (sym (
              ap (λ (x : Pool ℕ). x.instances ++ remove n s.in_use) kept
              ∙ append_assoc s.pool.instances (n ∷ []) (remove n s.in_use)))
            front
      | inr dropped ↦
          subst (AreFresh s.made)
            (sym (ap (λ (x : Pool ℕ). x.instances ++ remove n s.in_use) dropped))
            (AreFresh-tail s.made n _
              (AreFresh-perm s.made _ _ (perm_middle s.pool.instances (remove n s.in_use)) front))
    ];
    clean =
        release-IsClean new_number kept_number new_number (λ (k : ℕ). IsIdle (objects' k)) s.pool n
          (subst IsIdle (sym (set_same n (reset (s.objects n)) s.objects)) idle)
          (record {
            bounded = h.clean.bounded;
            clean = All_set IsIdle n _ s.objects s.pool.instances idle h.clean.clean;
          });
    initialised =
        All_set (λ x. x.pooled ≡ true) n _ s.objects (remove n s.in_use) p
          (All-remove (λ k. (s.objects k).pooled ≡ true) n s.in_use h.initialised);
  }
    where
      front : AreFresh s.made (s.pool.instances ++ n ∷ remove n s.in_use)
      front = fronted s n there h

      objects' : ℕ → Plugin C
      objects' = set_object n (reset (s.objects n)) s.objects

      idle : IsIdle (reset (s.objects n))
      idle = record { initialised = p; quiet = refl }

  close-IsSorted :
      (n : ℕ) (s : Server C) → contains n s.in_use ≡ true → IsSorted s → IsSorted (close n s)
  unfolding close
  close-IsSorted n s there h =
      let p = All-contains (λ k. (s.objects k).pooled ≡ true) n s.in_use h.initialised there in
      if_true (λ x. IsSorted (without n x)) (s.objects n).pooled (give_back n s) s p
        (given_back-IsSorted s n there p h)

  stream-IsSorted :
      (n state : ℕ) (s : Server C)
      → contains n s.in_use ≡ true
      → IsSorted s
      → IsSorted (stream n state s)
  unfolding stream
  stream-IsSorted n state s there h =
      let front = fronted s n there h in
      let (apart, _) = AreFresh-apart s.made n s.pool.instances (remove n s.in_use) front in
      let p = All-contains (λ k. (s.objects k).pooled ≡ true) n s.in_use h.initialised there in
      record {
        fresh = h.fresh;
        clean = record {
          bounded = h.clean.bounded;
          clean = All_moved IsIdle n _ s.objects s.pool.instances apart h.clean.clean;
        };
        initialised = All_set (λ x. x.pooled ≡ true) n _ s.objects s.in_use p h.initialised;
      }

  -- Requests come, and connections are closed, on instances of open connections only: proxy.py
  -- closes a connection once.
  abbrev pub IsOrderly : Server C → List (ServerEvent C) → Type 0
  IsOrderly s [] = Unit
  IsOrderly s (connects c ∷ es) = IsOrderly (connect c s) es
  IsOrderly s (streams n state ∷ es) =
      (contains n s.in_use ≡ true) × IsOrderly (stream n state s) es
  IsOrderly s (closes n ∷ es) = (contains n s.in_use ≡ true) × IsOrderly (close n s) es

  run-IsSorted :
      (es : List (ServerEvent C)) (s : Server C) → IsOrderly s es → IsSorted s → IsSorted (run s es)
  unfolding run
  run-IsSorted [] s o h = h
  run-IsSorted (connects c ∷ es) s o h = run-IsSorted es _ o (connect-IsSorted c s h).0
  run-IsSorted (streams n state ∷ es) s o h =
      run-IsSorted es _ o.1 (stream-IsSorted n state s o.0 h)
  run-IsSorted (closes n ∷ es) s o h = run-IsSorted es _ o.1 (close-IsSorted n s o.0 h)

  new_server-IsSorted : (max_size : ℕ) → IsSorted (new_server {C = C} max_size)
  new_server-IsSorted max_size = record {
    fresh = record { apart = Nodup-nil; older = λ k m. absurd (not-mem-nil m) };
    clean = record { bounded = omega arith; clean = tt };
    initialised = tt;
  }

  -- After any connections, and any streams and closes on instances of open connections, none closed
  -- twice: a connection gets an instance that is bound to it and has no stream, the instances of the
  -- other open connections are not touched, no instance is in use twice or both in use and in the
  -- pool, and the pool keeps to its size and holds instances without a stream only.
  pub connect-IsBound :
      (max_size : ℕ) (es : List (ServerEvent C)) (c : C)
      → IsOrderly (new_server max_size) es
      → IsBound c (run (new_server max_size) es) (connect c (run (new_server max_size) es))
        × Nodup (all_numbers (connect c (run (new_server max_size) es)))
        × IsTidy (connect c (run (new_server max_size) es))
  connect-IsBound max_size es c orderly =
      let (h, bound) =
        connect-IsSorted c _
          (run-IsSorted es (new_server max_size) orderly (new_server-IsSorted max_size)) in
      (bound, h.fresh.apart, h.clean)
