-- ===== src/Plugins/Proxy/Served.antt =====
-- What every instance of FlowProxyPlugin that is given out can rely on.
use flow_proxy.Base.{
  ℕ, zero, suc, ◌≤◌, ◌≡◌, refl, sym, ap, subst, ◌∙◌, ◌⊎◌, inl, inr, Bool, true, false, Bool-cases,
  Option, none, some, some_inj, List, [], ◌∷◌, ◌++◌, All, length-append, if_true, if_false, arith,
  length,
}
use flow_proxy.PluginPool.{Pool, release}
use flow_proxy.PluginPool.Reuse.{release-IsClean, acquire_cases, release_cases}
use flow_proxy.Plugins.Proxy.{
  ProxyPlugin, ProxyClass, init_services, first_init, init_proxy, create_proxy, rebind_proxy,
  reset_proxy, pool_of, log_first, obtained, new_proxy, released, taken_at, kept_before,
  upstream_closed, on_upstream_connection_close, new_class, ProxyEvent, opens, shuts, proxy_run,
}

-- What `ProcessServices.get` gives: the services `k`, or an exception.
abbrev pub IsGiven : ℕ → Option ℕ → Type 0
IsGiven k services = (services ≡ none) ⊎ (services ≡ some k)

module _ {ℓ} {C : Type ℓ} (max_size k : ℕ) where
  -- A new instance asks for the services of the process.
  abbrev pub IsPossible : ProxyEvent C → Type 0
  IsPossible (opens c services) = IsGiven k services
  IsPossible (shuts n) = Unit

  -- Set up, with the services `k`.
  abbrev pub IsServed : ProxyPlugin C → Type 0
  IsServed i = (i.pooled ≡ true) × (i.services ≡ some k)

  abbrev IsStocked : Pool (ProxyPlugin C) → Type 0
  IsStocked pool =
      (length pool.instances ≤ pool.max_size)
      × All IsServed pool.instances
      × (pool.max_size ≡ max_size)

  record IsKept (s : ProxyClass C) : Type ℓ where
    pool : (p : Pool (ProxyPlugin C)) → s.proxy_pool ≡ some p → IsStocked p
    using : All IsServed s.in_use
    logged : (s.lines ≡ 0) ⊎ ((s.lines ≡ 1) × (s.log_once ≡ true))

  -- The connection has an instance of its own, or the services could not be had.
  abbrev pub IsAnswer : C → Option ℕ → Option (ProxyPlugin C) → Type ℓ
  IsAnswer c services o =
      ((i : ProxyPlugin C) × (o ≡ some i) × IsServed i × (i.connection ≡ some c))
      ⊎ ((o ≡ none) × (services ≡ none))

  stocked : (s : ProxyClass C) → IsKept s → IsStocked (pool_of max_size s.proxy_pool)
  unfolding pool_of
  stocked s h = cases s.proxy_pool refl
    where
      cases :
          (o : Option (Pool (ProxyPlugin C))) → s.proxy_pool ≡ o → IsStocked (pool_of max_size o)
      cases none e = (omega arith, tt, refl)
      cases (some p) e = h.pool p e

  log_first-IsKept :
      (before : List (ProxyPlugin C)) (s : ProxyClass C) → IsKept s → IsKept (log_first before s)
  unfolding log_first
  log_first-IsKept (i ∷ is) s h = h
  log_first-IsKept [] s h = elim (Bool-cases s.log_once) [
    | inl once ↦ if_true IsKept s.log_once _ _ once h
    | inr first ↦ subst IsKept (sym (if_false s.log_once _ _ first)) (record {
      pool = h.pool;
      using = h.using;
      logged = elim h.logged [
        | inl z ↦ inr (omega (arith, z), refl)
        | inr (one, o) ↦ cc (sym first ∙ o)
      ];
    })
  ]

  obtained-IsKept :
      (c : C) (services : Option ℕ) (s : ProxyClass C) (before : List (ProxyPlugin C))
      (i : ProxyPlugin C) (p : Pool (ProxyPlugin C))
      → IsKept s
      → IsStocked p
      → IsServed i
      → i.connection ≡ some c
      → IsKept (obtained c services s before (i, p)).1
        × IsAnswer c services (obtained c services s before (i, p)).0
  unfolding obtained init_proxy first_init
  obtained-IsKept c services s before i p h st (set_up, has) bound = rw set_up (
    log_first-IsKept before _ (record {
      pool = λ q e. subst IsStocked (some_inj e) st;
      using = ((refl, has), h.using);
      logged = h.logged;
    }),
    inl (record i { pooled = true }, refl, (refl, has), bound),
  )

  failed-IsKept :
      (c : C) (s : ProxyClass C) (before : List (ProxyPlugin C)) (p : Pool (ProxyPlugin C))
      → IsKept s
      → IsStocked p
      → IsKept (obtained c none s before (create_proxy (c, none), p)).1
        × IsAnswer c none (obtained c none s before (create_proxy (c, none), p)).0
  unfolding obtained create_proxy init_proxy first_init init_services
  failed-IsKept c s before p h st = (
    record { pool = λ q e. subst IsStocked (some_inj e) st; using = h.using; logged = h.logged },
    inr (refl, refl),
  )

  split_last :
      (rest : List (ProxyPlugin C)) (i : ProxyPlugin C)
      → All IsServed (rest ++ i ∷ [])
      → IsServed i × All IsServed rest
  split_last [] i a = (a.0, tt)
  split_last (j ∷ rest) i a = let (l, r) = split_last rest i a.1 in (l, (a.0, r))

  new_proxy-IsKept :
      (c : C) (services : Option ℕ) (s : ProxyClass C)
      → IsGiven k services
      → IsKept s
      → IsKept (new_proxy max_size c services s).1
        × IsAnswer c services (new_proxy max_size c services s).0
  unfolding new_proxy
  new_proxy-IsKept c services s g h =
      elim (acquire_cases create_proxy rebind_proxy reset_proxy (pool_of max_size s.proxy_pool)
        (c, services)) [
          | inl (empty, made) ↦ subst (Kept) (sym made) (elim g [
            | inl missing ↦
                subst
                  (λ o.
                    IsKept (obtained c o s instances (create_proxy (c, o), pool)).1
                    × IsAnswer c o (obtained c o s instances (create_proxy (c, o), pool)).0)
                  (sym missing) (failed-IsKept c s instances pool h st)
            | inr there ↦
                obtained-IsKept c services s instances (create_proxy (c, services)) pool h st
                  (unfold create_proxy init_proxy first_init init_services in rw there (refl, refl))
                  (unfold create_proxy init_proxy first_init init_services in rw there refl)
          ])
          | inr (i, rest, parts, made) ↦ subst (Kept) (sym made) (
              obtained-IsKept c services s instances (rebind_proxy (c, services) i)
                (record pool { instances = rest }) h (taken_stock rest i parts)
                (refl, (last_good rest i parts).1) refl)
        ]
    where
      pool : Pool (ProxyPlugin C)
      pool = pool_of max_size s.proxy_pool

      instances : List (ProxyPlugin C)
      instances = (pool_of max_size s.proxy_pool).instances

      st : IsStocked (pool_of max_size s.proxy_pool)
      st = stocked s h

      last_good :
          (rest : List (ProxyPlugin C)) (i : ProxyPlugin C)
          → (pool_of max_size s.proxy_pool).instances ≡ rest ++ i ∷ []
          → IsServed i
      last_good rest i parts = (split_last rest i (subst (All IsServed) parts st.1)).0

      taken_stock :
          (rest : List (ProxyPlugin C)) (i : ProxyPlugin C)
          → (pool_of max_size s.proxy_pool).instances ≡ rest ++ i ∷ []
          → IsStocked (record (pool_of max_size s.proxy_pool) { instances = rest })
      taken_stock rest i parts = (
        omega (arith, st.0, ap length parts, length-append rest (i ∷ [])),
        (split_last rest i (subst (All IsServed) parts st.1)).1,
        st.2,
      )

      Kept : ProxyPlugin C × Pool (ProxyPlugin C) → Type ℓ
      Kept x =
          IsKept (obtained c services s (pool_of max_size s.proxy_pool).instances x).1
          × IsAnswer c services
              (obtained c services s (pool_of max_size s.proxy_pool).instances x).0

  IsTaken : Option (ProxyPlugin C × List (ProxyPlugin C)) → Type 0
  IsTaken none = Unit
  IsTaken (some (i, rest)) = IsServed i × All IsServed rest

  kept_before-IsTaken :
      (i : ProxyPlugin C) (o : Option (ProxyPlugin C × List (ProxyPlugin C)))
      → IsServed i
      → IsTaken o
      → IsTaken (kept_before i o)
  unfolding kept_before IsTaken
  kept_before-IsTaken i none a t = tt
  kept_before-IsTaken i (some (j, rest)) a t = (t.0, (a, t.1))

  taken_at-IsTaken : (is : List (ProxyPlugin C)) (n : ℕ) → All IsServed is → IsTaken (taken_at n is)
  unfolding taken_at IsTaken
  taken_at-IsTaken [] n a = tt
  taken_at-IsTaken (i ∷ is) zero a = a
  taken_at-IsTaken (i ∷ is) (suc n) a =
      kept_before-IsTaken i (taken_at n is) a.0 (taken_at-IsTaken is n a.1)

  release-IsStocked :
      (p : Pool (ProxyPlugin C)) (i : ProxyPlugin C)
      → IsStocked p
      → IsServed i
      → IsStocked (release create_proxy rebind_proxy reset_proxy p i)
  unfolding reset_proxy
  release-IsStocked p i st a =
      let clean =
        release-IsClean create_proxy rebind_proxy reset_proxy IsServed p i a
          (record { bounded = st.0; clean = st.1 }) in
      (
        clean.bounded,
        clean.clean,
        elim (release_cases create_proxy rebind_proxy reset_proxy p i) [
          | inl room ↦ ap (λ (q : Pool (ProxyPlugin C)). q.max_size) room ∙ st.2
          | inr full ↦ ap (λ (q : Pool (ProxyPlugin C)). q.max_size) full ∙ st.2
        ],
      )

  upstream_closed-IsKept :
      (s : ProxyClass C) (o : Option (ProxyPlugin C × List (ProxyPlugin C)))
      → IsTaken o
      → IsKept s
      → IsKept (upstream_closed s o)
  unfolding upstream_closed IsTaken released
  upstream_closed-IsKept s none t h = h
  upstream_closed-IsKept s (some (i, rest)) (a, others) h = record {
    pool = λ q e. given s.proxy_pool refl i.pooled q e;
    using = others;
    logged = h.logged;
  }
    where
      given :
          (o : Option (Pool (ProxyPlugin C)))
          → s.proxy_pool ≡ o
          → (pooled : Bool) (q : Pool (ProxyPlugin C)) → released o i pooled ≡ some q
          → IsStocked q
      given none e pooled q f = cc
      given (some p) e false q f = h.pool q (e ∙ f)
      given (some p) e true q f =
          subst IsStocked (some_inj f) (release-IsStocked p i (h.pool p e) a)

  proxy_run-IsKept :
      (es : List (ProxyEvent C)) (s : ProxyClass C)
      → All (IsPossible) es
      → IsKept s
      → IsKept (proxy_run max_size s es)
  unfolding proxy_run on_upstream_connection_close
  proxy_run-IsKept [] s g h = h
  proxy_run-IsKept (opens c services ∷ es) s g h =
      proxy_run-IsKept es _ g.1 (new_proxy-IsKept c services s g.0 h).0
  proxy_run-IsKept (shuts n ∷ es) s g h =
      proxy_run-IsKept es _ g.1 (upstream_closed-IsKept s _ (taken_at-IsTaken s.in_use n h.using) h)

  -- No pool yet, or one that is in order.
  abbrev pub IsPooled : Option (Pool (ProxyPlugin C)) → Type 0
  IsPooled none = Unit
  IsPooled (some p) = IsStocked p

  kept-IsPooled : {s : ProxyClass C} → IsKept s → IsPooled s.proxy_pool
  kept-IsPooled {s} h = cases s.proxy_pool refl
    where
      cases : (o : Option (Pool (ProxyPlugin C))) → s.proxy_pool ≡ o → IsPooled o
      cases none e = tt
      cases (some p) e = h.pool p e

  new_class-IsKept : IsKept new_class
  new_class-IsKept = record { pool = λ p e. cc; using = tt; logged = inl refl }

  -- While `ProcessServices.get` gives the same services whenever it does not raise: after any
  -- connections, also ones whose set-up raised, and closes, a new connection gets an instance that
  -- is set up, bound to it and has these services, or has none because the services could not be
  -- had; no instance in use or in the pool is without them, the pool keeps to its size, and the line
  -- of the first initialization was logged at most once.
  pub new_proxy-IsAnswer :
      (es : List (ProxyEvent C)) (c : C) (services : Option ℕ)
      → All IsPossible es
      → IsGiven k services
      → IsAnswer c services (new_proxy max_size c services (proxy_run max_size new_class es)).0
        × All IsServed (new_proxy max_size c services (proxy_run max_size new_class es)).1.in_use
        × IsPooled (new_proxy max_size c services (proxy_run max_size new_class es)).1.proxy_pool
        × ((new_proxy max_size c services (proxy_run max_size new_class es)).1.lines ≤ 1)
  new_proxy-IsAnswer es c services g there =
      let before : IsKept (proxy_run max_size new_class es) =
        proxy_run-IsKept es new_class g new_class-IsKept in
      let (kept, answer) =
        new_proxy-IsKept c services (proxy_run max_size new_class es) there before in
      (
        answer,
        kept.using,
        kept-IsPooled kept,
        elim kept.logged [ inl z ↦ omega (arith, z) | inr (one, o) ↦ omega (arith, one) ],
      )
