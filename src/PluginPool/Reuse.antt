-- ===== src/PluginPool/Reuse.antt =====
-- What an instance that is taken from the pool has been through.
use flow_proxy.Base.{
  ◌≤◌, ◌<◌, ◌≡◌, refl, ap, sym, subst, ◌⊎◌, inl, inr, Option, none, some, List, [], ◌∷◌, ◌++◌, All,
  All-append, length, length-append, ltb, Bool-cases, if_true, if_false, arith,
}
use flow_proxy.PluginPool.{Pool, push_under, pop_last, taken, acquire, release}

module _ {ℓ} {A : Type ℓ} where
  pop_last-append : (xs : List A) (x : A) → pop_last (xs ++ x ∷ []) ≡ some (x, xs)
  unfolding pop_last push_under
  pop_last-append [] x = refl
  pop_last-append (y ∷ xs) x = rw (pop_last-append xs x) refl

  -- What a popped deque was.
  pub Popped : List A → Option (A × List A) → Type ℓ
  Popped xs none = xs ≡ []
  Popped xs (some (x, rest)) = xs ≡ rest ++ x ∷ []

  under-Popped :
      (y : A) (xs : List A) (o : Option (A × List A))
      → Popped xs o
      → Popped (y ∷ xs) (push_under y o)
  unfolding Popped push_under
  under-Popped y xs none h = ap (λ z. y ∷ z) h
  under-Popped y xs (some (x, rest)) h = ap (λ z. y ∷ z) h

  pop_last-Popped : (xs : List A) → Popped xs (pop_last xs)
  unfolding pop_last Popped
  pop_last-Popped [] = refl
  pop_last-Popped (y ∷ xs) = under-Popped y xs (pop_last xs) (pop_last-Popped xs)

module _ {ℓ κ μ} {A : Type ℓ} {B : Type κ} (create : B → A) (rebind : B → A → A) (reset : A → A)
    (P : A → Type μ) where
  -- The pool keeps to its size and holds only instances with the property.
  pub record IsClean (p : Pool A) : Type μ where
    pub bounded : length p.instances ≤ p.max_size
    pub clean : All P p.instances

  last-All : (xs : List A) (x : A) → All P (xs ++ x ∷ []) → P x × All P xs
  last-All [] x h = (h.0, tt)
  last-All (y ∷ xs) x h = let (p, rest) = last-All xs x h.1 in (p, (h.0, rest))

  -- A release keeps the pool within its size, and full of instances that have what a reset gives.
  pub release-IsClean :
      (p : Pool A) (a : A) → P (reset a) → IsClean p → IsClean (release create rebind reset p a)
  unfolding release
  release-IsClean p a c h = elim (Bool-cases (ltb (length p.instances) p.max_size)) [
    | inl b ↦
        let room : length p.instances < p.max_size = ground (arith, b) in
        if_true IsClean (ltb (length p.instances) p.max_size) _ _ b (record {
          bounded = omega (arith, length-append p.instances (reset a ∷ []));
          clean = All-append P p.instances (reset a ∷ []) h.clean (c, tt);
        })
    | inr b ↦ subst IsClean (sym (if_false (ltb (length p.instances) p.max_size) _ _ b)) h
  ]

  -- An instance that is acquired is new, or it is one that has what a reset gives, rebound to the
  -- connection; the pool stays within its size and full of such instances.
  pub acquire-IsClean :
      (p : Pool A) (args : B)
      → IsClean p
      → (((acquire create rebind reset p args).0 ≡ create args)
          ⊎ ((a : A) × P a × ((acquire create rebind reset p args).0 ≡ rebind args a)))
        × IsClean (acquire create rebind reset p args).1
  unfolding acquire Popped
  acquire-IsClean p args h = cases (pop_last p.instances) (pop_last-Popped p.instances)
    where
      cases :
          (o : Option (A × List A))
          → Popped p.instances o
          → (((taken create rebind reset p args o).0 ≡ create args)
              ⊎ ((a : A) × P a × ((taken create rebind reset p args o).0 ≡ rebind args a)))
            × IsClean (taken create rebind reset p args o).1
      cases none e = unfold taken in (inl refl, h)
      cases (some (a, rest)) e =
          let (good, others) = last-All rest a (subst (All P) e h.clean) in
          (
            inr (a, good, refl),
            record {
              bounded = omega (arith, h.bounded, ap length e, length-append rest (a ∷ []));
              clean = others;
            },
          )

-- An instance that is released to a pool with room is the next to be taken, reset and then rebound,
-- and the pool is as before.
pub acquire-release {ℓ κ} :
    {A : Type ℓ} {B : Type κ} (create : B → A) (rebind : B → A → A) (reset : A → A) (p : Pool A)
    (a : A) (args : B)
    → length p.instances < p.max_size
    → acquire create rebind reset (release create rebind reset p a) args
      ≡ (rebind args (reset a), p)
unfolding acquire release taken
acquire-release create rebind reset p a args n =
    if_true
      (λ (x : Pool _).
        taken create rebind reset x args (pop_last x.instances) ≡ (rebind args (reset a), p))
      (ltb (length p.instances) p.max_size) _ _ (ground (arith, n))
      (rw (pop_last-append p.instances (reset a)) refl)

module _ {ℓ κ} {A : Type ℓ} {B : Type κ} (create : B → A) (rebind : B → A → A) (reset : A → A)
    (p : Pool A) where
  -- An acquire creates an instance or takes the last of the pool; a release appends or drops.
  pub acquire_cases :
      (args : B)
      → ((p.instances ≡ []) × (acquire create rebind reset p args ≡ (create args, p)))
        ⊎ ((a : A) × (rest : List A) × (p.instances ≡ rest ++ a ∷ [])
            × (acquire create rebind reset p args ≡ (rebind args a, record p { instances = rest })))
  unfolding acquire taken
  acquire_cases args = cases (pop_last p.instances) (pop_last-Popped p.instances)
    where
      cases :
          (o : Option (A × List A))
          → Popped p.instances o
          → ((p.instances ≡ []) × (taken create rebind reset p args o ≡ (create args, p)))
            ⊎ ((a : A) × (rest : List A) × (p.instances ≡ rest ++ a ∷ [])
                × (taken create rebind reset p args o
                    ≡ (rebind args a, record p { instances = rest })))
      cases none e = unfold Popped taken in inl (e, refl)
      cases (some (a, rest)) e = unfold Popped taken in inr (a, rest, e, refl)

  pub release_cases :
      (a : A)
      → (release create rebind reset p a ≡ record p { instances = p.instances ++ reset a ∷ [] })
        ⊎ (release create rebind reset p a ≡ p)
  unfolding release
  release_cases a = elim (Bool-cases (ltb (length p.instances) p.max_size)) [
    | inl room ↦ inl (rw room refl)
    | inr full ↦ inr (rw full refl)
  ]
