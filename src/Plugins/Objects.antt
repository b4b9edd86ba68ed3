-- ===== src/Plugins/Objects.antt =====
-- What a change of one object leaves of the others.
use flow_proxy.Base.{
  ℕ, ◌==◌, nat_eq, ◌≡◌, ◌≢◌, refl, sym, subst, inl, inr, List, [], ◌∷◌, All, Bool-cases, if_intro,
}
use flow_proxy.Plugins.{Plugin, set_object}

module _ {ℓ} {C : Type ℓ} where
  pub set_same : (n : ℕ) (i : Plugin C) (o : ℕ → Plugin C) → set_object n i o n ≡ i
  unfolding set_object
  set_same n i o = rw ((nat_eq.test_iff n n).1 refl) refl

  set_other : (n k : ℕ) (i : Plugin C) (o : ℕ → Plugin C) → k ≢ n → set_object n i o k ≡ o k
  unfolding set_object
  set_other n k i o h = elim (Bool-cases (k == n)) [
    | inl same ↦ absurd (h ((nat_eq.test_iff k n).0 same))
    | inr other ↦ rw other refl
  ]

  pub All_moved :
      (P : Plugin C → Type 0) (n : ℕ) (i : Plugin C) (o : ℕ → Plugin C) (ns : List ℕ)
      → All (λ k. k ≢ n) ns
      → All (λ k. P (o k)) ns
      → All (λ k. P (set_object n i o k)) ns
  All_moved P n i o [] a h = tt
  All_moved P n i o (k ∷ ns) a h =
      (subst P (sym (set_other n k i o a.0)) h.0, All_moved P n i o ns a.1 h.1)

  pub All_set :
      (P : Plugin C → Type 0) (n : ℕ) (i : Plugin C) (o : ℕ → Plugin C) (ns : List ℕ)
      → P i
      → All (λ k. P (o k)) ns
      → All (λ k. P (set_object n i o k)) ns
  unfolding set_object
  All_set P n i o [] p h = tt
  All_set P n i o (k ∷ ns) p h = (if_intro P (k == n) i (o k) p h.0, All_set P n i o ns p h.1)

  pub All_kept :
      (n : ℕ) (i : Plugin C) (o : ℕ → Plugin C) (ns : List ℕ)
      → All (λ k. k ≢ n) ns
      → All (λ k. set_object n i o k ≡ o k) ns
  All_kept n i o [] a = tt
  All_kept n i o (k ∷ ns) a = (set_other n k i o a.0, All_kept n i o ns a.1)
