-- ===== src/Retry/Attempts.antt =====
-- Which attempts are made, and what comes of them.
use flow_proxy.Base.{
  ℕ, zero, suc, ◌+◌, ◌≤◌, ◌≡◌, refl, ap, ◌⊎◌, inl, inr, Option, Result-cases, Exc, Result, ok, err,
  arith,
}
use flow_proxy.Retry.{Retried, retries, or_again, attempts, execute_with_retry}

module _ {ℓ κ} {A : Type ℓ} {S : Type κ} (operation : S → Result A × S) where
  -- The state after so many attempts.
  pub state_at : ℕ → S → S
  state_at zero s = s
  state_at (suc k) s = state_at k (operation s).1

  -- Every one of the first attempts raises.
  pub Raise : ℕ → S → Type ℓ
  Raise zero s = Unit
  Raise (suc k) s = ((e : Exc) × ((operation s).0 ≡ err e)) × Raise k (operation s).1

  -- Attempt `k` ends the loop: the ones before it raise, and it returns or is the last.
  pub record EndsAt (n k : ℕ) (s : S) (r : Retried A S) : Type (ℓ ⊔ κ) where
    pub within : k ≤ n
    pub before : Raise k s
    pub ends : ((a : A) × ((operation (state_at k s)).0 ≡ ok a)) ⊎ (k ≡ n)
    pub result : r.result ≡ (operation (state_at k s)).0
    pub state : r.state ≡ (operation (state_at k s)).1
    pub calls : r.calls ≡ k + 1
    pub sleeps : r.sleeps ≡ k

  attempts_lem : (n : ℕ) (s : S) → (k : ℕ) × EndsAt n k s (attempts operation n s)
  unfolding attempts state_at Raise
  attempts_lem zero s = (
    0,
    record {
      within = omega arith;
      before = tt;
      ends = inr refl;
      result = refl;
      state = refl;
      calls = refl;
      sleeps = refl;
    },
  )
  attempts_lem (suc n) s = elim (Result-cases (operation s).0) [
    | inl (a, q) ↦ (
      0,
      record {
        within = omega arith;
        before = tt;
        ends = inl (a, q);
        result = unfold or_again in rw q refl;
        state = unfold or_again in rw q refl;
        calls = unfold or_again in rw q refl;
        sleeps = unfold or_again in rw q refl;
      },
    )
    | inr (e, q) ↦
        let (k, h) = attempts_lem n (operation s).1 in
        (
          suc k,
          record {
            within = omega (arith, h.within);
            before = ((e, q), h.before);
            ends = elim h.ends [ inl r ↦ inl r | inr z ↦ inr (ap suc z) ];
            result = unfold or_again in rw q h.result;
            state = unfold or_again in rw q h.state;
            calls = unfold or_again in rw q (omega (arith, h.calls));
            sleeps = unfold or_again in rw q (omega (arith, h.sleeps));
          },
        )
  ]

  -- The loop makes attempts up to the first that returns, at most one more than there are retries,
  -- with a sleep between each two; it gives what the last of them gave, its exception included.
  pub execute_with_retry-EndsAt :
      (default : ℕ) (max_retries : Option ℕ) (s : S)
      → (k : ℕ) × EndsAt
          (retries default max_retries)
          k
          s
          (execute_with_retry operation default max_retries s)
  unfolding execute_with_retry
  execute_with_retry-EndsAt default max_retries s = attempts_lem (retries default max_retries) s
