-- ===== src/Retry.antt =====
-- flow_proxy_plugin/network_error_handler.py: `execute_with_retry`. The operation changes a state
-- and returns or raises; `time.sleep` is counted. The number of retries is not negative.
pub mod Attempts
pub mod Tests
use flow_proxy.Base.{ℕ, zero, suc, Option, none, some, Result, ok, err}

pub record Retried {ℓ κ} (A : Type ℓ) (S : Type κ) : Type (ℓ ⊔ κ) where
  pub result : Result A
  pub state : S
  pub calls : ℕ
  pub sleeps : ℕ

-- `max_retries`, or the handler's own where it is None.
pub retries : ℕ → Option ℕ → ℕ
retries default none = default
retries default (some n) = n

module _ {ℓ κ} {A : Type ℓ} {S : Type κ} (operation : S → Result A × S) where
  -- One attempt's outcome, with what the further attempts would give.
  or_again : Result A → S → Retried A S → Retried A S
  or_again (ok a) s rest = record { result = ok a; state = s; calls = 1; sleeps = 0 }
  or_again (err e) s rest = record rest { calls = suc rest.calls; sleeps = suc rest.sleeps }

  -- With so many retries left.
  attempts : ℕ → S → Retried A S
  unfolding or_again
  attempts zero s = record {
    result = (operation s).0;
    state = (operation s).1;
    calls = 1;
    sleeps = 0;
  }
  attempts (suc n) s =
      let rest = attempts n (operation s).1 in or_again (operation s).0 (operation s).1 rest

  unfoldable pub execute_with_retry : ℕ → Option ℕ → S → Retried A S
  unfolding attempts retries
  execute_with_retry default max_retries s = attempts (retries default max_retries) s
