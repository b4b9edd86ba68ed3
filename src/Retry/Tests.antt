-- ===== src/Retry/Tests.antt =====
-- An operation that raises until its third attempt.
use flow_proxy.Base.{ℕ, [], ◌+◌, ◌≡◌, refl, some, Result, ok, err, ltb, if◌then◌else◌, ExcClass}
use flow_proxy.Retry.{retries, execute_with_retry}
use flow_proxy.Retry.Attempts.{EndsAt, execute_with_retry-EndsAt}

abbrev third : ℕ → Result ℕ × ℕ
third n = (
  if ltb n 2 then err (record { cls = ExcClass.connection_error; message = [] }) else ok n,
  n + 1,
)

execute_with_retry-EndsAt_example :
    (k : ℕ) × EndsAt third (retries 0 (some 5)) k 0 (execute_with_retry third 0 (some 5) 0)
execute_with_retry-EndsAt_example = execute_with_retry-EndsAt third 0 (some 5) 0

third_returns : (execute_with_retry third 0 (some 5) 0).calls ≡ 3
unfolding execute_with_retry
third_returns = refl
