-- ===== src/NetworkErrors.antt =====
-- flow_proxy_plugin/network_error_handler.py: the responses to network errors, the attempts with
-- a time limit, and the retry settings; `execute_with_retry` is in Retry. Times are whole
-- microseconds, whose text as seconds is a parameter, and so is what ErrorHandler takes.
use flow_proxy.Base.{
  ℕ, zero, suc, Option, none, some, [], ◌∷◌, ◌++◌, Text, Bytes, codes, text_eq, insert, Bool, true,
  Exc, ExcClass, Result, ok, err,
}
use flow_proxy.Json.{Json, num, str}
use flow_proxy.ErrorHandler.{
  ErrorCode, network_connection_failed, network_timeout, network_upstream_unavailable, Context,
  LogLine, log_error, format_error_response_http,
}

pub record Env : Type 0 where
  pub dumps : Json → Text
  pub show_value : Json → Text
  pub timestamp : Text
  pub seconds : ℕ → Text

-- The line that is logged and the response.
pub record Handled : Type 0 where
  pub line : LogLine
  pub response : Bytes

pub record RetryConfig : Type 0 where
  pub max_retries : ℕ
  pub retry_delay : ℕ
  pub default_timeout : ℕ

-- `additional_context.update(context)`
update_all : Context → Context → Context
update_all own [] = own
update_all own ((k, v) ∷ rest) = update_all (insert k v own) rest

merged : Context → Option Context → Context
unfolding update_all
merged own none = own
merged own (some context) = update_all own context

-- `timeout or self.default_timeout`, where 0 counts as none.
timeout_or : ℕ → Option ℕ → ℕ
timeout_or default none = default
timeout_or default (some zero) = default
timeout_or default (some (suc n)) = suc n

-- `if reason:`
with_reason : Option Text → Text → Text
with_reason none details = details
with_reason (some []) details = details
with_reason (some (c ∷ t)) details = details ++ (codes ": " ++ (c ∷ t))

module _ (env : Env) where
  handled : ErrorCode → Text → Option Exc → Context → Handled
  handled error_code details exception context = record {
    line = log_error env.show_value error_code (some details) exception (some context);
    response =
        format_error_response_http env.dumps env.timestamp error_code (some details) (some context);
  }

  unfoldable pub handle_connection_error : Exc → Text → Option Context → Handled
  unfolding handled merged
  handle_connection_error error target_url context =
      handled network_connection_failed
        (codes "Failed to connect to " ++ (target_url ++ (codes ": " ++ error.message)))
        (some error) (merged ((codes "target_url", str target_url) ∷ []) context)

  unfoldable pub handle_timeout_error : ℕ → Exc → Text → Option ℕ → Option Context → Handled
  unfolding handled merged timeout_or
  handle_timeout_error default_timeout error target_url timeout context =
      let shown = env.seconds (timeout_or default_timeout timeout) in
      handled network_timeout
        (codes "Request to "
          ++ (target_url
              ++ (codes " timed out after " ++ (shown ++ (codes " seconds: " ++ error.message)))))
        (some error)
        (merged ((codes "target_url", str target_url) ∷ (codes "timeout", num shown) ∷ []) context)

  unfoldable pub handle_upstream_unavailable : Text → Option Text → Option Context → Handled
  unfolding handled merged with_reason
  handle_upstream_unavailable target_url reason context =
      handled network_upstream_unavailable
        (with_reason reason (codes "Upstream server " ++ (target_url ++ codes " is unavailable")))
        none (merged ((codes "target_url", str target_url) ∷ []) context)

-- Which error was logged when the operation raised.
pub data Reported : Type 0 where
  returned : Reported
  timed_out : ℕ → Reported
  failed : Text → Reported

reported : ℕ → Text → ExcClass → Reported
reported timeout message ExcClass.timeout_error = timed_out timeout
reported timeout message cls = failed message

or_default : ℕ → Option ℕ → ℕ
or_default default none = default
or_default default (some n) = n

module _ {ℓ κ} {A : Type ℓ} {S : Type κ} where
  report : ℕ → Result A × S → (Result A × S) × Reported
  unfolding reported
  report timeout (ok a, s) = ((ok a, s), returned)
  report timeout (err e, s) = ((err e, s), reported timeout e.message e.cls)

  -- The operation runs to its end, whatever the time limit.
  unfoldable pub execute_with_timeout :
      (S → Result A × S) → ℕ → Option ℕ → S → (Result A × S) × Reported
  unfolding report or_default
  execute_with_timeout operation default timeout s =
      report (or_default default timeout) (operation s)

unfoldable pub check_upstream_availability : Text → Option ℕ → Bool
check_upstream_availability target_url timeout = true

unfoldable pub get_retry_config : RetryConfig → RetryConfig
get_retry_config c = c

unfoldable pub update_retry_config : RetryConfig → Option ℕ → Option ℕ → Option ℕ → RetryConfig
unfolding or_default
update_retry_config c max_retries retry_delay default_timeout = record {
  max_retries = or_default c.max_retries max_retries;
  retry_delay = or_default c.retry_delay retry_delay;
  default_timeout = or_default c.default_timeout default_timeout;
}
