-- ===== src/ErrorHandler/Tables.antt =====
-- The tables of the error codes against one another.
use flow_proxy.Base.{
  ℕ, ◌==◌, nat_eq, ◌≡◌, ◌≢◌, refl, ap, sym, ◌∙◌, ◌||◌, Option, some, some_inj, Text, codes, text_eq,
  lookup, starts_with, List, [], ◌∷◌, if◌then◌else◌, Exc,
}
use flow_proxy.Json.{Json}
use flow_proxy.ErrorHandler.{
  ErrorCode, config_file_not_found, config_invalid_format, config_missing_fields,
  config_empty_array, config_validation_failed, auth_token_generation_failed,
  auth_invalid_credentials, auth_no_available_configs, auth_all_configs_failed,
  request_invalid_format, request_missing_method, request_missing_path, request_validation_failed,
  network_connection_failed, network_timeout, network_upstream_unavailable,
  network_dns_resolution_failed, internal_unexpected_error, internal_processing_failed, value,
  error_status_map, get_status_text, Level, error, warning, info, Context, leveled, log_error,
}

-- The enum by value, as `ErrorCode(value)` looks a member up.
abbrev pub members : List (Text × ErrorCode)
members =
    (codes "CONFIG_1001", config_file_not_found)
    ∷ (codes "CONFIG_1002", config_invalid_format)
    ∷ (codes "CONFIG_1003", config_missing_fields)
    ∷ (codes "CONFIG_1004", config_empty_array)
    ∷ (codes "CONFIG_1005", config_validation_failed)
    ∷ (codes "AUTH_2001", auth_token_generation_failed)
    ∷ (codes "AUTH_2002", auth_invalid_credentials)
    ∷ (codes "AUTH_2003", auth_no_available_configs)
    ∷ (codes "AUTH_2004", auth_all_configs_failed)
    ∷ (codes "REQUEST_3001", request_invalid_format)
    ∷ (codes "REQUEST_3002", request_missing_method)
    ∷ (codes "REQUEST_3003", request_missing_path)
    ∷ (codes "REQUEST_3004", request_validation_failed)
    ∷ (codes "NETWORK_4001", network_connection_failed)
    ∷ (codes "NETWORK_4002", network_timeout)
    ∷ (codes "NETWORK_4003", network_upstream_unavailable)
    ∷ (codes "NETWORK_4004", network_dns_resolution_failed)
    ∷ (codes "INTERNAL_5001", internal_unexpected_error)
    ∷ (codes "INTERNAL_5002", internal_processing_failed)
    ∷ []

lookup-value : (c : ErrorCode) → lookup (value c) members ≡ some c
unfolding value lookup
lookup-value config_file_not_found = refl
lookup-value config_invalid_format = refl
lookup-value config_missing_fields = refl
lookup-value config_empty_array = refl
lookup-value config_validation_failed = refl
lookup-value auth_token_generation_failed = refl
lookup-value auth_invalid_credentials = refl
lookup-value auth_no_available_configs = refl
lookup-value auth_all_configs_failed = refl
lookup-value request_invalid_format = refl
lookup-value request_missing_method = refl
lookup-value request_missing_path = refl
lookup-value request_validation_failed = refl
lookup-value network_connection_failed = refl
lookup-value network_timeout = refl
lookup-value network_upstream_unavailable = refl
lookup-value network_dns_resolution_failed = refl
lookup-value internal_unexpected_error = refl
lookup-value internal_processing_failed = refl

-- Two error codes with one value are one code: a response or log line names its error uniquely.
pub value_inj : (a b : ErrorCode) → value a ≡ value b → a ≡ b
value_inj a b h = some_inj (sym (lookup-value a) ∙ ap (λ v. lookup v members) h ∙ lookup-value b)

-- What a status says about whose fault the error is: the client's, the upstream's, or the proxy's.
abbrev pub level_of_status : ℕ → Level
level_of_status status =
    if status == 400 then info else if status == 502 || status == 504 then warning else error

-- Every error has a status with a text of its own, and the status settles the level of its log
-- line: information for the client's errors, a warning for the upstream's, else an error.
pub log_error-level :
    (show_value : Json → Text) (c : ErrorCode) (details : Option Text) (e : Option Exc)
    (context : Option Context)
    → ((log_error show_value c details e context).level ≡ level_of_status (error_status_map c))
      × (get_status_text (error_status_map c) ≢ get_status_text 0)
unfolding log_error leveled value error_status_map get_status_text starts_with
log_error-level s config_file_not_found d e x = (refl, λ q. cc)
log_error-level s config_invalid_format d e x = (refl, λ q. cc)
log_error-level s config_missing_fields d e x = (refl, λ q. cc)
log_error-level s config_empty_array d e x = (refl, λ q. cc)
log_error-level s config_validation_failed d e x = (refl, λ q. cc)
log_error-level s auth_token_generation_failed d e x = (refl, λ q. cc)
log_error-level s auth_invalid_credentials d e x = (refl, λ q. cc)
log_error-level s auth_no_available_configs d e x = (refl, λ q. cc)
log_error-level s auth_all_configs_failed d e x = (refl, λ q. cc)
log_error-level s request_invalid_format d e x = (refl, λ q. cc)
log_error-level s request_missing_method d e x = (refl, λ q. cc)
log_error-level s request_missing_path d e x = (refl, λ q. cc)
log_error-level s request_validation_failed d e x = (refl, λ q. cc)
log_error-level s network_connection_failed d e x = (refl, λ q. cc)
log_error-level s network_timeout d e x = (refl, λ q. cc)
log_error-level s network_upstream_unavailable d e x = (refl, λ q. cc)
log_error-level s network_dns_resolution_failed d e x = (refl, λ q. cc)
log_error-level s internal_unexpected_error d e x = (refl, λ q. cc)
log_error-level s internal_processing_failed d e x = (refl, λ q. cc)
