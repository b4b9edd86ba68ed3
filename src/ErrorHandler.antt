-- ===== src/ErrorHandler.antt =====
-- flow_proxy_plugin/error_handler.py: error codes, the responses they give, and their log lines.
-- `json.dumps`, `str.lower`, the clock's text and `str` of a JSON value are parameters.
pub mod Tables
pub mod Response
pub mod Tests
use flow_proxy.Base.{
  ℕ, ◌==◌, nat_eq, Bool, true, false, ◌||◌, Option, none, some, List, [], ◌∷◌, ◌++◌, Text, Bytes,
  codes, text_eq, length, show, utf8, starts_with, has_text, lookup, insert, if◌then◌else◌, Exc,
  ExcClass, is_value_error, is_runtime_error,
}
use flow_proxy.Json.{Json, str, obj, Fields, end, field}

pub data ErrorCode : Type 0 where
  config_file_not_found : ErrorCode
  config_invalid_format : ErrorCode
  config_missing_fields : ErrorCode
  config_empty_array : ErrorCode
  config_validation_failed : ErrorCode
  auth_token_generation_failed : ErrorCode
  auth_invalid_credentials : ErrorCode
  auth_no_available_configs : ErrorCode
  auth_all_configs_failed : ErrorCode
  request_invalid_format : ErrorCode
  request_missing_method : ErrorCode
  request_missing_path : ErrorCode
  request_validation_failed : ErrorCode
  network_connection_failed : ErrorCode
  network_timeout : ErrorCode
  network_upstream_unavailable : ErrorCode
  network_dns_resolution_failed : ErrorCode
  internal_unexpected_error : ErrorCode
  internal_processing_failed : ErrorCode

-- The values of the enum.
unfoldable pub value : ErrorCode → Text
value config_file_not_found = codes "CONFIG_1001"
value config_invalid_format = codes "CONFIG_1002"
value config_missing_fields = codes "CONFIG_1003"
value config_empty_array = codes "CONFIG_1004"
value config_validation_failed = codes "CONFIG_1005"
value auth_token_generation_failed = codes "AUTH_2001"
value auth_invalid_credentials = codes "AUTH_2002"
value auth_no_available_configs = codes "AUTH_2003"
value auth_all_configs_failed = codes "AUTH_2004"
value request_invalid_format = codes "REQUEST_3001"
value request_missing_method = codes "REQUEST_3002"
value request_missing_path = codes "REQUEST_3003"
value request_validation_failed = codes "REQUEST_3004"
value network_connection_failed = codes "NETWORK_4001"
value network_timeout = codes "NETWORK_4002"
value network_upstream_unavailable = codes "NETWORK_4003"
value network_dns_resolution_failed = codes "NETWORK_4004"
value internal_unexpected_error = codes "INTERNAL_5001"
value internal_processing_failed = codes "INTERNAL_5002"

-- `ERROR_STATUS_MAP`, which has every code.
unfoldable pub error_status_map : ErrorCode → ℕ
error_status_map config_file_not_found = 500
error_status_map config_invalid_format = 500
error_status_map config_missing_fields = 500
error_status_map config_empty_array = 500
error_status_map config_validation_failed = 500
error_status_map auth_token_generation_failed = 500
error_status_map auth_invalid_credentials = 500
error_status_map auth_no_available_configs = 503
error_status_map auth_all_configs_failed = 503
error_status_map request_invalid_format = 400
error_status_map request_missing_method = 400
error_status_map request_missing_path = 400
error_status_map request_validation_failed = 400
error_status_map network_connection_failed = 502
error_status_map network_timeout = 504
error_status_map network_upstream_unavailable = 502
error_status_map network_dns_resolution_failed = 502
error_status_map internal_unexpected_error = 500
error_status_map internal_processing_failed = 500

-- `ERROR_MESSAGE_MAP`, which has every code.
unfoldable pub error_message_map : ErrorCode → Text
error_message_map config_file_not_found = codes "Configuration file not found"
error_message_map config_invalid_format = codes "Invalid configuration file format"
error_message_map config_missing_fields = codes "Configuration missing required fields"
error_message_map config_empty_array = codes "Configuration array is empty"
error_message_map config_validation_failed = codes "Configuration validation failed"
error_message_map auth_token_generation_failed = codes "Failed to generate authentication token"
error_message_map auth_invalid_credentials = codes "Invalid authentication credentials"
error_message_map auth_no_available_configs = codes "No authentication configurations available"
error_message_map auth_all_configs_failed = codes "All authentication configurations have failed"
error_message_map request_invalid_format = codes "Invalid request format"
error_message_map request_missing_method = codes "Request missing HTTP method"
error_message_map request_missing_path = codes "Request missing path"
error_message_map request_validation_failed = codes "Request validation failed"
error_message_map network_connection_failed = codes "Failed to connect to upstream server"
error_message_map network_timeout = codes "Request to upstream server timed out"
error_message_map network_upstream_unavailable = codes "Upstream server is unavailable"
error_message_map network_dns_resolution_failed = codes "Failed to resolve upstream server address"
error_message_map internal_unexpected_error = codes "An unexpected error occurred"
error_message_map internal_processing_failed = codes "Request processing failed"

unfoldable pub get_status_text : ℕ → Text
get_status_text status_code =
    if status_code == 400
    then codes "Bad Request"
    else if status_code == 500
    then codes "Internal Server Error"
    else if status_code == 502
    then codes "Bad Gateway"
    else if status_code == 503
    then codes "Service Unavailable"
    else if status_code == 504
    then codes "Gateway Timeout"
    else codes "Error"

abbrev pub Context : Type 0
Context = List (Text × Json)

fields_of : Context → Fields
fields_of [] = end
fields_of ((k, v) ∷ rest) = field k v (fields_of rest)

-- `if details:` and `if additional_context:` leave out what is empty.
with_details : Option Text → Context → Context
with_details none response = response
with_details (some []) response = response
with_details (some (c ∷ t)) response = insert (codes "details") (str (c ∷ t)) response

with_context : Option Context → Context → Context
unfolding fields_of
with_context none response = response
with_context (some []) response = response
with_context (some (e ∷ rest)) response =
    insert (codes "context") (obj (fields_of (e ∷ rest))) response

-- `timestamp` is the clock's text.
unfoldable pub create_error_response : Text → ErrorCode → Option Text → Option Context → Json
unfolding fields_of with_details with_context
create_error_response timestamp error_code details additional_context = obj (
    fields_of (
      with_context additional_context (
        with_details details (
          (codes "error", str (value error_code))
          ∷ (codes "message", str (error_message_map error_code))
          ∷ (codes "timestamp", str timestamp)
          ∷ []))))

-- The head of a response with a body of `size`.
pub response_head : ErrorCode → ℕ → Text
response_head error_code size =
    codes "HTTP/1.1 "
    ++ (show (error_status_map error_code)
        ++ (codes " "
            ++ (get_status_text (error_status_map error_code)
                ++ (codes "\r\nContent-Type: application/json\r\nContent-Length: "
                    ++ (show size ++ codes "\r\nConnection: close\r\n\r\n")))))

-- `dumps` is `json.dumps` with an indent of 2. The length is the one of the text.
unfoldable pub format_error_response_http :
    (Json → Text) → Text → ErrorCode → Option Text → Option Context → Bytes
format_error_response_http dumps timestamp error_code details additional_context =
    let body_json = dumps (create_error_response timestamp error_code details additional_context) in
    utf8 (response_head error_code (length body_json) ++ body_json)

pub data Level : Type 0 where
  error warning info : Level

-- Whether the exception goes into the log line with its traceback.
pub record LogLine : Type 0 where
  pub level : Level
  pub text : Text
  pub exc_info : Option Exc

-- `", ".join(f"{k}={v}" for k, v in items)`
context_str : (Json → Text) → Context → Text
context_str show_value [] = []
context_str show_value ((k, v) ∷ []) = k ++ (codes "=" ++ show_value v)
context_str show_value ((k, v) ∷ e ∷ rest) =
    k ++ (codes "=" ++ (show_value v ++ (codes ", " ++ context_str show_value (e ∷ rest))))

details_part : Option Text → Text
details_part none = []
details_part (some []) = []
details_part (some (c ∷ t)) = codes " - " ++ (c ∷ t)

context_part : (Json → Text) → Option Context → Text
unfolding context_str
context_part show_value none = []
context_part show_value (some []) = []
context_part show_value (some (e ∷ rest)) =
    codes " | Context: " ++ context_str show_value (e ∷ rest)

leveled : Text → Text → Option Exc → LogLine
leveled code text exc =
    if starts_with code (codes "CONFIG") || starts_with code (codes "INTERNAL")
    then record { level = error; text = text; exc_info = exc }
    else if starts_with code (codes "AUTH")
    then record { level = error; text = text; exc_info = exc }
    else if starts_with code (codes "NETWORK")
    then record { level = warning; text = text; exc_info = exc }
    else if starts_with code (codes "REQUEST")
    then record { level = info; text = text; exc_info = none }
    else record { level = error; text = text; exc_info = exc }

unfoldable pub log_error :
    (Json → Text) → ErrorCode → Option Text → Option Exc → Option Context → LogLine
unfolding leveled details_part context_part
log_error show_value error_code details exception additional_context =
    leveled (value error_code)
      (codes "["
        ++ (value error_code
            ++ (codes "] "
                ++ (error_message_map error_code
                    ++ (details_part details ++ context_part show_value additional_context)))))
      exception

-- The messages are compared in lower case.
map_value_error : Text → ErrorCode
map_value_error error_msg =
    if has_text error_msg (codes "config") || has_text error_msg (codes "secret")
    then config_validation_failed
    else if has_text error_msg (codes "token") || has_text error_msg (codes "auth")
    then auth_token_generation_failed
    else if has_text error_msg (codes "request")
    then request_validation_failed
    else internal_processing_failed

map_runtime_error : Text → ErrorCode
map_runtime_error error_msg =
    if has_text error_msg (codes "config") || has_text error_msg (codes "authentication")
    then auth_no_available_configs
    else internal_unexpected_error

-- `type_mappings`, in order.
type_mapping : ExcClass → Option ErrorCode
type_mapping ExcClass.file_not_found_error = some config_file_not_found
type_mapping ExcClass.json_decode_error = some config_invalid_format
type_mapping ExcClass.connection_error = some network_connection_failed
type_mapping ExcClass.timeout_error = some network_timeout
type_mapping cls = none

by_message : Exc → Text → Option ErrorCode → ErrorCode
unfolding map_value_error map_runtime_error
by_message e error_msg (some code) = code
by_message e error_msg none =
    if is_value_error e.cls
    then map_value_error error_msg
    else if is_runtime_error e.cls
    then map_runtime_error error_msg
    else internal_unexpected_error

unfoldable pub map_exception_to_error_code : (Text → Text) → Exc → ErrorCode
unfolding by_message type_mapping
map_exception_to_error_code lower e = by_message e (lower e.message) (type_mapping e.cls)

described : Option Text → Text → Text
described none details = details
described (some []) details = details
described (some (c ∷ t)) details = (c ∷ t) ++ (codes ": " ++ details)

-- The code, the details, and the line that was logged.
unfoldable pub handle_exception :
    (Text → Text) → (Json → Text) → Exc → Option Text → Option Context → ErrorCode × Text × LogLine
unfolding described
handle_exception lower show_value e context additional_context =
    let details = described context e.message in
    let error_code = map_exception_to_error_code lower e in
    (
      error_code,
      details,
      log_error show_value error_code (some details) (some e) additional_context,
    )
