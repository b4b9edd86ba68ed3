-- ===== src/ErrorHandler/Tests.antt =====
-- Errors at concrete inputs, with a printer of one text.
use flow_proxy.Base.{
  ◌≡◌, refl, none, ◌++◌, Text, Bytes, codes, length, utf8, has_text, ExcClass, arith,
}
use flow_proxy.Json.{Json}
use flow_proxy.ErrorHandler.{
  network_timeout, auth_no_available_configs, response_head, format_error_response_http,
  map_exception_to_error_code,
}
use flow_proxy.ErrorHandler.Response.{format_error_response_http-length}

abbrev pub dumps : Json → Text
dumps v = codes "{}"

maps :
    map_exception_to_error_code
      (λ t. t)
      (record { cls = ExcClass.runtime_error; message = codes "no config" })
    ≡ auth_no_available_configs
unfolding map_exception_to_error_code has_text
maps = refl

format_error_response_http-length_example :
    (body : Bytes) × (format_error_response_http dumps (codes "now") network_timeout none none
      ≡ utf8 (response_head network_timeout (length body)) ++ body)
    × (body ≡ utf8 (codes "{}"))
format_error_response_http-length_example =
    format_error_response_http-length dumps (codes "now") network_timeout none none (omega arith)
