-- ===== src/ErrorHandler/Response.antt =====
-- The bytes of an error response.
use flow_proxy.Base.{
  ◌≡◌, ap, sym, ◌∙◌, Option, ◌++◌, Text, Bytes, length, utf8, IsAscii, utf8-append, utf8_of_ascii,
}
use flow_proxy.Json.{Json}
use flow_proxy.ErrorHandler.{
  ErrorCode, Context, create_error_response, response_head, format_error_response_http,
}

-- With a printer that escapes what is not ASCII, as `json.dumps` does, the length in the head of a
-- response is the number of the bytes that follow the head.
pub format_error_response_http-length :
    (dumps : Json → Text) (timestamp : Text) (c : ErrorCode) (details : Option Text)
    (context : Option Context)
    → IsAscii (dumps (create_error_response timestamp c details context))
    → (body : Bytes) × (format_error_response_http dumps timestamp c details context
        ≡ utf8 (response_head c (length body)) ++ body)
      × (body ≡ utf8 (dumps (create_error_response timestamp c details context)))
unfolding format_error_response_http
format_error_response_http-length dumps timestamp c details context a =
    let body_json = dumps (create_error_response timestamp c details context) in
    (
      body_json,
      utf8-append (response_head c (length body_json)) body_json
          ∙ ap (λ b. utf8 (response_head c (length body_json)) ++ b) (utf8_of_ascii body_json a),
      sym (utf8_of_ascii body_json a),
    )
