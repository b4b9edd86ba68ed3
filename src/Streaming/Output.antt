-- ===== src/Streaming/Output.antt =====
-- flow_proxy_plugin/plugins/web_server_plugin.py: what is queued to the client.
use flow_proxy.Base.{
  ℕ, Bool, true, false, List, [], ◌∷◌, ◌++◌, Text, Bytes, codes, text_eq, nat_eq, ◌==◌, contains,
  utf8, show, if◌then◌else◌,
}

-- `_ResponseHeaders`; the header names are those of httpx, in lower case.
pub record ResponseHeaders : Type 0 where
  pub status_code : ℕ
  pub reason_phrase : Text
  pub headers : List (Text × Text)
  pub is_sse : Bool

abbrev pub crlf : Text
crlf = 13 ∷ 10 ∷ []

abbrev skip_headers : List Text
skip_headers = codes "connection" ∷ codes "transfer-encoding" ∷ []

module _ (lower : Text → Text) where
  header_lines : List (Text × Text) → List Bytes
  header_lines [] = []
  header_lines ((name, value) ∷ rest) =
      let more = header_lines rest in
      if contains (lower name) skip_headers
      then more
      else utf8 (name ++ codes ": " ++ value ++ crlf) ∷ more

  sse_lines : Bool → List Bytes
  sse_lines true =
      utf8 (codes "Cache-Control: no-cache" ++ crlf)
      ∷ utf8 (codes "X-Accel-Buffering: no" ++ crlf)
      ∷ []
  sse_lines false = []

  -- `_send_response_headers_from`
  unfoldable pub response_head : ResponseHeaders → List Bytes
  unfolding header_lines sse_lines
  response_head item =
      utf8 (codes "HTTP/1.1 " ++ show item.status_code ++ codes " " ++ item.reason_phrase ++ crlf)
      ∷ (header_lines item.headers ++ (sse_lines item.is_sse ++ utf8 crlf ∷ []))

-- `_encode_sse_line`
unfoldable pub encode_sse_line : Text → Bytes
encode_sse_line [] = 10 ∷ []
encode_sse_line (c ∷ raw) = utf8 ((c ∷ raw) ++ 10 ∷ [])

-- `_send_sse_error_event`
unfoldable pub sse_error_event : Bytes
sse_error_event = utf8 (
    codes
      "event: error\ndata: {\"type\": \"error\", \"error\": {\"type\": \"api_error\", \"message\": \"Upstream connection lost\"}}\n\n")

-- `_REASON_PHRASES.get(status_code, "Error")`
reason_of : ℕ → Text
reason_of status_code =
    if status_code == 500
    then codes "Internal Server Error"
    else if status_code == 503
    then codes "Service Unavailable"
    else codes "Error"

-- `_send_error`
unfoldable pub error_response : ℕ → Text → Bytes
unfolding reason_of
error_response status_code message = utf8 (
    codes "HTTP/1.1 "
    ++ show status_code
    ++ codes " "
    ++ reason_of status_code
    ++ crlf
    ++ codes "Content-Type: application/json"
    ++ crlf
    ++ codes "Connection: close"
    ++ crlf
    ++ crlf
    ++ codes "{\"error\": \""
    ++ message
    ++ codes "\"}")
