-- ===== src/Forwarding/Details.antt =====
-- flow_proxy_plugin/plugins/web_server_plugin.py, `_log_request_details`: the debug lines of a
-- request. Decoding a body with errors="replace" raises nothing, so the last branch is not taken.
use flow_proxy.Base.{
  ℕ, zero, suc, ◌≤◌, inl, inr, Bool-cases, Option, none, some, List, [], ◌∷◌, Text, Bytes, length,
  take, ltb, if_true, if_false, subst, sym, if◌then◌else◌, arith,
}

pub data Detail : Type 0 where
  method_line path_line target_line : Text → Detail
  headers_line : List (Text × Text) → Detail
  -- The number of bytes, and the text that is shown.
  truncated_body body_line : ℕ → Text → Detail
  no_body : Detail

decoded_body : ℕ → Text → Detail
decoded_body size body_str =
    if ltb 2000 (length body_str)
    then truncated_body size (take 2000 body_str)
    else body_line size body_str

pub body_detail : (Bytes → Text) → Option Bytes → Detail
unfolding decoded_body
body_detail decode none = no_body
body_detail decode (some []) = no_body
body_detail decode (some (b ∷ body)) = decoded_body (length (b ∷ body)) (decode (b ∷ body))

unfoldable pub log_request_details :
    (Bytes → Text) → Text → Text → Text → List (Text × Text) → Option Bytes → List Detail
unfolding body_detail
log_request_details decode method path target_url headers body =
    method_line method
    ∷ path_line path
    ∷ target_line target_url
    ∷ headers_line headers
    ∷ body_detail decode body
    ∷ []

-- What of the body a line shows.
abbrev shown : Detail → Text
shown (truncated_body size t) = t
shown (body_line size t) = t
shown line = []

take_short : (n : ℕ) (t : Text) → length (take n t) ≤ n
take_short zero t = omega arith
take_short (suc n) [] = omega arith
take_short (suc n) (c ∷ t) = omega (arith, take_short n t)

-- No line shows more than 2000 code points of the body.
pub body_detail_short :
    (decode : Bytes → Text) (body : Option Bytes) → length (shown (body_detail decode body)) ≤ 2000
unfolding body_detail decoded_body
body_detail_short decode none = omega arith
body_detail_short decode (some []) = omega arith
body_detail_short decode (some (b ∷ body)) =
    elim (Bool-cases (ltb 2000 (length (decode (b ∷ body))))) [
      | inl long ↦
          if_true (λ d. length (shown d) ≤ 2000) (ltb 2000 (length (decode (b ∷ body)))) _ _ long
            (take_short 2000 (decode (b ∷ body)))
      | inr fits ↦
          subst (λ d. length (shown d) ≤ 2000)
            (sym (if_false (ltb 2000 (length (decode (b ∷ body)))) _ _ fits)) (ground (arith, fits))
    ]
