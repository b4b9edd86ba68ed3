-- ===== src/Forwarder/Headers.antt =====
-- What the headers of an authenticated request are.
use flow_proxy.Base.{
  ◌==◌, ◌≡◌, refl, ap, sym, ◌∙◌, inl, inr, true, false, not, Option, none, some, List, [], ◌∷◌,
  ◌++◌, Text, Bytes, codes, text_eq, is_blank, utf8, lookup, insert, delete, lookup-insert,
  lookup-insert_self, ok_inj, keep_if, All, Bool-cases, ok, arith,
}
use flow_proxy.RequestFilter.Rules.{Request, HeaderValue, pair}
use flow_proxy.Forwarder.{
  HeaderDict, target_host, bytes_lower, is_authorization, headers_to_remove, delete_all, set_own,
  modified, modify_request_headers,
}

-- The client's headers but those that are Authorization in some spelling.
abbrev pub others : HeaderDict → HeaderDict
unfolding keep_if
others headers = keep_if (λ h. not (is_authorization h.0)) headers

abbrev pub own : Text → HeaderDict
own token = (codes "Authorization", pair (utf8 (codes "Bearer " ++ token)) []) ∷ []

beq_sym : (a b : Bytes) → (a == b) ≡ (b == a)
beq_sym a b = ground (arith, text_eq.test_iff a b, text_eq.test_iff b a)

other_name :
    (j k : Bytes) → is_authorization j ≡ true → is_authorization k ≡ false → (k == j) ≡ false
other_name j k h n = elim (Bool-cases (k == j)) [
  | inl e ↦ let same : k ≡ j = (text_eq.test_iff k j).0 e in cc (rw same at n)
  | inr e ↦ e
]

names_authorization :
    (hs : HeaderDict) → All (λ n. is_authorization n ≡ true) (headers_to_remove hs)
unfolding headers_to_remove
names_authorization [] = tt
names_authorization ((k, v) ∷ hs) = elim (Bool-cases (is_authorization k)) [
  | inl e ↦ rw e (e, names_authorization hs)
  | inr e ↦ rw e (names_authorization hs)
]

delete_all_behind :
    (ns : List Bytes) (k : Bytes) (v : HeaderValue) (hs : HeaderDict)
    → All (λ n. is_authorization n ≡ true) ns
    → is_authorization k ≡ false
    → delete_all ns ((k, v) ∷ hs) ≡ (k, v) ∷ delete_all ns hs
unfolding delete_all delete
delete_all_behind [] k v hs a h = refl
delete_all_behind (n ∷ ns) k v hs (first, a) h =
    rw (other_name n k first h) (delete_all_behind ns k v (delete n hs) a h)

delete_self : (k : Bytes) (v : HeaderValue) (hs : HeaderDict) → delete k ((k, v) ∷ hs) ≡ hs
unfolding delete
delete_self k v hs = rw ((text_eq.test_iff k k).1 refl) refl

own_name : is_authorization (codes "Authorization") ≡ true
unfolding is_authorization bytes_lower
own_name = refl

deleted_lem : (hs : HeaderDict) → delete_all (headers_to_remove hs) hs ≡ others hs
unfolding headers_to_remove delete_all delete keep_if others
deleted_lem [] = refl
deleted_lem ((k, v) ∷ hs) = elim (Bool-cases (is_authorization k)) [
  | inl e ↦ rw e (ap (delete_all (headers_to_remove hs)) (delete_self k v hs) ∙ deleted_lem hs)
  | inr e ↦ rw e (
      rw
        (delete_all_behind (headers_to_remove hs) k v hs (names_authorization hs) e, deleted_lem hs)
        refl)
]

insert-others :
    (name : Bytes) (v : HeaderValue) (hs : HeaderDict)
    → is_authorization name ≡ true
    → insert name v (others hs) ≡ others hs ++ (name, v) ∷ []
unfolding others keep_if insert
insert-others name v [] h = refl
insert-others name v ((k, w) ∷ hs) h = elim (Bool-cases (is_authorization k)) [
  | inl e ↦ rw e (insert-others name v hs h)
  | inr e ↦ rw e (rw (other_name name k h e, insert-others name v hs h) refl)
]

lookup-others :
    (token : Text) (name : Bytes) (hs : HeaderDict)
    → is_authorization name ≡ false
    → lookup name (others hs ++ own token) ≡ lookup name hs
unfolding others keep_if lookup
lookup-others token name [] a =
    rw (beq_sym (codes "Authorization") name)
      (rw (other_name (codes "Authorization") name own_name a) refl)
lookup-others token name ((k, w) ∷ hs) a = elim (Bool-cases (is_authorization k)) [
  | inl e ↦ rw e (rw (beq_sym k name) (rw (other_name k name e a) (lookup-others token name hs a)))
  | inr e ↦ rw e (rw (lookup-others token name hs a) refl)
]

-- With a token that is not blank and headers, the request goes on with its Authorization headers
-- of every spelling replaced by the one of the token, its header Host set, and the others as they
-- were and in order.
pub modify_request_headers_ok :
    (request : Request) (token : Text) (hs : HeaderDict)
    → is_blank token ≡ false
    → request.headers ≡ some hs
    → modify_request_headers (some request) token
      ≡ ok (record request {
        headers =
            some (insert (codes "Host") (pair (utf8 target_host) []) (others hs ++ own token));
      })
unfolding modify_request_headers modified set_own
modify_request_headers_ok request token hs b h =
    rw (b, h)
      (ap
        (λ (x : HeaderDict). ok (record request {
          headers = some (insert (codes "Host") (pair (utf8 target_host) []) x);
        }))
        (ap (insert (codes "Authorization") (pair (utf8 (codes "Bearer " ++ token)) []))
            (deleted_lem hs)
          ∙ insert-others (codes "Authorization") (pair (utf8 (codes "Bearer " ++ token)) []) hs
              own_name))

-- A client's Host header in another spelling than `Host` is still there afterwards, next to the
-- one of the target.
pub modify_request_headers-keeps_host :
    (request result : Request) (token : Text) (hs : HeaderDict) (name : Bytes)
    → is_blank token ≡ false
    → request.headers ≡ some hs
    → is_authorization name ≡ false
    → (codes "Host" == name) ≡ false
    → modify_request_headers (some request) token ≡ ok result
    → (out : HeaderDict) × (result.headers ≡ some out)
      × (lookup name out ≡ lookup name hs)
      × (lookup (codes "Host") out ≡ some (pair (utf8 target_host) []))
modify_request_headers-keeps_host request result token hs name b h a n q =
    let final : result ≡ record request {
      headers = some (insert (codes "Host") (pair (utf8 target_host) []) (others hs ++ own token));
    } =
      ok_inj (sym q ∙ modify_request_headers_ok request token hs b h) in
    (
      insert (codes "Host") (pair (utf8 target_host) []) (others hs ++ own token),
      ap (λ (r : Request). r.headers) final,
      rw (lookup-insert (codes "Host") name (pair (utf8 target_host) []) (others hs ++ own token))
          (rw n (lookup-others token name hs a)),
      lookup-insert_self (codes "Host") (pair (utf8 target_host) []) (others hs ++ own token),
    )

modified_inv :
    (request result : Request) (token : Text) (given : Option HeaderDict)
    → modified request token given ≡ ok result
    → (hs : HeaderDict) × (given ≡ some hs)
unfolding modified
modified_inv request result token none h = cc
modified_inv request result token (some hs) h = (hs, refl)

pub modify_request_headers_inv :
    (request result : Request) (token : Text)
    → modify_request_headers (some request) token ≡ ok result
    → (hs : HeaderDict) × (request.headers ≡ some hs)
      × (result ≡ record request {
        headers =
            some (insert (codes "Host") (pair (utf8 target_host) []) (others hs ++ own token));
      })
unfolding modify_request_headers
modify_request_headers_inv request result token q = elim (Bool-cases (is_blank token)) [
  | inl b ↦ cc (rw b at q)
  | inr b ↦
      let (hs, h) = modified_inv request result token request.headers (rw b at q) in
      (hs, h, ok_inj (sym q ∙ modify_request_headers_ok request token hs b h))
]
