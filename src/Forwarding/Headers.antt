-- ===== src/Forwarding/Headers.antt =====
-- The headers that are sent upstream.
use flow_proxy.Base.{
  ◌==◌, ◌≡◌, refl, sym, ap, subst, ◌∙◌, ◌⊎◌, inl, inr, true, false, Option, none, some, List, [],
  ◌∷◌, Text, Bytes, codes, text_eq, contains, lookup, insert, lookup-insert, All, Bool-cases,
  Option-cases, Result-cases, if◌then◌else◌, if_intro, Result, ok, err, ok_inj,
}
use flow_proxy.RequestFilter.Rules.{Request, HeaderValue, FilterRule, get_headers_to_skip}
use flow_proxy.Forwarder.{target_host}
use flow_proxy.Forwarding.{
  Platform, bearer, own_headers, put_header, add_headers, headers_from, header_bytes, build_headers,
}

-- A header of a skipped name is one that the proxy set.
abbrev pub IsOwn : (Text → Text) → List Text → Text → Text × Text → Type 0
IsOwn lower skip token (name, value) =
    contains (lower name) skip ≡ true
    → (name ≡ codes "Authorization") × (value ≡ bearer token)
      ⊎ (name ≡ codes "Host") × (value ≡ target_host)

module _ (env : Platform) (token : Text) (skip : List Text) where
  insert-IsOwn :
      (name v : Text) (hs : List (Text × Text))
      → contains (env.lower name) skip ≡ false
      → All (IsOwn env.lower skip token) hs
      → All (IsOwn env.lower skip token) (insert name v hs)
  unfolding insert
  insert-IsOwn name v [] h a = (λ q. cc, tt)
  insert-IsOwn name v ((j, w) ∷ hs) h (a, more) = elim (Bool-cases (j == name)) [
    | inl e ↦
        let same : j ≡ name = (text_eq.test_iff j name).0 e in rw e (λ q. cc (rw same at q), more)
    | inr e ↦ rw e (a, insert-IsOwn name v hs h more)
  ]

  put_header-IsOwn :
      (name : Text) (value : HeaderValue) (hs out : List (Text × Text))
      → All (IsOwn env.lower skip token) hs
      → put_header env skip name value hs ≡ ok out
      → All (IsOwn env.lower skip token) out
  unfolding put_header
  put_header-IsOwn name value hs out a h = elim (Bool-cases (contains (env.lower name) skip)) [
    | inl e ↦ subst (All (IsOwn env.lower skip token)) (ok_inj (rw e at h)) a
    | inr e ↦ elim (Result-cases (env.decode (header_bytes value))) [
      | inl (v, d) ↦
          subst (All (IsOwn env.lower skip token)) (ok_inj (rw (e, d) at h))
            (insert-IsOwn name v hs e a)
      | inr (x, d) ↦ cc (rw (e, d) at h)
    ]
  ]

  add_headers-IsOwn :
      (given : List (Bytes × HeaderValue)) (hs out : List (Text × Text))
      → All (IsOwn env.lower skip token) hs
      → add_headers env skip given hs ≡ ok out
      → All (IsOwn env.lower skip token) out
  unfolding add_headers
  add_headers-IsOwn [] hs out a h = subst (All (IsOwn env.lower skip token)) (ok_inj h) a
  add_headers-IsOwn ((name, value) ∷ rest) hs out a h = elim (Result-cases (env.decode name)) [
    | inr (x, d) ↦ cc (rw d at h)
    | inl (text, d) ↦ elim (Result-cases (put_header env skip text value hs)) [
      | inr (x, p) ↦ cc (rw (d, p) at h)
      | inl (more, p) ↦
          add_headers-IsOwn rest more out (put_header-IsOwn text value hs more a p) (rw (d, p) at h)
    ]
  ]

module _ (env : Platform) (request : Request) (token : Text) (rule : Option FilterRule) where
  own_headers-IsOwn :
      All (IsOwn env.lower (get_headers_to_skip env.lower rule) token) (own_headers token)
  own_headers-IsOwn = (λ q. inl (refl, refl), (λ q. inr (refl, refl), tt))

  -- Whatever the client sends, a header that goes upstream under a skipped name in any spelling,
  -- such as Authorization, Host or the ones of the rule, is the proxy's own: the token that was
  -- given, or the target host.
  pub build_headers-IsOwn :
      (out : List (Text × Text))
      → build_headers env request token rule ≡ ok out
      → All (IsOwn env.lower (get_headers_to_skip env.lower rule) token) out
  unfolding build_headers headers_from
  build_headers-IsOwn out h = headers_lem request.headers h
    where
      headers_lem :
          (given : Option (List (Bytes × HeaderValue)))
          → headers_from env token rule given ≡ ok out
          → All (IsOwn env.lower (get_headers_to_skip env.lower rule) token) out
      headers_lem none q =
          subst (All (IsOwn env.lower (get_headers_to_skip env.lower rule) token)) (ok_inj q)
            own_headers-IsOwn
      headers_lem (some given) q =
          add_headers-IsOwn env token (get_headers_to_skip env.lower rule) given (own_headers token)
            out own_headers-IsOwn q

pub prefer : Option Text → Option Text → Option Text
prefer none o = o
prefer (some v) o = some v

unfoldable pub found : Text → Result Text → Result Text → Option Text
found k (ok name) (ok v) = if name == k then some v else none
found k name v = none

-- What `_extract_header_value` reads of the last header of this name, where it decodes.
unfoldable pub sent : Platform → Text → List (Bytes × HeaderValue) → Option Text
unfolding found
sent env k [] = none
sent env k ((name, value) ∷ rest) =
    prefer (sent env k rest) (found k (env.decode name) (env.decode (header_bytes value)))

prefer_assoc : (a b c : Option Text) → prefer (prefer a b) c ≡ prefer a (prefer b c)
unfolding prefer
prefer_assoc none b c = refl
prefer_assoc (some v) b c = refl

found_other : (k name : Text) (v : Result Text) → (name == k) ≡ false → found k (ok name) v ≡ none
unfolding found
found_other k name (ok v) h = rw h refl
found_other k name (err e) h = refl

module _ (env : Platform) (skip : List Text) (k : Text) where
  -- What `k` has after the loop.
  after : Option Text → Option Text → Option Text
  after given before = if contains (env.lower k) skip then before else prefer given before

  after-none : (o : Option Text) → o ≡ after none o
  unfolding after prefer
  after-none o = if_intro (λ r. o ≡ r) (contains (env.lower k) skip) o o refl refl

  skipped_lem :
      (name : Text) (v : Result Text) (given before : Option Text)
      → contains (env.lower name) skip ≡ true
      → after (prefer given (found k (ok name) v)) before ≡ after given before
  unfolding after prefer
  skipped_lem name v given before h = elim (Bool-cases (name == k)) [
    | inl e ↦
        let same : name ≡ k = (text_eq.test_iff name k).0 e in
        let there : contains (env.lower k) skip ≡ true = rw (← same) h in rw there refl
    | inr e ↦ rw (found_other k name v e, prefer_assoc given none before) refl
  ]

  stored_lem :
      (name v : Text) (given : Option Text) (hs : List (Text × Text))
      → contains (env.lower name) skip ≡ false
      → after given (lookup k (insert name v hs))
        ≡ after (prefer given (found k (ok name) (ok v))) (lookup k hs)
  unfolding after prefer found
  stored_lem name v given hs h = elim (Bool-cases (name == k)) [
    | inl e ↦
        let same : name ≡ k = (text_eq.test_iff name k).0 e in
        let gone : contains (env.lower k) skip ≡ false = rw (← same) h in
        rw (lookup-insert name k v hs)
          (rw (gone, e) (rw (prefer_assoc given (some v) (lookup k hs)) refl))
    | inr e ↦
        rw (lookup-insert name k v hs) (rw e (rw (prefer_assoc given none (lookup k hs)) refl))
  ]

  put_lem :
      (name : Text) (value : HeaderValue) (given : Option Text) (hs more : List (Text × Text))
      → put_header env skip name value hs ≡ ok more
      → after given (lookup k more)
        ≡ after (prefer given (found k (ok name) (env.decode (header_bytes value)))) (lookup k hs)
  unfolding put_header
  put_lem name value given hs more h = elim (Bool-cases (contains (env.lower name) skip)) [
    | inl e ↦
        rw
          (
            skipped_lem name (env.decode (header_bytes value)) given (lookup k hs) e,
            ← ok_inj (rw e at h),
          )
          refl
    | inr e ↦ elim (Result-cases (env.decode (header_bytes value))) [
      | inl (v, d) ↦ rw (d, ← ok_inj (rw (e, d) at h)) (stored_lem name v given hs e)
      | inr (x, d) ↦ cc (rw (e, d) at h)
    ]
  ]

  add_headers-lookup :
      (given : List (Bytes × HeaderValue)) (hs out : List (Text × Text))
      → add_headers env skip given hs ≡ ok out
      → lookup k out ≡ after (sent env k given) (lookup k hs)
  unfolding add_headers sent
  add_headers-lookup [] hs out h = rw (← ok_inj h) (after-none (lookup k hs))
  add_headers-lookup ((name, value) ∷ rest) hs out h = elim (Result-cases (env.decode name)) [
    | inr (x, d) ↦ cc (rw d at h)
    | inl (text, d) ↦ elim (Result-cases (put_header env skip text value hs)) [
      | inr (x, p) ↦ cc (rw (d, p) at h)
      | inl (more, p) ↦ rw d (
          add_headers-lookup rest more out (rw (d, p) at h)
          ∙ put_lem text value (sent env k rest) hs more p)
    ]
  ]

-- For every header name: a skipped name has what the proxy itself sets, in exactly that spelling,
-- and nothing else; any other name has what `_extract_header_value` reads of the last
-- header of that name, else the proxy's.
pub build_headers-lookup :
    (env : Platform) (request : Request) (token : Text) (rule : Option FilterRule)
    (given : List (Bytes × HeaderValue)) (out : List (Text × Text)) (k : Text)
    → request.headers ≡ some given
    → build_headers env request token rule ≡ ok out
    → lookup k out ≡ (
        if contains (env.lower k) (get_headers_to_skip env.lower rule)
        then lookup k (own_headers token)
        else prefer (sent env k given) (lookup k (own_headers token)))
unfolding build_headers headers_from after
build_headers-lookup env request token rule given out k g h =
    add_headers-lookup env (get_headers_to_skip env.lower rule) k given (own_headers token) out
      (rw g at h)

-- Every rule's set of headers to skip has these two.
own_skipped :
    (lower : Text → Text) (rule : Option FilterRule)
    → (contains (codes "authorization") (get_headers_to_skip lower rule) ≡ true)
      × (contains (codes "host") (get_headers_to_skip lower rule) ≡ true)
unfolding get_headers_to_skip
own_skipped lower none = (refl, refl)
own_skipped lower (some rule) = (refl, refl)

skipped-lookup :
    (env : Platform) (request : Request) (token : Text) (rule : Option FilterRule)
    (out : List (Text × Text)) (k : Text)
    → contains (env.lower k) (get_headers_to_skip env.lower rule) ≡ true
    → build_headers env request token rule ≡ ok out
    → lookup k out ≡ lookup k (own_headers token)
skipped-lookup env request token rule out k skipped h = elim (Option-cases request.headers) [
  | inl none_given ↦
      let same : own_headers token ≡ out =
        ok_inj (unfold build_headers headers_from in (rw none_given at h)) in
      ap (lookup k) (sym same)
  | inr (given, e) ↦ rw skipped at (build_headers-lookup env request token rule given out k e h)
]

-- `str.lower` of the names of the two headers that the proxy sets.
abbrev pub Lowers : (Text → Text) → Type 0
Lowers lower =
    (lower (codes "Authorization") ≡ codes "authorization") × (lower (codes "Host") ≡ codes "host")

-- The headers that are built have the token, and the target host.
pub build_headers-lookup_own :
    (env : Platform) (request : Request) (token : Text) (rule : Option FilterRule)
    (out : List (Text × Text))
    → Lowers env.lower
    → build_headers env request token rule ≡ ok out
    → (lookup (codes "Authorization") out ≡ some (bearer token))
      × (lookup (codes "Host") out ≡ some target_host)
build_headers-lookup_own env request token rule out (authorization, host) h =
    let (a, b) = own_skipped env.lower rule in
    (
      skipped-lookup env request token rule out (codes "Authorization") (rw authorization a) h
          ∙ (unfold lookup in refl),
      skipped-lookup env request token rule out (codes "Host") (rw host b) h
          ∙ (unfold lookup in refl),
    )
