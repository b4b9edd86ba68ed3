-- ===== src/Jwt/Freshness.antt =====
-- Which token a caller is given, and how long it stays good.
use flow_proxy.Base.{
  ℕ, ◌+◌, ◌<◌, ◌≡◌, ◌↔◌, refl, ap, sym, subst, ◌∙◌, inl, inr, Bool, true, false, Option, none, some,
  List, [], ◌∷◌, Text, text_eq, text_beq, text_beq_iff, lookup, insert, lookup-insert,
  lookup-insert_self, All, Bool-cases, Option-cases, Result-cases, if◌then◌else◌, Result, ok, err,
  ok_inj, some_inj, arith, ◌>>=◌,
}
use flow_proxy.Json.{Json, str, obj, Fields, entries}
use flow_proxy.Config.{Config, required_fields}
use flow_proxy.Config.Validation.{HasText, IsUsable}
use flow_proxy.Jwt.{
  Entry, Cache, Payload, ttl, margin, lacks_value, missing_in, check_missing, text_of,
  create_jwt_payload, validated_payload, fresh, cached_token, store, keep, issue, attempt,
  generate_token,
}

missing_inv :
    (f : Text) (r : Result Bool) (m : Result (List Text))
    → (r >>= λ lacks. m >>= λ more. ok (if lacks then f ∷ more else more)) ≡ ok []
    → (r ≡ ok false) × (m ≡ ok [])
missing_inv f (ok true) (ok more) h = cc
missing_inv f (ok false) (ok more) h = (refl, h)
missing_inv f (ok b) (err e) h = cc
missing_inv f (err e) m h = cc

module _ (fs : Fields) where
  lacks_usable : (f : Text) → HasText fs f → lacks_value (lookup f (entries fs)) ≡ ok false
  unfolding lacks_value
  lacks_usable f (v, e, b) = rw (e, lacks_value) (ap ok b)

  missing_usable : (rest : List Text) → All (HasText fs) rest → missing_in rest fs ≡ ok []
  unfolding missing_in
  missing_usable [] h = refl
  missing_usable (f ∷ rest) (h, hs) = rw (lacks_usable f h, missing_usable rest hs) refl

  usable_of_lacks :
      (f : Text) (o : Option Json)
      → lookup f (entries fs) ≡ o
      → lacks_value o ≡ ok false
      → HasText fs f
  unfolding lacks_value
  usable_of_lacks f none e h = cc
  usable_of_lacks f (some (str v)) e h = (v, e, ok_inj h)
  usable_of_lacks f (some _) e h = cc

  usable_of_missing : (rest : List Text) → missing_in rest fs ≡ ok [] → All (HasText fs) rest
  unfolding missing_in
  usable_of_missing [] h = tt
  usable_of_missing (f ∷ rest) h =
      let (a, b) = missing_inv f (lacks_value (lookup f (entries fs))) (missing_in rest fs) h in
      (usable_of_lacks f (lookup f (entries fs)) refl a, usable_of_missing rest b)

  payload_of_usable :
      All (HasText fs) required_fields → (p : Payload) × (create_jwt_payload fs ≡ ok p)
  unfolding create_jwt_payload
  payload_of_usable (a, (b, (c, _))) = (
    record { client_id = a.0; client_secret = b.0; tenant = c.0 },
    rw (a.1, b.1, c.1, text_of) refl,
  )

check_inv :
    (m : Result (List Text)) (r : Result Payload) {p : Payload}
    → (m >>= λ missing. check_missing missing >>= λ _. r) ≡ ok p
    → m ≡ ok []
unfolding check_missing
check_inv (ok []) r h = refl
check_inv (ok (f ∷ fs)) r h = cc
check_inv (err e) r h = cc

-- Token generation gets past its checks exactly for the configurations that validation accepts.
pub validated_payload_iff :
    (c : Config) → IsUsable c ↔ ((p : Payload) × (validated_payload c ≡ ok p))
unfolding validated_payload
validated_payload_iff (obj fs) = (
  λ u. let (p, e) = payload_of_usable fs u in (p, rw (missing_usable fs required_fields u, e) refl),
  λ (p, h).
      usable_of_missing fs required_fields
        (check_inv (missing_in required_fields fs) (create_jwt_payload fs) h),
)
validated_payload_iff c = (λ u. absurd u, λ (p, h). cc)

module _ (encode : Payload → Text → Result Text) where
  -- A token that a caller may be given at `now`: it is in the cache and outlives the margin.
  abbrev pub IsServed : Cache → ℕ → Text → Text → Type 0
  IsServed cache now client_id token =
      (e : Entry) × (lookup client_id cache ≡ some e)
      × (e.token ≡ token)
      × (now + margin < e.expiry)

  fresh_inv :
      (now : ℕ) (o : Option Entry) (token : Text)
      → fresh now o ≡ some token
      → (e : Entry) × (o ≡ some e) × (e.token ≡ token) × (now + margin < e.expiry)
  unfolding fresh
  fresh_inv now none token h = cc
  fresh_inv now (some e) token h = (e, refl, ground arith, ground arith)

  keep_ok :
      (cache : Cache) (now : ℕ) (p : Payload) (r : Result Text) (token : Text) (cache' : Cache)
      → keep encode cache now p r ≡ (ok token, cache')
      → (r ≡ ok token) × (cache' ≡ store cache now p.client_id token)
  unfolding keep
  keep_ok cache now p (ok t) token cache' h = (cc, cc)
  keep_ok cache now p (err e) token cache' h = cc

  stored_IsServed :
      (cache : Cache) (now : ℕ) (client_id token : Text) (cache' : Cache)
      → cache' ≡ store cache now client_id token
      → IsServed cache' now client_id token
  unfolding store
  stored_IsServed cache now client_id token cache' e = (
    record { token = token; expiry = now + ttl },
    rw e (lookup-insert_self client_id _ cache),
    refl,
    omega arith,
  )

  attempt_ok :
      (cache : Cache) (now : ℕ) (p : Payload) (token : Text) (cache' : Cache)
      → attempt encode cache now (ok p) ≡ (ok token, cache')
      → IsServed cache' now p.client_id token
  unfolding attempt issue cached_token
  attempt_ok cache now p token cache' h =
      elim (Option-cases (fresh now (lookup p.client_id cache))) [
        | inl stale ↦
            let (made, stored) =
              keep_ok cache now p (encode p p.client_secret) token cache'
                (rw (stale, issue) at h) in
            stored_IsServed cache now p.client_id token cache' stored
        | inr (t, hit) ↦
            let same : (ok t, cache) ≡ (ok token, cache') = rw (hit, issue) at h in
            subst (λ d. IsServed d now p.client_id token)
              (ap (λ (r : Result Text × Cache). r.1) same)
              (fresh_inv now (lookup p.client_id cache) token
                (hit ∙ ap some (ok_inj (ap (λ (r : Result Text × Cache). r.0) same))))
      ]

  -- A token that is returned is then in the cache under the configuration's client id, and is
  -- good for longer than the refresh margin.
  pub generate_token-IsServed :
      (cache : Cache) (now : ℕ) (c : Config) (p : Payload) (token : Text) (cache' : Cache)
      → validated_payload c ≡ ok p
      → generate_token encode cache now c ≡ (ok token, cache')
      → IsServed cache' now p.client_id token
  unfolding generate_token
  generate_token-IsServed cache now c p token cache' v h =
      attempt_ok cache now p token cache' (rw v at h)

  fresh_hit : (now : ℕ) (e : Entry) → now + margin < e.expiry → fresh now (some e) ≡ some e.token
  unfolding fresh
  fresh_hit now e h = ground arith

  -- While a cached token outlives the margin, every configuration with its client id is given that
  -- token; none is made, and the cache stays as it is.
  pub generate_token_again :
      (cache : Cache) (now : ℕ) (d : Config) (q : Payload) (token : Text)
      → validated_payload d ≡ ok q
      → IsServed cache now q.client_id token
      → generate_token encode cache now d ≡ (ok token, cache)
  unfolding generate_token attempt cached_token
  generate_token_again cache now d q token v (e, here, same, long) =
      rw (v, attempt, here, fresh_hit now e long, issue) (ap (λ t. (ok t, cache)) same)

  generate_token_new :
      (cache : Cache) (now : ℕ) (c : Config) (p : Payload) (token : Text)
      → validated_payload c ≡ ok p
      → cached_token cache now p.client_id ≡ none
      → encode p p.client_secret ≡ ok token
      → generate_token encode cache now c ≡ (ok token, store cache now p.client_id token)
  unfolding generate_token attempt
  generate_token_new cache now c p token v stale made =
      rw (v, attempt, stale, issue, made, keep) refl

  -- The secret and the tenant are no part of the key: after a token was made for one
  -- configuration, another one with the same client id is given it until the margin before its
  -- expiry, whatever its own secret and tenant are.
  pub generate_token_shared :
      (cache : Cache) (now later : ℕ) (c d : Config) (p q : Payload) (token : Text)
      → validated_payload c ≡ ok p
      → validated_payload d ≡ ok q
      → q.client_id ≡ p.client_id
      → cached_token cache now p.client_id ≡ none
      → encode p p.client_secret ≡ ok token
      → later + margin < now + ttl
      → (generate_token encode (generate_token encode cache now c).1 later d).0 ≡ ok token
  generate_token_shared cache now later c d p q token vc vd k stale made soon =
      rw (generate_token_new cache now c p token vc stale made) (
        ap (λ (r : Result Text × Cache). r.0)
          (generate_token_again (store cache now p.client_id token) later d q token vd (
            record { token = token; expiry = now + ttl },
            rw k (unfold store in lookup-insert_self p.client_id _ cache),
            refl,
            soon,
          )))

  -- Every cached token was made for a payload with the client id that it is filed under.
  abbrev pub IsSound : Cache → Type 0
  IsSound cache =
      (id : Text) (e : Entry)
      → lookup id cache ≡ some e
      → (p : Payload) × (p.client_id ≡ id) × (encode p p.client_secret ≡ ok e.token)

  store-IsSound :
      (cache : Cache) (now : ℕ) (p : Payload) (token : Text)
      → encode p p.client_secret ≡ ok token
      → IsSound cache
      → IsSound (store cache now p.client_id token)
  unfolding store
  store-IsSound cache now p token made s id e h = elim (Bool-cases (text_beq p.client_id id)) [
    | inl same ↦
        let x : Entry = record { token = token; expiry = now + ttl } in
        let law : lookup id (insert p.client_id x cache) ≡ some x =
          lookup-insert p.client_id id x cache ∙ rw same refl in
        let found : some x ≡ some e = sym law ∙ h in
        (
          p,
          (text_beq_iff p.client_id id).0 same,
          made ∙ ap (λ (y : Entry). ok y.token) (some_inj found),
        )
    | inr other ↦
        let x : Entry = record { token = token; expiry = now + ttl } in
        let law : lookup id (insert p.client_id x cache) ≡ lookup id cache =
          lookup-insert p.client_id id x cache ∙ rw other refl in
        s id e (sym law ∙ h)
  ]

  keep-IsSound :
      (cache : Cache) (now : ℕ) (p : Payload) (r : Result Text)
      → encode p p.client_secret ≡ r
      → IsSound cache
      → IsSound (keep encode cache now p r).1
  unfolding keep
  keep-IsSound cache now p (ok token) made s = store-IsSound cache now p token made s
  keep-IsSound cache now p (err e) made s = s

  issue-IsSound :
      (cache : Cache) (now : ℕ) (p : Payload) (o : Option Text)
      → IsSound cache
      → IsSound (issue encode cache now p o).1
  unfolding issue
  issue-IsSound cache now p (some t) s = s
  issue-IsSound cache now p none s = keep-IsSound cache now p (encode p p.client_secret) refl s

  attempt-IsSound :
      (cache : Cache) (now : ℕ) (r : Result Payload)
      → IsSound cache
      → IsSound (attempt encode cache now r).1
  unfolding attempt
  attempt-IsSound cache now (ok p) s =
      issue-IsSound cache now p (cached_token cache now p.client_id) s
  attempt-IsSound cache now (err e) s = s

  -- Token generation, failing or not, files only tokens that were made for a payload with the
  -- client id in question.
  pub generate_token-IsSound :
      (cache : Cache) (now : ℕ) (c : Config)
      → IsSound cache
      → IsSound (generate_token encode cache now c).1
  unfolding generate_token
  generate_token-IsSound cache now c s = attempt-IsSound cache now (validated_payload c) s

  -- A token is returned only for a configuration that passes the checks.
  pub generate_token-payload :
      (cache : Cache) (now : ℕ) (c : Config) (token : Text)
      → (generate_token encode cache now c).0 ≡ ok token
      → (p : Payload) × (validated_payload c ≡ ok p)
  unfolding generate_token attempt
  generate_token-payload cache now c token h = elim (Result-cases (validated_payload c)) [
    | inl (p, v) ↦ (p, v)
    | inr (e, v) ↦ cc (rw (v, attempt) at h)
  ]

  issue_total :
      (cache : Cache) (now : ℕ) (p : Payload) (o : Option Text) (t : Text)
      → encode p p.client_secret ≡ ok t
      → (token : Text) × ((issue encode cache now p o).0 ≡ ok token)
  unfolding issue keep
  issue_total cache now p (some token) t made = (token, refl)
  issue_total cache now p none t made = (t, rw (made, keep) refl)

  -- A usable configuration is given a token wherever `encode` does not raise for its payload.
  pub generate_token_total :
      (cache : Cache) (now : ℕ) (c : Config)
      → ((p : Payload) → (t : Text) × (encode p p.client_secret ≡ ok t))
      → IsUsable c
      → (token : Text) × ((generate_token encode cache now c).0 ≡ ok token)
  unfolding generate_token attempt
  generate_token_total cache now c total u =
      let (p, v) = (validated_payload_iff c).0 u in
      let (t, made) = total p in
      rw (v, attempt) (issue_total cache now p (cached_token cache now p.client_id) t made)
