-- ===== src/Config/Validation.antt =====
-- What a configuration that passes validation holds, and what loading can raise.
use flow_proxy.Base.{
  ◌≡◌, ◌≢◌, ◌↔◌, refl, ◌⊎◌, inl, inr, Bool, true, false, Option, none, some, List, [], ◌∷◌, ◌++◌,
  Text, text_eq, is_blank, lookup, All, Bool-cases, Exc, is_value_error, Result, ok, err, ok_inj,
  err_inj, subst, arith,
}
use flow_proxy.Json.{Json, str, arr, obj, Fields, Items, items, entries}
use flow_proxy.Config.{
  ValidationError, required_fields, note_missing, missing_of, missing_errors, value_errors,
  field_errors, no_errors, validate_single_config, validate_secrets, non_empty, check_secrets,
  read_error, path_error, is_json_decode, load_secrets, is_file_not_found,
}

append_nil_inv {ℓ} : {A : Type ℓ} (xs ys : List A) → xs ++ ys ≡ [] → (xs ≡ []) × (ys ≡ [])
append_nil_inv [] ys h = (refl, h)
append_nil_inv (x ∷ xs) ys h = cc

-- The field is there, is a string, and is not blank.
abbrev pub HasText : Fields → Text → Type 0
HasText fs f = (v : Text) × (lookup f (entries fs) ≡ some (str v)) × (is_blank v ≡ false)

abbrev pub IsUsable : Json → Type 0
IsUsable (obj fs) = All (HasText fs) required_fields
IsUsable _ = ⊥

module _ (fs : Fields) where
  no_field_errors : (f : Text) → HasText fs f → value_errors f (lookup f (entries fs)) ≡ []
  unfolding value_errors
  no_field_errors f (v, e, b) = rw (e, value_errors) (rw b refl)

  errors_of_usable :
      (rest : List Text)
      → All (HasText fs) rest
      → (missing_of rest fs ≡ []) × (field_errors rest fs ≡ [])
  unfolding missing_of field_errors
  errors_of_usable [] h = (refl, refl)
  errors_of_usable (f ∷ rest) (h, hs) =
      let (m, g) = errors_of_usable rest hs in (rw (h.1, m), rw (no_field_errors f h, g))

  usable_field :
      (f : Text) (o : Option Json)
      → lookup f (entries fs) ≡ o
      → o ≢ none
      → value_errors f o ≡ []
      → HasText fs f
  unfolding value_errors
  usable_field f none e h v = absurd (h refl)
  usable_field f (some (str t)) e h v = elim (Bool-cases (is_blank t)) [
    | inl b ↦ cc (rw b at v)
    | inr b ↦ (t, e, b)
  ]
  usable_field f (some _) e h v = cc

  note_missing_inv :
      (f : Text) (o : Option Json) (rest : List Text)
      → note_missing f o rest ≡ []
      → (o ≢ none) × (rest ≡ [])
  unfolding note_missing
  note_missing_inv f none rest h = cc
  note_missing_inv f (some v) rest h = (λ q. cc, h)

  usable_of_errors :
      (rest : List Text)
      → missing_of rest fs ≡ []
      → field_errors rest fs ≡ []
      → All (HasText fs) rest
  usable_of_errors [] m g = tt
  usable_of_errors (f ∷ rest) m g =
      let (here, m') =
        note_missing_inv f (lookup f (entries fs)) (missing_of rest fs) (unfold missing_of in m) in
      let (v, g') =
        append_nil_inv (value_errors f (lookup f (entries fs))) (field_errors rest fs)
          (unfold field_errors in g) in
      (usable_field f (lookup f (entries fs)) refl here v, usable_of_errors rest m' g')

no_errors-append :
    (xs ys : List ValidationError) → (no_errors (xs ++ ys) ≡ true) ↔ ((xs ≡ []) × (ys ≡ []))
unfolding no_errors
no_errors-append [] [] = (λ h. (refl, refl), λ q. refl)
no_errors-append [] (y ∷ ys) = (λ h. cc, λ q. cc (q.1))
no_errors-append (x ∷ xs) ys = (λ h. cc, λ q. cc (q.0))

missing_errors_inv : (fs : List Text) → missing_errors fs ≡ [] → fs ≡ []
unfolding missing_errors
missing_errors_inv [] h = refl
missing_errors_inv (f ∷ fs) h = cc

-- A configuration passes exactly when it is a dict in which each required field is a string that
-- is not blank.
pub validate_single_config_iff : (c : Json) → ((validate_single_config c).0 ≡ true) ↔ IsUsable c
unfolding validate_single_config
validate_single_config_iff (obj fs) = (
  λ h.
      let (m, g) =
        (no_errors-append (missing_errors (missing_of required_fields fs))
            (field_errors required_fields fs)).0
          h in
      usable_of_errors fs required_fields (missing_errors_inv _ m) g,
  λ u.
      let (m, g) = errors_of_usable fs required_fields u in
      (no_errors-append (missing_errors (missing_of required_fields fs))
          (field_errors required_fields fs)).1
        (rw m refl, g),
)
validate_single_config_iff c = (λ h. cc, λ u. absurd u)

validate_secrets_iff : (cs : List Json) → (validate_secrets cs ≡ true) ↔ All IsUsable cs
unfolding validate_secrets
validate_secrets_iff [] = (λ h. tt, λ u. refl)
validate_secrets_iff (c ∷ cs) = (
  λ h.
      ((validate_single_config_iff c).0 (ground arith), (validate_secrets_iff cs).0 (ground arith)),
  λ u. rw ((validate_single_config_iff c).1 u.0, (validate_secrets_iff cs).1 u.1),
)

-- What a successful load rests on.
pub record IsLoaded (present : Result Bool) (read : Result Json) (cs : List Json) : Type 0 where
  pub file : present ≡ ok true
  pub document : Items
  pub parsed : read ≡ ok (arr document)
  pub listed : items document ≡ cs
  pub non_empty : cs ≢ []
  pub usable : All IsUsable cs

non_empty_ok : (xs cs : List Json) → non_empty xs ≡ ok cs → (xs ≡ cs) × (cs ≢ []) × All IsUsable cs
unfolding non_empty
non_empty_ok [] cs h = cc
non_empty_ok (x ∷ xs) cs h = elim (Bool-cases (validate_secrets (x ∷ xs))) [
  | inl v ↦
      let same : x ∷ xs ≡ cs = ok_inj (rw v at h) in
      (same, rw (← same) (λ q. cc), rw (← same) ((validate_secrets_iff (x ∷ xs)).0 v))
  | inr v ↦ cc (rw v at h)
]

load_secrets_ok :
    (present : Result Bool) (read : Result Json) (cs : List Json)
    → load_secrets present read ≡ ok cs
    → IsLoaded present read cs
unfolding load_secrets check_secrets
load_secrets_ok (err e) read cs h = cc
load_secrets_ok (ok false) read cs h = cc
load_secrets_ok (ok true) (err e) cs h = cc
load_secrets_ok (ok true) (ok (arr vs)) cs h =
    let (l, n, u) = non_empty_ok (items vs) cs h in
    record { file = refl; document = vs; parsed = refl; listed = l; non_empty = n; usable = u }
load_secrets_ok (ok true) (ok _) cs h = cc

non_empty_usable : (xs : List Json) → xs ≢ [] → All IsUsable xs → non_empty xs ≡ ok xs
unfolding non_empty
non_empty_usable [] n u = absurd (n refl)
non_empty_usable (x ∷ xs) n u = rw ((validate_secrets_iff (x ∷ xs)).1 u)

-- Loading gives a list exactly when the file is there, it parses to an array with these items,
-- there is at least one, and each is a usable configuration.
pub load_secrets_iff :
    (present : Result Bool) (read : Result Json) (cs : List Json)
    → (load_secrets present read ≡ ok cs) ↔ IsLoaded present read cs
load_secrets_iff present read cs = (load_secrets_ok present read cs, λ h. loaded h)
  where
    loaded : IsLoaded present read cs → load_secrets present read ≡ ok cs
    loaded h =
        rw (h.file, h.parsed)
          (unfold load_secrets check_secrets in
            rw h.listed (non_empty_usable cs h.non_empty h.usable))

-- The classes that `load_secrets` documents.
abbrev pub IsDocumented : Exc → Type 0
IsDocumented e = (is_file_not_found e.cls ≡ true) ⊎ (is_value_error e.cls ≡ true)

raised :
    {a e : Exc} → IsDocumented a → ◌≡◌ {A = Result (List Json)} (err a) (err e) → IsDocumented e
raised {a} {e} d h = subst IsDocumented (err_inj (List Json) h) d

read_error-IsDocumented : (x : Exc) → IsDocumented (read_error x)
unfolding read_error
read_error-IsDocumented x = elim (Bool-cases (is_value_error x.cls)) [
  | inl v ↦ rw v (inr refl)
  | inr v ↦ rw v (elim (Bool-cases (is_file_not_found x.cls)) [
    | inl f ↦ rw f (inl f)
    | inr f ↦ rw f (inr refl)
  ])
]

path_error-IsDocumented : (x : Exc) → IsDocumented (path_error x)
unfolding path_error
path_error-IsDocumented x = elim (Bool-cases (is_json_decode x.cls)) [
  | inl d ↦ rw d (inr refl)
  | inr d ↦ rw d (elim (Bool-cases (is_value_error x.cls)) [
    | inl v ↦ rw v (inr v)
    | inr v ↦ rw v (elim (Bool-cases (is_file_not_found x.cls)) [
      | inl f ↦ rw f (inl f)
      | inr f ↦ rw f (inr refl)
    ])
  ])
]

non_empty_raises : (xs : List Json) (e : Exc) → non_empty xs ≡ err e → IsDocumented e
unfolding non_empty
non_empty_raises [] e h = raised (inr refl) h
non_empty_raises (x ∷ xs) e h = elim (Bool-cases (validate_secrets (x ∷ xs))) [
  | inl v ↦ cc (rw v at h)
  | inr v ↦ raised (inr refl) (rw v at h)
]

-- What loading raises is a FileNotFoundError or a ValueError, whatever the file holds and
-- whatever reading it raises.
pub load_secrets_raises :
    (present : Result Bool) (read : Result Json) (e : Exc)
    → load_secrets present read ≡ err e
    → IsDocumented e
unfolding load_secrets check_secrets
load_secrets_raises (err x) read e h = raised (path_error-IsDocumented x) h
load_secrets_raises (ok false) read e h = raised (inl refl) h
load_secrets_raises (ok true) (err x) e h = raised (read_error-IsDocumented x) h
load_secrets_raises (ok true) (ok (arr vs)) e h = non_empty_raises (items vs) e h
load_secrets_raises (ok true) (ok _) e h = raised (inr refl) h
