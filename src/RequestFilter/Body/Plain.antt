-- ===== src/RequestFilter/Body/Plain.antt =====
-- Bodies that are JSON objects, and names without a dot to remove from them: what the rules use.
use flow_proxy.Base.{
  ◌==◌, nat_eq, ◌≡◌, ◌≢◌, refl, ap, sym, inl, inr, Bool, true, false, ◌||◌, some, List, [], ◌∷◌,
  Text, Bytes, text_eq, contains, All, Bool-cases, if◌then◌else◌, Result, ok, arith,
}
use flow_proxy.Json.{Json, obj, Fields, end, field}
use flow_proxy.RequestFilter.Body.{
  Nested, keys, delete_field, has_key, delete_key, remove_key, remove_param, remove_params,
  rewritten, or_same, filter_body_params,
}

-- A dict has each key once.
unfoldable pub Distinct : Fields → Type 0
unfolding keys
Distinct end = Unit
Distinct (field k v fs) = (contains k (keys fs) ≡ false) × Distinct fs

-- No dot: the name of a top-level key.
abbrev pub IsPlain : Text → Type 0
IsPlain param = contains 46 param ≡ false

-- The dict without the entries of these names, the others in order.
unfoldable pub without : List Text → Fields → Fields
without params end = end
without params (field k v fs) =
    let rest = without params fs in if contains k params then rest else field k v rest

-- One of the names is a key.
unfoldable pub any_key : List Text → Fields → Bool
any_key [] fs = false
any_key (p ∷ ps) fs = contains p (keys fs) || any_key ps fs

beq_sym : (a b : Text) → (a == b) ≡ (b == a)
beq_sym a b = ground (arith, text_eq.test_iff a b, text_eq.test_iff b a)

same_key : (k p : Text) → (k == p) ≡ true → k ≡ p
same_key k p h = (text_eq.test_iff k p).0 h

module _ (p : Text) (ps : List Text) where
  without_missing :
      (fs : Fields) → contains p (keys fs) ≡ false → without (p ∷ ps) fs ≡ without ps fs
  unfolding without keys
  without_missing end h = refl
  without_missing (field k v fs) h = elim (Bool-cases (k == p)) [
    | inl e ↦ cc (rw e at h)
    | inr e ↦ rw (beq_sym p k, e) (rw (without_missing fs (rw e at h)) refl)
  ]

  without_delete :
      (fs : Fields)
      → Distinct fs
      → contains p (keys fs) ≡ true
      → without ps (delete_field p fs) ≡ without (p ∷ ps) fs
  unfolding without delete_field keys Distinct
  without_delete end d h = cc
  without_delete (field k v fs) (fresh, d) h = elim (Bool-cases (k == p)) [
    | inl e ↦ rw (e, beq_sym p k) (rw e (sym (without_missing fs (rw (same_key k p e) at fresh))))
    | inr e ↦ rw (e, beq_sym p k) (rw (e, without_delete fs d (rw e at h)) refl)
  ]

keys-delete :
    (p q : Text) (fs : Fields)
    → contains q (keys fs) ≡ false
    → contains q (keys (delete_field p fs)) ≡ false
unfolding keys delete_field
keys-delete p q end h = refl
keys-delete p q (field k v fs) h = elim (Bool-cases (k == p)) [
  | inl e ↦ rw e (ground arith)
  | inr e ↦ rw e (ground (arith, keys-delete p q fs))
]

delete-Distinct : (p : Text) (fs : Fields) → Distinct fs → Distinct (delete_field p fs)
unfolding delete_field Distinct
delete-Distinct p end d = tt
delete-Distinct p (field k v fs) (fresh, d) = elim (Bool-cases (k == p)) [
  | inl e ↦ rw e d
  | inr e ↦ rw e (keys-delete p k fs fresh, delete-Distinct p fs d)
]

without_none : (fs : Fields) → without [] fs ≡ fs
unfolding without
without_none end = refl
without_none (field k v fs) = rw (without_none fs) refl

or_false : (b : Bool) → (b || false) ≡ b
or_false b = ground arith

or_true : (b : Bool) → (b || true) ≡ true
or_true b = ground arith

module _ (nested : Nested) where
  remove_param_missing :
      (p : Text) (fs : Fields)
      → IsPlain p
      → contains p (keys fs) ≡ false
      → remove_param nested (obj fs) p ≡ ok (false, obj fs)
  unfolding remove_param has_key remove_key
  remove_param_missing p fs plain h = rw (plain, h) refl

  remove_param_there :
      (p : Text) (fs : Fields)
      → IsPlain p
      → contains p (keys fs) ≡ true
      → remove_param nested (obj fs) p ≡ ok (true, obj (delete_field p fs))
  unfolding remove_param has_key remove_key delete_key
  remove_param_there p fs plain h = rw (plain, h) refl

  remove_params_lem :
      (acc : Bool) (fs : Fields) (ps : List Text)
      → Distinct fs
      → All IsPlain ps
      → remove_params nested acc (obj fs) ps ≡ ok (acc || any_key ps fs, obj (without ps fs))
  unfolding remove_params any_key
  remove_params_lem acc fs [] d h = rw (or_false acc, without_none fs) refl
  remove_params_lem acc fs (p ∷ ps) d (plain, h) = elim (Bool-cases (contains p (keys fs))) [
    | inl e ↦ rw (remove_param_there p fs plain e) (
        rw (remove_params_lem (acc || true) (delete_field p fs) ps (delete-Distinct p fs d) h)
          (rw (e, or_true acc, without_delete p ps fs d e) refl))
    | inr e ↦ rw (remove_param_missing p fs plain e) (
        rw (remove_params_lem (acc || false) fs ps d h)
          (rw (e, or_false acc, without_missing p ps fs e) refl))
  ]

or_same-if :
    (body : Bytes) (b : Bool) (r : Result Bytes)
    → or_same body (if b then r else ok body) ≡ (if b then or_same body r else body)
unfolding or_same
or_same-if body true r = refl
or_same-if body false r = refl

module _ (nested : Nested) (loads : Bytes → Result Json) (dumps : Json → Result Bytes) where
  -- Where no name to remove has a dot, a body that is not empty and is a JSON object whose keys are
  -- all different loses exactly the entries of the names to remove, the others kept in order; where
  -- it has none of them, or the new object cannot be printed, the same bytes are forwarded.
  pub filter_body_params_plain :
      (body : Bytes) (ps : List Text) (fs : Fields)
      → body ≢ []
      → loads body ≡ ok (obj fs)
      → Distinct fs
      → All IsPlain ps
      → filter_body_params nested loads dumps (some body) ps
        ≡ some (if any_key ps fs then or_same body (dumps (obj (without ps fs))) else body)
  unfolding filter_body_params
  filter_body_params_plain [] ps fs n l d h = absurd (n refl)
  filter_body_params_plain (b ∷ bs) [] fs n l d h = unfold any_key in refl
  filter_body_params_plain (b ∷ bs) (p ∷ ps) fs n l d h =
      unfold rewritten in
      rw l (
        rw (remove_params_lem nested false fs (p ∷ ps) d h)
          (ap some (or_same-if (b ∷ bs) (any_key (p ∷ ps) fs) _)))
