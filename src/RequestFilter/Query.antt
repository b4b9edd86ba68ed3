-- ===== src/RequestFilter/Query.antt =====
-- flow_proxy_plugin/plugins/request_filter.py: `filter_query_params`.
use flow_proxy.Base.{
  ℕ, ◌≡◌, refl, inl, inr, Bool, true, not, Option, none, some, List, [], ◌∷◌, ◌++◌, map, Text,
  text_eq, All, contains, cut, split, join, keep_if, HasNo, cut-HasNo, cut-none, cut-other,
  split-join, split-HasNo, keep_if-All,
}

abbrev question : ℕ
question = 63

abbrev ampersand : ℕ
ampersand = 38

abbrev equals : ℕ
equals = 61

key_in : Text → Option (Text × Text) → Text
key_in param none = param
key_in param (some (key, value)) = key

-- The name of a parameter: what stands before the first `=`, else all of it.
unfoldable pub key_of : Text → Text
unfolding key_in
key_of param = key_in param (cut equals param)

-- The path of the base and the parameters that are left.
rebuild : Text → List Text → Text
rebuild base [] = base
rebuild base (t ∷ ts) = base ++ question ∷ join ampersand (t ∷ ts)

module _ (lower : Text → Text) where
  -- The test of the loop: the parameter is not one to remove.
  unfoldable pub stays : List Text → Text → Bool
  stays params_to_remove param = not (contains (lower (key_of param)) (map lower params_to_remove))

  filter_parts : Text → List Text → Option (Text × Text) → Text
  unfolding rebuild
  filter_parts path params_to_remove none = path
  filter_parts path params_to_remove (some (base, query)) =
      rebuild base (keep_if (stays params_to_remove) (split ampersand query))

  unfoldable pub filter_query_params : Text → List Text → Text
  unfolding filter_parts
  filter_query_params path [] = path
  filter_query_params path (p ∷ ps) = filter_parts path (p ∷ ps) (cut question path)

params_in : Text → Option (Text × Text) → Text × List Text
params_in path none = (path, [])
params_in path (some (base, query)) = (base, split ampersand query)

-- A path read independently of the filter: its base, and its parameters in order.
pub parsed : Text → Text × List Text
unfolding params_in
parsed path = params_in path (cut question path)

rebuild-parsed :
    (base : Text) (ts : List Text)
    → HasNo question base
    → All (HasNo ampersand) ts
    → parsed (rebuild base ts) ≡ (base, ts)
unfolding parsed rebuild
rebuild-parsed base [] h k = rw (cut-none question base h) refl
rebuild-parsed base (t ∷ ts) h k =
    rw (cut-HasNo question base (join ampersand (t ∷ ts)) h)
      (rw (split-join ampersand (t ∷ ts) (λ q. cc) k) refl)

keep_all : (lower : Text → Text) (ts : List Text) → keep_if (stays lower []) ts ≡ ts
unfolding keep_if stays
keep_all lower [] = refl
keep_all lower (t ∷ ts) = rw (keep_all lower ts) refl

module _ (lower : Text → Text) where
  -- The filtered path has the base of the original one, and those of its parameters, in order and
  -- as they were written, whose lower-case names are not among the ones to remove.
  pub filter_query_params-parsed :
      (path : Text) (rem : List Text)
      → parsed (filter_query_params lower path rem)
        ≡ ((parsed path).0, keep_if (stays lower rem) (parsed path).1)
  unfolding filter_query_params
  filter_query_params-parsed path [] = rw (keep_all lower (parsed path).1) refl
  filter_query_params-parsed path (p ∷ ps) = elim (cut-other question path) [
    | inl (n, h) ↦ unfold parsed keep_if in rw (n, n) refl
    | inr (base, query, q, h) ↦ rw q (
        rw
          (rebuild-parsed base (keep_if (stays lower (p ∷ ps)) (split ampersand query)) h
            (keep_if-All (stays lower (p ∷ ps)) (HasNo ampersand) (split ampersand query)
              (split-HasNo ampersand query)).0)
          (unfold parsed in rw q refl))
  ]

keep_same {ℓ} :
    {A : Type ℓ} (p : A → Bool) (xs : List A) → All (λ x. p x ≡ true) xs → keep_if p xs ≡ xs
unfolding keep_if
keep_same p [] h = refl
keep_same p (x ∷ xs) h = rw (h.0, keep_same p xs h.1) refl

module _ (lower : Text → Text) (p : Text) (ps : List Text) where
  filter_parsed :
      (base : Text) (ts : List Text)
      → HasNo question base
      → All (HasNo ampersand) ts
      → All (λ t. stays lower (p ∷ ps) t ≡ true) ts
      → filter_query_params lower (rebuild base ts) (p ∷ ps) ≡ rebuild base ts
  unfolding filter_query_params rebuild
  filter_parsed base [] h k s = rw (cut-none question base h) refl
  filter_parsed base (t ∷ ts) h k s = rw (cut-HasNo question base (join ampersand (t ∷ ts)) h) (
      rw (split-join ampersand (t ∷ ts) (λ q. cc) k, keep_same (stays lower (p ∷ ps)) (t ∷ ts) s)
        refl)

-- Filtering a filtered path changes nothing.
pub filter_query_params_idem :
    (lower : Text → Text) (path : Text) (rem : List Text)
    → filter_query_params lower (filter_query_params lower path rem) rem
      ≡ filter_query_params lower path rem
filter_query_params_idem lower path [] = unfold filter_query_params in refl
filter_query_params_idem lower path (p ∷ ps) = elim (cut-other question path) [
  | inl (n, h) ↦ unfold filter_query_params in rw n (rw n refl)
  | inr (base, query, q, h) ↦
      let kept =
        keep_if-All (stays lower (p ∷ ps)) (HasNo ampersand) (split ampersand query)
          (split-HasNo ampersand query) in
      let once : filter_query_params lower path (p ∷ ps)
          ≡ rebuild base (keep_if (stays lower (p ∷ ps)) (split ampersand query)) =
        unfold filter_query_params in rw q refl in
      rw (once, filter_parsed lower p ps base _ h kept.0 kept.1) refl
]
