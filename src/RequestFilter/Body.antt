-- ===== src/RequestFilter/Body.antt =====
-- flow_proxy_plugin/plugins/request_filter.py: `filter_body_params`. A dict or list that the
-- source changes in place is returned changed. `has`, `get`, `delete` are the nested-property
-- package's, and `set` puts the changed value back where `get` found it.
pub mod Plain
use flow_proxy.Base.{
  ℕ, ◌==◌, nat_eq, ◌≡◌, partition, ◌≢◌, refl, Bool, true, false, ◌||◌, Option, none, some, List, [],
  ◌∷◌, ◌++◌, Text, Bytes, codes, text_eq, lookup, contains, has_text, All, Bool-cases,
  if◌then◌else◌, Exc, ExcClass, Result, ok, err, ◌>>=◌, arith,
}
use flow_proxy.Json.{
  Json, null, bool, num, str, arr, obj, Items, nil, cons, Fields, end, field, items, entries,
  json_eq,
}

pub record Nested : Type 0 where
  pub has : Json → Text → Result Bool
  pub get : Json → Text → Result Json
  pub delete : Json → Text → Result Json
  pub set : Json → Text → Json → Json

-- `except (KeyError, IndexError, TypeError)`
abbrev is_caught : ExcClass → Bool
is_caught ExcClass.key_error = true
is_caught ExcClass.index_error = true
is_caught ExcClass.type_error = true
is_caught _ = false

abbrev type_error : Exc
type_error = record { cls = ExcClass.type_error; message = [] }

unfoldable pub keys : Fields → List Text
keys end = []
keys (field k v fs) = k ∷ keys fs

delete_field : Text → Fields → Fields
delete_field param end = end
delete_field param (field k v fs) =
    let rest = delete_field param fs in if k == param then fs else field k v rest

-- `param in doc`
has_key : Text → Json → Result Bool
unfolding keys
has_key param (obj fs) = ok (contains param (keys fs))
has_key param (arr vs) = ok (contains (str param) (items vs))
has_key param (str s) = ok (has_text s param)
has_key param v = err type_error

-- `del doc[param]`
delete_key : Text → Json → Result Json
unfolding delete_field
delete_key param (obj fs) = ok (obj (delete_field param fs))
delete_key param v = err type_error

remove_key : Text → Json → Bool → Result (Bool × Json)
unfolding delete_key
remove_key param doc false = ok (false, doc)
remove_key param doc true = do changed ← delete_key param doc; ok (true, changed)

module _ (nested : Nested) where
  -- The `try` around a deletion, which gives whether it was done.
  caught_delete : Json → Result Json → Result (Bool × Json)
  caught_delete doc (ok changed) = ok (true, changed)
  caught_delete doc (err e) = if is_caught e.cls then ok (false, doc) else err e

  delete_if : Bool → Json → Text → Result (Bool × Json)
  unfolding caught_delete
  delete_if false doc path = ok (false, doc)
  delete_if true doc path = caught_delete doc (nested.delete doc path)

  delete_in : Text → Items → Result (Bool × Items)
  unfolding delete_if
  delete_in suffix nil = ok (false, nil)
  delete_in suffix (cons v vs) = do
    found ← nested.has v suffix
    done ← delete_if found v suffix
    more ← delete_in suffix vs
    ok (done.0 || more.0, cons done.1 more.1)

  delete_from : Json → Text → Text → Result Json → Result (Bool × Json)
  unfolding delete_in
  delete_from doc prefix suffix (ok (arr vs)) = do
    done ← delete_in suffix vs
    ok (done.0, nested.set doc prefix (arr done.1))
  delete_from doc prefix suffix (ok v) = ok (false, doc)
  delete_from doc prefix suffix (err e) = if is_caught e.cls then ok (false, doc) else err e

  delete_nested_param_wildcard : Json → Text × Text → Result (Bool × Json)
  unfolding delete_from
  delete_nested_param_wildcard doc (prefix, suffix) =
      if prefix == [] || suffix == []
      then ok (false, doc)
      else delete_from doc prefix suffix (nested.get doc prefix)

  delete_at : Json → Text → Option (Text × Text) → Result (Bool × Json)
  unfolding delete_nested_param_wildcard delete_if
  delete_at doc path (some parts) = delete_nested_param_wildcard doc parts
  delete_at doc path none = do found ← nested.has doc path; delete_if found doc path

  delete_nested_param : Json → Text → Result (Bool × Json)
  unfolding delete_at
  delete_nested_param doc path = delete_at doc path (partition (codes ".*.") path)

  remove_param : Json → Text → Result (Bool × Json)
  unfolding delete_nested_param remove_key has_key
  remove_param doc param =
      if contains 46 param
      then delete_nested_param doc param
      else (has_key param doc >>= remove_key param doc)

  remove_params : Bool → Json → List Text → Result (Bool × Json)
  unfolding remove_param
  remove_params filtered doc [] = ok (filtered, doc)
  remove_params filtered doc (p ∷ ps) = do
    done ← remove_param doc p
    remove_params (filtered || done.0) done.1 ps

-- `except Exception`
pub or_same : Bytes → Result Bytes → Bytes
or_same body (ok changed) = changed
or_same body (err e) = body

-- `loads` decodes and parses the body, `dumps` prints and encodes it.
module _ (nested : Nested) (loads : Bytes → Result Json) (dumps : Json → Result Bytes) where
  rewritten : Bytes → List Text → Result Bytes
  unfolding remove_params
  rewritten body params = do
    doc ← loads body
    done ← remove_params nested false doc params
    if done.0 then dumps done.1 else ok body

  unfoldable pub filter_body_params : Option Bytes → List Text → Option Bytes
  unfolding rewritten or_same
  filter_body_params none params = none
  filter_body_params (some []) params = some []
  filter_body_params (some (b ∷ bs)) [] = some (b ∷ bs)
  filter_body_params (some (b ∷ bs)) (p ∷ ps) =
      some (or_same (b ∷ bs) (rewritten (b ∷ bs) (p ∷ ps)))
