-- ===== src/Jwt.antt =====
-- flow_proxy_plugin/core/jwt_generator.py: tokens and their cache, shared by the whole process.
-- `jwt.encode` and `jwt.decode` are parameters. Times are whole microseconds, where the source has
-- seconds as floats; `now < expiry - margin` is read as `now + margin < expiry`. The two locked
-- blocks of `generate_token` are `cached_token` and `store`; log lines are left out.
pub mod Freshness
pub mod Tests
use flow_proxy.Base.{
  ℕ, ◌+◌, ◌-◌, ◌*◌, Bool, true, false, not, ◌&&◌, Option, none, some, List, [], ◌∷◌, ◌++◌, Text,
  codes, strip, is_blank, text_eq, ◌==◌, contains, length, ltb, lookup, insert, if◌then◌else◌, Exc,
  ExcClass, Result, ok, err, ◌>>=◌,
}
use flow_proxy.Json.{Json, str, obj, Fields, entries}
use flow_proxy.Config.{Config, raises, required_fields}

abbrev pub second : ℕ
second = 1000000

abbrev pub ttl : ℕ
ttl = 3600 * second

abbrev pub margin : ℕ
margin = 300 * second

pub record Entry : Type 0 where
  pub token : Text
  pub expiry : ℕ

-- The class attribute `_cache`, a dict from client ids.
abbrev pub Cache : Type 0
Cache = List (Text × Entry)

-- The JWT payload.
pub record Payload : Type 0 where
  pub client_id : Text
  pub client_secret : Text
  pub tenant : Text

abbrev pub missing_required : Exc
missing_required = raises ExcClass.value_error "Missing required fields"

abbrev pub no_attribute : Exc
no_attribute = raises ExcClass.attribute_error "object has no attribute"

abbrev pub no_key : Exc
no_key = raises ExcClass.key_error "key"

-- `not config.get(f, "").strip()`
lacks_value : Option Json → Result Bool
lacks_value none = ok true
lacks_value (some (str v)) = ok (is_blank v)
lacks_value (some v) = err no_attribute

-- `[f for f in required if not config.get(f, "").strip()]`
missing_in : List Text → Fields → Result (List Text)
unfolding lacks_value
missing_in [] fs = ok []
missing_in (f ∷ rest) fs = do
  lacks ← lacks_value (lookup f (entries fs))
  more ← missing_in rest fs
  ok (if lacks then f ∷ more else more)

check_missing : List Text → Result (Unit {0})
check_missing [] = ok tt
check_missing (f ∷ fs) = err missing_required

-- `config[f]`, for a field that `missing_in` has found to be a string.
text_of : Option Json → Result Text
text_of none = err no_key
text_of (some (str v)) = ok v
text_of (some v) = err no_attribute

-- The payload of a configuration that has all required fields.
pub create_jwt_payload : Fields → Result Payload
unfolding text_of
create_jwt_payload fs = do
  client_id ← text_of (lookup (codes "clientId") (entries fs))
  client_secret ← text_of (lookup (codes "clientSecret") (entries fs))
  tenant ← text_of (lookup (codes "tenant") (entries fs))
  ok (record { client_id = client_id; client_secret = client_secret; tenant = tenant })

unfoldable pub validated_payload : Config → Result Payload
unfolding missing_in check_missing create_jwt_payload
validated_payload (obj fs) = do
  missing ← missing_in required_fields fs
  checked ← check_missing missing
  create_jwt_payload fs
validated_payload config = err no_attribute

-- The first locked block: a cached token that is good for longer than the margin.
fresh : ℕ → Option Entry → Option Text
fresh now none = none
fresh now (some e) = if ltb (now + margin) e.expiry then some e.token else none

unfoldable pub cached_token : Cache → ℕ → Text → Option Text
unfolding fresh
cached_token cache now client_id = fresh now (lookup client_id cache)

-- The second one.
unfoldable pub store : Cache → ℕ → Text → Text → Cache
store cache now client_id token =
    insert client_id (record { token = token; expiry = now + ttl }) cache

module _ (encode : Payload → Text → Result Text) where
  keep : Cache → ℕ → Payload → Result Text → Result Text × Cache
  keep cache now p (ok token) = (ok token, store cache now p.client_id token)
  keep cache now p (err e) = (err e, cache)

  issue : Cache → ℕ → Payload → Option Text → Result Text × Cache
  unfolding keep
  issue cache now p (some token) = (ok token, cache)
  issue cache now p none = keep cache now p (encode p p.client_secret)

  attempt : Cache → ℕ → Result Payload → Result Text × Cache
  unfolding issue
  attempt cache now (ok p) = issue cache now p (cached_token cache now p.client_id)
  attempt cache now (err e) = (err e, cache)

  unfoldable pub generate_token : Cache → ℕ → Config → Result Text × Cache
  unfolding attempt
  generate_token cache now config = attempt cache now (validated_payload config)

abbrev all_in : List Text → List Text → Bool
all_in [] keys = true
all_in (f ∷ rest) keys = contains f keys && all_in rest keys

abbrev is_invalid_token : ExcClass → Bool
is_invalid_token ExcClass.invalid_token_error = true
is_invalid_token _ = false

judge : Result (List Text) → Result Bool
judge (ok decoded) = ok (all_in required_fields decoded)
judge (err e) = if is_invalid_token e.cls then ok false else err e

-- `decode` gives the keys of the claims, or raises.
unfoldable pub validate_token : (Text → Text → Result (List Text)) → Text → Text → Result Bool
unfolding judge
validate_token decode token secret = judge (decode token secret)

pub record CacheStats : Type 0 where
  pub total : ℕ
  pub valid : ℕ
  pub expired : ℕ

count_valid : ℕ → Cache → ℕ
count_valid now [] = 0
count_valid now ((_, e) ∷ rest) =
    let more = count_valid now rest in if ltb (now + margin) e.expiry then more + 1 else more

unfoldable pub get_cache_stats : ℕ → Cache → CacheStats
unfolding count_valid
get_cache_stats now cache = record {
  total = length cache;
  valid = count_valid now cache;
  expired = length cache - count_valid now cache;
}

-- The cache after `clear_cache`, and the number that it logs.
unfoldable pub clear_cache : Cache → Cache × ℕ
clear_cache cache = ([], length cache)
