-- ===== src/Config.antt =====
-- flow_proxy_plugin/core/config.py: reading and validating the authentication configurations.
-- A configuration is a JSON value. The file system and `json5.load` are parameters; the error
-- list, which is a field of the manager, is returned. Log lines are left out.
pub mod Validation
pub mod Tests
use Prim.Native.String.{String}
use flow_proxy.Base.{
  ℕ, Bool, true, false, not, ◌&&◌, ◌||◌, Option, none, some, List, [], ◌∷◌, ◌++◌, Text, codes,
  is_blank, text_eq, lookup, if◌then◌else◌, Exc, ExcClass, is_value_error, Result, ok, err,
}
use flow_proxy.Json.{Json, null, bool, num, str, arr, obj, Fields, items, entries}

abbrev pub Config : Type 0
Config = Json

abbrev pub raises : ExcClass → String → Exc
raises cls message = record { cls = cls; message = codes message }

abbrev pub required_fields : List Text
required_fields = codes "clientId" ∷ codes "clientSecret" ∷ codes "tenant" ∷ []

-- The messages that `validate_single_config` collects, by their kind and their argument.
pub data ValidationError : Type 0 where
  not_a_dict : ValidationError
  missing_fields : List Text → ValidationError
  not_a_string : Text → ValidationError
  empty_field : Text → ValidationError

-- `[field for field in required_fields if field not in config]`
note_missing : Text → Option Json → List Text → List Text
note_missing f none rest = f ∷ rest
note_missing f (some v) rest = rest

missing_of : List Text → Fields → List Text
unfolding note_missing
missing_of [] fs = []
missing_of (f ∷ rest) fs = note_missing f (lookup f (entries fs)) (missing_of rest fs)

missing_errors : List Text → List ValidationError
missing_errors [] = []
missing_errors (f ∷ fs) = missing_fields (f ∷ fs) ∷ []

value_errors : Text → Option Json → List ValidationError
value_errors f none = []
value_errors f (some (str value)) = if is_blank value then empty_field f ∷ [] else []
value_errors f (some value) = not_a_string f ∷ []

field_errors : List Text → Fields → List ValidationError
field_errors [] fs = []
field_errors (f ∷ rest) fs = value_errors f (lookup f (entries fs)) ++ field_errors rest fs

single_errors : Json → List ValidationError
unfolding missing_of missing_errors value_errors field_errors
single_errors (obj fs) =
    missing_errors (missing_of required_fields fs) ++ field_errors required_fields fs
single_errors config = not_a_dict ∷ []

no_errors : List ValidationError → Bool
no_errors [] = true
no_errors (e ∷ es) = false

-- The result, and the errors that the manager then holds.
unfoldable pub validate_single_config : Json → Bool × List ValidationError
unfolding single_errors no_errors
validate_single_config config = (no_errors (single_errors config), single_errors config)

-- Every configuration is looked at, also after one that is invalid.
unfoldable pub validate_secrets : List Json → Bool
unfolding validate_single_config
validate_secrets [] = true
validate_secrets (c ∷ cs) = (validate_single_config c).0 && validate_secrets cs

abbrev pub not_an_array : Exc
not_an_array = raises ExcClass.value_error "Secrets file must contain an array"

abbrev pub empty_array : Exc
empty_array =
    raises ExcClass.value_error
      "Secrets array cannot be empty - at least one authentication configuration is required"

abbrev pub invalid_configs : Exc
invalid_configs =
    raises ExcClass.value_error "One or more authentication configurations are invalid"

abbrev pub not_found : Exc
not_found = raises ExcClass.file_not_found_error "Secrets file not found at resolved path"

abbrev pub invalid_json : Exc
invalid_json = raises ExcClass.value_error "Invalid JSON format in secrets file"

abbrev pub unexpected : Exc
unexpected = raises ExcClass.value_error "Unexpected error loading secrets file"

non_empty : List Json → Result (List Json)
non_empty [] = err empty_array
non_empty (c ∷ cs) = if validate_secrets (c ∷ cs) then ok (c ∷ cs) else err invalid_configs

check_secrets : Json → Result (List Json)
unfolding non_empty
check_secrets (arr vs) = non_empty (items vs)
check_secrets other = err not_an_array

abbrev is_file_not_found : ExcClass → Bool
is_file_not_found ExcClass.file_not_found_error = true
is_file_not_found _ = false

-- A ValueError becomes "Invalid JSON"; a file that vanished stays what it is; all else is wrapped.
read_error : Exc → Exc
read_error e =
    if is_value_error e.cls then invalid_json else if is_file_not_found e.cls then e else unexpected

abbrev is_json_decode : ExcClass → Bool
is_json_decode ExcClass.json_decode_error = true
is_json_decode _ = false

-- What the outer handlers make of an error of the path.
path_error : Exc → Exc
path_error e =
    if is_json_decode e.cls
    then invalid_json
    else if is_value_error e.cls
    then e
    else if is_file_not_found e.cls
    then e
    else unexpected

-- What `_resolve_config_path` and then `exists()` give, and what opening the file and `json5.load`
-- give.
unfoldable pub load_secrets : Result Bool → Result Json → Result (List Json)
unfolding check_secrets read_error path_error
load_secrets (err e) read = err (path_error e)
load_secrets (ok false) read = err not_found
load_secrets (ok true) (ok secrets_data) = check_secrets secrets_data
load_secrets (ok true) (err e) = err (read_error e)

-- The file system as `_resolve_config_path` asks it.
pub record Paths {ℓ} (Path' : Type ℓ) : Type ℓ where
  pub is_absolute : Path' → Bool
  pub exists : Path' → Bool
  pub resolve : Path' → Path'
  pub in_package : Path' → Path'

unfoldable pub resolve_config_path {ℓ} : {P : Type ℓ} → Paths P → P → P
resolve_config_path fs path =
    if fs.is_absolute path
    then path
    else if fs.exists path
    then fs.resolve path
    else if fs.exists (fs.in_package path)
    then fs.resolve (fs.in_package path)
    else fs.resolve path
