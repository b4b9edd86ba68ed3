-- ===== src/Base/Exceptions.antt =====
-- Python exceptions as values, and code that may raise one.
use mathlib.Core.Path.{◌≡◌, refl}
use mathlib.Core.Bool.{Bool, true, false}
use mathlib.Core.Option.{some}
use mathlib.Core.Logic.{◌⊎◌, inl, inr}
use flow_proxy.Base.Texts.{Text}

-- The exception classes that the program raises, catches or tests for.
pub data ExcClass : Type 0 where
  value_error json_decode_error unicode_decode_error : ExcClass
  runtime_error not_implemented_error : ExcClass
  os_error file_not_found_error connection_error timeout_error : ExcClass
  lookup_error key_error index_error : ExcClass
  type_error attribute_error : ExcClass
  transport_error connect_error remote_protocol_error : ExcClass
  invalid_token_error : ExcClass
  other_error : ExcClass

pub record Exc : Type 0 where
  pub cls : ExcClass
  pub message : Text

pub data Result {ℓ} (A : Type ℓ) : Type ℓ where
  ok : A → Result A
  err : Exc → Result A

-- The base class of each class, as far as the program's `except` clauses and `isinstance` tests
-- reach; `Exception` itself is not listed.
abbrev pub is_value_error : ExcClass → Bool
is_value_error value_error = true
is_value_error json_decode_error = true
is_value_error unicode_decode_error = true
is_value_error _ = false

abbrev pub is_runtime_error : ExcClass → Bool
is_runtime_error runtime_error = true
is_runtime_error not_implemented_error = true
is_runtime_error _ = false

abbrev pub is_transport_error : ExcClass → Bool
is_transport_error transport_error = true
is_transport_error connect_error = true
is_transport_error remote_protocol_error = true
is_transport_error _ = false

pub Result-cases {ℓ} :
    {A : Type ℓ} (r : Result A) → ((a : A) × (r ≡ ok a)) ⊎ ((e : Exc) × (r ≡ err e))
Result-cases (ok a) = inl (a, refl)
Result-cases (err e) = inr (e, refl)

pub ok_inj {ℓ} : {A : Type ℓ} {a b : A} → ok a ≡ ok b → a ≡ b
ok_inj h = cc

pub some_inj {ℓ} : {A : Type ℓ} {a b : A} → some a ≡ some b → a ≡ b
some_inj h = cc

pub err_inj {ℓ} : (A : Type ℓ) {a b : Exc} → ◌≡◌ {A = Result A} (err a) (err b) → a ≡ b
err_inj A h = cc

-- Statements in order: the first that raises ends the block.
infixl 5 ◌>>=◌
abbrev pub ◌>>=◌ {ℓ κ} : {A : Type ℓ} {B : Type κ} → Result A → (A → Result B) → Result B
ok a >>= f = f a
err e >>= f = err e
