-- ===== src/Base.antt =====
-- Names that the components share: the libraries' and those of the children below.
mod Compare
mod Lists
mod Integers
mod Texts
mod Exceptions
mod Dict
mod Encoding
mod Split
pub use Compare.*
pub use Lists.*
pub use Integers.*
unfoldable pub use Encoding.{utf8, show, starts_with, has_text}
pub use Encoding.{Bytes, IsAscii, utf8-append, utf8_of_ascii}
pub use Texts.{Text, codes, text_beq, text_beq_iff, text_eq}
unfoldable pub use Texts.{is_space, strip, is_blank}
unfoldable pub use Dict.{lookup, insert, delete}
pub use Dict.{lookup-insert, lookup-insert_self}
unfoldable pub use Split.{cut, partition, split, join, keep_if}
pub use Split.{cut-HasNo, cut-none, cut-other, split-join, split-HasNo, keep_if-All, HasNo}
pub use Exceptions.*
pub use Prim.Native.Nat.{ℕ, zero, suc, ◌+◌, ◌-◌, ◌*◌, ◌/◌, ◌%◌, ◌≤◌, ◌<◌}
pub use mathlib.Core.Path.{◌≡◌, refl, sym, ap, subst, ◌∙◌}
pub use mathlib.Core.Logic.{◌≢◌, ◌↔◌, ◌⊎◌, inl, inr}
pub use mathlib.Core.Bool.{Bool, true, false, not, ◌&&◌, ◌||◌}
pub use mathlib.Core.Option.{Option, none, some}
pub use mathlib.Core.List.{List, [], ◌∷◌, ◌++◌, map, append-nil, append_assoc}
pub use native.Mathlib.Omega.{arith}
