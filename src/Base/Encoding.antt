-- ===== src/Base/Encoding.antt =====
-- `str.encode()`, decimal numerals and the tests `in` and `startswith` on texts.
use Prim.Native.Nat.{ℕ, zero, suc, ◌+◌, ◌/◌, ◌%◌, ◌<◌}
use mathlib.Core.Bool.{Bool, true, false, ◌&&◌, ◌||◌}
use mathlib.Core.Path.{◌≡◌, refl, sym}
use mathlib.Core.List.{List, [], ◌∷◌, ◌++◌, append_assoc}
use native.Mathlib.Omega.{arith}
use flow_proxy.Base.Lists.{All}
use flow_proxy.Base.Compare.{ltb, nat_beq, if◌then◌else◌, if_true}
use flow_proxy.Base.Texts.{Text}

abbrev pub Bytes : Type 0
Bytes = List ℕ

-- UTF-8 of one code point. A lone surrogate, for which `encode` raises, is not told apart.
pub encode_char : ℕ → Bytes
encode_char c =
    if ltb c 0x80
    then c ∷ []
    else if ltb c 0x800
    then (0xc0 + c / 0x40) ∷ (0x80 + c % 0x40) ∷ []
    else if ltb c 0x10000
    then (0xe0 + c / 0x1000) ∷ (0x80 + c / 0x40 % 0x40) ∷ (0x80 + c % 0x40) ∷ []
    else (0xf0 + c / 0x40000)
      ∷ (0x80 + c / 0x1000 % 0x40)
      ∷ (0x80 + c / 0x40 % 0x40)
      ∷ (0x80 + c % 0x40)
      ∷ []

-- `s.encode()`
unfoldable pub utf8 : Text → Bytes
unfolding encode_char
utf8 [] = []
utf8 (c ∷ s) = encode_char c ++ utf8 s

pub utf8-append : (s t : Text) → utf8 (s ++ t) ≡ utf8 s ++ utf8 t
unfolding utf8
utf8-append [] t = refl
utf8-append (c ∷ s) t = rw (utf8-append s t) (sym (append_assoc (encode_char c) (utf8 s) (utf8 t)))

-- Every code point is one of ASCII.
abbrev pub IsAscii : Text → Type 0
IsAscii t = All (λ c. c < 128) t

encode_ascii : (c : ℕ) → c < 128 → encode_char c ≡ c ∷ []
unfolding encode_char
encode_ascii c h = if_true (λ b. b ≡ c ∷ []) (ltb c 0x80) _ _ (ground arith) refl

pub utf8_of_ascii : (t : Text) → IsAscii t → utf8 t ≡ t
unfolding utf8
utf8_of_ascii [] a = refl
utf8_of_ascii (c ∷ t) a = rw (encode_ascii c a.0, utf8_of_ascii t a.1) refl

digits : ℕ → ℕ → Text → Text
digits zero n acc = acc
digits (suc fuel) n acc =
    let rest = digits fuel (n / 10) ((48 + n % 10) ∷ acc) in
    if ltb n 10 then (48 + n) ∷ acc else rest

-- `str(n)`: a number has at most as many digits as its value and one more.
unfoldable pub show : ℕ → Text
unfolding digits
show n = digits (suc n) n []

-- `s.startswith(t)`
unfoldable pub starts_with : Text → Text → Bool
starts_with s [] = true
starts_with [] (d ∷ t) = false
starts_with (c ∷ s) (d ∷ t) = nat_beq c d && starts_with s t

-- `t in s`
unfoldable pub has_text : Text → Text → Bool
unfolding starts_with
has_text [] t = starts_with [] t
has_text (c ∷ s) t = starts_with (c ∷ s) t || has_text s t
