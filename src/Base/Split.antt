-- ===== src/Base/Split.antt =====
-- `str.split` and `str.join` for a separator of one character, and list comprehensions.
use Prim.Native.Nat.{ℕ}
use mathlib.Core.Path.{◌≡◌, refl}
use mathlib.Core.Logic.{◌≢◌, ◌⊎◌, inl, inr}
use mathlib.Core.Bool.{Bool, true, false}
use mathlib.Core.Option.{Option, none, some}
use mathlib.Core.List.{List, [], ◌∷◌, ◌++◌}
use flow_proxy.Base.Compare.{nat_beq, nat_beq_iff, Bool-cases, if◌then◌else◌}
use flow_proxy.Base.Lists.{All, length, drop}
use flow_proxy.Base.Encoding.{starts_with}
use flow_proxy.Base.Texts.{Text}

front_of : ℕ → Option (Text × Text) → Option (Text × Text)
front_of c none = none
front_of c (some (a, b)) = some (c ∷ a, b)

-- The parts before and after the first separator, none where there is no separator.
unfoldable pub cut : ℕ → Text → Option (Text × Text)
unfolding front_of
cut sep [] = none
cut sep (c ∷ s) = let rest = cut sep s in if nat_beq c sep then some ([], s) else front_of c rest

-- `str.partition` for a longer separator, none where it does not occur.
unfoldable pub partition : Text → Text → Option (Text × Text)
unfolding front_of starts_with
partition sep [] = none
partition sep (c ∷ s) =
    let rest = partition sep s in
    if starts_with (c ∷ s) sep then some ([], drop (length sep) (c ∷ s)) else front_of c rest

push : ℕ → List Text → List Text
push c [] = (c ∷ []) ∷ []
push c (t ∷ ts) = (c ∷ t) ∷ ts

-- `s.split(sep)`
unfoldable pub split : ℕ → Text → List Text
unfolding push
split sep [] = [] ∷ []
split sep (c ∷ s) = let rest = split sep s in if nat_beq c sep then [] ∷ rest else push c rest

-- `sep.join(ts)`
unfoldable pub join : ℕ → List Text → Text
join sep [] = []
join sep (t ∷ []) = t
join sep (t ∷ u ∷ ts) = t ++ sep ∷ join sep (u ∷ ts)

-- `[t for t in ts if p(t)]`
unfoldable pub keep_if {ℓ} : {A : Type ℓ} → (A → Bool) → List A → List A
keep_if p [] = []
keep_if p (x ∷ xs) = let rest = keep_if p xs in if p x then x ∷ rest else rest

-- The separator does not occur.
abbrev pub HasNo : ℕ → Text → Type 0
HasNo sep = All (λ c. nat_beq c sep ≡ false)

pub cut-HasNo : (sep : ℕ) (a b : Text) → HasNo sep a → cut sep (a ++ sep ∷ b) ≡ some (a, b)
unfolding cut
cut-HasNo sep [] b h = rw ((nat_beq_iff sep sep).1 refl) refl
cut-HasNo sep (c ∷ a) b h = rw (h.0, cut-HasNo sep a b h.1) refl

none_inv : (c : ℕ) (o : Option (Text × Text)) → front_of c o ≡ none → o ≡ none
unfolding front_of
none_inv c none h = refl
none_inv c (some (a, b)) h = cc

pub cut-none : (sep : ℕ) (s : Text) → HasNo sep s → cut sep s ≡ none
unfolding cut
cut-none sep [] h = refl
cut-none sep (c ∷ s) h = rw (h.0, cut-none sep s h.1) refl

-- A text has no separator, or is cut into a part without one and a rest.
pub cut-other :
    (sep : ℕ) (s : Text)
    → (cut sep s ≡ none) × HasNo sep s
      ⊎ ((a : Text) × (b : Text) × (cut sep s ≡ some (a, b)) × HasNo sep a)
unfolding cut
cut-other sep [] = inl (refl, tt)
cut-other sep (c ∷ s) = elim (Bool-cases (nat_beq c sep)) [
  | inl e ↦ inr ([], s, rw e refl, tt)
  | inr e ↦ elim (cut-other sep s) [
    | inl (n, h) ↦ inl (rw (e, n) refl, (e, h))
    | inr (a, b, q, h) ↦ inr (c ∷ a, b, rw (e, q) refl, (e, h))
  ]
]

push-append :
    (sep : ℕ) (t : Text) (s : Text) → HasNo sep t → split sep (t ++ sep ∷ s) ≡ t ∷ split sep s
unfolding split
push-append sep [] s h = rw ((nat_beq_iff sep sep).1 refl) refl
push-append sep (c ∷ t) s h = rw (h.0, push-append sep t s h.1) refl

split-single : (sep : ℕ) (t : Text) → HasNo sep t → split sep t ≡ t ∷ []
unfolding split
split-single sep [] h = refl
split-single sep (c ∷ t) h = rw (h.0, split-single sep t h.1) refl

-- Splitting what was joined gives the parts, where there is one and none has the separator.
pub split-join :
    (sep : ℕ) (ts : List Text) → ts ≢ [] → All (HasNo sep) ts → split sep (join sep ts) ≡ ts
unfolding join
split-join sep [] n h = absurd (n refl)
split-join sep (t ∷ []) n h = split-single sep t h.0
split-join sep (t ∷ u ∷ ts) n h =
    rw (push-append sep t (join sep (u ∷ ts)) h.0, split-join sep (u ∷ ts) (λ q. cc) h.1) refl

push-HasNo :
    (sep c : ℕ) (ts : List Text)
    → nat_beq c sep ≡ false
    → All (HasNo sep) ts
    → All (HasNo sep) (push c ts)
unfolding push
push-HasNo sep c [] e h = ((e, tt), tt)
push-HasNo sep c (t ∷ ts) e h = ((e, h.0), h.1)

pub split-HasNo : (sep : ℕ) (s : Text) → All (HasNo sep) (split sep s)
unfolding split
split-HasNo sep [] = (tt, tt)
split-HasNo sep (c ∷ s) = elim (Bool-cases (nat_beq c sep)) [
  | inl e ↦ rw e (tt, split-HasNo sep s)
  | inr e ↦ rw e (push-HasNo sep c (split sep s) e (split-HasNo sep s))
]

-- What is kept passes the test, and has what all had.
pub keep_if-All {ℓ κ} :
    {A : Type ℓ} (p : A → Bool) (P : A → Type κ) (xs : List A)
    → All P xs
    → All P (keep_if p xs) × All (λ x. p x ≡ true) (keep_if p xs)
unfolding keep_if
keep_if-All p P [] h = (tt, tt)
keep_if-All p P (x ∷ xs) h =
    let (k, t) = keep_if-All p P xs h.1 in
    elim (Bool-cases (p x)) [ inl e ↦ rw e ((h.0, k), (e, t)) | inr e ↦ rw e (k, t) ]
