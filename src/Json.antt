-- ===== src/Json.antt =====
-- The values of Python's `json`: what `json.loads` and `json5.load` return. A number is kept as
-- its text. A dict keeps its entries in insertion order; `isinstance` tests are the constructors.
use mathlib.Core.Path.{ap₂}
use flow_proxy.Base.{
  ◌≡◌, ◌↔◌, Bool, true, false, ◌&&◌, List, [], ◌∷◌, Text, text_beq, text_beq_iff, HasEq, arith,
}

mutual
  pub data Json : Type 0 where
    null : Json
    bool : Bool → Json
    num : Text → Json
    str : Text → Json
    arr : Items → Json
    obj : Fields → Json

  pub data Items : Type 0 where
    nil : Items
    cons : Json → Items → Items

  pub data Fields : Type 0 where
    end : Fields
    field : Text → Json → Fields → Fields

-- The items of a list, and the entries of a dict.
abbrev pub items : Items → List Json
items nil = []
items (cons v vs) = v ∷ items vs

abbrev pub entries : Fields → List (Text × Json)
entries end = []
entries (field k v fs) = (k, v) ∷ entries fs

abbrev bool_beq : Bool → Bool → Bool
bool_beq true b = b
bool_beq false true = false
bool_beq false false = true

unfoldable mutual
  pub json_beq : Json → Json → Bool
  json_beq null null = true
  json_beq (bool a) (bool b) = bool_beq a b
  json_beq (num a) (num b) = text_beq a b
  json_beq (str a) (str b) = text_beq a b
  json_beq (arr a) (arr b) = items_beq a b
  json_beq (obj a) (obj b) = fields_beq a b
  json_beq _ _ = false

  pub items_beq : Items → Items → Bool
  items_beq nil nil = true
  items_beq (cons v vs) (cons w ws) = json_beq v w && items_beq vs ws
  items_beq _ _ = false

  pub fields_beq : Fields → Fields → Bool
  fields_beq end end = true
  fields_beq (field k v fs) (field j w gs) = text_beq k j && json_beq v w && fields_beq fs gs
  fields_beq _ _ = false

both : (a b : Bool) → (a && b) ≡ true → (a ≡ true) × (b ≡ true)
both a b h = ground arith

both₃ : (a b c : Bool) → (a && b && c) ≡ true → (a ≡ true) × (b ≡ true) × (c ≡ true)
both₃ a b c h = ground arith

cons_inj : {v w : Json} {vs ws : Items} → cons v vs ≡ cons w ws → (v ≡ w) × (vs ≡ ws)
cons_inj q = (cc, cc)

field_inj :
    {k j : Text} {v w : Json} {fs gs : Fields}
    → field k v fs ≡ field j w gs
    → (k ≡ j) × (v ≡ w) × (fs ≡ gs)
field_inj q = (cc, cc, cc)

mutual
  unfolding json_beq items_beq fields_beq

  pub json_beq_lem : (a b : Json) → (json_beq a b ≡ true) ↔ (a ≡ b)
  json_beq_lem (num a) (num b) = ground (arith, text_beq_iff a b)
  json_beq_lem (str a) (str b) = ground (arith, text_beq_iff a b)
  json_beq_lem (arr a) (arr b) = ground (arith, items_beq_lem a b)
  json_beq_lem (obj a) (obj b) = ground (arith, fields_beq_lem a b)
  json_beq_lem a b = ground arith

  items_beq_lem : (a b : Items) → (items_beq a b ≡ true) ↔ (a ≡ b)
  items_beq_lem (cons v vs) (cons w ws) = (
    λ h.
        ap₂ cons ((json_beq_lem v w).0 (both (json_beq v w) (items_beq vs ws) h).0)
          ((items_beq_lem vs ws).0 (both (json_beq v w) (items_beq vs ws) h).1),
    λ q. rw ((json_beq_lem v w).1 (cons_inj q).0, (items_beq_lem vs ws).1 (cons_inj q).1),
  )
  items_beq_lem a b = ground arith

  fields_beq_lem : (a b : Fields) → (fields_beq a b ≡ true) ↔ (a ≡ b)
  fields_beq_lem (field k v fs) (field j w gs) = (
    λ h. λ i.
        field ((text_beq_iff k j).0 (both₃ (text_beq k j) (json_beq v w) (fields_beq fs gs) h).0 i)
          ((json_beq_lem v w).0 (both₃ (text_beq k j) (json_beq v w) (fields_beq fs gs) h).1 i)
          ((fields_beq_lem fs gs).0 (both₃ (text_beq k j) (json_beq v w) (fields_beq fs gs) h).2 i),
    λ q. rw (
      (text_beq_iff k j).1 (field_inj q).0,
      (json_beq_lem v w).1 (field_inj q).1,
      (fields_beq_lem fs gs).1 (field_inj q).2,
    ),
  )
  fields_beq_lem a b = ground arith

-- `==` of two dicts whose entries stand in the same order.
instance abbrev pub json_eq : HasEq Json
json_eq = record { test = json_beq; test_iff = json_beq_lem }
