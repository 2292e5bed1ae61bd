-- ===== src/Value.antt =====
-- JSON and YAML values, as the code reads them after decoding. A number is an integer; a mapping keeps
-- its keys in order, and the first of two equal keys counts.
use patch_quest.Common.{
  ℕ, zero, suc, Bool, true, false, not, ◌&&◌, Option, none, some, List, [], ◌∷◌, ltb, ◌==◌,
  if◌then◌else◌, nat_eq, string_eq,
}
use patch_quest.Text.{Text, text_beq}

-- An integer: `negsuc n` is -(n + 1).

pub data ℤ : Type 0 where
  pos : ℕ → ℤ
  negsuc : ℕ → ℤ

mutual
  pub data Value : Type 0 where
    null : Value
    boolean : Bool → Value
    number : ℤ → Value
    text : Text → Value
    array : Items → Value
    mapping : Fields → Value

  pub data Items : Type 0 where
    nil : Items
    item : Value → Items → Items

  pub data Fields : Type 0 where
    end : Fields
    field : Text → Value → Fields → Fields

unfoldable pub get : Fields → Text → Option Value
unfolding text_beq
get end k = none
get (field j v fs) k = let rest = get fs k in if text_beq j k then some v else rest

unfoldable pub count_items : Items → ℕ
count_items nil = 0
count_items (item v vs) = suc (count_items vs)

unfoldable pub count_fields : Fields → ℕ
count_fields end = 0
count_fields (field k v fs) = suc (count_fields fs)

unfoldable pub item_at : Items → ℕ → Option Value
item_at nil i = none
item_at (item v vs) zero = some v
item_at (item v vs) (suc i) = item_at vs i

unfoldable pub keys : Fields → List Text
keys end = []
keys (field k v fs) = k ∷ keys fs

abbrev pub integer_beq : ℤ → ℤ → Bool
integer_beq (pos a) (pos b) = a == b
integer_beq (negsuc a) (negsuc b) = a == b
integer_beq _ _ = false

-- `a < b`
abbrev pub integer_less : ℤ → ℤ → Bool
integer_less (pos a) (pos b) = ltb a b
integer_less (pos a) (negsuc b) = false
integer_less (negsuc a) (pos b) = true
integer_less (negsuc a) (negsuc b) = ltb b a

-- A boolean counts as 0 or 1 where numbers are compared.
abbrev pub as_integer : Bool → ℤ
as_integer true = pos 1
as_integer false = pos 0

-- `a == b`; mappings are equal whatever the order of their keys.
unfoldable mutual
  unfolding text_beq get

  pub value_beq : Value → Value → Bool
  value_beq null null = true
  value_beq (boolean a) (boolean b) = integer_beq (as_integer a) (as_integer b)
  value_beq (boolean a) (number b) = integer_beq (as_integer a) b
  value_beq (number a) (boolean b) = integer_beq a (as_integer b)
  value_beq (number a) (number b) = integer_beq a b
  value_beq (text a) (text b) = text_beq a b
  value_beq (array a) (array b) = items_beq a b
  value_beq (mapping a) (mapping b) = count_fields a == count_fields b && fields_within a b
  value_beq _ _ = false

  pub items_beq : Items → Items → Bool
  items_beq nil nil = true
  items_beq (item a as') (item b bs) = value_beq a b && items_beq as' bs
  items_beq _ _ = false

  pub fields_within : Fields → Fields → Bool
  fields_within end g = true
  fields_within (field k v fs) g =
      (elim (get g k) [ none ↦ false | some w ↦ value_beq v w ]) && fields_within fs g

-- `bool(v)`
unfoldable pub truthy : Value → Bool
truthy null = false
truthy (boolean b) = b
truthy (number n) = not (integer_beq n (pos 0))
truthy (text []) = false
truthy (text (c ∷ t)) = true
truthy (array nil) = false
truthy (array (item v vs)) = true
truthy (mapping end) = false
truthy (mapping (field k v fs)) = true
