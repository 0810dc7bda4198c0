-- ===== src/Json.antt =====
-- A parsed JSON document. A number that is no integer is kept as Python shows it, and of a key that
-- stands twice in an object the parser has kept the last value.
use mathlib.Core.Option.{some-injective}
use hh_ai_v.Base.{
  ◌≡◌, ap, ◌↔◌, Bool, true, false, Option, none, some, List, [], ◌∷◌, arith, ℤ, if◌then◌else◌, Text,
  text_eq, text_eq_iff,
}

mutual
  pub data Json : Type 0 where
    null : Json
    boolean : Bool → Json
    integer : ℤ → Json
    real : Text → Json
    string : Text → Json
    array : Items → Json
    object : Fields → Json

  pub data Items : Type 0 where
    no_items : Items
    item : Json → Items → Items

  pub data Fields : Type 0 where
    no_fields : Fields
    field : Text → Json → Fields → Fields

-- the elements as a list
unfoldable pub items_of : Items → List Json
items_of no_items = []
items_of (item x xs) = x ∷ items_of xs

unfoldable pub lookup : Text → Fields → Option Json
lookup key no_fields = none
lookup key (field k x fs) = let rest = lookup key fs in if text_eq key k then some x else rest

-- `value.get(key)` of a dictionary; None is `null`
unfoldable pub get_field : Text → Fields → Json
get_field key fs = elim (lookup key fs) [ none ↦ null | some x ↦ x ]

-- `isinstance(value, dict)`, with its fields
unfoldable pub as_object : Json → Option Fields
as_object (object fs) = some fs
as_object _ = none

-- `isinstance(value, list)`, with its elements
unfoldable pub as_array : Json → Option (List Json)
as_array (array xs) = some (items_of xs)
as_array _ = none

-- `isinstance(value, str)`
unfoldable pub as_text : Json → Option Text
as_text (string t) = some t
as_text _ = none

-- `value == t` for a string
unfoldable pub equals_text : Json → Text → Bool
equals_text (string u) t = text_eq u t
equals_text _ t = false

pub equals_text_iff : (x : Json) (t : Text) → (equals_text x t ≡ true) ↔ (x ≡ string t)
unfolding equals_text
equals_text_iff null t = ground arith
equals_text_iff (boolean b) t = ground arith
equals_text_iff (integer n) t = ground arith
equals_text_iff (real r) t = ground arith
equals_text_iff (string u) t = ground (arith, text_eq_iff u t)
equals_text_iff (array xs) t = ground arith
equals_text_iff (object fs) t = ground arith

-- the objects among the values
unfoldable pub objects_of : List Json → List Fields
objects_of [] = []
objects_of (x ∷ xs) =
    let rest = objects_of xs in elim (as_object x) [ none ↦ rest | some fs ↦ fs ∷ rest ]

pub as_object-eq : (x : Json) {fs : Fields} → as_object x ≡ some fs → x ≡ object fs
unfolding as_object
as_object-eq null h = absurd (ground arith)
as_object-eq (boolean b) h = absurd (ground arith)
as_object-eq (integer n) h = absurd (ground arith)
as_object-eq (real r) h = absurd (ground arith)
as_object-eq (string u) h = absurd (ground arith)
as_object-eq (array xs) h = absurd (ground arith)
as_object-eq (object gs) {fs} h = ap object (some-injective gs fs h)
