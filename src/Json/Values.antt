-- ===== src/Json/Values.antt =====
-- The values of the language that the program handles as JSON. An object is its own enumerable
-- properties, in order; a property can hold `undefined`.
use arky_foundation.Common.{
  Bool, true, false, List, [], ◌∷◌, Option, none, some, Text, text_eq, if◌then◌else◌,
}
use arky_foundation.Number.{Number}

mutual
  pub data Value : Type 0 where
    undefined : Value
    null : Value
    bool : Bool → Value
    num : Number → Value
    str : Text → Value
    arr : Items → Value
    obj : Fields → Value

  pub data Items : Type 0 where
    nil : Items
    cons : Value → Items → Items

  pub data Fields : Type 0 where
    end : Fields
    field : Text → Value → Fields → Fields

-- `o[k]` over own properties
unfoldable pub get_field : Text → Fields → Value
unfolding text_eq
get_field k end = undefined
get_field k (field j v fs) = if text_eq j k then v else get_field k fs

-- `a == null ? undefined : a[k]`
unfoldable pub get : Text → Value → Value
unfolding get_field
get k (obj fs) = get_field k fs
get k _ = undefined

abbrev pub as_text : Value → Option Text
as_text (str s) = some s
as_text _ = none

abbrev pub as_number : Value → Option Number
as_number (num n) = some n
as_number _ = none

abbrev pub is_undefined : Value → Bool
is_undefined undefined = true
is_undefined _ = false

abbrev pub items : Items → List Value
items nil = []
items (cons v vs) = v ∷ items vs

abbrev pub of_items : List Value → Items
of_items [] = nil
of_items (v ∷ vs) = cons v (of_items vs)

abbrev pub members : Fields → List (Text × Value)
members end = []
members (field k v fs) = (k, v) ∷ members fs

abbrev pub of_members : List (Text × Value) → Fields
of_members [] = end
of_members ((k, v) ∷ fs) = field k v (of_members fs)

-- the object of a list of properties
abbrev pub object : List (Text × Value) → Value
object fs = obj (of_members fs)

abbrev pub array : List Value → Value
array vs = arr (of_items vs)
