-- ===== src/Offline/Values.antt =====
-- packages/mcp/src/verify.ts: what the language does with values of any type: comparison, sets,
-- iteration and texts.
use arky_foundation.Common.{
  ℕ, suc, Bool, true, false, ◌&&◌, if◌then◌else◌, between, List, [], ◌∷◌, ◌++◌, reverse, any,
  Option, none, some, Text, text_eq, starts_with, Run, returns, throws,
}
use arky_foundation.Number.{num_eq, integer}
use arky_foundation.Engine.{Engine}
use arky_foundation.Json.{
  Value, undefined, null, bool, num, str, arr, obj, Fields, end, field, items,
}
use arky_foundation.Proxy.Message.{string_of}

abbrev same_bool : Bool → Bool → Bool
same_bool true b = b
same_bool false true = false
same_bool false false = true

-- `a === b`, for values that are read separately: no two objects are the same.
unfoldable pub same_value : Value → Value → Bool
unfolding text_eq num_eq
same_value undefined undefined = true
same_value null null = true
same_value (bool a) (bool b) = same_bool a b
same_value (num a) (num b) = num_eq a b
same_value (str a) (str b) = text_eq a b
same_value _ _ = false

unfoldable pub includes_value : Value → List Value → Bool
unfolding same_value
includes_value v vs = any (same_value v) vs

-- `new Set(vs)`
unfoldable pub set_of : List Value → List Value
unfolding includes_value
set_of [] = []
set_of (v ∷ vs) = let rest = set_of vs in if includes_value v vs then rest else v ∷ rest

-- `m.get(k)` and `m.set(k, v)`, over entries in the order of their insertion
unfoldable pub get_value {ℓ} : {A : Type ℓ} → Value → List (Value × A) → Option A
unfolding same_value
get_value k [] = none
get_value k ((j, v) ∷ m) = if same_value j k then some v else get_value k m

unfoldable pub set_value {ℓ} : {A : Type ℓ} → Value → A → List (Value × A) → List (Value × A)
unfolding same_value
set_value k v [] = (k, v) ∷ []
set_value k v ((j, w) ∷ m) = if same_value j k then (j, v) ∷ m else (j, w) ∷ set_value k v m

-- the code points of a text, each as a text
unfoldable pub code_points : Text → List Value
code_points [] = []
code_points (a ∷ []) = str (a ∷ []) ∷ []
code_points (a ∷ b ∷ s) =
    let single = str (a ∷ []) ∷ code_points (b ∷ s) in
    if between 0xd800 0xdbff a && between 0xdc00 0xdfff b
    then str (a ∷ b ∷ []) ∷ code_points s
    else single

-- the elements over which `v ?? []` iterates
unfoldable pub elements : Value → Run (List Value)
unfolding code_points
elements undefined = returns []
elements null = returns []
elements (arr vs) = returns (items vs)
elements (str s) = returns (code_points s)
elements _ = throws

-- `x ?? ''`
abbrev pub or_empty_text : Value → Value
or_empty_text undefined = str []
or_empty_text null = str []
or_empty_text v = v

unfoldable pub ends_with : Text → Text → Bool
unfolding starts_with
ends_with p s = starts_with (reverse p) (reverse s)

-- `xs.join(sep)`
unfoldable pub join_with : Text → List Text → Text
join_with sep [] = []
join_with sep (x ∷ []) = x
join_with sep (x ∷ y ∷ xs) = x ++ (sep ++ join_with sep (y ∷ xs))

module _ ⦃engine : Engine⦄ where
  -- `${v}`
  unfoldable pub text_of : Value → Run Text
  unfolding string_of
  text_of v = elim (string_of v) [ none ↦ throws | some s ↦ returns s ]

  abbrev character_fields : ℕ → Text → Fields
  character_fields i [] = end
  character_fields i (c ∷ s) =
      field (engine.text_of_number (integer i)) (str (c ∷ [])) (character_fields (suc i) s)

  abbrev element_fields : ℕ → List Value → Fields
  element_fields i [] = end
  element_fields i (v ∷ vs) =
      field (engine.text_of_number (integer i)) v (element_fields (suc i) vs)

  -- the properties that `const { ...rest } = v` copies
  unfoldable pub own_properties : Value → Run Fields
  own_properties undefined = throws
  own_properties null = throws
  own_properties (bool b) = returns end
  own_properties (num n) = returns end
  own_properties (str s) = returns (character_fields 0 s)
  own_properties (arr vs) = returns (element_fields 0 (items vs))
  own_properties (obj fs) = returns fs

-- `v.k` raises on `undefined` and `null`.
abbrev pub checked {ℓ} : {A : Type ℓ} → Value → Run A → Run A
checked undefined r = throws
checked null r = throws
checked _ r = r
