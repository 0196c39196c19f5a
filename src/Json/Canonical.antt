-- ===== src/Json/Canonical.antt =====
-- packages/core/src/canonicalize.ts: the canonical text of a value; `none` where the code raises.
use arky_foundation.Common.{
  ℕ, zero, ◌+◌, ◌/◌, ◌%◌, true, false, ltb, ◌==◌, if◌then◌else◌, List, [], ◌∷◌, ◌++◌, map, Option,
  none, some, Text, codes, text_eq,
}
use arky_foundation.Number.{Number, finite}
use arky_foundation.Engine.{Engine}
use arky_foundation.Sorting.{sort}
use arky_foundation.Sorting.Comparison.{compare_texts}
use arky_foundation.Json.Values.{
  Value, undefined, null, bool, num, str, arr, obj, Items, nil, cons, Fields, end, field,
}

-- one digit of `code.toString(16)`
abbrev pub hex_digit : ℕ → ℕ
hex_digit n = if ltb n 10 then b'0' + n else n + 87

-- The escape of one character. A pair of surrogates is copied, like every unit from 0x20 on.
unfoldable pub escape : ℕ → Text
escape c =
    if c == b'"'
    then codes "\\\""
    else if c == 92
    then codes "\\\\"
    else if c == 8
    then codes "\\b"
    else if c == 12
    then codes "\\f"
    else if c == 10
    then codes "\\n"
    else if c == 13
    then codes "\\r"
    else if c == 9
    then codes "\\t"
    else if ltb c 0x20
    then codes "\\u00" ++ (hex_digit (c / 16) ∷ hex_digit (c % 16) ∷ [])
    else c ∷ []

unfoldable pub escape_all : Text → Text
unfolding escape
escape_all [] = []
escape_all (c ∷ s) = escape c ++ escape_all s

unfoldable pub serialize_string : Text → Text
unfolding escape_all
serialize_string s = b'"' ∷ (escape_all s ++ codes "\"")

-- `parts.join(',')`
unfoldable pub join : List Text → Text
join [] = []
join (s ∷ []) = s
join (s ∷ t ∷ ts) = s ++ (b',' ∷ join (t ∷ ts))

abbrev Entries : Type 0
Entries = List (Text × Option Text)

abbrev pub append_entry : Value → Text → Option Text → Entries → Entries
append_entry undefined k t es = es
append_entry _ k t es = (k, t) ∷ es

-- the serialized value of a key
unfoldable pub entry : Text → Entries → Option Text
unfolding text_eq
entry k [] = none
entry k ((j, t) ∷ es) = if text_eq j k then t else entry k es

unfoldable pub parts : Entries → List Text → Option (List Text)
unfolding entry serialize_string
parts es [] = some []
parts es (k ∷ ks) = elim (entry k es) [
  | none ↦ none
  | some t ↦ elim (parts es ks) [
    | none ↦ none
    | some ps ↦ some ((serialize_string k ++ (b':' ∷ t)) ∷ ps)
  ]
]

-- `Object.keys(obj)` in UTF-16 order, and the parts in that order
unfoldable pub join_members : Entries → Option Text
unfolding parts join sort compare_texts
join_members es = elim (parts es (sort compare_texts (map (λ e. e.0) es))) [
  | none ↦ none
  | some ps ↦ some (codes "{" ++ join ps ++ codes "}")
]

unfoldable pub join_elements : Option (List Text) → Option Text
unfolding join
join_elements none = none
join_elements (some ps) = some (codes "[" ++ join ps ++ codes "]")

module _ ⦃engine : Engine⦄ where
  unfoldable pub serialize_number : Number → Option Text
  serialize_number (finite negative zero e) = some (codes "0")
  serialize_number (finite negative s e) = some (engine.text_of_number (finite negative s e))
  serialize_number _ = none

  -- The members of an object that are not `undefined`, each with its serialized value, are computed
  -- before the keys are sorted; a failure of one is a failure of the whole either way.
  unfoldable mutual
    pub serialize : Value → Option Text
    serialize undefined = none
    serialize null = some (codes "null")
    serialize (bool true) = some (codes "true")
    serialize (bool false) = some (codes "false")
    serialize (num n) = serialize_number n
    serialize (str s) = some (serialize_string s)
    serialize (arr vs) = join_elements (serialize_items vs)
    serialize (obj fs) = join_members (serialize_fields fs)

    pub serialize_items : Items → Option (List Text)
    serialize_items nil = some []
    serialize_items (cons v vs) = elim (serialize v) [
      | none ↦ none
      | some t ↦ elim (serialize_items vs) [ none ↦ none | some ts ↦ some (t ∷ ts) ]
    ]

    pub serialize_fields : Fields → Entries
    serialize_fields end = []
    serialize_fields (field k v fs) = append_entry v k (serialize v) (serialize_fields fs)

  unfoldable pub canonicalize : Value → Option Text
  unfolding serialize serialize_number serialize_string join_members join_elements
  canonicalize v = serialize v
