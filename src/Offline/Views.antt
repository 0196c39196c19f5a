-- ===== src/Offline/Views.antt =====
-- packages/mcp/src/verify.ts: JSON that is read as a `Commitment` and as TIMs.
use arky_foundation.Common.{
  Bool, true, false, ◌&&◌, ◌==◌, if◌then◌else◌, length, List, [], ◌∷◌, Option, none, some, Text,
  codes,
}
use arky_foundation.Json.{
  Value, undefined, num, str, arr, obj, Fields, get, get_field, items, members,
}
use arky_foundation.Number.{Number}
use arky_foundation.Kernel.Types.{
  Window, Require, MeasureSpec, Verb, ConsequenceSpec, Commitment, Tim,
}
use arky_foundation.Kernel.View.{tim_of}

-- all results, if there are all
unfoldable pub every {ℓ κ} : {A : Type ℓ} {B : Type κ} → (A → Option B) → List A → Option (List B)
every f [] = some []
every f (x ∷ xs) = elim (f x) [
  | none ↦ none
  | some y ↦ elim (every f xs) [ none ↦ none | some ys ↦ some (y ∷ ys) ]
]

abbrev text_view : Value → Option Text
text_view (str s) = some s
text_view _ = none

-- a member that may be absent: `none` where it is there with another type
abbrev optional_view {ℓ} : {A : Type ℓ} → (Value → Option A) → Value → Option (Option A)
optional_view f undefined = some none
optional_view f v = elim (f v) [ none ↦ none | some a ↦ some (some a) ]

abbrev number_view : Value → Option Number
number_view (num n) = some n
number_view _ = none

abbrev texts_view : Value → Option (List Text)
texts_view (arr vs) = every text_view (items vs)
texts_view _ = none

unfoldable pub window_of : Value → Option Window
unfolding get
window_of (obj fs) = elim (optional_view text_view (get_field (codes "start") fs)) [
  | none ↦ none
  | some start ↦ elim (optional_view text_view (get_field (codes "end") fs)) [
    | none ↦ none
    | some end ↦ elim (optional_view text_view (get_field (codes "max_age") fs)) [
      | none ↦ none
      | some max_age ↦ some (record { start = start; end = end; max_age = max_age })
    ]
  ]
]
window_of _ = none

unfoldable pub require_of : Value → Option Require
unfolding get every
require_of (obj fs) = elim (optional_view number_view (get_field (codes "min_witnesses") fs)) [
  | none ↦ none
  | some min_witnesses ↦ elim (optional_view texts_view (get_field (codes "device_class") fs)) [
    | none ↦ none
    | some device_class ↦ elim (optional_view texts_view (get_field (codes "code") fs)) [
      | none ↦ none
      | some code ↦
          some (record { min_witnesses = min_witnesses; device_class = device_class; code = code })
    ]
  ]
]
require_of _ = none

unfoldable pub measure_of : Value → Option MeasureSpec
unfolding get window_of require_of
measure_of v = elim (text_view (get (codes "name") v)) [
  | none ↦ none
  | some name ↦ elim (text_view (get (codes "assert") v)) [
    | none ↦ none
    | some assertion ↦ elim (optional_view window_of (get (codes "window") v)) [
      | none ↦ none
      | some window ↦ elim (optional_view require_of (get (codes "require") v)) [
        | none ↦ none
        | some require ↦
            some (record { name = name; assert = assertion; window = window; require = require })
      ]
    ]
  ]
]

abbrev args_view : Value → Option Value
args_view undefined = none
args_view v = some v

-- a verb with a name, arguments and no other member
unfoldable pub verb_of : Value → Option Verb
unfolding get_field
verb_of (obj fs) = elim (text_view (get_field (codes "name") fs)) [
  | none ↦ none
  | some name ↦ elim (args_view (get_field (codes "args") fs)) [
    | none ↦ none
    | some args ↦
        if length (members fs) == 2 then some (record { name = name; args = args }) else none
  ]
]
verb_of _ = none

abbrev verbs_view : Value → Option (List Verb)
verbs_view (arr vs) = every verb_of (items vs)
verbs_view _ = none

unfoldable pub consequence_of : Value → Option ConsequenceSpec
unfolding get every verb_of
consequence_of v = elim (text_view (get (codes "if") v)) [
  | none ↦ none
  | some if_clause ↦ elim (verbs_view (get (codes "then") v)) [
    | none ↦ none
    | some verbs ↦ some (record { if_clause = if_clause; then_verbs = verbs })
  ]
]

-- a member that the Kernel tests with `Array.isArray`
abbrev array_view {ℓ} : {A : Type ℓ} → (Value → Option A) → Value → Option (Option (List A))
array_view f (arr vs) = elim (every f (items vs)) [ none ↦ none | some xs ↦ some (some xs) ]
array_view f _ = some none

-- `none` where a part that the Kernel reads has not the type that the interface gives it
unfoldable pub commitment_view : Value → Option Commitment
unfolding get every measure_of consequence_of
commitment_view v = elim (array_view measure_of (get (codes "measure") v)) [
  | none ↦ none
  | some measure ↦ elim (array_view consequence_of (get (codes "consequence") v)) [
    | none ↦ none
    | some consequence ↦ some (record { measure = measure; consequence = consequence })
  ]
]

abbrev is_text_value : Value → Bool
is_text_value (str s) = true
is_text_value _ = false

abbrev is_optional_text : Value → Bool
is_optional_text undefined = true
is_optional_text v = is_text_value v

abbrev is_optional_list : Value → Bool
is_optional_list undefined = true
is_optional_list (arr vs) = true
is_optional_list _ = false

abbrev is_optional_number : Value → Bool
is_optional_number undefined = true
is_optional_number (num n) = true
is_optional_number _ = false

-- The parts of a TIM that the Kernel reads have the types of the interface.
unfoldable pub is_typed : Fields → Bool
unfolding get_field get
is_typed fs =
    let time = get_field (codes "time") fs in
    let measurement = get_field (codes "measurement") fs in
    is_text_value (get (codes "ts") time)
    && is_optional_list (get (codes "witnesses") time)
    && is_optional_number (get (codes "lamport") (get (codes "ordering") time))
    && is_text_value (get (codes "id") (get_field (codes "identity") fs))
    && is_text_value (get (codes "name") measurement)
    && is_optional_text (get (codes "unit") measurement)
    && is_optional_text (get (codes "device") measurement)
    && is_optional_text (get (codes "code") measurement)
    && is_optional_text (get_field (codes "cid") fs)

unfoldable pub tim_view : Value → Option Tim
unfolding is_typed tim_of
tim_view (obj fs) = if is_typed fs then some (tim_of fs) else none
tim_view _ = none
