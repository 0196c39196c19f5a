-- ===== src/Json/Parse.antt =====
-- packages/core/src/parse.ts: the parser that refuses an object with two members of one name.
use arky_foundation.Common.{
  ℕ, zero, suc, ◌+◌, ◌*◌, Bool, true, false, ◌||◌, ◌==◌, if◌then◌else◌, List, [], ◌∷◌, ◌++◌, Option,
  none, some, Text, codes, text_eq, includes, starts_with, drop, length, between,
}
use arky_foundation.Number.{is_nan}
use arky_foundation.Engine.{Engine}
use arky_foundation.Platform.{Platform}
use arky_foundation.Assert.Syntax.{Outcome, ok, thrown, out_of_fuel, ◌>>=◌}
use arky_foundation.Json.Values.{
  Value, null, bool, num, str, arr, obj, Items, nil, cons, Fields, end, field,
}

abbrev pub is_space : ℕ → Bool
is_space c = c == b' ' || (c == 9 || (c == 10 || c == 13))

-- `ws`
unfoldable pub skip_space : Text → Text
skip_space [] = []
skip_space (c ∷ s) = if is_space c then skip_space s else c ∷ s

abbrev pub prefixed : Text → Option (Text × Text) → Option (Text × Text)
prefixed p none = none
prefixed p (some (s, rest)) = some (p ++ s, rest)

-- the literal up to its closing quote, and the text behind it
unfoldable pub scan_string : Text → Option (Text × Text)
scan_string [] = none
scan_string (c ∷ []) = if c == b'"' then some (c ∷ [], []) else none
scan_string (c ∷ d ∷ s) =
    let escaped = prefixed (c ∷ d ∷ []) (scan_string s) in
    let plain = prefixed (c ∷ []) (scan_string (d ∷ s)) in
    if c == 92 then escaped else if c == b'"' then some (c ∷ [], d ∷ s) else plain

abbrev pub is_number_char : ℕ → Bool
is_number_char c =
    between b'0' b'9' c || (c == b'.' || (c == b'e' || (c == b'E' || (c == b'+' || c == b'-'))))

unfoldable pub scan_number : Text → Text × Text
scan_number [] = ([], [])
scan_number (c ∷ s) =
    let (digits, rest) = scan_number s in
    if is_number_char c then (c ∷ digits, rest) else ([], c ∷ s)

-- `obj[key] = value`: for `__proto__` this sets the prototype, and adds no member.
unfoldable pub assign_member : Text → Value → Fields → Fields
unfolding text_eq
assign_member key v fs = if text_eq key (codes "__proto__") then fs else field key v fs

module _ ⦃engine : Engine⦄ ⦃platform : Platform⦄ where
  -- `string`, behind the opening quote; `JSON.parse` reads the literal
  unfoldable pub parse_string : Text → Outcome (Text × Text)
  unfolding scan_string
  parse_string s = elim (scan_string s) [
    | none ↦ thrown (codes "unterminated string")
    | some (literal, rest) ↦ elim (platform.parse_json (b'"' ∷ literal)) [
      | some (str t) ↦ ok (t, rest)
      | _ ↦ thrown (codes "bad string")
    ]
  ]

  -- `number`; all that stands at the start but a sign is in the run of characters
  unfoldable pub parse_number : Text → Outcome (Value × Text)
  unfolding scan_number
  parse_number s =
      let (digits, rest) = scan_number s in
      let n = engine.number_of_text digits in
      if is_nan n then thrown (codes "bad number") else ok (num n, rest)

  abbrev pub text_value : Text × Text → Value × Text
  text_value (t, rest) = (str t, rest)

  abbrev pub parse_word : Text → Outcome (Value × Text)
  parse_word s =
      if starts_with (codes "true") s
      then ok (bool true, drop 4 s)
      else if starts_with (codes "false") s
      then ok (bool false, drop 5 s)
      else if starts_with (codes "null") s
      then ok (null, drop 4 s)
      else thrown (codes "unexpected token")

  -- what the first character of a value announces
  pub data Start : Type 0 where
    brace bracket quote numeric word : Start

  abbrev pub start_of : ℕ → Start
  start_of c =
      if c == b'{'
      then brace
      else if c == b'['
      then bracket
      else if c == b'"'
      then quote
      else if c == b'-' || between b'0' b'9' c
      then numeric
      else word

  -- the rest behind an expected character
  abbrev pub expect : ℕ → Text → Text → Outcome Text
  expect c message [] = thrown message
  expect c message (d ∷ s) = if d == c then ok s else thrown message

  -- the key of a member and the text behind its colon
  abbrev pub parse_key : List Text → Text → Outcome (Text × Text)
  parse_key seen s = do
    t ← expect b'"' (codes "expected object key") (skip_space s)
    (key, rest) ← parse_string t
    if includes key seen
        then thrown (codes "duplicate key")
        else (do u ← expect b':' (codes "expected ':'") (skip_space rest); ok (key, u))

  -- The bodies of the two loops start behind the comma or the bracket; `fuel` bounds the depth of
  -- the calls.
  unfoldable mutual
    pub parse_value : ℕ → Text → Outcome (Value × Text)
    parse_value zero s = out_of_fuel
    parse_value (suc f) [] = thrown (codes "unexpected token")
    parse_value (suc f) (c ∷ s) = elim (start_of c) [
      | brace ↦ parse_object f (skip_space s)
      | bracket ↦ parse_array f (skip_space s)
      | quote ↦ (do r ← parse_string s; ok (text_value r))
      | numeric ↦ parse_number (c ∷ s)
      | word ↦ parse_word (c ∷ s)
    ]

    pub parse_object : ℕ → Text → Outcome (Value × Text)
    parse_object zero s = out_of_fuel
    parse_object (suc f) s =
        let loop = (do (fs, rest) ← parse_members f [] s; ok (obj fs, rest)) in
        elim (expect b'}' [] s) [ ok rest ↦ ok (obj end, rest) | _ ↦ loop ]

    pub parse_members : ℕ → List Text → Text → Outcome (Fields × Text)
    parse_members zero seen s = out_of_fuel
    parse_members (suc f) seen s = do
      (key, rest) ← parse_key seen s
      (v, t) ← parse_value f (skip_space rest)
      after_member f (key ∷ seen) key v (skip_space t)

    pub after_member : ℕ → List Text → Text → Value → Text → Outcome (Fields × Text)
    after_member zero seen key v s = out_of_fuel
    after_member (suc f) seen key v s =
        let more = (do
          (fs, rest) ← parse_members f seen (drop 1 s)
          ok (assign_member key v fs, rest)) in
        elim (expect b',' [] s) [
          | ok t ↦ more
          | _ ↦ (do
            t ← expect b'}' (codes "expected ',' or '}'") s
            ok (assign_member key v end, t))
        ]

    pub parse_array : ℕ → Text → Outcome (Value × Text)
    parse_array zero s = out_of_fuel
    parse_array (suc f) s =
        let loop = (do (vs, rest) ← parse_elements f s; ok (arr vs, rest)) in
        elim (expect b']' [] s) [ ok rest ↦ ok (arr nil, rest) | _ ↦ loop ]

    pub parse_elements : ℕ → Text → Outcome (Items × Text)
    parse_elements zero s = out_of_fuel
    parse_elements (suc f) s = do
      (v, t) ← parse_value f (skip_space s)
      after_element f v (skip_space t)

    pub after_element : ℕ → Value → Text → Outcome (Items × Text)
    after_element zero v s = out_of_fuel
    after_element (suc f) v s =
        let more = (do (vs, rest) ← parse_elements f (drop 1 s); ok (cons v vs, rest)) in
        elim (expect b',' [] s) [
          | ok t ↦ more
          | _ ↦ (do t ← expect b']' (codes "expected ',' or ']'") s; ok (cons v nil, t))
        ]

  abbrev pub trailing : Value × Text → Outcome Value
  trailing (v, []) = ok v
  trailing (v, c ∷ s) = thrown (codes "trailing characters")

  -- four calls for each character and one more
  unfoldable pub parse_strict : Text → Outcome Value
  parse_strict s = do
    (v, rest) ← parse_value (5 + 4 * length s) (skip_space s)
    trailing (v, skip_space rest)
