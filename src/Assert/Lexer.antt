-- ===== src/Assert/Lexer.antt =====
-- packages/core/src/assert.ts: the function `tokenize`. The index into the text is the text that
-- is left, and the last token pushed is passed on.
use arky_foundation.Common.{
  ℕ, zero, suc, Bool, true, false, not, ◌&&◌, ◌||◌, ◌==◌, between, if◌then◌else◌, List, [], ◌∷◌,
  ◌++◌, Option, none, some, Text, codes, text_eq, length, tail,
}
use arky_foundation.Engine.{Engine}
use arky_foundation.Assert.Syntax.{
  Op, lt, le, gt, ge, eq, ne, Tok, num, str, bool, sym, op, lparen, rparen, lbrack, rbrack, comma,
  and, or, in_kw, Outcome, ok, thrown, out_of_fuel, ◌>>=◌,
}

abbrev pub is_digit : ℕ → Bool
is_digit c = between b'0' b'9' c

abbrev pub is_lower : ℕ → Bool
is_lower c = between b'a' b'z' c

-- `/[a-z_]/`
unfoldable pub is_sym_start : ℕ → Bool
is_sym_start c = is_lower c || c == b'_'

-- `/[a-z0-9_]/`
unfoldable pub is_sym : ℕ → Bool
is_sym c = is_lower c || is_digit c || c == b'_'

-- `/[0-9.]/`
unfoldable pub is_numeric : ℕ → Bool
is_numeric c = is_digit c || c == b'.'

-- the characters from the front that pass the test, and what follows them
unfoldable pub span : (ℕ → Bool) → Text → Text × Text
span p [] = ([], [])
span p (c ∷ s) = let (run, rest) = span p s in if p c then (c ∷ run, rest) else ([], c ∷ s)

-- `src[i + 1] === c`
unfoldable pub next_is : ℕ → Text → Bool
next_is c [] = false
next_is c (d ∷ s) = d == c

-- the scan for the closing quote
unfoldable pub scan_string : Text → Option (Text × Text)
scan_string [] = none
scan_string (c ∷ s) =
    if c == b'"'
    then some ([], s)
    else elim (scan_string s) [ none ↦ none | some (body, rest) ↦ some (c ∷ body, rest) ]

-- `valuePos`, from the last token
unfoldable pub value_pos : Option Tok → Bool
value_pos none = true
value_pos (some (num _)) = false
value_pos (some (str _)) = false
value_pos (some (bool _)) = false
value_pos (some (sym _)) = false
value_pos (some rparen) = false
value_pos (some rbrack) = false
value_pos (some _) = true

unfoldable pub starts_numeric : Text → Bool
unfolding is_numeric
starts_numeric [] = false
starts_numeric (c ∷ s) = is_numeric c

-- a run of symbol characters: a keyword or a symbol
unfoldable pub word : Text → Tok
word s =
    if text_eq s (codes "true")
    then bool true
    else if text_eq s (codes "false")
    then bool false
    else if text_eq s (codes "in")
    then in_kw
    else sym s

unfoldable pub is_operator : ℕ → Bool
is_operator c = c == b'<' || c == b'>' || c == b'=' || c == b'!'

-- `two` is one of `<= >= == !=`
unfoldable pub wide_operator : ℕ → Op
wide_operator c = if c == b'<' then le else if c == b'>' then ge else if c == b'=' then eq else ne

-- one round of the loop: the token read, if any, and the text that is left
unfoldable pub read_operator : ℕ → Text → Outcome (Option Tok × Text)
unfolding next_is wide_operator
read_operator c [] =
    if c == b'<'
    then ok (some (op lt), [])
    else if c == b'>'
    then ok (some (op gt), [])
    else thrown (codes "bad operator near '" ++ (c ∷ codes "'"))
read_operator c (d ∷ s) =
    if d == b'='
    then ok (some (op (wide_operator c)), s)
    else if c == b'<'
    then ok (some (op lt), d ∷ s)
    else if c == b'>'
    then ok (some (op gt), d ∷ s)
    else thrown (codes "bad operator near '" ++ (c ∷ d ∷ s) ++ codes "'")

unfoldable pub read_string : Text → Outcome (Option Tok × Text)
unfolding scan_string
read_string s = elim (scan_string s) [
  | none ↦ thrown (codes "unterminated string")
  | some (body, rest) ↦ ok (some (str body), rest)
]

abbrev pub latest : Option Tok → Option Tok → Option Tok
latest (some t) prev = some t
latest none prev = prev

abbrev pub push : Option Tok → List Tok → List Tok
push (some t) ts = t ∷ ts
push none ts = ts

module _ ⦃engine : Engine⦄ where
  unfoldable pub read_number : Text → Text → Outcome (Option Tok × Text)
  unfolding span is_numeric
  read_number sign s =
      let (run, rest) = span is_numeric s in
      ok (some (num (engine.number_of_text (sign ++ run))), rest)

  -- the literals, words and what is no token
  unfoldable pub read_value : Option Tok → ℕ → Text → Outcome (Option Tok × Text)
  unfolding value_pos starts_numeric read_number is_sym_start is_sym span word
  read_value prev c s =
      if c == b'-' && (starts_numeric s && value_pos prev)
      then read_number (b'-' ∷ []) s
      else if is_digit c
      then read_number [] (c ∷ s)
      else if is_sym_start c
      then (let (run, rest) = span is_sym (c ∷ s) in ok (some (word run), rest))
      else thrown (codes "unexpected character '" ++ (c ∷ codes "'"))

  unfoldable pub read_token : Option Tok → ℕ → Text → Outcome (Option Tok × Text)
  unfolding next_is read_string is_operator read_operator read_value
  read_token prev c s =
      if c == b' ' || c == 9
      then ok (none, s)
      else if c == b'('
      then ok (some lparen, s)
      else if c == b')'
      then ok (some rparen, s)
      else if c == b'['
      then ok (some lbrack, s)
      else if c == b']'
      then ok (some rbrack, s)
      else if c == b','
      then ok (some comma, s)
      else if c == b'&' && next_is b'&' s
      then ok (some and, tail s)
      else if c == b'|' && next_is b'|' s
      then ok (some or, tail s)
      else if c == b'!' && not (next_is b'=' s)
      then ok (some Tok.not, s)
      else if c == b'"'
      then read_string s
      else if is_operator c
      then read_operator c s
      else read_value prev c s

  -- the loop; each round reads a character, so the length of the text is fuel enough
  unfoldable pub tokenize_from : ℕ → Option Tok → Text → Outcome (List Tok)
  unfolding read_token
  tokenize_from fuel prev [] = ok []
  tokenize_from zero prev (c ∷ s) = out_of_fuel
  tokenize_from (suc fuel) prev (c ∷ s) = do
    (t, rest) ← read_token prev c s
    ts ← tokenize_from fuel (latest t prev) rest
    ok (push t ts)

  unfoldable pub tokenize : Text → Outcome (List Tok)
  unfolding tokenize_from
  tokenize src = tokenize_from (length src) none src
