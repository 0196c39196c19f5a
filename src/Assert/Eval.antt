-- ===== src/Assert/Eval.antt =====
-- packages/core/src/assert.ts: the evaluation of a tree (`and3`, `or3`, `not3`, `evalAst`,
-- `compare`) and `evaluateAssertion`.
use arky_foundation.Common.{
  Bool, true, false, not, ◌||◌, ◌&&◌, if◌then◌else◌, any, List, [], ◌∷◌, ◌++◌, Option, none, some,
  Text, codes, text_eq, text_lt, lookup, is_some,
}
use arky_foundation.Number.{Number, nan, num_lt, num_le, num_eq, num_zero, num_one}
use arky_foundation.Engine.{Engine}
use arky_foundation.Assert.Syntax.{
  Scalar, null, undefined, object, TriState, pass, fail, indeterminate, Op, lt, le, gt, ge, eq, ne,
  Lit, num, str, bool, Ast, cmp, among, and, or, symref, Outcome, ok, thrown, out_of_fuel, ◌>>=◌,
}
use arky_foundation.Assert.Lexer.{tokenize}
use arky_foundation.Assert.Parser.{parse}

pub record Bound : Type 0 where
  pub value : Scalar
  pub unit : Option Text
  -- `value.value`, where `value` is not undefined
  pub inner : Option Scalar

abbrev pub Symbols : Type 0
Symbols = List (Text × Bound)

-- What `symbols` inherits. Two names of `Object.prototype` are symbols of the language; neither
-- property has a `value`. The assignment of `symbols.__proto__` makes an object `{ value, unit }` the
-- prototype, whose `unit` is a text.
unfoldable pub inherited : Text → Symbols → Option Scalar
unfolding lookup text_eq
inherited s symbols =
    if text_eq s (codes "constructor") || text_eq s (codes "__proto__")
    then some undefined
    else (elim (lookup (codes "__proto__") symbols) [
      | none ↦ none
      | some b ↦
          if text_eq s (codes "value")
          then b.inner
          else if text_eq s (codes "unit") && is_some b.unit
          then some undefined
          else none
    ])

-- `symbols[name]?.value`, where `symbols[name]` is not undefined
unfoldable pub symbol_value : Text → Symbols → Option Scalar
unfolding lookup inherited
symbol_value s symbols = elim (lookup s symbols) [
  | some b ↦ some b.value
  | none ↦ inherited s symbols
]

unfoldable pub and3 : TriState → TriState → TriState
and3 fail b = fail
and3 a fail = fail
and3 pass pass = pass
and3 _ _ = indeterminate

unfoldable pub or3 : TriState → TriState → TriState
or3 pass b = pass
or3 a pass = pass
or3 fail fail = fail
or3 _ _ = indeterminate

unfoldable pub not3 : TriState → TriState
not3 pass = fail
not3 fail = pass
not3 indeterminate = indeterminate

-- the constant `bool`
unfoldable pub of_bool : Bool → TriState
of_bool true = pass
of_bool false = fail

-- `a === l.v`
unfoldable pub strict_eq : Scalar → Lit → Bool
strict_eq (num a) (num b) = num_eq a b
strict_eq (str a) (str b) = text_eq a b
strict_eq (bool true) (bool b) = b
strict_eq (bool false) (bool b) = not b
strict_eq _ _ = false

abbrev no_match : Text → Text
no_match s = codes "no matching receipts for symbol '" ++ s ++ codes "'"

abbrev not_boolean : Text → Text
not_boolean s = codes "symbol '" ++ s ++ codes "' is not boolean"

abbrev of_truth : Bool → Number
of_truth true = num_one
of_truth false = num_zero

module _ ⦃engine : Engine⦄ where
  -- the conversion to a number of what is ordered
  unfoldable pub scalar_number : Scalar → Number
  scalar_number (num a) = a
  scalar_number (str s) = engine.number_of_text s
  scalar_number (bool b) = of_truth b
  scalar_number null = num_zero
  scalar_number undefined = nan
  scalar_number (object s) = engine.number_of_text s

  unfoldable pub lit_number : Lit → Number
  lit_number (num a) = a
  lit_number (str s) = engine.number_of_text s
  lit_number (bool b) = of_truth b

  -- The orderings of the language: by code units where both are strings, else by number.
  unfoldable pub less : Scalar → Lit → Bool
  unfolding scalar_number lit_number num_lt
  less (str a) (str b) = text_lt a b
  less (object a) (str b) = text_lt a b
  less a b = num_lt (scalar_number a) (lit_number b)

  unfoldable pub greater : Scalar → Lit → Bool
  unfolding scalar_number lit_number num_lt
  greater (str a) (str b) = text_lt b a
  greater (object a) (str b) = text_lt b a
  greater a b = num_lt (lit_number b) (scalar_number a)

  unfoldable pub at_most : Scalar → Lit → Bool
  unfolding scalar_number lit_number num_le
  at_most (str a) (str b) = not (text_lt b a)
  at_most (object a) (str b) = not (text_lt b a)
  at_most a b = num_le (scalar_number a) (lit_number b)

  unfoldable pub at_least : Scalar → Lit → Bool
  unfolding scalar_number lit_number num_le
  at_least (str a) (str b) = not (text_lt a b)
  at_least (object a) (str b) = not (text_lt a b)
  at_least a b = num_le (lit_number b) (scalar_number a)

  unfoldable pub compare_values : Scalar → Op → Lit → Bool
  unfolding strict_eq less greater at_most at_least
  compare_values a eq b = strict_eq a b
  compare_values a ne b = not (strict_eq a b)
  compare_values a lt b = less a b
  compare_values a le b = at_most a b
  compare_values a gt b = greater a b
  compare_values a ge b = at_least a b

  -- The type check of a comparison: a message where the operands do not fit.
  unfoldable pub mismatch : Scalar → Op → Lit → Option Text
  mismatch (num a) o (num b) = none
  mismatch (num a) o (str b) =
      some (codes "type mismatch: numeric symbol compared to string literal")
  mismatch (num a) o (bool b) =
      some (codes "type mismatch: numeric symbol compared to boolean literal")
  mismatch (str a) o (str b) = none
  mismatch (str a) eq b = none
  mismatch (str a) ne b = none
  mismatch (str a) o b = some (codes "type mismatch: string symbol compared to non-string literal")
  mismatch a o b = none

  unfoldable pub eval_cmp : Option Scalar → Text → Op → Lit → TriState × List Text
  unfolding mismatch compare_values of_bool
  eval_cmp none s o l = (indeterminate, no_match s ∷ [])
  eval_cmp (some v) s o l = elim (mismatch v o l) [
    | some e ↦ (indeterminate, e ∷ [])
    | none ↦ (of_bool (compare_values v o l), [])
  ]

  unfoldable pub eval_among : Option Scalar → Text → List Lit → TriState × List Text
  unfolding strict_eq of_bool
  eval_among none s ls = (indeterminate, no_match s ∷ [])
  eval_among (some v) s ls = (of_bool (any (strict_eq v) ls), [])

  unfoldable pub eval_symref : Option Scalar → Text → TriState × List Text
  unfolding of_bool
  eval_symref none s = (indeterminate, no_match s ∷ [])
  eval_symref (some (bool b)) s = (of_bool b, [])
  eval_symref (some v) s = (indeterminate, not_boolean s ∷ [])

  -- The result and the errors pushed, in order. Both sides of `&&` and `||` are evaluated.
  unfoldable pub eval_ast : Symbols → Ast → TriState × List Text
  unfolding and3 or3 not3 symbol_value eval_cmp eval_among eval_symref
  eval_ast symbols (and l r) =
      let (a, es) = eval_ast symbols l in let (b, fs) = eval_ast symbols r in (and3 a b, es ++ fs)
  eval_ast symbols (or l r) =
      let (a, es) = eval_ast symbols l in let (b, fs) = eval_ast symbols r in (or3 a b, es ++ fs)
  eval_ast symbols (Ast.not e) = let (a, es) = eval_ast symbols e in (not3 a, es)
  eval_ast symbols (symref s) = eval_symref (symbol_value s symbols) s
  eval_ast symbols (among s ls) = eval_among (symbol_value s symbols) s ls
  eval_ast symbols (cmp s o l) = eval_cmp (symbol_value s symbols) s o l

  -- the error of an indeterminate result is the first one pushed
  unfoldable pub report : TriState × List Text → TriState × Option Text
  report (indeterminate, e ∷ es) = (indeterminate, some e)
  report (r, es) = (r, none)

  -- A raised error is a result too.
  unfoldable pub conclude : Outcome Ast → (Ast → TriState × Option Text) → TriState × Option Text
  conclude (ok ast) k = k ast
  conclude (thrown message) k = (indeterminate, some (codes "parse error: " ++ message))
  conclude out_of_fuel k = (indeterminate, none)

  unfoldable pub evaluate_assertion : Text → Symbols → TriState × Option Text
  unfolding tokenize parse eval_ast report conclude
  evaluate_assertion expr symbols =
      conclude (tokenize expr >>= parse) λ ast. report (eval_ast symbols ast)
