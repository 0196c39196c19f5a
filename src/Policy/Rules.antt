-- ===== src/Policy/Rules.antt =====
-- packages/mcp/src/policy.ts: the validation of a policy file and the choice of a rule.
use arky_foundation.Common.{
  ℕ, Bool, true, false, not, ◌||◌, ◌&&◌, ◌==◌, if◌then◌else◌, List, [], ◌∷◌, ◌++◌, Option, none,
  some, Text, codes, text_eq, includes, between, all, find, any,
}
use arky_foundation.Number.{num_eq, num_one}
use arky_foundation.Json.{Value, undefined, num, str, arr, obj, cons, get_field, members, items}

pub record PolicyRule : Type 0 where
  pub tool : Text
  -- symbols and assertions, in order; none where the rule has no `where`
  pub where_clause : Option (List (Text × Text))

pub record PolicyFile : Type 0 where
  pub scope : Option Text
  pub rules : List PolicyRule

-- `RESERVED_SYMBOLS`
abbrev pub reserved_symbols : List Text
reserved_symbols = codes "tool" ∷ []

abbrev is_symbol_start : ℕ → Bool
is_symbol_start c = between b'a' b'z' c || c == b'_'

abbrev is_symbol_char : ℕ → Bool
is_symbol_char c = is_symbol_start c || between b'0' b'9' c

-- `SYMBOL_RE.test(s)`; the pattern is anchored at both ends
unfoldable pub is_symbol : Text → Bool
is_symbol [] = false
is_symbol (c ∷ s) = is_symbol_start c && all is_symbol_char s

-- The errors of a policy stop at the first; `none` where there is none.
abbrev then_check : Option Text → Option Text → Option Text
then_check (some e) next = some e
then_check none next = next

abbrev require : Bool → Text → Option Text
require true e = none
require false e = some e

abbrev is_nonempty_text : Value → Bool
is_nonempty_text (str (c ∷ s)) = true
is_nonempty_text _ = false

unfoldable pub check_where : List (Text × Value) → Option Text
unfolding is_symbol includes
check_where [] = none
check_where ((sym, assertion) ∷ rest) =
    then_check
      (require (is_symbol sym) (
        codes "policy: where key '" ++ (sym ++ codes "' is not a valid symbol ([a-z_][a-z0-9_]*)")))
      (then_check
        (require (not (includes sym reserved_symbols))
          (codes "policy: where key '" ++ (sym ++ codes "' is reserved")))
        (then_check
          (require (is_nonempty_text assertion)
            (codes "policy: where['" ++ (sym ++ codes "'] must be a non-empty assertion string")))
          (check_where rest)))

unfoldable pub check_clause : Value → Option Text
unfolding check_where
check_clause undefined = none
check_clause (obj fs) = check_where (members fs)
check_clause _ = some (codes "policy: rule.where must be an object")

-- A rule, behind those whose tools have been seen; an array is an object without these properties.
unfoldable pub check_tool : List Text → Value → Option Text
unfolding includes
check_tool seen (str (c ∷ s)) =
    if any (λ d. d == b'"') (c ∷ s)
    then some (codes "policy: rule.tool must not contain '\"'")
    else if includes (c ∷ s) seen
    then some (codes "policy: duplicate rule for tool '" ++ ((c ∷ s) ++ codes "'"))
    else none
check_tool seen _ = some (codes "policy: rule.tool must be a non-empty string")

abbrev tool_text : Value → Text
tool_text (str s) = s
tool_text _ = []

unfoldable pub check_rules : List Text → List Value → Option Text
unfolding check_tool check_clause get_field
check_rules seen [] = none
check_rules seen (obj rule ∷ rules) = then_check (check_tool seen (get_field (codes "tool") rule)) (
    then_check (check_clause (get_field (codes "where") rule))
      (check_rules (tool_text (get_field (codes "tool") rule) ∷ seen) rules))
check_rules seen (arr vs ∷ rules) = some (codes "policy: rule.tool must be a non-empty string")
check_rules seen (v ∷ rules) = some (codes "policy: rule must be an object")

abbrev is_one : Value → Bool
is_one (num n) = num_eq n num_one
is_one _ = false

abbrev is_scope : Value → Bool
is_scope undefined = true
is_scope (str s) = true
is_scope _ = false

abbrev check_list : Value → Option Text
check_list (arr (cons v vs)) = check_rules [] (v ∷ items vs)
check_list _ = some (codes "policy: rules must be a non-empty array")

-- The first error of a policy file, or `none`.
unfoldable pub validate_policy : Value → Option Text
unfolding check_rules get_field num_eq
validate_policy (obj pol) =
    then_check
      (require (is_one (get_field (codes "version") pol)) (codes "policy: version must be 1"))
      (then_check
        (require (is_scope (get_field (codes "scope") pol))
          (codes "policy: scope must be a string"))
        (check_list (get_field (codes "rules") pol)))
validate_policy _ = some (codes "policy: must be an object")

-- The rule for a tool: the first that names it, else the first for `*`.
unfoldable pub match_rule : PolicyFile → Text → Option PolicyRule
unfolding text_eq
match_rule policy tool = elim (find (λ r. text_eq r.tool tool) policy.rules) [
  | some rule ↦ some rule
  | none ↦ find (λ r. text_eq r.tool (codes "*")) policy.rules
]
