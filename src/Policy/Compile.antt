-- ===== src/Policy/Compile.antt =====
-- packages/mcp/src/policy.ts: `compileRule` and `compilePolicy`.
use arky_foundation.Common.{
  if◌then◌else◌, List, [], ◌∷◌, ◌++◌, map, Option, none, some, Text, codes, text_eq, or_else,
}
use arky_foundation.Engine.{Engine}
use arky_foundation.Platform.{Platform}
use arky_foundation.Json.{Value, str, Fields, object, array}
use arky_foundation.Codec.Cid.{KeyPair}
use arky_foundation.Kernel.Types.{MeasureSpec, Commitment}
use arky_foundation.Tim.Create.{sign_body}
use arky_foundation.Policy.Rules.{PolicyRule, PolicyFile}

pub record CompiledRule : Type 0 where
  pub rule : PolicyRule
  pub commitment : Commitment
  -- the body with its `cid` and `sig`
  pub artifact : Fields

abbrev coded : Text → Text → MeasureSpec
coded sym assertion = record {
  name = sym;
  assert = assertion;
  window = none;
  require = some (record { min_witnesses = none; device_class = none; code = some (sym ∷ []) });
}

abbrev coded_pair : Text × Text → MeasureSpec
coded_pair (sym, assertion) = coded sym assertion

abbrev pub tool_assertion : Text → Text
tool_assertion tool =
    if text_eq tool (codes "*")
    then codes "tool != \"\""
    else codes "tool == \"" ++ (tool ++ codes "\"")

unfoldable pub measures_of : PolicyRule → List MeasureSpec
unfolding text_eq
measures_of rule =
    coded (codes "tool") (tool_assertion rule.tool) ∷ map coded_pair (or_else rule.where_clause [])

abbrev action_args : PolicyRule → Value
action_args rule = object ((codes "action", str (codes "mcp.tool_call:" ++ rule.tool)) ∷ [])

unfoldable pub commitment_of : PolicyRule → Commitment
unfolding measures_of
commitment_of rule = record {
  measure = some (measures_of rule);
  consequence = some (
      record {
        if_clause = codes "PASS";
        then_verbs = record { name = codes "arky:verb/control@v1"; args = action_args rule } ∷ [];
      }
      ∷ []);
}

abbrev spec_value : Text → Text → Value
spec_value sym assertion = object (
    (codes "name", str sym)
    ∷ (codes "assert", str assertion)
    ∷ (codes "require", object ((codes "code", array (str sym ∷ [])) ∷ []))
    ∷ [])

abbrev spec_value_pair : Text × Text → Value
spec_value_pair (sym, assertion) = spec_value sym assertion

unfoldable pub rule_body : PolicyRule → PolicyFile → KeyPair → List (Text × Value)
unfolding text_eq
rule_body rule policy keys =
    (codes "scope", str (or_else policy.scope (codes "arky:scope/mcp-tools")))
    ∷ (codes "actor", str keys.did)
    ∷ (codes "intent", object ((codes "do", str (codes "mcp.tool_call")) ∷ []))
    ∷ (
      codes "measure",
      array (
          spec_value (codes "tool") (tool_assertion rule.tool)
          ∷ map spec_value_pair (or_else rule.where_clause [])),
    )
    ∷ (
      codes "consequence",
      array (
          object (
            (codes "if", str (codes "PASS"))
            ∷ (
              codes "then",
              array (
                  object (
                    (codes "name", str (codes "arky:verb/control@v1"))
                    ∷ (codes "args", action_args rule)
                    ∷ [])
                  ∷ []),
            )
            ∷ [])
          ∷ []),
    )
    ∷ []

module _ ⦃engine : Engine⦄ ⦃platform : Platform⦄ where
  -- `none` where a canonicalization raises
  unfoldable pub compile_rule : PolicyRule → PolicyFile → KeyPair → Option CompiledRule
  unfolding commitment_of rule_body sign_body
  compile_rule rule policy keys =
      elim (sign_body (rule_body rule policy keys) keys.private_key (some keys.did)) [
        | none ↦ none
        | some artifact ↦
            some (record { rule = rule; commitment = commitment_of rule; artifact = artifact })
      ]

  unfoldable pub compile_all : List PolicyRule → PolicyFile → KeyPair → Option (List CompiledRule)
  unfolding compile_rule
  compile_all [] policy keys = some []
  compile_all (r ∷ rs) policy keys = elim (compile_rule r policy keys) [
    | none ↦ none
    | some c ↦ elim (compile_all rs policy keys) [ none ↦ none | some cs ↦ some (c ∷ cs) ]
  ]

  unfoldable pub compile_policy : PolicyFile → KeyPair → Option (List CompiledRule)
  unfolding compile_all
  compile_policy policy keys = compile_all policy.rules policy keys
