-- ===== src/Proxy/State.antt =====
-- packages/mcp/src/proxy.ts: the state of `ArkyMcpEngine`, and its calls of the writer.
use arky_foundation.Common.{
  Bool, true, false, not, List, [], ◌∷◌, find, Option, none, some, or_else, Text, codes, insert,
}
use arky_foundation.Engine.{Engine}
use arky_foundation.Json.{Value, arr, obj, Fields, end, get, get_field, as_text}
use arky_foundation.Codec.Cid.{KeyPair}
use arky_foundation.Kernel.Types.{approved, rejected, Decision}
use arky_foundation.Kernel.Evaluate.{is_pass}
use arky_foundation.Policy.Rules.{PolicyFile}
use arky_foundation.Policy.Compile.{CompiledRule}
use arky_foundation.Audit.Bundle.{BundleWriter, next_seq, write_call}

pub record EngineOptions : Type 0 where
  pub policy : PolicyFile
  pub compiled : List CompiledRule
  pub keys : KeyPair
  pub server_name : Text

pub record PendingCall : Type 0 where
  pub seq : Text
  pub tool : Text
  pub args : Value
  pub commitment_cid : Text
  pub decision_cid : Text

-- The pending calls by their id, and the writer.
pub record State : Type 0 where
  pub pending : List (Text × PendingCall)
  pub writer : Option BundleWriter

pub record ClientAction : Type 0 where
  pub forward : Option Text
  pub reply : Option Text

abbrev pub forwards : Text → ClientAction
forwards raw = record { forward = some raw; reply = none }

abbrev pub replies : Text → ClientAction
replies text = record { forward = none; reply = some text }

abbrev pub drops : ClientAction
drops = record { forward = none; reply = none }

-- `byTool`: the last rule that is compiled for a tool
unfoldable pub by_tool : List CompiledRule → List (Text × CompiledRule) → List (Text × CompiledRule)
unfolding insert
by_tool [] m = m
by_tool (c ∷ cs) m = by_tool cs (insert c.rule.tool c m)

-- `typeof params.arguments === 'object' && params.arguments !== null`
abbrev pub arguments_of : Value → Value
arguments_of (obj fs) = obj fs
arguments_of (arr vs) = arr vs
arguments_of _ = obj end

abbrev pub cid_of : Fields → Text
cid_of artifact = or_else (as_text (get_field (codes "cid") artifact)) []

abbrev pub no_rule : Decision
no_rule = record {
  status = rejected;
  assertions = [];
  authorized = [];
  errors = codes "policy.no_matching_rule" ∷ [];
}

-- the first error, else the first assertion that does not pass
abbrev pub detail_of : Decision → Text
detail_of d = elim d.errors [
  | e ∷ es ↦ e
  | [] ↦ elim (find (λ a. not (is_pass a)) d.assertions) [
    | some a ↦ a.name
    | none ↦ codes "assertion failed"
  ]
]

abbrev pub is_approved : Decision → Bool
is_approved d = elim d.status [ approved ↦ true | _ ↦ false ]

-- what an evaluation depends on: the sequence number, the tool, its arguments and the id
pub record Call : Type 0 where
  pub id : Value
  pub tool : Text
  pub args : Value

unfoldable pub call_of : Value → Call
unfolding get
call_of m =
    let params = get (codes "params") m in
    record {
      id = get (codes "id") m;
      tool = or_else (as_text (get (codes "name") params)) [];
      args = arguments_of (get (codes "arguments") params);
    }

-- `opts.writer?.nextSeq() ?? ''`
unfoldable pub take_seq : ⦃engine : Engine⦄ → Option BundleWriter → Text × Option BundleWriter
unfolding next_seq
take_seq none = ([], none)
take_seq (some w) = let (seq, w') = next_seq w in (seq, some w')

-- `opts.writer?.writeCall(seq, kind, artifact)`
unfoldable pub record_call : Text → Text → Fields → Option BundleWriter → Option BundleWriter
unfolding write_call
record_call seq kind artifact none = none
record_call seq kind artifact (some w) = some (write_call seq kind artifact w)
