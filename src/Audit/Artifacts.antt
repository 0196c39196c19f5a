-- ===== src/Audit/Artifacts.antt =====
-- packages/mcp/src/audit.ts: signed decisions and receipts.
use arky_foundation.Common.{List, [], ◌∷◌, ◌++◌, map, Option, none, some, Text, codes}
use arky_foundation.Engine.{Engine}
use arky_foundation.Platform.{Platform}
use arky_foundation.Json.{Value, str, Fields, object, array}
use arky_foundation.Codec.Cid.{KeyPair}
use arky_foundation.Assert.Syntax.{TriState, pass, fail, indeterminate}
use arky_foundation.Kernel.Types.{
  Verb, AssertionResult, DecisionStatus, approved, rejected, Decision,
}
use arky_foundation.Tim.Create.{sign_body}
use arky_foundation.Settler.Execute.{args_hash, derive_idempotency_key}

abbrev pub result_text : TriState → Text
result_text pass = codes "PASS"
result_text fail = codes "FAIL"
result_text indeterminate = codes "INDETERMINATE"

abbrev pub status_text : DecisionStatus → Text
status_text approved = codes "APPROVED"
status_text rejected = codes "REJECTED"
status_text DecisionStatus.indeterminate = codes "INDETERMINATE"

abbrev text_member : Text → Option Text → List (Text × Value)
text_member k none = []
text_member k (some s) = (k, str s) ∷ []

abbrev value_member : Text → Option Value → List (Text × Value)
value_member k none = []
value_member k (some v) = (k, v) ∷ []

abbrev list_member : Text → Option (List Text) → List (Text × Value)
list_member k none = []
list_member k (some ss) = (k, array (map str ss)) ∷ []

unfoldable pub assertion_value : AssertionResult → Value
assertion_value a = object (
    ((codes "name", str a.name) ∷ (codes "result", str (result_text a.result)) ∷ [])
    ++ (value_member (codes "input_value") a.input_value
        ++ (text_member (codes "unit") a.unit
            ++ (list_member (codes "inputs") a.inputs ++ text_member (codes "error") a.error))))

unfoldable pub verb_value : Verb → Value
verb_value v = object ((codes "name", str v.name) ∷ (codes "args", v.args) ∷ [])

unfoldable pub decision_body : Decision → Text → List Text → KeyPair → Text → List (Text × Value)
unfolding assertion_value verb_value
decision_body decision commitment_cid evidence_cids keys ts =
    (codes "@type", str (codes "ARKY:Decision@v1"))
    ∷ (codes "status", str (status_text decision.status))
    ∷ (codes "assertions", array (map assertion_value decision.assertions))
    ∷ (codes "authorized", array (map verb_value decision.authorized))
    ∷ (codes "errors", array (map str decision.errors))
    ∷ (codes "commitment_cid", str commitment_cid)
    ∷ (codes "evidence", array (map str evidence_cids))
    ∷ (codes "identity", object ((codes "id", str keys.did) ∷ []))
    ∷ (codes "time", object ((codes "ts", str ts) ∷ []))
    ∷ []

pub record XrInput : Type 0 where
  pub request_id : Text
  pub tool : Text
  pub args : Value
  pub commitment_cid : Text
  pub decision_cid : Text
  pub rail : Text
  pub status : Text
  -- a code and a message
  pub error : Option (Text × Text)
  pub ts : Text

abbrev error_member : Option (Text × Text) → List (Text × Value)
error_member none = []
error_member (some (code, message)) =
    (codes "error", object ((codes "code", str code) ∷ (codes "message", str message) ∷ [])) ∷ []

abbrev control : Text
control = codes "arky:verb/control@v1"

unfoldable pub xr_body : XrInput → KeyPair → Text → Text → List (Text × Value)
xr_body input keys hash key =
    (codes "@type", str (codes "ARKY:ExecutionReceipt@v1"))
    ∷ (codes "request_id", str input.request_id)
    ∷ (codes "commitment_cid", str input.commitment_cid)
    ∷ (codes "decision_cid", str input.decision_cid)
    ∷ (codes "verb", str control)
    ∷ (codes "rail", str input.rail)
    ∷ (codes "tool", str input.tool)
    ∷ (codes "args_hash", str hash)
    ∷ (codes "idempotency_key", str key)
    ∷ (codes "status", str input.status)
    ∷ (codes "locator", str (codes "mcp:" ++ (input.tool ++ (codes "#" ++ input.request_id))))
    ∷ (error_member input.error
        ++ ((codes "identity", object ((codes "id", str keys.did) ∷ []))
            ∷ (codes "time", object ((codes "ts", str input.ts) ∷ []))
            ∷ []))

module _ ⦃engine : Engine⦄ ⦃platform : Platform⦄ where
  unfoldable pub sign_artifact : List (Text × Value) → KeyPair → Option Fields
  unfolding sign_body
  sign_artifact body keys = sign_body body keys.private_key (some keys.did)

  unfoldable pub wrap_decision : Decision → Text → List Text → KeyPair → Text → Option Fields
  unfolding sign_artifact decision_body
  wrap_decision decision commitment_cid evidence_cids keys ts =
      sign_artifact (decision_body decision commitment_cid evidence_cids keys ts) keys

  -- `none` where a canonicalization raises
  unfoldable pub build_xr : XrInput → KeyPair → Option Fields
  unfolding sign_artifact xr_body args_hash derive_idempotency_key
  build_xr input keys = elim (args_hash input.args) [
    | none ↦ none
    | some hash ↦
        elim (derive_idempotency_key (some input.commitment_cid) control (str input.rail) input.args
          none) [ none ↦ none | some key ↦ sign_artifact (xr_body input keys hash key) keys ]
  ]
