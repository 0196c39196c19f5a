-- ===== src/Proxy/Server.antt =====
-- packages/mcp/src/proxy.ts: `handleServerMessage`.
use arky_foundation.Common.{
  Bool, true, false, not, ◌||◌, ◌&&◌, if◌then◌else◌, [], ◌++◌, Option, none, some, Text, codes,
  lookup, erase, Run, returns, throws,
}
use arky_foundation.Engine.{Engine}
use arky_foundation.Platform.{Platform}
use arky_foundation.Json.{Value, undefined, null, bool, str, Fields, get, is_undefined}
use arky_foundation.Tim.Create.{is_truthy}
use arky_foundation.Audit.Artifacts.{build_xr, XrInput}
use arky_foundation.Proxy.Message.{string_of}
use arky_foundation.Proxy.State.{EngineOptions, PendingCall, State, record_call}

-- `v === true`
abbrev is_true : Value → Bool
is_true (bool true) = true
is_true _ = false

abbrev or_empty : Value → Value
or_empty undefined = str []
or_empty null = str []
or_empty v = v

module _ ⦃engine : Engine⦄ where
  abbrev rpc_failure : Value → Option (Text × Text)
  rpc_failure e = elim (string_of (get (codes "code") e)) [
    | none ↦ none
    | some code ↦ elim (string_of (or_empty (get (codes "message") e))) [
      | none ↦ none
      | some message ↦ some (codes "jsonrpc:" ++ code, message)
    ]
  ]

  -- The status and the error of the receipt; `none` where a conversion raises.
  unfoldable pub outcome_of : Value → Option (Text × Option (Text × Text))
  unfolding string_of get
  outcome_of m =
      let e = get (codes "error") m in
      if is_undefined e && not (is_true (get (codes "isError") (get (codes "result") m)))
      then some (codes "success", none)
      else if is_truthy e
      then (elim (rpc_failure e) [ none ↦ none | some f ↦ some (codes "failed", some f) ])
      else some (codes "failed", some (codes "mcp:tool_error", codes "tool returned isError"))

module _ ⦃engine : Engine⦄ ⦃platform : Platform⦄ where
  abbrev pub receipt_input :
      EngineOptions → Text → PendingCall → Text → Option (Text × Text) → XrInput
  receipt_input opts ts call status error = record {
    request_id = codes "call-" ++ call.seq;
    tool = call.tool;
    args = call.args;
    commitment_cid = call.commitment_cid;
    decision_cid = call.decision_cid;
    rail = codes "mcp:" ++ opts.server_name;
    status = status;
    error = error;
    ts = ts;
  }

  unfoldable pub receipt_of : EngineOptions → Text → PendingCall → Value → Option Fields
  unfolding outcome_of build_xr
  receipt_of opts ts call m = elim (outcome_of m) [
    | none ↦ none
    | some (status, error) ↦ build_xr (receipt_input opts ts call status error) opts.keys
  ]

  -- the answer to a pending call, which no longer is
  unfoldable pub settled :
      EngineOptions → Text → Text → Value → PendingCall → State → Run Text × State
  unfolding receipt_of record_call
  settled opts ts raw m call st = elim (receipt_of opts ts call m) [
    | none ↦ (throws, st)
    | some xr ↦ (returns raw, record st { writer = record_call call.seq (codes "xr") xr st.writer })
  ]

  -- neither a notification nor a request
  unfoldable pub is_response : Value → Bool
  unfolding get
  is_response m = not (
      is_undefined (get (codes "id") m)
      || (is_undefined (get (codes "result") m) && is_undefined (get (codes "error") m)))

  unfoldable pub handle_response : EngineOptions → Text → Text → Value → State → Run Text × State
  unfolding string_of get lookup erase settled
  handle_response opts ts raw m st = elim (string_of (get (codes "id") m)) [
    | none ↦ (throws, st)
    | some k ↦ elim (lookup k st.pending) [
      | none ↦ (returns raw, st)
      | some call ↦ settled opts ts raw m call (record st { pending = erase k st.pending })
    ]
  ]

  abbrev pub handle_value : EngineOptions → Text → Text → Value → State → Run Text × State
  handle_value opts ts raw m st =
      if is_response m then handle_response opts ts raw m st else (returns raw, st)

  -- The line to pass on, and the state that the call leaves, also where it raises.
  unfoldable pub handle_server_message : EngineOptions → Text → Text → State → Run Text × State
  unfolding is_response handle_response
  handle_server_message opts ts raw st = elim (platform.parse_json raw) [
    | none ↦ (returns raw, st)
    | some null ↦ (throws, st)
    | some undefined ↦ (throws, st)
    | some m ↦ handle_value opts ts raw m st
  ]
