-- ===== src/Proxy/Recorded.antt =====
-- packages/mcp/src/proxy.ts: runs of the engine.
use arky_foundation.Audit.Bundle.{BundleWriter}
use arky_foundation.Proxy.Server.{
  handle_response, settled, receipt_of, outcome_of, receipt_input, handle_server_message,
  is_response, handle_value,
}
use arky_foundation.Proxy.Message.{string_of, is_tool_call}
use arky_foundation.Audit.Artifacts.{status_text, wrap_decision}
use arky_foundation.Audit.Evidence.{build_evidence}
use arky_foundation.Kernel.Types.{Decision}
use arky_foundation.Proxy.Client.{
  decided, evaluated, handle_call, answered, admitted, decide_call, record_tims, is_absent_id,
  handle_client_message, batch_action, handle_message,
}
use arky_foundation.Common.{
  none, Text, List, ◌≡◌, true, option_elim, codes, map, arith, if_elim, ◌∙◌, Run, ap, lookup, refl,
  some, erase, some_bind, Option, returns, [],
}
use arky_foundation.Engine.{Engine}
use arky_foundation.Platform.{Platform}
use arky_foundation.Audit.Signed.{wrap_decision-status, build_xr-decision_cid}
use arky_foundation.Json.Values.{null, undefined, bool, num, arr, obj}
use arky_foundation.Json.{Value, Fields, get, str, Items, arr}
use arky_foundation.Proxy.State.{
  EngineOptions, PendingCall, State, Call, is_approved, take_seq, cid_of, ClientAction, call_of,
}
use arky_foundation.Proxy.State.{forwards}
use arky_foundation.Common.{throws, returns}
use arky_foundation.Json.{items}
use arky_foundation.Proxy.Backed.{
  IsRecorded, take_seq-IsRecorded, record_tims-IsRecorded, decision-IsRecorded, admit-IsRecorded,
  erase-IsRecorded, settle-IsRecorded,
}

-- The pending calls and the receipts of a state are backed.
abbrev pub IsRecordedState : State → Type 0
IsRecordedState st = IsRecorded st.pending st.writer

abbrev Keeps : Run ClientAction × State → Type 0
Keeps r = IsRecordedState r.1

abbrev KeepsLine : Run Text × State → Type 0
KeepsLine r = IsRecordedState r.1

-- What holds of each kind of message.
pub message_elim {κ} :
    {B : Type 0} (P : B → Type κ) (o : Option Value) (a : B) (b : Items → B) (c : B) (f : Value → B)
    → P a
    → ((ms : Items) → P (b ms))
    → P c
    → ((m : Value) → P (f m))
    → P (elim o [
      | none ↦ a
      | some (arr ms) ↦ b ms
      | some null ↦ c
      | some undefined ↦ c
      | some m ↦ f m
    ])
message_elim P none a b c f h i j k = h
message_elim P (some (arr ms)) a b c f h i j k = i ms
message_elim P (some null) a b c f h i j k = j
message_elim P (some undefined) a b c f h i j k = j
message_elim P (some (bool x)) a b c f h i j k = k (bool x)
message_elim P (some (num x)) a b c f h i j k = k (num x)
message_elim P (some (str x)) a b c f h i j k = k (str x)
message_elim P (some (obj x)) a b c f h i j k = k (obj x)

approved_status : (d : Decision) → is_approved d ≡ true → status_text d.status ≡ codes "APPROVED"
approved_status d h = ground arith

module _ ⦃engine : Engine⦄ ⦃platform : Platform⦄ where
  decided-IsRecorded :
      (opts : EngineOptions) (ts raw : Text) (c : Call) (seq : Text) (tims : List Fields)
      (d : Decision) (commitment_cid : Text) (st : State)
      → IsRecordedState st
      → IsRecordedState (decided opts ts raw c seq tims d commitment_cid st).1
  unfolding decided answered admitted
  decided-IsRecorded opts ts raw c seq tims d commitment_cid st h =
      option_elim Keeps (wrap_decision d commitment_cid (map cid_of tims) opts.keys ts) _ _ (λ e. h)
        λ artifact e.
          if_elim Keeps (is_approved d) _ _
            (λ a.
              if_elim Keeps (is_absent_id c) _ _
                (λ u. decision-IsRecorded st.pending st.writer seq artifact h)
                (λ u.
                  option_elim Keeps (string_of c.id) _ _
                    (λ s. decision-IsRecorded st.pending st.writer seq artifact h)
                    (λ k s.
                      admit-IsRecorded st.pending st.writer k _ artifact
                        (wrap_decision-status d commitment_cid (map cid_of tims) opts.keys ts
                            artifact e
                          ∙ ap str (approved_status d a))
                        refl h)))
            (λ a. decision-IsRecorded st.pending st.writer seq artifact h)

  evaluated-IsRecorded :
      (opts : EngineOptions) (ts raw : Text) (c : Call) (seq : Text) (tims : List Fields)
      (st : State)
      → IsRecordedState st
      → IsRecordedState (evaluated opts ts raw c seq tims st).1
  unfolding evaluated
  evaluated-IsRecorded opts ts raw c seq tims st h =
      option_elim Keeps (decide_call opts ts c.tool tims) _ _ (λ e. h)
        λ (d, cid) e. decided-IsRecorded opts ts raw c seq tims d cid st h

  module _ (lower : Text → Text) where
    handle_call-IsRecorded :
        (opts : EngineOptions) (ts raw : Text) (c : Call) (st : State)
        → IsRecordedState st
        → IsRecordedState (handle_call lower opts ts raw c st).1
    unfolding handle_call
    handle_call-IsRecorded opts ts raw c st h =
        let (seq, w) = take_seq st.writer in
        let k = take_seq-IsRecorded st.pending st.writer h in
        option_elim Keeps (build_evidence lower c.tool c.args opts.keys opts.server_name ts) _ _
          (λ e. k)
          λ (tims, collisions) e.
            evaluated-IsRecorded opts ts raw c seq tims
              (record st { writer = record_tims seq 0 tims w })
              (record_tims-IsRecorded st.pending seq 0 tims w k)

    -- A message from the client keeps the state recorded, whether or not it raises.
    pub handle_client_message-IsRecorded :
        (opts : EngineOptions) (ts raw : Text) (st : State)
        → IsRecordedState st
        → IsRecordedState (handle_client_message lower opts ts raw st).1
    unfolding handle_client_message
    handle_client_message-IsRecorded opts ts raw st h =
        message_elim Keeps (platform.parse_json raw) (returns (forwards raw), st)
          (λ ms. (returns (batch_action raw (items ms)), st)) (throws, st)
          (λ m. handle_message lower opts ts raw m st) h (λ ms. h) h
          λ m.
            if_elim Keeps (is_tool_call m) (handle_call lower opts ts raw (call_of m) st)
              (returns (forwards raw), st)
              (λ e. handle_call-IsRecorded opts ts raw (call_of m) st h) (λ e. h)

  settled-IsRecorded :
      (opts : EngineOptions) (ts raw : Text) (m : Value) (call : PendingCall) (st : State)
      (k : Text)
      → lookup k st.pending ≡ some call
      → IsRecordedState st
      → IsRecordedState (settled opts ts raw m call (record st { pending = erase k st.pending })).1
  unfolding settled receipt_of
  settled-IsRecorded opts ts raw m call st k l h =
      option_elim KeepsLine (receipt_of opts ts call m) _ _
        (λ e. erase-IsRecorded st.pending st.writer k h)
        (λ xr e.
          let ((status, error), p, q) = some_bind (outcome_of m) _ e in
          settle-IsRecorded st.pending st.writer k call xr l
            (build_xr-decision_cid (receipt_input opts ts call status error) opts.keys xr q) h)

  handle_response-IsRecorded :
      (opts : EngineOptions) (ts raw : Text) (m : Value) (st : State)
      → IsRecordedState st
      → IsRecordedState (handle_response opts ts raw m st).1
  unfolding handle_response
  handle_response-IsRecorded opts ts raw m st h =
      option_elim KeepsLine (string_of (get (codes "id") m)) _ _ (λ e. h)
        λ k e.
          option_elim KeepsLine (lookup k st.pending) _ _ (λ e. h)
            λ call l. settled-IsRecorded opts ts raw m call st k l h

  handle_value-IsRecorded :
      (opts : EngineOptions) (ts raw : Text) (m : Value) (st : State)
      → IsRecordedState st
      → KeepsLine (handle_value opts ts raw m st)
  handle_value-IsRecorded opts ts raw m st h =
      if_elim KeepsLine (is_response m) (handle_response opts ts raw m st) (returns raw, st)
        (λ e. handle_response-IsRecorded opts ts raw m st h) (λ e. h)

  -- So does a message from the server.
  pub handle_server_message-IsRecorded :
      (opts : EngineOptions) (ts raw : Text) (st : State)
      → IsRecordedState st
      → IsRecordedState (handle_server_message opts ts raw st).1
  unfolding handle_server_message
  handle_server_message-IsRecorded opts ts raw st h =
      message_elim KeepsLine (platform.parse_json raw) (returns raw, st)
        (λ ms. handle_value opts ts raw (arr ms) st) (throws, st)
        (λ m. handle_value opts ts raw m st) h
        (λ ms. handle_value-IsRecorded opts ts raw (arr ms) st h) h
        (λ m. handle_value-IsRecorded opts ts raw m st h)

-- A session: messages from both sides, in any order, each at its time.
pub data Step ⦃engine : Engine⦄ ⦃platform : Platform⦄ (lower : Text → Text) (opts : EngineOptions)
    (st : State) : State → Type 0 where
  from_client : (ts raw : Text) → Step lower opts st (handle_client_message lower opts ts raw st).1
  from_server : (ts raw : Text) → Step lower opts st (handle_server_message opts ts raw st).1

-- The states that a session reaches from an engine that has just been made, with a writer that has
-- written no call or without one.
pub data Reach ⦃engine : Engine⦄ ⦃platform : Platform⦄ (lower : Text → Text) (opts : EngineOptions)
    : State → Type 0 where
  start :
      (w : Option BundleWriter)
      → ((v : BundleWriter) → w ≡ some v → v.calls ≡ [])
      → Reach lower opts (record { pending = []; writer = w })
  next : {st st' : State} → Reach lower opts st → Step lower opts st st' → Reach lower opts st'

empty-IsRecorded :
    (w : Option BundleWriter) → ((v : BundleWriter) → w ≡ some v → v.calls ≡ []) → IsRecorded [] w
empty-IsRecorded none h = tt
empty-IsRecorded (some v) h = rw (h v refl) (tt, tt)

module _ ⦃engine : Engine⦄ ⦃platform : Platform⦄ (lower : Text → Text) (opts : EngineOptions) where
  Step-IsRecorded :
      {st st' : State} → Step lower opts st st' → IsRecordedState st → IsRecordedState st'
  Step-IsRecorded {st} (from_client ts raw) h =
      handle_client_message-IsRecorded lower opts ts raw st h
  Step-IsRecorded {st} (from_server ts raw) h = handle_server_message-IsRecorded opts ts raw st h

  -- In every state that a session with a writer reaches, whatever the messages and their order are,
  -- each pending call has a recorded decision with the status APPROVED that it names, and so has each
  -- receipt. Without a writer, nothing is recorded.
  pub Reach-IsRecorded : {st : State} → Reach lower opts st → IsRecordedState st
  Reach-IsRecorded (start w h) = empty-IsRecorded w h
  Reach-IsRecorded (next r s) = Step-IsRecorded s (Reach-IsRecorded r)
