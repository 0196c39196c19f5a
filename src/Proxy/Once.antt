-- ===== src/Proxy/Once.antt =====
-- packages/mcp/src/proxy.ts: the receipts of a session, call by call.
use arky_foundation.Common.{
  none, Text, List, ◌≡◌, option_elim, codes, map, if_elim, Run, lookup, refl, some, erase, returns,
  throws, [], ◌+◌, ◌≤◌, arith, Option,
}
use arky_foundation.Engine.{Engine}
use arky_foundation.Platform.{Platform}
use arky_foundation.Json.{Value, Fields, get, arr, items}
use arky_foundation.Kernel.Types.{Decision}
use arky_foundation.Audit.Bundle.{BundleWriter}
use arky_foundation.Audit.Artifacts.{wrap_decision}
use arky_foundation.Audit.Evidence.{build_evidence}
use arky_foundation.Proxy.Message.{string_of, is_tool_call}
use arky_foundation.Proxy.State.{
  EngineOptions, PendingCall, State, Call, is_approved, take_seq, cid_of, ClientAction, call_of,
  forwards,
}
use arky_foundation.Proxy.Client.{
  decided, evaluated, handle_call, answered, admitted, decide_call, record_tims, is_absent_id,
  handle_client_message, batch_action, handle_message,
}
use arky_foundation.Proxy.Server.{
  handle_response, settled, receipt_of, handle_server_message, is_response, handle_value,
}
use arky_foundation.Proxy.Counted.{
  calls_of, receipts_of, IsCounted, IsUnused, IsNumbering, take_seq-IsCounted,
  record_call-IsCounted, record_tims-IsCounted, admit-IsCounted, erase-IsCounted, settle-IsCounted,
}
use arky_foundation.Proxy.Recorded.{message_elim, from_client, from_server, Reach, start, next}

module _ ⦃engine : Engine⦄ ⦃platform : Platform⦄ where
  abbrev pub IsCountedState : State → Type 0
  IsCountedState st = IsCounted st.pending st.writer

  abbrev IsOpen : Text → State → Type 0
  IsOpen seq st = IsCounted st.pending st.writer × IsUnused seq st.pending st.writer

  abbrev Keeps : Run ClientAction × State → Type 0
  Keeps r = IsCountedState r.1

  abbrev KeepsLine : Run Text × State → Type 0
  KeepsLine r = IsCountedState r.1

  answered-IsCounted :
      (raw : Text) (c : Call) (seq : Text) (d : Decision) (cid : Text) (artifact : Fields)
      (st : State)
      → IsOpen seq st
      → IsCountedState (answered raw c seq d cid artifact st).1
  unfolding answered admitted
  answered-IsCounted raw c seq d cid artifact st h =
      if_elim Keeps (is_approved d) _ _
        (λ a.
          if_elim Keeps (is_absent_id c) _ _ (λ u. h.0)
            (λ u.
              option_elim Keeps (string_of c.id) _ _ (λ s. h.0)
                (λ k s. admit-IsCounted st.pending st.writer k _ h)))
        (λ a. h.0)

  decided-IsCounted :
      (opts : EngineOptions) (ts raw : Text) (c : Call) (seq : Text) (tims : List Fields)
      (d : Decision) (cid : Text) (st : State)
      → IsOpen seq st
      → IsCountedState (decided opts ts raw c seq tims d cid st).1
  unfolding decided
  decided-IsCounted opts ts raw c seq tims d cid st h =
      option_elim Keeps (wrap_decision d cid (map cid_of tims) opts.keys ts) _ _ (λ e. h.0)
        λ artifact e.
          answered-IsCounted raw c seq d cid artifact _
            (record_call-IsCounted st.pending st.writer seq seq (codes "decision") artifact refl h)

  evaluated-IsCounted :
      (opts : EngineOptions) (ts raw : Text) (c : Call) (seq : Text) (tims : List Fields)
      (st : State)
      → IsOpen seq st
      → IsCountedState (evaluated opts ts raw c seq tims st).1
  unfolding evaluated
  evaluated-IsCounted opts ts raw c seq tims st h =
      option_elim Keeps (decide_call opts ts c.tool tims) _ _ (λ e. h.0)
        λ (d, cid) e. decided-IsCounted opts ts raw c seq tims d cid st h

  module _ (numbering : IsNumbering) (lower : Text → Text) where
    handle_call-IsCounted :
        (opts : EngineOptions) (ts raw : Text) (c : Call) (st : State)
        → IsCountedState st
        → IsCountedState (handle_call lower opts ts raw c st).1
    unfolding handle_call
    handle_call-IsCounted opts ts raw c st h =
        let (seq, w) = take_seq st.writer in
        let k = take_seq-IsCounted numbering st.pending st.writer h in
        option_elim Keeps (build_evidence lower c.tool c.args opts.keys opts.server_name ts) _ _
          (λ e. k.0)
          λ (tims, collisions) e.
            evaluated-IsCounted opts ts raw c seq tims
              (record st { writer = record_tims seq 0 tims w })
              (record_tims-IsCounted st.pending seq 0 tims w k)

    handle_client_message-IsCounted :
        (opts : EngineOptions) (ts raw : Text) (st : State)
        → IsCountedState st
        → IsCountedState (handle_client_message lower opts ts raw st).1
    unfolding handle_client_message
    handle_client_message-IsCounted opts ts raw st h =
        message_elim Keeps (platform.parse_json raw) (returns (forwards raw), st)
          (λ ms. (returns (batch_action raw (items ms)), st)) (throws, st)
          (λ m. handle_message lower opts ts raw m st) h (λ ms. h) h
          λ m.
            if_elim Keeps (is_tool_call m) (handle_call lower opts ts raw (call_of m) st)
              (returns (forwards raw), st) (λ e. handle_call-IsCounted opts ts raw (call_of m) st h)
              (λ e. h)

  settled-IsCounted :
      (opts : EngineOptions) (ts raw : Text) (m : Value) (call : PendingCall) (st : State)
      (k : Text)
      → lookup k st.pending ≡ some call
      → IsCountedState st
      → IsCountedState (settled opts ts raw m call (record st { pending = erase k st.pending })).1
  unfolding settled
  settled-IsCounted opts ts raw m call st k l h =
      option_elim KeepsLine (receipt_of opts ts call m) _ _
        (λ e. erase-IsCounted st.pending st.writer k h)
        (λ xr e. settle-IsCounted st.pending st.writer k call xr l h)

  handle_value-IsCounted :
      (opts : EngineOptions) (ts raw : Text) (m : Value) (st : State)
      → IsCountedState st
      → KeepsLine (handle_value opts ts raw m st)
  unfolding handle_response
  handle_value-IsCounted opts ts raw m st h =
      if_elim KeepsLine (is_response m) (handle_response opts ts raw m st) (returns raw, st)
        (λ e.
          option_elim KeepsLine (string_of (get (codes "id") m)) _ _ (λ e. h)
            λ k e.
              option_elim KeepsLine (lookup k st.pending) _ _ (λ e. h)
                λ call l. settled-IsCounted opts ts raw m call st k l h)
        (λ e. h)

  handle_server_message-IsCounted :
      (opts : EngineOptions) (ts raw : Text) (st : State)
      → IsCountedState st
      → IsCountedState (handle_server_message opts ts raw st).1
  unfolding handle_server_message
  handle_server_message-IsCounted opts ts raw st h =
      message_elim KeepsLine (platform.parse_json raw) (returns raw, st)
        (λ ms. handle_value opts ts raw (arr ms) st) (throws, st)
        (λ m. handle_value opts ts raw m st) h
        (λ ms. handle_value-IsCounted opts ts raw (arr ms) st h) h
        (λ m. handle_value-IsCounted opts ts raw m st h)

  start-IsCounted :
      (w : Option BundleWriter) → ((v : BundleWriter) → w ≡ some v → v.calls ≡ []) → IsCounted [] w
  start-IsCounted none h = tt
  start-IsCounted (some v) h =
      rw (h v refl) (record { at_most_one = λ s. omega arith; unused = λ n l. omega arith })

  Reach-IsCounted :
      (numbering : IsNumbering) (lower : Text → Text) (opts : EngineOptions) {st : State}
      → Reach lower opts st
      → IsCountedState st
  Reach-IsCounted i lower opts (start w h) = start-IsCounted w h
  Reach-IsCounted i lower opts (next {st = old} r (from_client ts raw)) =
      handle_client_message-IsCounted i lower opts ts raw old (Reach-IsCounted i lower opts r)
  Reach-IsCounted i lower opts (next {st = old} r (from_server ts raw)) =
      handle_server_message-IsCounted opts ts raw old (Reach-IsCounted i lower opts r)

  -- In every state that a session reaches with a writer, whatever the messages and their order are, a
  -- sequence number has at most one receipt, and none while a call with it is pending: no call gets
  -- two receipts. This holds if two numbers of calls are written differently.
  pub Reach-receipts_of :
      (numbering : IsNumbering) (lower : Text → Text) (opts : EngineOptions) (st : State)
      (w : BundleWriter) (seq : Text)
      → Reach lower opts st
      → st.writer ≡ some w
      → calls_of seq st.pending + receipts_of seq w.calls ≤ 1
  Reach-receipts_of i lower opts st w seq r e =
      let h : IsCounted st.pending (some w) = rw e at (Reach-IsCounted i lower opts r) in
      h.at_most_one seq
