-- ===== src/Proxy/Client.antt =====
-- packages/mcp/src/proxy.ts: `handleClientMessage`.
use arky_foundation.Common.{
  ℕ, Bool, not, if◌then◌else◌, List, [], ◌∷◌, ◌++◌, map, any, Option, none, some, Text, codes,
  text_eq, lookup, insert, Run, returns, throws, suc,
}
use arky_foundation.Engine.{Engine}
use arky_foundation.Platform.{Platform}
use arky_foundation.Json.{
  Value, undefined, null, arr, Fields, get_field, items, array, is_undefined,
}
use arky_foundation.Kernel.Types.{Decision}
use arky_foundation.Kernel.View.{tim_of}
use arky_foundation.Kernel.Evaluate.{evaluate_kernel}
use arky_foundation.Policy.Rules.{match_rule}
use arky_foundation.Audit.Evidence.{build_evidence}
use arky_foundation.Audit.Artifacts.{wrap_decision, status_text}
use arky_foundation.Audit.Bundle.{BundleWriter, decimal}
use arky_foundation.Proxy.Message.{string_of, is_tool_call, deny_reply, batch_replies}
use arky_foundation.Proxy.State.{
  EngineOptions, PendingCall, State, Call, record_call, cid_of, take_seq, call_of, ClientAction,
  by_tool, no_rule, drops, is_approved, forwards, replies, detail_of,
}

module _ ⦃engine : Engine⦄ where
  -- the TIMs of a call, from index `i`
  unfoldable pub record_tims : Text → ℕ → List Fields → Option BundleWriter → Option BundleWriter
  unfolding record_call
  record_tims seq i [] w = w
  record_tims seq i (t ∷ ts) w =
      record_tims seq (suc i) ts (record_call seq (codes "tim-" ++ decimal i) t w)

  -- `tool === ''` or no rule rejects; `none` where no commitment is compiled for the rule
  unfoldable pub decide_call : EngineOptions → Text → Text → List Fields → Option (Decision × Text)
  unfolding match_rule by_tool lookup text_eq tim_of evaluate_kernel get_field
  decide_call opts ts [] tims = some (no_rule, [])
  decide_call opts ts (c ∷ tool) tims = elim (match_rule opts.policy (c ∷ tool)) [
    | none ↦ some (no_rule, [])
    | some rule ↦ elim (lookup rule.tool (by_tool opts.compiled [])) [
      | none ↦ none
      | some compiled ↦
          some (evaluate_kernel compiled.commitment (map tim_of tims) ts, cid_of compiled.artifact)
    ]
  ]

abbrev pub is_absent_id : Call → Bool
is_absent_id c = is_undefined c.id

module _ ⦃engine : Engine⦄ ⦃platform : Platform⦄ where
  -- a call that is not approved is dropped if it has no id
  unfoldable pub denied : Call → Decision → ClientAction
  unfolding deny_reply
  denied c d =
      if is_absent_id c
      then drops
      else replies (
          platform.stringify_json
            (deny_reply c.id (status_text d.status ++ (codes ": " ++ detail_of d))))

  -- an approved call is forwarded, and pending if it has an id
  unfoldable pub admitted : Text → Call → PendingCall → State → Run ClientAction × State
  unfolding string_of insert
  admitted raw c call st =
      if is_absent_id c then (returns (forwards raw), st) else (elim (string_of c.id) [
        | none ↦ (throws, st)
        | some k ↦ (returns (forwards raw), record st { pending = insert k call st.pending })
      ])

  unfoldable pub answered :
      Text → Call → Text → Decision → Text → Fields → State → Run ClientAction × State
  unfolding denied admitted get_field
  answered raw c seq d commitment_cid artifact st =
      if is_approved d
      then admitted raw c
          (record {
            seq = seq;
            tool = c.tool;
            args = c.args;
            commitment_cid = commitment_cid;
            decision_cid = cid_of artifact;
          })
          st
      else (returns (denied c d), st)

  unfoldable pub decided :
      EngineOptions
      → Text
      → Text
      → Call
      → Text
      → List Fields
      → Decision
      → Text
      → State
      → Run ClientAction × State
  unfolding wrap_decision record_call answered get_field
  decided opts ts raw c seq tims d commitment_cid st =
      elim (wrap_decision d commitment_cid (map cid_of tims) opts.keys ts) [
        | none ↦ (throws, st)
        | some artifact ↦
            answered raw c seq d commitment_cid artifact
              (record st { writer = record_call seq (codes "decision") artifact st.writer })
      ]

  unfoldable pub evaluated :
      EngineOptions → Text → Text → Call → Text → List Fields → State → Run ClientAction × State
  unfolding decide_call decided
  evaluated opts ts raw c seq tims st = elim (decide_call opts ts c.tool tims) [
    | none ↦ (throws, st)
    | some (d, commitment_cid) ↦ decided opts ts raw c seq tims d commitment_cid st
  ]

  unfoldable pub batch_action : Text → List Value → ClientAction
  unfolding is_tool_call batch_replies
  batch_action raw ms =
      if not (any is_tool_call ms) then forwards raw else (elim (batch_replies ms) [
        | [] ↦ drops
        | r ∷ rs ↦ replies (platform.stringify_json (array (r ∷ rs)))
      ])

  -- `lower` is `toLowerCase`; `ts` is the time of the call.
  module _ (lower : Text → Text) where
    unfoldable pub handle_call :
        EngineOptions → Text → Text → Call → State → Run ClientAction × State
    unfolding take_seq build_evidence record_tims evaluated
    handle_call opts ts raw c st =
        let (seq, w) = take_seq st.writer in
        elim (build_evidence lower c.tool c.args opts.keys opts.server_name ts) [
          | none ↦ (throws, record st { writer = w })
          | some (tims, collisions) ↦
              evaluated opts ts raw c seq tims (record st { writer = record_tims seq 0 tims w })
        ]

    -- a message that is no batch
    abbrev pub handle_message :
        EngineOptions → Text → Text → Value → State → Run ClientAction × State
    handle_message opts ts raw m st =
        if is_tool_call m
        then handle_call opts ts raw (call_of m) st
        else (returns (forwards raw), st)

    -- The action, and the state that the call leaves, also where it raises.
    unfoldable pub handle_client_message :
        EngineOptions → Text → Text → State → Run ClientAction × State
    unfolding batch_action is_tool_call call_of handle_call
    handle_client_message opts ts raw st = elim (platform.parse_json raw) [
      | none ↦ (returns (forwards raw), st)
      | some (arr ms) ↦ (returns (batch_action raw (items ms)), st)
      | some null ↦ (throws, st)
      | some undefined ↦ (throws, st)
      | some m ↦ handle_message opts ts raw m st
    ]
