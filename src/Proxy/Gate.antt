-- ===== src/Proxy/Gate.antt =====
-- packages/mcp/src/proxy.ts: which messages reach the server.
use arky_foundation.Kernel.View.{tim_of}
use arky_foundation.Kernel.Evaluate.{evaluate_kernel}
use arky_foundation.Audit.Artifacts.{wrap_decision}
use arky_foundation.Policy.Compile.{CompiledRule}
use arky_foundation.Audit.Evidence.{build_evidence}
use arky_foundation.Policy.Rules.{PolicyRule, match_rule}
use arky_foundation.Kernel.Types.{Decision, approved}
use arky_foundation.Proxy.Client.{
  handle_client_message, batch_action, handle_call, denied, decide_call, decided, answered,
  evaluated, is_absent_id, record_tims,
}
use arky_foundation.Json.Values.{null, undefined, bool, num, str, obj, arr}
use arky_foundation.Kernel.Types.{rejected}
use arky_foundation.Common.{
  none, some, throws, returns, true, false, Bool, Text, throws-ne, List, any, Run, ◌≡◌, option_elim,
  if_elim, ◌≢◌, ap, sym, arith, ◌∷◌, returns-injective, map, ◌∙◌, lookup, refl, [], Option-cases,
  not, inl, some-injective, codes, inr, subst, Option,
}
use arky_foundation.Engine.{Engine}
use arky_foundation.Platform.{Platform}
use arky_foundation.Json.{Value, items, arr, null, undefined, bool, num, str, obj, Fields, array}
use arky_foundation.Proxy.Message.{is_tool_call, batch_replies}
use arky_foundation.Proxy.State.{
  EngineOptions, State, Call, call_of, ClientAction, is_approved, take_seq, drops, cid_of, by_tool,
  record_call, no_rule, replies, forwards,
}

-- A message that calls a tool, by itself or in a batch.
unfoldable pub calls_tool : Value → Bool
unfolding is_tool_call
calls_tool (arr ms) = any is_tool_call (items ms)
calls_tool m = is_tool_call m

rejected-ne : rejected ≢ approved
rejected-ne e = cc

none-ne {ℓ} : {A : Type ℓ} {a : A} → none ≢ some a
none-ne e = cc

false-ne : false ≢ true
false-ne e = cc

module _ ⦃engine : Engine⦄ ⦃platform : Platform⦄ (lower : Text → Text) where
  -- The Kernel approves the call on the evidence that is built for it, under the commitment that is
  -- compiled for the rule that matches the tool.
  pub record IsAdmitted (opts : EngineOptions) (ts : Text) (c : Call) : Type 0 where
    pub tims : List Fields
    pub collisions : List Text
    pub rule : PolicyRule
    pub compiled : CompiledRule
    pub evidence :
        build_evidence lower c.tool c.args opts.keys opts.server_name ts ≡ some (tims, collisions)
    pub matched : match_rule opts.policy c.tool ≡ some rule
    pub found : lookup rule.tool (by_tool opts.compiled []) ≡ some compiled
    pub approves : (evaluate_kernel compiled.commitment (map tim_of tims) ts).status ≡ approved

  approved_of : (d : Decision) → is_approved d ≡ true → d.status ≡ approved
  approved_of d h = ground arith

  no_rule-refuses :
      {d : Decision} {cid : Text}
      → Path (Option (Decision × Text)) (some (no_rule, [])) (some (d, cid))
      → d.status ≢ approved
  no_rule-refuses e a = rejected-ne (ap (λ y. y.0.status) (some-injective e) ∙ a)

  decide_call-IsAdmitted :
      (opts : EngineOptions) (ts : Text) (c : Call) (tims : List Fields) (collisions : List Text)
      (d : Decision) (cid : Text)
      → build_evidence lower c.tool c.args opts.keys opts.server_name ts ≡ some (tims, collisions)
      → (tool : Text) → tool ≡ c.tool
      → decide_call opts ts tool tims ≡ some (d, cid)
      → d.status ≡ approved
      → IsAdmitted opts ts c
  unfolding decide_call
  decide_call-IsAdmitted opts ts c tims collisions d cid b [] t e a = absurd (no_rule-refuses e a)
  decide_call-IsAdmitted opts ts c tims collisions d cid b (x ∷ tool) t e a =
      elim (Option-cases (match_rule opts.policy (x ∷ tool))) [
        | inl p ↦ absurd (no_rule-refuses (rw (decide_call, p) at e) a)
        | inr (rule, p) ↦ elim (Option-cases (lookup rule.tool (by_tool opts.compiled []))) [
          | inl q ↦ absurd (none-ne (rw (decide_call, p, q) at e))
          | inr (compiled, q) ↦
              let e' : some (
                evaluate_kernel compiled.commitment (map tim_of tims) ts,
                cid_of compiled.artifact,
              )
                  ≡ some (d, cid) =
                rw (decide_call, p, q) at e in
              record {
                tims = tims;
                collisions = collisions;
                rule = rule;
                compiled = compiled;
                evidence = b;
                matched = subst (λ y. match_rule opts.policy y ≡ some rule) t p;
                found = q;
                approves = ap (λ y. y.0.status) (some-injective e') ∙ a;
              }
        ]
      ]

  -- what a result of a handler forwards, it forwards only if `A`
  abbrev Admits : Type 0 → Run ClientAction × State → Type 0
  Admits A r = (a : ClientAction) → r.0 ≡ returns a → a.forward ≢ none → A

  raised : (A : Type 0) (st : State) → Admits A (throws, st)
  raised A st a e f = absurd (throws-ne e)

  kept : (A : Type 0) (st : State) (b : ClientAction) → b.forward ≡ none → Admits A (returns b, st)
  kept A st b n a e f = absurd (f (ap (λ x. x.forward) (sym (returns-injective e)) ∙ n))

  forward-denied : (c : Call) (d : Decision) → (denied c d).forward ≡ none
  unfolding denied
  forward-denied c d =
      if_elim (λ b. b.forward ≡ none) (is_absent_id c) drops _ (λ e. refl) (λ e. refl)

  decided-Admits :
      (A : Type 0) (opts : EngineOptions) (ts raw : Text) (c : Call) (seq : Text)
      (tims : List Fields) (d : Decision) (cid : Text) (st : State)
      → (d.status ≡ approved → A)
      → Admits A (decided opts ts raw c seq tims d cid st)
  unfolding decided answered
  decided-Admits A opts ts raw c seq tims d cid st h =
      option_elim (Admits A) (wrap_decision d cid (map cid_of tims) opts.keys ts) _ _
        (λ e. raised A st)
        λ artifact e.
          if_elim (Admits A) (is_approved d) _ _ (λ e a p f. h (approved_of d e))
            (λ e.
              kept A (record st { writer = record_call seq (codes "decision") artifact st.writer })
                (denied c d) (forward-denied c d))

  handle_call-Admits :
      (opts : EngineOptions) (ts raw : Text) (c : Call) (st : State)
      → Admits (IsAdmitted opts ts c) (handle_call lower opts ts raw c st)
  unfolding handle_call evaluated
  handle_call-Admits opts ts raw c st =
      option_elim (Admits (IsAdmitted opts ts c))
        (build_evidence lower c.tool c.args opts.keys opts.server_name ts) _ _
        (λ e a p f. absurd (throws-ne p))
        λ (tims, collisions) b.
          option_elim (Admits (IsAdmitted opts ts c)) (decide_call opts ts c.tool tims) _ _
            (λ e a p f. absurd (throws-ne p))
            λ (d, cid) e.
              decided-Admits (IsAdmitted opts ts c) opts ts raw c (take_seq st.writer).0 tims d cid
                (record st {
                  writer = record_tims (take_seq st.writer).0 0 tims (take_seq st.writer).1;
                })
                (λ a. decide_call-IsAdmitted opts ts c tims collisions d cid b c.tool refl e a)

  abbrev answers : List Value → ClientAction
  answers [] = drops
  answers (r ∷ rs) = replies (platform.stringify_json (array (r ∷ rs)))

  forward-answers : (rs : List Value) → (answers rs).forward ≡ none
  forward-answers [] = refl
  forward-answers (r ∷ rs) = refl

  forward-batch_action :
      (raw : Text) (ms : List Value)
      → any is_tool_call ms ≡ true
      → (batch_action raw ms).forward ≡ none
  unfolding batch_action
  forward-batch_action raw ms h =
      if_elim (λ b. b.forward ≡ none) (not (any is_tool_call ms)) (forwards raw) _
        (λ e. absurd (ground arith)) (λ e. forward-answers (batch_replies ms))

  -- A line that parses and calls a tool, by itself or in a batch, is forwarded to the server only
  -- if the Kernel approves the call, on the evidence built for it, under the commitment that is
  -- compiled for the rule of the tool.
  pub handle_client_message-IsAdmitted :
      (opts : EngineOptions) (ts raw : Text) (st : State) (m : Value) (a : ClientAction)
      → platform.parse_json raw ≡ some m
      → calls_tool m ≡ true
      → (handle_client_message lower opts ts raw st).0 ≡ returns a
      → a.forward ≢ none
      → IsAdmitted opts ts (call_of m)
  unfolding handle_client_message calls_tool
  handle_client_message-IsAdmitted opts ts raw st (arr ms) a p t e f =
      kept _ st (batch_action raw (items ms)) (forward-batch_action raw (items ms) t) a
        (rw (handle_client_message, p) at e) f
  handle_client_message-IsAdmitted opts ts raw st (obj fs) a p t e f =
      handle_call-Admits opts ts raw (call_of (obj fs)) st a (rw (handle_client_message, p, t) at e)
        f
  handle_client_message-IsAdmitted opts ts raw st null a p t e f = absurd (false-ne t)
  handle_client_message-IsAdmitted opts ts raw st undefined a p t e f = absurd (false-ne t)
  handle_client_message-IsAdmitted opts ts raw st (bool x) a p t e f = absurd (false-ne t)
  handle_client_message-IsAdmitted opts ts raw st (num x) a p t e f = absurd (false-ne t)
  handle_client_message-IsAdmitted opts ts raw st (str x) a p t e f = absurd (false-ne t)
