-- ===== src/Proxy/Tests.antt =====
-- A concrete session: a call that the policy allows, and the answers of the server.
use arky_foundation.Common.{
  codes, ◌≡◌, ◌∷◌, [], refl, some, none, Text, lookup, returns, true, text_eq, ap, sym, ◌∙◌,
  some-injective, ◌++◌, or_else, ℕ, ◌+◌, ◌≤◌, arith,
}
use arky_foundation.Number.{Number, finite}
use arky_foundation.Engine.{Engine}
use arky_foundation.Sample.{sample_engine}
use arky_foundation.Json.{str, object, of_members, end, Value}
use arky_foundation.Kernel.Evaluate.{run_kernel}
use arky_foundation.Platform.{Platform}
use arky_foundation.Audit.Artifacts.{build_xr}
use arky_foundation.Audit.Bundle.{BundleWriter, padded}
use arky_foundation.Policy.Rules.{PolicyRule}
use arky_foundation.Policy.Compile.{CompiledRule, commitment_of}
use arky_foundation.Proxy.State.{EngineOptions, State, forwards, call_of}
use arky_foundation.Proxy.Client.{handle_client_message}
use arky_foundation.Proxy.Server.{handle_server_message, is_response, outcome_of}
use arky_foundation.Proxy.Gate.{handle_client_message-IsAdmitted, IsAdmitted, calls_tool}
use arky_foundation.Proxy.Recorded.{
  Reach, IsRecordedState, Reach-IsRecorded, next, start, from_client, from_server,
}
use arky_foundation.Proxy.Counted.{calls_of, receipts_of, IsNumbering}
use arky_foundation.Proxy.Once.{Reach-receipts_of}

abbrev call_message : Value
call_message = object (
    (codes "id", str (codes "1"))
    ∷ (codes "method", str (codes "tools/call"))
    ∷ (codes "params", object ((codes "name", str (codes "read")) ∷ []))
    ∷ [])

abbrev answer_message : Value
answer_message = object ((codes "id", str (codes "1")) ∷ (codes "result", object []) ∷ [])

-- the lines that this platform parses: a call and an answer
abbrev line_platform : Platform
line_platform = record {
  encode_utf8 = λ s. s;
  decode_utf8 = λ b. b;
  parse_json = λ s. lookup s ((codes "call", call_message) ∷ (codes "answer", answer_message) ∷ []);
  stringify_json = λ v. codes "{}";
  sha256 = λ b. [];
  public_key = λ b. b;
  sign = λ m s. [];
  verify = λ s m k. true;
}

abbrev rule : PolicyRule
rule = record { tool = codes "read"; where_clause = none }

abbrev compiled_rule : CompiledRule
compiled_rule = record {
  rule = rule;
  commitment = commitment_of rule;
  artifact = of_members ((codes "cid", str (codes "zC")) ∷ []);
}

abbrev options : EngineOptions
options = record {
  policy = record { scope = none; rules = rule ∷ [] };
  compiled = compiled_rule ∷ [];
  keys = record { private_key = []; public_key = []; did = codes "d" };
  server_name = codes "s";
}

abbrev lower : Text → Text
lower s = s

abbrev initial : State
initial = record {
  pending = [];
  writer = some (record { next = 0; session = end; commitments = []; calls = [] });
}

parsed : line_platform.parse_json (codes "call") ≡ some call_message
unfolding lookup text_eq
parsed = refl

forwarded :
    (handle_client_message ⦃platform = line_platform⦄ lower options
      (codes "1")
      (codes "call")
      initial).0
    ≡ returns (forwards (codes "call"))
unfolding handle_client_message lookup commitment_of run_kernel
forwarded = refl

handle_client_message-IsAdmitted_example :
    IsAdmitted ⦃platform = line_platform⦄ lower options (codes "1") (call_of call_message)
unfolding calls_tool
handle_client_message-IsAdmitted_example =
    handle_client_message-IsAdmitted ⦃platform = line_platform⦄ lower options (codes "1")
      (codes "call") initial call_message (forwards (codes "call")) parsed refl forwarded (λ e. cc)

abbrev client_step : State
client_step =
    (handle_client_message ⦃platform = line_platform⦄ lower options (codes "1") (codes "call")
      initial).1

abbrev session : State
session =
    (handle_server_message ⦃platform = line_platform⦄ options (codes "2") (codes "answer")
      client_step).1

Reach-session : Reach ⦃platform = line_platform⦄ lower options session
Reach-session =
    next
      (next (start initial.writer (λ v e. ap (λ w. w.calls) (sym (some-injective e))))
        (from_client (codes "1") (codes "call")))
      (from_server (codes "2") (codes "answer"))

Reach-IsRecorded_example : IsRecordedState session
Reach-IsRecorded_example = Reach-IsRecorded ⦃platform = line_platform⦄ lower options Reach-session

abbrev digit : Number → Text
digit (finite n s e) = (48 + s) ∷ []
digit n = []

-- an engine that writes a number as one character
abbrev digit_engine : Engine
digit_engine = record sample_engine { text_of_number = digit }

padded-digit : (n : ℕ) → padded ⦃engine = digit_engine⦄ n ≡ codes "0000" ++ (48 + n) ∷ []
unfolding padded
padded-digit n = refl

last_digit :
    (m n : ℕ) → codes "0000" ++ (48 + m) ∷ [] ≡ codes "0000" ++ (48 + n) ∷ [] → 48 + m ≡ 48 + n
last_digit m n e = cc

digit_numbering : IsNumbering ⦃engine = digit_engine⦄
digit_numbering m n e =
    let last = last_digit m n (sym (padded-digit m) ∙ (e ∙ padded-digit n)) in omega arith

abbrev called_state : State
called_state =
    (handle_client_message ⦃engine = digit_engine⦄ ⦃platform = line_platform⦄ lower options
      (codes "1") (codes "call") initial).1

abbrev answered_state : State
answered_state =
    (handle_server_message ⦃engine = digit_engine⦄ ⦃platform = line_platform⦄ options (codes "2")
      (codes "answer") called_state).1

abbrev no_writer : BundleWriter
no_writer = record { next = 0; session = end; commitments = []; calls = [] }

abbrev written : BundleWriter
written = or_else answered_state.writer no_writer

Reach-answered :
    Reach ⦃engine = digit_engine⦄ ⦃platform = line_platform⦄ lower options answered_state
Reach-answered =
    next
      (next (start initial.writer (λ v e. ap (λ w. w.calls) (sym (some-injective e))))
        (from_client (codes "1") (codes "call")))
      (from_server (codes "2") (codes "answer"))

one_receipt :
    (answered_state.writer ≡ some written) × (receipts_of (codes "00000") written.calls ≡ 1)
unfolding handle_server_message is_response outcome_of handle_client_message lookup commitment_of
    run_kernel build_xr padded text_eq
one_receipt = (refl, refl)

Reach-receipts_of_example :
    calls_of (codes "00000") answered_state.pending + receipts_of (codes "00000") written.calls ≤ 1
Reach-receipts_of_example =
    Reach-receipts_of ⦃engine = digit_engine⦄ ⦃platform = line_platform⦄ digit_numbering lower
      options answered_state written (codes "00000") Reach-answered one_receipt.0
