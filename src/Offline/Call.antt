-- ===== src/Offline/Call.antt =====
-- packages/mcp/src/verify.ts: the loop of `verifyBundle` over the calls, one call at a time.
use arky_foundation.Common.{
  Bool, false, not, ◌||◌, if◌then◌else◌, length, find, keep, List, [], ◌∷◌, ◌++◌, map, Option, none,
  some, Text, codes, text_eq, Run, returns, throws, ◌==◌,
}
use arky_foundation.Engine.{Engine}
use arky_foundation.Platform.{Platform}
use arky_foundation.Json.{Value, undefined, str, get, array, is_undefined}
use arky_foundation.Json.Canonical.{canonicalize}
use arky_foundation.Codec.Jws.{is_substring}
use arky_foundation.Tim.Create.{is_truthy}
use arky_foundation.Tim.Verify.{is_value, unless}
use arky_foundation.Kernel.Types.{Commitment, Tim, Decision}
use arky_foundation.Kernel.Evaluate.{evaluate_kernel}
use arky_foundation.Audit.Artifacts.{status_text, assertion_value, verb_value}
use arky_foundation.Audit.Bundle.{decimal}
use arky_foundation.Settler.Execute.{args_hash}
use arky_foundation.Offline.Values.{
  set_of, elements, same_value, text_of, get_value, ends_with, or_empty_text,
}
use arky_foundation.Offline.Views.{commitment_view, tim_view, every}
use arky_foundation.Offline.Checks.{
  File, and_then, also, load, verify_artifact, check_tims, check_cited,
}

abbrev pub is_tim_file : File → Bool
is_tim_file f = is_substring (codes "-tim-") f.0

abbrev pub is_decision_file : File → Bool
is_decision_file f = ends_with (codes "-decision.json") f.0

abbrev pub is_xr_file : File → Bool
is_xr_file f = ends_with (codes "-xr.json") f.0

abbrev pub approves : Value → Bool
approves decision = is_value (codes "APPROVED") (get (codes "status") decision)

-- `(v.identity as any)?.id ?? ""`
unfoldable pub did_of : Value → Value
unfolding get
did_of v = or_empty_text (get (codes "id") (get (codes "identity") v))

-- `canonicalize(a) === canonicalize(b)`
unfoldable pub same_canonical : ⦃engine : Engine⦄ → Value → Value → Run Bool
unfolding canonicalize text_eq
same_canonical a b = elim (canonicalize a) [
  | none ↦ throws
  | some s ↦ elim (canonicalize b) [ none ↦ throws | some t ↦ returns (text_eq s t) ]
]

-- the recorded arguments of the tool
unfoldable pub recorded_arguments : List Value → Value
unfolding get
recorded_arguments tims =
    elim (find (λ t. is_value (codes "tool") (get (codes "code") (get (codes "measurement") t)))
      tims) [
        | none ↦ undefined
        | some t ↦ get (codes "arguments") (get (codes "provenance") (get (codes "measurement") t))
      ]

-- `odd c tims ts` is `evaluateKernel` of values that have not the types of its parameters.
module _ ⦃engine : Engine⦄ ⦃platform : Platform⦄
    (odd : Value → List Value → Value → Run Decision) where
  unfoldable pub replay_typed :
      Option Commitment → Option (List Tim) → Value → List Value → Value → Run Decision
  unfolding evaluate_kernel
  replay_typed (some commitment) (some tims) c ts (str time) =
      returns (evaluate_kernel commitment tims time)
  replay_typed _ _ c ts time = odd c ts time

  unfoldable pub replay : Value → List Value → Value → Run Decision
  unfolding commitment_view tim_view every replay_typed
  replay c tims time = replay_typed (commitment_view c) (every tim_view tims) c tims time

  -- whether the verdict of the replay is that of the recorded decision
  unfoldable pub is_same_verdict : Decision → Value → Run Bool
  unfolding same_canonical assertion_value verb_value get
  is_same_verdict d decision =
      if is_value (status_text d.status) (get (codes "status") decision)
      then and_then
          (same_canonical (array (map assertion_value d.assertions))
            (get (codes "assertions") decision))
          (λ same.
            if same
            then same_canonical (array (map verb_value d.authorized))
                (get (codes "authorized") decision)
            else returns false)
      else returns false

  unfoldable pub check_replay : Text → Value → List Value → Value → Run (List Text)
  unfolding replay is_same_verdict text_of get
  check_replay label decision tims commitment =
      and_then (replay commitment tims (get (codes "ts") (get (codes "time") decision))) λ d.
        and_then (is_same_verdict d decision) λ same.
          if same
          then returns []
          else and_then (text_of (get (codes "status") decision)) λ status. returns (
              (label
                ++ (codes ": decision does not replay ("
                    ++ (status_text d.status ++ (codes " vs " ++ (status ++ codes ")")))))
              ∷ [])

  unfoldable pub check_verdict : Text → List (Value × Value) → Value → List Value → Run (List Text)
  unfolding check_replay get_value text_of get
  check_verdict label commitments decision tims =
      let cid = get (codes "commitment_cid") decision in
      if is_truthy cid
      then (elim (get_value cid commitments) [
        | none ↦
            and_then (text_of cid) λ s.
              returns ((label ++ (codes ": commitment " ++ (s ++ codes " not in bundle"))) ∷ [])
        | some commitment ↦ check_replay label decision tims commitment
      ])
      else returns (
          unless (not (approves decision))
            (label ++ codes ": APPROVED decision without a commitment"))

  unfoldable pub check_evidence : Text → Value → List Value → Run (List Text)
  unfolding elements set_of check_cited get
  check_evidence label decision tims = and_then (elements (get (codes "evidence") decision)) λ cids.
      let cited = set_of cids in
      also (check_cited label cited tims) (
        returns (
          unless (length cited == length tims) (
            label
            ++ (codes ": decision cites "
                ++ (decimal (length cited)
                    ++ (codes " TIMs, bundle has " ++ decimal (length tims)))))))

  unfoldable pub check_arguments : Text → Value → List Value → Run (List Text)
  unfolding args_hash recorded_arguments get
  check_arguments label xr tims =
      let args = recorded_arguments tims in
      if is_undefined args
      then returns ((label ++ codes ": tool TIM missing provenance.arguments") ∷ [])
      else (elim (args_hash args) [
        | none ↦ throws
        | some hash ↦ returns (
            unless (is_value hash (get (codes "args_hash") xr))
              (label ++ codes ": xr.args_hash does not match recorded arguments"))
      ])

  abbrev pub is_status : Value → Bool
  is_status v = is_value (codes "success") v || is_value (codes "failed") v

  abbrev pub link_errors : Text → Value → Value → List Text
  link_errors label decision xr =
      unless (same_value (get (codes "decision_cid") xr) (get (codes "cid") decision))
        (label ++ codes ": xr.decision_cid mismatch")
      ++ (unless
            (same_value (get (codes "commitment_cid") xr) (get (codes "commitment_cid") decision))
            (label ++ codes ": xr.commitment_cid mismatch")
          ++ unless (is_status (get (codes "status") xr)) (label ++ codes ": xr.status invalid"))

  unfoldable pub check_receipt : Text → Value → List Value → Option File → Run (List Text)
  unfolding load verify_artifact check_arguments did_of same_value get
  check_receipt label decision tims none = returns []
  check_receipt label decision tims (some file) =
      also
        (returns (
          unless (approves decision)
            (label ++ codes ": execution receipt present for non-approved decision")))
        (and_then (load file.1) λ xr.
          also (verify_artifact xr (did_of xr) (label ++ codes " xr"))
            (also (returns (link_errors label decision xr)) (check_arguments label xr tims)))

  unfoldable pub check_decided :
      Text → List (Value × Value) → List File → Value → List Value → Run (List Text)
  unfolding verify_artifact did_of check_evidence check_verdict check_receipt
  check_decided label commitments files decision tims =
      also (verify_artifact decision (did_of decision) (label ++ codes " decision")) (
        also (check_evidence label decision tims) (
          also (check_verdict label commitments decision tims)
            (check_receipt label decision tims (find is_xr_file files))))

  abbrev pub label_of : Text → Text
  label_of seq = codes "call " ++ seq

  -- the errors of the call of a sequence prefix and its files
  unfoldable pub check_call : List (Value × Value) → Text × List File → Run (List Text)
  unfolding check_tims load check_decided ends_with is_substring
  check_call commitments (seq, files) =
      and_then (check_tims (label_of seq) (keep is_tim_file files)) λ (errors, tims).
        also (returns errors) (elim (find is_decision_file files) [
          | none ↦ returns ((label_of seq ++ codes ": missing decision artifact") ∷ [])
          | some file ↦
              and_then (load file.1)
                λ decision. check_decided (label_of seq) commitments files decision tims
        ])
