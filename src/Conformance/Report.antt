-- ===== src/Conformance/Report.antt =====
-- scripts/verify-artifacts.ts: the reports of a run, and its exit code.
use arky_foundation.Common.{
  ℕ, suc, ltb, Bool, true, false, if◌then◌else◌, List, [], ◌∷◌, ◌++◌, Option, none, some, Text,
  codes, Run, returns, throws,
}
use arky_foundation.Number.{integer}
use arky_foundation.Engine.{Engine}
use arky_foundation.Platform.{Platform}
use arky_foundation.Json.{Value, str, obj, get_field}
use arky_foundation.Conformance.Toolkit.{Toolkit}
use arky_foundation.Conformance.Artifact.{CheckResult, verify_signed, is_verified}

-- An element of `cases`. A case that passes has no reason.
pub record Case : Type 0 where
  pub id : Text
  pub passes : Bool
  pub reason : Option Text

-- `passCount`, `failCount` and `cases`
pub record Tally : Type 0 where
  pub passed : ℕ
  pub failed : ℕ
  pub cases : List Case

abbrev pub blank_tally : Tally
blank_tally = record { passed = 0; failed = 0; cases = [] }

unfoldable pub report : Text → Bool → Text → Tally → Tally
report label true detail t = record {
  passed = suc t.passed;
  failed = t.failed;
  cases = t.cases ++ record { id = label; passes = true; reason = none } ∷ [];
}
report label false detail t = record {
  passed = t.passed;
  failed = suc t.failed;
  cases = t.cases ++ record { id = label; passes = false; reason = some detail } ∷ [];
}

-- The exit code of a run; an exception that leaves it is reported and gives 1.
unfoldable pub exit_code : Run Tally → ℕ
exit_code throws = 1
exit_code (returns t) = if ltb 0 t.failed then 1 else 0

abbrev ok_or : Bool → Text → Text
ok_or ok other = if ok then codes "ok" else other

abbrev with_detail : Text → Text
with_detail [] = []
with_detail (c ∷ s) = codes " — " ++ c ∷ s

module _ ⦃engine : Engine⦄ where
  -- `detail` of a result that is not verified
  unfoldable pub artifact_detail : CheckResult → Text
  artifact_detail res =
      let cid =
        if res.has_cid
        then ok_or res.cid_match (codes "mismatch (computed " ++ (res.computed_cid ++ codes ")"))
        else codes "n/a" in
      codes "cid "
      ++ (cid
          ++ (codes "; sig "
              ++ (ok_or res.sig_valid (codes "invalid")
                  ++ (codes "; witnesses "
                      ++ (ok_or res.witnesses_valid (codes "invalid") ++ with_detail res.detail)))))

  abbrev witness_part : ℕ → Text
  witness_part n =
      if ltb 0 n
      then codes " (+" ++ (engine.text_of_number (integer n) ++ codes " witness)")
      else []

  unfoldable pub report_artifact : Text → CheckResult → Tally → Tally
  unfolding is_verified artifact_detail report
  report_artifact label res t =
      let ok = is_verified res in
      report (label ++ witness_part res.witness_count) ok (if ok then [] else artifact_detail res) t

  module _ ⦃platform : Platform⦄ (toolkit : Toolkit) where
    open toolkit use {Key}

    -- one file: its path and its content
    unfoldable pub verify_file : Key → Text × Value → Tally → Run Tally
    unfolding verify_signed report_artifact get_field
    verify_file key (label, obj artifact) t = elim (get_field (codes "sig") artifact) [
      | str sig ↦ elim (verify_signed toolkit artifact key) [
        | throws ↦ throws
        | returns res ↦ returns (report_artifact label res t)
      ]
      | _ ↦ returns t
    ]
    verify_file key (label, v) t = returns t

    -- `verifyArtifactDir`, over the files in their order
    unfoldable pub verify_artifact_dir : Key → List (Text × Value) → Tally → Run Tally
    unfolding verify_file
    verify_artifact_dir key [] t = returns t
    verify_artifact_dir key (file ∷ files) t = elim (verify_file key file t) [
      | throws ↦ throws
      | returns t' ↦ verify_artifact_dir key files t'
    ]
