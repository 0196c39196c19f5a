-- ===== src/Conformance/Exit.antt =====
-- scripts/verify-artifacts.ts: what the counts and the exit code of a run say.
use arky_foundation.Common.{
  ℕ, suc, ◌+◌, Bool, true, false, if◌then◌else◌, List, [], ◌∷◌, ◌++◌, All, Text, codes, Run,
  returns, throws, throws-ne, none, some, returns-injective, Run-cases, ◌≢◌, ◌≡◌, refl, ap, subst,
  ◌∙◌, inl, inr, arith,
}
use arky_foundation.Engine.{Engine}
use arky_foundation.Platform.{Platform}
use arky_foundation.Json.{Value, undefined, null, bool, num, str, arr, obj, Fields, get_field}
use arky_foundation.Conformance.Toolkit.{Toolkit}
use arky_foundation.Conformance.Artifact.{CheckResult, verify_signed, is_verified}
use arky_foundation.Conformance.Report.{
  Case, Tally, blank_tally, report, exit_code, report_artifact, verify_file, verify_artifact_dir,
}

-- The number of cases that pass, and of those that fail.
unfoldable pub passing : List Case → ℕ
passing [] = 0
passing (c ∷ cs) = (if c.passes then 1 else 0) + passing cs

unfoldable pub failing : List Case → ℕ
failing [] = 0
failing (c ∷ cs) = (if c.passes then 0 else 1) + failing cs

passing-append : (cs ds : List Case) → passing (cs ++ ds) ≡ passing cs + passing ds
unfolding passing
passing-append [] ds = omega arith
passing-append (c ∷ cs) ds = omega (arith, passing-append cs ds)

failing-append : (cs ds : List Case) → failing (cs ++ ds) ≡ failing cs + failing ds
unfolding failing
failing-append [] ds = omega arith
failing-append (c ∷ cs) ds = omega (arith, failing-append cs ds)

-- The counts are those of the cases.
pub record IsCounted (t : Tally) : Type 0 where
  pub passes : t.passed ≡ passing t.cases
  pub fails : t.failed ≡ failing t.cases

succ-ne : {n : ℕ} → suc n ≢ 0
succ-ne e = absurd (omega arith)

-- Each report keeps the counts.
report-IsCounted :
    (label : Text) (ok : Bool) (detail : Text) (t : Tally)
    → IsCounted t
    → IsCounted (report label ok detail t)
unfolding report passing failing
report-IsCounted label true detail t h = record {
  passes = omega (
    arith,
    h.passes,
    passing-append t.cases (record { id = label; passes = true; reason = none } ∷ []),
  );
  fails = omega (
    arith,
    h.fails,
    failing-append t.cases (record { id = label; passes = true; reason = none } ∷ []),
  );
}
report-IsCounted label false detail t h = record {
  passes = omega (
    arith,
    h.passes,
    passing-append t.cases (record { id = label; passes = false; reason = some detail } ∷ []),
  );
  fails = omega (
    arith,
    h.fails,
    failing-append t.cases (record { id = label; passes = false; reason = some detail } ∷ []),
  );
}

report-failed :
    (label : Text) (ok : Bool) (detail : Text) (t : Tally)
    → (report label ok detail t).failed ≡ 0
    → (t.failed ≡ 0) × (ok ≡ true)
unfolding report
report-failed label true detail t h = (h, refl)
report-failed label false detail t h = absurd (succ-ne h)

exit_code-returns : (t : Tally) → exit_code (returns t) ≡ 0 → t.failed ≡ 0
unfolding exit_code
exit_code-returns t h = ground arith

exit_code-throws : exit_code throws ≢ 0
unfolding exit_code
exit_code-throws h = absurd (omega arith)

module _ ⦃engine : Engine⦄ ⦃platform : Platform⦄ (toolkit : Toolkit) (key : toolkit.Key) where
  unfoldable pub IsAccepted : Fields → Type 0
  IsAccepted artifact =
      (res : CheckResult) × (verify_signed toolkit artifact key ≡ returns res)
      × (is_verified res ≡ true)

  abbrev IsSignedGood : Fields → Value → Type 0
  IsSignedGood artifact (str sig) = IsAccepted artifact
  IsSignedGood artifact _ = Unit

  -- The artifact in the file is verified, if it has a signature that is a text.
  abbrev pub IsGood : Text × Value → Type 0
  IsGood (label, obj artifact) = IsSignedGood artifact (get_field (codes "sig") artifact)
  IsGood (label, _) = Unit

  abbrev outcome : Text → Fields → Tally → Value → Run Tally
  outcome label artifact t (str sig) = elim (verify_signed toolkit artifact key) [
    | throws ↦ throws
    | returns res ↦ returns (report_artifact label res t)
  ]
  outcome label artifact t _ = returns t

  report_artifact-failed :
      (label : Text) (res : CheckResult) (t : Tally)
      → (report_artifact label res t).failed ≡ 0
      → (t.failed ≡ 0) × (is_verified res ≡ true)
  unfolding report_artifact
  report_artifact-failed label res t h = report-failed _ _ _ t h

  outcome-IsGood :
      (label : Text) (artifact : Fields) (t t' : Tally) (v : Value)
      → outcome label artifact t v ≡ returns t'
      → t'.failed ≡ 0
      → (t.failed ≡ 0) × IsSignedGood artifact v
  unfolding IsAccepted
  outcome-IsGood label artifact t t' (str sig) e h =
      elim (Run-cases (verify_signed toolkit artifact key)) [
        | inl f ↦ absurd (throws-ne (rw (outcome, f) at e))
        | inr (res, f) ↦
            let (z, good) =
              report_artifact-failed label res t
                (ap (λ r. r.failed) (returns-injective (rw (outcome, f) at e)) ∙ h) in
            (z, (res, f, good))
      ]
  outcome-IsGood label artifact t t' undefined e h =
      (ap (λ r. r.failed) (returns-injective e) ∙ h, tt)
  outcome-IsGood label artifact t t' null e h = (ap (λ r. r.failed) (returns-injective e) ∙ h, tt)
  outcome-IsGood label artifact t t' (bool b) e h =
      (ap (λ r. r.failed) (returns-injective e) ∙ h, tt)
  outcome-IsGood label artifact t t' (num n) e h =
      (ap (λ r. r.failed) (returns-injective e) ∙ h, tt)
  outcome-IsGood label artifact t t' (arr vs) e h =
      (ap (λ r. r.failed) (returns-injective e) ∙ h, tt)
  outcome-IsGood label artifact t t' (obj fs) e h =
      (ap (λ r. r.failed) (returns-injective e) ∙ h, tt)

  verify_file-IsGood :
      (label : Text) (v : Value) (t t' : Tally)
      → verify_file toolkit key (label, v) t ≡ returns t'
      → t'.failed ≡ 0
      → (t.failed ≡ 0) × IsGood (label, v)
  unfolding verify_file
  verify_file-IsGood label (obj artifact) t t' e h = outcome-IsGood label artifact t t' _ e h
  verify_file-IsGood label undefined t t' e h = (ap (λ r. r.failed) (returns-injective e) ∙ h, tt)
  verify_file-IsGood label null t t' e h = (ap (λ r. r.failed) (returns-injective e) ∙ h, tt)
  verify_file-IsGood label (bool b) t t' e h = (ap (λ r. r.failed) (returns-injective e) ∙ h, tt)
  verify_file-IsGood label (num n) t t' e h = (ap (λ r. r.failed) (returns-injective e) ∙ h, tt)
  verify_file-IsGood label (str s) t t' e h = (ap (λ r. r.failed) (returns-injective e) ∙ h, tt)
  verify_file-IsGood label (arr vs) t t' e h = (ap (λ r. r.failed) (returns-injective e) ∙ h, tt)

  verify_artifact_dir-All :
      (files : List (Text × Value)) (t : Tally)
      → exit_code (verify_artifact_dir toolkit key files t) ≡ 0
      → (t.failed ≡ 0) × All IsGood files
  unfolding verify_artifact_dir
  verify_artifact_dir-All [] t h = (exit_code-returns t h, tt)
  verify_artifact_dir-All (file ∷ files) t h = elim (Run-cases (verify_file toolkit key file t)) [
    | inl e ↦ absurd (exit_code-throws (rw (verify_artifact_dir, e) at h))
    | inr (t', e) ↦
        let (z, good) = verify_artifact_dir-All files t' (rw (verify_artifact_dir, e) at h) in
        let (y, first) = verify_file-IsGood file.0 file.1 t t' e z in (y, (first, good))
  ]

  module _ {κ} (P : Tally → Type κ)
      (kept : (label : Text) (ok : Bool) (detail : Text) (t : Tally)
        → P t
        → P (report label ok detail t)) where
    outcome-keeps :
        (label : Text) (artifact : Fields) (t t' : Tally) (v : Value)
        → outcome label artifact t v ≡ returns t'
        → P t
        → P t'
    unfolding report_artifact
    outcome-keeps label artifact t t' (str sig) e h =
        elim (Run-cases (verify_signed toolkit artifact key)) [
          | inl f ↦ absurd (throws-ne (rw (outcome, f) at e))
          | inr (res, f) ↦ subst P (returns-injective (rw (outcome, f) at e)) (kept _ _ _ t h)
        ]
    outcome-keeps label artifact t t' undefined e h = subst P (returns-injective e) h
    outcome-keeps label artifact t t' null e h = subst P (returns-injective e) h
    outcome-keeps label artifact t t' (bool b) e h = subst P (returns-injective e) h
    outcome-keeps label artifact t t' (num n) e h = subst P (returns-injective e) h
    outcome-keeps label artifact t t' (arr vs) e h = subst P (returns-injective e) h
    outcome-keeps label artifact t t' (obj fs) e h = subst P (returns-injective e) h

    verify_file-keeps :
        (label : Text) (v : Value) (t t' : Tally)
        → verify_file toolkit key (label, v) t ≡ returns t'
        → P t
        → P t'
    unfolding verify_file
    verify_file-keeps label (obj artifact) t t' e h = outcome-keeps label artifact t t' _ e h
    verify_file-keeps label undefined t t' e h = subst P (returns-injective e) h
    verify_file-keeps label null t t' e h = subst P (returns-injective e) h
    verify_file-keeps label (bool b) t t' e h = subst P (returns-injective e) h
    verify_file-keeps label (num n) t t' e h = subst P (returns-injective e) h
    verify_file-keeps label (str s) t t' e h = subst P (returns-injective e) h
    verify_file-keeps label (arr vs) t t' e h = subst P (returns-injective e) h

    verify_artifact_dir-keeps :
        (files : List (Text × Value)) (t t' : Tally)
        → verify_artifact_dir toolkit key files t ≡ returns t'
        → P t
        → P t'
    unfolding verify_artifact_dir
    verify_artifact_dir-keeps [] t t' e h = subst P (returns-injective e) h
    verify_artifact_dir-keeps (file ∷ files) t t' e h =
        elim (Run-cases (verify_file toolkit key file t)) [
          | inl f ↦ absurd (throws-ne (rw (verify_artifact_dir, f) at e))
          | inr (u, f) ↦
              verify_artifact_dir-keeps files u t' (rw (verify_artifact_dir, f) at e)
                (verify_file-keeps file.0 file.1 t u f h)
        ]

  -- A run over files that returns has counted the cases that pass and those that fail.
  verify_artifact_dir-IsCounted :
      (files : List (Text × Value)) (t : Tally)
      → verify_artifact_dir toolkit key files blank_tally ≡ returns t
      → IsCounted t
  unfolding passing failing
  verify_artifact_dir-IsCounted files t e =
      verify_artifact_dir-keeps IsCounted report-IsCounted files blank_tally t e
        (record { passes = refl; fails = refl })

  -- A run over files that exits with 0 has verified each artifact in them that has a signature: its
  -- cid, if it has one, its signature and its witnesses.
  pub verify_artifact_dir-IsGood :
      (files : List (Text × Value))
      → exit_code (verify_artifact_dir toolkit key files blank_tally) ≡ 0
      → All IsGood files
  verify_artifact_dir-IsGood files h = (verify_artifact_dir-All files blank_tally h).1
