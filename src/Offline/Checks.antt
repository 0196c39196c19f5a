-- ===== src/Offline/Checks.antt =====
-- packages/mcp/src/verify.ts: `verifyArtifact`, `load`, and the checks of the evidence of a call.
use arky_foundation.Common.{
  Bool, false, if◌then◌else◌, List, [], ◌∷◌, ◌++◌, none, some, Text, codes, Run, returns, throws,
}
use arky_foundation.Engine.{Engine}
use arky_foundation.Platform.{Platform}
use arky_foundation.Assert.Syntax.{ok, thrown, out_of_fuel}
use arky_foundation.Json.{Value, undefined, obj, get, object, of_members}
use arky_foundation.Json.Canonical.{canonicalize}
use arky_foundation.Json.Parse.{parse_strict}
use arky_foundation.Codec.Cid.{cid_from_canonical}
use arky_foundation.Tim.Create.{without}
use arky_foundation.Tim.DidKey.{resolve_did_key}
use arky_foundation.Tim.Verify.{
  VerifyResult, verify_tim, verify_value, is_value, unless, missing_from, missing_result,
  required_paths,
}
use arky_foundation.Offline.Values.{own_properties, includes_value, text_of, join_with, checked}

abbrev pub and_then {ℓ κ} : {A : Type ℓ} {B : Type κ} → Run A → (A → Run B) → Run B
and_then throws f = throws
and_then (returns a) f = f a

-- the errors of one check and then of another
abbrev pub also : Run (List Text) → Run (List Text) → Run (List Text)
also a b = and_then a (λ es. and_then b (λ fs. returns (es ++ fs)))

-- the name and the content of a file
abbrev pub File : Type 0
File = Text × Text

module _ ⦃engine : Engine⦄ ⦃platform : Platform⦄ where
  unfoldable pub load : Text → Run Value
  unfolding parse_strict
  load s = elim (parse_strict s) [ ok v ↦ returns v | thrown e ↦ throws | out_of_fuel ↦ throws ]

  -- `key && verifyDetached(…)`
  unfoldable pub signature_holds : Value → Value → Text → Run Bool
  unfolding resolve_did_key verify_value
  signature_holds did sig canonical =
      and_then
        (resolve_did_key (of_members ((codes "identity", object ((codes "id", did) ∷ [])) ∷ []))
          undefined)
        λ found. elim found [
          | none ↦ returns false
          | some key ↦ verify_value sig (platform.encode_utf8 canonical) key
        ]

  -- The errors of an artifact. What the function returns besides, no caller reads.
  unfoldable pub verify_artifact : Value → Value → Text → Run (List Text)
  unfolding own_properties without canonicalize cid_from_canonical signature_holds get
  verify_artifact artifact did label = and_then (own_properties artifact) λ fs.
      elim (canonicalize (obj (without (codes "sig") (without (codes "cid") fs)))) [
        | none ↦ throws
        | some canonical ↦
            and_then (signature_holds did (get (codes "sig") artifact) canonical) λ good. returns (
              unless (is_value (cid_from_canonical canonical) (get (codes "cid") artifact))
                (label ++ codes ": cid mismatch")
              ++ unless good (label ++ codes ": signature invalid"))
      ]

  -- `verifyTim` of what a file holds
  unfoldable pub verify_loaded : Value → Run VerifyResult
  unfolding verify_tim missing_from resolve_did_key
  verify_loaded (obj fs) = verify_tim resolve_did_key fs none
  verify_loaded v = returns (missing_result (missing_from v required_paths))

  abbrev pub tim_errors : Text → Text → VerifyResult → List Text
  tim_errors label name res =
      unless res.valid
        (label ++ (codes " " ++ (name ++ (codes ": " ++ join_with (codes ", ") res.errors))))

  -- the values of the TIM files of a call, and their errors
  unfoldable pub check_tims : Text → List File → Run (List Text × List Value)
  unfolding load verify_loaded join_with
  check_tims label [] = returns ([], [])
  check_tims label ((name, content) ∷ files) =
      let rest = check_tims label files in
      and_then (load content) λ tim. and_then (verify_loaded tim) λ res.
        and_then rest λ (errors, tims). returns (tim_errors label name res ++ errors, tim ∷ tims)

  -- the TIMs that the decision does not cite
  unfoldable pub check_cited : Text → List Value → List Value → Run (List Text)
  unfolding includes_value text_of get
  check_cited label cited [] = returns []
  check_cited label cited (tim ∷ tims) =
      let rest = check_cited label cited tims in
      let cid = get (codes "cid") tim in
      let missing : Run (List Text) =
        and_then (text_of cid) λ s.
          returns ((label ++ (codes ": TIM " ++ (s ++ codes " not cited by decision"))) ∷ []) in
      also (checked tim (if includes_value cid cited then returns [] else missing)) rest
