-- ===== src/Tim/Verify.antt =====
-- packages/core/src/tim.ts: `verifyTim`.
use arky_foundation.Common.{
  ℕ, suc, Bool, true, false, not, ◌&&◌, if◌then◌else◌, List, [], ◌∷◌, ◌++◌, Option, none, some,
  Text, codes, text_eq, Run, returns, throws,
}
use arky_foundation.Number.{Number, num_le, integer}
use arky_foundation.Engine.{Engine}
use arky_foundation.Platform.{Bytes, Platform}
use arky_foundation.Json.{Value, str, arr, obj, Fields, get_field, get, items, is_undefined}
use arky_foundation.Json.Canonical.{canonicalize}
use arky_foundation.Codec.Cid.{cid_from_canonical}
use arky_foundation.Codec.Jws.{verify_detached}
use arky_foundation.Tim.Create.{canonical_body}

pub record VerifyResult : Type 0 where
  pub valid : Bool
  pub errors : List Text
  pub schema_valid : Bool
  pub cid_valid : Bool
  pub signature_valid : Bool
  pub witnesses_valid : Bool
  pub fresh : Bool
  pub missing_fields : List Text

-- `REQUIRED_PATHS`, each with its segments
abbrev pub required_paths : List (Text × List Text)
required_paths =
    (codes "time.ts", codes "time" ∷ codes "ts" ∷ [])
    ∷ (codes "identity.id", codes "identity" ∷ codes "id" ∷ [])
    ∷ (codes "measurement.name", codes "measurement" ∷ codes "name" ∷ [])
    ∷ (codes "measurement.value", codes "measurement" ∷ codes "value" ∷ [])
    ∷ (codes "measurement.method", codes "measurement" ∷ codes "method" ∷ [])
    ∷ (codes "cid", codes "cid" ∷ [])
    ∷ (codes "sig", codes "sig" ∷ [])
    ∷ []

unfoldable pub get_path : List Text → Value → Value
unfolding get
get_path [] v = v
get_path (k ∷ ks) v = get_path ks (get k v)

unfoldable pub missing_from : Value → List (Text × List Text) → List Text
unfolding get_path
missing_from tim [] = []
missing_from tim ((name, path) ∷ paths) =
    if is_undefined (get_path path tim)
    then name ∷ missing_from tim paths
    else missing_from tim paths

abbrev pub missing_result : List Text → VerifyResult
missing_result missing = record {
  valid = false;
  errors = codes "tim.missing_required" ∷ [];
  schema_valid = false;
  cid_valid = false;
  signature_valid = false;
  witnesses_valid = false;
  fresh = true;
  missing_fields = missing;
}

abbrev pub non_finite_result : VerifyResult
non_finite_result = record {
  valid = false;
  errors = codes "tim.non_finite" ∷ [];
  schema_valid = true;
  cid_valid = false;
  signature_valid = false;
  witnesses_valid = false;
  fresh = true;
  missing_fields = [];
}

-- `errors.push(e)` where the check fails
abbrev pub unless : Bool → Text → List Text
unless true e = []
unless false e = e ∷ []

-- `tim.cid === cid`
abbrev pub is_value : Text → Value → Bool
is_value s (str t) = text_eq s t
is_value s _ = false

abbrev pub witness_list : Value → List Value
witness_list (arr vs) = items vs
witness_list _ = []

abbrev pub signature_error : Option Bytes → Text
signature_error none = codes "tim.key_unresolved"
signature_error (some key) = codes "tim.invalid_signature"

abbrev pub is_empty : List Text → Bool
is_empty [] = true
is_empty _ = false

abbrev pub verdict : Bool → Option Bytes → Bool → List Text → Bool → VerifyResult
verdict cid_valid key signature_valid witness_errors fresh = record {
  valid = cid_valid && (signature_valid && (is_empty witness_errors && fresh));
  errors =
      unless cid_valid (codes "tim.cid_mismatch")
      ++ (unless signature_valid (signature_error key)
          ++ (witness_errors ++ unless fresh (codes "tim.expired")));
  schema_valid = true;
  cid_valid = cid_valid;
  signature_valid = signature_valid;
  witnesses_valid = is_empty witness_errors;
  fresh = fresh;
  missing_fields = [];
}

-- `options.at`: epoch milliseconds or a text
pub data At : Type 0 where
  millis : Number → At
  date : Text → At

module _ ⦃engine : Engine⦄ ⦃platform : Platform⦄ where
  -- `verifyDetached` of any value; one that is no text has no `split`
  unfoldable pub verify_value : Value → Bytes → Bytes → Run Bool
  unfolding verify_detached
  verify_value (str jws) payload key = verify_detached jws payload key
  verify_value _ payload key = throws

  unfoldable pub now_of : At → Number
  now_of (millis n) = n
  now_of (date s) = engine.parse_date s

  unfoldable pub is_fresh : Option At → Value → Bool
  unfolding now_of num_le
  is_fresh (some at) (str exp) = not (num_le (engine.parse_date exp) (now_of at))
  is_fresh _ _ = true

  abbrev pub witness_error : ℕ → Text
  witness_error i = codes "tim.invalid_witness[" ++ engine.text_of_number (integer i) ++ codes "]"

  -- `resolve_key tim w` is the caller's resolver, where `w` is the property `__witness` of the object
  -- that it is given: the witness that is looked at, or what the TIM itself has under that name.
  module _ (resolve_key : Fields → Value → Run (Option Bytes)) where
    -- whether a signature verifies under a key that was resolved; without a key it does not
    unfoldable pub verify_resolved : Option Bytes → Value → Bytes → Run Bool
    unfolding verify_value
    verify_resolved none sig payload = returns false
    verify_resolved (some key) sig payload = verify_value sig payload key

    unfoldable pub check_witnesses : ℕ → Fields → Bytes → List Value → Run (List Text)
    unfolding verify_resolved
    check_witnesses i tim payload [] = returns []
    check_witnesses i tim payload (w ∷ ws) = elim (resolve_key tim w) [
      | throws ↦ throws
      | returns key ↦ elim (verify_resolved key w payload) [
        | throws ↦ throws
        | returns good ↦ elim (check_witnesses (suc i) tim payload ws) [
          | throws ↦ throws
          | returns es ↦ returns (unless good (witness_error i) ++ es)
        ]
      ]
    ]

    -- behind the canonicalization
    unfoldable pub verify_canonical : Fields → Option At → Text → Run VerifyResult
    unfolding verify_resolved check_witnesses is_fresh cid_from_canonical get get_field text_eq
    verify_canonical tim at canonical =
        let payload = platform.encode_utf8 canonical in
        elim (resolve_key tim (get_field (codes "__witness") tim)) [
          | throws ↦ throws
          | returns key ↦ elim (verify_resolved key (get_field (codes "sig") tim) payload) [
            | throws ↦ throws
            | returns signed ↦
                elim (check_witnesses 0 tim payload
                  (witness_list (get (codes "witnesses") (get_field (codes "time") tim)))) [
                    | throws ↦ throws
                    | returns witness_errors ↦ returns (
                        verdict
                          (is_value (cid_from_canonical canonical) (get_field (codes "cid") tim))
                          key signed witness_errors (is_fresh at (get_field (codes "exp") tim)))
                  ]
          ]
        ]

    -- `none` where the `try` catches
    unfoldable pub canonical_text : Run Fields → Option Text
    unfolding canonicalize
    canonical_text throws = none
    canonical_text (returns body) = canonicalize (obj body)

    unfoldable pub verify_complete : Fields → Option At → Option Text → Run VerifyResult
    verify_complete tim at none = returns non_finite_result
    verify_complete tim at (some canonical) = verify_canonical tim at canonical

    unfoldable pub verify_schema : Fields → Option At → List Text → Run VerifyResult
    verify_schema tim at (m ∷ ms) = returns (missing_result (m ∷ ms))
    verify_schema tim at [] = verify_complete tim at (canonical_text (canonical_body tim))

    unfoldable pub verify_tim : Fields → Option At → Run VerifyResult
    verify_tim tim at = verify_schema tim at (missing_from (obj tim) required_paths)
