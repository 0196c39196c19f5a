-- ===== src/Conformance/Artifact.antt =====
-- scripts/verify-artifacts.ts: the verification of one signed artifact.
use arky_foundation.Common.{
  ℕ, suc, Bool, true, not, ◌&&◌, if◌then◌else◌, drop, length, List, [], ◌∷◌, ◌++◌, Option, none,
  some, or_else, is_some, ◌==◌, ◌||◌, starts_with, lookup, Text, codes, Run, returns, throws,
}
use arky_foundation.Number.{integer}
use arky_foundation.Engine.{Engine}
use arky_foundation.Platform.{Bytes, Platform}
use arky_foundation.Json.{Value, str, arr, Fields, get, get_field, items, is_undefined}
use arky_foundation.Codec.Base64.{base64url_encode}
use arky_foundation.Codec.Jws.{split_dots}
use arky_foundation.Tim.Create.{without, strip_witnesses}
use arky_foundation.Tim.DidKey.{did_key_prefix}
use arky_foundation.Tim.Verify.{is_value, is_empty}
use arky_foundation.Offline.Values.{join_with}
use arky_foundation.Proxy.Message.{string_of}
use arky_foundation.Conformance.Toolkit.{Toolkit}
use arky_foundation.Conformance.Jcs.{jcs_canonical, computed_cid}

-- The members `x` of the test keys, by `kid`.
abbrev pub test_public_keys_by_kid : List (Text × Text)
test_public_keys_by_kid =
    (codes "test-key-2025-01", codes "11qYAYKxCrfVS_7TyWQHOg7hcvPapiMlrwIaaPcHURo")
    ∷ (codes "test-key-2025-02", codes "e_vAtyLIHAXMh1TRvhFUNrvifhH5ZzXKGwGKk9zgB9I")
    ∷ (codes "notary-key-2025-01", codes "HDl_cQgT9vSiYMsH8q1dOdyb5prCuQYuRVBRhTTk1P8")
    ∷ []

-- the bytes of a key behind the prefix of Ed25519 keys
abbrev pub key_bytes : Bytes → Option Bytes
key_bytes (a ∷ b ∷ x) = if (a == 0xed) && (b == 0x01) then some x else none
key_bytes _ = none

pub record CheckResult : Type 0 where
  pub has_cid : Bool
  pub cid_match : Bool
  pub sig_valid : Bool
  pub witnesses_valid : Bool
  pub witness_count : ℕ
  pub computed_cid : Text
  pub stored_cid : Text
  pub detail : Text

-- the `time.witnesses` of an artifact
abbrev pub witnesses_of : Fields → Option (List Value)
witnesses_of artifact = elim (get (codes "witnesses") (get_field (codes "time") artifact)) [
  | arr vs ↦ some (items vs)
  | _ ↦ none
]

-- The body: the artifact without `cid`, `sig` and `time.witnesses`.
unfoldable pub body_of : Fields → Run Fields
unfolding without strip_witnesses get_field
body_of artifact =
    let rest = without (codes "sig") (without (codes "cid") artifact) in
    strip_witnesses (get_field (codes "time") rest) rest

module _ ⦃engine : Engine⦄ ⦃platform : Platform⦄ (toolkit : Toolkit) where
  open toolkit use {Key, import_key, protected_header, verify_failure, decode}

  -- `resolveDidKey`
  unfoldable pub resolve_did : Value → Option Key
  unfolding starts_with base64url_encode
  resolve_did (str id) =
      if starts_with did_key_prefix id
      then (elim (decode (drop 8 id)) [
        | none ↦ none
        | some decoded ↦ elim (key_bytes decoded) [
          | none ↦ none
          | some x ↦ import_key (base64url_encode x)
        ]
      ])
      else none
  resolve_did _ = none

  -- `resolveWitnessKey`. A `kid` that names an inherited property imports no key, like one that
  -- names nothing.
  unfoldable pub resolve_witness_key : Text → Option Key
  unfolding resolve_did lookup get
  resolve_witness_key sig = elim (protected_header sig) [
    | none ↦ none
    | some header ↦ elim (get (codes "kid") header) [
      | str kid ↦ elim (lookup kid test_public_keys_by_kid) [
        | some x ↦ import_key x
        | none ↦ resolve_did (str kid)
      ]
      | _ ↦ none
    ]
  ]

  abbrev witness_label : ℕ → Text → Text
  witness_label i message =
      codes "witness[" ++ (engine.text_of_number (integer i) ++ (codes "]: " ++ message))

  -- the failure of a witness whose parts are these
  unfoldable pub witness_parts : Text → Text → Text × List Text → Option Text
  unfolding resolve_witness_key
  witness_parts canonical w (header, [] ∷ signature ∷ []) = elim (resolve_witness_key w) [
    | none ↦ some (codes "unresolvable kid")
    | some key ↦ verify_failure header signature (platform.encode_utf8 canonical) key
  ]
  witness_parts canonical w (header, (c ∷ mid) ∷ signature ∷ []) =
      some (codes "payload segment must be empty (detached, RFC 7797)")
  witness_parts canonical w _ = some (codes "not a compact JWS")

  unfoldable pub witness_failure : Text → Value → Option Text
  unfolding witness_parts split_dots
  witness_failure canonical (str w) = witness_parts canonical w (split_dots w)
  witness_failure canonical _ = some (codes "not a compact JWS")

  unfoldable pub failures_from : ℕ → Text → List Value → List Text
  unfolding witness_failure
  failures_from i canonical [] = []
  failures_from i canonical (w ∷ ws) =
      let rest = failures_from (suc i) canonical ws in
      elim (witness_failure canonical w) [ none ↦ rest | some e ↦ witness_label i e ∷ rest ]

  -- `verifyWitnesses`: the count, and the failures
  unfoldable pub verify_witnesses : Fields → Text → ℕ × List Text
  unfolding failures_from get get_field
  verify_witnesses artifact canonical = elim (witnesses_of artifact) [
    | none ↦ (0, [])
    | some ws ↦ (length ws, failures_from 0 canonical ws)
  ]

  -- The failure of the signature, `none` where it verifies. The middle part is not looked at.
  unfoldable pub signature_parts : Text → Key → Text × List Text → Option Text
  signature_parts canonical key (header, mid ∷ signature ∷ []) =
      elim (verify_failure header signature (platform.encode_utf8 canonical) key) [
        | none ↦ none
        | some message ↦ some (codes "sig verify failed: " ++ message)
      ]
  signature_parts canonical key _ = some (codes "sig missing or not detached-compact form")

  unfoldable pub signature_failure : Text → Key → Value → Option Text
  unfolding signature_parts split_dots
  signature_failure canonical key (str sig) = signature_parts canonical key (split_dots sig)
  signature_failure canonical key _ = some (codes "sig missing or not detached-compact form")

  -- `detail` of the signature and then of the witnesses
  abbrev detail_with : Text → List Text → Text
  detail_with detail [] = detail
  detail_with [] (e ∷ es) = join_with (codes "; ") (e ∷ es)
  detail_with (c ∷ s) (e ∷ es) = (c ∷ s) ++ (codes "; " ++ join_with (codes "; ") (e ∷ es))

  -- `storedCid === computedCid`, where there is one
  abbrev pub cid_matches : Value → Text → Bool
  cid_matches stored computed = if is_undefined stored then true else is_value computed stored

  abbrev pub signing_key : Fields → Key → Key
  signing_key artifact key =
      or_else (resolve_did (get (codes "id") (get_field (codes "identity") artifact))) key

  -- the result of an artifact with this canonical text
  unfoldable pub result_of : Fields → Key → Text → Text → CheckResult
  unfolding computed_cid signature_failure verify_witnesses resolve_did join_with get get_field
  result_of artifact key canonical stored_text =
      let stored = get_field (codes "cid") artifact in
      let computed = computed_cid toolkit canonical in
      let failure =
        signature_failure canonical (signing_key artifact key) (get_field (codes "sig") artifact) in
      let (count, failures) = verify_witnesses artifact canonical in
      record {
        has_cid = not (is_undefined stored);
        cid_match = cid_matches stored computed;
        sig_valid = not (is_some failure);
        witnesses_valid = is_empty failures;
        witness_count = count;
        computed_cid = computed;
        stored_cid = stored_text;
        detail = detail_with (or_else failure []) failures;
      }

  -- `verifyArtifact` of an object; it raises where the body or `String(cid)` does.
  unfoldable pub verify_signed : Fields → Key → Run CheckResult
  unfolding body_of jcs_canonical result_of string_of
  verify_signed artifact key = elim (body_of artifact) [
    | throws ↦ throws
    | returns body ↦ elim (string_of (get_field (codes "cid") artifact)) [
      | none ↦ throws
      | some stored ↦ returns (result_of artifact key (jcs_canonical body) stored)
    ]
  ]

-- The outcome that `reportArtifact` reports.
unfoldable pub is_verified : CheckResult → Bool
is_verified res = (not res.has_cid || res.cid_match) && (res.sig_valid && res.witnesses_valid)
