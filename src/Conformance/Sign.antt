-- ===== src/Conformance/Sign.antt =====
-- scripts/sign-artifacts.ts: which artifacts of a file are signed, and how.
use arky_foundation.Common.{
  Bool, true, false, not, ◌||◌, ltb, if◌then◌else◌, any, length, List, [], ◌∷◌, ◌++◌, map, Option,
  none, some, Text, codes, text_eq, Run, returns,
}
use arky_foundation.Platform.{Bytes, Platform}
use arky_foundation.Json.{Value, bool, str, obj, Fields, end, field, get, get_field, object, array}
use arky_foundation.Codec.Jws.{split_dots, is_substring}
use arky_foundation.Tim.Create.{without, has_field, replace_field}
use arky_foundation.Offline.Checks.{and_then}
use arky_foundation.Conformance.Toolkit.{Toolkit}
use arky_foundation.Conformance.Jcs.{jcs_canonical, computed_cid}
use arky_foundation.Conformance.Artifact.{witnesses_of, body_of}

-- `{ ...o, [k]: v }`
unfoldable pub put_field : Text → Value → Fields → Fields
unfolding text_eq
put_field k v end = field k v end
put_field k v (field j w fs) = if text_eq j k then field j v fs else field j w (put_field k v fs)

abbrev pub header_of : Text → Value
header_of kid = object (
    (codes "alg", str (codes "EdDSA"))
    ∷ (codes "typ", str (codes "JWS"))
    ∷ (codes "kid", str kid)
    ∷ (codes "b64", bool false)
    ∷ (codes "crit", array (str (codes "b64") ∷ []))
    ∷ [])

-- the two parts that are kept; a part that is not there is written as `undefined`
abbrev pub detached : Text × List Text → Text
detached (header, mid ∷ signature ∷ more) = header ++ (codes ".." ++ signature)
detached (header, _) = header ++ codes "..undefined"

abbrev pub test_kid : Text
test_kid = codes "test-key-2025-01"

abbrev pub witness_kid : Text
witness_kid = codes "test-key-2025-02"

-- a payload segment that is not empty
abbrev has_payload : Text × List Text → Bool
has_payload (header, (c ∷ mid) ∷ signature ∷ []) = true
has_payload _ = false

unfoldable pub is_placeholder_sig : Value → Bool
unfolding is_substring text_eq split_dots
is_placeholder_sig (str sig) =
    (is_substring (codes "placeholder") sig
      || is_substring (codes "MOCK") sig
      || is_substring (codes "example") sig
      || text_eq sig (codes "eyJ.example.kernel.signature")
      || ltb (length sig) 50)
    || has_payload (split_dots sig)
is_placeholder_sig _ = false

unfoldable pub is_placeholder_cid : Value → Bool
unfolding is_substring
is_placeholder_cid (str cid) =
    is_substring (codes "Example") cid
    || is_substring (codes "example") cid
    || is_substring (codes "123456") cid
    || ltb (length cid) 30
is_placeholder_cid _ = false

unfoldable pub has_placeholder_witness : Fields → Bool
unfolding is_placeholder_sig get get_field
has_placeholder_witness tim = elim (witnesses_of tim) [
  | none ↦ false
  | some ws ↦ any is_placeholder_sig ws
]

-- the fields of the `time` of a TIM, if it has an array of witnesses
abbrev pub witnessed_time : Fields → Option (Fields × List Value)
witnessed_time tim = elim (get_field (codes "time") tim) [
  | obj time ↦ elim (witnesses_of tim) [ none ↦ none | some ws ↦ some (time, ws) ]
  | _ ↦ none
]

-- every witness is replaced by one signature with the witness key
unfoldable pub with_witnesses : Option (Fields × List Value) → Text → Fields → Fields
unfolding replace_field put_field
with_witnesses none sig tim = tim
with_witnesses (some (time, ws)) sig tim =
    put_field (codes "time")
      (obj (replace_field (codes "witnesses") (array (map (λ w. str sig) ws)) time)) tim

module _ ⦃platform : Platform⦄ (toolkit : Toolkit) where
  open toolkit use {PrivateKey, compact_sign}

  unfoldable pub sign_jws : Bytes → PrivateKey → Text → Text
  unfolding split_dots
  sign_jws bytes key kid = detached (split_dots (compact_sign bytes (header_of kid) key))

  -- `recomputed !== tim.cid`; a TIM without a text there is not stale
  unfoldable pub has_stale_tim_cid : Fields → Run Bool
  unfolding body_of jcs_canonical computed_cid get_field
  has_stale_tim_cid tim = elim (get_field (codes "cid") tim) [
    | str cid ↦
        and_then (body_of tim)
          λ body. returns (not (text_eq (computed_cid toolkit (jcs_canonical body)) cid))
    | _ ↦ returns false
  ]

  -- `processTim`, of an object
  unfoldable pub process_tim : PrivateKey → PrivateKey → Fields → Run Fields
  unfolding body_of jcs_canonical computed_cid sign_jws put_field with_witnesses get_field get
  process_tim key witness_key tim = and_then (body_of tim) λ body.
      let canonical = jcs_canonical body in
      let bytes = platform.encode_utf8 canonical in
      returns (
        with_witnesses (witnessed_time tim) (sign_jws bytes witness_key witness_kid) (
          put_field (codes "sig") (str (sign_jws bytes key test_kid))
            (put_field (codes "cid") (str (computed_cid toolkit canonical)) tim)))

  -- `processSignedArtifact`. A placeholder `cid` is there, so that its test adds nothing.
  unfoldable pub process_signed_artifact : PrivateKey → Fields → Fields
  unfolding without jcs_canonical computed_cid sign_jws put_field has_field
  process_signed_artifact key artifact =
      let body = without (codes "sig") (without (codes "cid") artifact) in
      let canonical = jcs_canonical body in
      let sig = str (sign_jws (platform.encode_utf8 canonical) key test_kid) in
      if has_field (codes "cid") artifact
      then put_field (codes "sig") sig
          (put_field (codes "cid") (str (computed_cid toolkit canonical)) body)
      else put_field (codes "sig") sig body
