-- ===== src/Conformance/Vectors.antt =====
-- scripts/verify-artifacts.ts: vectors that are recomputed from their inputs.
use arky_foundation.Common.{
  Bool, true, false, if◌then◌else◌, List, [], ◌∷◌, ◌++◌, Option, none, some, or_else, Text, codes,
  text_eq,
}
use arky_foundation.Platform.{Platform}
use arky_foundation.Json.{Value, undefined, str, Fields, get, get_field, is_undefined, obj}
use arky_foundation.Cli.Keys.{hex_of}
use arky_foundation.Tim.Verify.{is_empty}
use arky_foundation.Offline.Values.{join_with}
use arky_foundation.Conformance.Jcs.{jcs}

-- `failureCascade`, of the outcomes: what the verbs after a failed one get does not depend on them.
unfoldable pub cascade_from : Bool → List Text → List Text
unfolding text_eq
cascade_from stopped [] = []
cascade_from true (v ∷ vs) = codes "skipped" ∷ cascade_from true vs
cascade_from false (v ∷ vs) = v ∷ cascade_from (text_eq v (codes "failed")) vs

unfoldable pub failure_cascade : List Text → List Text
unfolding cascade_from
failure_cascade verbs = cascade_from false verbs

module _ ⦃platform : Platform⦄ where
  -- `eqJson`; two values that are undefined are equal
  unfoldable pub eq_json : Value → Value → Bool
  unfolding jcs text_eq
  eq_json a b = elim (jcs a) [
    | none ↦ elim (jcs b) [ none ↦ true | some t ↦ false ]
    | some s ↦ elim (jcs b) [ none ↦ false | some t ↦ text_eq s t ]
  ]

  -- `JSON.stringify` in a template; `undefined` has no text, and is written by its name
  abbrev shown : Value → Text
  shown undefined = codes "undefined"
  shown v = platform.stringify_json v

  unfoldable pub diffs : Fields → List (Text × Value) → List Text
  unfolding eq_json get_field
  diffs expect [] = []
  diffs expect ((k, v) ∷ got) =
      let rest = diffs expect got in
      let expected = get_field k expect in
      if is_undefined expected
      then rest
      else if eq_json expected v
      then rest
      else (k ++ (codes ": computed " ++ (shown v ++ (codes ", expected " ++ shown expected))))
        ∷ rest

  -- `expectMatch`
  unfoldable pub expect_match : Fields → List (Text × Value) → Bool × Text
  unfolding diffs join_with
  expect_match expect got = let ds = diffs expect got in (is_empty ds, join_with (codes "; ") ds)

  abbrev canonical_mismatch : Text → Text → Text
  canonical_mismatch canonical expected =
      codes "canonical_json mismatch:\n   got: " ++ (canonical ++ (codes "\n   exp: " ++ expected))

  -- the bytes, if the vector names them
  unfoldable pub check_bytes : Text → Value → Bool × Text
  unfolding hex_of text_eq
  check_bytes canonical (str expected) =
      let hex = hex_of (platform.encode_utf8 canonical) in
      if text_eq hex expected
      then (true, [])
      else (false, codes "canonical_bytes_hex mismatch: computed " ++ hex)
  check_bytes canonical _ = (true, [])

  unfoldable pub check_canonical : Value → Text → Value → Bool × Text
  unfolding jcs check_bytes text_eq
  check_canonical input expected bytes =
      let canonical = or_else (jcs input) [] in
      if text_eq canonical expected
      then check_bytes canonical bytes
      else (false, canonical_mismatch canonical expected)

  -- The input of a vector, or what is wrong with it. `message` is the message of the exception that
  -- `JSON.parse` raises on a text.
  unfoldable pub canon_input : (Text → Text) → Value → (Value → Bool × Text) → Bool × Text
  unfolding get
  canon_input message inputs k = elim (get (codes "original") inputs) [
    | undefined ↦ elim (get (codes "original_formatted") inputs) [
      | str s ↦ elim (platform.parse_json s) [
        | none ↦ (false, codes "bad original_formatted: " ++ message s)
        | some v ↦ k v
      ]
      | _ ↦ (false, codes "no canonicalization input (original / original_formatted)")
    ]
    | v ↦ k v
  ]

  -- `verifyCanonVector`, of a vector with the objects `inputs` and `expect`; `none` is `null`
  unfoldable pub verify_canon_vector : (Text → Text) → Fields → Fields → Option (Bool × Text)
  unfolding canon_input check_canonical get_field
  verify_canon_vector message inputs expect = elim (get_field (codes "canonical_json") expect) [
    | str expected ↦ some (
        canon_input message (obj inputs)
          λ v. check_canonical v expected (get_field (codes "canonical_bytes_hex") expect))
    | _ ↦ none
  ]
