-- ===== src/Conformance/Recomputed.antt =====
-- scripts/verify-artifacts.ts: what the recomputed vectors and the comparison with an expectation say.
use arky_foundation.Common.{
  Bool, true, false, List, [], ◌∷◌, ◌++◌, map, some, Text, codes, text_eq, text_eq_refl, append-nil,
  All, ◌≡◌, ◌↔◌, ◌⊎◌, refl, ap, sym, ◌∙◌, inl, inr, Bool-cases, or_else,
}
use arky_foundation.Engine.{Engine}
use arky_foundation.Platform.{Platform}
use arky_foundation.Json.{
  Value, undefined, null, bool, num, str, arr, obj, Fields, get, get_field, is_undefined,
}
use arky_foundation.Json.Canonical.{canonicalize}
use arky_foundation.Tim.Verify.{is_empty}
use arky_foundation.Offline.Signed.{cons-ne}
use arky_foundation.Offline.Valid.{empty_of}
use arky_foundation.Conformance.Jcs.{jcs}
use arky_foundation.Conformance.Agrees.{IsPlain, jcs-canonicalize}
use arky_foundation.Conformance.Vectors.{
  cascade_from, failure_cascade, eq_json, diffs, expect_match, canon_input, check_canonical,
  check_bytes, verify_canon_vector,
}

abbrev failed : Text
failed = codes "failed"

abbrev skipped : List Text → List Text
skipped vs = map (λ v. codes "skipped") vs

cascade_from-true : (vs : List Text) → cascade_from true vs ≡ skipped vs
unfolding cascade_from
cascade_from-true [] = refl
cascade_from-true (v ∷ vs) = ap (λ ws. codes "skipped" ∷ ws) (cascade_from-true vs)

cascade_from-false :
    (before rest : List Text)
    → All (λ v. text_eq v failed ≡ false) before
    → cascade_from false (before ++ rest) ≡ before ++ cascade_from false rest
unfolding cascade_from
cascade_from-false [] rest h = refl
cascade_from-false (v ∷ before) rest h =
    rw (cascade_from, h.0) (ap (λ ws. v ∷ ws) (cascade_from-false before rest h.1))

-- The outcomes up to the first failed one are kept, and it too; each verb behind it is skipped.
failure_cascade-stops :
    (before after : List Text)
    → All (λ v. text_eq v failed ≡ false) before
    → (failure_cascade before ≡ before)
      × (failure_cascade (before ++ failed ∷ after) ≡ before ++ failed ∷ skipped after)
unfolding failure_cascade cascade_from
failure_cascade-stops before after h = (
  ap (cascade_from false) (sym (append-nil before))
      ∙ (cascade_from-false before [] h ∙ append-nil before),
  cascade_from-false before (failed ∷ after) h
      ∙ ap (λ ws. before ++ ws)
          (rw (cascade_from, text_eq_refl failed)
            (ap (λ ws. failed ∷ ws) (cascade_from-true after))),
)

is_undefined-true : (v : Value) → is_undefined v ≡ true → v ≡ undefined
is_undefined-true undefined h = refl
is_undefined-true null h = cc
is_undefined-true (bool b) h = cc
is_undefined-true (num n) h = cc
is_undefined-true (str s) h = cc
is_undefined-true (arr vs) h = cc
is_undefined-true (obj fs) h = cc

module _ ⦃platform : Platform⦄ where
  -- A computed field is as expected, if something is expected of it.
  abbrev IsMet : Fields → Text × Value → Type 0
  IsMet expect (k, v) = (get_field k expect ≡ undefined) ⊎ (eq_json (get_field k expect) v ≡ true)

  diffs-eq_nil :
      (expect : Fields) (got : List (Text × Value)) → diffs expect got ≡ [] → All (IsMet expect) got
  unfolding diffs
  diffs-eq_nil expect [] h = tt
  diffs-eq_nil expect ((k, v) ∷ got) h = elim (Bool-cases (is_undefined (get_field k expect))) [
    | inl u ↦ (inl (is_undefined-true _ u), diffs-eq_nil expect got (rw (diffs, u) at h))
    | inr u ↦ elim (Bool-cases (eq_json (get_field k expect) v)) [
      | inl e ↦ (inr e, diffs-eq_nil expect got (rw (diffs, u, e) at h))
      | inr e ↦ absurd (cons-ne (rw (diffs, u, e) at h))
    ]
  ]

  diffs-All :
      (expect : Fields) (got : List (Text × Value)) → All (IsMet expect) got → diffs expect got ≡ []
  unfolding diffs
  diffs-All expect [] h = refl
  diffs-All expect ((k, v) ∷ got) h = elim h.0 [
    | inl u ↦ rw (diffs, u) (diffs-All expect got h.1)
    | inr e ↦ elim (Bool-cases (is_undefined (get_field k expect))) [
      | inl u ↦ rw (diffs, u) (diffs-All expect got h.1)
      | inr u ↦ rw (diffs, u, e) (diffs-All expect got h.1)
    ]
  ]

  -- A check is passed exactly when each field that it computes, and of which something is expected,
  -- has the canonical text of what is expected.
  expect_match_iff :
      (expect : Fields) (got : List (Text × Value))
      → ((expect_match expect got).0 ≡ true) ↔ All (IsMet expect) got
  unfolding expect_match
  expect_match_iff expect got =
      (λ h. diffs-eq_nil expect got (empty_of _ h), λ h. ap is_empty (diffs-All expect got h))

module _ ⦃engine : Engine⦄ ⦃platform : Platform⦄ where
  canon_input-original :
      (message : Text → Text) (inputs : Value) (v : Value) (k : Value → Bool × Text)
      → get (codes "original") inputs ≡ v
      → IsPlain v
      → canon_input message inputs k ≡ k v
  unfolding canon_input IsPlain
  canon_input-original message inputs undefined k i p = absurd p
  canon_input-original message inputs null k i p = rw (canon_input, i) refl
  canon_input-original message inputs (bool b) k i p = rw (canon_input, i) refl
  canon_input-original message inputs (num n) k i p = rw (canon_input, i) refl
  canon_input-original message inputs (str s) k i p = rw (canon_input, i) refl
  canon_input-original message inputs (arr vs) k i p = rw (canon_input, i) refl
  canon_input-original message inputs (obj fs) k i p = rw (canon_input, i) refl

  check_canonical-jcs :
      (v : Value) (s : Text) → jcs v ≡ some s → check_canonical v s undefined ≡ (true, [])
  unfolding check_canonical check_bytes
  check_canonical-jcs v s h = rw (check_canonical, h, or_else, text_eq_refl s) refl

  -- A canonicalization vector passes if it expects what the SDK writes for its input, where that is
  -- a value on which the scripts agree with the SDK, and if it expects no bytes.
  verify_canon_vector-canonicalize :
      (message : Text → Text) (inputs expect : Fields) (v : Value) (s : Text)
      → get_field (codes "original") inputs ≡ v
      → IsPlain v
      → get_field (codes "canonical_json") expect ≡ str s
      → get_field (codes "canonical_bytes_hex") expect ≡ undefined
      → canonicalize v ≡ some s
      → verify_canon_vector message inputs expect ≡ some (true, [])
  unfolding verify_canon_vector get
  verify_canon_vector-canonicalize message inputs expect v s i p e b c =
      rw (verify_canon_vector, e, b)
        (ap some (
          canon_input-original message (obj inputs) v (λ w. check_canonical w s undefined) i p
          ∙ check_canonical-jcs v s (sym (jcs-canonicalize v p) ∙ c)))
