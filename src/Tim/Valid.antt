-- ===== src/Tim/Valid.antt =====
-- packages/core/src/tim.ts: what a valid result of `verifyTim` guarantees.
use arky_foundation.Common.{
  Bool, true, false, ◌&&◌, List, [], ◌∷◌, Option, none, some, Text, codes, ◌≡◌, refl, ◌≢◌, inl, inr,
  arith, Run, returns, ap, ◌∙◌, sym, returns-injective, Run-cases, throws-ne,
}
use arky_foundation.Engine.{Engine}
use arky_foundation.Platform.{Bytes, Platform}
use arky_foundation.Json.{Value, obj, Fields, get_field, get}
use arky_foundation.Codec.Cid.{cid_from_canonical}
use arky_foundation.Tim.Create.{canonical_body}
use arky_foundation.Tim.Verify.{
  VerifyResult, At, required_paths, missing_from, verify_value, verify_resolved, check_witnesses,
  witness_list, is_empty, is_value, is_fresh, verdict, verify_canonical, canonical_text,
  verify_complete, verify_schema, verify_tim,
}

false-ne : false ≢ true
false-ne e = cc

and_true : (a b : Bool) → a && b ≡ true → (a ≡ true) × (b ≡ true)
and_true true b h = (refl, h)
and_true false b h = absurd (ground arith)

empty_of : (es : List Text) → is_empty es ≡ true → es ≡ []
empty_of [] h = refl
empty_of (e ∷ es) h = absurd (ground arith)

module _ ⦃engine : Engine⦄ ⦃platform : Platform⦄
    (resolve_key : Fields → Value → Run (Option Bytes)) where
  resolved :
      (key : Option Bytes) (sig : Value) (payload : Bytes)
      → verify_resolved resolve_key key sig payload ≡ returns true
      → (k : Bytes) × (key ≡ some k) × (verify_value sig payload k ≡ returns true)
  unfolding verify_resolved
  resolved none sig payload h = absurd (ground arith)
  resolved (some k) sig payload h = (k, refl, h)

  -- A canonical text for which the signature, the identifier, every witness and the freshness hold.
  pub record Holds (tim : Fields) (at : Option At) (canonical : Text) : Type 0 where
    pub key : Bytes
    pub resolves : resolve_key tim (get_field (codes "__witness") tim) ≡ returns (some key)
    pub signed :
        verify_value (get_field (codes "sig") tim) (platform.encode_utf8 canonical) key
        ≡ returns true
    pub witnessed :
        check_witnesses resolve_key 0 tim
          (platform.encode_utf8 canonical)
          (witness_list (get (codes "witnesses") (get_field (codes "time") tim)))
        ≡ returns []
    pub identified : is_value (cid_from_canonical canonical) (get_field (codes "cid") tim) ≡ true
    pub fresh : is_fresh at (get_field (codes "exp") tim) ≡ true

  judge :
      (tim : Fields) (at : Option At) (canonical : Text) (key : Option Bytes) (good : Bool)
      (es : List Text) (r : VerifyResult)
      → resolve_key tim (get_field (codes "__witness") tim) ≡ returns key
      → verify_resolved resolve_key key
          (get_field (codes "sig") tim)
          (platform.encode_utf8 canonical)
        ≡ returns good
      → check_witnesses resolve_key 0 tim
          (platform.encode_utf8 canonical)
          (witness_list (get (codes "witnesses") (get_field (codes "time") tim)))
        ≡ returns es
      → returns (
          verdict
            (is_value (cid_from_canonical canonical) (get_field (codes "cid") tim))
            key
            good
            es
            (is_fresh at (get_field (codes "exp") tim)))
        ≡ returns r
      → r.valid ≡ true
      → Holds tim at canonical
  judge tim at canonical key good es r e f g h v =
      let all_hold : (is_value (cid_from_canonical canonical) (get_field (codes "cid") tim)
            && (good && (is_empty es && is_fresh at (get_field (codes "exp") tim))))
          ≡ true =
        ap (λ x. x.valid) (returns-injective h) ∙ v in
      let (identified, rest) = and_true _ _ all_hold in
      let (signed, rest) = and_true _ _ rest in
      let (witnessed, fresh) = and_true _ _ rest in
      let (k, p, q) =
        resolved key (get_field (codes "sig") tim) (platform.encode_utf8 canonical)
          (f ∙ ap returns signed) in
      record {
        key = k;
        resolves = e ∙ ap returns p;
        signed = q;
        witnessed = g ∙ ap returns (empty_of es witnessed);
        identified = identified;
        fresh = fresh;
      }

  verify_canonical-Holds :
      (tim : Fields) (at : Option At) (canonical : Text) (r : VerifyResult)
      → verify_canonical resolve_key tim at canonical ≡ returns r
      → r.valid ≡ true
      → Holds tim at canonical
  unfolding verify_canonical
  verify_canonical-Holds tim at canonical r h v =
      elim (Run-cases (resolve_key tim (get_field (codes "__witness") tim))) [
        | inl e ↦ absurd (throws-ne (rw (verify_canonical, e) at h))
        | inr (key, e) ↦
            elim (Run-cases (
              verify_resolved resolve_key key (get_field (codes "sig") tim)
                (platform.encode_utf8 canonical))) [
                  | inl f ↦ absurd (throws-ne (rw (verify_canonical, e, f) at h))
                  | inr (good, f) ↦
                      elim (Run-cases (
                        check_witnesses resolve_key 0 tim (platform.encode_utf8 canonical) (
                          witness_list (get (codes "witnesses") (get_field (codes "time") tim))))) [
                            | inl g ↦ absurd (throws-ne (rw (verify_canonical, e, f, g) at h))
                            | inr (es, g) ↦
                                judge tim at canonical key good es r e f g
                                  (rw (verify_canonical, e, f, g) at h) v
                          ]
                ]
      ]

  not_valid : {r s : VerifyResult} → returns s ≡ returns r → s.valid ≡ false → r.valid ≢ true
  not_valid e f h = false-ne (sym f ∙ (ap (λ x. x.valid) (returns-injective e) ∙ h))

  complete-Holds :
      (tim : Fields) (at : Option At) (o : Option Text) (r : VerifyResult)
      → verify_complete resolve_key tim at o ≡ returns r
      → r.valid ≡ true
      → (canonical : Text) × (o ≡ some canonical) × Holds tim at canonical
  unfolding verify_complete
  complete-Holds tim at none r h v = absurd (not_valid h refl v)
  complete-Holds tim at (some canonical) r h v =
      (canonical, refl, verify_canonical-Holds tim at canonical r h v)

  schema-Holds :
      (tim : Fields) (at : Option At) (missing : List Text) (r : VerifyResult)
      → verify_schema resolve_key tim at missing ≡ returns r
      → r.valid ≡ true
      → (missing ≡ [])
        × (canonical : Text) × (canonical_text resolve_key (canonical_body tim) ≡ some canonical)
        × Holds tim at canonical
  unfolding verify_schema
  schema-Holds tim at (m ∷ ms) r h v = absurd (not_valid h refl v)
  schema-Holds tim at [] r h v =
      let (canonical, e, k) =
        complete-Holds tim at (canonical_text resolve_key (canonical_body tim)) r h v in
      (refl, canonical, e, k)

  -- If the verification of a TIM returns a valid result, nothing that is required is missing; the body
  -- has a canonical text; a key is resolved for which the signature of that text verifies; the TIM's
  -- `cid` is the text's; every witness passes; and the TIM has not expired at the time that is asked for.
  pub verify_tim-valid :
      (tim : Fields) (at : Option At) (r : VerifyResult)
      → verify_tim resolve_key tim at ≡ returns r
      → r.valid ≡ true
      → (missing_from (obj tim) required_paths ≡ [])
        × (canonical : Text) × (canonical_text resolve_key (canonical_body tim) ≡ some canonical)
        × Holds tim at canonical
  unfolding verify_tim
  verify_tim-valid tim at r h v = schema-Holds tim at (missing_from (obj tim) required_paths) r h v
