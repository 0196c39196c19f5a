-- ===== src/Conformance/Accepted.antt =====
-- scripts/sign-artifacts.ts and scripts/verify-artifacts.ts: a TIM that the one has signed is accepted
-- by the other.
use arky_foundation.Common.{
  true, false, Bool-cases, inl, inr, List, [], map, Option, or_else, none, some, Text, codes,
  text_eq, text_eq_refl, returns, throws, ◌≡◌, refl, ap, subst, ◌∙◌, returns-injective,
}
use arky_foundation.Engine.{Engine}
use arky_foundation.Platform.{Platform}
use arky_foundation.Json.{Value, str, arr, obj, Fields, end, field, items, get, get_field, array}
use arky_foundation.Tim.Create.{has_field, replace_field}
use arky_foundation.Offline.Signed.{and_then-returns}
use arky_foundation.Proxy.Message.{string_of, string_of-str}
use arky_foundation.Conformance.Toolkit.{Toolkit}
use arky_foundation.Conformance.Jcs.{jcs_canonical, computed_cid}
use arky_foundation.Conformance.Artifact.{
  CheckResult, witnesses_of, body_of, failures_from, verify_witnesses, resolve_did, signing_key,
  result_of, verify_signed, is_verified,
}
use arky_foundation.Conformance.Body.{
  get_field-put_field_self, get_field-put_field, body_of-sealed, body_of-witnessed,
}
use arky_foundation.Conformance.Sign.{
  put_field, test_kid, witness_kid, sign_jws, has_stale_tim_cid, with_witnesses, witnessed_time,
  process_tim,
}
use arky_foundation.Conformance.Signed.{
  tests, IsFaithfulToolkit, items-of_items, signature_failure-sign_jws,
}
use arky_foundation.Conformance.Witnessed.{
  unwitnessed, witnessed, Witnessed-every, witness_x, failures_from-signed,
}

get_field-replace_field :
    (k : Text) (v : Value) (fs : Fields)
    → has_field k fs ≡ true
    → get_field k (replace_field k v fs) ≡ v
unfolding get_field has_field replace_field
get_field-replace_field k v end h = cc
get_field-replace_field k v (field j w fs) h = elim (Bool-cases (text_eq j k)) [
  | inl e ↦ rw (e, get_field, e) refl
  | inr e ↦ rw (e, get_field, e) (get_field-replace_field k v fs (rw e at h))
]

abbrev of_time : Value → Option (List Value)
of_time t = elim (get (codes "witnesses") t) [ arr vs ↦ some (items vs) | _ ↦ none ]

witnesses_of-time :
    (fs time : Fields) (ws : List Value)
    → get_field (codes "time") fs ≡ obj time
    → get_field (codes "witnesses") time ≡ array ws
    → witnesses_of fs ≡ some ws
unfolding get
witnesses_of-time fs time ws e h =
    ap of_time e
    ∙ (ap (λ v. elim v [ arr vs ↦ some (items vs) | _ ↦ none ]) h ∙ ap some (items-of_items ws))

module _ ⦃engine : Engine⦄ ⦃platform : Platform⦄ (toolkit : Toolkit)
    (faithful : IsFaithfulToolkit toolkit) (key witness_key : toolkit.PrivateKey)
    (known : toolkit.import_key witness_x ≡ some (faithful.public witness_key)) where
  -- The members of a TIM that was signed over this body.
  record IsSealed (tim signed body : Fields) : Type 0 where
    same_body : body_of signed ≡ body_of tim
    cid : get_field (codes "cid") signed ≡ str (computed_cid toolkit (jcs_canonical body))
    sig :
        get_field (codes "sig") signed
        ≡ str (sign_jws toolkit (platform.encode_utf8 (jcs_canonical body)) key test_kid)
    identity : get_field (codes "identity") signed ≡ get_field (codes "identity") tim
    witnesses : (verify_witnesses toolkit signed (jcs_canonical body)).1 ≡ []

  module _ (tim body : Fields) where
    abbrev cid_value : Value
    cid_value = str (computed_cid toolkit (jcs_canonical body))

    abbrev sig_value : Value
    sig_value = str (sign_jws toolkit (platform.encode_utf8 (jcs_canonical body)) key test_kid)

    abbrev witness_sig : Text
    witness_sig =
        sign_jws toolkit (platform.encode_utf8 (jcs_canonical body)) witness_key witness_kid

    abbrev sealed_tim : Fields
    sealed_tim = put_field (codes "sig") sig_value (put_field (codes "cid") cid_value tim)

    get_field-sealed :
        (k : Text)
        → text_eq (codes "sig") k ≡ false
        → text_eq (codes "cid") k ≡ false
        → get_field k sealed_tim ≡ get_field k tim
    get_field-sealed k s c =
        get_field-put_field k (codes "sig") sig_value _ s
        ∙ get_field-put_field k (codes "cid") cid_value tim c

    cid-sealed : get_field (codes "cid") sealed_tim ≡ cid_value
    unfolding text_eq
    cid-sealed =
        get_field-put_field (codes "cid") (codes "sig") sig_value _ refl
        ∙ get_field-put_field_self (codes "cid") cid_value tim

    same_witnesses : witnesses_of sealed_tim ≡ witnesses_of tim
    unfolding text_eq
    same_witnesses = ap (λ t. of_time t) (get_field-sealed (codes "time") refl refl)

    failures-none :
        (signed : Fields)
        → witnesses_of signed ≡ none
        → (verify_witnesses toolkit signed (jcs_canonical body)).1 ≡ []
    unfolding verify_witnesses
    failures-none signed e = rw (verify_witnesses, e) refl

    failures-some :
        (signed : Fields) (ws : List Value)
        → witnesses_of signed ≡ some ws
        → failures_from toolkit 0 (jcs_canonical body) ws ≡ []
        → (verify_witnesses toolkit signed (jcs_canonical body)).1 ≡ []
    unfolding verify_witnesses
    failures-some signed ws e h = rw (verify_witnesses, e) h

    IsSealed-unwitnessed : witnesses_of tim ≡ none → IsSealed tim sealed_tim body
    unfolding text_eq verify_witnesses
    IsSealed-unwitnessed e = record {
      same_body = body_of-sealed cid_value sig_value tim;
      cid = cid-sealed;
      sig =
          get_field-put_field_self (codes "sig") sig_value (put_field (codes "cid") cid_value tim);
      identity = get_field-sealed (codes "identity") refl refl;
      witnesses = failures-none sealed_tim (same_witnesses ∙ e);
    }

    IsSealed-witnessed :
        (time : Fields) (ws : List Value)
        → get_field (codes "time") tim ≡ obj time
        → has_field (codes "witnesses") time ≡ true
        → IsSealed tim (with_witnesses (some (time, ws)) witness_sig sealed_tim) body
    unfolding text_eq verify_witnesses with_witnesses get
    IsSealed-witnessed time ws e h =
        let vs = array (map (λ w. str witness_sig) ws) in
        let new = obj (replace_field (codes "witnesses") vs time) in
        let signed = put_field (codes "time") new sealed_tim in
        record {
          same_body =
              body_of-witnessed vs time sealed_tim (get_field-sealed (codes "time") refl refl ∙ e) h
              ∙ body_of-sealed cid_value sig_value tim;
          cid = get_field-put_field (codes "cid") (codes "time") new sealed_tim refl ∙ cid-sealed;
          sig =
              get_field-put_field (codes "sig") (codes "time") new sealed_tim refl
              ∙ get_field-put_field_self (codes "sig") sig_value
                  (put_field (codes "cid") cid_value tim);
          identity =
              get_field-put_field (codes "identity") (codes "time") new sealed_tim refl
              ∙ get_field-sealed (codes "identity") refl refl;
          witnesses =
              failures-some signed (map (λ w. str witness_sig) ws)
                (witnesses_of-time signed (replace_field (codes "witnesses") vs time)
                  (map (λ w. str witness_sig) ws)
                  (get_field-put_field_self (codes "time") new sealed_tim)
                  (get_field-replace_field (codes "witnesses") vs time h))
                (failures_from-signed toolkit faithful witness_key known 0 (jcs_canonical body) ws);
        }

    IsSealed-signed : IsSealed tim (with_witnesses (witnessed_time tim) witness_sig sealed_tim) body
    unfolding with_witnesses
    IsSealed-signed = elim (Witnessed-every tim) [
      | unwitnessed e t ↦ rw t (IsSealed-unwitnessed e)
      | witnessed time ws e h t ↦ rw t (IsSealed-witnessed time ws e h)
    ]

  accepted :
      (tim signed body : Fields) (fallback : toolkit.Key) (stored : Text)
      → signing_key toolkit tim fallback ≡ faithful.public key
      → IsSealed tim signed body
      → is_verified (result_of toolkit signed fallback (jcs_canonical body) stored) ≡ true
  unfolding result_of is_verified
  accepted tim signed body fallback stored own s =
      let canonical = jcs_canonical body in
      let own_key : signing_key toolkit signed fallback ≡ faithful.public key =
        ap (λ v. or_else (resolve_did toolkit (get (codes "id") v)) fallback) s.identity ∙ own in
      rw
        (
          is_verified,
          result_of,
          own_key,
          s.cid,
          s.sig,
          text_eq_refl (computed_cid toolkit canonical),
          signature_failure-sign_jws toolkit faithful canonical key tests,
          s.witnesses,
        )
        refl

  verify_signed-sealed :
      (tim signed body : Fields) (fallback : toolkit.Key)
      → body_of tim ≡ returns body
      → IsSealed tim signed body
      → verify_signed toolkit signed fallback
        ≡ returns (
            result_of toolkit signed fallback
              (jcs_canonical body)
              (computed_cid toolkit (jcs_canonical body)))
  unfolding verify_signed
  verify_signed-sealed tim signed body fallback b s =
      rw (verify_signed, s.same_body, b)
        (ap
          (λ o. elim o [
            | none ↦ throws
            | some stored ↦ returns (result_of toolkit signed fallback (jcs_canonical body) stored)
          ])
          (ap string_of s.cid ∙ string_of-str (computed_cid toolkit (jcs_canonical body))))

  has_stale_tim_cid-process_tim :
      (tim signed : Fields)
      → process_tim toolkit key witness_key tim ≡ returns signed
      → has_stale_tim_cid toolkit signed ≡ returns false
  unfolding process_tim has_stale_tim_cid
  has_stale_tim_cid-process_tim tim signed h =
      let (body, b, h₁) = and_then-returns (body_of tim) _ h in
      let s = subst (λ f. IsSealed tim f body) (returns-injective h₁) (IsSealed-signed tim body) in
      rw
        (
          has_stale_tim_cid,
          s.cid,
          s.same_body,
          b,
          text_eq_refl (computed_cid toolkit (jcs_canonical body)),
        )
        refl

  -- A TIM that the signer has signed is accepted by the verifier, and the signer does not find it
  -- stale. This holds if the key that the verifier takes for the TIM is the public key of the signer,
  -- the verifier imports the public key of the witness from its table, and jose accepts and reads the
  -- signatures that it makes.
  pub verify_signed-process_tim :
      (tim signed : Fields) (fallback : toolkit.Key)
      → process_tim toolkit key witness_key tim ≡ returns signed
      → signing_key toolkit tim fallback ≡ faithful.public key
      → (res : CheckResult) × (verify_signed toolkit signed fallback ≡ returns res)
        × (is_verified res ≡ true)
        × (has_stale_tim_cid toolkit signed ≡ returns false)
  unfolding process_tim verify_signed
  verify_signed-process_tim tim signed fallback h own =
      let (body, b, h₁) = and_then-returns (body_of tim) _ h in
      let s = subst (λ f. IsSealed tim f body) (returns-injective h₁) (IsSealed-signed tim body) in
      (
        result_of toolkit signed fallback (jcs_canonical body)
            (computed_cid toolkit (jcs_canonical body)),
        verify_signed-sealed tim signed body fallback b s,
        accepted tim signed body fallback _ own s,
        has_stale_tim_cid-process_tim tim signed h,
      )
