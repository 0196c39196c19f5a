-- ===== src/Conformance/Witnessed.antt =====
-- scripts/sign-artifacts.ts and scripts/verify-artifacts.ts: the witnesses of a TIM that was signed.
use arky_foundation.Common.{
  ℕ, suc, true, List, [], ◌∷◌, map, lookup, ◌≢◌, none, some, Text, codes, ◌≡◌, refl, ap, sym, ◌∙◌,
}
use arky_foundation.Engine.{Engine}
use arky_foundation.Platform.{Platform}
use arky_foundation.Json.{
  Value, undefined, null, bool, num, str, arr, obj, Items, Fields, get, get_field, items,
}
use arky_foundation.Tim.Create.{has_field}
use arky_foundation.Conformance.Toolkit.{Toolkit}
use arky_foundation.Conformance.Artifact.{
  witnesses_of, resolve_witness_key, witness_parts, witness_failure, failures_from,
}
use arky_foundation.Conformance.Body.{has_field-get_field}
use arky_foundation.Conformance.Sign.{witness_kid, sign_jws, witnessed_time}
use arky_foundation.Conformance.Signed.{
  witnesses, IsFaithfulToolkit, made, sign_jws-made, split_dots-sign_jws,
}

-- What the signer finds under `time.witnesses`.
pub data Witnessed (tim : Fields) : Type 0 where
  unwitnessed : witnesses_of tim ≡ none → witnessed_time tim ≡ none → Witnessed tim
  witnessed :
      (time : Fields) (ws : List Value)
      → get_field (codes "time") tim ≡ obj time
      → has_field (codes "witnesses") time ≡ true
      → witnessed_time tim ≡ some (time, ws)
      → Witnessed tim

arr-ne : {vs : Items} → arr vs ≢ undefined
arr-ne e = cc

Witnessed-of_value :
    (tim : Fields) (time : Fields) (v : Value)
    → get_field (codes "time") tim ≡ obj time
    → get_field (codes "witnesses") time ≡ v
    → Witnessed tim
unfolding get
Witnessed-of_value tim time undefined e h =
    unwitnessed (rw (witnesses_of, e, get, h) refl)
      (rw (witnessed_time, e, witnesses_of, e, get, h) refl)
Witnessed-of_value tim time null e h =
    unwitnessed (rw (witnesses_of, e, get, h) refl)
      (rw (witnessed_time, e, witnesses_of, e, get, h) refl)
Witnessed-of_value tim time (bool b) e h =
    unwitnessed (rw (witnesses_of, e, get, h) refl)
      (rw (witnessed_time, e, witnesses_of, e, get, h) refl)
Witnessed-of_value tim time (num n) e h =
    unwitnessed (rw (witnesses_of, e, get, h) refl)
      (rw (witnessed_time, e, witnesses_of, e, get, h) refl)
Witnessed-of_value tim time (str s) e h =
    unwitnessed (rw (witnesses_of, e, get, h) refl)
      (rw (witnessed_time, e, witnesses_of, e, get, h) refl)
Witnessed-of_value tim time (obj fs) e h =
    unwitnessed (rw (witnesses_of, e, get, h) refl)
      (rw (witnessed_time, e, witnesses_of, e, get, h) refl)
Witnessed-of_value tim time (arr vs) e h =
    witnessed time (items vs) e
      (has_field-get_field (codes "witnesses") time λ n. arr-ne (sym h ∙ n))
      (rw (witnessed_time, e, witnesses_of, e, get, h) refl)

Witnessed-of_time : (tim : Fields) (t : Value) → get_field (codes "time") tim ≡ t → Witnessed tim
unfolding get
Witnessed-of_time tim undefined e =
    unwitnessed (rw (witnesses_of, e) refl) (rw (witnessed_time, e) refl)
Witnessed-of_time tim null e = unwitnessed (rw (witnesses_of, e) refl) (rw (witnessed_time, e) refl)
Witnessed-of_time tim (bool b) e =
    unwitnessed (rw (witnesses_of, e) refl) (rw (witnessed_time, e) refl)
Witnessed-of_time tim (num n) e =
    unwitnessed (rw (witnesses_of, e) refl) (rw (witnessed_time, e) refl)
Witnessed-of_time tim (str s) e =
    unwitnessed (rw (witnesses_of, e) refl) (rw (witnessed_time, e) refl)
Witnessed-of_time tim (arr vs) e =
    unwitnessed (rw (witnesses_of, e) refl) (rw (witnessed_time, e) refl)
Witnessed-of_time tim (obj time) e = Witnessed-of_value tim time _ e refl

pub Witnessed-every : (tim : Fields) → Witnessed tim
Witnessed-every tim = Witnessed-of_time tim _ refl

-- The test key that witnesses.
abbrev pub witness_x : Text
witness_x = codes "e_vAtyLIHAXMh1TRvhFUNrvifhH5ZzXKGwGKk9zgB9I"

module _ ⦃engine : Engine⦄ ⦃platform : Platform⦄ (toolkit : Toolkit)
    (faithful : IsFaithfulToolkit toolkit) (key : toolkit.PrivateKey)
    (known : toolkit.import_key witness_x ≡ some (faithful.public key)) where
  abbrev witness : Text → Text
  witness canonical = sign_jws toolkit (platform.encode_utf8 canonical) key witness_kid

  resolve_witness_key-sign_jws :
      (canonical : Text)
      → resolve_witness_key toolkit (witness canonical) ≡ some (faithful.public key)
  unfolding resolve_witness_key lookup get get_field
  resolve_witness_key-sign_jws canonical =
      let bytes = platform.encode_utf8 canonical in
      let m = made toolkit faithful bytes key witnesses in
      rw
        (
          resolve_witness_key,
          ap toolkit.protected_header (sign_jws-made toolkit faithful bytes key witnesses)
              ∙ m.reads,
        )
        known

  witness_failure-sign_jws :
      (canonical : Text) → witness_failure toolkit canonical (str (witness canonical)) ≡ none
  unfolding witness_failure witness_parts
  witness_failure-sign_jws canonical =
      let bytes = platform.encode_utf8 canonical in
      let m = made toolkit faithful bytes key witnesses in
      ap (witness_parts toolkit canonical (witness canonical))
        (split_dots-sign_jws toolkit faithful bytes key witnesses)
      ∙ rw (witness_parts, resolve_witness_key-sign_jws canonical) m.verifies

  -- Witnesses that are all the signature of the signer have no failure.
  pub failures_from-signed :
      (i : ℕ) (canonical : Text) (ws : List Value)
      → failures_from toolkit i canonical (map (λ w. str (witness canonical)) ws) ≡ []
  unfolding failures_from
  failures_from-signed i canonical [] = refl
  failures_from-signed i canonical (w ∷ ws) =
      rw (failures_from, witness_failure-sign_jws canonical)
        (failures_from-signed (suc i) canonical ws)
