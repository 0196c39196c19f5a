-- ===== src/Tim/RoundTrip.antt =====
-- packages/core/src/tim.ts: the verification of a TIM that `createTim` has just made.
use arky_foundation.Codec.Cid.{cid_from_canonical}
use arky_foundation.Json.Canonical.{canonicalize}
use arky_foundation.Common.{
  none, some, true, returns, [], ◌∷◌, refl, Text, codes, Option, ◌≡◌, text_eq, false, List, ap, All,
  All-append, ◌++◌, Run, text_eq_refl, some_bind, subst, some-injective,
}
use arky_foundation.Engine.{Engine}
use arky_foundation.Platform.{Bytes, Platform}
use arky_foundation.Json.{
  Value, Fields, get, get_field, is_undefined, undefined, obj, of_members, object,
}
use arky_foundation.Codec.SignTrip.{IsFaithful, verify_detached-sign_detached}
use arky_foundation.Tim.Create.{
  CreateTimInput, create_tim, sealed, canonical_body, tim_body, optional, sign_body,
}
use arky_foundation.Tim.Verify.{
  verify_tim, verdict, missing_from, required_paths, get_path, verify_schema, verify_complete,
  verify_canonical, canonical_text, verify_resolved, verify_value, check_witnesses, is_fresh,
}
use arky_foundation.Codec.Jws.{sign_detached}
use arky_foundation.Tim.Sealed.{Lacks, sealed-cid, sealed-sig, unsealed}

-- The required members of the input are there.
pub record IsComplete (input : CreateTimInput) : Type 0 where
  pub identified : is_undefined (get (codes "id") input.identity) ≡ false
  pub named : is_undefined (get (codes "name") input.measurement) ≡ false
  pub valued : is_undefined (get (codes "value") input.measurement) ≡ false
  pub measured : is_undefined (get (codes "method") input.measurement) ≡ false

optional-Lacks : (k j : Text) (o : Option Text) → text_eq j k ≡ false → Lacks k (optional j o)
optional-Lacks k j none h = tt
optional-Lacks k j (some []) h = tt
optional-Lacks k j (some (c ∷ s)) h = (h, tt)

pub tim_body-Lacks :
    (k : Text) (input : CreateTimInput)
    → Lacks k (
        (codes "time", undefined)
        ∷ (codes "identity", undefined)
        ∷ (codes "measurement", undefined)
        ∷ (codes "prev", undefined)
        ∷ (codes "nonce", undefined)
        ∷ (codes "exp", undefined)
        ∷ [])
    → Lacks k (tim_body input)
tim_body-Lacks k input h = (
  h.0,
  (
    h.1.0,
    (
      h.1.1.0,
      All-append (λ m. text_eq m.0 k ≡ false) (optional (codes "prev") input.prev)
          (optional (codes "nonce") input.nonce ++ optional (codes "exp") input.exp)
          (optional-Lacks k (codes "prev") input.prev h.1.1.1.0)
          (All-append (λ m. text_eq m.0 k ≡ false) (optional (codes "nonce") input.nonce)
            (optional (codes "exp") input.exp)
            (optional-Lacks k (codes "nonce") input.nonce h.1.1.1.1.0)
            (optional-Lacks k (codes "exp") input.exp h.1.1.1.1.1.0)),
    ),
  ),
)

missing_from-nil :
    (tim : Value) (paths : List (Text × List Text))
    → All (λ p. is_undefined (get_path p.1 tim) ≡ false) paths
    → missing_from tim paths ≡ []
unfolding missing_from
missing_from-nil tim [] h = refl
missing_from-nil tim (p ∷ paths) h = rw (missing_from, h.0) (missing_from-nil tim paths h.1)

module _ (input : CreateTimInput) (cid sig : Text) where
  sealed_tim : Fields
  sealed_tim = sealed (tim_body input) cid sig

  no_cid : Lacks (codes "cid") (tim_body input)
  unfolding text_eq
  no_cid = tim_body-Lacks (codes "cid") input (refl, (refl, (refl, (refl, (refl, (refl, tt))))))

  no_sig : Lacks (codes "sig") (tim_body input)
  unfolding text_eq
  no_sig = tim_body-Lacks (codes "sig") input (refl, (refl, (refl, (refl, (refl, (refl, tt))))))

  complete : IsComplete input → missing_from (obj sealed_tim) required_paths ≡ []
  unfolding missing_from sealed_tim get_path get
  complete c = missing_from-nil (obj sealed_tim) required_paths (
    refl,
    (
      c.identified,
      (
        c.named,
        (
          c.valued,
          (
            c.measured,
            (
              ap is_undefined (sealed-cid (tim_body input) cid sig no_cid no_sig),
              (ap is_undefined (sealed-sig (tim_body input) cid sig no_cid no_sig), tt),
            ),
          ),
        ),
      ),
    ),
  )

  body_of : canonical_body sealed_tim ≡ returns (of_members (tim_body input))
  unfolding sealed_tim canonical_body
  body_of = rw (canonical_body, unsealed (tim_body input) cid sig no_cid no_sig) refl

module _ ⦃engine : Engine⦄ ⦃platform : Platform⦄ (kid : Option Text)
    (faithful : IsFaithful platform kid) (resolve : Fields → Value → Run (Option Bytes))
    (input : CreateTimInput) (seed : Bytes) (tim : Fields) where
  sealed-verifies :
      (canonical : Text)
      → canonicalize (object (tim_body input)) ≡ some canonical
      → IsComplete input
      → (let tim =
            sealed_tim input
              (cid_from_canonical canonical)
              (sign_detached (platform.encode_utf8 canonical) seed kid) in
          resolve tim (get_field (codes "__witness") tim)
            ≡ returns (some (platform.public_key seed))
          → verify_tim resolve tim none
            ≡ returns (verdict true (some (platform.public_key seed)) true [] true))
  unfolding verify_tim verify_schema verify_complete verify_canonical canonical_text verify_resolved
      verify_value check_witnesses is_fresh sealed_tim
  sealed-verifies canonical e c r =
      let cid = cid_from_canonical canonical in
      let sig = sign_detached (platform.encode_utf8 canonical) seed kid in
      let nc = no_cid input cid sig in
      let ns = no_sig input cid sig in
      rw (verify_tim, complete input cid sig c)
        (rw (verify_schema, body_of input cid sig)
          (rw (canonical_text, e)
            (rw (verify_complete, verify_canonical, r)
              (rw
                (
                  sealed-sig (tim_body input) cid sig nc ns,
                  verify_detached-sign_detached kid faithful (platform.encode_utf8 canonical) seed,
                )
                (rw (sealed-cid (tim_body input) cid sig nc ns, text_eq_refl cid) refl)))))

  -- A TIM that was made from an input with its required members is valid in every part, without
  -- a reference time, where the resolver gives the key of the seed that signed it. This holds if UTF-8
  -- and Ed25519 give bytes, the text of the header parses to the header, and Ed25519 accepts what it
  -- signs.
  pub verify_tim-create_tim :
      create_tim input seed kid ≡ some tim
      → resolve tim (get_field (codes "__witness") tim) ≡ returns (some (platform.public_key seed))
      → IsComplete input
      → verify_tim resolve tim none
        ≡ returns (verdict true (some (platform.public_key seed)) true [] true)
  unfolding create_tim sign_body sealed_tim
  verify_tim-create_tim e r c =
      let (canonical, ok, made) =
        some_bind (canonicalize (object (tim_body input)))
          (λ canonical. some (
            sealed (tim_body input) (cid_from_canonical canonical)
              (sign_detached (platform.encode_utf8 canonical) seed kid)))
          e in
      subst
        (λ t.
          resolve t (get_field (codes "__witness") t) ≡ returns (some (platform.public_key seed))
          → verify_tim resolve t none
            ≡ returns (verdict true (some (platform.public_key seed)) true [] true))
        (some-injective made) (sealed-verifies canonical ok c) r
