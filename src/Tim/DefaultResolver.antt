-- ===== src/Tim/DefaultResolver.antt =====
-- packages/core/src/tim.ts and keys.ts: the default resolver on a TIM that its own key has signed.
use arky_foundation.Common.{
  none, some, true, returns, [], refl, codes, Option, ◌≡◌, length, Text, text_eq, some_bind, subst,
  some-injective,
}
use arky_foundation.Engine.{Engine}
use arky_foundation.Platform.{Bytes, Platform}
use arky_foundation.Json.{Fields, get, get_field, undefined, str, object}
use arky_foundation.Json.Canonical.{canonicalize}
use arky_foundation.Codec.Base64Trip.{AreBytes}
use arky_foundation.Codec.Cid.{from_seed, cid_from_canonical}
use arky_foundation.Codec.Jws.{sign_detached}
use arky_foundation.Codec.SignTrip.{IsFaithful}
use arky_foundation.Tim.Create.{CreateTimInput, create_tim, sign_body, tim_body, sealed}
use arky_foundation.Tim.DidKey.{resolve_did_key, decode_did_key}
use arky_foundation.Tim.DidTrip.{decode_did_text-did_key_from_public_key}
use arky_foundation.Tim.RoundTrip.{IsComplete, tim_body-Lacks, verify_tim-create_tim}
use arky_foundation.Tim.Sealed.{get_field-append}
use arky_foundation.Tim.Verify.{verify_tim, verdict}

sealed-witness :
    (input : CreateTimInput) (cid sig : Text)
    → get_field (codes "__witness") (sealed (tim_body input) cid sig) ≡ undefined
unfolding get_field text_eq
sealed-witness input cid sig =
    get_field-append (codes "__witness") (tim_body input) _
      (tim_body-Lacks (codes "__witness") input (refl, (refl, (refl, (refl, (refl, (refl, tt)))))))

module _ ⦃engine : Engine⦄ ⦃platform : Platform⦄ (input : CreateTimInput) (seed : Bytes)
    (kid : Option Text) (tim : Fields) (sized : length (platform.public_key seed) ≡ 32)
    (bytes : AreBytes (platform.public_key seed))
    (own : get (codes "id") input.identity ≡ str (from_seed seed).did) where
  resolve_did_key-sealed :
      (cid sig : Text)
      → (let tim = sealed (tim_body input) cid sig in
          resolve_did_key tim (get_field (codes "__witness") tim)
          ≡ returns (some (platform.public_key seed)))
  unfolding resolve_did_key decode_did_key get_field text_eq from_seed
  resolve_did_key-sealed cid sig =
      rw
        (
          sealed-witness input cid sig,
          own,
          decode_did_text-did_key_from_public_key (platform.public_key seed) sized bytes,
        )
        refl

  resolve_did_key-create_tim :
      create_tim input seed kid ≡ some tim
      → resolve_did_key tim (get_field (codes "__witness") tim)
        ≡ returns (some (platform.public_key seed))
  unfolding create_tim sign_body
  resolve_did_key-create_tim e =
      let (canonical, ok, made) =
        some_bind (canonicalize (object (tim_body input)))
          (λ canonical. some (
            sealed (tim_body input) (cid_from_canonical canonical)
              (sign_detached (platform.encode_utf8 canonical) seed kid)))
          e in
      subst
        (λ t.
          resolve_did_key t (get_field (codes "__witness") t)
          ≡ returns (some (platform.public_key seed)))
        (some-injective made) (resolve_did_key-sealed _ _)

  -- A TIM that was made with the did:key of its signing seed as identity is valid in every part under
  -- the default resolver, without a reference time. This holds for an input with its required
  -- members, if the public key is 32 bytes, UTF-8 and Ed25519 give bytes, the text of the header
  -- parses to the header, and Ed25519 accepts what it signs.
  pub verify_tim-from_seed :
      IsFaithful platform kid
      → IsComplete input
      → create_tim input seed kid ≡ some tim
      → verify_tim resolve_did_key tim none
        ≡ returns (verdict true (some (platform.public_key seed)) true [] true)
  verify_tim-from_seed faithful complete e =
      verify_tim-create_tim kid faithful resolve_did_key input seed tim e
        (resolve_did_key-create_tim e) complete
