-- ===== src/Codec/SignTrip.antt =====
-- packages/core/src/jws.ts: the verification of a signature that was just made.
use arky_foundation.Codec.Base64.{base64url_encode}
use arky_foundation.Common.{
  refl, true, returns, some, Text, All, Option, ◌++◌, ◌≡◌, ◌∷◌, [], codes, ◌∙◌, ap,
}
use arky_foundation.Platform.{Bytes, Platform}
use arky_foundation.Codec.Jws.{
  header_for, sign_detached, verify_detached, decode_header, check_header, split_dots, verify_parts,
  verify_signature, signing_input,
}
use arky_foundation.Codec.Base64Trip.{
  AreBytes, IsUrl, base64url_decode-base64url_encode, base64url_encode-IsUrl,
}

-- What signing and verifying rely on: UTF-8 and Ed25519 give bytes, the text of a header is read back
-- as the header, and a signature verifies under the key of its seed.
pub record IsFaithful (platform : Platform) (kid : Option Text) : Type 0 where
  pub encodes : (s : Text) → AreBytes (platform.encode_utf8 s)
  pub signs : (m seed : Bytes) → AreBytes (platform.sign m seed)
  pub reads :
      platform.parse_json
        (platform.decode_utf8 (platform.encode_utf8 (platform.stringify_json (header_for kid))))
      ≡ some (header_for kid)
  pub verifies :
      (m seed : Bytes) → platform.verify (platform.sign m seed) m (platform.public_key seed) ≡ true

pub split_dots-url : (s : Text) → All IsUrl s → split_dots s ≡ (s, [])
unfolding split_dots
split_dots-url [] h = refl
split_dots-url (c ∷ s) h = rw (split_dots, split_dots-url s h.1, h.0.2) refl

pub split_dots-append :
    (s t : Text)
    → All IsUrl s
    → split_dots (s ++ b'.' ∷ t) ≡ (s, (split_dots t).0 ∷ (split_dots t).1)
unfolding split_dots
split_dots-append [] t h = refl
split_dots-append (c ∷ s) t h = rw (split_dots, split_dots-append s t h.1, h.0.2) refl

pub shape :
    (protected signature : Text)
    → All IsUrl protected
    → All IsUrl signature
    → split_dots (protected ++ (codes ".." ++ signature)) ≡ (protected, [] ∷ signature ∷ [])
unfolding split_dots
shape protected signature h k =
    split_dots-append protected (b'.' ∷ signature) h
    ∙ rw (split_dots, split_dots-url signature k) refl

check_header-header_for : (kid : Option Text) → check_header (header_for kid) ≡ returns true
unfolding check_header header_for
check_header-header_for kid = refl

module _ ⦃platform : Platform⦄ (kid : Option Text) (faithful : IsFaithful platform kid) where
  open faithful use {encodes, signs, reads, verifies}

  decode_header-header_for :
      decode_header
        (base64url_encode (platform.encode_utf8 (platform.stringify_json (header_for kid))))
      ≡ some (header_for kid)
  unfolding decode_header
  decode_header-header_for =
      rw
        (
          decode_header,
          base64url_decode-base64url_encode
              (platform.encode_utf8 (platform.stringify_json (header_for kid))) (encodes _),
        )
        reads

  -- A signature that was made with a seed verifies, over the same payload and under the key of the
  -- seed. This holds if UTF-8 and Ed25519 give bytes, the text of the header parses to the header,
  -- and Ed25519 accepts what it signs.
  pub verify_detached-sign_detached :
      (payload seed : Bytes)
      → verify_detached (sign_detached payload seed kid) payload (platform.public_key seed)
        ≡ returns true
  unfolding sign_detached verify_detached verify_parts verify_signature
  verify_detached-sign_detached payload seed =
      let header =
        base64url_encode (platform.encode_utf8 (platform.stringify_json (header_for kid))) in
      let signature = platform.sign (signing_input header payload) seed in
      rw
        (
          verify_detached,
          shape header (base64url_encode signature) (base64url_encode-IsUrl _ (encodes _))
              (base64url_encode-IsUrl _ (signs _ _)),
        )
        (rw (verify_parts, decode_header-header_for, check_header-header_for kid)
          (ap returns (
            rw (verify_signature, base64url_decode-base64url_encode signature (signs _ _))
              (verifies (signing_input header payload) seed))))
