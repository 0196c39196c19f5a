-- ===== src/Conformance/Signed.antt =====
-- scripts/sign-artifacts.ts and scripts/verify-artifacts.ts: a TIM that the one has signed is accepted
-- by the other.
use arky_foundation.Common.{List, [], ◌∷◌, ◌++◌, none, some, Text, codes, All, ◌≡◌, refl, ap, ◌∙◌}
use arky_foundation.Engine.{Engine}
use arky_foundation.Platform.{Bytes, Platform}
use arky_foundation.Json.{Value, str, items, of_items}
use arky_foundation.Codec.Base64Trip.{IsUrl}
use arky_foundation.Codec.Jws.{split_dots}
use arky_foundation.Codec.SignTrip.{split_dots-url, split_dots-append, shape}
use arky_foundation.Conformance.Toolkit.{Toolkit}
use arky_foundation.Conformance.Artifact.{signature_parts, signature_failure}
use arky_foundation.Conformance.Sign.{detached, header_of, test_kid, witness_kid, sign_jws}

-- A signature in compact form, of a payload and a header.
pub record IsCompact (toolkit : Toolkit) (key : toolkit.Key) (payload : Bytes) (header : Value)
    (jws : Text) : Type 0 where
  pub protected : Text
  pub middle : Text
  pub signature : Text
  pub three : jws ≡ protected ++ b'.' ∷ (middle ++ b'.' ∷ signature)
  pub protected_url : All IsUrl protected
  pub middle_url : All IsUrl middle
  pub signature_url : All IsUrl signature
  pub verifies : toolkit.verify_failure protected signature payload key ≡ none
  pub reads : toolkit.protected_header (protected ++ (codes ".." ++ signature)) ≡ some header

-- The identifiers that the signer writes to a header.
pub data SigningKid : Text → Type 0 where
  tests : SigningKid test_kid
  witnesses : SigningKid witness_kid

-- What the scripts rely on: `CompactSign` gives a signature in compact form, whose header can be read
-- and which `flattenedVerify` accepts under the public key.
pub record IsFaithfulToolkit (toolkit : Toolkit) : Type 0 where
  pub public : toolkit.PrivateKey → toolkit.Key
  pub signs :
      (payload : Bytes) (key : toolkit.PrivateKey) {kid : Text}
      → SigningKid kid
      → IsCompact toolkit
          (public key)
          payload
          (header_of kid)
          (toolkit.compact_sign payload (header_of kid) key)

pub items-of_items : (vs : List Value) → items (of_items vs) ≡ vs
items-of_items [] = refl
items-of_items (v ∷ vs) = ap (λ ws. v ∷ ws) (items-of_items vs)

module _ ⦃engine : Engine⦄ ⦃platform : Platform⦄ (toolkit : Toolkit)
    (faithful : IsFaithfulToolkit toolkit) where
  open toolkit use {Key, PrivateKey, import_key, protected_header, verify_failure, compact_sign}
  open faithful use {public, signs}

  module _ (bytes : Bytes) (key : PrivateKey) {kid : Text} (listed : SigningKid kid) where
    abbrev pub made :
        IsCompact toolkit
          (public key)
          bytes
          (header_of kid)
          (compact_sign bytes (header_of kid) key)
    made = signs bytes key listed

    pub sign_jws-made :
        sign_jws toolkit bytes key kid ≡ made.protected ++ (codes ".." ++ made.signature)
    unfolding sign_jws split_dots
    sign_jws-made =
        ap (λ s. detached (split_dots s)) made.three
        ∙ ap detached (
            split_dots-append made.protected (made.middle ++ b'.' ∷ made.signature)
              made.protected_url
            ∙ ap (λ r. (made.protected, r.0 ∷ r.1))
                (split_dots-append made.middle made.signature made.middle_url
                  ∙ ap (λ r. (made.middle, r.0 ∷ r.1))
                      (split_dots-url made.signature made.signature_url)))

    pub split_dots-sign_jws :
        split_dots (sign_jws toolkit bytes key kid) ≡ (made.protected, [] ∷ made.signature ∷ [])
    split_dots-sign_jws =
        ap split_dots sign_jws-made
        ∙ shape made.protected made.signature made.protected_url made.signature_url

  pub signature_failure-sign_jws :
      (canonical : Text) (key : PrivateKey) {kid : Text}
      → SigningKid kid
      → signature_failure toolkit canonical
          (public key)
          (str (sign_jws toolkit (platform.encode_utf8 canonical) key kid))
        ≡ none
  unfolding signature_failure signature_parts
  signature_failure-sign_jws canonical key listed =
      let m = made (platform.encode_utf8 canonical) key listed in
      ap (signature_parts toolkit canonical (public key))
        (split_dots-sign_jws (platform.encode_utf8 canonical) key listed)
      ∙ rw (signature_parts, m.verifies) refl
