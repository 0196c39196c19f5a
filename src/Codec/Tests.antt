-- ===== src/Codec/Tests.antt =====
-- Concrete bytes, and signatures on concrete platforms.
use arky_foundation.Codec.Base58Length.{length-base58btc_encode}
use arky_foundation.Codec.Base58Trip.{base58btc_decode-base58btc_encode}
use arky_foundation.Codec.Base58.{base58btc_encode, base58btc_decode}
use arky_foundation.Common.{length, ◌≤◌, ◌*◌, arith}
use arky_foundation.Codec.SignTrip.{IsFaithful, verify_detached-sign_detached}
use arky_foundation.Platform.{Platform}
use arky_foundation.SamplePlatform.{sample_platform, blank_platform}
use arky_foundation.Common.{
  codes, throws, ◌≡◌, [], ◌∷◌, ◌↔◌, some, refl, true, none, returns, arith,
}
use arky_foundation.Json.Values.{null}
use arky_foundation.Codec.Base64.{base64url_decode}
use arky_foundation.Codec.Jws.{
  verify_parts, decode_header, check_header, header_for, verify_detached, sign_detached, split_dots,
}
use arky_foundation.Codec.Raise.{Raises, verify_detached-throws_iff}

-- a platform on which the header is the JSON value `null`
abbrev null_platform : Platform
null_platform = record {
  encode_utf8 = λ s. s;
  decode_utf8 = λ b. b;
  parse_json = λ s. some null;
  stringify_json = λ v. codes "null";
  sha256 = λ b. [];
  public_key = λ b. b;
  sign = λ m s. m;
  verify = λ s m k. true;
}

run : verify_parts ⦃platform = null_platform⦄ (codes "bnVsbA") ([] ∷ codes "aa" ∷ []) [] [] ≡ throws
unfolding verify_parts decode_header base64url_decode check_header
run = refl

verify_detached-throws_iff_example :
    (verify_detached ⦃platform = null_platform⦄ (codes "bnVsbA..aa") [] [] ≡ throws)
    ↔ Raises ⦃platform = null_platform⦄
        (split_dots (codes "bnVsbA..aa")).0
        (split_dots (codes "bnVsbA..aa")).1
verify_detached-throws_iff_example =
    verify_detached-throws_iff ⦃platform = null_platform⦄ (codes "bnVsbA..aa") [] []

blank-IsFaithful : IsFaithful blank_platform none
unfolding header_for
blank-IsFaithful = record {
  encodes = λ s. tt;
  signs = λ m seed. tt;
  reads = refl;
  verifies = λ m seed. refl;
}

verify_detached-sign_detached_example :
    verify_detached ⦃platform = blank_platform⦄
      (sign_detached ⦃platform = blank_platform⦄ (1 ∷ 2 ∷ []) (7 ∷ []) none)
      (1 ∷ 2 ∷ [])
      (7 ∷ [])
    ≡ returns true
verify_detached-sign_detached_example =
    verify_detached-sign_detached ⦃platform = blank_platform⦄ none blank-IsFaithful (1 ∷ 2 ∷ [])
      (7 ∷ [])

base58btc_decode-base58btc_encode_example :
    base58btc_decode (base58btc_encode (0 ∷ 0 ∷ 255 ∷ 1 ∷ [])) ≡ some (0 ∷ 0 ∷ 255 ∷ 1 ∷ [])
base58btc_decode-base58btc_encode_example =
    base58btc_decode-base58btc_encode (0 ∷ 0 ∷ 255 ∷ 1 ∷ []) (omega arith)

length-base58btc_encode_example :
    (3 ≤ length (base58btc_encode (0 ∷ 255 ∷ 1 ∷ [])))
    × (length (base58btc_encode (0 ∷ 255 ∷ 1 ∷ [])) ≤ 2 * 3)
length-base58btc_encode_example = length-base58btc_encode (0 ∷ 255 ∷ 1 ∷ []) (omega arith)
