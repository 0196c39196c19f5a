-- ===== src/SamplePlatform.antt =====
-- A concrete platform for tests: a hash that is constant, and signatures that all verify.
use arky_foundation.Common.{true, false, [], ◌∷◌, some, codes}
use arky_foundation.Json.Values.{Value, bool, str, object, array}
use arky_foundation.Platform.{Platform}

abbrev pub sample_header : Value
sample_header = object (
    (codes "alg", str (codes "EdDSA"))
    ∷ (codes "b64", bool false)
    ∷ (codes "crit", array (str (codes "b64") ∷ []))
    ∷ [])

abbrev blank_header : Value
blank_header = object (
    (codes "alg", str (codes "EdDSA"))
    ∷ (codes "b64", bool false)
    ∷ (codes "crit", array (str (codes "b64") ∷ []))
    ∷ (codes "typ", str (codes "JWS"))
    ∷ [])

instance abbrev pub sample_platform : Platform
sample_platform = record {
  encode_utf8 = λ s. s;
  decode_utf8 = λ b. b;
  parse_json = λ s. some sample_header;
  stringify_json = λ v. codes "{}";
  sha256 = λ b. [];
  public_key = λ b. b;
  sign = λ m s. m;
  verify = λ s m k. true;
}

-- A platform with no bytes: all texts are encoded as none, and each text is read as the header of a
-- signature without `kid`.
abbrev pub blank_platform : Platform
blank_platform = record {
  encode_utf8 = λ s. [];
  decode_utf8 = λ b. [];
  parse_json = λ s. some blank_header;
  stringify_json = λ v. codes "{}";
  sha256 = λ b. [];
  public_key = λ b. b;
  sign = λ m s. [];
  verify = λ s m k. true;
}
