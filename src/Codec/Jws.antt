-- ===== src/Codec/Jws.antt =====
-- packages/core/src/jws.ts: detached JWS signatures.
use arky_foundation.Common.{
  Bool, true, false, ◌&&◌, ◌||◌, ◌==◌, if◌then◌else◌, List, [], ◌∷◌, ◌++◌, any, Option, none, some,
  Text, codes, text_eq, starts_with, Run, returns, throws,
}
use arky_foundation.Platform.{Bytes, Platform}
use arky_foundation.Json.{Value, undefined, null, bool, str, arr, get, items, object, array}
use arky_foundation.Codec.Base64.{base64url_encode, base64url_decode}

-- `s.split('.')`: the first part and the others
unfoldable pub split_dots : Text → Text × List Text
split_dots [] = ([], [])
split_dots (c ∷ s) =
    let (first, others) = split_dots s in
    if c == b'.' then ([], first ∷ others) else (c ∷ first, others)

-- `[...].includes('b64')` for an array, and the test for a substring for a string
unfoldable pub is_substring : Text → Text → Bool
unfolding starts_with
is_substring p [] = starts_with p []
is_substring p (c ∷ s) = starts_with p (c ∷ s) || is_substring p s

abbrev pub is_text : Text → Value → Bool
is_text s (str t) = text_eq t s
is_text s _ = false

-- `x?.includes('b64')`; other values have no such method, and the call raises
unfoldable pub includes_b64 : Value → Run Bool
unfolding is_substring text_eq
includes_b64 undefined = returns false
includes_b64 null = returns false
includes_b64 (arr vs) = returns (any (is_text (codes "b64")) (items vs))
includes_b64 (str s) = returns (is_substring (codes "b64") s)
includes_b64 _ = throws

abbrev pub is_false : Value → Bool
is_false (bool false) = true
is_false _ = false

-- The header's checks. Reading a property of `null` raises, outside of any `try`.
unfoldable pub check_header : Value → Run Bool
unfolding includes_b64 get text_eq
check_header null = throws
check_header header =
    if is_text (codes "EdDSA") (get (codes "alg") header) && is_false (get (codes "b64") header)
    then includes_b64 (get (codes "crit") header)
    else returns false

abbrev kid_member : Option Text → List (Text × Value)
kid_member (some (c ∷ s)) = (codes "kid", str (c ∷ s)) ∷ []
kid_member _ = []

-- the header; an absent or empty `kid` is left out
unfoldable pub header_for : Option Text → Value
header_for kid = object (
    (codes "alg", str (codes "EdDSA"))
    ∷ (codes "b64", bool false)
    ∷ (codes "crit", array (str (codes "b64") ∷ []))
    ∷ (codes "typ", str (codes "JWS"))
    ∷ kid_member kid)

module _ ⦃platform : Platform⦄ where
  -- `JSON.parse(new TextDecoder().decode(base64urlDecode(s)))`; `none` where it raises
  unfoldable pub decode_header : Text → Option Value
  unfolding base64url_decode
  decode_header s = elim (base64url_decode s) [
    | none ↦ none
    | some bytes ↦ platform.parse_json (platform.decode_utf8 bytes)
  ]

  unfoldable pub decode_protected_header : Text → Option Value
  unfolding decode_header split_dots
  decode_protected_header jws = decode_header (split_dots jws).0

  unfoldable pub signing_input : Text → Bytes → Bytes
  signing_input protected payload = platform.encode_utf8 (protected ++ codes ".") ++ payload

  unfoldable pub sign_detached : Bytes → Bytes → Option Text → Text
  unfolding header_for signing_input base64url_encode
  sign_detached payload seed kid =
      let protected =
        base64url_encode (platform.encode_utf8 (platform.stringify_json (header_for kid))) in
      protected
      ++ (codes ".." ++ base64url_encode (platform.sign (signing_input protected payload) seed))

  unfoldable pub verify_signature : Text → Text → Bytes → Bytes → Bool
  unfolding signing_input base64url_decode
  verify_signature protected signature payload key = elim (base64url_decode signature) [
    | none ↦ false
    | some sig ↦ platform.verify sig (signing_input protected payload) key
  ]

  unfoldable pub verify_parts : Text → List Text → Bytes → Bytes → Run Bool
  unfolding decode_header check_header verify_signature
  verify_parts protected ([] ∷ signature ∷ []) payload key = elim (decode_header protected) [
    | none ↦ returns false
    | some header ↦ elim (check_header header) [
      | throws ↦ throws
      | returns false ↦ returns false
      | returns true ↦ returns (verify_signature protected signature payload key)
    ]
  ]
  verify_parts protected _ payload key = returns false

  unfoldable pub verify_detached : Text → Bytes → Bytes → Run Bool
  unfolding split_dots verify_parts
  verify_detached jws payload key =
      let (protected, others) = split_dots jws in verify_parts protected others payload key
