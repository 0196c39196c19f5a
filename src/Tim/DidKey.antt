-- ===== src/Tim/DidKey.antt =====
-- packages/core/src/tim.ts: `resolveDidKey` and `decodeDidKey`.
use arky_foundation.Common.{
  ◌&&◌, ◌==◌, if◌then◌else◌, length, drop, ◌∷◌, Option, none, some, Text, codes, starts_with, Run,
  returns, throws,
}
use arky_foundation.Platform.{Bytes, Platform}
use arky_foundation.Json.{Value, undefined, null, str, Fields, get, get_field}
use arky_foundation.Codec.Base58.{base58btc_decode}
use arky_foundation.Codec.Jws.{decode_protected_header}

abbrev pub did_key_prefix : Text
did_key_prefix = codes "did:key:z6Mk"

-- the checks on the decoded bytes
unfoldable pub ed25519_key : Bytes → Option Bytes
ed25519_key (a ∷ b ∷ key) = if length key == 32 && (a == 0xed && b == 0x01) then some key else none
ed25519_key _ = none

unfoldable pub decode_did_text : Text → Option Bytes
unfolding base58btc_decode ed25519_key starts_with
decode_did_text id =
    let key : Option Bytes = elim (base58btc_decode (drop 9 id)) [
      | none ↦ none
      | some decoded ↦ ed25519_key decoded
    ] in
    if starts_with did_key_prefix id then key else none

-- `id?.startsWith(…)` raises on a value that is no text, except `undefined` and `null`.
unfoldable pub decode_did_key : Value → Run (Option Bytes)
unfolding decode_did_text
decode_did_key undefined = returns none
decode_did_key null = returns none
decode_did_key (str id) = returns (decode_did_text id)
decode_did_key _ = throws

-- The `kid` of a witness that names a did:key.
unfoldable pub witness_did : Option Value → Option Text
unfolding get starts_with
witness_did none = none
witness_did (some header) = elim (get (codes "kid") header) [
  | str kid ↦ if starts_with did_key_prefix kid then some kid else none
  | _ ↦ none
]

module _ ⦃platform : Platform⦄ where
  -- `resolveDidKey(tim)`, where `witness` is the property `__witness`
  unfoldable pub resolve_did_key : Fields → Value → Run (Option Bytes)
  unfolding decode_did_key decode_did_text witness_did decode_protected_header get get_field
  resolve_did_key tim (str witness) = elim (witness_did (decode_protected_header witness)) [
    | some kid ↦ returns (decode_did_text kid)
    | none ↦ decode_did_key (get (codes "id") (get_field (codes "identity") tim))
  ]
  resolve_did_key tim _ = decode_did_key (get (codes "id") (get_field (codes "identity") tim))
