-- ===== src/Codec/Cid.antt =====
-- packages/core/src/cid.ts and keys.ts: multibase, multihash, content identifiers and did:key.
use arky_foundation.Common.{◌==◌, if◌then◌else◌, [], ◌∷◌, ◌++◌, Option, none, some, Text, codes}
use arky_foundation.Engine.{Engine}
use arky_foundation.Platform.{Bytes, Platform}
use arky_foundation.Json.{Value}
use arky_foundation.Json.Canonical.{canonicalize}
use arky_foundation.Codec.Base58.{base58btc_encode, base58btc_decode}

unfoldable pub to_multibase : Bytes → Text
to_multibase bytes = b'z' ∷ base58btc_encode bytes

-- `none` where the prefix is not 'z' or the rest is not base58
unfoldable pub from_multibase : Text → Option Bytes
from_multibase [] = none
from_multibase (c ∷ s) = if c == b'z' then base58btc_decode s else none

unfoldable pub did_key_from_public_key : Bytes → Text
did_key_from_public_key key = codes "did:key:z" ++ base58btc_encode (0xed ∷ 0x01 ∷ key)

pub record KeyPair : Type 0 where
  pub private_key : Bytes
  pub public_key : Bytes
  pub did : Text

module _ ⦃platform : Platform⦄ where
  unfoldable pub multihash_sha256 : Bytes → Bytes
  multihash_sha256 bytes = 0x12 ∷ 0x20 ∷ platform.sha256 bytes

  unfoldable pub cid_from_canonical : Text → Text
  unfolding to_multibase multihash_sha256
  cid_from_canonical canonical = to_multibase (multihash_sha256 (platform.encode_utf8 canonical))

  unfoldable pub compute_cid : ⦃engine : Engine⦄ → Value → Option Text
  unfolding cid_from_canonical
  compute_cid v = elim (canonicalize v) [ none ↦ none | some s ↦ some (cid_from_canonical s) ]

  unfoldable pub from_seed : Bytes → KeyPair
  unfolding did_key_from_public_key
  from_seed seed =
      let key = platform.public_key seed in
      record { private_key = seed; public_key = key; did = did_key_from_public_key key }
