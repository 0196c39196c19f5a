-- ===== src/Platform.antt =====
-- What the program takes from its platform and libraries: text encodings, JSON, SHA-256 and
-- Ed25519 (@noble/hashes, @noble/curves).
use arky_foundation.Common.{ℕ, List, Option, Bool, Text}
use arky_foundation.Json.{Value}

abbrev pub Bytes : Type 0
Bytes = List ℕ

pub record Platform : Type 0 where
  -- `new TextEncoder().encode(s)`
  pub encode_utf8 : Text → Bytes
  -- `new TextDecoder().decode(b)`
  pub decode_utf8 : Bytes → Text
  -- `JSON.parse(s)`; `none` where it raises
  pub parse_json : Text → Option Value
  -- `JSON.stringify(v)`
  pub stringify_json : Value → Text
  pub sha256 : Bytes → Bytes
  -- `ed25519.getPublicKey(seed)`
  pub public_key : Bytes → Bytes
  -- `ed25519.sign(message, seed)`
  pub sign : Bytes → Bytes → Bytes
  -- `ed25519.verify(signature, message, key)`; false where it raises
  pub verify : Bytes → Bytes → Bytes → Bool
