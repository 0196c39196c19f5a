-- ===== src/Conformance/Toolkit.antt =====
-- What the scripts take from the packages jose and multiformats.
use arky_foundation.Common.{Option, Text}
use arky_foundation.Platform.{Bytes}
use arky_foundation.Json.{Value}

pub record Toolkit : Type 1 where
  pub Key : Type 0
  pub PrivateKey : Type 0
  -- `jose.importJWK` of the Ed25519 key whose member `x` is the text; `none` where it raises
  pub import_key : Text → Option Key
  -- `jose.decodeProtectedHeader(sig)`; `none` where it raises
  pub protected_header : Text → Option Value
  -- `jose.flattenedVerify` of a protected header, a signature and a payload, with the option that
  -- `b64` is understood: the message of the exception, where it raises
  pub verify_failure : Text → Text → Bytes → Key → Option Text
  -- `new jose.CompactSign(payload).setProtectedHeader(header).sign(key)`
  pub compact_sign : Bytes → Value → PrivateKey → Text
  -- `base58btc.encode(bytes)`, with its prefix
  pub encode : Bytes → Text
  -- `base58btc.decode(s)`; `none` where it raises
  pub decode : Text → Option Bytes
