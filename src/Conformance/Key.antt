-- ===== src/Conformance/Key.antt =====
-- scripts/lib/merkle.ts: `multihash` and `deriveIdempotencyKey`, and the key that the SDK derives.
use arky_foundation.Common.{[], ◌∷◌, some, or_else, Text, codes, ◌≡◌, ap, sym, ◌∙◌}
use arky_foundation.Number.{Number}
use arky_foundation.Engine.{Engine}
use arky_foundation.Platform.{Bytes, Platform}
use arky_foundation.Json.{Fields, Value, str, num, obj, object}
use arky_foundation.Json.Canonical.{canonicalize}
use arky_foundation.Codec.Cid.{to_multibase, multihash_sha256}
use arky_foundation.Settler.Execute.{args_hash, hash_text, components, derive_idempotency_key}
use arky_foundation.Conformance.Toolkit.{Toolkit}
use arky_foundation.Conformance.Jcs.{jcs}
use arky_foundation.Conformance.Agrees.{IsPlain, jcs-canonicalize, jcs-some}

module _ ⦃platform : Platform⦄ (toolkit : Toolkit) where
  -- `multihash(new TextEncoder().encode(jcsCanonical(v)))`
  unfoldable pub hash_of : Value → Text
  unfolding jcs
  hash_of v =
      toolkit.encode (0x12 ∷ 0x20 ∷ platform.sha256 (platform.encode_utf8 (or_else (jcs v) [])))

  -- The members of the input of `deriveIdempotencyKey` in the order of its type, of any values.
  unfoldable pub derived_key : Value → Value → Value → Value → Value → Text
  unfolding hash_of
  derived_key commitment_cid verb rail args index = hash_of (
      object (
        (codes "args_hash", str (hash_of args))
        ∷ (codes "commitment_cid", commitment_cid)
        ∷ (codes "rail", rail)
        ∷ (codes "verb", verb)
        ∷ (codes "verb_index", index)
        ∷ []))

module _ ⦃engine : Engine⦄ ⦃platform : Platform⦄ (toolkit : Toolkit)
    (encodes : (bytes : Bytes) → toolkit.encode bytes ≡ to_multibase bytes) where
  hash_of-plain :
      (v : Value) (s : Text) → IsPlain v → canonicalize v ≡ some s → hash_of toolkit v ≡ hash_text s
  unfolding hash_of multihash_sha256
  hash_of-plain v s p e =
      ap (λ o. toolkit.encode (0x12 ∷ 0x20 ∷ platform.sha256 (platform.encode_utf8 (or_else o []))))
        (sym (jcs-canonicalize v p) ∙ e)
      ∙ encodes (0x12 ∷ 0x20 ∷ platform.sha256 (platform.encode_utf8 s))

  canonicalize-plain : (v : Value) → IsPlain v → (s : Text) × (canonicalize v ≡ some s)
  canonicalize-plain v p = let (s, e) = jcs-some v p in (s, jcs-canonicalize v p ∙ e)

  -- For an object of arguments and for components on which the scripts agree with the SDK, the SDK
  -- derives the key that the conformance verifier derives, if both packages write bytes alike in base58btc.
  pub derive_idempotency_key-derived_key :
      (commitment_cid verb rail : Text) (args : Fields) (index : Number)
      → IsPlain (obj args)
      → IsPlain (components (hash_of toolkit (obj args)) commitment_cid (str rail) verb index)
      → derive_idempotency_key (some commitment_cid) verb (str rail) (obj args) (some index)
        ≡ some
            (derived_key toolkit (str commitment_cid) (str verb) (str rail) (obj args) (num index))
  unfolding derive_idempotency_key args_hash derived_key
  derive_idempotency_key-derived_key commitment_cid verb rail args index p q =
      let (s, e) = canonicalize-plain (obj args) p in
      let h = hash_of-plain (obj args) s p e in
      let all = components (hash_of toolkit (obj args)) commitment_cid (str rail) verb index in
      let (t, f) = canonicalize-plain all q in
      let g : canonicalize (components (hash_text s) commitment_cid (str rail) verb index)
          ≡ some t =
        ap (λ x. canonicalize (components x commitment_cid (str rail) verb index)) (sym h) ∙ f in
      rw (derive_idempotency_key, args_hash, e, derive_idempotency_key, or_else, g)
        (ap some (sym (hash_of-plain all t q f)))
