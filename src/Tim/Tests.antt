-- ===== src/Tim/Tests.antt =====
-- The making and the verification of concrete TIMs.
use arky_foundation.Codec.Cid.{did_key_from_public_key, from_seed}
use arky_foundation.Common.{replicate, arith}
use arky_foundation.Tim.DefaultResolver.{verify_tim-from_seed}
use arky_foundation.Tim.DidTrip.{decode_did_text-did_key_from_public_key}
use arky_foundation.Codec.Cid.{to_multibase, multihash_sha256}
use arky_foundation.Codec.SignTrip.{IsFaithful}
use arky_foundation.Tim.RoundTrip.{verify_tim-create_tim, IsComplete}
use arky_foundation.Codec.Jws.{header_for}
use arky_foundation.Tim.DidKey.{resolve_did_key, decode_did_text}
use arky_foundation.Tim.Valid.{Holds, verify_tim-valid}
use arky_foundation.Tim.Create.{
  canonical_body, create_tim, sealed, CreateTimInput, sign_body, tim_body,
}
use arky_foundation.Platform.{Bytes}
use arky_foundation.Sample.{sample_engine}
use arky_foundation.SamplePlatform.{sample_platform, blank_platform}
use arky_foundation.Codec.Base58.{base58btc_encode}
use arky_foundation.Common.{codes, Run, ◌∷◌, true, Option, [], some, ◌≡◌, Text, returns, none, refl}
use arky_foundation.Json.Values.{Value, str, obj, object, of_members, Fields, get}
use arky_foundation.Tim.Verify.{
  VerifyResult, verify_tim, missing_from, verdict, verify_schema, required_paths, verify_complete,
  verify_canonical, canonical_text,
}

abbrev tim : Fields
tim = of_members (
    (codes "time", object ((codes "ts", str (codes "1")) ∷ []))
    ∷ (codes "identity", object ((codes "id", str (codes "i")) ∷ []))
    ∷ (
      codes "measurement",
      object (
          (codes "name", str (codes "n"))
          ∷ (codes "value", str (codes "v"))
          ∷ (codes "method", str (codes "m"))
          ∷ []),
    )
    ∷ (codes "cid", str (codes "z2P1"))
    ∷ (codes "sig", str (codes "aa..aa"))
    ∷ [])

abbrev resolver : Fields → Value → Run (Option Bytes)
resolver t v = returns (some [])

abbrev valid_result : VerifyResult
valid_result = verdict true (some []) true [] true

run : verify_tim resolver tim none ≡ returns valid_result
unfolding verify_tim verify_schema verify_complete verify_canonical canonical_text missing_from
    canonical_body base58btc_encode
run = refl

verify_tim-valid_example :
    (missing_from (obj tim) required_paths ≡ [])
    × (canonical : Text) × (canonical_text resolver (canonical_body tim) ≡ some canonical)
    × Holds resolver tim none canonical
verify_tim-valid_example = verify_tim-valid resolver tim none valid_result run refl

abbrev input : CreateTimInput
input = record {
  ts = codes "1";
  identity = object ((codes "id", str (codes "i")) ∷ []);
  measurement = object (
      (codes "name", str (codes "n"))
      ∷ (codes "value", str (codes "v"))
      ∷ (codes "method", str (codes "m"))
      ∷ []);
  prev = none;
  nonce = some (codes "1");
  exp = none;
}

input-IsComplete : IsComplete input
unfolding get
input-IsComplete = record { identified = refl; named = refl; valued = refl; measured = refl }

faithful : IsFaithful blank_platform none
unfolding header_for
faithful = record {
  encodes = λ s. tt;
  signs = λ m seed. tt;
  reads = refl;
  verifies = λ m seed. refl;
}

abbrev created : Fields
created = sealed (tim_body input) (codes "z2P1") (codes "..")

made : create_tim ⦃platform = blank_platform⦄ input [] none ≡ some created
unfolding create_tim sign_body base58btc_encode to_multibase multihash_sha256
made = refl

verify_tim-create_tim_example :
    verify_tim ⦃platform = blank_platform⦄ resolver created none ≡ returns valid_result
verify_tim-create_tim_example =
    verify_tim-create_tim ⦃platform = blank_platform⦄ none faithful resolver input [] created made
      refl input-IsComplete

-- 32 bytes, a key and its own seed on the platform without bytes
abbrev own_seed : Bytes
own_seed = replicate 32 7

decode_did_text-did_key_from_public_key_example :
    decode_did_text (did_key_from_public_key own_seed) ≡ some own_seed
decode_did_text-did_key_from_public_key_example =
    decode_did_text-did_key_from_public_key own_seed refl (omega arith)

abbrev own_input : CreateTimInput
own_input = record {
  ts = codes "1";
  identity = object ((codes "id", str (from_seed ⦃platform = blank_platform⦄ own_seed).did) ∷ []);
  measurement = input.measurement;
  prev = none;
  nonce = none;
  exp = none;
}

own_input-IsComplete : IsComplete own_input
unfolding get
own_input-IsComplete = record { identified = refl; named = refl; valued = refl; measured = refl }

own_id :
    get (codes "id") own_input.identity ≡ str (from_seed ⦃platform = blank_platform⦄ own_seed).did
unfolding get
own_id = refl

abbrev own_tim : Fields
own_tim = sealed (tim_body own_input) (codes "z2P1") (codes "..")

own_made : create_tim ⦃platform = blank_platform⦄ own_input own_seed none ≡ some own_tim
unfolding create_tim sign_body base58btc_encode to_multibase multihash_sha256
own_made = refl

verify_tim-from_seed_example :
    verify_tim ⦃platform = blank_platform⦄
      (resolve_did_key ⦃platform = blank_platform⦄)
      own_tim
      none
    ≡ returns (verdict true (some own_seed) true [] true)
verify_tim-from_seed_example =
    verify_tim-from_seed ⦃platform = blank_platform⦄ own_input own_seed none own_tim refl
      (omega arith) own_id faithful own_input-IsComplete own_made
