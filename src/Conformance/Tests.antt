-- ===== src/Conformance/Tests.antt =====
-- Concrete keys, a value and a TIM for the theorems on the conformance scripts.
use arky_foundation.Common.{
  Bool, true, false, if◌then◌else◌, [], ◌∷◌, ◌++◌, or_else, starts_with, none, some, Text, codes,
  text_eq, returns, ◌≡◌, refl, lookup, All, List,
}
use arky_foundation.Number.{integer}
use arky_foundation.Codec.Base64.{is_ascii_space}
use arky_foundation.Codec.Jws.{split_dots}
use arky_foundation.Tim.Create.{without, strip_witnesses, has_field, replace_field}
use arky_foundation.Sample.{sample_engine}
use arky_foundation.SamplePlatform.{sample_platform}
use arky_foundation.Platform.{Bytes, Platform}
use arky_foundation.Json.{Value, str, num, obj, Fields, get, get_field, of_members, object, array}
use arky_foundation.Json.Canonical.{canonicalize}
use arky_foundation.Conformance.Toolkit.{Toolkit}
use arky_foundation.Conformance.Jcs.{jcs, jcs_canonical, computed_cid}
use arky_foundation.Conformance.Agrees.{IsPlain, jcs-canonicalize}
use arky_foundation.Conformance.Artifact.{
  CheckResult, body_of, result_of, signature_failure, signature_parts, verify_witnesses,
  failures_from, witness_failure, witness_parts, resolve_witness_key, resolve_did, verify_signed,
  is_verified,
}
use arky_foundation.Conformance.Sign.{
  header_of, test_kid, witness_kid, process_tim, has_stale_tim_cid, put_field, sign_jws,
  with_witnesses,
}
use arky_foundation.Conformance.Signed.{IsCompact, SigningKid, tests, witnesses, IsFaithfulToolkit}
use arky_foundation.Conformance.Report.{
  exit_code, blank_tally, report, report_artifact, artifact_detail, verify_file,
  verify_artifact_dir,
}
use arky_foundation.Conformance.Exit.{IsGood, verify_artifact_dir-IsGood}
use arky_foundation.Proxy.Message.{string_of}
use arky_foundation.Offline.Values.{join_with}
use arky_foundation.Conformance.Key.{derived_key, derive_idempotency_key-derived_key}
use arky_foundation.Settler.Execute.{derive_idempotency_key}
use arky_foundation.Codec.Cid.{to_multibase}
use arky_foundation.Conformance.Witnessed.{witness_x}
use arky_foundation.Conformance.Accepted.{verify_signed-process_tim}

-- The key `true` is the one of the witness.
abbrev signature_of : Bool → Text
signature_of true = codes "BB"
signature_of false = codes "AA"

abbrev header_named : Text → Value
header_named s = header_of (if starts_with (codes "t") s then test_kid else witness_kid)

abbrev kid_mark : Value → Text
kid_mark (obj fs) = if text_eq (text_at fs) test_kid then codes "t" else codes "w"
  where
    text_at : Fields → Text
    text_at fs = elim (get_field (codes "kid") fs) [ str s ↦ s | _ ↦ [] ]
kid_mark _ = codes "w"

abbrev sample_toolkit : Toolkit
sample_toolkit = record {
  Key = Bool;
  PrivateKey = Bool;
  import_key = λ x. some (text_eq x witness_x);
  protected_header = λ s. some (header_named s);
  verify_failure = λ h s m k. if text_eq s (signature_of k) then none else some (codes "failed");
  compact_sign = λ m h k. kid_mark h ++ (codes ".aa." ++ signature_of k);
  encode = λ b. codes "zQ";
  decode = λ s. none;
}

compact_sign-IsCompact :
    (m : Bytes) (k : Bool) {kid : Text}
    → SigningKid kid
    → IsCompact sample_toolkit k m (header_of kid) (sample_toolkit.compact_sign m (header_of kid) k)
unfolding text_eq get_field is_ascii_space starts_with
compact_sign-IsCompact m true tests = record {
  protected = codes "t";
  middle = codes "aa";
  signature = codes "BB";
  three = refl;
  protected_url = ((refl, refl, refl), tt);
  middle_url = ((refl, refl, refl), ((refl, refl, refl), tt));
  signature_url = ((refl, refl, refl), ((refl, refl, refl), tt));
  verifies = refl;
  reads = refl;
}
compact_sign-IsCompact m false tests = record {
  protected = codes "t";
  middle = codes "aa";
  signature = codes "AA";
  three = refl;
  protected_url = ((refl, refl, refl), tt);
  middle_url = ((refl, refl, refl), ((refl, refl, refl), tt));
  signature_url = ((refl, refl, refl), ((refl, refl, refl), tt));
  verifies = refl;
  reads = refl;
}
compact_sign-IsCompact m true witnesses = record {
  protected = codes "w";
  middle = codes "aa";
  signature = codes "BB";
  three = refl;
  protected_url = ((refl, refl, refl), tt);
  middle_url = ((refl, refl, refl), ((refl, refl, refl), tt));
  signature_url = ((refl, refl, refl), ((refl, refl, refl), tt));
  verifies = refl;
  reads = refl;
}
compact_sign-IsCompact m false witnesses = record {
  protected = codes "w";
  middle = codes "aa";
  signature = codes "AA";
  three = refl;
  protected_url = ((refl, refl, refl), tt);
  middle_url = ((refl, refl, refl), ((refl, refl, refl), tt));
  signature_url = ((refl, refl, refl), ((refl, refl, refl), tt));
  verifies = refl;
  reads = refl;
}

abbrev sample_faithful : IsFaithfulToolkit sample_toolkit
sample_faithful = record {
  public = λ k. k;
  signs = λ m k listed. compact_sign-IsCompact m k listed;
}

abbrev tim : Fields
tim = of_members (
    (codes "identity", object ((codes "id", str (codes "did:key:zA")) ∷ []))
    ∷ (
      codes "time",
      object (
          (codes "at", str (codes "now"))
          ∷ (codes "witnesses", array (str (codes "old") ∷ []))
          ∷ []),
    )
    ∷ [])

abbrev signed_tim : Fields
signed_tim = of_members (
    (codes "identity", object ((codes "id", str (codes "did:key:zA")) ∷ []))
    ∷ (
      codes "time",
      object (
          (codes "at", str (codes "now"))
          ∷ (codes "witnesses", array (str (codes "w..BB") ∷ []))
          ∷ []),
    )
    ∷ (codes "cid", str (codes "zQ"))
    ∷ (codes "sig", str (codes "t..AA"))
    ∷ [])

is_signed : process_tim sample_toolkit false true tim ≡ returns signed_tim
unfolding text_eq get_field get has_field put_field replace_field with_witnesses sign_jws split_dots
    body_of without strip_witnesses jcs_canonical computed_cid process_tim
is_signed = refl

verify_signed-process_tim_example :
    (res : CheckResult) × (verify_signed sample_toolkit signed_tim false ≡ returns res)
    × (is_verified res ≡ true)
    × (has_stale_tim_cid sample_toolkit signed_tim ≡ returns false)
unfolding text_eq get_field get resolve_did starts_with
verify_signed-process_tim_example =
    verify_signed-process_tim sample_toolkit sample_faithful false true refl tim signed_tim false
      is_signed refl

-- a platform whose `JSON.stringify` writes what the serializer writes
abbrev plain_platform : Platform
plain_platform = record {
  encode_utf8 = λ s. s;
  decode_utf8 = λ b. b;
  parse_json = λ s. none;
  stringify_json = λ v. or_else (canonicalize v) [];
  sha256 = λ b. [];
  public_key = λ b. b;
  sign = λ m s. m;
  verify = λ s m k. true;
}

abbrev plain_value : Value
plain_value =
    object
      ((codes "b", array (num (integer 2) ∷ str (codes "x") ∷ [])) ∷ (codes "a", object []) ∷ [])

jcs-canonicalize_example : canonicalize plain_value ≡ jcs ⦃platform = plain_platform⦄ plain_value
unfolding IsPlain canonicalize
jcs-canonicalize_example =
    jcs-canonicalize ⦃platform = plain_platform⦄ plain_value
      (refl, (refl, (refl, tt)), (refl, tt, tt))

abbrev files : List (Text × Value)
files = (codes "a.json", obj signed_tim) ∷ (codes "b.json", object []) ∷ []

files_pass : exit_code (verify_artifact_dir sample_toolkit false files blank_tally) ≡ 0
unfolding exit_code verify_artifact_dir verify_file verify_signed body_of without strip_witnesses
    jcs_canonical result_of computed_cid signature_failure signature_parts verify_witnesses
    failures_from witness_failure witness_parts resolve_witness_key resolve_did starts_with
    split_dots get get_field text_eq is_verified report_artifact artifact_detail report join_with
    string_of lookup
files_pass = refl

verify_artifact_dir-IsGood_example : All (IsGood sample_toolkit false) files
verify_artifact_dir-IsGood_example =
    verify_artifact_dir-IsGood sample_toolkit false files files_pass

abbrev codec_toolkit : Toolkit
codec_toolkit = record sample_toolkit { encode = to_multibase }

abbrev arguments : Fields
arguments = of_members ((codes "amount", num (integer 5)) ∷ [])

derive_idempotency_key-derived_key_example :
    derive_idempotency_key ⦃platform = plain_platform⦄
      (some (codes "zC"))
      (codes "pay")
      (str (codes "test:1"))
      (obj arguments)
      (some (integer 0))
    ≡ some (
        derived_key ⦃platform = plain_platform⦄ codec_toolkit
          (str (codes "zC"))
          (str (codes "pay"))
          (str (codes "test:1"))
          (obj arguments)
          (num (integer 0)))
unfolding IsPlain canonicalize
derive_idempotency_key-derived_key_example =
    derive_idempotency_key-derived_key ⦃platform = plain_platform⦄ codec_toolkit (λ b. refl)
      (codes "zC") (codes "pay") (codes "test:1") arguments (integer 0) (refl, refl, tt)
      ((refl, refl, (refl, refl, (refl, refl, (refl, refl, (refl, refl, tt))))))
