-- ===== src/Offline/Tests.antt =====
-- A concrete bundle: a session, and one call whose decision cites its TIM and does not approve.
use arky_foundation.Common.{
  if◌then◌else◌, true, ◌==◌, List, [], ◌∷◌, some, Option, Text, codes, reverse, Run, throws,
}
use arky_foundation.Sample.{sample_engine}
use arky_foundation.SamplePlatform.{sample_header}
use arky_foundation.Platform.{Platform}
use arky_foundation.Json.{Value, str}
use arky_foundation.Kernel.Types.{Decision}
use arky_foundation.Offline.Verify.{BundleReport, Directory}

-- the value of a string literal without escapes; each other text is read as the header of a signature
abbrev unquoted : Text → Value
unquoted [] = sample_header
unquoted (c ∷ s) = elim (reverse s) [
  | [] ↦ sample_header
  | d ∷ r ↦ if c == b'"' then str (reverse r) else sample_header
]

abbrev bundle_platform : Platform
bundle_platform = record {
  encode_utf8 = λ s. s;
  decode_utf8 = λ b. b;
  parse_json = λ s. some (unquoted s);
  stringify_json = λ v. codes "{}";
  sha256 = λ b. [];
  public_key = λ b. b;
  sign = λ m s. [];
  verify = λ s m k. true;
}

abbrev session_text : Text
session_text =
    codes
      "{\"identity\":{\"id\":\"did:key:z6MkhaXgBZDvotDkL5257faiztiGiC2QtKLGpbnnEGta2doK\"},\"cid\":\"z2P1\",\"sig\":\"aa..aa\"}"

abbrev tim_text : Text
tim_text =
    codes
      "{\"time\":{\"ts\":\"1\"},\"identity\":{\"id\":\"did:key:z6MkhaXgBZDvotDkL5257faiztiGiC2QtKLGpbnnEGta2doK\"},\"measurement\":{\"name\":\"tool\",\"value\":\"read\",\"method\":\"m\"},\"cid\":\"z2P1\",\"sig\":\"aa..aa\"}"

abbrev decision_text : Text
decision_text =
    codes
      "{\"identity\":{\"id\":\"did:key:z6MkhaXgBZDvotDkL5257faiztiGiC2QtKLGpbnnEGta2doK\"},\"status\":\"REJECTED\",\"evidence\":[\"z2P1\"],\"cid\":\"z2P1\",\"sig\":\"aa..aa\"}"

abbrev directory : Directory
directory = record {
  session = some session_text;
  commitments = some [];
  calls = some ((codes "1-decision.json", decision_text) ∷ (codes "1-tim-0.json", tim_text) ∷ []);
}

abbrev odd_kernel : Value → List Value → Value → Run Decision
odd_kernel c tims ts = throws

abbrev no_message : Option Text → Text
no_message s = []

abbrev valid_report : BundleReport
valid_report = record { valid = true; errors = []; calls = 1; commitments = 0 }
