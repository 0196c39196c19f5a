-- ===== src/Conformance/Checks.antt =====
-- scripts/verify-artifacts.ts: the checks of `verifyCheckVector` that look at one part of the inputs.
-- Each gives the fields that are compared with the expectation.
use arky_foundation.Common.{
  ℕ, Bool, true, false, not, ◌&&◌, ◌||◌, ◌==◌, between, if◌then◌else◌, all, any, keep, map, List,
  [], ◌∷◌, ◌++◌, Option, none, some, or_else, is_some, Text, codes, text_eq, Run, returns, throws,
}
use arky_foundation.Engine.{Engine}
use arky_foundation.Platform.{Platform}
use arky_foundation.Json.{
  Value, undefined, null, bool, num, str, arr, obj, Fields, get, get_field, items, array,
  is_undefined, end,
}
use arky_foundation.Codec.Jws.{split_dots}
use arky_foundation.Tim.Verify.{is_value, is_empty}
use arky_foundation.Offline.Checks.{and_then}
use arky_foundation.Offline.Values.{elements, includes_value}
use arky_foundation.Conformance.Toolkit.{Toolkit}
use arky_foundation.Conformance.Jcs.{jcs, jcs_canonical, computed_cid}
use arky_foundation.Conformance.Artifact.{body_of, resolve_did, verify_signed, is_verified}

abbrev pub Got : Type 0
Got = List (Text × Value)

-- the errors of a check with one code
abbrev errors_unless : Bool → Text → Value
errors_unless true code = array []
errors_unless false code = array (str code ∷ [])

-- `valid` and `errors`, of a check with one code
abbrev pub judged : Bool → Text → Got
judged ok code = (codes "valid", bool ok) ∷ (codes "errors", errors_unless ok code) ∷ []

-- `a ?? b`
abbrev if_nullish : Value → Value → Value
if_nullish undefined v = v
if_nullish null v = v
if_nullish u v = u

abbrev names : List Text → List Value
names ts = map (λ t. str t) ts

unfoldable pub is_among : List Text → Value → Bool
unfolding text_eq
is_among ts (str s) = any (text_eq s) ts
is_among ts _ = false

abbrev allowed_auth : List Text
allowed_auth = codes "none" ∷ codes "mtls" ∷ codes "oauth2" ∷ codes "apikey" ∷ []

abbrev no_value : List Value → Bool
no_value [] = true
no_value (v ∷ vs) = false

abbrev are_allowed : Value → Bool
are_allowed (arr vs) = not (no_value (items vs)) && all (is_among allowed_auth) (items vs)
are_allowed _ = false

-- the check `auth_values`
unfoldable pub auth_values : Fields → Got
unfolding is_among get get_field
auth_values inputs =
    judged (are_allowed (get (codes "auth") (get_field (codes "security") inputs)))
      (codes "common.invalid_argument")

-- the check `policy_binding`
unfoldable pub policy_binding : Fields → Got
unfolding get_field
policy_binding inputs =
    let bound = if_nullish (get_field (codes "explicit") inputs) (
      if_nullish (get_field (codes "scope_default") inputs)
        (if_nullish (get_field (codes "provider_default") inputs) null)) in
    elim bound [
      | null ↦ judged false (codes "policy.unresolvable_pack")
      | v ↦ judged true [] ++ (codes "bound", v) ∷ []
    ]

-- `new Set(vs)`, in the order of the first insertions
unfoldable pub distinct : List Value → List Value → List Value
unfolding includes_value
distinct seen [] = seen
distinct seen (v ∷ vs) =
    if includes_value v seen then distinct seen vs else distinct (seen ++ v ∷ []) vs

unfoldable pub lacking : List Value → List Value → List Value
unfolding includes_value
lacking vs ws = keep (λ v. not (includes_value v ws)) vs

-- the check `capability_accuracy`
unfoldable pub capability_accuracy : Fields → Run Got
unfolding distinct lacking elements get_field
capability_accuracy inputs =
    and_then (elements (get_field (codes "advertised") inputs)) λ advertised.
      and_then (elements (get_field (codes "observed") inputs)) λ observed.
        let adv = distinct [] advertised in
        let obs = distinct [] observed in
        let missing = lacking adv obs in
        let undeclared = lacking obs adv in
        let same = no_value missing && no_value undeclared in
        returns (
          (codes "valid", bool same)
          ∷ (codes "errors", array [])
          ∷ (codes "match", bool same)
          ∷ (codes "missing", array missing)
          ∷ (codes "undeclared", array undeclared)
          ∷ [])

abbrev is_endpoint : Text → Value → Bool
is_endpoint name e =
    is_value name (get (codes "name") e) && is_value (codes "GET") (get (codes "method") e)

abbrev missing_endpoints : List Value → List Text
missing_endpoints es =
    map (λ name. codes "health.missing:" ++ name)
      (keep (λ name. not (any (is_endpoint name) es)) (codes "health" ∷ codes "ready" ∷ []))

abbrev listed_errors : List Text → Got
listed_errors errors =
    (codes "valid", bool (is_empty errors)) ∷ (codes "errors", array (names errors)) ∷ []

-- The check `health_endpoints`. Values other than arrays have no `some`.
unfoldable pub health_endpoints : Fields → Run Got
unfolding get get_field
health_endpoints inputs = elim (if_nullish (get_field (codes "endpoints") inputs) (array [])) [
  | arr es ↦ returns (listed_errors (missing_endpoints (items es)))
  | _ ↦ throws
]

abbrev is_empty_text : Text → Bool
is_empty_text [] = true
is_empty_text (c ∷ s) = false

-- `[a-z_]` and `[a-z0-9_@]`
abbrev is_namespace_char : ℕ → Bool
is_namespace_char c = between b'a' b'z' c || c == b'_'

abbrev is_code_char : ℕ → Bool
is_code_char c = is_namespace_char c || between b'0' b'9' c || c == b'@'

abbrev namespace_in : Text × List Text → Option Text
namespace_in (namespace, name ∷ []) =
    if not (is_empty_text namespace)
      && (all is_namespace_char namespace && (not (is_empty_text name) && all is_code_char name))
    then some namespace
    else none
namespace_in _ = none

-- the namespace of a code of the form `^([a-z_]+)\.[a-z0-9_@]+$`
unfoldable pub namespace_of : Text → Option Text
unfolding split_dots
namespace_of code = namespace_in (split_dots code)

abbrev error_namespaces : List Text
error_namespaces =
    codes "common"
    ∷ codes "tim"
    ∷ codes "keys"
    ∷ codes "discovery"
    ∷ codes "kernel"
    ∷ codes "notary"
    ∷ codes "settler"
    ∷ codes "registry"
    ∷ codes "policy"
    ∷ codes "vectors"
    ∷ []

abbrev unless_true : Bool → Text → List Text
unless_true ok e = if ok then [] else e ∷ []

abbrev absent_fields : Value → List Text
absent_fields e =
    map (λ f. codes "field.missing:" ++ f)
      (keep (λ f. is_undefined (get f e))
        (codes "type" ∷ codes "code" ∷ codes "title" ∷ codes "severity" ∷ codes "ts" ∷ []))

abbrev severity_errors : Value → List Text
severity_errors undefined = []
severity_errors v =
    unless_true (is_among (codes "error" ∷ codes "fatal" ∷ codes "warning" ∷ []) v)
      (codes "severity.invalid")

abbrev code_errors : Value → List Text
code_errors (str code) = elim (namespace_of code) [
  | none ↦ codes "code.malformed" ∷ []
  | some namespace ↦
      unless_true (any (text_eq namespace) error_namespaces) (codes "code.unknown_namespace")
]
code_errors _ = []

abbrev is_number : Value → Bool
is_number (num n) = true
is_number _ = false

abbrev retry_errors : Value → List Text
retry_errors undefined = []
retry_errors retry =
    let policy = get (codes "policy") retry in
    if not (
      is_among (codes "never" ∷ codes "immediate" ∷ codes "after" ∷ codes "exponential" ∷ [])
        policy)
    then codes "retry.policy_invalid" ∷ []
    else unless_true
        (not (is_value (codes "after") policy) || is_number (get (codes "after_ms") retry))
        (codes "retry.after_ms_missing")

-- the errors of an envelope
unfoldable pub envelope_errors : Value → List Text
unfolding namespace_of is_among text_eq get
envelope_errors e =
    absent_fields e
    ++ (severity_errors (get (codes "severity") e)
        ++ (code_errors (get (codes "code") e) ++ retry_errors (get (codes "retry") e)))

-- the check `error_envelope`
unfoldable pub error_envelope : Fields → Got
unfolding envelope_errors get get_field
error_envelope inputs =
    let e = if_nullish (get_field (codes "envelope") inputs) (obj end) in
    listed_errors (envelope_errors e)
    ++ (
      codes "effective_retry",
      if_nullish (get (codes "policy") (get (codes "retry") e)) (str (codes "never")),
    )
      ∷ []

module _ ⦃engine : Engine⦄ ⦃platform : Platform⦄ (toolkit : Toolkit) where
  open toolkit use {Key, verify_failure}

  -- The checks `descriptor_verify`, `ar_verify`, `pack_verify` and `registry_verify`, of an artifact
  -- that is an object; `code` is the code of a failure.
  unfoldable pub embedded_artifact : Text → Fields → Key → Run Got
  unfolding verify_signed is_verified
  embedded_artifact code artifact key = elim (verify_signed toolkit artifact key) [
    | throws ↦ throws
    | returns res ↦ returns (
        judged (is_verified res) code
        ++ (codes "cid_valid", bool (not res.has_cid || res.cid_match))
          ∷ (codes "signature_valid", bool res.sig_valid)
          ∷ [])
  ]

  -- the check `content_binding`
  unfoldable pub content_binding : Fields → Got
  unfolding jcs computed_cid get_field
  content_binding inputs =
      let cid = computed_cid toolkit (or_else (jcs (get_field (codes "content") inputs)) []) in
      let bound = is_value cid (get_field (codes "nonce") inputs) in
      judged bound (codes "tim.cid_mismatch") ++ (codes "bound", bool bound) ∷ []

  abbrev is_bound : Option Key → Text → Text × List Text → Bool
  is_bound (some key) canonical (header, mid ∷ signature ∷ more) =
      not (is_some (verify_failure header signature (platform.encode_utf8 canonical) key))
  is_bound _ canonical _ = false

  abbrev signature_bound : Option Key → Text → Value → Bool
  signature_bound key canonical (str sig) = is_bound key canonical (split_dots sig)
  signature_bound key canonical _ = false

  -- the check `key_binding`, of an object `inputs.tim`
  unfoldable pub key_binding : Value → Fields → Run Got
  unfolding body_of jcs_canonical resolve_did split_dots get_field
  key_binding subject tim = and_then (body_of tim) λ body.
      let bound =
        signature_bound (resolve_did toolkit subject) (jcs_canonical body)
          (get_field (codes "sig") tim) in
      returns (judged bound (codes "discovery.key_mismatch") ++ (codes "bound", bool bound) ∷ [])
