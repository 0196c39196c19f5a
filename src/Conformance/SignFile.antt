-- ===== src/Conformance/SignFile.antt =====
-- scripts/sign-artifacts.ts: `processDirectory`, for the parsed content of one file.
use arky_foundation.Common.{
  Bool, true, false, not, ◌&&◌, ◌||◌, if◌then◌else◌, Option, none, some, Text, codes, Run, returns,
  throws,
}
use arky_foundation.Platform.{Platform}
use arky_foundation.Json.{Value, undefined, null, bool, obj, Fields, get, get_field}
use arky_foundation.Tim.Create.{has_field, is_truthy}
use arky_foundation.Offline.Checks.{and_then}
use arky_foundation.Conformance.Toolkit.{Toolkit}
use arky_foundation.Conformance.Sign.{
  put_field, is_placeholder_sig, is_placeholder_cid, has_placeholder_witness, has_stale_tim_cid,
  process_tim, process_signed_artifact,
}

abbrev has : Text → Fields → Bool
has k fs = is_truthy (get_field k fs)

-- `v.time && v.identity && v.measurement`
abbrev pub is_tim : Fields → Bool
is_tim fs = has (codes "time") fs && has (codes "identity") fs && has (codes "measurement") fs

-- `v.scope && v.actor && v.intent`
abbrev pub is_commitment : Fields → Bool
is_commitment fs = has (codes "scope") fs && has (codes "actor") fs && has (codes "intent") fs

abbrev pub is_signable : Fields → Bool
is_signable fs =
    has (codes "registry_id") fs
    || has (codes "pack_id") fs
    || is_commitment fs
    || (has (codes "request_id") fs && has (codes "verb") fs && has (codes "rail") fs)

abbrev is_false : Value → Bool
is_false (bool false) = true
is_false _ = false

-- `json.expect && json.expect.valid === false`
unfoldable pub is_negative : Fields → Bool
unfolding get get_field
is_negative json = is_false (get (codes "valid") (get_field (codes "expect") json))

-- `a || b`, where `b` may raise
abbrev or_run : Bool → Run Bool → Run Bool
or_run true b = returns true
or_run false b = b

-- The content of a file as the steps have changed it, and what is to be written.
abbrev pub Progress : Type 0
Progress = Fields × Option Fields

module _ ⦃platform : Platform⦄ (toolkit : Toolkit) where
  open toolkit use {PrivateKey}

  -- the tests that all TIMs share, whether they stand alone or in a vector
  unfoldable pub is_stale : Fields → Run Bool
  unfolding has_placeholder_witness has_stale_tim_cid
  is_stale tim = or_run (has_placeholder_witness tim) (has_stale_tim_cid toolkit tim)

  unfoldable pub needs_tim : Fields → Run Bool
  unfolding is_placeholder_sig is_placeholder_cid is_stale get_field
  needs_tim tim =
      or_run
        (is_placeholder_sig (get_field (codes "sig") tim)
          || is_placeholder_cid (get_field (codes "cid") tim))
        (is_stale tim)

  abbrev needs_artifact : Fields → Bool
  needs_artifact artifact =
      is_placeholder_sig (get_field (codes "sig") artifact)
      || is_placeholder_cid (get_field (codes "cid") artifact)

  -- whether the artifact that is the file itself is signed
  unfoldable pub needs_signing : Fields → Run Bool
  unfolding is_placeholder_sig is_placeholder_cid is_stale has_field get_field
  needs_signing json =
      let signed = has_field (codes "sig") json in
      let resign : Run Bool = if is_tim json then is_stale json else returns false in
      and_then resign λ stale. returns (
        (signed && is_placeholder_sig (get_field (codes "sig") json))
        || ((is_tim json || is_signable json) && not signed)
        || (has_field (codes "cid") json && is_placeholder_cid (get_field (codes "cid") json))
        || stale)

  module _ (key witness_key : PrivateKey) where
    unfoldable pub sign_file : Fields → Run (Option Fields)
    unfolding needs_signing process_tim process_signed_artifact
    sign_file json =
        let tim = and_then (process_tim toolkit key witness_key json) (λ t. returns (some t)) in
        and_then (needs_signing json) λ needed.
          if not needed
          then returns none
          else if is_tim json
          then tim
          else returns (some (process_signed_artifact toolkit key json))

    -- the TIM `tim`, which the member `k` of `holder` holds
    unfoldable pub sign_tim_in : Text → Value → Fields → Run (Option Fields)
    unfolding needs_tim process_tim put_field
    sign_tim_in k (obj tim) holder =
        let signed =
          and_then (process_tim toolkit key witness_key tim)
            (λ t. returns (some (put_field k (obj t) holder))) in
        and_then (needs_tim tim) λ needed. if needed then signed else returns none
    sign_tim_in k v holder = returns none

    unfoldable pub sign_artifact_in : Text → Value → Fields → Option Fields
    unfolding process_signed_artifact put_field get_field
    sign_artifact_in k (obj artifact) holder =
        if needs_artifact artifact
        then some (put_field k (obj (process_signed_artifact toolkit key artifact)) holder)
        else none
    sign_artifact_in k v holder = none

    -- `json.inputs = inputs`, and `updated = json`, if a member was signed
    abbrev pub changed : Option Fields → Progress → Progress
    changed none p = p
    changed (some inputs) (json, updated) =
        let json' = put_field (codes "inputs") (obj inputs) json in (json', some json')

    abbrev is_commitment_value : Value → Bool
    is_commitment_value (obj fs) = is_commitment fs
    is_commitment_value _ = false

    -- the member that holds an embedded commitment
    abbrev kernel_member : Fields → Text
    kernel_member inputs = elim (get_field (codes "kernel") inputs) [
      | undefined ↦ codes "commitment"
      | null ↦ codes "commitment"
      | _ ↦ codes "kernel"
    ]

    abbrev sign_kernel_in : Fields → Option Fields
    sign_kernel_in inputs =
        let v = get_field (kernel_member inputs) inputs in
        if is_commitment_value v then sign_artifact_in (kernel_member inputs) v inputs else none

    abbrev inputs_of : Progress → Option Fields
    inputs_of p = elim (get_field (codes "inputs") p.0) [ obj inputs ↦ some inputs | _ ↦ none ]

    -- a step on the inputs of a vector
    abbrev on_inputs : (Fields → Option Fields) → Progress → Progress
    on_inputs f p = elim (inputs_of p) [ none ↦ p | some inputs ↦ changed (f inputs) p ]

    unfoldable pub sign_tim_input : Progress → Run Progress
    unfolding sign_tim_in put_field get_field
    sign_tim_input p = elim (inputs_of p) [
      | none ↦ returns p
      | some inputs ↦
          and_then (sign_tim_in (codes "tim") (get_field (codes "tim") inputs) inputs)
            λ signed. returns (changed signed p)
    ]

    unfoldable pub sign_inputs : Progress → Progress
    unfolding sign_artifact_in put_field get_field
    sign_inputs p = on_inputs sign_kernel_in (
        on_inputs
          (λ inputs.
            sign_artifact_in (codes "well_known_index")
              (get_field (codes "well_known_index") inputs) inputs)
          p)

    -- a TIM that a fixture holds
    unfoldable pub sign_fixture : Progress → Run Progress
    unfolding sign_tim_in get_field
    sign_fixture (json, updated) = elim (get_field (codes "tim") json) [
      | obj tim ↦
          if is_tim tim
          then and_then (sign_tim_in (codes "tim") (obj tim) json) (λ signed. elim signed [
            | none ↦ returns (json, updated)
            | some json' ↦ returns (json', some json')
          ])
          else returns (json, updated)
      | _ ↦ returns (json, updated)
    ]

    -- What is written for a file whose content is an object; nothing where a step raises.
    unfoldable pub process_file : Fields → Option Fields
    unfolding is_negative sign_file sign_tim_input sign_inputs sign_fixture
    process_file json =
        let result = and_then (sign_file json) λ updated.
          and_then (sign_tim_input (json, updated))
            λ p. and_then (sign_fixture (sign_inputs p)) λ q. returns q.1 in
        if is_negative json then none else (elim result [ throws ↦ none | returns o ↦ o ])
