-- ===== src/Audit/Signed.antt =====
-- packages/mcp/src/audit.ts: members of signed artifacts.
use arky_foundation.Codec.Jws.{sign_detached}
use arky_foundation.Settler.Execute.{args_hash, derive_idempotency_key}
use arky_foundation.Common.{
  Text, codes, List, none, some, ◌≡◌, refl, some_bind, sym, some-injective,
}
use arky_foundation.Engine.{Engine}
use arky_foundation.Platform.{Platform}
use arky_foundation.Json.{Value, str, Fields, get_field, object}
use arky_foundation.Json.Canonical.{canonicalize}
use arky_foundation.Codec.Cid.{KeyPair, cid_from_canonical}
use arky_foundation.Kernel.Types.{Decision}
use arky_foundation.Tim.Create.{sealed, sign_body}
use arky_foundation.Audit.Artifacts.{
  status_text, decision_body, XrInput, xr_body, sign_artifact, wrap_decision, build_xr,
}

module _ ⦃engine : Engine⦄ ⦃platform : Platform⦄ where
  -- A signed artifact is its body with two members behind it.
  pub sign_artifact-sealed :
      (body : List (Text × Value)) (keys : KeyPair) (artifact : Fields)
      → sign_artifact body keys ≡ some artifact
      → (cid : Text) × (sig : Text) × (artifact ≡ sealed body cid sig)
  unfolding sign_artifact sign_body
  sign_artifact-sealed body keys artifact h =
      let (canonical, e, k) = some_bind (canonicalize (object body)) _ h in
      (
        cid_from_canonical canonical,
        sign_detached (platform.encode_utf8 canonical) keys.private_key (some keys.did),
        sym (some-injective k),
      )

  -- The artifact of a decision has its status.
  pub wrap_decision-status :
      (d : Decision) (commitment_cid : Text) (evidence : List Text) (keys : KeyPair) (ts : Text)
      (artifact : Fields)
      → wrap_decision d commitment_cid evidence keys ts ≡ some artifact
      → get_field (codes "status") artifact ≡ str (status_text d.status)
  unfolding wrap_decision decision_body get_field
  wrap_decision-status d commitment_cid evidence keys ts artifact h =
      let (cid, sig, e) =
        sign_artifact-sealed (decision_body d commitment_cid evidence keys ts) keys artifact h in
      rw e refl

  -- A receipt names the decision that it is given.
  pub build_xr-decision_cid :
      (input : XrInput) (keys : KeyPair) (xr : Fields)
      → build_xr input keys ≡ some xr
      → get_field (codes "decision_cid") xr ≡ str input.decision_cid
  unfolding build_xr xr_body get_field
  build_xr-decision_cid input keys xr h =
      let (hash, e, k) = some_bind (args_hash input.args) _ h in
      let (key, f, l) =
        some_bind
          (derive_idempotency_key (some input.commitment_cid) (codes "arky:verb/control@v1")
            (str input.rail) input.args none)
          _ k in
      let (cid, sig, g) = sign_artifact-sealed (xr_body input keys hash key) keys xr l in rw g refl
