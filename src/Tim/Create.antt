-- ===== src/Tim/Create.antt =====
-- packages/core/src/tim.ts: `canonicalBody` and `createTim`.
use arky_foundation.Common.{
  zero, Bool, true, false, if◌then◌else◌, List, [], ◌∷◌, ◌++◌, Option, none, some, Text, codes,
  text_eq, Run, returns, throws,
}
use arky_foundation.Number.{finite, nan}
use arky_foundation.Engine.{Engine}
use arky_foundation.Platform.{Bytes, Platform}
use arky_foundation.Json.{
  Value, undefined, null, bool, num, str, arr, obj, Fields, end, field, get_field, object,
  of_members,
}
use arky_foundation.Json.Canonical.{canonicalize}
use arky_foundation.Codec.Cid.{cid_from_canonical}
use arky_foundation.Codec.Jws.{sign_detached}

-- `const { [k]: _, ...rest } = o`
unfoldable pub without : Text → Fields → Fields
unfolding text_eq
without k end = end
without k (field j v fs) = if text_eq j k then without k fs else field j v (without k fs)

-- `k in o`, over own properties
unfoldable pub has_field : Text → Fields → Bool
unfolding text_eq
has_field k end = false
has_field k (field j v fs) = if text_eq j k then true else has_field k fs

-- `{ ...o, [k]: v }` where `o` has `k`
unfoldable pub replace_field : Text → Value → Fields → Fields
unfolding text_eq
replace_field k v end = end
replace_field k v (field j w fs) =
    if text_eq j k then field j v fs else field j w (replace_field k v fs)

unfoldable pub is_truthy : Value → Bool
is_truthy undefined = false
is_truthy null = false
is_truthy (bool b) = b
is_truthy (num nan) = false
is_truthy (num (finite n zero e)) = false
is_truthy (num _) = true
is_truthy (str []) = false
is_truthy _ = true

unfoldable pub drop_witnesses : Fields → Fields → Fields
unfolding replace_field without
drop_witnesses end rest = without (codes "time") rest
drop_witnesses (field k v fs) rest = replace_field (codes "time") (obj (field k v fs)) rest

-- The body without `time.witnesses`. `in` raises on a text, a number or a Boolean.
unfoldable pub strip_witnesses : Value → Fields → Run Fields
unfolding has_field drop_witnesses without is_truthy
strip_witnesses (obj time) rest =
    if has_field (codes "witnesses") time
    then returns (drop_witnesses (without (codes "witnesses") time) rest)
    else returns rest
strip_witnesses (arr vs) rest = returns rest
strip_witnesses time rest = if is_truthy time then throws else returns rest

unfoldable pub canonical_body : Fields → Run Fields
unfolding without strip_witnesses get_field
canonical_body tim =
    let rest = without (codes "sig") (without (codes "cid") tim) in
    strip_witnesses (get_field (codes "time") rest) rest

pub record CreateTimInput : Type 0 where
  pub ts : Text
  pub identity : Value
  pub measurement : Value
  pub prev : Option Text
  pub nonce : Option Text
  pub exp : Option Text

-- a member that is left out where its text is absent or empty
abbrev pub optional : Text → Option Text → List (Text × Value)
optional k (some (c ∷ s)) = (k, str (c ∷ s)) ∷ []
optional k _ = []

abbrev pub tim_body : CreateTimInput → List (Text × Value)
tim_body input =
    (codes "time", object ((codes "ts", str input.ts) ∷ []))
    ∷ (codes "identity", input.identity)
    ∷ (codes "measurement", input.measurement)
    ∷ (optional (codes "prev") input.prev
        ++ (optional (codes "nonce") input.nonce ++ optional (codes "exp") input.exp))

-- `{ ...body, cid, sig }`, for a body that has neither
abbrev pub sealed : List (Text × Value) → Text → Text → Fields
sealed body cid sig = of_members (body ++ ((codes "cid", str cid) ∷ (codes "sig", str sig) ∷ []))

module _ ⦃engine : Engine⦄ ⦃platform : Platform⦄ where
  -- canonicalize, then cid, then signature: `createTim`, `compileRule` and `signArtifact` alike.
  -- `none` where canonicalization raises.
  unfoldable pub sign_body : List (Text × Value) → Bytes → Option Text → Option Fields
  unfolding canonicalize cid_from_canonical sign_detached
  sign_body body seed kid = elim (canonicalize (object body)) [
    | none ↦ none
    | some canonical ↦ some (
        sealed body (cid_from_canonical canonical)
          (sign_detached (platform.encode_utf8 canonical) seed kid))
  ]

  unfoldable pub create_tim : CreateTimInput → Bytes → Option Text → Option Fields
  unfolding sign_body
  create_tim input seed kid = sign_body (tim_body input) seed kid
