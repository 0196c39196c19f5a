-- ===== src/Conformance/Jcs.antt =====
-- scripts/verify-artifacts.ts, scripts/sign-artifacts.ts and scripts/lib/merkle.ts: `jcsCanonical`,
-- which the three files repeat, and the content identifier of a text.
use arky_foundation.Common.{List, [], ◌∷◌, ◌++◌, map, Option, none, some, or_else, Text, codes}
use arky_foundation.Platform.{Platform}
use arky_foundation.Sorting.{sort}
use arky_foundation.Sorting.Comparison.{compare_texts}
use arky_foundation.Json.{
  Value, undefined, null, bool, num, str, arr, obj, Items, nil, cons, Fields, end, field,
}
use arky_foundation.Json.Canonical.{entry, join}
use arky_foundation.Conformance.Toolkit.{Toolkit}

module _ ⦃platform : Platform⦄ where
  -- the pairs of the keys whose values have a text
  unfoldable pub pairs : List (Text × Option Text) → List Text → List Text
  unfolding entry
  pairs es [] = []
  pairs es (k ∷ ks) = elim (entry k es) [
    | none ↦ pairs es ks
    | some t ↦ (platform.stringify_json (str k) ++ (b':' ∷ t)) ∷ pairs es ks
  ]

  unfoldable pub jcs_object : List (Text × Option Text) → Text
  unfolding pairs join sort compare_texts
  jcs_object es = codes "{" ++ join (pairs es (sort compare_texts (map (λ e. e.0) es))) ++ codes "}"

  -- `none` is `undefined`. An element that is undefined is joined as the empty text.
  unfoldable mutual
    pub jcs : Value → Option Text
    jcs undefined = none
    jcs null = some (platform.stringify_json null)
    jcs (bool b) = some (platform.stringify_json (bool b))
    jcs (num n) = some (platform.stringify_json (num n))
    jcs (str s) = some (platform.stringify_json (str s))
    jcs (arr vs) = some (codes "[" ++ join (jcs_items vs) ++ codes "]")
    jcs (obj fs) = some (jcs_object (jcs_fields fs))

    pub jcs_items : Items → List Text
    jcs_items nil = []
    jcs_items (cons v vs) = or_else (jcs v) [] ∷ jcs_items vs

    pub jcs_fields : Fields → List (Text × Option Text)
    jcs_fields end = []
    jcs_fields (field k v fs) = (k, jcs v) ∷ jcs_fields fs

  -- `jcsCanonical` of an object
  unfoldable pub jcs_canonical : Fields → Text
  unfolding jcs jcs_object
  jcs_canonical fs = jcs_object (jcs_fields fs)

  -- `computeCid`
  unfoldable pub computed_cid : (toolkit : Toolkit) → Text → Text
  computed_cid toolkit canonical =
      toolkit.encode (0x12 ∷ 0x20 ∷ platform.sha256 (platform.encode_utf8 canonical))
