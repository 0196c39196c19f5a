-- ===== src/Audit/Evidence.antt =====
-- packages/mcp/src/policy.ts: `symbolize`, and packages/mcp/src/audit.ts: `buildEvidence`.
use arky_foundation.Common.{
  ℕ, Bool, true, false, not, ◌||◌, ◌==◌, if◌then◌else◌, List, [], ◌∷◌, ◌++◌, map, keep, Option,
  none, some, Text, codes, includes, is_some, lookup, insert, between, suc,
}
use arky_foundation.Number.{is_finite, integer}
use arky_foundation.Engine.{Engine}
use arky_foundation.Platform.{Platform}
use arky_foundation.Json.{
  Value, bool, num, str, obj, Fields, get_field, object, members, Items, arr, nil, end, cons, field,
}
use arky_foundation.Codec.Cid.{KeyPair}
use arky_foundation.Tim.Create.{CreateTimInput, create_tim}
use arky_foundation.Policy.Rules.{reserved_symbols}

abbrev is_start : ℕ → Bool
is_start c = between b'a' b'z' c || c == b'_'

abbrev replaced : ℕ → ℕ
replaced c = if is_start c || between b'0' b'9' c then c else b'_'

abbrev prefixed : Text → Text
prefixed [] = codes "_"
prefixed (c ∷ s) = if is_start c then c ∷ s else b'_' ∷ c ∷ s

abbrev is_primitive : Value → Bool
is_primitive (str s) = true
is_primitive (bool b) = true
is_primitive (num n) = is_finite n
is_primitive _ = false

-- the arguments that are bound to a symbol, and the symbols that collide
pub record Binding : Type 0 where
  pub by_symbol : List (Text × Text)
  pub collisions : List Text

abbrev pub add_text : Text → List Text → List Text
add_text s xs = if includes s xs then xs else xs ++ s ∷ []

unfoldable pub bind_symbol : Text → Text → Binding → Binding
unfolding includes lookup insert
bind_symbol sym name b =
    if includes sym reserved_symbols || is_some (lookup sym b.by_symbol)
    then record { by_symbol = b.by_symbol; collisions = add_text sym b.collisions }
    else record { by_symbol = insert sym name b.by_symbol; collisions = b.collisions }

-- `lower` is `toLowerCase`.
module _ (lower : Text → Text) where
  unfoldable pub symbolize : Text → Text
  symbolize name = prefixed (map replaced (lower name))

  -- one round of the loop over the names of the arguments
  unfoldable pub bind_name : Text → Binding → Binding
  unfolding symbolize bind_symbol
  bind_name name b = bind_symbol (symbolize name) name b

  unfoldable pub bind_names : List Text → Binding → Binding
  unfolding bind_name
  bind_names [] b = b
  bind_names (name ∷ names) b = bind_names names (bind_name name b)

  abbrev is_free : Binding → Text × Text → Bool
  is_free b e = not (includes e.0 b.collisions)

  -- the symbols that get evidence, with the names of their arguments
  unfoldable pub bound_names : Binding → List (Text × Text)
  unfolding includes
  bound_names b = keep (is_free b) b.by_symbol

  module _ ⦃engine : Engine⦄ ⦃platform : Platform⦄ where
    abbrev measured : KeyPair → Text → Value → CreateTimInput
    measured keys ts measurement = record {
      ts = ts;
      identity = object ((codes "id", str keys.did) ∷ []);
      measurement = measurement;
      prev = none;
      nonce = none;
      exp = none;
    }

    abbrev tool_measurement : Text → Value → Text → Value
    tool_measurement tool args server = object (
        (codes "name", str (codes "tool"))
        ∷ (codes "value", str tool)
        ∷ (codes "code", str (codes "tool"))
        ∷ (
          codes "method",
          object ((codes "type", str (codes "mcp")) ∷ (codes "source", str server) ∷ []),
        )
        ∷ (codes "provenance", object ((codes "arguments", args) ∷ []))
        ∷ [])

    abbrev argument_measurement : Text → Text → Value → Value
    argument_measurement sym name value = object (
        (codes "name", str sym)
        ∷ (codes "value", value)
        ∷ (codes "code", str sym)
        ∷ (
          codes "method",
          object ((codes "type", str (codes "mcp.arg")) ∷ (codes "source", str name) ∷ []),
        )
        ∷ [])

    -- the TIMs of the bound arguments; `none` where `createTim` raises
    unfoldable pub argument_tims :
        Fields → KeyPair → Text → List (Text × Text) → Option (List Fields)
    unfolding create_tim get_field is_finite
    argument_tims args keys ts [] = some []
    argument_tims args keys ts ((sym, name) ∷ rest) =
        let value = get_field name args in
        let others = argument_tims args keys ts rest in
        if not (is_primitive value)
        then others
        else (elim (create_tim (measured keys ts (argument_measurement sym name value))
            keys.private_key (some keys.did)) [
              | none ↦ none
              | some tim ↦ elim others [ none ↦ none | some tims ↦ some (tim ∷ tims) ]
            ])

    -- the members of an array at their indices
    unfoldable pub indexed : ℕ → Items → Fields
    indexed i nil = end
    indexed i (cons v vs) = field (engine.text_of_number (integer i)) v (indexed (suc i) vs)

    -- `Object.keys(args)` with `args[name]`, for an object or an array
    unfoldable pub own_fields : Value → Fields
    unfolding indexed
    own_fields (obj fs) = fs
    own_fields (arr vs) = indexed 0 vs
    own_fields _ = end

    abbrev binding_of : Fields → Binding
    binding_of args =
        bind_names (map (λ m. m.0) (members args)) (record { by_symbol = []; collisions = [] })

    -- The TIMs and the symbols that collide.
    unfoldable pub build_evidence :
        Text → Value → KeyPair → Text → Text → Option (List Fields × List Text)
    unfolding bind_names bound_names argument_tims create_tim own_fields
    build_evidence tool args keys server ts =
        let b = binding_of (own_fields args) in
        elim (create_tim (measured keys ts (tool_measurement tool args server)) keys.private_key
          (some keys.did)) [
            | none ↦ none
            | some tim ↦ elim (argument_tims (own_fields args) keys ts (bound_names b)) [
              | none ↦ none
              | some tims ↦ some (tim ∷ tims, b.collisions)
            ]
          ]
