-- ===== src/Notary/Finality.antt =====
-- scripts/lib/merkle.ts: finality depth, reorganisations, and the state machine of a receipt.
use arky_foundation.Common.{
  Bool, true, false, ◌||◌, if◌then◌else◌, or_else, List, [], ◌∷◌, Option, none, some, includes,
  Text, codes, lookup,
}
use arky_foundation.Number.{Number, nan, infinity, finite, is_nan, num_lt, num_zero}

pub record FinalityInput : Type 0 where
  pub registry_default : Number
  pub policy_pack_minimum : Option Number
  pub request_override : Option Number

abbrev is_negative : Number → Bool
is_negative nan = false
is_negative (infinity n) = n
is_negative (finite n s e) = n

-- `Math.max(a, b)`: NaN if one of them is; 0 is above -0
unfoldable pub num_max : Number → Number → Number
unfolding num_lt
num_max a b =
    if is_nan a || is_nan b
    then nan
    else if num_lt a b
    then b
    else if num_lt b a
    then a
    else if is_negative a
    then b
    else a

abbrev below : Option Number → Number → Bool
below none floor = false
below (some n) floor = num_lt n floor

-- the depth, and whether the request violates the policy
unfoldable pub finality_depth : FinalityInput → Number × Bool
unfolding num_max num_lt
finality_depth input =
    let floor = or_else input.policy_pack_minimum num_zero in
    (
      num_max (num_max input.registry_default floor) (or_else input.request_override num_zero),
      below input.request_override floor,
    )

pub data ReorgStatus : Type 0 where
  reorged finality_violated : ReorgStatus

pub record ReorgOutcome : Type 0 where
  pub status : ReorgStatus
  pub reanchor : Bool
  pub alert : Bool

unfoldable pub reorg_outcome : Number → Number → ReorgOutcome
unfolding num_lt
reorg_outcome depth final =
    if num_lt depth final
    then record { status = reorged; reanchor = true; alert = false }
    else record { status = finality_violated; reanchor = false; alert = true }

pub record Context : Type 0 where
  pub within_rollback_window : Bool
  pub rail_supports_rollback : Bool

-- The edges out of each state.
unfoldable pub transitions : Context → List (Text × List Text)
transitions context =
    (codes "pending", codes "success" ∷ codes "failed" ∷ codes "rolled_back" ∷ [])
    ∷ (codes "success", (if context.within_rollback_window then codes "rolled_back" ∷ [] else []))
    ∷ (codes "failed", (if context.rail_supports_rollback then codes "rolled_back" ∷ [] else []))
    ∷ (codes "rolled_back", [])
    ∷ (codes "skipped", [])
    ∷ []

-- `from` is no name of a property that every object inherits.
unfoldable pub can_transition : Text → Text → Context → Bool
unfolding transitions lookup includes
can_transition from to context = elim (lookup from (transitions context)) [
  | none ↦ false
  | some targets ↦ includes to targets
]
