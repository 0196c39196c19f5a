-- ===== src/Policy/Load.antt =====
-- packages/mcp/src/policy.ts: `loadPolicy`, over the content of the file.
use arky_foundation.Common.{Option, none, some, Text, ◌≢◌}
use arky_foundation.Assert.Syntax.{Outcome, ok, thrown, out_of_fuel}
use arky_foundation.Engine.{Engine}
use arky_foundation.Platform.{Platform}
use arky_foundation.Json.{Value}
use arky_foundation.Json.Parse.{parse_strict}
use arky_foundation.Json.Total.{parse_strict-ne-out_of_fuel}
use arky_foundation.Policy.Rules.{validate_policy}

-- the policy, or its first error
abbrev judged_policy : Value → Option Text → Outcome Value
judged_policy v none = ok v
judged_policy v (some e) = thrown e

unfoldable pub validated : Outcome Value → Outcome Value
unfolding validate_policy
validated (ok v) = judged_policy v (validate_policy v)
validated (thrown e) = thrown e
validated out_of_fuel = out_of_fuel

judged_policy-ne-out_of_fuel : (v : Value) (e : Option Text) → judged_policy v e ≢ out_of_fuel
judged_policy-ne-out_of_fuel v none h = cc
judged_policy-ne-out_of_fuel v (some e) h = cc

validated-ne-out_of_fuel : (o : Outcome Value) → o ≢ out_of_fuel → validated o ≢ out_of_fuel
unfolding validated
validated-ne-out_of_fuel (ok v) n h = judged_policy-ne-out_of_fuel v _ h
validated-ne-out_of_fuel (thrown e) n h = cc
validated-ne-out_of_fuel out_of_fuel n h = n h

module _ ⦃engine : Engine⦄ ⦃platform : Platform⦄ where
  unfoldable pub load_policy : Text → Outcome Value
  unfolding parse_strict validated
  load_policy content = validated (parse_strict content)

  -- Loading a policy gives a policy or an error, whatever the file holds.
  load_policy-ne-out_of_fuel : (content : Text) → load_policy content ≢ out_of_fuel
  unfolding load_policy
  load_policy-ne-out_of_fuel content =
      validated-ne-out_of_fuel (parse_strict content) (parse_strict-ne-out_of_fuel content)
