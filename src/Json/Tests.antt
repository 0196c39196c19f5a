-- ===== src/Json/Tests.antt =====
-- The strict parser and the canonical text on concrete values.
use arky_foundation.Common.{Text, ◌↔◌}
use arky_foundation.Json.Canonical.{serialize_string}
use arky_foundation.Json.Ordered.{ordered, IsReadable}
use arky_foundation.Json.Order.{Similar}
use arky_foundation.Json.Trip.{parse_strict-canonicalize, canonicalize-eq_iff}
use arky_foundation.Common.{[], ◌∷◌, some, true, ◌≡◌, refl, includes, starts_with, text_eq}
use arky_foundation.Platform.{Platform}
use arky_foundation.Json.Values.{Value, str, bool, null, object, array, end}
use arky_foundation.Assert.Syntax.{ok}
use arky_foundation.Json.Canonical.{canonicalize}
use arky_foundation.Json.Order.{canonicalize-Similar, members, exchange}
use arky_foundation.Json.Members.{IsJson, text_eq-ne}
use arky_foundation.Json.Strict.{parse_strict-IsJson}
use arky_foundation.Json.Parse.{parse_value, skip_space, parse_string, assign_member}
use arky_foundation.Sample.{sample_engine}
use arky_foundation.SamplePlatform.{sample_platform}
use arky_foundation.Common.{codes, ◌≢◌}
use arky_foundation.Assert.Syntax.{out_of_fuel}
use arky_foundation.Json.Parse.{parse_strict}
use arky_foundation.Json.Total.{parse_strict-ne-out_of_fuel}

parse_strict-ne-out_of_fuel_example : parse_strict (codes "[1, {}]") ≢ out_of_fuel
parse_strict-ne-out_of_fuel_example = parse_strict-ne-out_of_fuel (codes "[1, {}]")

abbrev unquoted : Text → Text
unquoted (q ∷ c ∷ s) = c ∷ []
unquoted _ = []

-- a platform on which a literal of one letter is read as that letter
abbrev lettered : Platform
lettered = record {
  encode_utf8 = λ s. s;
  decode_utf8 = λ b. b;
  parse_json = λ s. some (str (unquoted s));
  stringify_json = λ v. [];
  sha256 = λ b. [];
  public_key = λ b. b;
  sign = λ m s. m;
  verify = λ s m k. true;
}

abbrev read_value : Value
read_value = array (object ((codes "a", bool true) ∷ []) ∷ [])

read : parse_strict ⦃platform = lettered⦄ (codes "[{\"a\": true}]") ≡ ok read_value
unfolding parse_strict parse_value skip_space parse_string includes starts_with assign_member
read = refl

parse_strict-IsJson_example : IsJson read_value
parse_strict-IsJson_example =
    parse_strict-IsJson ⦃platform = lettered⦄ (codes "[{\"a\": true}]") read_value read

b-ne-a : codes "b" ≢ codes "a"
unfolding text_eq
b-ne-a = text_eq-ne (codes "b") (codes "a") refl

canonicalize-Similar_example :
    canonicalize (object ((codes "b", null) ∷ (codes "a", bool true) ∷ []))
    ≡ canonicalize (object ((codes "a", bool true) ∷ (codes "b", null) ∷ []))
canonicalize-Similar_example =
    canonicalize-Similar (object ((codes "b", null) ∷ (codes "a", bool true) ∷ []))
      (object ((codes "a", bool true) ∷ (codes "b", null) ∷ []))
      (members (exchange (codes "b") (codes "a") null (bool true) end b-ne-a))

abbrev swapped : Value
swapped = array (object ((codes "b", str (codes "c")) ∷ (codes "a", bool true) ∷ []) ∷ null ∷ [])

abbrev in_order : Value
in_order = array (object ((codes "a", bool true) ∷ (codes "b", str (codes "c")) ∷ []) ∷ null ∷ [])

a-ne-b : codes "a" ≢ codes "b"
unfolding text_eq
a-ne-b = text_eq-ne (codes "a") (codes "b") refl

swapped-IsReadable : IsReadable ⦃platform = lettered⦄ swapped
unfolding serialize_string text_eq
swapped-IsReadable = (((refl, refl), refl, (a-ne-b, tt), ((refl, refl), tt, tt, tt)), (tt, tt))

in_order-IsReadable : IsReadable ⦃platform = lettered⦄ in_order
unfolding serialize_string text_eq
in_order-IsReadable = (((refl, refl), tt, (b-ne-a, tt), ((refl, refl), refl, tt, tt)), (tt, tt))

parse_strict-canonicalize_example :
    (t : Text) × (canonicalize swapped ≡ some t)
    × (parse_strict ⦃platform = lettered⦄ t ≡ ok (ordered swapped))
    × Similar swapped (ordered swapped)
parse_strict-canonicalize_example =
    parse_strict-canonicalize ⦃platform = lettered⦄ swapped swapped-IsReadable

canonicalize-eq_iff_example :
    (canonicalize swapped ≡ canonicalize in_order) ↔ (ordered swapped ≡ ordered in_order)
canonicalize-eq_iff_example =
    canonicalize-eq_iff ⦃platform = lettered⦄ swapped in_order swapped-IsReadable
      in_order-IsReadable
