-- ===== src/Sample.antt =====
-- A concrete engine for tests: decimal integers.
use arky_foundation.Common.{
  true, false, ℕ, zero, suc, ◌+◌, ◌-◌, ◌*◌, ◌/◌, ◌%◌, [], ◌∷◌, ◌++◌, Text, codes, ◌==◌,
  if◌then◌else◌,
}
use arky_foundation.Number.{Number, nan, finite}
use arky_foundation.Engine.{Engine}

digits_from : ℕ → Text → ℕ
digits_from n [] = n
digits_from n (c ∷ s) = digits_from (n * 10 + (c - b'0')) s

unfoldable pub integer_of_text : Text → Number
unfolding digits_from
integer_of_text [] = nan
integer_of_text (c ∷ s) =
    if c == b'-'
    then finite true (digits_from 0 s) 1074
    else finite false (digits_from 0 (c ∷ s)) 1074

print_from : ℕ → ℕ → Text → Text
print_from zero n acc = acc
print_from (suc f) n acc =
    let rest = print_from f (n / 10) ((b'0' + n % 10) ∷ acc) in if n == 0 then acc else rest

unfoldable pub text_of_integer : Number → Text
unfolding print_from
text_of_integer (finite n zero e) = codes "0"
text_of_integer (finite n (suc s) e) = print_from 20 (suc s) []
text_of_integer _ = codes "NaN"

instance abbrev pub sample_engine : Engine
sample_engine = record {
  number_of_text = integer_of_text;
  text_of_number = text_of_integer;
  parse_date = integer_of_text;
  read_of_undefined = λ s. s ++ codes " of undefined";
}
