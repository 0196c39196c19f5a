-- ===== src/Assert/Tests.antt =====
-- Runs of the assertion language, and theorems at concrete inputs.
use arky_foundation.Assert.Total.{parse-ne-out_of_fuel}
use arky_foundation.Assert.RoundTrip.{print, parse-print}
use arky_foundation.Assert.Parser.{parse}
use arky_foundation.Assert.Kleene.{
  Extends, Refines, evaluate_assertion-error_iff, eval_ast-Refines, eval_ast-inherited,
}
use arky_foundation.Common.{
  ◌≡◌, refl, true, [], ◌∷◌, none, some, codes, ◌↔◌, ◌≢◌, lookup, ◌++◌, Text, Bool-cases, inl, inr,
  text_eq, false, sym, text_eq_iff,
}
use arky_foundation.Sample.{sample_engine}
use arky_foundation.Assert.Syntax.{
  Scalar, undefined, object, str, bool, pass, fail, indeterminate, lparen, cmp, and, ne, Ast,
  symref, out_of_fuel, ok, Lit,
}
use arky_foundation.Assert.Eval.{Bound, Symbols, inherited, evaluate_assertion, eval_ast}

abbrev symbols : Symbols
symbols =
    (codes "tool", record { value = str (codes "read"); unit = none; inner = some undefined })
    ∷ (codes "ok", record { value = bool true; unit = none; inner = some undefined })
    ∷ []

runs :
    (evaluate_assertion (codes "tool == \"read\" && !(ok == false)") symbols ≡ (pass, none))
    × (evaluate_assertion (codes "tool in [\"a\", \"b\"] || ok") symbols ≡ (pass, none))
    × (evaluate_assertion (codes "ok in []") symbols
        ≡ (indeterminate, some (codes "parse error: expected literal")))
    × (evaluate_assertion (codes "tool &") symbols
        ≡ (indeterminate, some (codes "parse error: unexpected character '&'")))
    × (evaluate_assertion (codes "constructor != \"x\"") [] ≡ (pass, none))
unfolding evaluate_assertion
runs = (refl, refl, refl, refl, refl)

-- The members of a value bound to `__proto__` are symbols too.
abbrev with_proto : Symbols
with_proto =
    (
      codes "__proto__",
      record { value = object []; unit = none; inner = some (str (codes "read")) },
    )
    ∷ []

inherited_run :
    (evaluate_assertion (codes "value == \"read\"") with_proto ≡ (pass, none))
    × (evaluate_assertion (codes "unit != \"x\"") with_proto
        ≡ (indeterminate, some (codes "no matching receipts for symbol 'unit'")))
unfolding evaluate_assertion
inherited_run = (refl, refl)

some-ne : {b : Bound} → some b ≢ none
some-ne e = cc

none-ne : {v : Scalar} → none ≢ some v
none-ne e = cc

abbrev more : Symbols
more = (codes "size", record { value = bool true; unit = none; inner = some undefined }) ∷ []

-- the same symbols and a further one
abbrev further : Symbols
further = symbols ++ more

lookup-append :
    (s : Text) (xs ys : Symbols) (b : Bound) → lookup s xs ≡ some b → lookup s (xs ++ ys) ≡ some b
unfolding lookup
lookup-append s [] ys b h = absurd cc
lookup-append s ((k, c) ∷ xs) ys b h = elim (Bool-cases (text_eq k s)) [
  | inl e ↦ rw e (rw e at h)
  | inr e ↦ rw e (lookup-append s xs ys b (rw e at h))
]

lookup-append_none :
    (s : Text) (xs ys : Symbols)
    → lookup s xs ≡ none
    → lookup s ys ≡ none
    → lookup s (xs ++ ys) ≡ none
unfolding lookup
lookup-append_none s [] ys h k = k
lookup-append_none s ((j, c) ∷ xs) ys h k = elim (Bool-cases (text_eq j s)) [
  | inl e ↦ absurd (some-ne (rw e at h))
  | inr e ↦ rw e (lookup-append_none s xs ys (rw e at h) k)
]

-- `size` is not inherited.
not_size : (s : Text) (v : Scalar) → inherited s symbols ≡ some v → text_eq (codes "size") s ≡ false
unfolding inherited lookup
not_size s v h = elim (Bool-cases (text_eq (codes "size") s)) [
  | inr e ↦ e
  | inl e ↦ absurd (none-ne (rw (sym ((text_eq_iff (codes "size") s).0 e)) at h))
]

further-Extends : Extends further symbols
unfolding lookup
further-Extends = record {
  own = λ s b h. lookup-append s symbols more b h;
  proto = refl;
  unbound = λ s v h i. lookup-append_none s symbols more h (rw (not_size s v i) refl);
}

abbrev both : Ast
both = and (symref (codes "ok")) (cmp (codes "tool") ne (str (codes "read")))

passes_and_fails :
    ((eval_ast symbols both).0 ≡ fail)
    × ((eval_ast symbols (symref (codes "ok"))).0 ≡ pass)
    × ((eval_ast symbols (symref (codes "size"))).0 ≡ indeterminate)
    × ((eval_ast further (symref (codes "size"))).0 ≡ pass)
unfolding eval_ast
passes_and_fails = (refl, refl, refl, refl)

eval_ast-Refines_example : Refines (eval_ast symbols both).0 (eval_ast further both).0
eval_ast-Refines_example = eval_ast-Refines further symbols both further-Extends

evaluate_assertion-error_iff_example :
    ((evaluate_assertion (codes "tool &") symbols).0 ≡ indeterminate)
    ↔ ((evaluate_assertion (codes "tool &") symbols).1 ≢ none)
evaluate_assertion-error_iff_example = evaluate_assertion-error_iff (codes "tool &") symbols

eval_ast-inherited_example :
    eval_ast symbols (cmp (codes "constructor") ne (Lit.bool true)) ≡ (pass, [])
unfolding lookup
eval_ast-inherited_example = eval_ast-inherited symbols (Lit.bool true) refl

parse-print_example :
    parse (print (Ast.not (symref (codes "ok")))) ≡ ok (Ast.not (symref (codes "ok")))
parse-print_example = parse-print (Ast.not (symref (codes "ok"))) tt

parse-ne-out_of_fuel_example : parse (lparen ∷ []) ≢ out_of_fuel
parse-ne-out_of_fuel_example = parse-ne-out_of_fuel (lparen ∷ [])
