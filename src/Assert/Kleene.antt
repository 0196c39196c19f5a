-- ===== src/Assert/Kleene.antt =====
-- packages/core/src/assert.ts: what evaluation guarantees. A definite result survives any further
-- symbol that is bound, and an indeterminate one always comes with an error.
use arky_foundation.Common.{
  ◌≡◌, refl, ◌≢◌, ◌⊎◌, inl, inr, ◌↔◌, List, [], ◌∷◌, ◌++◌, Text, arith, Option, none, some,
  Option-cases, lookup, codes, sym, ◌∙◌,
}
use arky_foundation.Engine.{Engine}
use arky_foundation.Assert.Syntax.{
  Scalar, TriState, pass, fail, indeterminate, Op, Lit, Ast, cmp, among, and, or, symref, Outcome,
  ok, thrown, out_of_fuel, ◌>>=◌, Tok, ne,
}
use arky_foundation.Assert.Lexer.{tokenize}
use arky_foundation.Assert.Parser.{parse}
use arky_foundation.Assert.Eval.{
  Bound, Symbols, inherited, symbol_value, and3, or3, not3, eval_cmp, eval_among, eval_symref,
  eval_ast, report, conclude, evaluate_assertion,
}
use arky_foundation.Assert.Total.{parse-ne-out_of_fuel, tokenize-ne-out_of_fuel}

none-ne : {v : Scalar} → none ≢ some v
none-ne e = cc

-- `b` says all that `a` says.
abbrev pub Refines : TriState → TriState → Type 0
Refines a b = (a ≡ indeterminate) ⊎ (a ≡ b)

Refines-and3 : (a b c d : TriState) → Refines a c → Refines b d → Refines (and3 a b) (and3 c d)
unfolding and3
Refines-and3 a b c d h k = ground arith

Refines-or3 : (a b c d : TriState) → Refines a c → Refines b d → Refines (or3 a b) (or3 c d)
unfolding or3
Refines-or3 a b c d h k = ground arith

Refines-not3 : (a c : TriState) → Refines a c → Refines (not3 a) (not3 c)
unfolding not3
Refines-not3 a c h = ground arith

-- The value of every symbol of `old` is its value in `new`.
abbrev HasValues : Symbols → Symbols → Type 0
HasValues new old =
    (s : Text) (v : Scalar) → symbol_value s old ≡ some v → symbol_value s new ≡ some v

-- `new` binds what `old` binds, and perhaps further symbols; but it inherits what `old` inherits, and
-- no name that `old` has by inheritance is one of the further symbols.
pub record Extends (new old : Symbols) : Type 0 where
  pub own : (s : Text) (b : Bound) → lookup s old ≡ some b → lookup s new ≡ some b
  pub proto : lookup (codes "__proto__") new ≡ lookup (codes "__proto__") old
  pub unbound :
      (s : Text) (v : Scalar) → lookup s old ≡ none → inherited s old ≡ some v → lookup s new ≡ none

symbol_value-bound :
    (s : Text) (m : Symbols) (b : Bound) → lookup s m ≡ some b → symbol_value s m ≡ some b.value
unfolding symbol_value
symbol_value-bound s m b h = rw (symbol_value, h) refl

symbol_value-unbound :
    (s : Text) (m : Symbols) → lookup s m ≡ none → symbol_value s m ≡ inherited s m
unfolding symbol_value
symbol_value-unbound s m h = rw (symbol_value, h) refl

inherited-proto :
    (s : Text) (new old : Symbols)
    → lookup (codes "__proto__") new ≡ lookup (codes "__proto__") old
    → inherited s new ≡ inherited s old
unfolding inherited
inherited-proto s new old h = rw (inherited, h) refl

Extends-HasValues : (new old : Symbols) → Extends new old → HasValues new old
Extends-HasValues new old h s v q = elim (Option-cases (lookup s old)) [
  | inr (b, e) ↦ symbol_value-bound s new b (h.own s b e) ∙ (sym (symbol_value-bound s old b e) ∙ q)
  | inl e ↦
      let i = sym (symbol_value-unbound s old e) ∙ q in
      symbol_value-unbound s new (h.unbound s v e i) ∙ (inherited-proto s new old h.proto ∙ i)
]

-- The leaves named by an unbound symbol are indeterminate, whatever the engine.
module _ ⦃engine : Engine⦄ where
  Refines-leaf :
      (f : Option Scalar → TriState × List Text) (s : Text) (new old : Symbols)
      → HasValues new old
      → (f none).0 ≡ indeterminate
      → Refines (f (symbol_value s old)).0 (f (symbol_value s new)).0
  Refines-leaf f s new old h k = elim (Option-cases (symbol_value s old)) [
    | inl e ↦ inl (rw e k)
    | inr (v, e) ↦ inr (rw (e, h s v e))
  ]

  eval_ast-HasValues :
      (new old : Symbols) (ast : Ast)
      → HasValues new old
      → Refines (eval_ast old ast).0 (eval_ast new ast).0
  unfolding eval_ast
  eval_ast-HasValues new old (and l r) h =
      Refines-and3 _ _ _ _ (eval_ast-HasValues new old l h) (eval_ast-HasValues new old r h)
  eval_ast-HasValues new old (or l r) h =
      Refines-or3 _ _ _ _ (eval_ast-HasValues new old l h) (eval_ast-HasValues new old r h)
  eval_ast-HasValues new old (Ast.not e) h = Refines-not3 _ _ (eval_ast-HasValues new old e h)
  eval_ast-HasValues new old (symref s) h = Refines-leaf (λ v. eval_symref v s) s new old h refl
  eval_ast-HasValues new old (among s ls) h = Refines-leaf (λ v. eval_among v s ls) s new old h refl
  eval_ast-HasValues new old (cmp s o l) h = Refines-leaf (λ v. eval_cmp v s o l) s new old h refl

  -- A result that is not indeterminate stays the same when further symbols are bound, unless one of
  -- them has a name that is inherited: `constructor`, `__proto__`, or `value` and `unit` where
  -- `__proto__` is bound.
  pub eval_ast-Refines :
      (new old : Symbols) (ast : Ast)
      → Extends new old
      → Refines (eval_ast old ast).0 (eval_ast new ast).0
  eval_ast-Refines new old ast h = eval_ast-HasValues new old ast (Extends-HasValues new old h)

  abbrev HasError : TriState × List Text → Type 0
  HasError r = r.0 ≡ indeterminate → r.1 ≢ []

  append-ne_left : (es fs : List Text) → es ≢ [] → es ++ fs ≢ []
  append-ne_left [] fs h = λ e. h refl
  append-ne_left (e ∷ es) fs h = cc

  append-ne_right : (es fs : List Text) → fs ≢ [] → es ++ fs ≢ []
  append-ne_right [] fs h = h
  append-ne_right (e ∷ es) fs h = cc

  and3-indeterminate :
      (a b : TriState) → and3 a b ≡ indeterminate → (a ≡ indeterminate) ⊎ (b ≡ indeterminate)
  unfolding and3
  and3-indeterminate a b h = ground arith

  or3-indeterminate :
      (a b : TriState) → or3 a b ≡ indeterminate → (a ≡ indeterminate) ⊎ (b ≡ indeterminate)
  unfolding or3
  or3-indeterminate a b h = ground arith

  -- the errors of both operands, where one of them is indeterminate
  append-ne :
      (a b : TriState) (es fs : List Text)
      → HasError (a, es)
      → HasError (b, fs)
      → (a ≡ indeterminate) ⊎ (b ≡ indeterminate)
      → es ++ fs ≢ []
  append-ne a b es fs h k (inl e) = append-ne_left es fs (h e)
  append-ne a b es fs h k (inr e) = append-ne_right es fs (k e)

  eval_cmp-HasError :
      (v : Option Scalar) (s : Text) (o : Op) (l : Lit) → HasError (eval_cmp v s o l)
  unfolding eval_cmp
  eval_cmp-HasError none s o l h = cc
  eval_cmp-HasError (some v) s o l h = ground arith

  eval_among-HasError :
      (v : Option Scalar) (s : Text) (ls : List Lit) → HasError (eval_among v s ls)
  unfolding eval_among
  eval_among-HasError none s ls h = cc
  eval_among-HasError (some v) s ls h = ground arith

  eval_symref-HasError : (v : Option Scalar) (s : Text) → HasError (eval_symref v s)
  unfolding eval_symref
  eval_symref-HasError none s h = cc
  eval_symref-HasError (some v) s h = ground arith

  eval_ast-HasError : (symbols : Symbols) (ast : Ast) → HasError (eval_ast symbols ast)
  unfolding eval_ast
  eval_ast-HasError symbols (and l r) h =
      append-ne _ _ _ _ (eval_ast-HasError symbols l) (eval_ast-HasError symbols r)
        (and3-indeterminate _ _ h)
  eval_ast-HasError symbols (or l r) h =
      append-ne _ _ _ _ (eval_ast-HasError symbols l) (eval_ast-HasError symbols r)
        (or3-indeterminate _ _ h)
  eval_ast-HasError symbols (Ast.not e) h =
      eval_ast-HasError symbols e (unfold not3 in ground arith)
  eval_ast-HasError symbols (symref s) h = eval_symref-HasError (symbol_value s symbols) s h
  eval_ast-HasError symbols (among s ls) h = eval_among-HasError (symbol_value s symbols) s ls h
  eval_ast-HasError symbols (cmp s o l) h = eval_cmp-HasError (symbol_value s symbols) s o l h

  -- An error is reported exactly with an indeterminate result.
  abbrev Explained : TriState × Option Text → Type 0
  Explained r = (r.0 ≡ indeterminate) ↔ (r.1 ≢ none)

  report-Explained : (r : TriState × List Text) → HasError r → Explained (report r)
  unfolding report
  report-Explained (pass, es) h = ground arith
  report-Explained (fail, es) h = ground arith
  report-Explained (indeterminate, []) h = absurd (h refl refl)
  report-Explained (indeterminate, e ∷ es) h = ground arith

  outcome-Explained :
      (m : Outcome Ast) (f : Ast → TriState × Option Text)
      → m ≢ out_of_fuel
      → ((a : Ast) → Explained (f a))
      → Explained (conclude m f)
  unfolding conclude
  outcome-Explained (ok a) f h k = k a
  outcome-Explained (thrown e) f h k = ground arith
  outcome-Explained out_of_fuel f h k = absurd (h refl)

  bind-ne-out_of_fuel : (m : Outcome (List Tok)) → m ≢ out_of_fuel → (m >>= parse) ≢ out_of_fuel
  bind-ne-out_of_fuel (ok ts) h = parse-ne-out_of_fuel ts
  bind-ne-out_of_fuel (thrown e) h = cc
  bind-ne-out_of_fuel out_of_fuel h = absurd (h refl)

  -- For every text and all symbols, the result is INDETERMINATE exactly when an error is given.
  pub evaluate_assertion-error_iff :
      (expr : Text) (symbols : Symbols)
      → ((evaluate_assertion expr symbols).0 ≡ indeterminate)
        ↔ ((evaluate_assertion expr symbols).1 ≢ none)
  unfolding evaluate_assertion
  evaluate_assertion-error_iff expr symbols =
      outcome-Explained _ _ (bind-ne-out_of_fuel (tokenize expr) (tokenize-ne-out_of_fuel expr))
        λ ast. report-Explained (eval_ast symbols ast) (eval_ast-HasError symbols ast)

  -- A comparison `constructor != l` passes with no evidence: where no symbol of that name is bound,
  -- `symbols` still has one by inheritance.
  pub eval_ast-inherited :
      (symbols : Symbols) (l : Lit)
      → lookup (codes "constructor") symbols ≡ none
      → eval_ast symbols (cmp (codes "constructor") ne l) ≡ (pass, [])
  unfolding eval_ast
  eval_ast-inherited symbols l h = rw (h, symbol_value)
