-- ===== src/Assert/Parser.antt =====
-- packages/core/src/assert.ts: the class `Parser`. The position is the list of the tokens that are
-- left, which each method returns beside its tree. A call costs a unit of fuel.
use arky_foundation.Common.{ℕ, zero, suc, ◌+◌, ◌*◌, List, [], ◌∷◌, Text, codes, length}
use arky_foundation.Engine.{Engine}
use arky_foundation.Assert.Syntax.{
  Tok, num, str, bool, sym, op, lparen, rparen, lbrack, rbrack, comma, and, or, in_kw, Lit, Ast,
  cmp, among, symref, Outcome, ok, thrown, out_of_fuel, ◌>>=◌,
}

abbrev pub Toks : Type 0
Toks = List Tok

module _ ⦃engine : Engine⦄ where
  -- `this.next().t` at the end of the tokens
  abbrev pub at_end {ℓ} : {A : Type ℓ} → Outcome A
  at_end = thrown (engine.read_of_undefined (codes "this.next().t"))

  unfoldable pub parse_lit : Toks → Outcome (Lit × Toks)
  parse_lit [] = thrown (engine.read_of_undefined (codes "tk.t"))
  parse_lit (num n ∷ ts) = ok (Lit.num n, ts)
  parse_lit (str s ∷ ts) = ok (Lit.str s, ts)
  parse_lit (bool b ∷ ts) = ok (Lit.bool b, ts)
  parse_lit (_ ∷ ts) = thrown (codes "expected literal")

  unfoldable pub expect_rparen : Ast → Toks → Outcome (Ast × Toks)
  expect_rparen e [] = at_end
  expect_rparen e (rparen ∷ ts) = ok (e, ts)
  expect_rparen e (_ ∷ ts) = thrown (codes "expected )")

  unfoldable pub expect_lbrack : Toks → Outcome Toks
  expect_lbrack [] = at_end
  expect_lbrack (lbrack ∷ ts) = ok ts
  expect_lbrack (_ ∷ ts) = thrown (codes "expected [")

  unfoldable pub expect_rbrack : Toks → Outcome Toks
  expect_rbrack [] = at_end
  expect_rbrack (rbrack ∷ ts) = ok ts
  expect_rbrack (_ ∷ ts) = thrown (codes "expected ]")

  -- the literals behind the first, each after a comma; the last clause with a comma is left to
  -- what `parse_lit` refuses
  unfoldable pub more_lits : Toks → Outcome (List Lit × Toks)
  unfolding parse_lit
  more_lits (comma ∷ num n ∷ ts) = do (ls, rest) ← more_lits ts; ok (Lit.num n ∷ ls, rest)
  more_lits (comma ∷ str s ∷ ts) = do (ls, rest) ← more_lits ts; ok (Lit.str s ∷ ls, rest)
  more_lits (comma ∷ bool b ∷ ts) = do (ls, rest) ← more_lits ts; ok (Lit.bool b ∷ ls, rest)
  more_lits (comma ∷ ts) = do (l, rest) ← parse_lit ts; ok (l ∷ [], rest)
  more_lits ts = ok ([], ts)

  -- `sym in [...]`, behind the `in`
  unfoldable pub parse_among : Text → Toks → Outcome (Ast × Toks)
  unfolding parse_lit expect_lbrack expect_rbrack more_lits
  parse_among s ts = do
    ts₁ ← expect_lbrack ts
    (l, ts₂) ← parse_lit ts₁
    (ls, ts₃) ← more_lits ts₂
    ts₄ ← expect_rbrack ts₃
    ok (among s (l ∷ ls), ts₄)

  unfoldable pub parse_symbol : Text → Toks → Outcome (Ast × Toks)
  unfolding parse_lit parse_among
  parse_symbol s (op o ∷ ts) = do (l, rest) ← parse_lit ts; ok (cmp s o l, rest)
  parse_symbol s (in_kw ∷ ts) = parse_among s ts
  parse_symbol s ts = ok (symref s, ts)

  unfoldable mutual
    pub parse_or : ℕ → Toks → Outcome (Ast × Toks)
    parse_or zero ts = out_of_fuel
    parse_or (suc f) ts = do (l, rest) ← parse_and f ts; loop_or f l rest

    pub loop_or : ℕ → Ast → Toks → Outcome (Ast × Toks)
    loop_or zero l ts = out_of_fuel
    loop_or (suc f) l (or ∷ ts) = do (r, rest) ← parse_and f ts; loop_or f (Ast.or l r) rest
    loop_or (suc f) l ts = ok (l, ts)

    pub parse_and : ℕ → Toks → Outcome (Ast × Toks)
    parse_and zero ts = out_of_fuel
    parse_and (suc f) ts = do (l, rest) ← parse_unary f ts; loop_and f l rest

    pub loop_and : ℕ → Ast → Toks → Outcome (Ast × Toks)
    loop_and zero l ts = out_of_fuel
    loop_and (suc f) l (and ∷ ts) = do (r, rest) ← parse_unary f ts; loop_and f (Ast.and l r) rest
    loop_and (suc f) l ts = ok (l, ts)

    pub parse_unary : ℕ → Toks → Outcome (Ast × Toks)
    parse_unary zero ts = out_of_fuel
    parse_unary (suc f) (Tok.not ∷ ts) = do (e, rest) ← parse_unary f ts; ok (Ast.not e, rest)
    parse_unary (suc f) ts = parse_primary f ts

    pub parse_primary : ℕ → Toks → Outcome (Ast × Toks)
    parse_primary zero ts = out_of_fuel
    parse_primary (suc f) (lparen ∷ ts) = do (e, rest) ← parse_or f ts; expect_rparen e rest
    parse_primary (suc f) (sym s ∷ ts) = parse_symbol s ts
    parse_primary (suc f) _ = thrown (codes "expected symbol or (")

  unfoldable pub finish : Ast → Toks → Outcome Ast
  finish e [] = ok e
  finish e (_ ∷ _) = thrown (codes "trailing tokens")

  unfoldable pub parse : Toks → Outcome Ast
  unfolding finish parse_or expect_rparen parse_symbol
  parse ts = do (e, rest) ← parse_or (4 * length ts + 4) ts; finish e rest
