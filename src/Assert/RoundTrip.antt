-- ===== src/Assert/RoundTrip.antt =====
-- packages/core/src/assert.ts: a printer of trees, in which each operand stands in parentheses,
-- and the parser.
use arky_foundation.Common.{
  ℕ, zero, suc, ◌+◌, ◌*◌, ◌≤◌, ◌≡◌, refl, ◌≢◌, List, [], ◌∷◌, ◌++◌, append_assoc, append-nil, Text,
  length, length-append, arith, subst, sym as reverse_path,
}
use native.Mathlib.Nat.{le_refl}
use arky_foundation.Engine.{Engine}
use arky_foundation.Assert.Syntax.{
  Op, Tok, sym, op, lparen, rparen, lbrack, rbrack, comma, and, or, in_kw, Lit, num, str, bool, Ast,
  cmp, among, symref, ok,
}
use arky_foundation.Assert.Parser.{
  Toks, more_lits, parse_symbol, parse_or, expect_rparen, parse_unary, parse,
}

abbrev pub print_lit : Lit → Tok
print_lit (num n) = Tok.num n
print_lit (str s) = Tok.str s
print_lit (bool b) = Tok.bool b

unfoldable pub print_more : List Lit → Toks
print_more [] = rbrack ∷ []
print_more (l ∷ ls) = comma ∷ print_lit l ∷ print_more ls

unfoldable pub print_lits : List Lit → Toks
unfolding print_more
print_lits [] = rbrack ∷ []
print_lits (l ∷ ls) = print_lit l ∷ print_more ls

abbrev pub wrapped : Toks → Toks
wrapped ts = lparen ∷ (ts ++ rparen ∷ [])

unfoldable pub print : Ast → Toks
unfolding print_lits
print (cmp s o l) = sym s ∷ op o ∷ print_lit l ∷ []
print (among s ls) = sym s ∷ in_kw ∷ lbrack ∷ print_lits ls
print (symref s) = sym s ∷ []
print (Ast.not e) = Tok.not ∷ wrapped (print e)
print (and l r) = wrapped (print l) ++ (Tok.and ∷ wrapped (print r))
print (or l r) = wrapped (print l) ++ (Tok.or ∷ wrapped (print r))

-- The parser builds no empty list of literals.
abbrev pub HasLits : Ast → Type 0
HasLits (among s ls) = ls ≢ []
HasLits (Ast.not e) = HasLits e
HasLits (and l r) = HasLits l × HasLits r
HasLits (or l r) = HasLits l × HasLits r
HasLits _ = Unit

-- what may follow an expression
abbrev Stops : Toks → Type 0
Stops [] = Unit
Stops (rparen ∷ ts) = Unit
Stops _ = ⊥

cost : Ast → ℕ
cost e = 4 * length (print e) + 4

length-append_toks : (xs ys : Toks) → length (xs ++ ys) ≡ length xs + length ys
length-append_toks = length-append

-- fuel of five or more, with the five taken off
spend :
    {n : ℕ} (P : ℕ → Type 0) (f : ℕ)
    → 5 ≤ n
    → n ≤ f
    → ((g : ℕ) → n ≤ 5 + g → P (suc (suc (suc (suc (suc g))))))
    → P f
spend P zero m h k = absurd (omega arith)
spend P (suc zero) m h k = absurd (omega arith)
spend P (suc (suc zero)) m h k = absurd (omega arith)
spend P (suc (suc (suc zero))) m h k = absurd (omega arith)
spend P (suc (suc (suc (suc zero)))) m h k = absurd (omega arith)
spend P (suc (suc (suc (suc (suc g))))) m h k = k g (omega arith)

module _ ⦃engine : Engine⦄ where
  abbrev Reads : Ast → Type 0
  Reads e =
      (rest : Toks) (f : ℕ) → Stops rest → cost e ≤ f → parse_or f (print e ++ rest) ≡ ok (e, rest)

  parse_unary-wrapped :
      (e : Ast)
      → Reads e
      → (rest : Toks) (f : ℕ) → cost e + 2 ≤ f
      → parse_unary f (wrapped (print e) ++ rest) ≡ ok (e, rest)
  unfolding parse_or cost expect_rparen
  parse_unary-wrapped e ih rest f h =
      spend (λ f. parse_unary f (wrapped (print e) ++ rest) ≡ ok (e, rest)) f (omega arith) h
        λ g k. simp (append_assoc, ih (rparen ∷ rest) (suc (suc (suc g))) tt (omega arith))

  more_lits-print_more :
      (ls : List Lit) (rest : Toks) → more_lits (print_more ls ++ rest) ≡ ok (ls, rbrack ∷ rest)
  unfolding more_lits print_more
  more_lits-print_more [] rest = refl
  more_lits-print_more (num l ∷ ls) rest = rw (more_lits-print_more ls rest)
  more_lits-print_more (str l ∷ ls) rest = rw (more_lits-print_more ls rest)
  more_lits-print_more (bool l ∷ ls) rest = rw (more_lits-print_more ls rest)

  parse_symbol-among :
      (s : Text) (ls : List Lit) (rest : Toks)
      → ls ≢ []
      → parse_symbol s (in_kw ∷ lbrack ∷ (print_lits ls ++ rest)) ≡ ok (among s ls, rest)
  unfolding parse_symbol print_lits
  parse_symbol-among s [] rest h = absurd (h refl)
  parse_symbol-among s (num l ∷ ls) rest h = rw (more_lits-print_more ls rest)
  parse_symbol-among s (str l ∷ ls) rest h = rw (more_lits-print_more ls rest)
  parse_symbol-among s (bool l ∷ ls) rest h = rw (more_lits-print_more ls rest)

  parse_symbol-cmp :
      (s : Text) (o : Op) (l : Lit) (rest : Toks)
      → parse_symbol s (op o ∷ print_lit l ∷ rest) ≡ ok (cmp s o l, rest)
  unfolding parse_symbol
  parse_symbol-cmp s o (num l) rest = refl
  parse_symbol-cmp s o (str l) rest = refl
  parse_symbol-cmp s o (bool l) rest = refl

  -- A symbol's comparison is a whole expression where nothing that binds follows.
  parse_or-symbol :
      (s : Text) (ts : Toks) (e : Ast) (rest : Toks) (g : ℕ)
      → Stops rest
      → parse_symbol s ts ≡ ok (e, rest)
      → parse_or (suc (suc (suc (suc (suc g))))) (sym s ∷ ts) ≡ ok (e, rest)
  unfolding parse_or
  parse_or-symbol s ts e [] g h k = rw k
  parse_or-symbol s ts e (rparen ∷ rest) g h k = rw k
  parse_or-symbol s ts e (_ ∷ rest) g h k = absurd h

  parse_or-leaf :
      (s : Text) (ts rest : Toks) (e : Ast)
      → 1 ≤ length (print e)
      → Stops rest
      → parse_symbol s ts ≡ ok (e, rest)
      → (f : ℕ) → cost e ≤ f
      → parse_or f (sym s ∷ ts) ≡ ok (e, rest)
  unfolding cost
  parse_or-leaf s ts rest e m h k f q =
      spend (λ f. parse_or f (sym s ∷ ts) ≡ ok (e, rest)) f (omega arith) q
        λ g _. parse_or-symbol s ts e rest g h k

  parse_symbol-bare :
      (s : Text) (rest : Toks) → Stops rest → parse_symbol s rest ≡ ok (symref s, rest)
  unfolding parse_symbol
  parse_symbol-bare s [] h = refl
  parse_symbol-bare s (rparen ∷ rest) h = refl
  parse_symbol-bare s (_ ∷ rest) h = absurd h

  parse_or-not :
      (ts rest : Toks) (e : Ast) (g : ℕ)
      → Stops rest
      → parse_unary (suc (suc g)) ts ≡ ok (e, rest)
      → parse_or (suc (suc (suc (suc (suc g))))) (Tok.not ∷ ts) ≡ ok (Ast.not e, rest)
  unfolding parse_or
  parse_or-not ts [] e g h k = rw k
  parse_or-not ts (rparen ∷ rest) e g h k = rw k
  parse_or-not ts (_ ∷ rest) e g h k = absurd h

  module _ (ts us : Toks) (l r : Ast) (g : ℕ) where
    parse_or-and :
        (rest : Toks)
        → Stops rest
        → parse_unary (suc (suc (suc g))) ts ≡ ok (l, Tok.and ∷ us)
        → parse_unary (suc (suc g)) us ≡ ok (r, rest)
        → parse_or (suc (suc (suc (suc (suc g))))) ts ≡ ok (and l r, rest)
    unfolding parse_or
    parse_or-and [] h k q = rw (k, q)
    parse_or-and (rparen ∷ rest) h k q = rw (k, q)
    parse_or-and (_ ∷ rest) h k q = absurd h

    parse_or-or :
        (rest : Toks)
        → Stops rest
        → parse_unary (suc (suc (suc g))) ts ≡ ok (l, Tok.or ∷ us)
        → parse_unary (suc (suc g)) us ≡ ok (r, rest)
        → parse_or (suc (suc (suc (suc (suc g))))) ts ≡ ok (or l r, rest)
    unfolding parse_or
    parse_or-or [] h k q = rw (k, q)
    parse_or-or (rparen ∷ rest) h k q = rw (k, q)
    parse_or-or (_ ∷ rest) h k q = absurd h

  cost-bound : (e : Ast) → 5 ≤ cost e + 1
  unfolding cost
  cost-bound e = omega arith

  cost-not : (e : Ast) → cost e + 8 ≤ cost (Ast.not e)
  unfolding cost print
  cost-not e = omega (arith, length-append_toks)

  cost-and : (l r : Ast) → cost l + cost r + 4 ≤ cost (and l r)
  unfolding cost print
  cost-and l r = omega (
    arith,
    length-append_toks (print l ++ rparen ∷ []) (Tok.and ∷ wrapped (print r)),
    length-append_toks (print l) (rparen ∷ []),
    length-append_toks (print r) (rparen ∷ []),
  )

  cost-or : (l r : Ast) → cost l + cost r + 4 ≤ cost (or l r)
  unfolding cost print
  cost-or l r = omega (
    arith,
    length-append_toks (print l ++ rparen ∷ []) (Tok.or ∷ wrapped (print r)),
    length-append_toks (print l) (rparen ∷ []),
    length-append_toks (print r) (rparen ∷ []),
  )

  print-Reads : (e : Ast) → HasLits e → Reads e
  unfolding print
  print-Reads (cmp s o l) h rest f k q =
      parse_or-leaf s (op o ∷ print_lit l ∷ rest) rest (cmp s o l) (omega arith) k
        (parse_symbol-cmp s o l rest) f q
  print-Reads (among s ls) h rest f k q =
      parse_or-leaf s (in_kw ∷ lbrack ∷ (print_lits ls ++ rest)) rest (among s ls) (omega arith) k
        (parse_symbol-among s ls rest h) f q
  print-Reads (symref s) h rest f k q =
      parse_or-leaf s rest rest (symref s) (omega arith) k (parse_symbol-bare s rest k) f q
  print-Reads (Ast.not e) h rest f k q =
      spend (λ f. parse_or f (print (Ast.not e) ++ rest) ≡ ok (Ast.not e, rest)) f
        (omega (arith, cost-not e, cost-bound e)) q
        λ g m.
          parse_or-not (wrapped (print e) ++ rest) rest e g k
            (parse_unary-wrapped e (print-Reads e h) rest _ (omega (arith, cost-not e)))
  print-Reads (and l r) h rest f k q =
      let us = wrapped (print r) ++ rest in
      spend (λ f. parse_or f (print (and l r) ++ rest) ≡ ok (and l r, rest)) f
        (omega (arith, cost-and l r, cost-bound l)) q
        λ g m.
          subst (λ ts. parse_or (suc (suc (suc (suc (suc g))))) ts ≡ ok (and l r, rest))
            (reverse_path (append_assoc (wrapped (print l)) (Tok.and ∷ wrapped (print r)) rest))
            (parse_or-and (wrapped (print l) ++ Tok.and ∷ us) us l r g rest k
              (parse_unary-wrapped l (print-Reads l h.0) (Tok.and ∷ us) _
                (omega (arith, cost-and l r, cost-bound l, cost-bound r)))
              (parse_unary-wrapped r (print-Reads r h.1) rest _
                (omega (arith, cost-and l r, cost-bound l, cost-bound r))))
  print-Reads (or l r) h rest f k q =
      let us = wrapped (print r) ++ rest in
      spend (λ f. parse_or f (print (or l r) ++ rest) ≡ ok (or l r, rest)) f
        (omega (arith, cost-or l r, cost-bound l)) q
        λ g m.
          subst (λ ts. parse_or (suc (suc (suc (suc (suc g))))) ts ≡ ok (or l r, rest))
            (reverse_path (append_assoc (wrapped (print l)) (Tok.or ∷ wrapped (print r)) rest))
            (parse_or-or (wrapped (print l) ++ Tok.or ∷ us) us l r g rest k
              (parse_unary-wrapped l (print-Reads l h.0) (Tok.or ∷ us) _
                (omega (arith, cost-or l r, cost-bound l, cost-bound r)))
              (parse_unary-wrapped r (print-Reads r h.1) rest _
                (omega (arith, cost-or l r, cost-bound l, cost-bound r))))

  -- Parsing the print of a tree whose `in` lists hold a literal gives that tree.
  pub parse-print : (e : Ast) → HasLits e → parse (print e) ≡ ok e
  unfolding parse cost
  parse-print e h =
      let whole : parse_or (cost e) (print e) ≡ ok (e, []) =
        subst (λ ts. parse_or (cost e) ts ≡ ok (e, [])) (append-nil (print e))
          (print-Reads e h [] (cost e) tt (le_refl (cost e))) in
      rw whole
