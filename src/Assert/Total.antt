-- ===== src/Assert/Total.antt =====
-- packages/core/src/assert.ts: the fuel of the loop of `tokenize` and of the parser.
use arky_foundation.Common.{
  ℕ, zero, suc, ◌+◌, ◌*◌, ◌≤◌, ◌<◌, ◌≡◌, refl, ◌≢◌, Bool, true, false, [], ◌∷◌, Text, length, arith,
  tail, Option, none, some, Option-cases, if◌then◌else◌, inl, inr, ◌==◌, ◌&&◌, ◌||◌, not,
}
use native.Mathlib.Nat.{le_refl}
use arky_foundation.Engine.{Engine}
use arky_foundation.Assert.Syntax.{
  Tok, num, str, bool, sym, op, lparen, rparen, lbrack, rbrack, comma, and, or, in_kw, Ast, Outcome,
  ok, thrown, out_of_fuel, ◌>>=◌,
}
use arky_foundation.Assert.Lexer.{
  span, scan_string, read_operator, read_string, read_number, read_value, read_token, tokenize_from,
  tokenize, latest, is_numeric, is_sym, is_sym_start, is_digit, is_operator, next_is,
  starts_numeric, value_pos, word,
}
use arky_foundation.Assert.Parser.{
  Toks, parse_lit, expect_rparen, expect_lbrack, expect_rbrack, more_lits, parse_among,
  parse_symbol, parse_or, loop_or, parse_and, loop_and, parse_unary, parse_primary, finish, parse,
}

-- The run keeps within its fuel, and `P` holds of its value if it has one.
abbrev pub Safe {ℓ} : {A : Type ℓ} → (A → Type 0) → Outcome A → Type 0
Safe P (ok a) = P a
Safe P (thrown e) = Unit
Safe P out_of_fuel = ⊥

pub Safe-bind {ℓ κ} :
    {A : Type ℓ} {B : Type κ} (P : A → Type 0) (Q : B → Type 0) (m : Outcome A) (f : A → Outcome B)
    → Safe P m
    → ((a : A) → P a → Safe Q (f a))
    → Safe Q (m >>= f)
Safe-bind P Q (ok a) f h k = k a h
Safe-bind P Q (thrown e) f h k = tt
Safe-bind P Q out_of_fuel f h k = h

pub Safe-ne-out_of_fuel {ℓ} :
    {A : Type ℓ} (P : A → Type 0) (m : Outcome A) → Safe P m → m ≢ out_of_fuel
Safe-ne-out_of_fuel P (ok a) h = cc
Safe-ne-out_of_fuel P (thrown e) h = cc
Safe-ne-out_of_fuel P out_of_fuel h = absurd h

pub Safe-weaken {ℓ} :
    {A : Type ℓ} (P Q : A → Type 0) (m : Outcome A) → ((a : A) → P a → Q a) → Safe P m → Safe Q m
Safe-weaken P Q (ok a) k h = k a h
Safe-weaken P Q (thrown e) k h = tt
Safe-weaken P Q out_of_fuel k h = h

pub Safe-if {ℓ} :
    {A : Type ℓ} (P : A → Type 0) (b : Bool) (m n : Outcome A)
    → (b ≡ true → Safe P m)
    → (b ≡ false → Safe P n)
    → Safe P (if b then m else n)
Safe-if P true m n h k = h refl
Safe-if P false m n h k = k refl

-- the tokens that are left are fewer
abbrev Shorter {ℓ} : {A : Type ℓ} → Toks → A × Toks → Type 0
Shorter ts r = length r.1 < length ts

abbrev NotLonger {ℓ} : {A : Type ℓ} → Toks → A × Toks → Type 0
NotLonger ts r = length r.1 ≤ length ts

module _ ⦃engine : Engine⦄ where
  parse_lit-Safe : (ts : Toks) → Safe (Shorter ts) (parse_lit ts)
  unfolding parse_lit
  parse_lit-Safe [] = tt
  parse_lit-Safe (num n ∷ ts) = omega arith
  parse_lit-Safe (str n ∷ ts) = omega arith
  parse_lit-Safe (bool n ∷ ts) = omega arith
  parse_lit-Safe (_ ∷ ts) = tt

  expect_rparen-Safe : (e : Ast) (ts : Toks) → Safe (Shorter ts) (expect_rparen e ts)
  unfolding expect_rparen
  expect_rparen-Safe e [] = tt
  expect_rparen-Safe e (rparen ∷ ts) = omega arith
  expect_rparen-Safe e (_ ∷ ts) = tt

  expect_lbrack-Safe : (ts : Toks) → Safe (λ r. length r < length ts) (expect_lbrack ts)
  unfolding expect_lbrack
  expect_lbrack-Safe [] = tt
  expect_lbrack-Safe (lbrack ∷ ts) = omega arith
  expect_lbrack-Safe (_ ∷ ts) = tt

  expect_rbrack-Safe : (ts : Toks) → Safe (λ r. length r < length ts) (expect_rbrack ts)
  unfolding expect_rbrack
  expect_rbrack-Safe [] = tt
  expect_rbrack-Safe (rbrack ∷ ts) = omega arith
  expect_rbrack-Safe (_ ∷ ts) = tt

  more_lits-Safe : (ts : Toks) → Safe (NotLonger ts) (more_lits ts)
  unfolding more_lits
  more_lits-Safe [] = omega arith
  more_lits-Safe (comma ∷ num n ∷ ts) =
      Safe-bind (NotLonger ts) _ (more_lits ts) _ (more_lits-Safe ts) λ r h. omega arith
  more_lits-Safe (comma ∷ str n ∷ ts) =
      Safe-bind (NotLonger ts) _ (more_lits ts) _ (more_lits-Safe ts) λ r h. omega arith
  more_lits-Safe (comma ∷ bool n ∷ ts) =
      Safe-bind (NotLonger ts) _ (more_lits ts) _ (more_lits-Safe ts) λ r h. omega arith
  more_lits-Safe (comma ∷ []) = tt
  more_lits-Safe (comma ∷ _ ∷ ts) = tt
  more_lits-Safe (_ ∷ ts) = omega arith

  parse_among-Safe : (s : Text) (ts : Toks) → Safe (Shorter ts) (parse_among s ts)
  unfolding parse_among
  parse_among-Safe s ts =
      Safe-bind (λ r. length r < length ts) _ (expect_lbrack ts) _ (expect_lbrack-Safe ts)
        λ t₁ h₁. Safe-bind (Shorter t₁) _ (parse_lit t₁) _ (parse_lit-Safe t₁) λ (l, t₂) h₂.
          Safe-bind (NotLonger t₂) _ (more_lits t₂) _ (more_lits-Safe t₂) λ (ls, t₃) h₃.
            Safe-bind (λ r. length r < length t₃) _ (expect_rbrack t₃) _ (expect_rbrack-Safe t₃)
              λ t₄ h₄. omega arith

  parse_symbol-Safe : (s : Text) (ts : Toks) → Safe (NotLonger ts) (parse_symbol s ts)
  unfolding parse_symbol
  parse_symbol-Safe s [] = omega arith
  parse_symbol-Safe s (op o ∷ ts) =
      Safe-bind (Shorter ts) _ (parse_lit ts) _ (parse_lit-Safe ts) λ r h. omega arith
  parse_symbol-Safe s (in_kw ∷ ts) =
      Safe-weaken (Shorter ts) _ (parse_among s ts) (λ r h. omega arith) (parse_among-Safe s ts)
  parse_symbol-Safe s (_ ∷ ts) = omega arith

  mutual
    unfolding parse_or

    parse_or-Safe : (f : ℕ) (ts : Toks) → 4 * length ts + 4 ≤ f → Safe (Shorter ts) (parse_or f ts)
    parse_or-Safe zero ts h = absurd (omega arith)
    parse_or-Safe (suc f) ts h =
        Safe-bind (Shorter ts) _ (parse_and f ts) _ (parse_and-Safe f ts (omega arith))
          λ (l, rest) k.
            Safe-weaken (NotLonger rest) _ (loop_or f l rest) (λ r q. omega arith)
              (loop_or-Safe f l rest (omega arith))

    loop_or-Safe :
        (f : ℕ) (l : Ast) (ts : Toks) → 4 * length ts + 1 ≤ f → Safe (NotLonger ts) (loop_or f l ts)
    loop_or-Safe zero l ts h = absurd (omega arith)
    loop_or-Safe (suc f) l [] h = omega arith
    loop_or-Safe (suc f) l (or ∷ ts) h =
        Safe-bind (Shorter ts) _ (parse_and f ts) _ (parse_and-Safe f ts (omega arith))
          λ (r, rest) k.
            Safe-weaken (NotLonger rest) _ (loop_or f (Ast.or l r) rest) (λ r q. omega arith)
              (loop_or-Safe f (Ast.or l r) rest (omega arith))
    loop_or-Safe (suc f) l (_ ∷ ts) h = omega arith

    parse_and-Safe :
        (f : ℕ) (ts : Toks) → 4 * length ts + 3 ≤ f → Safe (Shorter ts) (parse_and f ts)
    parse_and-Safe zero ts h = absurd (omega arith)
    parse_and-Safe (suc f) ts h =
        Safe-bind (Shorter ts) _ (parse_unary f ts) _ (parse_unary-Safe f ts (omega arith))
          λ (l, rest) k.
            Safe-weaken (NotLonger rest) _ (loop_and f l rest) (λ r q. omega arith)
              (loop_and-Safe f l rest (omega arith))

    loop_and-Safe :
        (f : ℕ) (l : Ast) (ts : Toks)
        → 4 * length ts + 1 ≤ f
        → Safe (NotLonger ts) (loop_and f l ts)
    loop_and-Safe zero l ts h = absurd (omega arith)
    loop_and-Safe (suc f) l [] h = omega arith
    loop_and-Safe (suc f) l (and ∷ ts) h =
        Safe-bind (Shorter ts) _ (parse_unary f ts) _ (parse_unary-Safe f ts (omega arith))
          λ (r, rest) k.
            Safe-weaken (NotLonger rest) _ (loop_and f (Ast.and l r) rest) (λ r q. omega arith)
              (loop_and-Safe f (Ast.and l r) rest (omega arith))
    loop_and-Safe (suc f) l (_ ∷ ts) h = omega arith

    parse_unary-Safe :
        (f : ℕ) (ts : Toks) → 4 * length ts + 2 ≤ f → Safe (Shorter ts) (parse_unary f ts)
    parse_unary-Safe zero ts h = absurd (omega arith)
    parse_unary-Safe (suc f) (Tok.not ∷ ts) h =
        Safe-bind (Shorter ts) _ (parse_unary f ts) _ (parse_unary-Safe f ts (omega arith))
          λ r k. omega arith
    parse_unary-Safe (suc f) ts h = parse_primary-Safe f ts (omega arith)

    parse_primary-Safe :
        (f : ℕ) (ts : Toks) → 4 * length ts + 1 ≤ f → Safe (Shorter ts) (parse_primary f ts)
    parse_primary-Safe zero ts h = absurd (omega arith)
    parse_primary-Safe (suc f) (lparen ∷ ts) h =
        Safe-bind (Shorter ts) _ (parse_or f ts) _ (parse_or-Safe f ts (omega arith)) λ (e, rest) k.
          Safe-weaken (Shorter rest) _ (expect_rparen e rest) (λ r q. omega arith)
            (expect_rparen-Safe e rest)
    parse_primary-Safe (suc f) (sym s ∷ ts) h =
        Safe-weaken (NotLonger ts) _ (parse_symbol s ts) (λ r q. omega arith)
          (parse_symbol-Safe s ts)
    parse_primary-Safe (suc f) _ h = tt

  finish-Safe : (e : Ast) (ts : Toks) → Safe (λ r. Unit {0}) (finish e ts)
  unfolding finish
  finish-Safe e [] = tt
  finish-Safe e (_ ∷ _) = tt

  parse-Safe : (ts : Toks) → Safe (λ r. Unit {0}) (parse ts)
  unfolding parse
  parse-Safe ts =
      Safe-bind (Shorter ts) _ (parse_or (4 * length ts + 4) ts) _
        (parse_or-Safe (4 * length ts + 4) ts (omega arith)) λ (e, rest) h. finish-Safe e rest

  -- The parser's fuel suffices for every list of tokens.
  pub parse-ne-out_of_fuel : (ts : Toks) → parse ts ≢ out_of_fuel
  parse-ne-out_of_fuel ts = Safe-ne-out_of_fuel _ _ (parse-Safe ts)

  -- What a round of the lexer leaves is no longer than what follows the character read.
  abbrev Leaves : Text → Option Tok × Text → Type 0
  Leaves s r = length r.1 ≤ length s

  length-span : (p : ℕ → Bool) (s : Text) → length (span p s).1 ≤ length s
  unfolding span
  length-span p [] = omega arith
  length-span p (c ∷ s) = ground (arith, length-span p s)

  length-span_cons :
      (p : ℕ → Bool) (c : ℕ) (s : Text) → p c ≡ true → length (span p (c ∷ s)).1 ≤ length s
  unfolding span
  length-span_cons p c s h = rw h (length-span p s)

  length-tail : (s : Text) → length (tail s) ≤ length s
  length-tail [] = omega arith
  length-tail (c ∷ s) = omega arith

  length-scan_string :
      (s body rest : Text) → scan_string s ≡ some (body, rest) → length rest ≤ length s
  unfolding scan_string
  length-scan_string [] body rest e = cc
  length-scan_string (c ∷ s) body rest e = elim (Option-cases (scan_string s)) [
    | inl n ↦ ground arith
    | inr ((b, r), q) ↦ ground (arith, length-scan_string s b r q)
  ]

  read_string-Safe : (s : Text) → Safe (Leaves s) (read_string s)
  unfolding read_string
  read_string-Safe s = elim (Option-cases (scan_string s)) [
    | inl e ↦ rw (e, Safe) tt
    | inr (r, e) ↦ rw (e, Safe) (length-scan_string s (r.0) (r.1) e)
  ]

  read_operator-Safe : (c : ℕ) (s : Text) → Safe (Leaves s) (read_operator c s)
  unfolding read_operator
  read_operator-Safe c [] =
      Safe-if _ (c == b'<') _ _ (λ e. omega arith)
        λ e. Safe-if _ (c == b'>') _ _ (λ e. omega arith) λ e. tt
  read_operator-Safe c (d ∷ s) =
      Safe-if _ (d == b'=') _ _ (λ e. omega arith)
        λ e.
          Safe-if _ (c == b'<') _ _ (λ e. omega arith)
            λ e. Safe-if _ (c == b'>') _ _ (λ e. omega arith) λ e. tt

  read_value-Safe : (prev : Option Tok) (c : ℕ) (s : Text) → Safe (Leaves s) (read_value prev c s)
  unfolding read_value
  read_value-Safe prev c s =
      Safe-if _ (c == b'-' && (starts_numeric s && value_pos prev)) (read_number (b'-' ∷ []) s) _
        (λ e. length-span is_numeric s)
        λ e.
          Safe-if _ (is_digit c) (read_number [] (c ∷ s)) _
            (λ e. length-span_cons is_numeric c s (unfold is_numeric in ground arith))
            λ e.
              Safe-if _ (is_sym_start c)
                (ok (some (word (span is_sym (c ∷ s)).0), (span is_sym (c ∷ s)).1)) _
                (λ e. length-span_cons is_sym c s (unfold is_sym in ground arith)) λ e. tt

  read_token-Safe : (prev : Option Tok) (c : ℕ) (s : Text) → Safe (Leaves s) (read_token prev c s)
  unfolding read_token
  read_token-Safe prev c s =
      Safe-if _ (c == b' ' || c == 9) _ _ (λ e. le_refl (length s))
        λ e.
          Safe-if _ (c == b'(') _ _ (λ e. le_refl (length s))
            λ e.
              Safe-if _ (c == b')') _ _ (λ e. le_refl (length s))
                λ e.
                  Safe-if _ (c == b'[') _ _ (λ e. le_refl (length s))
                    λ e.
                      Safe-if _ (c == b']') _ _ (λ e. le_refl (length s))
                        λ e.
                          Safe-if _ (c == b',') _ _ (λ e. le_refl (length s))
                            λ e.
                              Safe-if _ (c == b'&' && next_is b'&' s) _ _ (λ e. length-tail s)
                                λ e.
                                  Safe-if _ (c == b'|' && next_is b'|' s) _ _ (λ e. length-tail s)
                                    λ e.
                                      Safe-if _ (c == b'!' && not (next_is b'=' s)) _ _
                                        (λ e. le_refl (length s))
                                        λ e.
                                          Safe-if _ (c == b'"') (read_string s) _
                                            (λ e. read_string-Safe s)
                                            λ e.
                                              Safe-if _ (is_operator c) (read_operator c s)
                                                (read_value prev c s) (λ e. read_operator-Safe c s)
                                                λ e. read_value-Safe prev c s

  tokenize_from-Safe :
      (f : ℕ) (prev : Option Tok) (s : Text)
      → length s ≤ f
      → Safe (λ r. Unit {0}) (tokenize_from f prev s)
  unfolding tokenize_from
  tokenize_from-Safe f prev [] h = tt
  tokenize_from-Safe zero prev (c ∷ s) h = absurd (omega arith)
  tokenize_from-Safe (suc f) prev (c ∷ s) h =
      Safe-bind (Leaves s) _ (read_token prev c s) _ (read_token-Safe prev c s) λ (t, rest) k.
        Safe-bind (λ r. Unit {0}) _ (tokenize_from f (latest t prev) rest) _
          (tokenize_from-Safe f (latest t prev) rest (omega arith)) λ ts q. tt

  -- So does the lexer's, for every text.
  pub tokenize-ne-out_of_fuel : (s : Text) → tokenize s ≢ out_of_fuel
  unfolding tokenize
  tokenize-ne-out_of_fuel s =
      Safe-ne-out_of_fuel _ _ (tokenize_from-Safe (length s) none s (omega arith))
