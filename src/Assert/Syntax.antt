-- ===== src/Assert/Syntax.antt =====
-- packages/core/src/assert.ts: tokens, syntax trees and results.
use arky_foundation.Common.{Bool, List, Text}
use arky_foundation.Number.{Number}

pub data TriState : Type 0 where
  pass fail indeterminate : TriState

pub data Op : Type 0 where
  lt le gt ge eq ne : Op

pub data Tok : Type 0 where
  num : Number → Tok
  str : Text → Tok
  bool : Bool → Tok
  sym : Text → Tok
  op : Op → Tok
  lparen rparen lbrack rbrack comma and or not in_kw : Tok

pub data Lit : Type 0 where
  num : Number → Lit
  str : Text → Lit
  bool : Bool → Lit

-- A measured value. An object is the text that it converts to when it is ordered.
pub data Scalar : Type 0 where
  num : Number → Scalar
  str : Text → Scalar
  bool : Bool → Scalar
  null undefined : Scalar
  object : Text → Scalar

pub data Ast : Type 0 where
  cmp : Text → Op → Lit → Ast
  among : Text → List Lit → Ast
  and : Ast → Ast → Ast
  or : Ast → Ast → Ast
  not : Ast → Ast
  symref : Text → Ast

-- The outcome of lexing and parsing: a value, a raised error with its message, or no more fuel,
-- which has no counterpart in the program.
pub data Outcome {ℓ} (A : Type ℓ) : Type ℓ where
  ok : A → Outcome A
  thrown : Text → Outcome A
  out_of_fuel : Outcome A

infixl 5 ◌>>=◌
abbrev pub ◌>>=◌ {ℓ κ} : {A : Type ℓ} {B : Type κ} → Outcome A → (A → Outcome B) → Outcome B
ok a >>= f = f a
thrown e >>= f = thrown e
out_of_fuel >>= f = out_of_fuel
