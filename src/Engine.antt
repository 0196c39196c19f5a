-- ===== src/Engine.antt =====
-- What the program takes from the JavaScript engine and does not define: the conversions between
-- numbers and text, `Date.parse`, and the engine's own error text.
use arky_foundation.Common.{Text}
use arky_foundation.Number.{Number}

pub record Engine : Type 0 where
  -- `Number(s)`
  pub number_of_text : Text → Number
  -- `String(n)`
  pub text_of_number : Number → Text
  -- `Date.parse(s)`; NaN for what is no date
  pub parse_date : Text → Number
  -- the message of the TypeError that reading a property of `undefined` raises, which may quote
  -- the expression
  pub read_of_undefined : Text → Text
