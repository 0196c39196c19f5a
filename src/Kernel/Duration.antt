-- ===== src/Kernel/Duration.antt =====
-- packages/core/src/kernel.ts: `parseIsoDurationMs` and `withinWindow`.
use arky_foundation.Common.{
  ℕ, Bool, true, false, not, ◌&&◌, if◌then◌else◌, ◌==◌, [], ◌∷◌, ◌++◌, Option, none, some, Text,
  tail,
}
use arky_foundation.Number.{
  Number, nan, num_zero, num_lt, num_le, num_add, num_sub, num_mul, integer,
}
use arky_foundation.Engine.{Engine}
use arky_foundation.Assert.Lexer.{is_digit, span, next_is}
use arky_foundation.Kernel.Types.{Window}

abbrev is_empty : Text → Bool
is_empty [] = true
is_empty _ = false

-- `(?:(\d+)X)?` at the front of a text: the digits, empty if the group does not match, and the rest
unfoldable pub component : ℕ → Text → Text × Text
unfolding span next_is
component letter s =
    let (run, rest) = span is_digit s in
    if not (is_empty run) && next_is letter rest then (run, tail rest) else ([], s)

-- `(?:(\d+(?:\.\d+)?)S)?`
unfoldable pub seconds_component : Text → Text × Text
unfolding span next_is component
seconds_component s =
    let (run, rest) = span is_digit s in
    let (fraction, last) = component b'S' (tail rest) in
    if not (is_empty run) && (next_is b'.' rest && not (is_empty fraction))
    then (run ++ b'.' ∷ fraction, last)
    else component b'S' s

unfoldable pub time_part : Text → Option (Text × Text × Text)
unfolding component seconds_component
time_part [] = some ([], [], [])
time_part (c ∷ s) =
    let (hours, s₁) = component b'H' s in
    let (minutes, s₂) = component b'M' s₁ in
    let (seconds, s₃) = seconds_component s₂ in
    if c == b'T' && is_empty s₃ then some (hours, minutes, seconds) else none

module _ ⦃engine : Engine⦄ where
  -- `Number(x || 0)`
  unfoldable pub number_or_zero : Text → Number
  number_or_zero [] = num_zero
  number_or_zero (c ∷ s) = engine.number_of_text (c ∷ s)

  unfoldable pub milliseconds : Text → Text → Text → Text → Number
  unfolding number_or_zero num_add num_mul
  milliseconds days hours minutes seconds =
      num_mul
        (num_add
          (num_add
            (num_add (num_mul (number_or_zero days) (integer 86400))
              (num_mul (number_or_zero hours) (integer 3600)))
            (num_mul (number_or_zero minutes) (integer 60)))
          (number_or_zero seconds))
        (integer 1000)

  unfoldable pub parse_iso_duration_ms : Text → Number
  unfolding component time_part milliseconds
  parse_iso_duration_ms [] = nan
  parse_iso_duration_ms (c ∷ s) =
      let (days, rest) = component b'D' s in
      let parsed : Number = elim (time_part rest) [
        | none ↦ nan
        | some (hours, minutes, seconds) ↦ milliseconds days hours minutes seconds
      ] in
      if c == b'P' then parsed else nan

  -- `bound && test(bound)`: an absent or empty bound excludes nothing
  unfoldable pub excluded : Option Text → (Text → Bool) → Bool
  excluded none test = false
  excluded (some []) test = false
  excluded (some (c ∷ s)) test = test (c ∷ s)

  unfoldable pub within_window : Text → Window → Text → Bool
  unfolding excluded parse_iso_duration_ms num_lt num_le num_sub
  within_window ts w eval_time =
      let t = engine.parse_date ts in
      if excluded w.start (λ s. num_lt t (engine.parse_date s))
      then false
      else if excluded w.end (λ s. num_le (engine.parse_date s) t)
      then false
      else if excluded w.max_age
          (λ s. num_lt (parse_iso_duration_ms s) (num_sub (engine.parse_date eval_time) t))
      then false
      else true
