-- ===== src/Number.antt =====
-- The numbers of the language: IEEE 754 doubles. A finite one stands for
-- (-1)^negative * significand * 2^(exponent - 1074).
use arky_foundation.Common.{
  zero, refl, ℕ, ◌*◌, ◌^◌, Bool, true, false, not, ◌&&◌, ltb, ◌==◌, ◌-◌, ◌/◌, ◌+◌, if◌then◌else◌,
  suc, ◌≡◌, leb, ◌%◌, ◌||◌,
}

pub data Number : Type 0 where
  nan : Number
  infinity : (negative : Bool) → Number
  finite : (negative : Bool) (significand exponent : ℕ) → Number

-- `Number.isFinite(a)`
unfoldable pub is_finite : Number → Bool
is_finite (finite _ _ _) = true
is_finite _ = false

abbrev pub is_nan : Number → Bool
is_nan nan = true
is_nan _ = false

-- the magnitude in units of 2^-1074
abbrev magnitude : ℕ → ℕ → ℕ
magnitude s e = s * 2 ^ e

abbrev finite_lt : Bool → ℕ → Bool → ℕ → Bool
finite_lt false a false b = ltb a b
finite_lt false a true b = false
finite_lt true a false b = not (a == 0 && b == 0)
finite_lt true a true b = ltb b a

-- `a < b`; every comparison with NaN is false
unfoldable pub num_lt : Number → Number → Bool
num_lt nan b = false
num_lt a nan = false
num_lt (infinity true) (infinity n) = not n
num_lt (infinity true) b = true
num_lt (infinity false) b = false
num_lt (finite _ _ _) (infinity n) = not n
num_lt (finite n s e) (finite m t f) = finite_lt n (magnitude s e) m (magnitude t f)

-- `a <= b`
unfoldable pub num_le : Number → Number → Bool
unfolding num_lt
num_le nan b = false
num_le a nan = false
num_le a b = not (num_lt b a)

-- `a === b`
unfoldable pub num_eq : Number → Number → Bool
unfolding num_lt
num_eq nan b = false
num_eq a nan = false
num_eq a b = not (num_lt a b) && not (num_lt b a)

abbrev pub num_zero : Number
num_zero = finite false 0 0

abbrev pub num_one : Number
num_one = finite false 1 1074

-- the number of binary digits, up to the fuel
bits : ℕ → ℕ → ℕ
bits zero n = 0
bits (suc f) n = let rest = suc (bits f (n / 2)) in if n == 0 then 0 else rest

-- `n / d` to the nearest integer, ties to even
nearest : ℕ → ℕ → ℕ
nearest n d =
    let q = n / d in let r = 2 * (n % d) in if ltb d r || (r == d && q % 2 == 1) then q + 1 else q

-- The double nearest to `n` units of 2^-(1074 + shift). The digits of a sum or product of doubles
-- are fewer than 5000.
round : Bool → ℕ → ℕ → Number
unfolding bits nearest
round negative n shift =
    let e = bits 5000 n - 53 - shift in
    let s = nearest n (2 ^ (shift + e)) in
    if leb (2 ^ 2098) (s * 2 ^ e) then infinity negative else finite negative s e

abbrev num_neg : Number → Number
num_neg nan = nan
num_neg (infinity n) = infinity (not n)
num_neg (finite n s e) = finite (not n) s e

-- the sum of two magnitudes with signs
signed_sum : Bool → ℕ → Bool → ℕ → Number
unfolding round
signed_sum false a false b = round false (a + b) 0
signed_sum true a true b = round true (a + b) 0
signed_sum false a true b = if ltb a b then round true (b - a) 0 else round false (a - b) 0
signed_sum true a false b = if ltb b a then round true (a - b) 0 else round false (b - a) 0

-- `a + b`
unfoldable pub num_add : Number → Number → Number
unfolding signed_sum
num_add nan b = nan
num_add a nan = nan
num_add (infinity true) (infinity false) = nan
num_add (infinity false) (infinity true) = nan
num_add (infinity n) b = infinity n
num_add a (infinity n) = infinity n
num_add (finite n s e) (finite m t f) = signed_sum n (magnitude s e) m (magnitude t f)

-- `a - b`
unfoldable pub num_sub : Number → Number → Number
unfolding num_add
num_sub a b = num_add a (num_neg b)

abbrev opposite : Bool → Bool → Bool
opposite true b = not b
opposite false b = b

-- `a * b`
unfoldable pub num_mul : Number → Number → Number
unfolding round
num_mul nan b = nan
num_mul a nan = nan
num_mul (infinity n) (infinity m) = infinity (opposite n m)
num_mul (infinity n) (finite m s e) = if s == 0 then nan else infinity (opposite n m)
num_mul (finite n s e) (infinity m) = if s == 0 then nan else infinity (opposite n m)
num_mul (finite n s e) (finite m t f) = round (opposite n m) (magnitude s e * magnitude t f) 1074

-- a number literal of the source
abbrev pub integer : ℕ → Number
integer n = finite false n 1074

-- 5 + 3 * 86400, 5 - 7, and 2^53 + 1, which is no double
arithmetic :
    (num_eq (num_add (integer 5) (num_mul (integer 3) (integer 86400))) (integer 259205) ≡ true)
    × (num_eq (num_sub (integer 5) (integer 7)) (finite true 2 1074) ≡ true)
    × (num_eq (num_add (integer (2 ^ 53)) (integer 1)) (integer (2 ^ 53)) ≡ true)
unfolding num_eq num_add num_sub num_mul
arithmetic = (refl, refl, refl)
