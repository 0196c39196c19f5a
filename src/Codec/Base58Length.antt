-- ===== src/Codec/Base58Length.antt =====
-- packages/core/src/cid.ts: the length of a base58btc text.
use native.Mathlib.Nat.{mul-le-mul, mul-le-mul_right, mul-le-mul_left, mul-add, le_refl}
use arky_foundation.Common.{
  length-map, ℕ, zero, suc, ◌*◌, ◌<◌, ◌≤◌, List, [], ◌∷◌, map, length, length-append, reverse,
  replicate, ◌≡◌, refl, ap, arith, ◌⊎◌, inl, inr, reverse-cons, All-reverse,
}
use arky_foundation.Platform.{Bytes}
use arky_foundation.Codec.Base58.{letter, convert, leading, base58btc_encode}
use arky_foundation.Codec.Base58Trip.{leading-AreBytes, value-convert_bytes}
use arky_foundation.Codec.Base64Trip.{AreBytes}
use arky_foundation.Codec.Digits.{value, IsTrimmed, AreDigits}
use arky_foundation.Codec.Horner.{
  StartsElsewhere, leading-append, leading-StartsElsewhere, reverse-IsTrimmed, convert-AreDigits,
  convert-IsTrimmed,
}

-- `base ^ n`
unfoldable cap : ℕ → ℕ → ℕ
cap base zero = 1
cap base (suc n) = base * cap base n

cap_mono : (b c m n : ℕ) → 0 < b → b ≤ c → m ≤ n → cap b m ≤ cap c n
unfolding cap
cap_mono b c zero zero z p q = omega arith
cap_mono b c (suc m) zero z p q = absurd (omega arith)
cap_mono b c zero (suc n) z p q =
    let one : 1 ≤ c = omega arith in
    omega (arith, mul-le-mul_right (cap c n) one, cap_mono b c zero n z p (omega arith))
cap_mono b c (suc m) (suc n) z p q = mul-le-mul p (cap_mono b c m n z p (omega arith))

-- 256 is at most the square of 58.
cap-square : (m n : ℕ) → n ≡ 2 * m → cap 256 m ≤ cap 58 n
unfolding cap
cap-square zero n e = cap_mono 58 58 0 n (omega arith) (omega arith) (omega arith)
cap-square (suc m) zero e = absurd (omega arith)
cap-square (suc m) (suc zero) e = absurd (omega arith)
cap-square (suc m) (suc (suc n)) e = omega (arith, cap-square m n (omega arith))

value-below : (base : ℕ) (ds : List ℕ) → AreDigits base ds → value base ds < cap base (length ds)
unfolding cap value
value-below base [] h = omega arith
value-below base (d ∷ ds) h =
    let step = mul-le-mul_left base (value-below base ds h.1) in
    omega (arith, h.0, step, mul-add base 1 (value base ds))

value-above :
    (base d : ℕ) (ds : List ℕ)
    → IsTrimmed base (d ∷ ds)
    → cap base (length ds) ≤ value base (d ∷ ds)
unfolding cap value
value-above base d [] h = let nonzero = h.0 in omega arith
value-above base d (e ∷ ds) h = omega (arith, mul-le-mul_left base (value-above base e ds h.1))

le_or_lt : (n m : ℕ) → (n ≤ m) ⊎ (m < n)
le_or_lt n m = ground arith

length-IsTrimmed :
    (base n : ℕ) (ds : List ℕ)
    → 0 < base
    → IsTrimmed base ds
    → value base ds < cap base n
    → length ds ≤ n
length-IsTrimmed base n [] z t h = omega arith
length-IsTrimmed base n (d ∷ ds) z t h = elim (le_or_lt n (length ds)) [
  | inl l ↦ absurd (
      omega
        (arith, h, value-above base d ds t, cap_mono base base n (length ds) z (le_refl base) l))
  | inr l ↦ l
]

module _ (rest : Bytes) (bytes : AreBytes rest) (start : StartsElsewhere 0 rest) where
  abbrev digits : List ℕ
  digits = convert 58 256 [] rest

  longer : length (reverse rest) ≤ length digits
  longer =
      length-IsTrimmed 256 (length digits) (reverse rest) (omega arith)
        (reverse-IsTrimmed 256 (omega arith) rest start)
        (omega (
          arith,
          value-convert_bytes rest,
          value-below 58 digits (convert-AreDigits 58 (omega arith) 256 (omega arith) rest [] tt),
          cap_mono 58 256 (length digits) (length digits) (omega arith) (omega arith)
              (le_refl (length digits)),
        ))

  at_most_twice : length digits ≤ 2 * length (reverse rest)
  at_most_twice =
      length-IsTrimmed 58 (2 * length (reverse rest)) digits (omega arith)
        (convert-IsTrimmed 58 (omega arith) 256 (omega arith) rest [] tt)
        (omega (
          arith,
          value-convert_bytes rest,
          value-below 256 (reverse rest) (All-reverse (λ b. b < 256) rest bytes),
          cap-square (length (reverse rest)) (2 * length (reverse rest)) refl,
        ))

length-reverse : (xs : List ℕ) → length (reverse xs) ≡ length xs
length-reverse [] = refl
length-reverse (x ∷ xs) =
    rw (reverse-cons x xs) (omega (arith, length-append (reverse xs) (x ∷ []), length-reverse xs))

length-replicate : (n x : ℕ) → length (replicate n x) ≡ n
length-replicate zero x = refl
length-replicate (suc n) x = omega (arith, length-replicate n x)

-- A base58btc text has at least one and at most two characters for each byte.
pub length-base58btc_encode :
    (bs : Bytes)
    → AreBytes bs
    → (length bs ≤ length (base58btc_encode bs)) × (length (base58btc_encode bs) ≤ 2 * length bs)
unfolding base58btc_encode
length-base58btc_encode bs h =
    let zeros = (leading 0 bs).0 in
    let rest = (leading 0 bs).1 in
    let start = leading-StartsElsewhere 0 bs in
    let bytes = leading-AreBytes bs h in
    let low = longer rest bytes start in
    let high = at_most_twice rest bytes start in
    omega (
      arith,
      low,
      high,
      ap length (leading-append 0 bs),
      length-append (replicate zeros 0) rest,
      length-append (replicate zeros b'1') (map letter (reverse (convert 58 256 [] rest))),
      length-replicate zeros 0,
      length-replicate zeros b'1',
      length-map letter (reverse (convert 58 256 [] rest)),
      length-reverse (convert 58 256 [] rest),
      length-reverse rest,
    )
