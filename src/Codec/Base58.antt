-- ===== src/Codec/Base58.antt =====
-- packages/core/src/cid.ts: base58btc, with the digits that the loops build least significant first.
use arky_foundation.Common.{
  ℕ, zero, suc, ◌+◌, ◌*◌, ◌/◌, ◌%◌, ◌==◌, if◌then◌else◌, List, [], ◌∷◌, ◌++◌, map, reverse,
  replicate, Option, none, some, Text, codes, ◌≡◌, refl,
}
use arky_foundation.Platform.{Bytes}

abbrev pub alphabet : Text
alphabet = codes "123456789ABCDEFGHJKLMNPQRSTUVWXYZabcdefghijkmnopqrstuvwxyz"

-- `while (carry > 0) { push(carry % base); carry = carry / base }`; a carry is fuel enough for itself
unfoldable pub flush : ℕ → ℕ → ℕ → List ℕ
flush base zero carry = []
flush base (suc f) carry =
    let rest = (carry % base) ∷ flush base f (carry / base) in if carry == 0 then [] else rest

-- One round of either outer loop: `digits * factor + carry` in the base.
unfoldable pub push_digit : ℕ → ℕ → List ℕ → ℕ → List ℕ
unfolding flush
push_digit base factor [] carry = flush base carry carry
push_digit base factor (d ∷ ds) carry =
    ((carry + d * factor) % base) ∷ push_digit base factor ds ((carry + d * factor) / base)

unfoldable pub convert : ℕ → ℕ → List ℕ → List ℕ → List ℕ
unfolding push_digit
convert base factor digits [] = digits
convert base factor digits (b ∷ bs) = convert base factor (push_digit base factor digits b) bs

-- the values at the front that equal `x`: how many, and what follows
unfoldable pub leading : ℕ → List ℕ → ℕ × List ℕ
leading x [] = (0, [])
leading x (b ∷ bs) = let (n, rest) = leading x bs in if b == x then (suc n, rest) else (0, b ∷ bs)

unfoldable pub letter : ℕ → ℕ
letter d = letter_at d alphabet
  where
    letter_at : ℕ → Text → ℕ
    letter_at i [] = 0
    letter_at zero (c ∷ cs) = c
    letter_at (suc i) (c ∷ cs) = letter_at i cs

-- `B58_MAP[c]`
unfoldable pub position : ℕ → Text → Option ℕ
position c [] = none
position c (a ∷ as') =
    if c == a then some 0 else elim (position c as') [ none ↦ none | some i ↦ some (suc i) ]

unfoldable pub base58btc_encode : Bytes → Text
unfolding convert leading letter
base58btc_encode bytes =
    let (zeros, rest) = leading 0 bytes in
    replicate zeros b'1' ++ map letter (reverse (convert 58 256 [] rest))

unfoldable pub values : Text → Option (List ℕ)
unfolding position
values [] = some []
values (c ∷ s) = elim (position c alphabet) [
  | none ↦ none
  | some v ↦ elim (values s) [ none ↦ none | some vs ↦ some (v ∷ vs) ]
]

-- `none` where a character is not in the alphabet, and the code raises
unfoldable pub base58btc_decode : Text → Option Bytes
unfolding convert leading values
base58btc_decode str =
    let (zeros, rest) = leading b'1' str in
    elim (values rest) [
      | none ↦ none
      | some vs ↦ some (replicate zeros 0 ++ reverse (convert 256 58 [] vs))
    ]

base58_tests :
    (base58btc_encode (codes "Hello World!") ≡ codes "2NEpo7TZRRrLZSi2U")
    × (base58btc_decode (codes "2NEpo7TZRRrLZSi2U") ≡ some (codes "Hello World!"))
    × (base58btc_encode (0 ∷ 0 ∷ 1 ∷ []) ≡ codes "112")
unfolding base58btc_encode base58btc_decode
base58_tests = (refl, refl, refl)
