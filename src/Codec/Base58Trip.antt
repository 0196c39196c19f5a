-- ===== src/Codec/Base58Trip.antt =====
-- packages/core/src/cid.ts: base58btc of bytes, and back.
use mathlib.Core.List.{reverse-reverse}
use arky_foundation.Common.{
  ℕ, ◌<◌, ◌&&◌, ◌||◌, not, ◌==◌, List, Text, [], ◌∷◌, ◌++◌, map, reverse, replicate, some, ◌≡◌, ◌≢◌,
  refl, ap, sym, ◌∙◌, arith, true, inl, inr, Bool-cases,
}
use arky_foundation.Common.{
  is_some_of, eq_of_is_some_of, and_left, and_right, all_below, below-all_below, All-reverse,
}
use arky_foundation.Platform.{Bytes}
use arky_foundation.Codec.Base58.{
  alphabet, letter, position, convert, leading, values, base58btc_encode, base58btc_decode,
}
use arky_foundation.Codec.Base64Trip.{AreBytes}
use arky_foundation.Codec.Cid.{to_multibase, from_multibase}
use arky_foundation.Codec.Digits.{value, AreDigits, value-injective}
use arky_foundation.Codec.Horner.{
  horner, horner-reverse, StartsElsewhere, leading-replicate, leading-append,
  leading-StartsElsewhere, reverse-IsTrimmed, reverse-StartsElsewhere, value-convert,
  convert-AreDigits, convert-IsTrimmed,
}

-- the letter of a digit stands for the digit, and only that of 0 is '1'
table :
    all_below 58
      (λ d. is_some_of d (position (letter d) alphabet) && (d == 0 || not (letter d == b'1')))
    ≡ true
unfolding all_below position letter
table = refl

pub position-letter : (d : ℕ) → d < 58 → position (letter d) alphabet ≡ some d
position-letter d h = eq_of_is_some_of d _ (and_left _ _ (below-all_below 58 _ d table h))

letter_one : (d : ℕ) → d < 58 → d ≢ 0 → letter d ≢ b'1'
letter_one d h k z =
    let t : (d == 0 || not (letter d == b'1')) ≡ true =
      and_right (is_some_of d (position (letter d) alphabet)) _ (
        below-all_below 58
          (λ d. is_some_of d (position (letter d) alphabet) && (d == 0 || not (letter d == b'1'))) d
          table h) in
    ground arith

pub values-map : (ds : List ℕ) → AreDigits 58 ds → values (map letter ds) ≡ some ds
unfolding values
values-map [] h = refl
values-map (d ∷ ds) h = rw (values, position-letter d h.0, values-map ds h.1) refl

StartsElsewhere-map :
    (ds : List ℕ) → AreDigits 58 ds → StartsElsewhere 0 ds → StartsElsewhere b'1' (map letter ds)
StartsElsewhere-map [] h s = tt
StartsElsewhere-map (d ∷ ds) h s = letter_one d h.0 s

-- the digits in base 58 of bytes that do not begin with zero, most significant first
abbrev digits : Bytes → List ℕ
digits rest = reverse (convert 58 256 [] rest)

digits-AreDigits : (rest : Bytes) → AreDigits 58 (digits rest)
digits-AreDigits rest =
    All-reverse (λ d. d < 58) (convert 58 256 [] rest)
      (convert-AreDigits 58 (omega arith) 256 (omega arith) rest [] tt)

digits-StartsElsewhere : (rest : Bytes) → StartsElsewhere 0 (digits rest)
digits-StartsElsewhere rest = reverse-StartsElsewhere 58 (omega arith) (digits rest) (
    rw (reverse-reverse (convert 58 256 [] rest))
      (convert-IsTrimmed 58 (omega arith) 256 (omega arith) rest [] tt))

-- The digits stand for the number of the bytes.
pub value-convert_bytes :
    (rest : Bytes) → value 58 (convert 58 256 [] rest) ≡ value 256 (reverse rest)
unfolding value
value-convert_bytes rest =
    value-convert 58 (omega arith) 256 (omega arith) rest []
    ∙ ap (horner 256 0) (sym (reverse-reverse rest))
    ∙ horner-reverse 256 (reverse rest)

-- both sides are the digits in base 256 of one number
convert-digits :
    (rest : Bytes)
    → AreBytes rest
    → StartsElsewhere 0 rest
    → convert 256 58 [] (digits rest) ≡ reverse rest
unfolding value
convert-digits rest h s =
    value-injective 256 (omega arith) (convert 256 58 [] (digits rest)) (reverse rest)
      (convert-AreDigits 256 (omega arith) 58 (omega arith) (digits rest) [] tt)
      (All-reverse (λ b. b < 256) rest h)
      (convert-IsTrimmed 256 (omega arith) 58 (omega arith) (digits rest) [] tt)
      (reverse-IsTrimmed 256 (omega arith) rest s)
      (value-convert 256 (omega arith) 58 (omega arith) (digits rest) []
        ∙ horner-reverse 58 (convert 58 256 [] rest)
        ∙ value-convert_bytes rest)

pub leading-AreBytes : (bs : Bytes) → AreBytes bs → AreBytes (leading 0 bs).1
unfolding leading
leading-AreBytes [] h = tt
leading-AreBytes (b ∷ bs) h = elim (Bool-cases (b == 0)) [
  | inl e ↦ rw e (leading-AreBytes bs h.1)
  | inr e ↦ rw e h
]

decode_parts :
    (n : ℕ) (rest : Bytes)
    → AreBytes rest
    → StartsElsewhere 0 rest
    → base58btc_decode (replicate n b'1' ++ map letter (digits rest)) ≡ some (replicate n 0 ++ rest)
unfolding base58btc_decode
decode_parts n rest h s =
    let front =
      leading-replicate b'1' n (map letter (digits rest))
        (StartsElsewhere-map (digits rest) (digits-AreDigits rest) (digits-StartsElsewhere rest)) in
    rw
      (
        base58btc_decode,
        front,
        values-map (digits rest) (digits-AreDigits rest),
        convert-digits rest h s,
        reverse-reverse rest,
      )
      (ap (λ (p : ℕ × Text). some (replicate p.0 0 ++ rest)) front)

-- Bytes that are encoded to base58 are decoded to the same bytes, those with zeros at the front
-- included.
pub base58btc_decode-base58btc_encode :
    (bs : Bytes) → AreBytes bs → base58btc_decode (base58btc_encode bs) ≡ some bs
unfolding base58btc_encode
base58btc_decode-base58btc_encode bs h =
    decode_parts (leading 0 bs).0 (leading 0 bs).1 (leading-AreBytes bs h)
      (leading-StartsElsewhere 0 bs)
    ∙ ap some (leading-append 0 bs)

pub from_multibase-to_multibase :
    (bs : Bytes) → AreBytes bs → from_multibase (to_multibase bs) ≡ some bs
unfolding from_multibase to_multibase
from_multibase-to_multibase bs h = base58btc_decode-base58btc_encode bs h
