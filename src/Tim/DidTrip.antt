-- ===== src/Tim/DidTrip.antt =====
-- packages/core/src/keys.ts and tim.ts: the did:key of a public key, and back.
use arky_foundation.Common.{
  ℕ, zero, suc, ◌+◌, ◌*◌, ◌/◌, ◌≤◌, List, [], ◌∷◌, ◌++◌, map, take, drop, length, reverse,
  replicate, some, codes, starts_with, ◌≡◌, refl, ap, sym, ◌∙◌, arith, true, subst, reverse-append,
}
use arky_foundation.Platform.{Bytes}
use arky_foundation.Codec.Base58.{letter, convert, leading, base58btc_encode}
use arky_foundation.Codec.Base64Trip.{AreBytes}
use arky_foundation.Codec.Base58Trip.{base58btc_decode-base58btc_encode}
use arky_foundation.Codec.Cid.{did_key_from_public_key}
use arky_foundation.Codec.Digits.{value, IsTrimmed, AreDigits, value-injective}
use arky_foundation.Codec.Horner.{horner, value-convert, convert-AreDigits, convert-IsTrimmed}
use arky_foundation.Tim.DidKey.{decode_did_text, ed25519_key, did_key_prefix}

-- Values between bounds stand for a number between bounds.
horner-bounds :
    (key : Bytes) (low acc high : ℕ)
    → AreBytes key
    → low ≤ acc
    → acc ≤ high
    → (horner 256 low (replicate (length key) 0) ≤ horner 256 acc key)
      × (horner 256 acc key ≤ horner 256 high (replicate (length key) 255))
unfolding horner
horner-bounds [] low acc high h p q = (p, q)
horner-bounds (b ∷ key) low acc high h p q =
    horner-bounds key (0 + 256 * low) (b + 256 * acc) (255 + 256 * high) h.1 (omega (arith, h.0, p))
      (omega (arith, h.0, q))

-- `n` divisions by 58
unfoldable shrink : ℕ → ℕ → ℕ
shrink zero v = v
shrink (suc n) v = shrink n (v / 58)

shrink_mono : (n v w : ℕ) → v ≤ w → shrink n v ≤ shrink n w
unfolding shrink
shrink_mono zero v w h = h
shrink_mono (suc n) v w h = shrink_mono n (v / 58) (w / 58) (omega (arith, h))

shrink_zero : (n : ℕ) → 0 ≡ shrink n 0
unfolding shrink
shrink_zero zero = refl
shrink_zero (suc n) = shrink_zero n

value-drop : (n : ℕ) (ds : List ℕ) → AreDigits 58 ds → value 58 (drop n ds) ≡ shrink n (value 58 ds)
unfolding value shrink
value-drop zero ds h = refl
value-drop (suc n) [] h = shrink_zero n
value-drop (suc n) (d ∷ ds) h = value-drop n ds h.1 ∙ ap (shrink n) (omega (arith, h.0))

drop-AreDigits : (n : ℕ) (ds : List ℕ) → AreDigits 58 ds → AreDigits 58 (drop n ds)
drop-AreDigits zero ds h = h
drop-AreDigits (suc n) [] h = tt
drop-AreDigits (suc n) (d ∷ ds) h = drop-AreDigits n ds h.1

drop-IsTrimmed : (n : ℕ) (ds : List ℕ) → IsTrimmed 58 ds → IsTrimmed 58 (drop n ds)
drop-IsTrimmed zero ds h = h
drop-IsTrimmed (suc n) [] h = tt
drop-IsTrimmed (suc n) (d ∷ ds) h = drop-IsTrimmed n ds h.1

take-append-drop : (n : ℕ) (ds : List ℕ) → take n ds ++ drop n ds ≡ ds
take-append-drop zero ds = refl
take-append-drop (suc n) [] = refl
take-append-drop (suc n) (d ∷ ds) = ap (λ r. d ∷ r) (take-append-drop n ds)

bounds_lem :
    (shrink 44 (horner 256 0xed01 (replicate 32 0)) ≡ 18023)
    × (shrink 44 (horner 256 0xed01 (replicate 32 255)) ≡ 18023)
unfolding shrink horner
bounds_lem = (refl, refl)

module _ (key : Bytes) (sized : length key ≡ 32) (bytes : AreBytes key) where
  abbrev tagged : Bytes
  tagged = 0xed ∷ 0x01 ∷ key

  abbrev tagged_digits : List ℕ
  tagged_digits = convert 58 256 [] tagged

  value-tagged_digits : value 58 tagged_digits ≡ horner 256 0xed01 key
  unfolding value horner
  value-tagged_digits = value-convert 58 (omega arith) 256 (omega arith) tagged []

  tagged_digits-AreDigits : AreDigits 58 tagged_digits
  tagged_digits-AreDigits = convert-AreDigits 58 (omega arith) 256 (omega arith) tagged [] tt

  value-top : value 58 (drop 44 tagged_digits) ≡ 18023
  value-top =
      let (above, below) =
        horner-bounds key 0xed01 0xed01 0xed01 bytes (omega arith) (omega arith) in
      let (low, high) = bounds_lem in
      let least =
        subst (λ n. horner 256 0xed01 (replicate n 0) ≤ horner 256 0xed01 key) sized above in
      let most =
        subst (λ n. horner 256 0xed01 key ≤ horner 256 0xed01 (replicate n 255)) sized below in
      value-drop 44 tagged_digits tagged_digits-AreDigits
      ∙ ap (shrink 44) value-tagged_digits
      ∙ omega (
        arith,
        low,
        high,
        shrink_mono 44 (horner 256 0xed01 (replicate 32 0)) (horner 256 0xed01 key) least,
        shrink_mono 44 (horner 256 0xed01 key) (horner 256 0xed01 (replicate 32 255)) most,
      )

  -- the digits of 'k', 'M' and '6'
  top_digits : drop 44 tagged_digits ≡ 43 ∷ 20 ∷ 5 ∷ []
  unfolding value
  top_digits =
      value-injective 58 (omega arith) (drop 44 tagged_digits) (43 ∷ 20 ∷ 5 ∷ [])
        (drop-AreDigits 44 tagged_digits tagged_digits-AreDigits)
        (omega arith, (omega arith, (omega arith, tt)))
        (drop-IsTrimmed 44 tagged_digits
          (convert-IsTrimmed 58 (omega arith) 256 (omega arith) tagged [] tt))
        (omega arith, (omega arith, (omega arith, tt))) value-top

  reversed : reverse tagged_digits ≡ 5 ∷ 20 ∷ 43 ∷ reverse (take 44 tagged_digits)
  reversed =
      ap reverse
        (sym (take-append-drop 44 tagged_digits) ∙ ap (λ r. take 44 tagged_digits ++ r) top_digits)
      ∙ reverse-append (take 44 tagged_digits) (43 ∷ 20 ∷ 5 ∷ [])

  tagged_text :
      base58btc_encode tagged ≡ codes "6Mk" ++ map letter (reverse (take 44 tagged_digits))
  unfolding base58btc_encode leading letter
  tagged_text = ap (map letter) reversed

  starts_with-did_key_from_public_key :
      starts_with did_key_prefix (did_key_from_public_key key) ≡ true
  unfolding starts_with did_key_from_public_key
  starts_with-did_key_from_public_key = rw tagged_text refl

  ed25519_key-tagged : ed25519_key tagged ≡ some key
  unfolding ed25519_key
  ed25519_key-tagged = rw (ed25519_key, sized) refl

  -- The did:key of a public key of 32 bytes is decoded to that key.
  pub decode_did_text-did_key_from_public_key :
      decode_did_text (did_key_from_public_key key) ≡ some key
  unfolding decode_did_text did_key_from_public_key
  decode_did_text-did_key_from_public_key =
      rw
        (
          decode_did_text,
          starts_with-did_key_from_public_key,
          base58btc_decode-base58btc_encode tagged (omega arith, (omega arith, bytes)),
        )
        ed25519_key-tagged
