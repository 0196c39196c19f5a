-- ===== src/Codec/Base64Trip.antt =====
-- packages/core/src/jws.ts: base64url of bytes, and back.
use mathlib.Core.List.{reverse-reverse}
use arky_foundation.Common.{
  if_elim, ◌-◌, Bool-cases, ℕ, zero, suc, ◌&&◌, ◌⊎◌, inl, inr, ap, ◌+◌, ◌*◌, ◌/◌, ◌%◌, ◌<◌, ◌≡◌,
  refl, ◌≢◌, Bool, true, false, ◌==◌, List, [], ◌∷◌, ◌++◌, map, reverse, length, length-append,
  replicate, keep, not, some, Text, All, arith, append-nil, reverse-append,
}
use arky_foundation.Common.{
  length-map, is_some_of, eq_of_is_some_of, and_left, and_right, not_true, all_below,
  below-all_below, All-reverse,
}
use arky_foundation.Platform.{Bytes}
use arky_foundation.Codec.Base64.{
  url_char, base64url_encode, url_value, url_values, join_groups, is_ascii_space, drop_equals,
  strip_padding, padding, base64url_decode,
}

abbrev pub AreBytes : Bytes → Type 0
AreBytes bs = All (λ b. b < 256) bs

-- the six-bit values of the characters
six_bits : Bytes → List ℕ
six_bits [] = []
six_bits (a ∷ []) = (a / 4) ∷ (a % 4 * 16) ∷ []
six_bits (a ∷ b ∷ []) = (a / 4) ∷ (a % 4 * 16 + b / 16) ∷ (b % 16 * 4) ∷ []
six_bits (a ∷ b ∷ c ∷ rest) =
    (a / 4) ∷ (a % 4 * 16 + b / 16) ∷ (b % 16 * 4 + c / 64) ∷ (c % 64) ∷ six_bits rest

base64url_encode-six_bits : (bs : Bytes) → base64url_encode bs ≡ map url_char (six_bits bs)
unfolding base64url_encode six_bits
base64url_encode-six_bits [] = refl
base64url_encode-six_bits (a ∷ []) = refl
base64url_encode-six_bits (a ∷ b ∷ []) = refl
base64url_encode-six_bits (a ∷ b ∷ c ∷ rest) = rw (base64url_encode-six_bits rest) refl

six_bits-bound : (bs : Bytes) → AreBytes bs → All (λ v. v < 64) (six_bits bs)
unfolding six_bits
six_bits-bound [] h = tt
six_bits-bound (a ∷ []) h = omega arith
six_bits-bound (a ∷ b ∷ []) h = omega arith
six_bits-bound (a ∷ b ∷ c ∷ rest) h =
    (omega arith, (omega arith, (omega arith, (omega arith, six_bits-bound rest h.1.1.1))))

length-six_bits : (bs : Bytes) → length (six_bits bs) % 4 ≢ 1
unfolding six_bits
length-six_bits [] = omega arith
length-six_bits (a ∷ []) = omega arith
length-six_bits (a ∷ b ∷ []) = omega arith
length-six_bits (a ∷ b ∷ c ∷ rest) = omega (arith, length-six_bits rest)

first_byte : (a b : ℕ) → b < 256 → a / 4 * 4 + (a % 4 * 16 + b / 16) / 16 ≡ a
first_byte a b h = omega arith

second_byte :
    (a b c : ℕ)
    → b < 256
    → c < 256
    → (a % 4 * 16 + b / 16) % 16 * 16 + (b % 16 * 4 + c / 64) / 4 ≡ b
second_byte a b c h k = omega arith

third_byte : (b c : ℕ) → c < 256 → (b % 16 * 4 + c / 64) % 4 * 64 + c % 64 ≡ c
third_byte b c h = omega arith

lone_byte : (a : ℕ) → a / 4 * 4 + a % 4 * 16 / 16 ≡ a
lone_byte a = omega arith

last_byte : (a b : ℕ) → b < 256 → (a % 4 * 16 + b / 16) % 16 * 16 + b % 16 * 4 / 4 ≡ b
last_byte a b h = omega arith

join_groups-six_bits : (bs : Bytes) → AreBytes bs → join_groups (six_bits bs) ≡ some bs
unfolding join_groups six_bits
join_groups-six_bits [] h = refl
join_groups-six_bits (a ∷ []) h = rw (lone_byte a) refl
join_groups-six_bits (a ∷ b ∷ []) h = rw (first_byte a b h.1.0, last_byte a b h.1.0) refl
join_groups-six_bits (a ∷ b ∷ c ∷ rest) h =
    rw
      (
        join_groups-six_bits rest h.1.1.1,
        first_byte a b h.1.0,
        second_byte a b c h.1.0 h.1.1.0,
        third_byte b c h.1.1.0,
      )
      refl

abbrev is_url : ℕ → Bool
is_url c = not (is_ascii_space c) && (not (c == b'=') && not (c == b'.'))

table : all_below 64 (λ n. is_some_of n (url_value (url_char n)) && is_url (url_char n)) ≡ true
unfolding all_below url_value url_char is_ascii_space
table = refl

url_value-url_char : (n : ℕ) → n < 64 → url_value (url_char n) ≡ some n
url_value-url_char n h =
    eq_of_is_some_of n (url_value (url_char n)) (and_left _ _ (below-all_below 64 _ n table h))

url_values-map : (vs : List ℕ) → All (λ v. v < 64) vs → url_values (map url_char vs) ≡ some vs
unfolding url_values
url_values-map [] h = refl
url_values-map (v ∷ vs) h = rw (url_values, url_value-url_char v h.0, url_values-map vs h.1) refl

-- a character that the decoder keeps, and that is neither padding nor a dot
abbrev pub IsUrl : ℕ → Type 0
IsUrl c = (is_ascii_space c ≡ false) × ((c == b'=') ≡ false) × ((c == b'.') ≡ false)

url_char-IsUrl : (n : ℕ) → n < 64 → IsUrl (url_char n)
url_char-IsUrl n h =
    let k = and_right _ _ (below-all_below 64 _ n table h) in
    let l = and_right _ _ k in
    (not_true _ (and_left _ _ k), not_true _ (and_left _ _ l), not_true _ (and_right _ _ l))

All-IsUrl : (vs : List ℕ) → All (λ v. v < 64) vs → All IsUrl (map url_char vs)
All-IsUrl [] h = tt
All-IsUrl (v ∷ vs) h = (url_char-IsUrl v h.0, All-IsUrl vs h.1)

drop_equals-IsUrl : (s : Text) → All IsUrl s → drop_equals s ≡ s
drop_equals-IsUrl [] h = refl
drop_equals-IsUrl (c ∷ s) h = rw h.0.1 refl

keep-IsUrl : (s : Text) → All IsUrl s → keep (λ c. not (is_ascii_space c)) s ≡ s
keep-IsUrl [] h = refl
keep-IsUrl (c ∷ s) h = rw (h.0.0, keep-IsUrl s h.1) refl

-- the padding is kept: it is no space
keep-padding : (n : ℕ) → keep (λ c. not (is_ascii_space c)) (replicate n b'=') ≡ replicate n b'='
unfolding is_ascii_space
keep-padding zero = refl
keep-padding (suc n) = rw (keep-padding n) refl

keep-append : (p : ℕ → Bool) (xs ys : Text) → keep p (xs ++ ys) ≡ keep p xs ++ keep p ys
keep-append p [] ys = refl
keep-append p (x ∷ xs) ys = elim (Bool-cases (p x)) [
  | inl e ↦ rw (e, keep-append p xs ys) refl
  | inr e ↦ rw (e, keep-append p xs ys) refl
]

-- With none, one or two signs of padding behind it, a text of length a multiple of four is stripped.
strip_padded :
    (s : Text) (pad : Text)
    → length (s ++ pad) % 4 ≡ 0
    → drop_equals (drop_equals (reverse (s ++ pad))) ≡ reverse s
    → strip_padding (s ++ pad) ≡ s
unfolding strip_padding
strip_padded s pad h e = rw (strip_padding, h) (rw e (reverse-reverse s))

padding_cases : (n : ℕ) → n % 4 ≢ 1 → (n % 4 ≡ 0) ⊎ ((n % 4 ≡ 2) ⊎ (n % 4 ≡ 3))
padding_cases n h = ground arith

drop_twice : (s : Text) → All IsUrl s → drop_equals (drop_equals (reverse s)) ≡ reverse s
drop_twice s h = let r = drop_equals-IsUrl (reverse s) (All-reverse IsUrl s h) in rw (r, r) refl

strip_padding-padding :
    (s : Text) → All IsUrl s → length s % 4 ≢ 1 → strip_padding (s ++ padding s) ≡ s
strip_padding-padding s h n = elim (padding_cases (length s) n) [
  | inl e ↦ rw e (strip_padded s [] (rw (append-nil s) e) (rw (append-nil s) (drop_twice s h)))
  | inr (inl e) ↦ rw e (
      strip_padded s (b'=' ∷ b'=' ∷ []) (rw (length-append s (b'=' ∷ b'=' ∷ [])) (omega arith))
        (rw (reverse-append s (b'=' ∷ b'=' ∷ [])) refl))
  | inr (inr e) ↦ rw e (
      strip_padded s (b'=' ∷ []) (rw (length-append s (b'=' ∷ [])) (omega arith))
        (rw (reverse-append s (b'=' ∷ [])) (drop_equals-IsUrl (reverse s) (All-reverse IsUrl s h))))
]

kept :
    (s : Text) → All IsUrl s → keep (λ c. not (is_ascii_space c)) (s ++ padding s) ≡ s ++ padding s
kept s h =
    rw (keep-append (λ c. not (is_ascii_space c)) s (padding s), keep-IsUrl s h)
      (ap (◌++◌ s) (
        if_elim (λ t. keep (λ c. not (is_ascii_space c)) t ≡ t) (length s % 4 == 0) []
          (replicate (4 - length s % 4) b'=') (λ e. refl) (λ e. keep-padding (4 - length s % 4))))

-- Decoding the base64url text of bytes gives the bytes back.
pub base64url_decode-base64url_encode :
    (bs : Bytes) → AreBytes bs → base64url_decode (base64url_encode bs) ≡ some bs
unfolding base64url_decode
base64url_decode-base64url_encode bs h =
    let vs = six_bits bs in
    let bound = six_bits-bound bs h in
    let s = map url_char vs in
    let url : All IsUrl s = All-IsUrl vs bound in
    rw (base64url_encode-six_bits bs) (
      rw
        (
          base64url_decode,
          kept s url,
          strip_padding-padding s url (rw (length-map url_char vs) (length-six_bits bs)),
          url_values-map vs bound,
        )
        (join_groups-six_bits bs h))

-- Its characters are none that the decoder skips, and no dots.
pub base64url_encode-IsUrl : (bs : Bytes) → AreBytes bs → All IsUrl (base64url_encode bs)
base64url_encode-IsUrl bs h =
    rw (base64url_encode-six_bits bs) (All-IsUrl (six_bits bs) (six_bits-bound bs h))
