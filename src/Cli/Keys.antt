-- ===== src/Cli/Keys.antt =====
-- packages/mcp/src/cli.ts: `loadKeys`.
use mathlib.Core.List.{reverse-reverse}
use arky_foundation.Common.{
  ℕ, ◌+◌, ◌-◌, ◌*◌, ◌/◌, ◌%◌, ◌<◌, ◌==◌, ==_iff, Bool, true, false, not, ◌&&◌, between,
  if◌then◌else◌, length, [], ◌∷◌, ◌++◌, reverse, reverse-append, all, Option, none, some, is_some,
  or_else, Text, All, ◌≡◌, refl, ap, arith, and_left, and_right, not_true, all_below,
  below-all_below, All-reverse,
}
use arky_foundation.Platform.{Bytes, Platform}
use arky_foundation.Json.Canonical.{hex_digit}
use arky_foundation.Kernel.Evaluate.{is_space, trim_start, trim}
use arky_foundation.Codec.Base64Trip.{AreBytes}
use arky_foundation.Codec.Cid.{KeyPair, from_seed}

-- `b.toString(16).padStart(2, "0")` of each byte, joined
unfoldable pub hex_of : Bytes → Text
hex_of [] = []
hex_of (b ∷ bs) = hex_digit (b / 16) ∷ hex_digit (b % 16) ∷ hex_of bs

-- the value of a character of the class `[0-9a-fA-F]`
unfoldable pub hex_value : ℕ → Option ℕ
hex_value c =
    if between b'0' b'9' c
    then some (c - b'0')
    else if between b'a' b'f' c
    then some (c - 87)
    else if between b'A' b'F' c
    then some (c - 55)
    else none

abbrev pub value_of : ℕ → ℕ
value_of c = or_else (hex_value c) 0

-- `hex.match(/../g).map((h) => parseInt(h, 16))`, for characters of the class
unfoldable pub bytes_of_hex : Text → Bytes
unfolding hex_value
bytes_of_hex [] = []
bytes_of_hex (a ∷ []) = []
bytes_of_hex (a ∷ b ∷ s) = (value_of a * 16 + value_of b) ∷ bytes_of_hex s

-- the seed in a key file; `none` where the command fails
unfoldable pub seed_of : Text → Option Bytes
unfolding hex_value bytes_of_hex trim
seed_of content =
    let hex = trim content in
    if all (λ c. is_some (hex_value c)) hex && length hex == 64
    then some (bytes_of_hex hex)
    else none

-- The keys, and the content of the key file that the call leaves. `random` are 32 random bytes, and
-- `file` is the content of the file, if there is one.
unfoldable pub load_keys : ⦃platform : Platform⦄ → Bytes → Option Text → Option KeyPair × Text
unfolding hex_of seed_of from_seed
load_keys random file =
    let content = or_else file (hex_of random ++ 10 ∷ []) in
    (elim (seed_of content) [ none ↦ none | some seed ↦ some (from_seed seed) ], content)

abbrev equals : ℕ → Option ℕ → Bool
equals n none = false
equals n (some m) = m == n

digits_table :
    all_below 16 (λ n. equals n (hex_value (hex_digit n)) && not (is_space (hex_digit n))) ≡ true
unfolding all_below hex_value is_space
digits_table = refl

of_equals : (n : ℕ) (o : Option ℕ) → equals n o ≡ true → o ≡ some n
of_equals n none h = absurd (ground arith)
of_equals n (some m) h = ap some ((==_iff m n).0 h)

-- A character of the class that is no white space.
abbrev IsHex : ℕ → Type 0
IsHex c = (is_some (hex_value c) ≡ true) × (is_space c ≡ false)

hex_value-hex_digit : (n : ℕ) → n < 16 → hex_value (hex_digit n) ≡ some n
hex_value-hex_digit n h =
    of_equals n (hex_value (hex_digit n)) (and_left _ _ (below-all_below 16 _ n digits_table h))

hex_digit-IsHex : (n : ℕ) → n < 16 → IsHex (hex_digit n)
hex_digit-IsHex n h = (
  ap is_some (hex_value-hex_digit n h),
  not_true _ (and_right _ _ (below-all_below 16 _ n digits_table h)),
)

hex_of-IsHex : (bs : Bytes) → AreBytes bs → All IsHex (hex_of bs)
unfolding hex_of
hex_of-IsHex [] h = tt
hex_of-IsHex (b ∷ bs) h = (
  hex_digit-IsHex (b / 16) (omega (arith, h.0)),
  (hex_digit-IsHex (b % 16) (omega arith), hex_of-IsHex bs h.1),
)

length-hex_of : (bs : Bytes) → length (hex_of bs) ≡ 2 * length bs
unfolding hex_of
length-hex_of [] = refl
length-hex_of (b ∷ bs) = omega (arith, length-hex_of bs)

bytes_of_hex-hex_of : (bs : Bytes) → AreBytes bs → bytes_of_hex (hex_of bs) ≡ bs
unfolding bytes_of_hex hex_of
bytes_of_hex-hex_of [] h = refl
bytes_of_hex-hex_of (b ∷ bs) h =
    rw
      (
        hex_value-hex_digit (b / 16) (omega (arith, h.0)),
        hex_value-hex_digit (b % 16) (omega arith),
        bytes_of_hex-hex_of bs h.1,
      )
      (ap (λ x. x ∷ bs) (omega arith))

all-IsHex : (s : Text) → All IsHex s → all (λ c. is_some (hex_value c)) s ≡ true
all-IsHex [] h = refl
all-IsHex (c ∷ s) h = rw (h.0.0, all-IsHex s h.1) refl

trim_start-IsHex : (s : Text) → All IsHex s → trim_start s ≡ s
unfolding trim_start
trim_start-IsHex [] h = refl
trim_start-IsHex (c ∷ s) h = rw (trim_start, h.0.1) refl

-- The line break behind the text is trimmed.
trim-line : (c : ℕ) (s : Text) → All IsHex (c ∷ s) → trim ((c ∷ s) ++ 10 ∷ []) ≡ c ∷ s
unfolding trim trim_start
trim-line c s h =
    rw (trim, trim_start, h.0.1)
      (rw (reverse-append (c ∷ s) (10 ∷ [])) (
        rw (trim_start-IsHex (reverse (c ∷ s)) (All-reverse IsHex (c ∷ s) h))
          (reverse-reverse (c ∷ s))))

seed_of-hex_of :
    (b : ℕ) (bs : Bytes)
    → AreBytes (b ∷ bs)
    → length (b ∷ bs) ≡ 32
    → seed_of (hex_of (b ∷ bs) ++ 10 ∷ []) ≡ some (b ∷ bs)
unfolding seed_of hex_of
seed_of-hex_of b bs h e =
    let hex = hex_of-IsHex (b ∷ bs) h in
    rw
      (
        seed_of,
        trim-line (hex_digit (b / 16)) (hex_digit (b % 16) ∷ hex_of bs) hex,
        all-IsHex (hex_of (b ∷ bs)) hex,
        bytes_of_hex-hex_of (b ∷ bs) h,
      )
      (rw ((==_iff (length (hex_of (b ∷ bs))) 64).1 (omega (arith, length-hex_of (b ∷ bs), e)))
        refl)

-- Without a key file, the keys are those of the random seed of 32 bytes; and a later call, with
-- the file that the first one left, gives the same keys and leaves the file, whatever its random
-- bytes are.
pub load_keys-new :
    ⦃platform : Platform⦄ (seed other : Bytes)
    → AreBytes seed
    → length seed ≡ 32
    → ((load_keys seed none).0 ≡ some (from_seed seed))
      × (load_keys other (some (load_keys seed none).1) ≡ load_keys seed none)
unfolding load_keys
load_keys-new [] other h e = absurd (omega arith)
load_keys-new (b ∷ bs) other h e = (rw (load_keys, seed_of-hex_of b bs h e) refl, refl)
