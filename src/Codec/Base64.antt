-- ===== src/Codec/Base64.antt =====
-- packages/core/src/jws.ts: base64url, with the platform's `btoa` and `atob` written out.
use arky_foundation.Common.{
  ℕ, ◌+◌, ◌-◌, ◌*◌, ◌/◌, ◌%◌, Bool, ◌||◌, ◌==◌, between, if◌then◌else◌, List, [], ◌∷◌, ◌++◌,
  reverse, length, replicate, keep, not, Option, none, some, Text, codes, ◌≡◌, refl,
}
use arky_foundation.Platform.{Bytes}

-- the character of a six-bit value, `+` and `/` already replaced by `-` and `_`
unfoldable pub url_char : ℕ → ℕ
url_char n =
    if between 0 25 n
    then b'A' + n
    else if between 26 51 n
    then n + 71
    else if between 52 61 n
    then n - 4
    else if n == 62
    then b'-'
    else b'_'

-- `btoa` of the bytes with the padding off
unfoldable pub base64url_encode : Bytes → Text
unfolding url_char
base64url_encode [] = []
base64url_encode (a ∷ []) = url_char (a / 4) ∷ url_char (a % 4 * 16) ∷ []
base64url_encode (a ∷ b ∷ []) =
    url_char (a / 4) ∷ url_char (a % 4 * 16 + b / 16) ∷ url_char (b % 16 * 4) ∷ []
base64url_encode (a ∷ b ∷ c ∷ rest) =
    url_char (a / 4)
    ∷ url_char (a % 4 * 16 + b / 16)
    ∷ url_char (b % 16 * 4 + c / 64)
    ∷ url_char (c % 64)
    ∷ base64url_encode rest

-- The value of a character: the replacement of `-` and `_`, and the alphabet of `atob`.
unfoldable pub url_value : ℕ → Option ℕ
url_value c =
    if between b'A' b'Z' c
    then some (c - b'A')
    else if between b'a' b'z' c
    then some (c - 71)
    else if between b'0' b'9' c
    then some (c + 4)
    else if c == b'-' || c == b'+'
    then some 62
    else if c == b'_' || c == b'/'
    then some 63
    else none

unfoldable pub url_values : Text → Option (List ℕ)
unfolding url_value
url_values [] = some []
url_values (c ∷ s) = elim (url_value c) [
  | none ↦ none
  | some v ↦ elim (url_values s) [ none ↦ none | some vs ↦ some (v ∷ vs) ]
]

-- Groups of four values to bytes; the bits left over are dropped, and one value alone is an error.
unfoldable pub join_groups : List ℕ → Option Bytes
join_groups [] = some []
join_groups (p ∷ []) = none
join_groups (p ∷ q ∷ []) = some ((p * 4 + q / 16) ∷ [])
join_groups (p ∷ q ∷ r ∷ []) = some ((p * 4 + q / 16) ∷ (q % 16 * 16 + r / 4) ∷ [])
join_groups (p ∷ q ∷ r ∷ s ∷ rest) = elim (join_groups rest) [
  | none ↦ none
  | some bs ↦ some ((p * 4 + q / 16) ∷ (q % 16 * 16 + r / 4) ∷ (r % 4 * 64 + s) ∷ bs)
]

unfoldable pub is_ascii_space : ℕ → Bool
is_ascii_space c = c == 9 || c == 10 || c == 12 || c == 13 || c == 32

abbrev pub drop_equals : Text → Text
drop_equals [] = []
drop_equals (c ∷ s) = if c == b'=' then s else c ∷ s

-- up to two `=` at the end of a text whose length is a multiple of four
unfoldable pub strip_padding : Text → Text
strip_padding s = if length s % 4 == 0 then reverse (drop_equals (drop_equals (reverse s))) else s

-- `'='.repeat(4 - (s.length % 4))`, or nothing
abbrev pub padding : Text → Text
padding s = if length s % 4 == 0 then [] else replicate (4 - length s % 4) b'='

-- `none` where `atob` raises
unfoldable pub base64url_decode : Text → Option Bytes
unfolding url_values join_groups is_ascii_space strip_padding
base64url_decode s =
    elim (url_values (strip_padding (keep (λ c. not (is_ascii_space c)) (s ++ padding s)))) [
      | none ↦ none
      | some vs ↦ join_groups vs
    ]

base64_tests :
    (base64url_encode (codes "null") ≡ codes "bnVsbA")
    × (base64url_decode (codes "bnVsbA") ≡ some (codes "null"))
    × (base64url_decode (codes "-_-_ ") ≡ none)
unfolding base64url_encode base64url_decode
base64_tests = (refl, refl, refl)
