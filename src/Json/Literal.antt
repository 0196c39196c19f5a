-- ===== src/Json/Literal.antt =====
-- packages/core/src/parse.ts and canonicalize.ts: the scanner on the literal of a text.
use arky_foundation.Common.{
  ℕ, ◌<◌, ◌/◌, ◌%◌, Bool, true, false, ltb, ◌==◌, if◌then◌else◌, [], ◌∷◌, ◌++◌, append_assoc,
  Option, none, some, Text, codes, ◌≡◌, ◌≢◌, refl, ap, sym, ◌∙◌, inl, inr, Bool-cases, All, arith,
}
use arky_foundation.Json.Canonical.{escape, escape_all, hex_digit}
use arky_foundation.Json.Parse.{prefixed, scan_string}

-- a character that neither ends a literal nor begins an escape
abbrev IsOrdinary : ℕ → Type 0
IsOrdinary c = (c ≢ 92) × (c ≢ b'"')

prefixed_append :
    (p q : Text) (o : Option (Text × Text)) → prefixed p (prefixed q o) ≡ prefixed (p ++ q) o
prefixed_append p q none = refl
prefixed_append p q (some (s, rest)) = ap (λ t. some (t, rest)) (sym (append_assoc p q s))

prefixed_nil : (o : Option (Text × Text)) → o ≡ prefixed [] o
prefixed_nil none = refl
prefixed_nil (some (s, rest)) = refl

scan_string-ordinary :
    (c : ℕ) (r : Text) → IsOrdinary c → scan_string (c ∷ r) ≡ prefixed (c ∷ []) (scan_string r)
unfolding scan_string
scan_string-ordinary c [] h = ground arith
scan_string-ordinary c (d ∷ r) h = ground arith

scan_string-ordinaries :
    (p r : Text) → All IsOrdinary p → scan_string (p ++ r) ≡ prefixed p (scan_string r)
scan_string-ordinaries [] r h = prefixed_nil (scan_string r)
scan_string-ordinaries (c ∷ p) r h =
    scan_string-ordinary c (p ++ r) h.0
    ∙ ap (prefixed (c ∷ [])) (scan_string-ordinaries p r h.1)
    ∙ prefixed_append (c ∷ []) p (scan_string r)

hex_digit-IsOrdinary : (n : ℕ) → n < 16 → IsOrdinary (hex_digit n)
hex_digit-IsOrdinary n h = (λ e. ground arith, λ e. ground arith)

-- what stands for one character: a backslash and a character with ordinary ones behind, or itself
data IsToken : Text → Type 0 where
  escaped : (x : ℕ) (p : Text) → All IsOrdinary p → IsToken (92 ∷ x ∷ p)
  itself : (c : ℕ) → IsOrdinary c → IsToken (c ∷ [])

scan_string-IsToken :
    {p : Text} (r : Text) → IsToken p → scan_string (p ++ r) ≡ prefixed p (scan_string r)
unfolding scan_string
scan_string-IsToken r (escaped x p h) =
    ap (prefixed (92 ∷ x ∷ [])) (scan_string-ordinaries p r h)
    ∙ prefixed_append (92 ∷ x ∷ []) p (scan_string r)
scan_string-IsToken r (itself c h) = scan_string-ordinary c r h

IsToken-if :
    (b : Bool) (m n : Text) → IsToken m → (b ≡ false → IsToken n) → IsToken (if b then m else n)
IsToken-if true m n h k = h
IsToken-if false m n h k = k refl

control-IsToken :
    (c : ℕ)
    → c == b'"' ≡ false
    → c == 92 ≡ false
    → IsToken (
        if ltb c 0x20
        then codes "\\u00" ++ (hex_digit (c / 16) ∷ hex_digit (c % 16) ∷ [])
        else c ∷ [])
control-IsToken c q s = elim (Bool-cases (ltb c 0x20)) [
  | inl e ↦
      let high : c / 16 < 16 = ground arith in
      let low : c % 16 < 16 = omega arith in
      let zero_digit : IsOrdinary b'0' = (λ z. omega arith, λ z. omega arith) in
      rw e (
        escaped b'u' (b'0' ∷ b'0' ∷ hex_digit (c / 16) ∷ hex_digit (c % 16) ∷ []) (
          zero_digit,
          (
            zero_digit,
            (hex_digit-IsOrdinary (c / 16) high, (hex_digit-IsOrdinary (c % 16) low, tt)),
          ),
        ))
  | inr e ↦ rw e (itself c (λ z. ground arith, λ z. ground arith))
]

escape-IsToken : (c : ℕ) → IsToken (escape c)
unfolding escape
escape-IsToken c = IsToken-if (c == b'"') _ _ (escaped b'"' [] tt) λ q.
    IsToken-if (c == 92) _ _ (escaped 92 [] tt) λ s.
      IsToken-if (c == 8) _ _ (escaped b'b' [] tt) λ e.
        IsToken-if (c == 12) _ _ (escaped b'f' [] tt) λ e.
          IsToken-if (c == 10) _ _ (escaped b'n' [] tt) λ e.
            IsToken-if (c == 13) _ _ (escaped b'r' [] tt)
              λ e. IsToken-if (c == 9) _ _ (escaped b't' [] tt) λ e. control-IsToken c q s

-- The scanner takes the literal of a text up to its closing quote.
pub scan_string-escape_all :
    (k rest : Text)
    → scan_string (escape_all k ++ (b'"' ∷ rest)) ≡ some (escape_all k ++ codes "\"", rest)
unfolding escape_all scan_string
scan_string-escape_all [] [] = refl
scan_string-escape_all [] (c ∷ rest) = refl
scan_string-escape_all (c ∷ k) rest = rw (append_assoc (escape c) (escape_all k) (b'"' ∷ rest)) (
    scan_string-IsToken (escape_all k ++ (b'"' ∷ rest)) (escape-IsToken c)
    ∙ ap (prefixed (escape c)) (scan_string-escape_all k rest)
    ∙ ap (λ t. some (t, rest)) (sym (append_assoc (escape c) (escape_all k) (codes "\""))))
