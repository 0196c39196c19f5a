-- ===== src/Codec/Horner.antt =====
-- packages/core/src/cid.ts: what the outer loops of base58 compute, and where leading zeros go.
use native.Mathlib.Nat.{mul-le-mul_right}
use arky_foundation.Common.{
  ℕ, zero, suc, ◌+◌, ◌*◌, ◌<◌, ◌==◌, List, [], ◌∷◌, ◌++◌, reverse, replicate, ◌≡◌, ◌≢◌, refl, ap,
  ◌∙◌, inl, inr, Bool-cases, ==_iff, reverse-cons, arith, subst,
}
use arky_foundation.Codec.Base58.{convert, leading, push_digit}
use arky_foundation.Codec.Digits.{
  value, IsTrimmed, AreDigits, value-push_digit, push_digit-AreDigits, push_digit-IsTrimmed,
}

-- the number that digits stand for, most significant first, after those that stand for `acc`
unfoldable pub horner : ℕ → ℕ → List ℕ → ℕ
horner factor acc [] = acc
horner factor acc (b ∷ bs) = horner factor (b + factor * acc) bs

horner-snoc :
    (factor acc d : ℕ) (xs : List ℕ)
    → horner factor acc (xs ++ (d ∷ [])) ≡ d + factor * horner factor acc xs
unfolding horner
horner-snoc factor acc d [] = refl
horner-snoc factor acc d (x ∷ xs) = horner-snoc factor (x + factor * acc) d xs

pub horner-reverse : (factor : ℕ) (ds : List ℕ) → horner factor 0 (reverse ds) ≡ value factor ds
unfolding horner value
horner-reverse factor [] = refl
horner-reverse factor (d ∷ ds) =
    rw (reverse-cons d ds)
      (horner-snoc factor 0 d (reverse ds) ∙ ap (λ v. d + factor * v) (horner-reverse factor ds))

-- The values do not begin with `x`.
abbrev pub StartsElsewhere : ℕ → List ℕ → Type 0
StartsElsewhere x [] = Unit
StartsElsewhere x (b ∷ bs) = b ≢ x

pub leading-replicate :
    (x n : ℕ) (rest : List ℕ)
    → StartsElsewhere x rest
    → leading x (replicate n x ++ rest) ≡ (n, rest)
unfolding leading
leading-replicate x zero [] h = refl
leading-replicate x zero (b ∷ bs) h = elim (Bool-cases (b == x)) [
  | inl e ↦ absurd (h ((==_iff b x).0 e))
  | inr e ↦ rw e refl
]
leading-replicate x (suc n) rest h = rw (leading-replicate x n rest h, (==_iff x x).1 refl) refl

pub leading-append : (x : ℕ) (bs : List ℕ) → replicate (leading x bs).0 x ++ (leading x bs).1 ≡ bs
unfolding leading
leading-append x [] = refl
leading-append x (b ∷ bs) = elim (Bool-cases (b == x)) [
  | inl e ↦ rw (e, (==_iff b x).0 e) (ap (λ r. x ∷ r) (leading-append x bs))
  | inr e ↦ rw e refl
]

pub leading-StartsElsewhere : (x : ℕ) (bs : List ℕ) → StartsElsewhere x (leading x bs).1
unfolding leading
leading-StartsElsewhere x [] = tt
leading-StartsElsewhere x (b ∷ bs) = elim (Bool-cases (b == x)) [
  | inl e ↦ rw e (leading-StartsElsewhere x bs)
  | inr e ↦ rw e (λ z. absurd (ground arith))
]

module _ (base : ℕ) (two : 1 < base) where
  nonzero_sum : (d v : ℕ) → v ≢ 0 → d + base * v ≢ 0
  nonzero_sum d v h z = h (omega (arith, z, mul-le-mul_right v two))

  value-snoc : (d : ℕ) (ds : List ℕ) → d ≢ 0 → value base (ds ++ (d ∷ [])) ≢ 0
  unfolding value
  value-snoc d [] h z = h (omega arith)
  value-snoc d (x ∷ ds) h z = nonzero_sum x (value base (ds ++ (d ∷ []))) (value-snoc d ds h) z

  IsTrimmed-snoc : (d : ℕ) (ds : List ℕ) → d ≢ 0 → IsTrimmed base (ds ++ (d ∷ []))
  IsTrimmed-snoc d [] h = (value-snoc d [] h, tt)
  IsTrimmed-snoc d (x ∷ ds) h = (value-snoc d (x ∷ ds) h, IsTrimmed-snoc d ds h)

  snoc-IsTrimmed : (d : ℕ) (ds : List ℕ) → IsTrimmed base (ds ++ (d ∷ [])) → d ≢ 0
  unfolding value
  snoc-IsTrimmed d [] h z = h.0 (omega arith)
  snoc-IsTrimmed d (x ∷ ds) h z = snoc-IsTrimmed d ds h.1 z

  pub reverse-IsTrimmed : (xs : List ℕ) → StartsElsewhere 0 xs → IsTrimmed base (reverse xs)
  reverse-IsTrimmed [] h = tt
  reverse-IsTrimmed (x ∷ xs) h = rw (reverse-cons x xs) (IsTrimmed-snoc x (reverse xs) h)

  pub reverse-StartsElsewhere : (xs : List ℕ) → IsTrimmed base (reverse xs) → StartsElsewhere 0 xs
  reverse-StartsElsewhere [] h = tt
  reverse-StartsElsewhere (x ∷ xs) h =
      snoc-IsTrimmed x (reverse xs) (subst (IsTrimmed base) (reverse-cons x xs) h)

  module _ (factor : ℕ) (one : 0 < factor) where
    pub value-convert :
        (bs ds : List ℕ) → value base (convert base factor ds bs) ≡ horner factor (value base ds) bs
    unfolding convert horner
    value-convert [] ds = refl
    value-convert (b ∷ bs) ds =
        value-convert bs (push_digit base factor ds b)
        ∙ ap (λ v. horner factor v bs) (value-push_digit base two factor one ds b)

    pub convert-AreDigits :
        (bs ds : List ℕ) → AreDigits base ds → AreDigits base (convert base factor ds bs)
    unfolding convert
    convert-AreDigits [] ds h = h
    convert-AreDigits (b ∷ bs) ds h =
        convert-AreDigits bs _ (push_digit-AreDigits base two factor one ds b)

    pub convert-IsTrimmed :
        (bs ds : List ℕ) → IsTrimmed base ds → IsTrimmed base (convert base factor ds bs)
    unfolding convert
    convert-IsTrimmed [] ds h = h
    convert-IsTrimmed (b ∷ bs) ds h =
        convert-IsTrimmed bs _ (push_digit-IsTrimmed base two factor one ds b h)
