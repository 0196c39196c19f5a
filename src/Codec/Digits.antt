-- ===== src/Codec/Digits.antt =====
-- packages/core/src/cid.ts: the number that the digits of base58 or of bytes stand for, least
-- significant first, and what the loops do with it.
use native.Mathlib.Nat.{
  mod-lt, div-add-mod, div-lt_self, mul_left_comm, mul-add, mul_comm, add-mul-mod_self_left,
  mod-eq_of_lt, le_refl, mul-le-mul_right, eq_of_mul-eq-mul_left,
}
use arky_foundation.Common.{
  ℕ, zero, suc, ◌+◌, ◌*◌, ◌/◌, ◌%◌, ◌<◌, ◌≤◌, ◌==◌, List, [], ◌∷◌, All, ◌≡◌, ◌≢◌, refl, ap, ap₂,
  sym, ◌∙◌, inl, inr, false, Bool-cases, ==_iff, arith,
}
use arky_foundation.Codec.Base58.{flush, push_digit}

unfoldable pub value : ℕ → List ℕ → ℕ
value base [] = 0
value base (d ∷ ds) = d + base * value base ds

-- No digit at the end is zero: no suffix stands for 0.
abbrev pub IsTrimmed : ℕ → List ℕ → Type 0
IsTrimmed base [] = Unit
IsTrimmed base (d ∷ ds) = (value base (d ∷ ds) ≢ 0) × IsTrimmed base ds

abbrev pub AreDigits : ℕ → List ℕ → Type 0
AreDigits base ds = All (λ d. d < base) ds

module _ (base : ℕ) (two : 1 < base) where
  split : (d e v w : ℕ) → d < base → e < base → d + base * v ≡ e + base * w → (d ≡ e) × (v ≡ w)
  split d e v w p q h =
      let a : d ≡ e =
        sym (mod-eq_of_lt p)
        ∙ sym (add-mul-mod_self_left d base v)
        ∙ ap (λ (x : ℕ). x % base) h
        ∙ add-mul-mod_self_left e base w
        ∙ mod-eq_of_lt q in
      (a, eq_of_mul-eq-mul_left base (omega arith) v w (omega (arith, a, h)))

  digit_sum : (carry v : ℕ) → v ≡ carry / base → carry % base + base * v ≡ carry
  digit_sum carry v h = rw h (omega (arith, div-add-mod carry base))

  carry_le : (f carry : ℕ) → carry ≤ suc f → carry == 0 ≡ false → carry / base ≤ f
  carry_le f carry h e = omega (arith, div-lt_self {n = carry} {k = base} (ground arith) two)

  -- Digits are determined by the number.
  pub value-injective :
      (ds es : List ℕ)
      → AreDigits base ds
      → AreDigits base es
      → IsTrimmed base ds
      → IsTrimmed base es
      → value base ds ≡ value base es
      → ds ≡ es
  unfolding value
  value-injective [] [] p q s t h = refl
  value-injective [] (e ∷ es) p q s t h = absurd (t.0 (sym h))
  value-injective (d ∷ ds) [] p q s t h = absurd (s.0 h)
  value-injective (d ∷ ds) (e ∷ es) p q s t h =
      let (a, b) = split d e (value base ds) (value base es) p.0 q.0 h in
      ap₂ (λ x xs. x ∷ xs) a (value-injective ds es p.1 q.1 s.1 t.1 b)

  value-flush : (f carry : ℕ) → carry ≤ f → value base (flush base f carry) ≡ carry
  unfolding value flush
  value-flush zero carry h = omega arith
  value-flush (suc f) carry h = elim (Bool-cases (carry == 0)) [
    | inl e ↦ rw (e, value) (sym ((==_iff carry 0).0 e))
    | inr e ↦
        rw (e, value) (digit_sum carry _ (value-flush f (carry / base) (carry_le f carry h e)))
  ]

  flush-AreDigits : (f carry : ℕ) → AreDigits base (flush base f carry)
  unfolding flush
  flush-AreDigits zero carry = tt
  flush-AreDigits (suc f) carry = elim (Bool-cases (carry == 0)) [
    | inl e ↦ rw e tt
    | inr e ↦ rw e (mod-lt carry (omega arith), flush-AreDigits f (carry / base))
  ]

  flush-IsTrimmed : (f carry : ℕ) → carry ≤ f → IsTrimmed base (flush base f carry)
  unfolding flush value
  flush-IsTrimmed zero carry h = tt
  flush-IsTrimmed (suc f) carry h = elim (Bool-cases (carry == 0)) [
    | inl e ↦ rw e tt
    | inr e ↦
        let below = carry_le f carry h e in
        rw e (
          λ z.
              let nonzero : carry ≢ 0 = ground arith in
              nonzero (sym (digit_sum carry _ (value-flush f (carry / base) below)) ∙ z),
          flush-IsTrimmed f (carry / base) below,
        )
  ]

  module _ (factor : ℕ) (one : 0 < factor) where
    pub value-push_digit :
        (ds : List ℕ) (carry : ℕ)
        → value base (push_digit base factor ds carry) ≡ carry + factor * value base ds
    unfolding value push_digit
    value-push_digit [] carry = value-flush carry carry (le_refl carry) ∙ omega arith
    value-push_digit (d ∷ ds) carry =
        let next = (carry + d * factor) / base in
        rw (value-push_digit ds next) (
          omega (
            arith,
            mul-add base next (factor * value base ds),
            div-add-mod (carry + d * factor) base,
            mul-add factor d (base * value base ds),
            mul_left_comm base factor (value base ds),
            mul_comm d factor,
          ))

    pub push_digit-AreDigits :
        (ds : List ℕ) (carry : ℕ) → AreDigits base (push_digit base factor ds carry)
    unfolding push_digit
    push_digit-AreDigits [] carry = flush-AreDigits carry carry
    push_digit-AreDigits (d ∷ ds) carry =
        (mod-lt _ (omega arith), push_digit-AreDigits ds ((carry + d * factor) / base))

    pub push_digit-IsTrimmed :
        (ds : List ℕ) (carry : ℕ)
        → IsTrimmed base ds
        → IsTrimmed base (push_digit base factor ds carry)
    unfolding push_digit
    push_digit-IsTrimmed [] carry t = flush-IsTrimmed carry carry (le_refl carry)
    push_digit-IsTrimmed (d ∷ ds) carry t = (
      λ z. t.0 (
          omega (
            arith,
            sym (value-push_digit (d ∷ ds) carry) ∙ z,
            mul-le-mul_right (value base (d ∷ ds)) one,
          )),
      push_digit-IsTrimmed ds ((carry + d * factor) / base) t.1,
    )
