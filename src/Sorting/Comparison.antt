-- ===== src/Sorting/Comparison.antt =====
-- Comparators that rank their arguments: by texts, by numbers, and one after another.
use arky_foundation.Common.{
  ◌≡◌, refl, true, false, [], ◌∷◌, Text, Ordering, compare, arith, text_lt, if◌then◌else◌, ◌↔◌,
}
use arky_foundation.Number.{Number, nan, infinity, finite, num_lt, is_nan}

abbrev pub flip : Ordering → Ordering
flip Ordering.lt = Ordering.gt
flip Ordering.eq = Ordering.eq
flip Ordering.gt = Ordering.lt

-- the second comparison, where the first finds no difference
abbrev pub followed_by : Ordering → Ordering → Ordering
followed_by Ordering.lt p = Ordering.lt
followed_by Ordering.eq p = p
followed_by Ordering.gt p = Ordering.gt

-- `cmp` ranks the values at which `P` holds.
pub record Ranks {ℓ} {A : Type ℓ} (P : A → Type 0) (cmp : A → A → Ordering) : Type ℓ where
  pub flipped : (a b : A) → P a → P b → cmp b a ≡ flip (cmp a b)
  pub lt_trans :
      (a b c : A)
      → P a
      → P b
      → P c
      → cmp a b ≡ Ordering.lt
      → cmp b c ≡ Ordering.lt
      → cmp a c ≡ Ordering.lt
  pub eq_left : (a b c : A) → P a → P b → P c → cmp a b ≡ Ordering.eq → cmp a c ≡ cmp b c

-- ranking by a key
pub Ranks-by {ℓ κ} :
    {A : Type ℓ} {B : Type κ} (P : A → Type 0) (Q : B → Type 0) (cmp : B → B → Ordering)
    (key : A → B)
    → ((a : A) → P a → Q (key a))
    → Ranks Q cmp
    → Ranks P (λ a b. cmp (key a) (key b))
Ranks-by P Q cmp key h r = record {
  flipped = λ a b p q. r.flipped (key a) (key b) (h a p) (h b q);
  lt_trans = λ a b c p q s. r.lt_trans (key a) (key b) (key c) (h a p) (h b q) (h c s);
  eq_left = λ a b c p q s. r.eq_left (key a) (key b) (key c) (h a p) (h b q) (h c s);
}

module _ {ℓ} {A : Type ℓ} (P : A → Type 0) (f g : A → A → Ordering) (r : Ranks P f)
    (s : Ranks P g) where
  lex_flipped :
      (a b : A) → P a → P b → followed_by (f b a) (g b a) ≡ flip (followed_by (f a b) (g a b))
  lex_flipped a b p q = ground (arith, r.flipped a b p q, s.flipped a b p q)

  lex_lt_trans :
      (a b c : A)
      → P a
      → P b
      → P c
      → followed_by (f a b) (g a b) ≡ Ordering.lt
      → followed_by (f b c) (g b c) ≡ Ordering.lt
      → followed_by (f a c) (g a c) ≡ Ordering.lt
  lex_lt_trans a b c p q t h k = ground (
    arith,
    r.lt_trans a b c p q t,
    s.lt_trans a b c p q t,
    r.eq_left a b c p q t,
    r.eq_left c b a t q p,
    r.flipped a b p q,
    r.flipped b c q t,
    r.flipped a c p t,
  )

  lex_eq_left :
      (a b c : A)
      → P a
      → P b
      → P c
      → followed_by (f a b) (g a b) ≡ Ordering.eq
      → followed_by (f a c) (g a c) ≡ followed_by (f b c) (g b c)
  lex_eq_left a b c p q t h = ground (arith, r.eq_left a b c p q t, s.eq_left a b c p q t)

  pub Ranks-followed_by : Ranks P (λ a b. followed_by (f a b) (g a b))
  Ranks-followed_by = record {
    flipped = lex_flipped;
    lt_trans = lex_lt_trans;
    eq_left = lex_eq_left;
  }

unfoldable pub compare_texts : Text → Text → Ordering
compare_texts [] [] = Ordering.eq
compare_texts [] (b ∷ t) = Ordering.lt
compare_texts (a ∷ s) [] = Ordering.gt
compare_texts (a ∷ s) (b ∷ t) = followed_by (compare a b) (compare_texts s t)

pub text_lt_iff : (s t : Text) → (text_lt s t ≡ true) ↔ (compare_texts s t ≡ Ordering.lt)
unfolding text_lt compare_texts
text_lt_iff [] [] = ground arith
text_lt_iff [] (b ∷ t) = ground arith
text_lt_iff (a ∷ s) [] = ground arith
text_lt_iff (a ∷ s) (b ∷ t) = ground (arith, text_lt_iff s t)

pub compare_texts-eq_iff : (s t : Text) → (compare_texts s t ≡ Ordering.eq) ↔ (s ≡ t)
unfolding compare_texts
compare_texts-eq_iff [] [] = ground arith
compare_texts-eq_iff [] (b ∷ t) = ground arith
compare_texts-eq_iff (a ∷ s) [] = ground arith
compare_texts-eq_iff (a ∷ s) (b ∷ t) = ground (arith, compare_texts-eq_iff s t)

texts_flipped : (s t : Text) → compare_texts t s ≡ flip (compare_texts s t)
unfolding compare_texts
texts_flipped [] [] = refl
texts_flipped [] (b ∷ t) = refl
texts_flipped (a ∷ s) [] = refl
texts_flipped (a ∷ s) (b ∷ t) = ground (arith, texts_flipped s t)

texts_lt_trans :
    (s t u : Text)
    → compare_texts s t ≡ Ordering.lt
    → compare_texts t u ≡ Ordering.lt
    → compare_texts s u ≡ Ordering.lt
unfolding compare_texts
texts_lt_trans [] [] u h k = cc
texts_lt_trans s t [] h k = ground arith
texts_lt_trans [] (b ∷ t) (c ∷ u) h k = refl
texts_lt_trans (a ∷ s) [] (c ∷ u) h k = cc
texts_lt_trans (a ∷ s) (b ∷ t) (c ∷ u) h k = ground (arith, texts_lt_trans s t u)

texts_eq_left :
    (s t u : Text) → compare_texts s t ≡ Ordering.eq → compare_texts s u ≡ compare_texts t u
texts_eq_left s t u h = rw ((compare_texts-eq_iff s t).0 h)

-- Texts are ranked by code units, and no two texts alike.
pub Ranks-compare_texts : Ranks (λ s. Unit {0}) compare_texts
Ranks-compare_texts = record {
  flipped = λ a b p q. texts_flipped a b;
  lt_trans = λ a b c p q r. texts_lt_trans a b c;
  eq_left = λ a b c p q r. texts_eq_left a b c;
}

-- numbers by `<`
unfoldable pub compare_numbers : Number → Number → Ordering
compare_numbers a b =
    if num_lt a b then Ordering.lt else if num_lt b a then Ordering.gt else Ordering.eq

abbrev pub IsNumber : Number → Type 0
IsNumber a = is_nan a ≡ false

numbers_flipped : (a b : Number) → compare_numbers b a ≡ flip (compare_numbers a b)
unfolding compare_numbers num_lt
numbers_flipped nan nan = refl
numbers_flipped (finite n s e) (finite m t f) = ground arith
numbers_flipped a b = ground arith

numbers_lt_trans :
    (a b c : Number)
    → compare_numbers a b ≡ Ordering.lt
    → compare_numbers b c ≡ Ordering.lt
    → compare_numbers a c ≡ Ordering.lt
unfolding compare_numbers num_lt
numbers_lt_trans nan b c h k = ground arith
numbers_lt_trans (infinity n) b c h k = ground arith
numbers_lt_trans (finite n s e) (finite m t f) (finite l u g) h k = ground arith
numbers_lt_trans (finite n s e) b c h k = ground arith

numbers_eq_left :
    (a b c : Number)
    → IsNumber a
    → IsNumber b
    → IsNumber c
    → compare_numbers a b ≡ Ordering.eq
    → compare_numbers a c ≡ compare_numbers b c
unfolding compare_numbers num_lt
numbers_eq_left nan b c p q r h = ground arith
numbers_eq_left (infinity n) b c p q r h = ground arith
numbers_eq_left (finite n s e) (finite m t f) (finite l u g) p q r h = ground arith
numbers_eq_left (finite n s e) b c p q r h = ground arith

-- Numbers other than NaN are ranked; 0 and -0 are alike.
pub Ranks-compare_numbers : Ranks IsNumber compare_numbers
Ranks-compare_numbers = record {
  flipped = λ a b p q. numbers_flipped a b;
  lt_trans = λ a b c p q r. numbers_lt_trans a b c;
  eq_left = numbers_eq_left;
}
