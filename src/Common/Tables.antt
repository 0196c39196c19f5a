-- ===== src/Common/Tables.antt =====
-- Tests on all numbers below a bound, and what a conjunction of tests says.
use Prim.Native.Nat.{ℕ, zero, suc, ◌<◌}
use mathlib.Core.Path.{◌≡◌, refl, ap}
use mathlib.Core.Logic.{◌⊎◌, inl, inr}
use mathlib.Core.Bool.{Bool, true, false, not, ◌&&◌, ◌||◌}
use mathlib.Core.Option.{Option, none, some}
use mathlib.Core.List.{List, [], ◌∷◌, reverse, reverse-cons}
use native.Mathlib.Omega.{arith}
use arky_foundation.Common.Tests.{◌==◌, ==_iff}
use arky_foundation.Common.Lists.{All, All-append}

pub and_left : (a b : Bool) → a && b ≡ true → a ≡ true
and_left true b h = refl
and_left false b h = absurd (ground arith)

pub and_right : (a b : Bool) → a && b ≡ true → b ≡ true
and_right true b h = h
and_right false b h = absurd (ground arith)

pub not_true : (a : Bool) → not a ≡ true → a ≡ false
not_true false h = refl
not_true true h = absurd (ground arith)

pub or_true : (a b : Bool) → a || b ≡ true → (a ≡ true) ⊎ (b ≡ true)
or_true true b h = inl refl
or_true false b h = inr h

pub or_false : (a b : Bool) → a || b ≡ false → (a ≡ false) × (b ≡ false)
or_false true b h = absurd (ground arith)
or_false false b h = (refl, h)

lt_or_eq : (n k : ℕ) → n < suc k → (n < k) ⊎ (n ≡ k)
lt_or_eq n k h = ground arith

-- A test on the numbers below a bound, by evaluation.
unfoldable pub all_below : ℕ → (ℕ → Bool) → Bool
all_below zero p = true
all_below (suc k) p = p k && all_below k p

pub below-all_below : (k : ℕ) (p : ℕ → Bool) (n : ℕ) → all_below k p ≡ true → n < k → p n ≡ true
unfolding all_below
below-all_below zero p n h l = absurd (omega arith)
below-all_below (suc k) p n h l = elim (lt_or_eq n k l) [
  | inl m ↦ below-all_below k p n (and_right (p k) _ h) m
  | inr e ↦ rw e (and_left (p k) _ h)
]

pub All-reverse : {A : Type 0} (P : A → Type 0) (xs : List A) → All P xs → All P (reverse xs)
All-reverse P [] h = tt
All-reverse P (x ∷ xs) h =
    rw (reverse-cons x xs) (All-append P (reverse xs) (x ∷ []) (All-reverse P xs h.1) (h.0, tt))

-- `o` is the number `n`.
abbrev pub is_some_of : ℕ → Option ℕ → Bool
is_some_of n none = false
is_some_of n (some m) = m == n

pub eq_of_is_some_of : (n : ℕ) (o : Option ℕ) → is_some_of n o ≡ true → o ≡ some n
eq_of_is_some_of n none h = absurd (ground arith)
eq_of_is_some_of n (some m) h = ap some ((==_iff m n).0 h)
