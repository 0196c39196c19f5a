-- ===== src/Sorting.antt =====
-- The language's `Array.prototype.sort` with a comparator, given as the sign of what it returns.
pub mod Comparison
pub mod Sorted
use arky_foundation.Common.{Bool, List, [], ◌∷◌, Option, none, some, Ordering}

-- `xs.sort(cmp)`, which is stable: each element in turn goes behind all that are not greater.
module _ {ℓ} {A : Type ℓ} (cmp : A → A → Ordering) where
  unfoldable pub insert_sorted : A → List A → List A
  insert_sorted x [] = x ∷ []
  insert_sorted x (y ∷ ys) =
      let later = y ∷ insert_sorted x ys in elim (cmp x y) [ Ordering.lt ↦ x ∷ y ∷ ys | _ ↦ later ]

  unfoldable pub sort_into : List A → List A → List A
  unfolding insert_sorted
  sort_into sorted [] = sorted
  sort_into sorted (x ∷ xs) = sort_into (insert_sorted x sorted) xs

  unfoldable pub sort : List A → List A
  unfolding sort_into
  sort xs = sort_into [] xs

-- `xs[xs.length - 1]`
unfoldable pub last {ℓ} : {A : Type ℓ} → List A → Option A
last [] = none
last (x ∷ []) = some x
last (x ∷ y ∷ ys) = last (y ∷ ys)
