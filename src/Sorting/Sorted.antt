-- ===== src/Sorting/Sorted.antt =====
-- What sorting by a comparator that ranks gives: the same elements in order, the greatest last,
-- and one result for all arrangements of the elements.
use mathlib.Core.List.{Perm, Permᴰ, perm_middle}
use mathlib.Core.List.Perm
use mathlib.Core.List.{is_set as List-set}
use mathlib.Core.Logic.{∥∥₁_elim}
use arky_foundation.Common.{
  or_else, ap, append-nil, ◌≡◌, refl, ◌≢◌, List, [], ◌∷◌, ◌++◌, some, Ordering, arith, All, ◌⊎◌,
  inl, inr, ◌∙◌, sym, append-nil, ap, none, ◌↔◌, subst, All-⊥,
}
use arky_foundation.Sorting.{insert_sorted, sort_into, sort, last}
use arky_foundation.Sorting.Comparison.{Ranks}

Ordering-cases : (o : Ordering) → (o ≡ Ordering.lt) ⊎ (o ≢ Ordering.lt)
Ordering-cases Ordering.lt = inl refl
Ordering-cases Ordering.eq = inr (cc)
Ordering-cases Ordering.gt = inr (cc)

module _ {ℓ} {A : Type ℓ} (cmp : A → A → Ordering) where
  -- `a` does not come after `b`.
  abbrev pub AtMost : A → A → Type 0
  AtMost a b = cmp b a ≢ Ordering.lt

  abbrev pub IsSorted : List A → Type 0
  IsSorted [] = Unit
  IsSorted (x ∷ xs) = All (AtMost x) xs × IsSorted xs

  insert-before :
      (x y : A) (ys : List A) → cmp x y ≡ Ordering.lt → insert_sorted cmp x (y ∷ ys) ≡ x ∷ y ∷ ys
  unfolding insert_sorted
  insert-before x y ys h = ground arith

  insert-behind :
      (x y : A) (ys : List A)
      → cmp x y ≢ Ordering.lt
      → insert_sorted cmp x (y ∷ ys) ≡ y ∷ insert_sorted cmp x ys
  unfolding insert_sorted
  insert-behind x y ys h = ground arith

  insert_sorted-perm : (x : A) (ys : List A) → Perm (insert_sorted cmp x ys) (x ∷ ys)
  unfolding insert_sorted
  insert_sorted-perm x [] = Perm.refl _
  insert_sorted-perm x (y ∷ ys) = elim (Ordering-cases (cmp x y)) [
    | inl e ↦ rw (insert-before x y ys e) (Perm.refl _)
    | inr e ↦
        rw (insert-behind x y ys e)
          (Perm.trans (Perm.cons y (insert_sorted-perm x ys)) (Perm.swap x y ys))
  ]

  insert_sorted-All :
      (P : A → Type 0) (x : A) (ys : List A) → P x → All P ys → All P (insert_sorted cmp x ys)
  unfolding insert_sorted
  insert_sorted-All P x [] p h = (p, tt)
  insert_sorted-All P x (y ∷ ys) p h = elim (Ordering-cases (cmp x y)) [
    | inl e ↦ rw (insert-before x y ys e) (p, h)
    | inr e ↦ rw (insert-behind x y ys e) (h.0, insert_sorted-All P x ys p h.1)
  ]

  sort_into-All : (P : A → Type 0) (s xs : List A) → All P s → All P xs → All P (sort_into cmp s xs)
  unfolding sort_into
  sort_into-All P s [] h k = h
  sort_into-All P s (x ∷ xs) h k =
      sort_into-All P (insert_sorted cmp x s) xs (insert_sorted-All P x s k.0 h) k.1

  -- Sorting keeps what holds of every element.
  pub sort-All : (P : A → Type 0) (xs : List A) → All P xs → All P (sort cmp xs)
  unfolding sort
  sort-All P xs h = sort_into-All P [] xs tt h

  sort_into-perm : (s xs : List A) → Perm (sort_into cmp s xs) (xs ++ s)
  unfolding sort_into
  sort_into-perm s [] = Perm.refl _
  sort_into-perm s (x ∷ xs) =
      Perm.trans (sort_into-perm (insert_sorted cmp x s) xs)
        (Perm.trans (Perm.append_left xs (insert_sorted-perm x s)) (perm_middle xs s))

  All-insert_sorted :
      (P : A → Type 0) (x : A) (ys : List A) → All P (insert_sorted cmp x ys) → P x × All P ys
  unfolding insert_sorted
  All-insert_sorted P x [] h = h
  All-insert_sorted P x (y ∷ ys) h = elim (Ordering-cases (cmp x y)) [
    | inl e ↦ rw (insert-before x y ys e) at h
    | inr e ↦
        let h' : P y × All P (insert_sorted cmp x ys) = rw (insert-behind x y ys e) at h in
        let (p, k) = All-insert_sorted P x ys h'.1 in (p, (h'.0, k))
  ]

  All-sort_into : (P : A → Type 0) (s xs : List A) → All P (sort_into cmp s xs) → All P s × All P xs
  unfolding sort_into
  All-sort_into P s [] h = (h, tt)
  All-sort_into P s (x ∷ xs) h =
      let (k, l) = All-sort_into P (insert_sorted cmp x s) xs h in
      let (p, q) = All-insert_sorted P x s k in (q, (p, l))

  -- What holds of every element of the sorted list holds of every element.
  pub All-sort : (P : A → Type 0) (xs : List A) → All P (sort cmp xs) → All P xs
  unfolding sort
  All-sort P xs h = (All-sort_into P [] xs h).1

  last-eq-none : (xs : List A) → last xs ≡ none → xs ≡ []
  unfolding last
  last-eq-none [] h = refl
  last-eq-none (x ∷ []) h = cc
  last-eq-none (x ∷ y ∷ ys) h = absurd (cons-ne (last-eq-none (y ∷ ys) h))
    where
      cons-ne : y ∷ ys ≢ []
      cons-ne = cc

  -- Only the empty list has no last element when sorted.
  pub last-sort-eq-none_iff : (xs : List A) → (last (sort cmp xs) ≡ none) ↔ (xs ≡ [])
  last-sort-eq-none_iff xs = (
    λ h. All-⊥ xs (All-sort (λ x. ⊥) xs (rw (last-eq-none (sort cmp xs) h) tt)),
    λ h. rw h (unfold sort sort_into last in refl),
  )

  pub last-All : (P : A → Type 0) (xs : List A) (z : A) → All P xs → last xs ≡ some z → P z
  unfolding last
  last-All P [] z h e = cc
  last-All P (x ∷ []) z h e = subst P (ap (λ o. or_else o x) e) h.0
  last-All P (x ∷ y ∷ ys) z h e = last-All P (y ∷ ys) z h.1 e

  module _ (P : A → Type 0) (r : Ranks P cmp) where
    AtMost-trans : (a b c : A) → P a → P b → P c → AtMost a b → AtMost b c → AtMost a c
    AtMost-trans a b c p q s h k = ground (
      arith,
      r.flipped a b p q,
      r.flipped b c q s,
      r.flipped a c p s,
      r.lt_trans a b c p q s,
      r.eq_left a b c p q s,
      r.eq_left c b a s q p,
    )

    AtMost-of_lt : (a b : A) → P a → P b → cmp a b ≡ Ordering.lt → AtMost a b
    AtMost-of_lt a b p q h = ground (arith, r.flipped a b p q)

    All-AtMost :
        (a b : A) (xs : List A)
        → P a
        → P b
        → All P xs
        → AtMost a b
        → All (AtMost b) xs
        → All (AtMost a) xs
    All-AtMost a b [] p q h k l = tt
    All-AtMost a b (x ∷ xs) p q h k l =
        (AtMost-trans a b x p q h.0 k l.0, All-AtMost a b xs p q h.1 k l.1)

    insert_sorted-IsSorted :
        (x : A) (ys : List A) → P x → All P ys → IsSorted ys → IsSorted (insert_sorted cmp x ys)
    unfolding insert_sorted
    insert_sorted-IsSorted x [] p h s = (tt, tt)
    insert_sorted-IsSorted x (y ∷ ys) p h s = elim (Ordering-cases (cmp x y)) [
      | inl e ↦
          let le = AtMost-of_lt x y p h.0 e in
          rw (insert-before x y ys e) ((le, All-AtMost x y ys p h.0 h.1 le s.0), s)
      | inr e ↦
          rw (insert-behind x y ys e)
            (insert_sorted-All (AtMost y) x ys e s.0, insert_sorted-IsSorted x ys p h.1 s.1)
    ]

    sort_into-IsSorted :
        (s xs : List A) → All P s → All P xs → IsSorted s → IsSorted (sort_into cmp s xs)
    unfolding sort_into
    sort_into-IsSorted s [] h k o = o
    sort_into-IsSorted s (x ∷ xs) h k o =
        sort_into-IsSorted (insert_sorted cmp x s) xs (insert_sorted-All P x s k.0 h) k.1
          (insert_sorted-IsSorted x s k.0 h o)

    pub sort-IsSorted : (xs : List A) → All P xs → IsSorted (sort cmp xs)
    unfolding sort
    sort-IsSorted xs h = sort_into-IsSorted [] xs tt h tt

    -- No element of a sorted list comes after the last one.
    pub last-AtMost :
        (xs : List A) (z : A)
        → All P xs
        → IsSorted xs
        → last xs ≡ some z
        → P z × All (λ x. AtMost x z) xs
    unfolding last
    last-AtMost [] z h s e = cc
    last-AtMost (x ∷ []) z h s e =
        let same : x ≡ z = ap (λ o. or_else o x) e in
        let self : AtMost x x = ground (arith, r.flipped x x h.0 h.0) in
        rw (← same) (h.0, (self, tt))
    last-AtMost (x ∷ y ∷ ys) z h s e =
        let (p, rest) = last-AtMost (y ∷ ys) z h.1 s.1 e in
        (p, (AtMost-trans x y z h.0 h.1.0 p s.0.0 rest.0, rest))

  pub sort-perm : (xs : List A) → Perm (sort cmp xs) xs
  unfolding sort
  sort-perm xs = rw append-nil at (sort_into-perm [] xs)

-- Where only equal elements rank alike, the order of the input does not matter.
module _ {ℓ} {A : Type ℓ} (cmp : A → A → Ordering) (r : Ranks (λ a. Unit {0}) cmp)
    (exact : (a b : A) → cmp a b ≡ Ordering.eq → a ≡ b) where
  insert-at_front :
      (a b y : A) (ys : List A)
      → cmp a y ≡ Ordering.lt
      → cmp b y ≡ Ordering.lt
      → insert_sorted cmp a (b ∷ y ∷ ys) ≡ insert_sorted cmp b (a ∷ y ∷ ys)
  unfolding insert_sorted
  insert-at_front a b y ys h k = ground (arith, r.flipped a b tt tt, exact a b)

  insert-apart :
      (a b y : A) (ys : List A)
      → cmp a y ≡ Ordering.lt
      → cmp b y ≢ Ordering.lt
      → insert_sorted cmp b (a ∷ y ∷ ys) ≡ a ∷ y ∷ insert_sorted cmp b ys
  unfolding insert_sorted
  insert-apart a b y ys h k = ground (arith, r.lt_trans b a y tt tt tt)

  insert_sorted_comm :
      (a b : A) (ys : List A)
      → insert_sorted cmp a (insert_sorted cmp b ys) ≡ insert_sorted cmp b (insert_sorted cmp a ys)
  insert_sorted_comm a b [] = unfold insert_sorted in ground (arith, r.flipped a b tt tt, exact a b)
  insert_sorted_comm a b (y ∷ ys) = elim (Ordering-cases (cmp a y)) [
    | inl h ↦ elim (Ordering-cases (cmp b y)) [
      | inl k ↦
          rw (insert-before cmp a y ys h, insert-before cmp b y ys k) (insert-at_front a b y ys h k)
      | inr k ↦
          rw
            (
              insert-before cmp a y ys h,
              insert-behind cmp b y ys k,
              insert-before cmp a y (insert_sorted cmp b ys) h,
            )
            (sym (insert-apart a b y ys h k))
    ]
    | inr h ↦ elim (Ordering-cases (cmp b y)) [
      | inl k ↦
          rw
            (
              insert-before cmp b y ys k,
              insert-behind cmp a y ys h,
              insert-before cmp b y (insert_sorted cmp a ys) k,
            )
            (insert-apart b a y ys k h)
      | inr k ↦
          rw
            (
              insert-behind cmp a y ys h,
              insert-behind cmp b y ys k,
              insert-behind cmp a y (insert_sorted cmp b ys) h,
              insert-behind cmp b y (insert_sorted cmp a ys) k,
            )
            (ap (λ zs. y ∷ zs) (insert_sorted_comm a b ys))
    ]
  ]

  sort_into-perm_eq :
      {xs ys : List A} (s : List A) → Permᴰ xs ys → sort_into cmp s xs ≡ sort_into cmp s ys
  unfolding sort_into
  sort_into-perm_eq s Permᴰ.nil = refl
  sort_into-perm_eq s (Permᴰ.cons {a} e p) = rw (← e) (sort_into-perm_eq (insert_sorted cmp a s) p)
  sort_into-perm_eq s (Permᴰ.swap {a} {b} {l} e f) =
      rw (← e, ← f) (ap (λ t. sort_into cmp t l) (insert_sorted_comm b a s))
  sort_into-perm_eq s (Permᴰ.trans p q) = sort_into-perm_eq s p ∙ sort_into-perm_eq s q

  -- All arrangements of a list sort to one list.
  pub sort-perm_eq : {xs ys : List A} → IsSet A → Perm xs ys → sort cmp xs ≡ sort cmp ys
  unfolding sort
  sort-perm_eq set p = ∥∥₁_elim p (List-set set _ _) (sort_into-perm_eq [])
