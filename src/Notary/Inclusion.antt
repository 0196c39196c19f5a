-- ===== src/Notary/Inclusion.antt =====
-- scripts/lib/merkle.ts: the order of the identifiers, and proofs of inclusion.
use mathlib.Core.List.{Perm, Memᴰ}
use mathlib.Core.Path.{fun_ext}
use arky_foundation.Common.{
  ℕ, zero, suc, ◌+◌, ◌*◌, ◌≤◌, true, ◌≡◌, refl, ◌≢◌, length, List, [], ◌∷◌, map, Option, some, Text,
  arith, ap, sym, text_eq_refl, All, subst, ◌∙◌, Option-cases, inl, or_else, inr,
}
use arky_foundation.Platform.{Bytes}
use arky_foundation.Sorting.{insert_sorted, sort_into, sort}
use arky_foundation.Sorting.Comparison.{compare_texts, Ranks-compare_texts, compare_texts-eq_iff}
use arky_foundation.Sorting.Sorted.{sort-perm_eq, All-sort}
use arky_foundation.Notary.Merkle.{
  byte_compare, merkle_node, encode_root, next_level, climb, decode_all, root_of, merkle_root,
  fold_path, verify_inclusion,
}

byte_compare-eq : (a b : Bytes) → byte_compare a b ≡ compare_texts a b
unfolding byte_compare compare_texts
byte_compare-eq [] [] = refl
byte_compare-eq [] (b ∷ bs) = refl
byte_compare-eq (a ∷ x) [] = refl
byte_compare-eq (a ∷ x) (b ∷ bs) = rw (byte_compare-eq x bs)

byte_compare-fun : byte_compare ≡ compare_texts
byte_compare-fun = fun_ext λ a. fun_ext λ b. byte_compare-eq a b

-- All arrangements of the leaves sort alike.
sort-leaves : {xs ys : List Bytes} → Perm xs ys → sort byte_compare xs ≡ sort byte_compare ys
sort-leaves p = rw byte_compare-fun (
    sort-perm_eq compare_texts Ranks-compare_texts (λ a b h. (compare_texts-eq_iff a b).0 h)
      (hlevel) p)

length-insert_sorted :
    (x : Bytes) (ys : List Bytes) → length (insert_sorted byte_compare x ys) ≡ 1 + length ys
unfolding insert_sorted
length-insert_sorted x [] = refl
length-insert_sorted x (y ∷ ys) = ground (arith, length-insert_sorted x ys)

length-sort_into : (s xs : List Bytes) → length (sort_into byte_compare s xs) ≡ length xs + length s
unfolding sort_into
length-sort_into s [] = omega arith
length-sort_into s (x ∷ xs) =
    omega (arith, length-sort_into (insert_sorted byte_compare x s) xs, length-insert_sorted x s)

length-sort : (xs : List Bytes) → length (sort byte_compare xs) ≡ length xs
unfolding sort
length-sort xs = omega (arith, length-sort_into [] xs)

sort-ne : (x : Bytes) (xs : List Bytes) → sort byte_compare (x ∷ xs) ≢ []
sort-ne x xs e = absurd (omega (arith, length-sort (x ∷ xs), ap length e))

module _ (sha256 : Bytes → Bytes) where
  -- The order of two children does not matter.
  merkle_node_comm : (a b : Bytes) → merkle_node sha256 a b ≡ merkle_node sha256 b a
  unfolding merkle_node
  merkle_node_comm a b = ground (
    arith,
    byte_compare-eq a b,
    byte_compare-eq b a,
    compare_texts-eq_iff a b,
    Ranks-compare_texts.flipped a b tt tt,
  )

  length-next_level : (level : List Bytes) → 2 * length (next_level sha256 level) ≤ length level + 1
  unfolding next_level
  length-next_level [] = omega arith
  length-next_level (x ∷ []) = omega arith
  length-next_level (x ∷ y ∷ rest) = omega (arith, length-next_level rest)

  next_level-ne : (x : Bytes) (level : List Bytes) → next_level sha256 (x ∷ level) ≢ []
  unfolding next_level
  next_level-ne x [] = cc
  next_level-ne x (y ∷ rest) = cc

  -- As many rounds as there are nodes suffice.
  climb_total :
      (fuel : ℕ) (level : List Bytes)
      → length level ≤ fuel
      → level ≢ []
      → (root : Bytes) × (climb sha256 fuel level ≡ some root)
  unfolding climb
  climb_total fuel [] h k = absurd (k refl)
  climb_total fuel (x ∷ []) h k = (x, refl)
  climb_total zero (x ∷ y ∷ rest) h k = absurd (omega arith)
  climb_total (suc fuel) (x ∷ y ∷ rest) h k =
      climb_total fuel (next_level sha256 (x ∷ y ∷ rest))
        (omega (arith, length-next_level (x ∷ y ∷ rest))) (next_level-ne x (y ∷ rest))

  same_root :
      {n m : ℕ} {level other : List Bytes} {root : Bytes}
      → n ≡ m
      → level ≡ other
      → climb sha256 n level ≡ some root
      → climb sha256 m other ≡ some root
  same_root p q r = rw (sym p, sym q) r

  -- The root of the tree does not depend on the order in which the identifiers are given, and a set
  -- that is not empty has one.
  pub root_of-perm :
      (x : Bytes) (xs ys : List Bytes)
      → Perm (x ∷ xs) ys
      → (root : Bytes) × (root_of sha256 (x ∷ xs) ≡ some root) × (root_of sha256 ys ≡ some root)
  unfolding root_of
  root_of-perm x xs ys p =
      let e = sort-leaves p in
      let n : length (x ∷ xs) ≡ length ys =
        omega (arith, length-sort (x ∷ xs), length-sort ys, ap length e) in
      let (root, q) =
        climb_total (length (x ∷ xs)) (sort byte_compare (x ∷ xs))
          (omega (arith, length-sort (x ∷ xs))) (sort-ne x xs) in
      (root, q, same_root n e q)

  -- A node of a level has a sibling: their parent stands one level up.
  sibling :
      {x : Bytes} (level : List Bytes)
      → Memᴰ x level
      → (y : Bytes) × Memᴰ (merkle_node sha256 x y) (next_level sha256 level)
  unfolding next_level
  sibling [] m = elim m [ ]
  sibling (a ∷ []) (Memᴰ.head e) = (a, Memᴰ.head (ap (λ z. merkle_node sha256 z a) e))
  sibling (a ∷ []) (Memᴰ.tail m) = elim m [ ]
  sibling (a ∷ b ∷ rest) (Memᴰ.head e) = (b, Memᴰ.head (ap (λ z. merkle_node sha256 z b) e))
  sibling (a ∷ b ∷ rest) (Memᴰ.tail (Memᴰ.head e)) =
      (a, Memᴰ.head (ap (λ z. merkle_node sha256 z a) e ∙ merkle_node_comm b a))
  sibling (a ∷ b ∷ rest) (Memᴰ.tail (Memᴰ.tail m)) = let (y, k) = sibling rest m in (y, Memᴰ.tail k)

  fold_nodes : Bytes → List Bytes → Bytes
  fold_nodes x [] = x
  fold_nodes x (y ∷ ys) = fold_nodes (merkle_node sha256 x y) ys

  climb-fold_nodes :
      (fuel : ℕ) (level : List Bytes) (x : Bytes) {root : Bytes}
      → Memᴰ x level
      → climb sha256 fuel level ≡ some root
      → (ys : List Bytes) × (fold_nodes x ys ≡ root)
  unfolding climb fold_nodes
  climb-fold_nodes fuel [] x m e = elim m [ ]
  climb-fold_nodes fuel (a ∷ []) x (Memᴰ.head p) e = ([], p ∙ ap (λ o. or_else o a) e)
  climb-fold_nodes fuel (a ∷ []) x (Memᴰ.tail m) e = elim m [ ]
  climb-fold_nodes zero (a ∷ b ∷ rest) x m e = cc
  climb-fold_nodes (suc fuel) (a ∷ b ∷ rest) x m e =
      let (y, k) = sibling (a ∷ b ∷ rest) m in
      let (ys, q) =
        climb-fold_nodes fuel (next_level sha256 (a ∷ b ∷ rest)) (merkle_node sha256 x y) k e in
      (y ∷ ys, q)

All-self : (xs ys : List Bytes) → ((x : Bytes) → Memᴰ x xs → Memᴰ x ys) → All (λ x. Memᴰ x ys) xs
All-self [] ys h = tt
All-self (x ∷ xs) ys h = (h x (Memᴰ.head refl), All-self xs ys (λ y m. h y (Memᴰ.tail m)))

All-at : (P : Bytes → Type 0) {x : Bytes} (xs : List Bytes) → All P xs → Memᴰ x xs → P x
All-at P [] h m = elim m [ ]
All-at P (y ∷ ys) h (Memᴰ.head e) = subst P (sym e) h.0
All-at P (y ∷ ys) h (Memᴰ.tail m) = All-at P ys h.1 m

Mem-sort : {x : Bytes} (xs : List Bytes) → Memᴰ x xs → Memᴰ x (sort byte_compare xs)
Mem-sort xs m =
    All-at (λ y. Memᴰ y (sort byte_compare xs)) xs
      (All-sort byte_compare (λ y. Memᴰ y (sort byte_compare xs)) xs
        (All-self (sort byte_compare xs) (sort byte_compare xs) (λ y k. k)))
      m

module _ (sha256 : Bytes → Bytes) (encode : Bytes → Text) (decode : Text → Option Bytes) where
  found :
      {c d : Text} (cs : List Text) {xs : List Bytes} (bs : List Bytes) (b : Bytes)
      → decode_all sha256 encode decode cs ≡ some bs
      → decode d ≡ some b
      → xs ≡ b ∷ bs
      → (Memᴰ c cs → (x : Bytes) × (decode c ≡ some x) × Memᴰ x bs)
      → Memᴰ c (d ∷ cs)
      → (x : Bytes) × (decode c ≡ some x) × Memᴰ x xs
  found cs bs b q p r ih (Memᴰ.head e) = (b, rw e p, rw r (Memᴰ.head refl))
  found cs bs b q p r ih (Memᴰ.tail k) = let (x, g, h) = ih k in (x, g, rw r (Memᴰ.tail h))

  Mem-decode_all :
      {c : Text} (cs : List Text) {xs : List Bytes}
      → Memᴰ c cs
      → decode_all sha256 encode decode cs ≡ some xs
      → (x : Bytes) × (decode c ≡ some x) × Memᴰ x xs
  unfolding decode_all
  Mem-decode_all [] m e = elim m [ ]
  Mem-decode_all (d ∷ cs) m e = elim (Option-cases (decode d)) [
    | inl p ↦ ground arith
    | inr (b, p) ↦ elim (Option-cases (decode_all sha256 encode decode cs)) [
      | inl q ↦ ground arith
      | inr (bs, q) ↦ found cs bs b q p (ground arith) (λ k. Mem-decode_all cs k q) m
    ]
  ]

  -- What folds over decoded siblings folds over their identifiers.
  fold_path-map :
      ((b : Bytes) → decode (encode b) ≡ some b)
      → (x : Bytes) (ys : List Bytes)
      → fold_path sha256 encode decode x (map encode ys) ≡ some (fold_nodes sha256 x ys)
  unfolding fold_path fold_nodes
  fold_path-map codec x [] = refl
  fold_path-map codec x (y ∷ ys) = rw (codec y) (fold_path-map codec (merkle_node sha256 x y) ys)

  path_to :
      ((b : Bytes) → decode (encode b) ≡ some b)
      → (x : Bytes) (leaf root : Text) (bs : List Bytes) (top : Bytes) → decode leaf ≡ some x
      → Memᴰ x (sort byte_compare bs)
      → root_of sha256 bs ≡ some top
      → encode_root sha256 encode decode top ≡ root
      → (path : List Text) × (verify_inclusion sha256 encode decode leaf path root ≡ some true)
  unfolding root_of verify_inclusion
  path_to codec x leaf root bs top g k q r =
      let (ys, f) = climb-fold_nodes sha256 (length bs) (sort byte_compare bs) x k q in
      (
        map encode ys,
        rw (verify_inclusion, g, fold_path-map codec x ys, f, r) (ap some (text_eq_refl root)),
      )

  -- Every identifier of the set has a path for which the proof of inclusion verifies against the
  -- root, if the multibase encoding of the siblings decodes to them.
  pub verify_inclusion-merkle_root :
      ((b : Bytes) → decode (encode b) ≡ some b)
      → (cids : List Text) (leaf root : Text) → Memᴰ leaf cids
      → merkle_root sha256 encode decode cids ≡ some root
      → (path : List Text) × (verify_inclusion sha256 encode decode leaf path root ≡ some true)
  unfolding merkle_root verify_inclusion
  verify_inclusion-merkle_root codec cids leaf root m e =
      elim (Option-cases (decode_all sha256 encode decode cids)) [
        | inl p ↦ ground arith
        | inr (bs, p) ↦ elim (Option-cases (root_of sha256 bs)) [
          | inl q ↦ ground arith
          | inr (top, q) ↦
              let (x, g, k) = Mem-decode_all cids m p in
              path_to codec x leaf root bs top g (Mem-sort bs k) q (ground arith)
        ]
      ]
