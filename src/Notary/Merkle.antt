-- ===== src/Notary/Merkle.antt =====
-- scripts/lib/merkle.ts: the Merkle tree over content identifiers.
use arky_foundation.Common.{
  ℕ, zero, suc, Bool, length, List, [], ◌∷◌, ◌++◌, Option, none, some, Text, text_eq, Ordering,
  compare,
}
use arky_foundation.Sorting.{sort}
use arky_foundation.Sorting.Comparison.{followed_by}
use arky_foundation.Platform.{Bytes}

-- the sign of `byteCompare(a, b)`
unfoldable pub byte_compare : Bytes → Bytes → Ordering
byte_compare [] [] = Ordering.eq
byte_compare [] (b ∷ bs) = Ordering.lt
byte_compare (a ∷ as') [] = Ordering.gt
byte_compare (a ∷ as') (b ∷ bs) = followed_by (compare a b) (byte_compare as' bs)

module _ (sha256 : Bytes → Bytes) where
  unfoldable pub merkle_node : Bytes → Bytes → Bytes
  merkle_node left right = elim (byte_compare left right) [
    | Ordering.gt ↦ sha256 (right ++ left)
    | _ ↦ sha256 (left ++ right)
  ]

  -- one level up; the last node of an odd level is paired with itself
  unfoldable pub next_level : List Bytes → List Bytes
  unfolding merkle_node
  next_level [] = []
  next_level (x ∷ []) = merkle_node x x ∷ []
  next_level (x ∷ y ∷ rest) = merkle_node x y ∷ next_level rest

  -- `while (level.length > 1)`, on fuel
  unfoldable pub climb : ℕ → List Bytes → Option Bytes
  unfolding next_level
  climb fuel [] = none
  climb fuel (x ∷ []) = some x
  climb zero (x ∷ y ∷ rest) = none
  climb (suc fuel) (x ∷ y ∷ rest) = climb fuel (next_level (x ∷ y ∷ rest))

  -- the tree over decoded identifiers; an empty set is an error
  unfoldable pub root_of : List Bytes → Option Bytes
  root_of leaves = climb (length leaves) (sort byte_compare leaves)

-- SHA-256, and `encode` and `decode` of multiformats' base58btc; `decode` is none where it raises.
module _ (sha256 : Bytes → Bytes) (encode : Bytes → Text) (decode : Text → Option Bytes) where
  unfoldable pub encode_root : Bytes → Text
  encode_root bytes = encode (0x12 ∷ 0x20 ∷ bytes)

  unfoldable pub decode_all : List Text → Option (List Bytes)
  decode_all [] = some []
  decode_all (c ∷ cs) = elim (decode c) [
    | none ↦ none
    | some b ↦ elim (decode_all cs) [ none ↦ none | some bs ↦ some (b ∷ bs) ]
  ]

  unfoldable pub merkle_root : List Text → Option Text
  unfolding decode_all root_of climb encode_root sort byte_compare
  merkle_root cids = elim (decode_all cids) [
    | none ↦ none
    | some leaves ↦ elim (root_of sha256 leaves) [
      | none ↦ none
      | some root ↦ some (encode_root root)
    ]
  ]

  unfoldable pub fold_path : Bytes → List Text → Option Bytes
  fold_path current [] = some current
  fold_path current (sibling ∷ path) = elim (decode sibling) [
    | none ↦ none
    | some s ↦ fold_path (merkle_node sha256 current s) path
  ]

  -- `none` where an identifier does not decode
  unfoldable pub verify_inclusion : Text → List Text → Text → Option Bool
  unfolding fold_path encode_root text_eq
  verify_inclusion leaf path root = elim (decode leaf) [
    | none ↦ none
    | some start ↦ elim (fold_path start path) [
      | none ↦ none
      | some current ↦ some (text_eq (encode_root current) root)
    ]
  ]
