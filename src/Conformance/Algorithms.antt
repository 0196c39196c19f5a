-- ===== src/Conformance/Algorithms.antt =====
-- scripts/verify-artifacts.ts: the branches of `verifyAlgorithmicVector` on Merkle trees, proofs of
-- inclusion and idempotency keys. Each gives `none` for a vector of another kind.
use arky_foundation.Common.{
  Bool, true, false, ◌&&◌, if◌then◌else◌, List, [], ◌∷◌, ◌++◌, Option, none, some, or_else, Text,
  codes, text_eq, Run, returns, throws, Ordering,
}
use arky_foundation.Platform.{Platform}
use arky_foundation.Sorting.{sort}
use arky_foundation.Json.{Value, bool, num, str, arr, Fields, get_field, items, is_undefined}
use arky_foundation.Tim.Verify.{is_value}
use arky_foundation.Notary.Merkle.{byte_compare, merkle_root, verify_inclusion}
use arky_foundation.Conformance.Toolkit.{Toolkit}
use arky_foundation.Conformance.Key.{hash_of, derived_key}

abbrev pub Checked : Type 0
Checked = Bool × Text

-- `{ ok: detail === '', detail }`
abbrev of_detail : Text → Checked
of_detail detail = (is_text_empty detail, detail)
  where
    is_text_empty : Text → Bool
    is_text_empty [] = true
    is_text_empty (c ∷ s) = false

-- Values that are all texts; `decode` raises on others.
abbrev texts_of : List Value → Option (List Text)
texts_of [] = some []
texts_of (str s ∷ vs) = elim (texts_of vs) [ none ↦ none | some ts ↦ some (s ∷ ts) ]
texts_of (v ∷ vs) = none

-- `arrayEq`, of texts with any values
unfoldable pub array_eq : List Text → List Value → Bool
unfolding text_eq
array_eq [] [] = true
array_eq (t ∷ ts) (v ∷ vs) = is_value t v && array_eq ts vs
array_eq _ _ = false

module _ ⦃platform : Platform⦄ (toolkit : Toolkit) where
  abbrev compare_decoded : Text → Text → Ordering
  compare_decoded a b = byte_compare (or_else (toolkit.decode a) []) (or_else (toolkit.decode b) [])

  abbrev order_detail : List Text → Value → Text
  order_detail cids (arr expected) =
      if array_eq (sort compare_decoded cids) (items expected)
      then []
      else codes "sorted_order mismatch"
  order_detail cids _ = []

  abbrev root_detail : List Text → Text → Text → Value → Checked
  root_detail cids root expected order =
      if text_eq root expected then of_detail (order_detail cids order) else (
        false,
        codes "merkle_root mismatch: computed " ++ (root ++ (codes ", expected " ++ expected)),
      )

  abbrev computed_root : List Value → Option (List Text × Text)
  computed_root vs = elim (texts_of vs) [
    | none ↦ none
    | some cids ↦ elim (merkle_root platform.sha256 toolkit.encode toolkit.decode cids) [
      | none ↦ none
      | some root ↦ some (cids, root)
    ]
  ]

  unfoldable pub check_merkle_root : Fields → Fields → Option (Run Checked)
  unfolding merkle_root byte_compare sort array_eq text_eq get_field
  check_merkle_root inputs expect = elim (get_field (codes "cids") inputs) [
    | arr vs ↦ elim (get_field (codes "merkle_root") expect) [
      | str expected ↦ elim (computed_root (items vs)) [
        | none ↦ some throws
        | some (cids, root) ↦
            some
              (returns (root_detail cids root expected (get_field (codes "sorted_order") expect)))
      ]
      | _ ↦ none
    ]
    | _ ↦ none
  ]

  abbrev bool_text : Bool → Text
  bool_text true = codes "true"
  bool_text false = codes "false"

  abbrev same_bool : Bool → Bool → Bool
  same_bool true b = b
  same_bool false true = false
  same_bool false false = true

  abbrev inclusion_detail : Bool → Bool → Checked
  inclusion_detail valid expected = if same_bool valid expected then (true, []) else (
    false,
    codes "inclusion_valid: computed "
        ++ (bool_text valid ++ (codes ", expected " ++ bool_text expected)),
  )

  -- A root that is no text is not the computed one.
  abbrev included : Text → List Value → Value → Option Bool
  included leaf path root = elim (texts_of path) [
    | none ↦ none
    | some siblings ↦ elim root [
      | str r ↦ verify_inclusion platform.sha256 toolkit.encode toolkit.decode leaf siblings r
      | _ ↦ elim (verify_inclusion platform.sha256 toolkit.encode toolkit.decode leaf siblings []) [
        | none ↦ none
        | some b ↦ some false
      ]
    ]
  ]

  unfoldable pub check_inclusion : Fields → Fields → Option (Run Checked)
  unfolding verify_inclusion get_field
  check_inclusion inputs expect = elim (get_field (codes "leaf") inputs) [
    | str leaf ↦ elim (get_field (codes "path") inputs) [
      | arr path ↦ elim (get_field (codes "inclusion_valid") expect) [
        | bool expected ↦ elim (included leaf (items path) (get_field (codes "root") inputs)) [
          | none ↦ some throws
          | some valid ↦ some (returns (inclusion_detail valid expected))
        ]
        | _ ↦ none
      ]
      | _ ↦ none
    ]
    | _ ↦ none
  ]

  abbrev args_detail : Value → Value → Text
  args_detail args (str expected) =
      if text_eq (hash_of toolkit args) expected
      then []
      else codes "args_hash mismatch: computed " ++ hash_of toolkit args
  args_detail args _ = []

  unfoldable pub check_key : Fields → Fields → Option Checked
  unfolding hash_of derived_key text_eq get_field
  check_key inputs expect =
      let args = get_field (codes "args") inputs in
      elim (get_field (codes "verb_index") inputs) [
        | num index ↦ elim (get_field (codes "idempotency_key") expect) [
          | str expected ↦
              let key =
                derived_key toolkit (get_field (codes "commitment_cid") inputs)
                  (get_field (codes "verb") inputs) (get_field (codes "rail") inputs) args
                  (num index) in
              if is_undefined args
              then none
              else some (
                  of_detail (
                    if text_eq key expected
                    then args_detail args (get_field (codes "args_hash") expect)
                    else codes "idempotency_key mismatch: computed " ++ key))
          | _ ↦ none
        ]
        | _ ↦ none
      ]
