-- ===== src/Json/Ordered.antt =====
-- packages/core/src/canonicalize.ts: a value with the members of its objects in canonical order.
use arky_foundation.Common.{
  Text, codes, text_eq, false, ◌≡◌, ◌≢◌, refl, sym, ◌⊎◌, inl, inr, arith, Ordering, some,
}
use arky_foundation.Sorting.Comparison.{compare_texts, compare_texts-eq_iff, Ranks-compare_texts}
use arky_foundation.Engine.{Engine}
use arky_foundation.Platform.{Platform}
use arky_foundation.Json.Values.{
  Value, undefined, null, bool, num, str, arr, obj, Items, nil, cons, Fields, end, field,
}
use arky_foundation.Json.Canonical.{serialize_number}
use arky_foundation.Json.Grammar.{IsRead, IsNumeral}
use arky_foundation.Json.Order.{
  Similar, same, elements, members, SimilarItems, none_left, element, SimilarFields, no_member,
  member, exchange, chain,
}
use arky_foundation.Json.Members.{Names, Fresh}

unfoldable pub insert_field : Text → Value → Fields → Fields
insert_field k v end = field k v end
insert_field k v (field j w fs) =
    let later = field j w (insert_field k v fs) in
    elim (compare_texts k j) [ Ordering.lt ↦ field k v (field j w fs) | _ ↦ later ]

-- The value with the members of its objects in the order of their names, at every depth.
unfoldable mutual
  pub ordered : Value → Value
  ordered (arr vs) = arr (ordered_items vs)
  ordered (obj fs) = obj (ordered_fields fs)
  ordered v = v

  pub ordered_items : Items → Items
  ordered_items nil = nil
  ordered_items (cons v vs) = cons (ordered v) (ordered_items vs)

  pub ordered_fields : Fields → Fields
  ordered_fields end = end
  ordered_fields (field k v fs) = insert_field k (ordered v) (ordered_fields fs)

abbrev pub Precedes : Text → Fields → Type 0
Precedes k fs = Names (λ j. compare_texts k j ≡ Ordering.lt) fs

insert-before :
    (k j : Text) (v w : Value) (fs : Fields)
    → compare_texts k j ≡ Ordering.lt
    → insert_field k v (field j w fs) ≡ field k v (field j w fs)
unfolding insert_field
insert-before k j v w fs h = rw (insert_field, h) refl

insert-behind :
    (k j : Text) (v w : Value) (fs : Fields)
    → compare_texts j k ≡ Ordering.lt
    → insert_field k v (field j w fs) ≡ field j w (insert_field k v fs)
unfolding insert_field
insert-behind k j v w fs h = ground (arith, Ranks-compare_texts.flipped j k tt tt)

-- Different names are in one order or the other.
order-cases :
    (k j : Text) → j ≢ k → (compare_texts k j ≡ Ordering.lt) ⊎ (compare_texts j k ≡ Ordering.lt)
order-cases k j h = ground (arith, Ranks-compare_texts.flipped k j tt tt, compare_texts-eq_iff k j)

insert_field-Names :
    (P : Text → Type 0) (k : Text) (v : Value) (fs : Fields)
    → P k
    → Fresh k fs
    → Names P fs
    → Names P (insert_field k v fs)
unfolding insert_field
insert_field-Names P k v end p n h = (p, tt)
insert_field-Names P k v (field j w fs) p n h = elim (order-cases k j n.0) [
  | inl l ↦ rw (insert-before k j v w fs l) (p, h)
  | inr l ↦ rw (insert-behind k j v w fs l) (h.0, insert_field-Names P k v fs p n.1 h.1)
]

same_fields : (fs : Fields) → SimilarFields fs fs
same_fields end = no_member
same_fields (field k v fs) = member k same (same_fields fs)

insert_field-SimilarFields :
    (k : Text) (v : Value) (fs : Fields)
    → Fresh k fs
    → SimilarFields (field k v fs) (insert_field k v fs)
unfolding insert_field
insert_field-SimilarFields k v end n = member k same no_member
insert_field-SimilarFields k v (field j w fs) n = elim (order-cases k j n.0) [
  | inl l ↦ rw (insert-before k j v w fs l) (same_fields (field k v (field j w fs)))
  | inr l ↦ rw (insert-behind k j v w fs l) (
      chain (exchange k j v w fs (λ e. n.0 (sym e)))
        (member j same (insert_field-SimilarFields k v fs n.1)))
]

module _ ⦃engine : Engine⦄ ⦃platform : Platform⦄ where
  -- A value whose texts and numbers the engine reads back from what it writes, without `undefined`,
  -- in which no object has two members of one name or a member `__proto__`.
  abbrev mutual
    pub IsReadable : Value → Type 0
    IsReadable undefined = ⊥
    IsReadable (num n) = (t : Text) × (serialize_number n ≡ some t) × IsNumeral n t
    IsReadable (str s) = IsRead s
    IsReadable (arr vs) = AreReadable vs
    IsReadable (obj fs) = AreReadableMembers fs
    IsReadable _ = Unit

    pub AreReadable : Items → Type 0
    AreReadable nil = Unit
    AreReadable (cons v vs) = IsReadable v × AreReadable vs

    pub AreReadableMembers : Fields → Type 0
    AreReadableMembers end = Unit
    AreReadableMembers (field k v fs) =
        (IsRead k × (text_eq k (codes "__proto__") ≡ false))
        × IsReadable v
        × Fresh k fs
        × AreReadableMembers fs

  -- with each name before the names behind it
  abbrev mutual
    pub IsOrdered : Value → Type 0
    IsOrdered (arr vs) = AreOrdered vs
    IsOrdered (obj fs) = AreOrderedMembers fs
    IsOrdered _ = Unit

    pub AreOrdered : Items → Type 0
    AreOrdered nil = Unit
    AreOrdered (cons v vs) = IsOrdered v × AreOrdered vs

    pub AreOrderedMembers : Fields → Type 0
    AreOrderedMembers end = Unit
    AreOrderedMembers (field k v fs) = IsOrdered v × Precedes k fs × AreOrderedMembers fs

  Precedes-trans :
      (k j : Text) (fs : Fields) → compare_texts k j ≡ Ordering.lt → Precedes j fs → Precedes k fs
  Precedes-trans k j end h p = tt
  Precedes-trans k j (field i v fs) h p =
      (Ranks-compare_texts.lt_trans k j i tt tt tt h p.0, Precedes-trans k j fs h p.1)

  insert_field-AreOrderedMembers :
      (k : Text) (v : Value) (fs : Fields)
      → IsOrdered v
      → Fresh k fs
      → AreOrderedMembers fs
      → AreOrderedMembers (insert_field k v fs)
  unfolding insert_field
  insert_field-AreOrderedMembers k v end o n h = (o, tt, tt)
  insert_field-AreOrderedMembers k v (field j w fs) o n (p, q, r) = elim (order-cases k j n.0) [
    | inl l ↦ rw (insert-before k j v w fs l) (o, (l, Precedes-trans k j fs l q), (p, q, r))
    | inr l ↦ rw (insert-behind k j v w fs l) (
      p,
      insert_field-Names (λ i. compare_texts j i ≡ Ordering.lt) k v fs l n.1 q,
      insert_field-AreOrderedMembers k v fs o n.1 r,
    )
  ]

  insert_field-AreReadableMembers :
      (k : Text) (v : Value) (fs : Fields)
      → AreReadableMembers (field k v fs)
      → AreReadableMembers (insert_field k v fs)
  unfolding insert_field
  insert_field-AreReadableMembers k v end h = h
  insert_field-AreReadableMembers k v (field j w fs) (a, b, n, (c, d, m, e)) =
      elim (order-cases k j n.0) [
        | inl l ↦ rw (insert-before k j v w fs l) (a, b, n, (c, d, m, e))
        | inr l ↦ rw (insert-behind k j v w fs l) (
          c,
          d,
          insert_field-Names (λ i. i ≢ j) k v fs (λ q. n.0 (sym q)) n.1 m,
          insert_field-AreReadableMembers k v fs (a, b, n.1, e),
        )
      ]

  ordered_fields-Names :
      (P : Text → Type 0) (fs : Fields)
      → AreReadableMembers fs
      → Names P fs
      → Names P (ordered_fields fs)
  unfolding ordered
  ordered_fields-Names P end h n = tt
  ordered_fields-Names P (field k v fs) (a, b, f, c) n =
      insert_field-Names P k (ordered v) (ordered_fields fs) n.0
        (ordered_fields-Names (λ j. j ≢ k) fs c f) (ordered_fields-Names P fs c n.1)

  -- It differs only in the order of members, and each name is before those behind it.
  mutual
    unfolding ordered

    pub ordered-IsOrdered :
        (v : Value)
        → IsReadable v
        → Similar v (ordered v) × IsReadable (ordered v) × IsOrdered (ordered v)
    ordered-IsOrdered undefined h = absurd h
    ordered-IsOrdered null h = (same, tt, tt)
    ordered-IsOrdered (bool b) h = (same, tt, tt)
    ordered-IsOrdered (num n) h = (same, h, tt)
    ordered-IsOrdered (str s) h = (same, h, tt)
    ordered-IsOrdered (arr vs) h =
        let (s, r, o) = ordered_items-AreOrdered vs h in (elements s, r, o)
    ordered-IsOrdered (obj fs) h =
        let (s, r, o) = ordered_fields-AreOrderedMembers fs h in (members s, r, o)

    ordered_items-AreOrdered :
        (vs : Items)
        → AreReadable vs
        → SimilarItems vs (ordered_items vs)
          × AreReadable (ordered_items vs)
          × AreOrdered (ordered_items vs)
    ordered_items-AreOrdered nil h = (none_left, tt, tt)
    ordered_items-AreOrdered (cons v vs) (h, k) =
        let (s, r, o) = ordered-IsOrdered v h in
        let (t, q, p) = ordered_items-AreOrdered vs k in (element s t, (r, q), (o, p))

    ordered_fields-AreOrderedMembers :
        (fs : Fields)
        → AreReadableMembers fs
        → SimilarFields fs (ordered_fields fs)
          × AreReadableMembers (ordered_fields fs)
          × AreOrderedMembers (ordered_fields fs)
    ordered_fields-AreOrderedMembers end h = (no_member, tt, tt)
    ordered_fields-AreOrderedMembers (field k v fs) (a, b, f, c) =
        let (s, r, o) = ordered-IsOrdered v b in
        let (t, q, p) = ordered_fields-AreOrderedMembers fs c in
        let fresh = ordered_fields-Names (λ j. j ≢ k) fs c f in
        (
          chain (member k s t) (insert_field-SimilarFields k (ordered v) (ordered_fields fs) fresh),
          insert_field-AreReadableMembers k (ordered v) (ordered_fields fs) (a, r, fresh, q),
          insert_field-AreOrderedMembers k (ordered v) (ordered_fields fs) o fresh p,
        )
