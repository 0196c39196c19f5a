-- ===== src/Json/Order.antt =====
-- packages/core/src/canonicalize.ts: the order of an object's members.
use mathlib.Core.List.{Perm}
use mathlib.Core.List.Perm
use arky_foundation.Common.{
  List, [], ◌∷◌, map, Option, Text, text_eq, text_eq_iff, ◌≡◌, ◌≢◌, refl, ap, ◌∙◌, arith,
  if◌then◌else◌, Bool-cases, inl, inr,
}
use arky_foundation.Engine.{Engine}
use arky_foundation.Sorting.{sort}
use arky_foundation.Sorting.Comparison.{compare_texts, compare_texts-eq_iff, Ranks-compare_texts}
use arky_foundation.Sorting.Sorted.{sort-perm_eq}
use arky_foundation.Json.Values.{
  Value, undefined, null, bool, num, str, arr, obj, Items, nil, cons, Fields, end, field,
  is_undefined,
}
use arky_foundation.Json.Canonical.{
  append_entry, entry, parts, join_members, join_elements, serialize, serialize_items,
  serialize_fields, canonicalize,
}

-- The values differ at most in the order of the members of objects, at any depth.
mutual
  pub data Similar : Value → Value → Type 0 where
    same : {v : Value} → Similar v v
    elements : {vs ws : Items} → SimilarItems vs ws → Similar (arr vs) (arr ws)
    members : {fs gs : Fields} → SimilarFields fs gs → Similar (obj fs) (obj gs)

  pub data SimilarItems : Items → Items → Type 0 where
    none_left : SimilarItems nil nil
    element :
        {v w : Value} {vs ws : Items}
        → Similar v w
        → SimilarItems vs ws
        → SimilarItems (cons v vs) (cons w ws)

  pub data SimilarFields : Fields → Fields → Type 0 where
    no_member : SimilarFields end end
    member :
        (k : Text) {v w : Value} {fs gs : Fields}
        → Similar v w
        → SimilarFields fs gs
        → SimilarFields (field k v fs) (field k w gs)
    exchange :
        (j k : Text) (v w : Value) (fs : Fields)
        → j ≢ k
        → SimilarFields (field j v (field k w fs)) (field k w (field j v fs))
    chain : {fs gs hs : Fields} → SimilarFields fs gs → SimilarFields gs hs → SimilarFields fs hs

abbrev Entries : Type 0
Entries = List (Text × Option Text)

abbrev keys : Entries → List Text
keys es = map (λ e. e.0) es

-- The same keys in some order, each with the same text.
abbrev Alike : Entries → Entries → Type 0
Alike es ds = Perm (keys es) (keys ds) × ((k : Text) → entry k es ≡ entry k ds)

parts-eq :
    (es ds : Entries) (ks : List Text)
    → ((k : Text) → entry k es ≡ entry k ds)
    → parts es ks ≡ parts ds ks
unfolding parts
parts-eq es ds [] h = refl
parts-eq es ds (k ∷ ks) h = ground (arith, h k, parts-eq es ds ks h)

join_members-eq : (es ds : Entries) → Alike es ds → join_members es ≡ join_members ds
unfolding join_members
join_members-eq es ds (p, h) =
    let s =
      sort-perm_eq compare_texts Ranks-compare_texts (λ a b. (compare_texts-eq_iff a b).0) (hlevel)
        p in
    rw (join_members, s, parts-eq es ds (sort compare_texts (keys ds)) h) refl

append_entry-if :
    (v : Value) (k : Text) (t : Option Text) (es : Entries)
    → append_entry v k t es ≡ (if is_undefined v then es else (k, t) ∷ es)
append_entry-if undefined k t es = refl
append_entry-if null k t es = refl
append_entry-if (bool b) k t es = refl
append_entry-if (num n) k t es = refl
append_entry-if (str s) k t es = refl
append_entry-if (arr vs) k t es = refl
append_entry-if (obj fs) k t es = refl

Alike-append_entry :
    (v w : Value) (k : Text) (s t : Option Text) (es ds : Entries)
    → is_undefined v ≡ is_undefined w
    → s ≡ t
    → Alike es ds
    → Alike (append_entry v k s es) (append_entry w k t ds)
unfolding entry
Alike-append_entry v w k s t es ds u q (p, h) =
    rw (append_entry-if v k s es, append_entry-if w k t ds, u, q)
      (elim (Bool-cases (is_undefined w)) [
        | inl e ↦ rw e (p, h)
        | inr e ↦ rw e (Perm.cons k p, λ j. ap (λ r. if text_eq k j then t else r) (h j))
      ])

entry_exchange :
    (j k : Text) (s t : Option Text) (es : Entries)
    → j ≢ k
    → (i : Text) → entry i ((j, s) ∷ (k, t) ∷ es) ≡ entry i ((k, t) ∷ (j, s) ∷ es)
unfolding entry
entry_exchange j k s t es h i = ground (arith, text_eq_iff j i, text_eq_iff k i)

Alike-exchange :
    (j k : Text) (v w : Value) (s t : Option Text) (es : Entries)
    → j ≢ k
    → Alike
        (append_entry v j s (append_entry w k t es))
        (append_entry w k t (append_entry v j s es))
unfolding entry
Alike-exchange j k v w s t es h =
    rw
      (
        append_entry-if v j s (append_entry w k t es),
        append_entry-if w k t es,
        append_entry-if w k t (append_entry v j s es),
        append_entry-if v j s es,
      )
      (elim (Bool-cases (is_undefined v)) [
        | inl d ↦ rw d (Perm.refl _, λ i. refl)
        | inr d ↦ elim (Bool-cases (is_undefined w)) [
          | inl e ↦ rw (d, e) (Perm.refl _, λ i. refl)
          | inr e ↦ rw (d, e) (Perm.swap k j (keys es), λ i. entry_exchange j k s t es h i)
        ]
      ])

module _ ⦃engine : Engine⦄ where
  -- The text and the definedness of the value of a member.
  abbrev SameMember : Value → Value → Type 0
  SameMember v w = (serialize v ≡ serialize w) × (is_undefined v ≡ is_undefined w)

  mutual
    unfolding serialize

    serialize-Similar : {v w : Value} → Similar v w → SameMember v w
    serialize-Similar same = (refl, refl)
    serialize-Similar (elements h) = (ap join_elements (serialize_items-Similar h), refl)
    serialize-Similar (members h) = (join_members-eq _ _ (serialize_fields-Similar h), refl)

    serialize_items-Similar :
        {vs ws : Items} → SimilarItems vs ws → serialize_items vs ≡ serialize_items ws
    serialize_items-Similar none_left = refl
    serialize_items-Similar (element h k) =
        ground (arith, (serialize-Similar h).0, serialize_items-Similar k)

    serialize_fields-Similar :
        {fs gs : Fields} → SimilarFields fs gs → Alike (serialize_fields fs) (serialize_fields gs)
    serialize_fields-Similar no_member = (Perm.refl _, λ k. refl)
    serialize_fields-Similar (member k {v} {w} {fs} {gs} h l) =
        let (s, u) = serialize-Similar h in
        Alike-append_entry v w k (serialize v) (serialize w) (serialize_fields fs)
          (serialize_fields gs) u s (serialize_fields-Similar l)
    serialize_fields-Similar (exchange j k v w fs h) =
        Alike-exchange j k v w (serialize v) (serialize w) (serialize_fields fs) h
    serialize_fields-Similar (chain h l) =
        let (p, q) = serialize_fields-Similar h in
        let (r, s) = serialize_fields-Similar l in (Perm.trans p r, λ k. q k ∙ s k)

  -- Two values that differ only in the order of the members of objects, at any depth, have the same
  -- canonical text, or raise both.
  pub canonicalize-Similar : (v w : Value) → Similar v w → canonicalize v ≡ canonicalize w
  unfolding canonicalize
  canonicalize-Similar v w h = (serialize-Similar h).0
