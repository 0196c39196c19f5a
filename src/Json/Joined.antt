-- ===== src/Json/Joined.antt =====
-- packages/core/src/canonicalize.ts: the parts that `serialize` joins, as the text of an array or an
-- object.
use mathlib.Core.List.{append_assoc}
use arky_foundation.Common.{
  false, List, [], ◌∷◌, ◌++◌, map, Text, codes, text_eq, All, ◌≡◌, sym, ◌∙◌, Ordering, subst,
}
use arky_foundation.Engine.{Engine}
use arky_foundation.Platform.{Platform}
use arky_foundation.Sorting.Comparison.{compare_texts}
use arky_foundation.Json.Values.{Value, arr, obj, Items, nil, cons, Fields, end, field}
use arky_foundation.Json.Canonical.{join, serialize_string}
use arky_foundation.Json.Canonicalized.{
  IsAscending, Follows, Follows-nil, Follows-cons, includes-Follows, part, names_of,
}
use arky_foundation.Json.Grammar.{
  IsRead, Written, no_elements, elements, no_members, members, WrittenItems, last_element, element,
  WrittenMembers, last_member, member, name,
}
use arky_foundation.Json.Ordered.{AreOrderedMembers, Precedes}

module _ ⦃engine : Engine⦄ ⦃platform : Platform⦄ where
  -- the names and the texts of members
  pub data MembersOf : Fields → List (Text × Text) → Type 0 where
    end_of_members : MembersOf end []
    member_of :
        (k : Text) (v : Value) (t : Text) (fs : Fields) (ms : List (Text × Text))
        → IsRead k
        → text_eq k (codes "__proto__") ≡ false
        → Written v t
        → MembersOf fs ms
        → MembersOf (field k v fs) ((k, t) ∷ ms)

  pub data ItemsOf : Items → List Text → Type 0 where
    end_of_items : ItemsOf nil []
    item_of :
        (v : Value) (t : Text) (vs : Items) (ts : List Text)
        → Written v t
        → ItemsOf vs ts
        → ItemsOf (cons v vs) (t ∷ ts)

  -- Parts that are joined by commas are the elements of an array.
  join-ItemsOf :
      (v : Value) (t : Text) (vs : Items) (ts : List Text)
      → Written v t
      → ItemsOf vs ts
      → WrittenItems (cons v vs) (join (t ∷ ts) ++ codes "]")
  unfolding join
  join-ItemsOf v t nil [] w end_of_items = last_element v t w
  join-ItemsOf v t _ _ w (item_of u s vs ts x xs) =
      subst (WrittenItems (cons v (cons u vs)))
        (sym (append_assoc t (b',' ∷ join (s ∷ ts)) (codes "]")))
        (element v t (cons u vs) (join (s ∷ ts) ++ codes "]") w (join-ItemsOf u s vs ts x xs))

  join-MembersOf :
      (seen : List Text) (k : Text) (v : Value) (t : Text) (fs : Fields) (ms : List (Text × Text))
      → IsRead k
      → text_eq k (codes "__proto__") ≡ false
      → Written v t
      → MembersOf fs ms
      → All (Follows seen) (k ∷ names_of ms)
      → IsAscending (k ∷ names_of ms)
      → WrittenMembers seen (field k v fs) (join (map part ((k, t) ∷ ms)) ++ codes "}")
  unfolding join
  join-MembersOf seen k v t end [] r p w end_of_members f a =
      subst (WrittenMembers seen (field k v end))
        (sym (append_assoc (serialize_string k) (b':' ∷ t) (codes "}")))
        (last_member seen k v t (name r p (includes-Follows seen k f.0)) w)
  join-MembersOf seen k v t _ _ r p w (member_of j u s fs ms q o x xs) f a =
      let rest = join (map part ((j, s) ∷ ms)) in
      subst (WrittenMembers seen (field k v (field j u fs)))
        (sym (
          append_assoc (part (k, t)) (b',' ∷ rest) (codes "}")
          ∙ append_assoc (serialize_string k) (b':' ∷ t) (b',' ∷ (rest ++ codes "}"))))
        (member seen k v t (field j u fs) (rest ++ codes "}")
          (name r p (includes-Follows seen k f.0)) w
          (join-MembersOf (k ∷ seen) j u s fs ms q o x xs
            (Follows-cons seen k (j ∷ names_of ms) a.0 f.1) a.1))

  Precedes-MembersOf :
      {fs : Fields} {ms : List (Text × Text)} (k : Text)
      → MembersOf fs ms
      → Precedes k fs
      → All (λ j. compare_texts k j ≡ Ordering.lt) (names_of ms)
  Precedes-MembersOf k end_of_members p = tt
  Precedes-MembersOf k (member_of j v t fs ms q o w x) p = (p.0, Precedes-MembersOf k x p.1)

  pub IsAscending-MembersOf :
      {fs : Fields} {ms : List (Text × Text)}
      → MembersOf fs ms
      → AreOrderedMembers fs
      → IsAscending (names_of ms)
  IsAscending-MembersOf end_of_members o = tt
  IsAscending-MembersOf (member_of j v t fs ms q p w x) (o, before, os) =
      (Precedes-MembersOf j x before, IsAscending-MembersOf x os)

  pub Written-arr :
      {vs : Items} {ts : List Text}
      → ItemsOf vs ts
      → Written (arr vs) (b'[' ∷ (join ts ++ codes "]"))
  unfolding join
  Written-arr end_of_items = no_elements
  Written-arr (item_of v t vs ts w x) =
      elements (cons v vs) (join (t ∷ ts) ++ codes "]") (join-ItemsOf v t vs ts w x)

  pub Written-obj :
      {fs : Fields} {ms : List (Text × Text)}
      → MembersOf fs ms
      → IsAscending (names_of ms)
      → Written (obj fs) (b'{' ∷ (join (map part ms) ++ codes "}"))
  unfolding join
  Written-obj end_of_members a = no_members
  Written-obj (member_of k v t fs ms q p w x) a =
      members (field k v fs) (join (map part ((k, t) ∷ ms)) ++ codes "}")
        (join-MembersOf [] k v t fs ms q p w x (Follows-nil (k ∷ names_of ms)) a)
