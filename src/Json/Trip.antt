-- ===== src/Json/Trip.antt =====
-- packages/core/src/canonicalize.ts and parse.ts: a canonical text is read back.
use arky_foundation.Common.{
  true, false, List, [], ◌∷◌, ◌++◌, map, Option, some, Text, codes, ◌≡◌, ◌↔◌, some-injective, ◌+◌,
  ◌*◌, refl, ap, ap₂, sym, ◌∙◌, arith, subst, append-nil, length,
}
use arky_foundation.Engine.{Engine}
use arky_foundation.Platform.{Platform}
use arky_foundation.Assert.Syntax.{ok, ◌>>=◌}
use arky_foundation.Json.Values.{
  Value, undefined, null, bool, num, str, arr, obj, Items, nil, cons, Fields, end, field,
}
use arky_foundation.Json.Canonical.{
  join, join_members, join_elements, serialize, serialize_items, serialize_fields, serialize_string,
  append_entry, canonicalize,
}
use arky_foundation.Json.Canonicalized.{join_members-IsAscending, part, entries_of}
use arky_foundation.Json.Parse.{parse_strict, parse_value, skip_space, trailing}
use arky_foundation.Json.Reparse.{parse_value-Written}
use arky_foundation.Json.Grammar.{
  Written, nothing, truth, falsehood, number, text, skip_space-Written,
}
use arky_foundation.Json.Ordered.{
  ordered, IsReadable, AreReadable, AreReadableMembers, IsOrdered, AreOrdered, AreOrderedMembers,
  ordered-IsOrdered,
}
use arky_foundation.Json.Order.{Similar, canonicalize-Similar}
use arky_foundation.Json.Joined.{
  MembersOf, end_of_members, member_of, ItemsOf, end_of_items, item_of, Written-arr, Written-obj,
  IsAscending-MembersOf,
}

ok-injective : {A : Type 0} {a b : A} → ok a ≡ ok b → a ≡ b
ok-injective h = cc

module _ ⦃engine : Engine⦄ ⦃platform : Platform⦄ where
  append_entry-IsReadable :
      (v : Value) (k : Text) (t : Option Text) (es : List (Text × Option Text))
      → IsReadable v
      → append_entry v k t es ≡ (k, t) ∷ es
  append_entry-IsReadable undefined k t es h = absurd h
  append_entry-IsReadable null k t es h = refl
  append_entry-IsReadable (bool b) k t es h = refl
  append_entry-IsReadable (num n) k t es h = refl
  append_entry-IsReadable (str s) k t es h = refl
  append_entry-IsReadable (arr vs) k t es h = refl
  append_entry-IsReadable (obj fs) k t es h = refl

  mutual
    unfolding serialize join_elements

    serialize-Written :
        (v : Value) → IsReadable v → IsOrdered v → (t : Text) × (serialize v ≡ some t) × Written v t
    serialize-Written undefined h o = absurd h
    serialize-Written null h o = (codes "null", refl, nothing)
    serialize-Written (bool true) h o = (codes "true", refl, truth)
    serialize-Written (bool false) h o = (codes "false", refl, falsehood)
    serialize-Written (num n) (t, e, i) o = (t, e, number n t i)
    serialize-Written (str s) h o = (serialize_string s, refl, text s h)
    serialize-Written (arr vs) h o =
        let (ts, e, x) = serialize_items-Written vs h o in
        (b'[' ∷ (join ts ++ codes "]"), ap join_elements e, Written-arr x)
    serialize-Written (obj fs) h o =
        let (ms, e, x) = serialize_fields-Written fs h o in
        let a = IsAscending-MembersOf x o in
        (
          b'{' ∷ (join (map part ms) ++ codes "}"),
          ap join_members e ∙ join_members-IsAscending ms a,
          Written-obj x a,
        )

    serialize_items-Written :
        (vs : Items)
        → AreReadable vs
        → AreOrdered vs
        → (ts : List Text) × (serialize_items vs ≡ some ts) × ItemsOf vs ts
    serialize_items-Written nil h o = ([], refl, end_of_items)
    serialize_items-Written (cons v vs) (h, k) (o, p) =
        let (t, e, w) = serialize-Written v h o in
        let (ts, f, x) = serialize_items-Written vs k p in
        (t ∷ ts, ground (arith, e, f), item_of v t vs ts w x)

    serialize_fields-Written :
        (fs : Fields)
        → AreReadableMembers fs
        → AreOrderedMembers fs
        → (ms : List (Text × Text)) × (serialize_fields fs ≡ entries_of ms) × MembersOf fs ms
    serialize_fields-Written end h o = ([], refl, end_of_members)
    serialize_fields-Written (field k v fs) ((q, p), h, fresh, hs) (o, before, os) =
        let (t, e, w) = serialize-Written v h o in
        let (ms, f, x) = serialize_fields-Written fs hs os in
        (
          (k, t) ∷ ms,
          append_entry-IsReadable v k (serialize v) (serialize_fields fs) h
              ∙ ap₂ (λ u es. (k, u) ∷ es) e f,
          member_of k v t fs ms q p w x,
        )

  parse_strict-Written : (v : Value) (t : Text) → Written v t → parse_strict t ≡ ok v
  unfolding parse_strict skip_space
  parse_strict-Written v t w =
      let fuel = 5 + 4 * length t in
      let blank = subst (λ s. skip_space s ≡ s) (append-nil t) (skip_space-Written [] w) in
      let read =
        subst (λ s. parse_value fuel s ≡ ok (v, [])) (append-nil t)
          (parse_value-Written fuel [] w tt (omega arith)) in
      ap (λ m. m >>= (λ r. trailing (r.0, skip_space r.1))) (ap (parse_value fuel) blank ∙ read)

  -- A value has a canonical text, and the strict parser reads from it the value with the members of
  -- its objects in canonical order, which differs from the value only in that order. This holds for a
  -- value without `undefined` whose texts and numbers are read back from what is written for them,
  -- in which no object has two members of one name or a member `__proto__`.
  pub parse_strict-canonicalize :
      (v : Value)
      → IsReadable v
      → (t : Text) × (canonicalize v ≡ some t)
        × (parse_strict t ≡ ok (ordered v))
        × Similar v (ordered v)
  unfolding canonicalize
  parse_strict-canonicalize v h =
      let (s, r, o) = ordered-IsOrdered v h in
      let (t, e, w) = serialize-Written (ordered v) r o in
      (t, canonicalize-Similar v (ordered v) s ∙ e, parse_strict-Written (ordered v) t w, s)

  parsed-ordered :
      (v : Value) (t : Text)
      → IsReadable v
      → canonicalize v ≡ some t
      → parse_strict t ≡ ok (ordered v)
  parsed-ordered v t h e =
      let (s, f, p, k) = parse_strict-canonicalize v h in
      ap parse_strict (some-injective (sym e ∙ f)) ∙ p

  -- Two values have the same canonical text exactly when they are equal once the members of their
  -- objects are put in canonical order. This holds for values without `undefined` whose texts and
  -- numbers are read back from what is written for them, in which no object has two members of one
  -- name or a member `__proto__`.
  pub canonicalize-eq_iff :
      (v w : Value)
      → IsReadable v
      → IsReadable w
      → (canonicalize v ≡ canonicalize w) ↔ (ordered v ≡ ordered w)
  canonicalize-eq_iff v w h k =
      let (t, e, p, s) = parse_strict-canonicalize v h in
      let (u, f, q, r) = parse_strict-canonicalize w k in
      (
        λ same_text. ok-injective (sym p ∙ parsed-ordered w t k (sym same_text ∙ e)),
        λ same_order.
            canonicalize-Similar v (ordered v) s
            ∙ ap canonicalize same_order
            ∙ sym (canonicalize-Similar w (ordered w) r),
      )
