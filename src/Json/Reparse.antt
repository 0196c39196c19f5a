-- ===== src/Json/Reparse.antt =====
-- packages/core/src/parse.ts: the strict parser gives the value that a text without blanks stands for.
use arky_foundation.Common.{
  ℕ, zero, suc, ◌+◌, ◌*◌, ◌≤◌, ◌<◌, List, [], ◌∷◌, ◌++◌, append_assoc, length, length-append, Text,
  codes, ◌≡◌, refl, ap, sym, ◌∙◌, arith,
}
use arky_foundation.Engine.{Engine}
use arky_foundation.Platform.{Platform}
use arky_foundation.Assert.Syntax.{ok, thrown}
use arky_foundation.Json.Values.{Value, arr, obj, Items, Fields, end, field}
use arky_foundation.Json.Canonical.{serialize_string, escape_all}
use arky_foundation.Json.Grammar.{
  Written, nothing, truth, falsehood, number, text, no_elements, elements, no_members, members,
  WrittenItems, last_element, element, WrittenMembers, last_member, member, IsName, name,
  IsDelimited, parse_string-serialize_string, skip_space-Written,
}
use arky_foundation.Json.Steps.{
  value-null, value-true, value-false, value-no_elements, value-no_members, value-number,
  value-text, value-array, value-object, array-elements, object-members, elements-last,
  elements-more, members-last, members-more,
}
use arky_foundation.Json.Parse.{
  expect, skip_space, assign_member, parse_value, parse_members, parse_elements, parse_key,
}

module _ ⦃engine : Engine⦄ ⦃platform : Platform⦄ where
  -- A value does not begin with the end of an array.
  expect-Written :
      {v : Value} {t : Text} (r : Text) → Written v t → expect b']' [] (t ++ r) ≡ thrown []
  unfolding serialize_string
  expect-Written r nothing = refl
  expect-Written r truth = refl
  expect-Written r falsehood = refl
  expect-Written r (number n [] h) = absurd h
  expect-Written r (number n (c ∷ t) h) = let digit = h.0 in ground arith
  expect-Written r (text s h) = refl
  expect-Written r no_elements = refl
  expect-Written r (elements vs t h) = refl
  expect-Written r no_members = refl
  expect-Written r (members fs t h) = refl

  -- an array's elements begin with a value
  skip_space-WrittenItems :
      {vs : Items} {t : Text} (r : Text)
      → WrittenItems vs t
      → (skip_space (t ++ r) ≡ t ++ r) × (expect b']' [] (t ++ r) ≡ thrown [])
  skip_space-WrittenItems r (last_element v t w) =
      rw (append_assoc t (codes "]") r) (skip_space-Written _ w, expect-Written _ w)
  skip_space-WrittenItems r (element v t vs u w x) =
      rw (append_assoc t (b',' ∷ u) r) (skip_space-Written _ w, expect-Written _ w)

  parse_key-IsName :
      (seen : List Text) (k x : Text)
      → IsName seen k
      → parse_key seen (serialize_string k ++ (b':' ∷ x)) ≡ ok (k, x)
  unfolding serialize_string skip_space
  parse_key-IsName seen k x (name h p i) =
      rw
        (
          append_assoc (escape_all k) (codes "\"") (b':' ∷ x),
          parse_string-serialize_string k (b':' ∷ x) h,
          i,
        )
        refl

  length-Written : {v : Value} {t : Text} → Written v t → 0 < length t
  unfolding serialize_string
  length-Written nothing = omega arith
  length-Written truth = omega arith
  length-Written falsehood = omega arith
  length-Written (number n [] h) = absurd h
  length-Written (number n (c ∷ t) h) = omega arith
  length-Written (text s h) = omega arith
  length-Written no_elements = omega arith
  length-Written (elements vs t h) = omega arith
  length-Written no_members = omega arith
  length-Written (members fs t h) = omega arith

  members_start :
      {seen : List Text} {fs : Fields} {t : Text}
      → WrittenMembers seen fs t
      → (u : Text) × (t ≡ b'"' ∷ u)
  unfolding serialize_string
  members_start (last_member seen k v t n w) = (_, refl)
  members_start (member seen k v t fs u n w x) = (_, refl)

  assign_member-IsName :
      (seen : List Text) (k : Text) (v : Value) (fs : Fields)
      → IsName seen k
      → assign_member k v fs ≡ field k v fs
  unfolding assign_member
  assign_member-IsName seen k v fs (name h p i) = rw p refl

  -- a member up to what follows its value
  member_append :
      (k t u r : Text)
      → (serialize_string k ++ (b':' ∷ (t ++ u))) ++ r
        ≡ serialize_string k ++ (b':' ∷ (t ++ (u ++ r)))
  member_append k t u r =
      append_assoc (serialize_string k) (b':' ∷ (t ++ u)) r
      ∙ ap (λ x. serialize_string k ++ (b':' ∷ x)) (append_assoc t u r)

  length-member :
      (k t u : Text) → 3 + length t + length u ≤ length (serialize_string k ++ (b':' ∷ (t ++ u)))
  unfolding serialize_string
  length-member k t u = omega (
    arith,
    length-append (escape_all k ++ codes "\"") (b':' ∷ (t ++ u)),
    length-append (escape_all k) (codes "\""),
    length-append t u,
  )

  mutual
    pub parse_value-Written :
        {v : Value} {t : Text} (f : ℕ) (r : Text)
        → Written v t
        → IsDelimited r
        → 4 * length t + 1 ≤ f
        → parse_value f (t ++ r) ≡ ok (v, r)
    parse_value-Written zero r w d h = absurd (omega arith)
    parse_value-Written (suc zero) r w d h = absurd (omega (arith, h, length-Written w))
    parse_value-Written (suc (suc f)) r nothing d h = value-null f r
    parse_value-Written (suc (suc f)) r truth d h = value-true f r
    parse_value-Written (suc (suc f)) r falsehood d h = value-false f r
    parse_value-Written (suc (suc f)) r (number n [] i) d h = absurd i
    parse_value-Written (suc (suc f)) r (number n (c ∷ t) i) d h = value-number (suc f) n c t r i d
    parse_value-Written (suc (suc f)) r (text s i) d h = value-text (suc f) s r i
    parse_value-Written (suc (suc f)) r no_elements d h = value-no_elements f r
    parse_value-Written (suc (suc f)) r (elements vs t x) d h =
        let (blank, begun) = skip_space-WrittenItems r x in
        value-array (suc f) (t ++ r) (ok (arr vs, r)) blank
          (array-elements f (t ++ r) r vs begun (parse_elements-Written f r x (omega (arith, h))))
    parse_value-Written (suc (suc f)) r no_members d h = value-no_members f r
    parse_value-Written (suc (suc f)) r (members fs t x) d h =
        let (u, begun) = members_start x in
        let text_begun : t ++ r ≡ b'"' ∷ (u ++ r) = ap (λ s. s ++ r) begun in
        ap (λ s. parse_value (suc (suc f)) (b'{' ∷ s)) text_begun
        ∙ value-object (suc f) (u ++ r) (ok (obj fs, r)) (
            object-members f (u ++ r) r fs (
              ap (parse_members f []) (sym text_begun)
              ∙ parse_members-Written f r x (omega (arith, h))))

    parse_elements-Written :
        {vs : Items} {t : Text} (f : ℕ) (r : Text)
        → WrittenItems vs t
        → 4 * length t + 3 ≤ f
        → parse_elements f (t ++ r) ≡ ok (vs, r)
    parse_elements-Written zero r x h = absurd (omega arith)
    parse_elements-Written (suc zero) r x h = absurd (omega arith)
    parse_elements-Written (suc (suc f)) r (last_element v t w) h =
        ap (parse_elements (suc (suc f))) (append_assoc t (codes "]") r)
        ∙ elements-last f v (t ++ (b']' ∷ r)) r (skip_space-Written _ w) (
            parse_value-Written (suc f) (b']' ∷ r) w refl
              (omega (arith, h, length-append t (codes "]"))))
    parse_elements-Written (suc (suc f)) r (element v t vs u w x) h =
        ap (parse_elements (suc (suc f))) (append_assoc t (b',' ∷ u) r)
        ∙ elements-more f v (t ++ (b',' ∷ (u ++ r))) (u ++ r) r vs (skip_space-Written _ w)
            (parse_value-Written (suc f) (b',' ∷ (u ++ r)) w refl
              (omega (arith, h, length-append t (b',' ∷ u))))
            (parse_elements-Written f r x (omega (arith, h, length-append t (b',' ∷ u))))

    parse_members-Written :
        {seen : List Text} {fs : Fields} {t : Text} (f : ℕ) (r : Text)
        → WrittenMembers seen fs t
        → 4 * length t + 3 ≤ f
        → parse_members f seen (t ++ r) ≡ ok (fs, r)
    parse_members-Written zero r x h = absurd (omega arith)
    parse_members-Written (suc zero) r x h = absurd (omega arith)
    parse_members-Written (suc (suc f)) r (last_member seen k v t n w) h =
        ap (parse_members (suc (suc f)) seen) (member_append k t (codes "}") r)
        ∙ members-last f seen k v _ (t ++ (b'}' ∷ r)) r (parse_key-IsName seen k _ n)
            (skip_space-Written _ w)
            (parse_value-Written (suc f) (b'}' ∷ r) w refl
              (omega (arith, h, length-member k t (codes "}"))))
            (assign_member-IsName seen k v end n)
    parse_members-Written (suc (suc f)) r (member seen k v t fs u n w x) h =
        ap (parse_members (suc (suc f)) seen) (member_append k t (b',' ∷ u) r)
        ∙ members-more f seen k v fs _ (t ++ (b',' ∷ (u ++ r))) (u ++ r) r
            (parse_key-IsName seen k _ n) (skip_space-Written _ w)
            (parse_value-Written (suc f) (b',' ∷ (u ++ r)) w refl
              (omega (arith, h, length-member k t (b',' ∷ u))))
            (parse_members-Written f r x (omega (arith, h, length-member k t (b',' ∷ u))))
            (assign_member-IsName seen k v fs n)
