-- ===== src/Json/Strict.antt =====
-- packages/core/src/parse.ts: what the values are that the strict parser reads.
use arky_foundation.Common.{
  or_false, ℕ, zero, suc, Bool, true, false, List, [], ◌∷◌, Text, text_eq, includes, codes, drop,
  starts_with, length, ◌+◌, ◌*◌, ◌≡◌, refl, if◌then◌else◌, subst, Bool-cases, inl, inr,
}
use arky_foundation.Number.{is_nan}
use arky_foundation.Engine.{Engine}
use arky_foundation.Platform.{Platform}
use arky_foundation.Json.Values.{Value, null, bool, num, arr, obj, Items, nil, Fields, end, field}
use arky_foundation.Assert.Syntax.{Outcome, ok, thrown, out_of_fuel, ◌>>=◌}
use arky_foundation.Json.Parse.{
  brace, bracket, quote, numeric, word, Start, start_of, skip_space, scan_number, parse_string,
  parse_number, parse_word, expect, parse_key, parse_value, parse_object, parse_members,
  after_member, parse_array, parse_elements, after_element, assign_member, trailing, parse_strict,
}
use arky_foundation.Json.Members.{Names, Fresh, IsJson, AreJson, AreMembers, text_eq-ne}

-- No name of a member was seen.
abbrev Avoids : List Text → Fields → Type 0
Avoids seen fs = Names (λ j. includes j seen ≡ false) fs

Avoids-cons :
    (key : Text) (seen : List Text) (fs : Fields)
    → Avoids (key ∷ seen) fs
    → Fresh key fs × Avoids seen fs
unfolding includes
Avoids-cons key seen end h = (tt, tt)
Avoids-cons key seen (field j v fs) h =
    let (p, q) = or_false (text_eq j key) (includes j seen) h.0 in
    let (r, s) = Avoids-cons key seen fs h.1 in ((text_eq-ne j key p, r), (q, s))

-- What is returned satisfies `P`.
abbrev pub Yields {ℓ} : {A : Type ℓ} → (A → Type 0) → Outcome A → Type 0
Yields P (ok a) = P a
Yields P (thrown e) = Unit
Yields P out_of_fuel = Unit

Yields-bind {ℓ κ} :
    {A : Type ℓ} {B : Type κ} (P : A → Type 0) (Q : B → Type 0) (m : Outcome A) (f : A → Outcome B)
    → Yields P m
    → ((a : A) → P a → Yields Q (f a))
    → Yields Q (m >>= f)
Yields-bind P Q (ok a) f h k = k a h
Yields-bind P Q (thrown e) f h k = tt
Yields-bind P Q out_of_fuel f h k = tt

Yields-any {ℓ} : {A : Type ℓ} (m : Outcome A) → Yields (λ a. Unit {0}) m
Yields-any (ok a) = tt
Yields-any (thrown e) = tt
Yields-any out_of_fuel = tt

Yields-if {ℓ} :
    {A : Type ℓ} (P : A → Type 0) (b : Bool) (m n : Outcome A)
    → (b ≡ true → Yields P m)
    → (b ≡ false → Yields P n)
    → Yields P (if b then m else n)
Yields-if P true m n h k = h refl
Yields-if P false m n h k = k refl

Yields-elim :
    {A : Type 0} (P : A → Type 0) (o : Outcome Text) (m : Text → Outcome A) (n : Outcome A)
    → ((t : Text) → Yields P (m t))
    → Yields P n
    → Yields P (elim o [ ok t ↦ m t | _ ↦ n ])
Yields-elim P (ok t) m n h k = h t
Yields-elim P (thrown e) m n h k = k
Yields-elim P out_of_fuel m n h k = k

abbrev JsonResult : Value × Text → Type 0
JsonResult r = IsJson r.0

abbrev ItemsResult : Items × Text → Type 0
ItemsResult r = AreJson r.0

abbrev MembersResult : List Text → Fields × Text → Type 0
MembersResult seen r = AreMembers r.0 × Avoids seen r.0

assign_member-MembersResult :
    (seen : List Text) (key : Text) (v : Value) (fs : Fields) (rest : Text)
    → includes key seen ≡ false
    → IsJson v
    → MembersResult (key ∷ seen) (fs, rest)
    → MembersResult seen (assign_member key v fs, rest)
unfolding assign_member
assign_member-MembersResult seen key v fs rest h j (m, a) =
    let (fresh, old) = Avoids-cons key seen fs a in
    elim (Bool-cases (text_eq key (codes "__proto__"))) [
      | inl e ↦ rw e (m, old)
      | inr e ↦ rw e ((j, fresh, m), (h, old))
    ]

module _ ⦃engine : Engine⦄ ⦃platform : Platform⦄ where
  Yields-start :
      {A : Type 0} (P : A → Type 0) (k : Start) (m n o p q : Outcome A)
      → Yields P m
      → Yields P n
      → Yields P o
      → Yields P p
      → Yields P q
      → Yields P (elim k [ brace ↦ m | bracket ↦ n | quote ↦ o | numeric ↦ p | word ↦ q ])
  Yields-start P brace m n o p q a b c d e = a
  Yields-start P bracket m n o p q a b c d e = b
  Yields-start P quote m n o p q a b c d e = c
  Yields-start P numeric m n o p q a b c d e = d
  Yields-start P word m n o p q a b c d e = e

  parse_number-IsJson : (s : Text) → Yields JsonResult (parse_number s)
  unfolding parse_number
  parse_number-IsJson s =
      Yields-if JsonResult (is_nan (engine.number_of_text (scan_number s).0))
        (thrown (codes "bad number"))
        (ok (num (engine.number_of_text (scan_number s).0), (scan_number s).1)) (λ e. tt) (λ e. e)

  parse_word-IsJson : (s : Text) → Yields JsonResult (parse_word s)
  parse_word-IsJson s =
      let refused : Outcome (Value × Text) = thrown (codes "unexpected token") in
      let null_word = if starts_with (codes "null") s then ok (null, drop 4 s) else refused in
      let false_word =
        if starts_with (codes "false") s then ok (bool false, drop 5 s) else null_word in
      Yields-if JsonResult (starts_with (codes "true") s) (ok (bool true, drop 4 s)) false_word
        (λ e. tt)
        λ e.
          Yields-if JsonResult (starts_with (codes "false") s) (ok (bool false, drop 5 s)) null_word
            (λ e. tt)
            λ e.
              Yields-if JsonResult (starts_with (codes "null") s) (ok (null, drop 4 s)) refused
                (λ e. tt) (λ e. tt)

  parse_key-unseen :
      (seen : List Text) (s : Text) → Yields (λ r. includes r.0 seen ≡ false) (parse_key seen s)
  parse_key-unseen seen s =
      Yields-bind (λ t. Unit {0}) (λ r. includes r.0 seen ≡ false)
        (expect b'"' (codes "expected object key") (skip_space s)) _ (Yields-any _)
        λ t h.
          Yields-bind (λ r. Unit {0}) (λ r. includes r.0 seen ≡ false) (parse_string t) _
            (Yields-any _)
            λ (key, rest) k.
              Yields-if (λ r. includes r.0 seen ≡ false) (includes key seen) _ _ (λ e. tt)
                λ e.
                  Yields-bind (λ u. Unit {0}) (λ r. includes r.0 seen ≡ false)
                    (expect b':' (codes "expected ':'") (skip_space rest)) _ (Yields-any _)
                    (λ u l. e)

  mutual
    unfolding parse_value

    parse_value-IsJson : (f : ℕ) (s : Text) → Yields JsonResult (parse_value f s)
    parse_value-IsJson zero s = tt
    parse_value-IsJson (suc f) [] = tt
    parse_value-IsJson (suc f) (c ∷ s) =
        Yields-start JsonResult (start_of c) (parse_object f (skip_space s))
          (parse_array f (skip_space s)) _ (parse_number (c ∷ s)) (parse_word (c ∷ s))
          (parse_object-IsJson f (skip_space s)) (parse_array-IsJson f (skip_space s))
          (Yields-bind (λ r. Unit {0}) JsonResult (parse_string s) _ (Yields-any _)
            (λ (t, rest) k. tt))
          (parse_number-IsJson (c ∷ s)) (parse_word-IsJson (c ∷ s))

    parse_object-IsJson : (f : ℕ) (s : Text) → Yields JsonResult (parse_object f s)
    parse_object-IsJson zero s = tt
    parse_object-IsJson (suc f) s =
        Yields-elim JsonResult (expect b'}' [] s) (λ rest. ok (obj end, rest)) _ (λ t. tt)
          (Yields-bind (MembersResult []) JsonResult (parse_members f [] s) _
            (parse_members-IsJson f [] s) (λ (fs, rest) k. k.0))

    parse_members-IsJson :
        (f : ℕ) (seen : List Text) (s : Text) → Yields (MembersResult seen) (parse_members f seen s)
    parse_members-IsJson zero seen s = tt
    parse_members-IsJson (suc f) seen s =
        Yields-bind (λ r. includes r.0 seen ≡ false) (MembersResult seen) (parse_key seen s) _
          (parse_key-unseen seen s)
          λ (key, rest) k.
            Yields-bind JsonResult (MembersResult seen) (parse_value f (skip_space rest)) _
              (parse_value-IsJson f (skip_space rest))
              λ (v, t) l. after_member-IsJson f seen key v (skip_space t) k l

    after_member-IsJson :
        (f : ℕ) (seen : List Text) (key : Text) (v : Value) (s : Text)
        → includes key seen ≡ false
        → IsJson v
        → Yields (MembersResult seen) (after_member f (key ∷ seen) key v s)
    after_member-IsJson zero seen key v s h j = tt
    after_member-IsJson (suc f) seen key v s h j =
        Yields-elim (MembersResult seen) (expect b',' [] s) (λ t. _) _
          (λ t.
            Yields-bind (MembersResult (key ∷ seen)) (MembersResult seen)
              (parse_members f (key ∷ seen) (drop 1 s)) _
              (parse_members-IsJson f (key ∷ seen) (drop 1 s))
              (λ (fs, rest) k. assign_member-MembersResult seen key v fs rest h j k))
          (Yields-bind (λ t. Unit {0}) (MembersResult seen)
            (expect b'}' (codes "expected ',' or '}'") s) _ (Yields-any _)
            (λ t k. assign_member-MembersResult seen key v end t h j (tt, tt)))

    parse_array-IsJson : (f : ℕ) (s : Text) → Yields JsonResult (parse_array f s)
    parse_array-IsJson zero s = tt
    parse_array-IsJson (suc f) s =
        Yields-elim JsonResult (expect b']' [] s) (λ rest. ok (arr nil, rest)) _ (λ t. tt)
          (Yields-bind ItemsResult JsonResult (parse_elements f s) _ (parse_elements-IsJson f s)
            (λ (vs, rest) k. k))

    parse_elements-IsJson : (f : ℕ) (s : Text) → Yields ItemsResult (parse_elements f s)
    parse_elements-IsJson zero s = tt
    parse_elements-IsJson (suc f) s =
        Yields-bind JsonResult ItemsResult (parse_value f (skip_space s)) _
          (parse_value-IsJson f (skip_space s))
          λ (v, t) l. after_element-IsJson f v (skip_space t) l

    after_element-IsJson :
        (f : ℕ) (v : Value) (s : Text) → IsJson v → Yields ItemsResult (after_element f v s)
    after_element-IsJson zero v s j = tt
    after_element-IsJson (suc f) v s j =
        Yields-elim ItemsResult (expect b',' [] s) (λ t. _) _
          (λ t.
            Yields-bind ItemsResult ItemsResult (parse_elements f (drop 1 s)) _
              (parse_elements-IsJson f (drop 1 s)) (λ (vs, rest) k. (j, k)))
          (Yields-bind (λ t. Unit {0}) ItemsResult (expect b']' (codes "expected ',' or ']'") s) _
            (Yields-any _) (λ t k. (j, tt)))

  trailing-IsJson : (r : Value × Text) → IsJson r.0 → Yields IsJson (trailing r)
  trailing-IsJson (v, []) h = h
  trailing-IsJson (v, c ∷ s) h = tt

  -- A value that the strict parser returns is a JSON value: at no depth is there an `undefined`, a
  -- NaN, or an object with two members of one name.
  pub parse_strict-IsJson : (s : Text) (v : Value) → parse_strict s ≡ ok v → IsJson v
  unfolding parse_strict
  parse_strict-IsJson s v e = subst (Yields IsJson) e (
      Yields-bind JsonResult IsJson (parse_value (5 + 4 * length s) (skip_space s)) _
        (parse_value-IsJson (5 + 4 * length s) (skip_space s))
        λ (v, rest) k. trailing-IsJson (v, skip_space rest) k)
