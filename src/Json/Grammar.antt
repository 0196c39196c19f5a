-- ===== src/Json/Grammar.antt =====
-- packages/core/src/parse.ts: what the strict parser gives for a text without blanks.
use arky_foundation.Common.{
  true, false, ◌||◌, ◌==◌, between, List, [], ◌∷◌, ◌++◌, some, Text, codes, text_eq, includes, ◌≡◌,
  refl, All, arith,
}
use arky_foundation.Number.{Number, is_nan}
use arky_foundation.Engine.{Engine}
use arky_foundation.Platform.{Platform}
use arky_foundation.Assert.Syntax.{ok}
use arky_foundation.Json.Values.{
  Value, null, bool, num, str, arr, obj, Items, nil, cons, Fields, end, field,
}
use arky_foundation.Json.Canonical.{serialize_string, escape_all}
use arky_foundation.Json.Literal.{scan_string-escape_all}
use arky_foundation.Json.Parse.{is_number_char, skip_space, scan_number, parse_string, parse_number}

module _ ⦃engine : Engine⦄ ⦃platform : Platform⦄ where
  -- `JSON.parse` reads the literal of the text back.
  abbrev pub IsRead : Text → Type 0
  IsRead s = platform.parse_json (serialize_string s) ≡ some (str s)

  -- The text is that of a number, which the engine reads back.
  abbrev pub IsNumeral : Number → Text → Type 0
  IsNumeral n [] = ⊥
  IsNumeral n (c ∷ t) =
      ((c == b'-' || between b'0' b'9' c) ≡ true)
      × All (λ d. is_number_char d ≡ true) (c ∷ t)
      × (engine.number_of_text (c ∷ t) ≡ n)
      × (is_nan n ≡ false)

  -- A text without blanks stands for the value. No object has two members of one name, or a member
  -- `__proto__`.
  mutual
    pub data Written : Value → Text → Type 0 where
      nothing : Written null (codes "null")
      truth : Written (bool true) (codes "true")
      falsehood : Written (bool false) (codes "false")
      number : (n : Number) (t : Text) → IsNumeral n t → Written (num n) t
      text : (s : Text) → IsRead s → Written (str s) (serialize_string s)
      no_elements : Written (arr nil) (codes "[]")
      elements : (vs : Items) (t : Text) → WrittenItems vs t → Written (arr vs) (b'[' ∷ t)
      no_members : Written (obj end) (codes "{}")
      members : (fs : Fields) (t : Text) → WrittenMembers [] fs t → Written (obj fs) (b'{' ∷ t)

    -- the elements, up to the bracket
    pub data WrittenItems : Items → Text → Type 0 where
      last_element :
          (v : Value) (t : Text) → Written v t → WrittenItems (cons v nil) (t ++ codes "]")
      element :
          (v : Value) (t : Text) (vs : Items) (u : Text)
          → Written v t
          → WrittenItems vs u
          → WrittenItems (cons v vs) (t ++ (b',' ∷ u))

    -- the members, up to the brace, after those with the names that were seen
    pub data WrittenMembers : List Text → Fields → Text → Type 0 where
      last_member :
          (seen : List Text) (k : Text) (v : Value) (t : Text)
          → IsName seen k
          → Written v t
          → WrittenMembers seen (field k v end) (serialize_string k ++ (b':' ∷ (t ++ codes "}")))
      member :
          (seen : List Text) (k : Text) (v : Value) (t : Text) (fs : Fields) (u : Text)
          → IsName seen k
          → Written v t
          → WrittenMembers (k ∷ seen) fs u
          → WrittenMembers seen (field k v fs) (serialize_string k ++ (b':' ∷ (t ++ (b',' ∷ u))))

    pub data IsName : List Text → Text → Type 0 where
      name :
          {seen : List Text} {k : Text}
          → IsRead k
          → text_eq k (codes "__proto__") ≡ false
          → includes k seen ≡ false
          → IsName seen k

  -- No character of a number follows.
  abbrev pub IsDelimited : Text → Type 0
  IsDelimited [] = Unit
  IsDelimited (c ∷ s) = is_number_char c ≡ false

  scan_number-append :
      (p r : Text)
      → All (λ d. is_number_char d ≡ true) p
      → IsDelimited r
      → scan_number (p ++ r) ≡ (p, r)
  unfolding scan_number
  scan_number-append [] [] h d = refl
  scan_number-append [] (c ∷ r) h d = rw (scan_number, d) refl
  scan_number-append (c ∷ p) r h d = rw (scan_number, scan_number-append p r h.1 d, h.0) refl

  pub parse_number-IsNumeral :
      (n : Number) (t r : Text)
      → IsNumeral n t
      → IsDelimited r
      → parse_number (t ++ r) ≡ ok (num n, r)
  unfolding parse_number
  parse_number-IsNumeral n [] r h d = absurd h
  parse_number-IsNumeral n (c ∷ t) r (s, a, e, f) d =
      rw (parse_number, scan_number-append (c ∷ t) r a d, e, f) refl

  pub parse_string-serialize_string :
      (s r : Text) → IsRead s → parse_string (escape_all s ++ (b'"' ∷ r)) ≡ ok (s, r)
  unfolding parse_string serialize_string
  parse_string-serialize_string s r h = rw (parse_string, scan_string-escape_all s r, h) refl

  pub skip_space-Written :
      {v : Value} {t : Text} (r : Text) → Written v t → skip_space (t ++ r) ≡ t ++ r
  unfolding skip_space serialize_string
  skip_space-Written r nothing = refl
  skip_space-Written r truth = refl
  skip_space-Written r falsehood = refl
  skip_space-Written r (number n [] h) = absurd h
  skip_space-Written r (number n (c ∷ t) h) = let digit = h.0 in ground arith
  skip_space-Written r (text s h) = refl
  skip_space-Written r no_elements = refl
  skip_space-Written r (elements vs t h) = refl
  skip_space-Written r no_members = refl
  skip_space-Written r (members fs t h) = refl
