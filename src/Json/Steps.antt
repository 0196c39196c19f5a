-- ===== src/Json/Steps.antt =====
-- packages/core/src/parse.ts: the steps of the strict parser that succeed.
use arky_foundation.Common.{
  ℕ, suc, ◌||◌, ◌==◌, between, true, [], ◌∷◌, ◌++◌, append_assoc, Text, codes, starts_with, false,
  ◌≡◌, ◌≢◌, refl, ap, ◌∙◌, arith, List,
}
use arky_foundation.Engine.{Engine}
use arky_foundation.Platform.{Platform}
use arky_foundation.Number.{Number}
use arky_foundation.Assert.Syntax.{Outcome, ok, thrown, out_of_fuel, ◌>>=◌}
use arky_foundation.Json.Values.{
  Value, null, bool, num, str, arr, obj, Items, nil, cons, Fields, end, field,
}
use arky_foundation.Json.Canonical.{serialize_string, escape_all}
use arky_foundation.Json.Grammar.{
  IsRead, IsNumeral, IsDelimited, parse_number-IsNumeral, parse_string-serialize_string,
}
use arky_foundation.Json.Parse.{
  numeric, start_of, expect, skip_space, assign_member, parse_string, parse_value, parse_object,
  parse_members, parse_array, parse_elements, parse_key,
}

bind-ok {ℓ κ} :
    {A : Type ℓ} {B : Type κ} {m : Outcome A} {a : A} (f : A → Outcome B)
    → m ≡ ok a
    → (m >>= f) ≡ f a
bind-ok f e = ap (λ m. m >>= f) e

start_of-digit :
    ⦃engine : Engine⦄ ⦃platform : Platform⦄ (c : ℕ)
    → (c == b'-' || between b'0' b'9' c) ≡ true
    → start_of c ≡ numeric
start_of-digit c h = ground arith

-- the branch that is taken where no character of a kind follows
otherwise :
    {A : Type 0} (o : Outcome Text) (m : Text → Outcome A) (n : Outcome A)
    → o ≡ thrown []
    → elim o [ ok t ↦ m t | _ ↦ n ] ≡ n
otherwise (ok t) m n h = absurd (ok-ne h)
  where
    ok-ne : ok t ≢ thrown []
    ok-ne = cc
otherwise (thrown e) m n h = refl
otherwise out_of_fuel m n h = refl

module _ ⦃engine : Engine⦄ ⦃platform : Platform⦄ where
  pub value-null : (f : ℕ) (r : Text) → parse_value (suc (suc f)) (codes "null" ++ r) ≡ ok (null, r)
  unfolding parse_value skip_space starts_with
  value-null f r = refl

  pub value-true :
      (f : ℕ) (r : Text) → parse_value (suc (suc f)) (codes "true" ++ r) ≡ ok (bool true, r)
  unfolding parse_value skip_space starts_with
  value-true f r = refl

  pub value-false :
      (f : ℕ) (r : Text) → parse_value (suc (suc f)) (codes "false" ++ r) ≡ ok (bool false, r)
  unfolding parse_value skip_space starts_with
  value-false f r = refl

  pub value-no_elements :
      (f : ℕ) (r : Text) → parse_value (suc (suc f)) (codes "[]" ++ r) ≡ ok (arr nil, r)
  unfolding parse_value skip_space starts_with
  value-no_elements f r = refl

  pub value-no_members :
      (f : ℕ) (r : Text) → parse_value (suc (suc f)) (codes "{}" ++ r) ≡ ok (obj end, r)
  unfolding parse_value skip_space starts_with
  value-no_members f r = refl

  pub value-number :
      (f : ℕ) (n : Number) (c : ℕ) (t r : Text)
      → IsNumeral n (c ∷ t)
      → IsDelimited r
      → parse_value (suc f) ((c ∷ t) ++ r) ≡ ok (num n, r)
  unfolding parse_value
  value-number f n c t r h d =
      rw (parse_value, start_of-digit c h.0) (parse_number-IsNumeral n (c ∷ t) r h d)

  pub value-text :
      (f : ℕ) (s r : Text)
      → IsRead s
      → parse_value (suc f) (serialize_string s ++ r) ≡ ok (str s, r)
  unfolding parse_value serialize_string
  value-text f s r h = bind-ok _ (
      ap parse_string (append_assoc (escape_all s) (codes "\"") r)
      ∙ parse_string-serialize_string s r h)

  pub value-array :
      (f : ℕ) (s : Text) (o : Outcome (Value × Text))
      → skip_space s ≡ s
      → parse_array f s ≡ o
      → parse_value (suc f) (b'[' ∷ s) ≡ o
  unfolding parse_value
  value-array f s o h e = ap (parse_array f) h ∙ e

  pub value-object :
      (f : ℕ) (u : Text) (o : Outcome (Value × Text))
      → parse_object f (b'"' ∷ u) ≡ o
      → parse_value (suc f) (b'{' ∷ b'"' ∷ u) ≡ o
  unfolding parse_value skip_space
  value-object f u o e = e

  pub array-elements :
      (f : ℕ) (s r : Text) (vs : Items)
      → expect b']' [] s ≡ thrown []
      → parse_elements f s ≡ ok (vs, r)
      → parse_array (suc f) s ≡ ok (arr vs, r)
  unfolding parse_value
  array-elements f s r vs h e = otherwise (expect b']' [] s) _ _ h ∙ bind-ok _ e

  pub object-members :
      (f : ℕ) (u r : Text) (fs : Fields)
      → parse_members f [] (b'"' ∷ u) ≡ ok (fs, r)
      → parse_object (suc f) (b'"' ∷ u) ≡ ok (obj fs, r)
  unfolding parse_value
  object-members f u r fs e = bind-ok _ e

  pub elements-last :
      (f : ℕ) (v : Value) (s r : Text)
      → skip_space s ≡ s
      → parse_value (suc f) s ≡ ok (v, b']' ∷ r)
      → parse_elements (suc (suc f)) s ≡ ok (cons v nil, r)
  unfolding parse_elements skip_space
  elements-last f v s r h e = bind-ok _ (ap (parse_value (suc f)) h ∙ e)

  pub elements-more :
      (f : ℕ) (v : Value) (s u r : Text) (vs : Items)
      → skip_space s ≡ s
      → parse_value (suc f) s ≡ ok (v, b',' ∷ u)
      → parse_elements f u ≡ ok (vs, r)
      → parse_elements (suc (suc f)) s ≡ ok (cons v vs, r)
  unfolding parse_elements skip_space
  elements-more f v s u r vs h e k = bind-ok _ (ap (parse_value (suc f)) h ∙ e) ∙ bind-ok _ k

  pub members-last :
      (f : ℕ) (seen : List Text) (k : Text) (v : Value) (s t r : Text)
      → parse_key seen s ≡ ok (k, t)
      → skip_space t ≡ t
      → parse_value (suc f) t ≡ ok (v, b'}' ∷ r)
      → assign_member k v end ≡ field k v end
      → parse_members (suc (suc f)) seen s ≡ ok (field k v end, r)
  unfolding parse_members skip_space
  members-last f seen k v s t r key h e a =
      bind-ok {a = (k, t)} _ key
      ∙ bind-ok _ (ap (parse_value (suc f)) h ∙ e)
      ∙ ap (λ fs. ok (fs, r)) a

  pub members-more :
      (f : ℕ) (seen : List Text) (k : Text) (v : Value) (fs : Fields) (s t u r : Text)
      → parse_key seen s ≡ ok (k, t)
      → skip_space t ≡ t
      → parse_value (suc f) t ≡ ok (v, b',' ∷ u)
      → parse_members f (k ∷ seen) u ≡ ok (fs, r)
      → assign_member k v fs ≡ field k v fs
      → parse_members (suc (suc f)) seen s ≡ ok (field k v fs, r)
  unfolding parse_members skip_space
  members-more f seen k v fs s t u r key h e m a =
      bind-ok {a = (k, t)} _ key
      ∙ bind-ok _ (ap (parse_value (suc f)) h ∙ e)
      ∙ bind-ok _ m
      ∙ ap (λ gs. ok (gs, r)) a
