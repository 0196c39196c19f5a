-- ===== src/Json/Total.antt =====
-- packages/core/src/parse.ts: the fuel of the parser.
use arky_foundation.Common.{
  subst, ℕ, zero, suc, ◌+◌, ◌*◌, ◌≤◌, ◌<◌, ◌≡◌, refl, ◌≢◌, Bool, true, false, List, [], ◌∷◌, Text,
  length, arith, Option, none, some, if◌then◌else◌, ◌==◌, includes, codes, drop, starts_with,
}
use native.Mathlib.Nat.{le_refl}
use arky_foundation.Number.{is_nan}
use arky_foundation.Engine.{Engine}
use arky_foundation.Platform.{Platform}
use arky_foundation.Json.Values.{Value, undefined, null, bool, num, str, obj, arr, end, nil}
use arky_foundation.Assert.Syntax.{Outcome, ok, thrown, out_of_fuel}
use arky_foundation.Assert.Total.{Safe, Safe-bind, Safe-if, Safe-weaken, Safe-ne-out_of_fuel}
use arky_foundation.Json.Parse.{
  brace, bracket, quote, numeric, word, skip_space, prefixed, scan_string, scan_number,
  parse_string, parse_number, parse_word, Start, start_of, expect, parse_key, parse_value,
  parse_object, parse_members, after_member, parse_array, parse_elements, after_element, trailing,
  parse_strict,
}

length-skip_space : (s : Text) → length (skip_space s) ≤ length s
unfolding skip_space
length-skip_space [] = omega arith
length-skip_space (c ∷ s) = ground (arith, length-skip_space s)

abbrev Left : ℕ → Option (Text × Text) → Type 0
Left n none = Unit
Left n (some r) = length r.1 < n

Left-prefixed :
    (n m : ℕ) (p : Text) (o : Option (Text × Text)) → n ≤ m → Left n o → Left m (prefixed p o)
Left-prefixed n m p none h k = tt
Left-prefixed n m p (some r) h k = omega arith

Left-if :
    (n : ℕ) (b : Bool) (o p : Option (Text × Text))
    → Left n o
    → Left n p
    → Left n (if b then o else p)
Left-if n true o p h k = h
Left-if n false o p h k = k

scan_string-Left : (s : Text) → Left (length s) (scan_string s)
unfolding scan_string
scan_string-Left [] = tt
scan_string-Left (c ∷ []) = Left-if _ (c == b'"') _ none (omega arith) tt
scan_string-Left (c ∷ d ∷ s) =
    let n = length (c ∷ d ∷ s) in
    let escaped : Left n (prefixed (c ∷ d ∷ []) (scan_string s)) =
      Left-prefixed (length s) n (c ∷ d ∷ []) (scan_string s) (omega arith) (scan_string-Left s) in
    let plain : Left n (prefixed (c ∷ []) (scan_string (d ∷ s))) =
      Left-prefixed (length (d ∷ s)) n (c ∷ []) (scan_string (d ∷ s)) (omega arith)
        (scan_string-Left (d ∷ s)) in
    let closed : Left n (some (c ∷ [], d ∷ s)) = omega arith in
    Left-if n (c == 92) (prefixed (c ∷ d ∷ []) (scan_string s))
      (if c == b'"' then some (c ∷ [], d ∷ s) else prefixed (c ∷ []) (scan_string (d ∷ s))) escaped
      (Left-if n (c == b'"') (some (c ∷ [], d ∷ s)) (prefixed (c ∷ []) (scan_string (d ∷ s))) closed
        plain)

length-scan_number : (s : Text) → length (scan_number s).1 ≤ length s
unfolding scan_number
length-scan_number [] = omega arith
length-scan_number (c ∷ s) = ground (arith, length-scan_number s)

module _ ⦃engine : Engine⦄ ⦃platform : Platform⦄ where
  abbrev Behind {ℓ} : {A : Type ℓ} → Text → A × Text → Type 0
  Behind s r = length r.1 ≤ length s

  expect-Safe : (c : ℕ) (m s : Text) → Safe (λ t. length s ≡ 1 + length t) (expect c m s)
  expect-Safe c m [] = tt
  expect-Safe c m (d ∷ s) = Safe-if _ (d == c) (ok s) (thrown m) (λ e. omega arith) (λ e. tt)

  abbrev text_of : Text → Option Value → Outcome (Text × Text)
  text_of rest o = elim o [ some (str t) ↦ ok (t, rest) | _ ↦ thrown (codes "bad string") ]

  text_of-Safe :
      (rest : Text) (n : ℕ) (o : Option Value)
      → length rest < n
      → Safe (λ r. length r.1 < n) (text_of rest o)
  text_of-Safe rest n (some (str t)) h = h
  text_of-Safe rest n none h = tt
  text_of-Safe rest n (some undefined) h = tt
  text_of-Safe rest n (some null) h = tt
  text_of-Safe rest n (some (bool b)) h = tt
  text_of-Safe rest n (some (num x)) h = tt
  text_of-Safe rest n (some (arr vs)) h = tt
  text_of-Safe rest n (some (obj fs)) h = tt

  literal-Safe :
      (n : ℕ) (o : Option (Text × Text))
      → Left n o
      → Safe
          (λ r. length r.1 < n)
          (elim o [
            | none ↦ thrown (codes "unterminated string")
            | some (literal, rest) ↦ text_of rest (platform.parse_json (b'"' ∷ literal))
          ])
  literal-Safe n none h = tt
  literal-Safe n (some (literal, rest)) h =
      text_of-Safe rest n (platform.parse_json (b'"' ∷ literal)) h

  parse_string-Safe : (s : Text) → Safe (λ r. length r.1 < length s) (parse_string s)
  unfolding parse_string
  parse_string-Safe s = literal-Safe (length s) (scan_string s) (scan_string-Left s)

  parse_number-Safe : (s : Text) → Safe (Behind s) (parse_number s)
  unfolding parse_number
  parse_number-Safe s =
      Safe-if (Behind s) (is_nan (engine.number_of_text (scan_number s).0))
        (thrown (codes "bad number"))
        (ok (num (engine.number_of_text (scan_number s).0), (scan_number s).1)) (λ e. tt)
        (λ e. length-scan_number s)

  length-drop : (n : ℕ) (s : Text) → length (drop n s) ≤ length s
  length-drop zero s = omega arith
  length-drop (suc n) [] = omega arith
  length-drop (suc n) (c ∷ s) = omega (arith, length-drop n s)

  parse_word-Safe : (s : Text) → Safe (Behind s) (parse_word s)
  parse_word-Safe s =
      let refused : Outcome (Value × Text) = thrown (codes "unexpected token") in
      let null_word = if starts_with (codes "null") s then ok (null, drop 4 s) else refused in
      let false_word =
        if starts_with (codes "false") s then ok (bool false, drop 5 s) else null_word in
      Safe-if (Behind s) (starts_with (codes "true") s) (ok (bool true, drop 4 s)) false_word
        (λ e. length-drop 4 s)
        λ e.
          Safe-if (Behind s) (starts_with (codes "false") s) (ok (bool false, drop 5 s)) null_word
            (λ e. length-drop 5 s)
            λ e.
              Safe-if (Behind s) (starts_with (codes "null") s) (ok (null, drop 4 s)) refused
                (λ e. length-drop 4 s) (λ e. tt)

  expect-Shorter :
      (c : ℕ) (m s : Text) (n : ℕ)
      → length s ≤ n
      → Safe (λ t. length t < n) (expect c m (skip_space s))
  expect-Shorter c m s n h =
      Safe-weaken (λ t. length (skip_space s) ≡ 1 + length t) (λ t. length t < n)
        (expect c m (skip_space s)) (λ t k. omega (arith, length-skip_space s))
        (expect-Safe c m (skip_space s))

  parse_key-Safe :
      (seen : List Text) (s : Text) → Safe (λ r. length r.1 < length s) (parse_key seen s)
  parse_key-Safe seen s =
      Safe-bind (λ t. length t < length s) (λ r. length r.1 < length s)
        (expect b'"' (codes "expected object key") (skip_space s)) _
        (expect-Shorter b'"' (codes "expected object key") s (length s) (le_refl (length s)))
        λ t h.
          Safe-bind (λ r. length r.1 < length t) (λ r. length r.1 < length s) (parse_string t) _
            (parse_string-Safe t)
            λ (key, rest) k.
              Safe-if (λ r. length r.1 < length s) (includes key seen) _ _ (λ e. tt)
                λ e.
                  Safe-bind (λ u. length u < length s) (λ r. length r.1 < length s)
                    (expect b':' (codes "expected ':'") (skip_space rest)) _
                    (expect-Shorter b':' (codes "expected ':'") rest (length s) (omega arith))
                    λ u l. l

  -- What stands behind a chosen branch.
  branch :
      {A : Type 0} (P : A → Type 0) (o : Outcome Text) (m n : Outcome A)
      → ((t : Text) → o ≡ ok t → Safe P m)
      → Safe P n
      → Safe P (elim o [ ok t ↦ m | _ ↦ n ])
  branch P (ok t) m n h k = h t refl
  branch P (thrown e) m n h k = k
  branch P out_of_fuel m n h k = k

  finished :
      {A : Type 0} (P : A → Type 0) (o : Outcome Text) (f : Text → A) (n : Outcome A)
      → ((t : Text) → o ≡ ok t → P (f t))
      → Safe P n
      → Safe P (elim o [ ok t ↦ ok (f t) | _ ↦ n ])
  finished P (ok t) f n h k = h t refl
  finished P (thrown e) f n h k = k
  finished P out_of_fuel f n h k = k

  expect-length : (c : ℕ) (m s t : Text) → expect c m s ≡ ok t → length s ≡ 1 + length t
  expect-length c m s t e = subst (Safe (λ t. length s ≡ 1 + length t)) e (expect-Safe c m s)

  length-drop_one : (s t : Text) → length s ≡ 1 + length t → 1 + length (drop 1 s) ≡ length s
  length-drop_one [] t e = absurd (omega arith)
  length-drop_one (c ∷ s) t e = omega arith

  started :
      {A : Type 0} (P : A → Type 0) (k : Start) (m n o p q : Outcome A)
      → Safe P m
      → Safe P n
      → Safe P o
      → Safe P p
      → Safe P q
      → Safe P (elim k [ brace ↦ m | bracket ↦ n | quote ↦ o | numeric ↦ p | word ↦ q ])
  started P brace m n o p q a b c d e = a
  started P bracket m n o p q a b c d e = b
  started P quote m n o p q a b c d e = c
  started P numeric m n o p q a b c d e = d
  started P word m n o p q a b c d e = e

  wider :
      {A : Type 0} (s t : Text) (m : Outcome (A × Text))
      → length t ≤ length s
      → Safe (Behind t) m
      → Safe (Behind s) m
  wider s t m h k = Safe-weaken (Behind t) (Behind s) m (λ r l. omega arith) k

  mutual
    unfolding parse_value

    parse_value-Safe : (f : ℕ) (s : Text) → 4 * length s + 1 ≤ f → Safe (Behind s) (parse_value f s)
    parse_value-Safe zero s h = absurd (omega arith)
    parse_value-Safe (suc f) [] h = tt
    parse_value-Safe (suc f) (c ∷ s) h =
        started (Behind (c ∷ s)) (start_of c) (parse_object f (skip_space s))
          (parse_array f (skip_space s)) _ (parse_number (c ∷ s)) (parse_word (c ∷ s))
          (wider (c ∷ s) (skip_space s) (parse_object f (skip_space s))
            (omega (arith, length-skip_space s))
            (parse_object-Safe f (skip_space s) (omega (arith, length-skip_space s))))
          (wider (c ∷ s) (skip_space s) (parse_array f (skip_space s))
            (omega (arith, length-skip_space s))
            (parse_array-Safe f (skip_space s) (omega (arith, length-skip_space s))))
          (Safe-bind (λ r. length r.1 < length s) (Behind (c ∷ s)) (parse_string s) _
            (parse_string-Safe s) (λ (t, rest) k. omega arith))
          (parse_number-Safe (c ∷ s)) (parse_word-Safe (c ∷ s))

    parse_object-Safe :
        (f : ℕ) (s : Text) → 4 * length s + 4 ≤ f → Safe (Behind s) (parse_object f s)
    parse_object-Safe zero s h = absurd (omega arith)
    parse_object-Safe (suc f) s h =
        finished (Behind s) (expect b'}' [] s) (λ rest. (obj end, rest)) _
          (λ t e. omega (arith, expect-length b'}' [] s t e))
          (Safe-bind (Behind s) (Behind s) (parse_members f [] s) _
            (parse_members-Safe f [] s (omega arith)) (λ (fs, rest) k. k))

    parse_members-Safe :
        (f : ℕ) (seen : List Text) (s : Text)
        → 4 * length s + 3 ≤ f
        → Safe (Behind s) (parse_members f seen s)
    parse_members-Safe zero seen s h = absurd (omega arith)
    parse_members-Safe (suc f) seen s h =
        Safe-bind (λ r. length r.1 < length s) (Behind s) (parse_key seen s) _
          (parse_key-Safe seen s)
          λ (key, rest) k.
            Safe-bind (Behind (skip_space rest)) (Behind s) (parse_value f (skip_space rest)) _
              (parse_value-Safe f (skip_space rest) (omega (arith, length-skip_space rest)))
              λ (v, t) l.
                wider s (skip_space t) (after_member f (key ∷ seen) key v (skip_space t))
                  (omega (arith, length-skip_space t, length-skip_space rest))
                  (after_member-Safe f (key ∷ seen) key v (skip_space t)
                    (omega (arith, length-skip_space t, length-skip_space rest)))

    after_member-Safe :
        (f : ℕ) (seen : List Text) (key : Text) (v : Value) (s : Text)
        → 4 * length s + 1 ≤ f
        → Safe (Behind s) (after_member f seen key v s)
    after_member-Safe zero seen key v s h = absurd (omega arith)
    after_member-Safe (suc f) seen key v s h =
        branch (Behind s) (expect b',' [] s) _ _
          (λ t e.
            Safe-bind (Behind (drop 1 s)) (Behind s) (parse_members f seen (drop 1 s)) _
              (parse_members-Safe f seen (drop 1 s)
                (omega (arith, length-drop_one s t (expect-length b',' [] s t e))))
              (λ (fs, rest) k. omega (arith, length-drop 1 s)))
          (Safe-bind (λ t. length s ≡ 1 + length t) (Behind s)
            (expect b'}' (codes "expected ',' or '}'") s) _
            (expect-Safe b'}' (codes "expected ',' or '}'") s) (λ t k. omega arith))

    parse_array-Safe : (f : ℕ) (s : Text) → 4 * length s + 4 ≤ f → Safe (Behind s) (parse_array f s)
    parse_array-Safe zero s h = absurd (omega arith)
    parse_array-Safe (suc f) s h =
        finished (Behind s) (expect b']' [] s) (λ rest. (arr nil, rest)) _
          (λ t e. omega (arith, expect-length b']' [] s t e))
          (Safe-bind (Behind s) (Behind s) (parse_elements f s) _
            (parse_elements-Safe f s (omega arith)) (λ (vs, rest) k. k))

    parse_elements-Safe :
        (f : ℕ) (s : Text) → 4 * length s + 3 ≤ f → Safe (Behind s) (parse_elements f s)
    parse_elements-Safe zero s h = absurd (omega arith)
    parse_elements-Safe (suc f) s h =
        Safe-bind (Behind (skip_space s)) (Behind s) (parse_value f (skip_space s)) _
          (parse_value-Safe f (skip_space s) (omega (arith, length-skip_space s)))
          λ (v, t) l.
            wider s (skip_space t) (after_element f v (skip_space t))
              (omega (arith, length-skip_space t, length-skip_space s))
              (after_element-Safe f v (skip_space t)
                (omega (arith, length-skip_space t, length-skip_space s)))

    after_element-Safe :
        (f : ℕ) (v : Value) (s : Text)
        → 4 * length s + 1 ≤ f
        → Safe (Behind s) (after_element f v s)
    after_element-Safe zero v s h = absurd (omega arith)
    after_element-Safe (suc f) v s h =
        branch (Behind s) (expect b',' [] s) _ _
          (λ t e.
            Safe-bind (Behind (drop 1 s)) (Behind s) (parse_elements f (drop 1 s)) _
              (parse_elements-Safe f (drop 1 s)
                (omega (arith, length-drop_one s t (expect-length b',' [] s t e))))
              (λ (vs, rest) k. omega (arith, length-drop 1 s)))
          (Safe-bind (λ t. length s ≡ 1 + length t) (Behind s)
            (expect b']' (codes "expected ',' or ']'") s) _
            (expect-Safe b']' (codes "expected ',' or ']'") s) (λ t k. omega arith))

  trailing-Safe : (r : Value × Text) → Safe (λ v. Unit {0}) (trailing r)
  trailing-Safe (v, []) = tt
  trailing-Safe (v, c ∷ s) = tt

  -- The strict parser's fuel suffices for every text, whatever `JSON.parse` gives for its strings.
  pub parse_strict-ne-out_of_fuel : (s : Text) → parse_strict s ≢ out_of_fuel
  unfolding parse_strict
  parse_strict-ne-out_of_fuel s =
      Safe-ne-out_of_fuel (λ v. Unit {0}) (parse_strict s)
        (Safe-bind (Behind (skip_space s)) (λ v. Unit {0})
          (parse_value (5 + 4 * length s) (skip_space s)) _
          (parse_value-Safe (5 + 4 * length s) (skip_space s) (omega (arith, length-skip_space s)))
          λ (v, rest) k. trailing-Safe (v, skip_space rest))
