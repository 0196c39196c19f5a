-- ===== src/Json/Canonicalized.antt =====
-- packages/core/src/canonicalize.ts: the text of a value whose members are in canonical order.
use mathlib.Core.List.{append_assoc}
use arky_foundation.Common.{
  false, List, [], ◌∷◌, ◌++◌, map, All-append, Option, some, Text, codes, text_eq, text_eq_iff,
  text_eq_refl, includes, All, ◌≡◌, refl, ap, sym, ◌∙◌, arith, Ordering, append-nil,
}
use arky_foundation.Sorting.{sort, sort_into, insert_sorted}
use arky_foundation.Sorting.Comparison.{compare_texts, compare_texts-eq_iff, Ranks-compare_texts}
use arky_foundation.Json.Canonical.{entry, parts, join, join_members, serialize_string}

-- The names are in strict order.
abbrev pub IsAscending : List Text → Type 0
IsAscending [] = Unit
IsAscending (k ∷ ks) = All (λ j. compare_texts k j ≡ Ordering.lt) ks × IsAscending ks

-- `x` comes after every name.
abbrev pub Follows : List Text → Text → Type 0
Follows s x = All (λ y. compare_texts y x ≡ Ordering.lt) s

insert_sorted-last :
    (x : Text) (s : List Text) → Follows s x → insert_sorted compare_texts x s ≡ s ++ (x ∷ [])
unfolding insert_sorted
insert_sorted-last x [] h = refl
insert_sorted-last x (y ∷ s) h =
    ground (arith, Ranks-compare_texts.flipped y x tt tt, insert_sorted-last x s h.1)

Follows-append :
    (s : List Text) (x : Text) (xs : List Text)
    → All (Follows s) xs
    → All (λ j. compare_texts x j ≡ Ordering.lt) xs
    → All (Follows (s ++ (x ∷ []))) xs
Follows-append s x [] h k = tt
Follows-append s x (j ∷ xs) h k = (
  All-append (λ y. compare_texts y j ≡ Ordering.lt) s (x ∷ []) h.0 (k.0, tt),
  Follows-append s x xs h.1 k.1,
)

sort_into-IsAscending :
    (s xs : List Text)
    → All (Follows s) xs
    → IsAscending xs
    → sort_into compare_texts s xs ≡ s ++ xs
unfolding sort_into
sort_into-IsAscending s [] h a = sym (append-nil s)
sort_into-IsAscending s (x ∷ xs) h a =
    ap (λ r. sort_into compare_texts r xs) (insert_sorted-last x s h.0)
    ∙ sort_into-IsAscending (s ++ (x ∷ [])) xs (Follows-append s x xs h.1 a.0) a.1
    ∙ append_assoc s (x ∷ []) xs

pub Follows-nil : (xs : List Text) → All (Follows []) xs
Follows-nil [] = tt
Follows-nil (x ∷ xs) = (tt, Follows-nil xs)

-- Sorting leaves names in order as they are.
pub sort-IsAscending : (xs : List Text) → IsAscending xs → sort compare_texts xs ≡ xs
unfolding sort
sort-IsAscending xs a = sort_into-IsAscending [] xs (Follows-nil xs) a

abbrev pub part : Text × Text → Text
part m = serialize_string m.0 ++ (b':' ∷ m.1)

abbrev pub entries_of : List (Text × Text) → List (Text × Option Text)
entries_of ms = map (λ m. (m.0, some m.1)) ms

abbrev pub names_of : List (Text × Text) → List Text
names_of ms = map (λ m. m.0) ms

names_of_entries : (ms : List (Text × Text)) → map (λ e. e.0) (entries_of ms) ≡ names_of ms
names_of_entries [] = refl
names_of_entries (m ∷ ms) = ap (λ ks. m.0 ∷ ks) (names_of_entries ms)

apart : (k j : Text) → compare_texts k j ≡ Ordering.lt → text_eq k j ≡ false
apart k j h = ground (arith, text_eq_iff k j, compare_texts-eq_iff k j)

apart_back : (k j : Text) → compare_texts k j ≡ Ordering.lt → text_eq j k ≡ false
apart_back k j h = ground (arith, text_eq_iff j k, compare_texts-eq_iff k j)

-- The entries hold the member.
abbrev Holds : List (Text × Option Text) → Text × Text → Type 0
Holds es m = entry m.0 es ≡ some m.1

Holds-cons :
    (k t : Text) (es : List (Text × Option Text)) (ms : List (Text × Text))
    → All (λ j. compare_texts k j ≡ Ordering.lt) (names_of ms)
    → All (Holds es) ms
    → All (Holds ((k, some t) ∷ es)) ms
unfolding entry
Holds-cons k t es [] a h = tt
Holds-cons k t es (m ∷ ms) a h = (rw (entry, apart k m.0 a.0) h.0, Holds-cons k t es ms a.1 h.1)

Holds-own : (ms : List (Text × Text)) → IsAscending (names_of ms) → All (Holds (entries_of ms)) ms
unfolding entry
Holds-own [] a = tt
Holds-own ((k, t) ∷ ms) a =
    (rw (entry, text_eq_refl k) refl, Holds-cons k t (entries_of ms) ms a.0 (Holds-own ms a.1))

parts-Holds :
    (es : List (Text × Option Text)) (ms : List (Text × Text))
    → All (Holds es) ms
    → parts es (names_of ms) ≡ some (map part ms)
unfolding parts
parts-Holds es [] h = refl
parts-Holds es (m ∷ ms) h = rw (parts, h.0, parts-Holds es ms h.1) refl

pub join_members-IsAscending :
    (ms : List (Text × Text))
    → IsAscending (names_of ms)
    → join_members (entries_of ms) ≡ some (b'{' ∷ (join (map part ms) ++ codes "}"))
unfolding join_members
join_members-IsAscending ms a =
    rw
      (
        join_members,
        names_of_entries ms,
        sort-IsAscending (names_of ms) a,
        parts-Holds (entries_of ms) ms (Holds-own ms a),
      )
      refl

pub includes-Follows : (seen : List Text) (j : Text) → Follows seen j → includes j seen ≡ false
unfolding includes
includes-Follows [] j h = refl
includes-Follows (k ∷ seen) j h = rw (includes, apart_back k j h.0) (includes-Follows seen j h.1)

pub Follows-cons :
    (seen : List Text) (k : Text) (js : List Text)
    → All (λ j. compare_texts k j ≡ Ordering.lt) js
    → All (Follows seen) js
    → All (Follows (k ∷ seen)) js
Follows-cons seen k [] a h = tt
Follows-cons seen k (j ∷ js) a h = ((a.0, h.0), Follows-cons seen k js a.1 h.1)
