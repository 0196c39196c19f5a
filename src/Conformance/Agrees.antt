-- ===== src/Conformance/Agrees.antt =====
-- scripts/verify-artifacts.ts and packages/core/src/canonicalize.ts: the two canonical texts.
use arky_foundation.Common.{
  true, false, List, [], ◌∷◌, ◌++◌, map, Option, none, some, Text, codes, text_eq, All, All-map,
  ◌≡◌, refl, ap, sym, ◌∙◌, inl, inr, Bool-cases, text_eq_refl, or_else, ap₂, subst,
}
use arky_foundation.Engine.{Engine}
use arky_foundation.Platform.{Platform}
use arky_foundation.Sorting.{sort}
use arky_foundation.Sorting.Sorted.{sort-All}
use arky_foundation.Sorting.Comparison.{compare_texts}
use arky_foundation.Json.{
  Value, undefined, null, bool, num, str, arr, obj, Items, nil, cons, Fields, end, field,
}
use arky_foundation.Json.Canonical.{
  entry, parts, join, join_members, join_elements, append_entry, serialize, serialize_items,
  serialize_fields, serialize_number, serialize_string, canonicalize,
}
use arky_foundation.Conformance.Jcs.{pairs, jcs_object, jcs, jcs_items, jcs_fields}

module _ ⦃engine : Engine⦄ ⦃platform : Platform⦄ where
  -- `JSON.stringify` writes a text as the serializer of strings does.
  abbrev IsPlainText : Text → Type 0
  IsPlainText s = platform.stringify_json (str s) ≡ serialize_string s

  -- A value of JSON, without `undefined`, in which `JSON.stringify` writes each text and each finite
  -- number as the serializer does. It writes other numbers and unpaired surrogates otherwise.
  unfoldable mutual
    pub IsPlain : Value → Type 0
    IsPlain undefined = ⊥
    IsPlain null = platform.stringify_json null ≡ codes "null"
    IsPlain (bool true) = platform.stringify_json (bool true) ≡ codes "true"
    IsPlain (bool false) = platform.stringify_json (bool false) ≡ codes "false"
    IsPlain (num n) = serialize_number n ≡ some (platform.stringify_json (num n))
    IsPlain (str s) = platform.stringify_json (str s) ≡ serialize_string s
    IsPlain (arr vs) = ArePlainItems vs
    IsPlain (obj fs) = ArePlainFields fs

    pub ArePlainItems : Items → Type 0
    ArePlainItems nil = Unit
    ArePlainItems (cons v vs) = IsPlain v × ArePlainItems vs

    pub ArePlainFields : Fields → Type 0
    ArePlainFields end = Unit
    ArePlainFields (field k v fs) =
        (platform.stringify_json (str k) ≡ serialize_string k) × IsPlain v × ArePlainFields fs

  parts-pairs :
      (es : List (Text × Option Text)) (ks : List Text)
      → All (λ k. IsPlainText k × (t : Text) × (entry k es ≡ some t)) ks
      → parts es ks ≡ some (pairs es ks)
  unfolding parts pairs
  parts-pairs es [] h = refl
  parts-pairs es (k ∷ ks) h = rw (parts, pairs, h.0.2, parts-pairs es ks h.1, h.0.0) refl

  abbrev IsListed : List (Text × Option Text) → Text → Type 0
  IsListed es k = IsPlainText k × (t : Text) × (entry k es ≡ some t)

  entry-some :
      (k j u t : Text) (es : List (Text × Option Text))
      → entry k es ≡ some t
      → (t' : Text) × (entry k ((j, some u) ∷ es) ≡ some t')
  unfolding entry
  entry-some k j u t es h = elim (Bool-cases (text_eq j k)) [
    | inl e ↦ (u, rw e refl)
    | inr e ↦ (t, rw e h)
  ]

  abbrev keys_of : List (Text × Option Text) → List Text
  keys_of es = map (λ e. e.0) es

  join_members-jcs_object :
      (es : List (Text × Option Text))
      → All (IsListed es) (keys_of es)
      → join_members es ≡ some (jcs_object es)
  unfolding join_members jcs_object
  join_members-jcs_object es h =
      rw
        (
          join_members,
          parts-pairs es (sort compare_texts (keys_of es))
              (sort-All compare_texts (IsListed es) (keys_of es) h),
        )
        refl

  pub jcs-some : (v : Value) → IsPlain v → (t : Text) × (jcs v ≡ some t)
  unfolding jcs IsPlain
  jcs-some undefined h = absurd h
  jcs-some null h = (platform.stringify_json null, refl)
  jcs-some (bool b) h = (platform.stringify_json (bool b), refl)
  jcs-some (num n) h = (platform.stringify_json (num n), refl)
  jcs-some (str s) h = (platform.stringify_json (str s), refl)
  jcs-some (arr vs) h = (codes "[" ++ join (jcs_items vs) ++ codes "]", refl)
  jcs-some (obj fs) h = (jcs_object (jcs_fields fs), refl)

  append_entry-IsPlain :
      (v : Value) (k : Text) (o : Option Text) (es : List (Text × Option Text))
      → IsPlain v
      → append_entry v k o es ≡ (k, o) ∷ es
  unfolding IsPlain
  append_entry-IsPlain undefined k o es h = absurd h
  append_entry-IsPlain null k o es h = refl
  append_entry-IsPlain (bool b) k o es h = refl
  append_entry-IsPlain (num n) k o es h = refl
  append_entry-IsPlain (str s) k o es h = refl
  append_entry-IsPlain (arr vs) k o es h = refl
  append_entry-IsPlain (obj fs) k o es h = refl

  cons_item :
      {o : Option Text} {p : Option (List Text)} (j : Option Text) (t : Text) (ts : List Text)
      → o ≡ j
      → j ≡ some t
      → p ≡ some ts
      → elim o [ none ↦ none | some t ↦ elim p [ none ↦ none | some ts ↦ some (t ∷ ts) ] ]
        ≡ some (or_else j [] ∷ ts)
  cons_item j t ts a b c = rw (a, b, c) refl

  IsListed-cons :
      (k t : Text) (es : List (Text × Option Text))
      → IsPlainText k
      → All (IsListed es) (keys_of es)
      → All (IsListed ((k, some t) ∷ es)) (keys_of ((k, some t) ∷ es))
  unfolding entry
  IsListed-cons k t es p h = (
    (p, t, rw (text_eq_refl k) refl),
    All-map (IsListed es) _ (keys_of es)
        (λ j l. (l.0, (entry-some j k t l.1 es l.2).0, (entry-some j k t l.1 es l.2).1)) h,
  )

  -- The two members' lists agree, and each of their keys has a text.
  mutual
    unfolding jcs jcs_items jcs_fields jcs_object serialize serialize_items serialize_fields
        join_elements join_members IsPlain ArePlainItems ArePlainFields

    serialize-jcs : (v : Value) → IsPlain v → serialize v ≡ jcs v
    serialize-jcs undefined h = absurd h
    serialize-jcs null h = ap some (sym h)
    serialize-jcs (bool true) h = ap some (sym h)
    serialize-jcs (bool false) h = ap some (sym h)
    serialize-jcs (num n) h = h
    serialize-jcs (str s) h = ap some (sym h)
    serialize-jcs (arr vs) h = ap join_elements (serialize-jcs_items vs h)
    serialize-jcs (obj fs) h =
        let (e, l) = serialize-jcs_fields fs h in
        ap join_members e ∙ join_members-jcs_object (jcs_fields fs) l

    serialize-jcs_items : (vs : Items) → ArePlainItems vs → serialize_items vs ≡ some (jcs_items vs)
    serialize-jcs_items nil h = refl
    serialize-jcs_items (cons v vs) h =
        let (t, e) = jcs-some v h.0 in
        cons_item (jcs v) t (jcs_items vs) (serialize-jcs v h.0) e (serialize-jcs_items vs h.1)

    serialize-jcs_fields :
        (fs : Fields)
        → ArePlainFields fs
        → (serialize_fields fs ≡ jcs_fields fs)
          × All (IsListed (jcs_fields fs)) (map (λ e. e.0) (jcs_fields fs))
    serialize-jcs_fields end h = (refl, tt)
    serialize-jcs_fields (field k v fs) h =
        let (t, e) = jcs-some v h.1 in
        let (p, l) = serialize-jcs_fields fs h.2 in
        (
          append_entry-IsPlain v k (serialize v) (serialize_fields fs) h.1
              ∙ ap₂ (λ o es. (k, o) ∷ es) (serialize-jcs v h.1) p,
          subst (λ o. All (IsListed ((k, o) ∷ jcs_fields fs)) (keys_of ((k, o) ∷ jcs_fields fs)))
              (sym e) (IsListed-cons k t (jcs_fields fs) h.0 l),
        )

  -- On a value without `undefined`, whose texts and numbers `JSON.stringify` writes as the serializer
  -- of the SDK does, `jcsCanonical` of the scripts gives the canonical text of the SDK.
  pub jcs-canonicalize : (v : Value) → IsPlain v → canonicalize v ≡ jcs v
  unfolding canonicalize
  jcs-canonicalize v h = serialize-jcs v h
