-- ===== src/Audit/Symbols.antt =====
-- packages/mcp/src/audit.ts: which symbols of a call get evidence.
use arky_foundation.Common.{
  or_false, not_true, true, false, not, ◌||◌, List, [], ◌∷◌, ◌++◌, append_assoc, append-nil, keep,
  Text, text_eq, text_eq_refl, text_eq_iff, includes, lookup, lookup-insert, insert, is_some,
  Option, none, some, ◌≡◌, ◌≢◌, refl, sym, ap, subst, ◌∙◌, All, All-map, Bool-cases, inl, inr,
}
use arky_foundation.Policy.Rules.{reserved_symbols}
use arky_foundation.Audit.Evidence.{
  Binding, symbolize, add_text, bind_symbol, bind_name, bind_names, bound_names,
}

abbrev pub IsUnreserved : Text → Type 0
IsUnreserved s = includes s reserved_symbols ≡ false

true-ne : true ≢ false
true-ne e = cc

some-ne : {x : Text} → some x ≢ none
some-ne e = cc

is_none : (o : Option Text) → is_some o ≡ false → o ≡ none
is_none none h = refl
is_none (some x) h = absurd (true-ne h)

differ : (a b : Text) → text_eq a b ≡ false → text_eq b a ≡ false
differ a b h = elim (Bool-cases (text_eq b a)) [
  | inr e ↦ e
  | inl e ↦ absurd (true-ne (sym ((text_eq_iff a b).1 (sym ((text_eq_iff b a).0 e))) ∙ h))
]

includes-append_false :
    (x y : Text) (ys : List Text)
    → includes x (ys ++ y ∷ []) ≡ false
    → (includes x ys ≡ false) × (text_eq x y ≡ false)
unfolding includes
includes-append_false x y [] h = (refl, (or_false _ _ h).0)
includes-append_false x y (z ∷ ys) h =
    let (p, q) = or_false (text_eq x z) _ h in
    let (r, t) = includes-append_false x y ys q in (rw p r, t)

includes-equal : (x y : Text) (ys : List Text) → text_eq x y ≡ true → includes x ys ≡ includes y ys
includes-equal x y ys h = ap (λ z. includes z ys) ((text_eq_iff x y).0 h)

-- A symbol that is not among the collisions after one is added was not among them, and is another.
includes-add_text :
    (x y : Text) (ys : List Text)
    → includes x (add_text y ys) ≡ false
    → (includes x ys ≡ false) × (text_eq y x ≡ false)
includes-add_text x y ys h = elim (Bool-cases (includes y ys)) [
  | inr e ↦ let (p, q) = includes-append_false x y ys (rw e at h) in (p, differ x y q)
  | inl e ↦
      let p : includes x ys ≡ false = rw e at h in
      elim (Bool-cases (text_eq y x)) [
        | inr q ↦ (p, q)
        | inl q ↦ absurd (true-ne (sym e ∙ (includes-equal y x ys q ∙ p)))
      ]
]

not_inserted :
    (s k v : Text) (m : List (Text × Text))
    → lookup s (insert k v m) ≡ none
    → (text_eq k s ≡ false) × (lookup s m ≡ none)
not_inserted s k v m h = elim (Bool-cases (text_eq k s)) [
  | inl e ↦ absurd (some-ne (rw (lookup-insert k s v m, e) at h))
  | inr e ↦ (e, rw (lookup-insert k s v m, e) at h)
]

-- What holds of all entries holds after a new key is inserted.
All-insert_new :
    (P Q : Text × Text → Type 0) (k v : Text) (m : List (Text × Text))
    → lookup k m ≡ none
    → ((e : Text × Text) → text_eq e.0 k ≡ false → P e → Q e)
    → Q (k, v)
    → All P m
    → All Q (insert k v m)
unfolding insert lookup
All-insert_new P Q k v [] n f q h = (q, tt)
All-insert_new P Q k v ((j, w) ∷ m) n f q h = elim (Bool-cases (text_eq j k)) [
  | inl e ↦ absurd (some-ne (rw e at n))
  | inr e ↦ rw e (f (j, w) e h.0, All-insert_new P Q k v m (rw e at n) f q h.1)
]

clash :
    (t s : Text) (b : Binding)
    → t ≡ s
    → includes t reserved_symbols || is_some (lookup t b.by_symbol) ≡ true
    → includes s reserved_symbols || is_some (lookup s b.by_symbol) ≡ true
clash t s b p c =
    subst (λ x. includes x reserved_symbols || is_some (lookup x b.by_symbol) ≡ true) p c

module _ (lower : Text → Text) where
  -- the names whose symbol is `s`
  abbrev pub named : Text → List Text → List Text
  named s names = keep (λ n. text_eq (symbolize lower n) s) names

  named-append_false :
      (s n : Text) (names : List Text)
      → text_eq (symbolize lower n) s ≡ false
      → named s (names ++ n ∷ []) ≡ named s names
  named-append_false s n [] h = rw h refl
  named-append_false s n (m ∷ names) h = elim (Bool-cases (text_eq (symbolize lower m) s)) [
    | inl e ↦ rw (e, named-append_false s n names h) refl
    | inr e ↦ rw (e, named-append_false s n names h) refl
  ]

  named-append_true :
      (s n : Text) (names : List Text)
      → text_eq (symbolize lower n) s ≡ true
      → named s (names ++ n ∷ []) ≡ named s names ++ n ∷ []
  named-append_true s n [] h = rw h refl
  named-append_true s n (m ∷ names) h = elim (Bool-cases (text_eq (symbolize lower m) s)) [
    | inl e ↦ rw (e, named-append_true s n names h) refl
    | inr e ↦ rw (e, named-append_true s n names h) refl
  ]

  -- The symbol is not reserved and the name is the only one of the names that has it.
  abbrev pub IsSole : List Text → Text × Text → Type 0
  IsSole names e = IsUnreserved e.0 × (named e.0 names ≡ e.1 ∷ [])

  abbrev IsTracked : List Text → List Text → Text × Text → Type 0
  IsTracked names collisions e =
      IsUnreserved e.0 × (includes e.0 collisions ≡ false → named e.0 names ≡ e.1 ∷ [])

  -- What the loop has found out about the names so far.
  record Tracks (names : List Text) (b : Binding) : Type 0 where
    entries : All (IsTracked names b.collisions) b.by_symbol
    unbound : (s : Text) → IsUnreserved s → lookup s b.by_symbol ≡ none → named s names ≡ []

  -- A symbol that is not reserved and not bound is not the one that is reserved or bound.
  unnamed :
      (n : Text) (b : Binding)
      → includes (symbolize lower n) reserved_symbols
          || is_some (lookup (symbolize lower n) b.by_symbol)
        ≡ true
      → (s : Text) → IsUnreserved s
      → lookup s b.by_symbol ≡ none
      → text_eq (symbolize lower n) s ≡ false
  unnamed n b c s u l = elim (Bool-cases (text_eq (symbolize lower n) s)) [
    | inr e ↦ e
    | inl e ↦
        absurd
          (true-ne (sym (clash _ s b ((text_eq_iff (symbolize lower n) s).0 e) c) ∙ rw (u, l) refl))
  ]

  collided :
      (names : List Text) (n : Text) (b : Binding)
      → includes (symbolize lower n) reserved_symbols
          || is_some (lookup (symbolize lower n) b.by_symbol)
        ≡ true
      → Tracks names b
      → Tracks (names ++ n ∷ []) (record {
        by_symbol = b.by_symbol;
        collisions = add_text (symbolize lower n) b.collisions;
      })
  collided names n b c t = record {
    entries =
        All-map _ _ b.by_symbol
          (λ e h. (
            h.0,
            λ k.
                let (p, q) = includes-add_text e.0 (symbolize lower n) b.collisions k in
                named-append_false e.0 n names q ∙ h.1 p,
          ))
          t.entries;
    unbound = λ s u l. named-append_false s n names (unnamed n b c s u l) ∙ t.unbound s u l;
  }

  taken :
      (names : List Text) (n : Text) (b : Binding)
      → includes (symbolize lower n) reserved_symbols
          || is_some (lookup (symbolize lower n) b.by_symbol)
        ≡ false
      → Tracks names b
      → Tracks (names ++ n ∷ []) (record {
        by_symbol = insert (symbolize lower n) n b.by_symbol;
        collisions = b.collisions;
      })
  taken names n b c t =
      let (r, f) = or_false _ _ c in
      let free = is_none _ f in
      record {
        entries =
            All-insert_new (IsTracked names b.collisions) (IsTracked (names ++ n ∷ []) b.collisions)
              (symbolize lower n) n b.by_symbol free
              (λ e d h. (
                h.0,
                λ k. named-append_false e.0 n names (differ e.0 (symbolize lower n) d) ∙ h.1 k,
              ))
              (
                r,
                λ k.
                    named-append_true (symbolize lower n) n names (text_eq_refl (symbolize lower n))
                    ∙ ap (λ ns. ns ++ n ∷ []) (t.unbound (symbolize lower n) r free),
              )
              t.entries;
        unbound = λ s u l.
            let (d, k) = not_inserted s (symbolize lower n) n b.by_symbol l in
            named-append_false s n names d ∙ t.unbound s u k;
      }

  bind_name-Tracks :
      (names : List Text) (n : Text) (b : Binding)
      → Tracks names b
      → Tracks (names ++ n ∷ []) (bind_name lower n b)
  unfolding bind_name bind_symbol
  bind_name-Tracks names n b t =
      elim (Bool-cases (
        includes (symbolize lower n) reserved_symbols
        || is_some (lookup (symbolize lower n) b.by_symbol))) [
          | inl c ↦ rw (bind_name, bind_symbol, c) (collided names n b c t)
          | inr c ↦ rw (bind_name, bind_symbol, c) (taken names n b c t)
        ]

  bind_names-Tracks :
      (done names : List Text) (b : Binding)
      → Tracks done b
      → Tracks (done ++ names) (bind_names lower names b)
  unfolding bind_names
  bind_names-Tracks done [] b t = subst (λ ns. Tracks ns b) (sym (append-nil done)) t
  bind_names-Tracks done (n ∷ names) b t =
      subst (λ ns. Tracks ns (bind_names lower names (bind_name lower n b)))
        (append_assoc done (n ∷ []) names)
        (bind_names-Tracks (done ++ n ∷ []) names (bind_name lower n b)
          (bind_name-Tracks done n b t))

  kept :
      (names collisions : List Text) (m : List (Text × Text))
      → All (IsTracked names collisions) m
      → All (IsSole names) (keep (λ e. not (includes e.0 collisions)) m)
  kept names collisions [] h = tt
  kept names collisions (e ∷ m) h = elim (Bool-cases (not (includes e.0 collisions))) [
    | inl q ↦ rw q ((h.0.0, h.0.1 (not_true _ q)), kept names collisions m h.1)
    | inr q ↦ rw q (kept names collisions m h.1)
  ]

  abbrev pub nothing_bound : Binding
  nothing_bound = record { by_symbol = []; collisions = [] }

  -- Whatever the names of the arguments, a symbol that gets evidence is not reserved, so that no
  -- argument can pass for the tool, and among the names of all arguments the one that it is bound to
  -- is the only one that has this symbol.
  pub bound_names-IsSole :
      (names : List Text)
      → All (IsSole names) (bound_names lower (bind_names lower names nothing_bound))
  unfolding bound_names lookup
  bound_names-IsSole names =
      let b = bind_names lower names nothing_bound in
      kept names b.collisions b.by_symbol
        (bind_names-Tracks [] names nothing_bound
          (record { entries = tt; unbound = λ s u l. refl })).entries
