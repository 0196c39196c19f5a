-- ===== src/Codec/Raise.antt =====
-- packages/core/src/jws.ts: when `verifyDetached` raises.
use arky_foundation.Common.{
  Bool, true, false, ◌&&◌, if◌then◌else◌, List, [], ◌∷◌, Option, none, some, Text, codes, text_eq,
  text_eq_iff, ◌≡◌, refl, ap, ◌↔◌, inl, inr, arith, Run, returns, throws, ◌≢◌, Run-cases,
  Bool-cases, and_left, and_right,
}
use arky_foundation.Number.{Number}
use arky_foundation.Platform.{Bytes, Platform}
use arky_foundation.Json.{Value, undefined, null, bool, num, str, arr, obj, Fields, get}
use arky_foundation.Codec.Jws.{
  is_text, is_false, includes_b64, check_header, split_dots, verify_signature, decode_header,
  verify_parts, verify_detached,
}

-- what follows the decoding of the header, where `good` is the outcome of the signature
abbrev judged : Option Value → Bool → Run Bool
judged o good = elim o [
  | none ↦ returns false
  | some header ↦ elim (check_header header) [
    | throws ↦ throws
    | returns false ↦ returns false
    | returns true ↦ returns good
  ]
]

judged-returns :
    (header : Value) (good b : Bool)
    → check_header header ≡ returns b
    → judged (some header) good ≢ throws
judged-returns header good true e h = absurd (ground arith)
judged-returns header good false e h = absurd (ground arith)

judged-throws :
    (header : Value) (good : Bool)
    → judged (some header) good ≡ throws
    → check_header header ≡ throws
judged-throws header good h = elim (Run-cases (check_header header)) [
  | inl e ↦ e
  | inr (b, e) ↦ absurd (judged-returns header good b e h)
]

judged_throw :
    (header other : Value) (good : Bool)
    → some header ≡ some other
    → check_header other ≡ throws
    → judged (some header) good ≡ throws
judged_throw header other good e t = let e' : header ≡ other = cc in rw e' (rw (judged, t) refl)

judged-throws_iff :
    (o : Option Value) (good : Bool)
    → (judged o good ≡ throws)
      ↔ ((header : Value) × (o ≡ some header) × (check_header header ≡ throws))
judged-throws_iff none good = (λ h. absurd (cc), λ (header, e, t). absurd (cc))
judged-throws_iff (some header) good = (
  λ h. (header, refl, judged-throws header good h),
  λ (other, e, t). judged_throw header other good e t,
)

-- A value without a method `includes` that `?.` does not skip.
pub data HasNoIncludes : Value → Type 0 where
  a_bool : (b : Bool) → HasNoIncludes (bool b)
  a_num : (n : Number) → HasNoIncludes (num n)
  an_obj : (fs : Fields) → HasNoIncludes (obj fs)

-- A header on which the checks raise: `null`, or one with the right `alg` and `b64` whose `crit` is a
-- number, a Boolean or an object.
pub data IsBroken : Value → Type 0 where
  a_null : IsBroken null
  bad_crit :
      (header : Value)
      → get (codes "alg") header ≡ str (codes "EdDSA")
      → get (codes "b64") header ≡ bool false
      → HasNoIncludes (get (codes "crit") header)
      → IsBroken header

includes_b64-throws : (v : Value) → includes_b64 v ≡ throws → HasNoIncludes v
unfolding includes_b64
includes_b64-throws undefined h = cc
includes_b64-throws null h = cc
includes_b64-throws (bool b) h = a_bool b
includes_b64-throws (num n) h = a_num n
includes_b64-throws (str s) h = cc
includes_b64-throws (arr vs) h = cc
includes_b64-throws (obj fs) h = an_obj fs

HasNoIncludes-throws : (v : Value) → HasNoIncludes v → includes_b64 v ≡ throws
unfolding includes_b64
HasNoIncludes-throws v (a_bool b) = refl
HasNoIncludes-throws v (a_num n) = refl
HasNoIncludes-throws v (an_obj fs) = refl

is_text-str : (s : Text) (v : Value) → is_text s v ≡ true → v ≡ str s
is_text-str s (str t) h = ap str ((text_eq_iff t s).0 h)
is_text-str s undefined h = cc
is_text-str s null h = cc
is_text-str s (bool b) h = cc
is_text-str s (num n) h = cc
is_text-str s (arr vs) h = cc
is_text-str s (obj fs) h = cc

is_false-bool : (v : Value) → is_false v ≡ true → v ≡ bool false
is_false-bool (bool false) h = refl
is_false-bool (bool true) h = cc
is_false-bool undefined h = cc
is_false-bool null h = cc
is_false-bool (num n) h = cc
is_false-bool (str s) h = cc
is_false-bool (arr vs) h = cc
is_false-bool (obj fs) h = cc

-- the checks of a header that is not `null`
abbrev checked : Value → Run Bool
checked header =
    if is_text (codes "EdDSA") (get (codes "alg") header) && is_false (get (codes "b64") header)
    then includes_b64 (get (codes "crit") header)
    else returns false

returns-ne : {b : Bool} → returns b ≢ throws
returns-ne e = cc

checked-IsBroken : (header : Value) → checked header ≡ throws → IsBroken header
checked-IsBroken header h =
    let t = is_text (codes "EdDSA") (get (codes "alg") header) in
    let f = is_false (get (codes "b64") header) in
    elim (Bool-cases (t && f)) [
      | inr e ↦ absurd (returns-ne (rw e at h))
      | inl e ↦
          bad_crit header (is_text-str _ _ (and_left t f e)) (is_false-bool _ (and_right t f e))
            (includes_b64-throws _ (rw e at h))
    ]

bad_crit-checked :
    (header : Value)
    → get (codes "alg") header ≡ str (codes "EdDSA")
    → get (codes "b64") header ≡ bool false
    → HasNoIncludes (get (codes "crit") header)
    → checked header ≡ throws
unfolding text_eq
bad_crit-checked header a b c = rw (a, b) (HasNoIncludes-throws _ c)

check_header-IsBroken : (header : Value) → check_header header ≡ throws → IsBroken header
unfolding check_header
check_header-IsBroken null h = a_null
check_header-IsBroken undefined h = checked-IsBroken undefined h
check_header-IsBroken (bool b) h = checked-IsBroken (bool b) h
check_header-IsBroken (num n) h = checked-IsBroken (num n) h
check_header-IsBroken (str s) h = checked-IsBroken (str s) h
check_header-IsBroken (arr vs) h = checked-IsBroken (arr vs) h
check_header-IsBroken (obj fs) h = checked-IsBroken (obj fs) h

check_bad : (header : Value) → checked header ≡ throws → check_header header ≡ throws
unfolding check_header
check_bad null h = refl
check_bad undefined h = h
check_bad (bool b) h = h
check_bad (num n) h = h
check_bad (str s) h = h
check_bad (arr vs) h = h
check_bad (obj fs) h = h

IsBroken-check_header : (header : Value) → IsBroken header → check_header header ≡ throws
unfolding check_header
IsBroken-check_header header a_null = refl
IsBroken-check_header header (bad_crit v a b c) = check_bad v (bad_crit-checked v a b c)

module _ ⦃platform : Platform⦄ where
  -- The parts of a signature on whose header the checks raise.
  pub record Raises (protected : Text) (others : List Text) : Type 0 where
    pub signature : Text
    pub header : Value
    pub detached : others ≡ [] ∷ signature ∷ []
    pub decoded : decode_header protected ≡ some header
    pub broken : IsBroken header

  parts-Raises :
      (protected : Text) (others : List Text) (payload key : Bytes)
      → verify_parts protected others payload key ≡ throws
      → Raises protected others
  unfolding verify_parts
  parts-Raises protected ([] ∷ signature ∷ []) payload key h =
      let (header, e, t) =
        (judged-throws_iff (decode_header protected)
            (verify_signature protected signature payload key)).0
          h in
      record {
        signature = signature;
        header = header;
        detached = refl;
        decoded = e;
        broken = check_header-IsBroken header t;
      }
  parts-Raises protected [] payload key h = absurd (returns-ne h)
  parts-Raises protected ([] ∷ []) payload key h = absurd (returns-ne h)
  parts-Raises protected ((c ∷ s) ∷ others) payload key h = absurd (returns-ne h)
  parts-Raises protected ([] ∷ t ∷ u ∷ others) payload key h = absurd (returns-ne h)

  Raises-parts :
      (protected : Text) (others : List Text) (payload key : Bytes)
      → Raises protected others
      → verify_parts protected others payload key ≡ throws
  unfolding verify_parts
  Raises-parts protected others payload key r = rw r.detached (
      (judged-throws_iff (decode_header protected)
          (verify_signature protected r.signature payload key)).1
        (r.header, r.decoded, IsBroken-check_header r.header r.broken))

  -- The verification of a detached signature raises exactly if the text has three parts, of which the
  -- second is empty, and the first decodes to `null`, or to a value with the right `alg` and `b64`
  -- whose `crit` is a number, a Boolean or an object.
  pub verify_detached-throws_iff :
      (jws : Text) (payload key : Bytes)
      → (verify_detached jws payload key ≡ throws) ↔ Raises (split_dots jws).0 (split_dots jws).1
  unfolding verify_detached
  verify_detached-throws_iff jws payload key = (
    parts-Raises (split_dots jws).0 (split_dots jws).1 payload key,
    Raises-parts (split_dots jws).0 (split_dots jws).1 payload key,
  )
