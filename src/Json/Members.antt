-- ===== src/Json/Members.antt =====
-- packages/core/src/parse.ts: the names of an object's members, and what a JSON value is.
use arky_foundation.Common.{false, Text, text_eq, text_eq_refl, ◌≡◌, ◌≢◌, arith, subst}
use arky_foundation.Number.{is_nan}
use arky_foundation.Json.Values.{
  Value, undefined, null, bool, num, str, arr, obj, Items, nil, cons, Fields, end, field,
}

-- Every name of a member satisfies `P`.
abbrev pub Names : (Text → Type 0) → Fields → Type 0
Names P end = Unit
Names P (field j v fs) = P j × Names P fs

-- No member has the name.
abbrev pub Fresh : Text → Fields → Type 0
Fresh k fs = Names (λ j. j ≢ k) fs

-- A JSON value: no `undefined` and no NaN at any depth, and no object with two members of one name.
abbrev mutual
  pub IsJson : Value → Type 0
  IsJson undefined = ⊥
  IsJson null = Unit
  IsJson (bool b) = Unit
  IsJson (num n) = is_nan n ≡ false
  IsJson (str s) = Unit
  IsJson (arr vs) = AreJson vs
  IsJson (obj fs) = AreMembers fs

  pub AreJson : Items → Type 0
  AreJson nil = Unit
  AreJson (cons v vs) = IsJson v × AreJson vs

  pub AreMembers : Fields → Type 0
  AreMembers end = Unit
  AreMembers (field k v fs) = IsJson v × Fresh k fs × AreMembers fs

pub text_eq-ne : (j k : Text) → text_eq j k ≡ false → j ≢ k
text_eq-ne j k h e =
    let t : text_eq k k ≡ false = subst (λ j. text_eq j k ≡ false) e h in
    let s = text_eq_refl k in ground arith
