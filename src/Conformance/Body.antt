-- ===== src/Conformance/Body.antt =====
-- scripts/sign-artifacts.ts: the body of a TIM that was signed is the body that it had before.
use arky_foundation.Common.{
  true, false, if◌then◌else◌, Text, codes, text_eq, text_eq_iff, text_eq_refl, returns, ◌≡◌, ◌≢◌,
  refl, ap, sym, ◌∙◌, inl, inr, Bool-cases, arith,
}
use arky_foundation.Json.{Value, undefined, obj, Fields, end, field, get_field}
use arky_foundation.Tim.Create.{without, has_field, replace_field, drop_witnesses, strip_witnesses}
use arky_foundation.Conformance.Artifact.{body_of}
use arky_foundation.Conformance.Sign.{put_field}

-- A member that is set does not matter where it is left out.
pub without-put_field_self :
    (k : Text) (v : Value) (fs : Fields) → without k (put_field k v fs) ≡ without k fs
unfolding without put_field
without-put_field_self k v end = rw (text_eq_refl k) refl
without-put_field_self k v (field j w fs) = elim (Bool-cases (text_eq j k)) [
  | inl e ↦ rw (e, without, e) refl
  | inr e ↦ rw (e, without, e) (ap (field j w) (without-put_field_self k v fs))
]

other : (i j k : Text) → text_eq i j ≡ true → text_eq j k ≡ false → text_eq i k ≡ false
other i j k e h = ap (λ x. text_eq x k) ((text_eq_iff i j).0 e) ∙ h

pub without-put_field :
    (k j : Text) (v : Value) (fs : Fields)
    → text_eq j k ≡ false
    → without k (put_field j v fs) ≡ put_field j v (without k fs)
unfolding without put_field
without-put_field k j v end h = rw h refl
without-put_field k j v (field i w fs) h = elim (Bool-cases (text_eq i j)) [
  | inl e ↦ rw (e, other i j k e h, e) refl
  | inr e ↦ elim (Bool-cases (text_eq i k)) [
    | inl f ↦ rw (e, f) (without-put_field k j v fs h)
    | inr f ↦ rw (e, f, e) (ap (field i w) (without-put_field k j v fs h))
  ]
]

pub get_field-put_field_self :
    (k : Text) (v : Value) (fs : Fields) → get_field k (put_field k v fs) ≡ v
unfolding get_field put_field
get_field-put_field_self k v end = rw (text_eq_refl k) refl
get_field-put_field_self k v (field j w fs) = elim (Bool-cases (text_eq j k)) [
  | inl e ↦ rw (e, get_field, e) refl
  | inr e ↦ rw (e, get_field, e) (get_field-put_field_self k v fs)
]

pub get_field-put_field :
    (k j : Text) (v : Value) (fs : Fields)
    → text_eq j k ≡ false
    → get_field k (put_field j v fs) ≡ get_field k fs
unfolding get_field put_field
get_field-put_field k j v end h = rw h refl
get_field-put_field k j v (field i w fs) h =
    ground
      (arith, text_eq_iff i j, text_eq_iff i k, text_eq_iff j k, get_field-put_field k j v fs h)

get_field-without :
    (k j : Text) (fs : Fields) → text_eq j k ≡ false → get_field k (without j fs) ≡ get_field k fs
unfolding get_field without
get_field-without k j end h = refl
get_field-without k j (field i w fs) h = elim (Bool-cases (text_eq i j)) [
  | inl e ↦ rw (e, other i j k e h) (get_field-without k j fs h)
  | inr e ↦ rw (e, get_field) (ap (λ v. if text_eq i k then w else v) (get_field-without k j fs h))
]

-- A member that an object has.
pub has_field-get_field :
    (k : Text) (fs : Fields) → get_field k fs ≢ undefined → has_field k fs ≡ true
unfolding get_field has_field
has_field-get_field k end h = absurd (h refl)
has_field-get_field k (field j w fs) h = elim (Bool-cases (text_eq j k)) [
  | inl e ↦ rw e refl
  | inr e ↦ rw e (has_field-get_field k fs (λ n. h (rw e n)))
]

has_field-replace_field :
    (k : Text) (v : Value) (fs : Fields) → has_field k (replace_field k v fs) ≡ has_field k fs
unfolding has_field replace_field
has_field-replace_field k v end = refl
has_field-replace_field k v (field j w fs) = elim (Bool-cases (text_eq j k)) [
  | inl e ↦ rw (e, has_field, e) refl
  | inr e ↦ rw (e, has_field, e) (has_field-replace_field k v fs)
]

without-replace_field :
    (k : Text) (v : Value) (fs : Fields) → without k (replace_field k v fs) ≡ without k fs
unfolding without replace_field
without-replace_field k v end = refl
without-replace_field k v (field j w fs) = elim (Bool-cases (text_eq j k)) [
  | inl e ↦ rw (e, without, e) refl
  | inr e ↦ rw (e, without, e) (ap (field j w) (without-replace_field k v fs))
]

replace_field-put_field :
    (k : Text) (v w : Value) (fs : Fields)
    → has_field k fs ≡ true
    → replace_field k v (put_field k w fs) ≡ replace_field k v fs
unfolding has_field replace_field put_field
replace_field-put_field k v w end h = cc
replace_field-put_field k v w (field j u fs) h = elim (Bool-cases (text_eq j k)) [
  | inl e ↦ rw (e, replace_field, e) refl
  | inr e ↦ rw (e, replace_field, e) (ap (field j u) (replace_field-put_field k v w fs (rw e at h)))
]

-- `cid` and `sig` are not in the body.
rest_of : Fields → Fields
rest_of fs = without (codes "sig") (without (codes "cid") fs)

rest_of-put_field :
    (k : Text) (v : Value) (fs : Fields)
    → text_eq k (codes "cid") ≡ false
    → text_eq k (codes "sig") ≡ false
    → rest_of (put_field k v fs) ≡ put_field k v (rest_of fs)
unfolding rest_of
rest_of-put_field k v fs c s =
    ap (without (codes "sig")) (without-put_field (codes "cid") k v fs c)
    ∙ without-put_field (codes "sig") k v (without (codes "cid") fs) s

rest_of-sealed :
    (cid sig : Value) (fs : Fields)
    → rest_of (put_field (codes "sig") sig (put_field (codes "cid") cid fs)) ≡ rest_of fs
unfolding rest_of text_eq
rest_of-sealed cid sig fs =
    ap (without (codes "sig"))
      (without-put_field (codes "cid") (codes "sig") sig (put_field (codes "cid") cid fs) refl)
    ∙ (without-put_field_self (codes "sig") sig
          (without (codes "cid") (put_field (codes "cid") cid fs))
        ∙ ap (without (codes "sig")) (without-put_field_self (codes "cid") cid fs))

get_field-rest_of :
    (k : Text) (fs : Fields)
    → text_eq (codes "cid") k ≡ false
    → text_eq (codes "sig") k ≡ false
    → get_field k (rest_of fs) ≡ get_field k fs
unfolding rest_of
get_field-rest_of k fs c s =
    get_field-without k (codes "sig") (without (codes "cid") fs) s
    ∙ get_field-without k (codes "cid") fs c

obj-ne : {fs : Fields} → obj fs ≢ undefined
obj-ne e = cc

-- New witnesses are stripped as the old ones were.
strip_witnesses-witnessed :
    (time r : Fields) (vs : Value)
    → has_field (codes "witnesses") time ≡ true
    → has_field (codes "time") r ≡ true
    → strip_witnesses
        (obj (replace_field (codes "witnesses") vs time))
        (put_field (codes "time") (obj (replace_field (codes "witnesses") vs time)) r)
      ≡ strip_witnesses (obj time) r
unfolding strip_witnesses
strip_witnesses-witnessed time r vs w t =
    rw
      (
        has_field-replace_field (codes "witnesses") vs time,
        w,
        without-replace_field (codes "witnesses") vs time,
      )
      (ap returns (dropped (without (codes "witnesses") time)))
  where
    dropped :
        (left : Fields)
        → drop_witnesses left
            (put_field (codes "time") (obj (replace_field (codes "witnesses") vs time)) r)
          ≡ drop_witnesses left r
    dropped end = without-put_field_self (codes "time") _ r
    dropped (field k v fs) = replace_field-put_field (codes "time") (obj (field k v fs)) _ r t

-- The body of a TIM with another cid, signature and witnesses is its body.
pub body_of-sealed :
    (cid sig : Value) (tim : Fields)
    → body_of (put_field (codes "sig") sig (put_field (codes "cid") cid tim)) ≡ body_of tim
unfolding body_of rest_of
body_of-sealed cid sig tim =
    ap (λ r. strip_witnesses (get_field (codes "time") r) r) (rest_of-sealed cid sig tim)

pub body_of-witnessed :
    (vs : Value) (time tim : Fields)
    → get_field (codes "time") tim ≡ obj time
    → has_field (codes "witnesses") time ≡ true
    → body_of (put_field (codes "time") (obj (replace_field (codes "witnesses") vs time)) tim)
      ≡ body_of tim
unfolding body_of rest_of text_eq
body_of-witnessed vs time tim e w =
    let r = rest_of tim in
    let held : get_field (codes "time") r ≡ obj time =
      get_field-rest_of (codes "time") tim refl refl ∙ e in
    let new = obj (replace_field (codes "witnesses") vs time) in
    ap (λ s. strip_witnesses (get_field (codes "time") s) s)
      (rest_of-put_field (codes "time") new tim refl refl)
    ∙ (ap (λ t. strip_witnesses t (put_field (codes "time") new r))
          (get_field-put_field_self (codes "time") new r)
        ∙ (strip_witnesses-witnessed time r vs w
              (has_field-get_field (codes "time") r (λ n. obj-ne (sym held ∙ n)))
            ∙ ap (λ t. strip_witnesses t r) (sym held)))
