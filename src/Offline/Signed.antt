-- ===== src/Offline/Signed.antt =====
-- packages/mcp/src/verify.ts: what an artifact, and the evidence of a call, satisfy where their
-- checks give no error.
use arky_foundation.Common.{
  Bool, true, false, if◌then◌else◌, List, [], ◌∷◌, ◌++◌, some, Text, codes, Run, returns, throws,
  ◌≡◌, refl, arith, ap, ◌∙◌, inl, inr, Bool-cases, Option-cases, All, returns-injective, throws-ne,
  subst, ◌≢◌,
}
use arky_foundation.Engine.{Engine}
use arky_foundation.Platform.{Platform}
use arky_foundation.Json.{Value, undefined, null, bool, num, str, arr, obj, Fields, get}
use arky_foundation.Json.Canonical.{canonicalize}
use arky_foundation.Codec.Cid.{cid_from_canonical}
use arky_foundation.Tim.Create.{without}
use arky_foundation.Tim.Verify.{VerifyResult, is_value, unless}
use arky_foundation.Offline.Values.{own_properties, includes_value, checked, text_of}
use arky_foundation.Offline.Checks.{
  File, and_then, also, load, signature_holds, verify_artifact, verify_loaded, check_tims,
  tim_errors, check_cited,
}

-- A chain that returns has returned at its first step.
pub and_then-returns {ℓ κ} :
    {A : Type ℓ} {B : Type κ} (m : Run A) (f : A → Run B) {b : B}
    → and_then m f ≡ returns b
    → (a : A) × (m ≡ returns a) × (f a ≡ returns b)
and_then-returns throws f h = cc
and_then-returns (returns a) f h = (a, refl, h)

pub append-eq_nil : (xs ys : List Text) → xs ++ ys ≡ [] → (xs ≡ []) × (ys ≡ [])
append-eq_nil [] ys h = (refl, h)
append-eq_nil (x ∷ xs) ys h = cc

pub unless-eq_nil : (b : Bool) (e : Text) → unless b e ≡ [] → b ≡ true
unless-eq_nil true e h = refl
unless-eq_nil false e h = cc

pub cons-ne : {e : Text} {es : List Text} → e ∷ es ≢ []
cons-ne h = cc

-- Two checks without errors.
pub also-eq_nil :
    (a b : Run (List Text)) → also a b ≡ returns [] → (a ≡ returns []) × (b ≡ returns [])
also-eq_nil throws b h = cc
also-eq_nil (returns es) throws h = cc
also-eq_nil (returns es) (returns fs) h =
    let (p, q) = append-eq_nil es fs (returns-injective h) in (ap returns p, ap returns q)

pub checked-returns {ℓ} :
    {A : Type ℓ} (v : Value) (r : Run A) {a : A} → checked v r ≡ returns a → r ≡ returns a
checked-returns undefined r h = cc
checked-returns null r h = cc
checked-returns (bool x) r h = h
checked-returns (num x) r h = h
checked-returns (str x) r h = h
checked-returns (arr x) r h = h
checked-returns (obj x) r h = h

module _ ⦃engine : Engine⦄ ⦃platform : Platform⦄ where
  -- The cid is that of the canonical text without `cid` and `sig`, and the signature of that text
  -- holds under the key that the identity names.
  pub record IsSigned (artifact did : Value) : Type 0 where
    pub fields : Fields
    pub canonical : Text
    pub own : own_properties artifact ≡ returns fields
    pub serialized :
        canonicalize (obj (without (codes "sig") (without (codes "cid") fields))) ≡ some canonical
    pub identified : is_value (cid_from_canonical canonical) (get (codes "cid") artifact) ≡ true
    pub signed : signature_holds did (get (codes "sig") artifact) canonical ≡ returns true

  pub verify_artifact-IsSigned :
      (artifact did : Value) (label : Text)
      → verify_artifact artifact did label ≡ returns []
      → IsSigned artifact did
  unfolding verify_artifact
  verify_artifact-IsSigned artifact did label h =
      let (fields, own, h₁) = and_then-returns (own_properties artifact) _ h in
      elim (Option-cases
        (canonicalize (obj (without (codes "sig") (without (codes "cid") fields))))) [
          | inl e ↦ absurd (throws-ne (rw e at h₁))
          | inr (canonical, e) ↦
              let h₂ : (and_then (signature_holds did (get (codes "sig") artifact) canonical)
                    λ good. returns (
                      unless (is_value (cid_from_canonical canonical) (get (codes "cid") artifact))
                        (label ++ codes ": cid mismatch")
                      ++ unless good (label ++ codes ": signature invalid")))
                  ≡ returns [] =
                rw e at h₁ in
              let (good, s, h₃) =
                and_then-returns (signature_holds did (get (codes "sig") artifact) canonical) _
                  h₂ in
              let (p, q) = append-eq_nil _ _ (returns-injective h₃) in
              record {
                fields = fields;
                canonical = canonical;
                own = own;
                serialized = e;
                identified = unless-eq_nil _ _ p;
                signed = s ∙ ap returns (unless-eq_nil good _ q);
              }
        ]

  -- Each file holds one of the values, for which `verifyTim` gives a valid result.
  abbrev pub AreValid : List File → List Value → Type 0
  AreValid [] [] = Unit
  AreValid [] (t ∷ ts) = ⊥
  AreValid (f ∷ fs) [] = ⊥
  AreValid (f ∷ fs) (t ∷ ts) =
      (load f.1 ≡ returns t)
      × ((res : VerifyResult) × (verify_loaded t ≡ returns res) × (res.valid ≡ true))
      × AreValid fs ts

  pub check_tims-AreValid :
      (label : Text) (files : List File) (tims : List Value)
      → check_tims label files ≡ returns ([], tims)
      → AreValid files tims
  unfolding check_tims
  check_tims-AreValid label [] [] h = tt
  check_tims-AreValid label [] (t ∷ ts) h = absurd (ground arith)
  check_tims-AreValid label ((name, content) ∷ files) tims h =
      let (tim, l, h₁) = and_then-returns (load content) _ h in
      let (res, v, h₂) = and_then-returns (verify_loaded tim) _ h₁ in
      let (rest, r, h₃) = and_then-returns (check_tims label files) _ h₂ in
      let (p, q) =
        append-eq_nil (tim_errors label name res) rest.0 (ap (λ x. x.0) (returns-injective h₃)) in
      subst (λ ts. AreValid ((name, content) ∷ files) ts) (ap (λ x. x.1) (returns-injective h₃))
        (
          l,
          (res, v, unless-eq_nil res.valid _ p),
          check_tims-AreValid label files rest.1 (r ∙ ap (λ es. returns (es, rest.1)) q),
        )

  -- A TIM without an error is cited.
  cited_of :
      (label : Text) (cid : Value) (cited : List Value)
      → (if includes_value cid cited
          then returns []
          else and_then (text_of cid) λ s.
            returns ((label ++ (codes ": TIM " ++ (s ++ codes " not cited by decision"))) ∷ []))
        ≡ returns []
      → includes_value cid cited ≡ true
  cited_of label cid cited h = elim (Bool-cases (includes_value cid cited)) [
    | inl e ↦ e
    | inr e ↦
        let (s, p, q) = and_then-returns (text_of cid) _ (rw e at h) in
        absurd (cons-ne (returns-injective q))
  ]

  -- The decision cites all of the TIMs.
  pub check_cited-All :
      (label : Text) (cited tims : List Value)
      → check_cited label cited tims ≡ returns []
      → All (λ t. includes_value (get (codes "cid") t) cited ≡ true) tims
  unfolding check_cited
  check_cited-All label cited [] h = tt
  check_cited-All label cited (t ∷ ts) h =
      let (p, q) = also-eq_nil (checked t _) (check_cited label cited ts) h in
      (
        cited_of label (get (codes "cid") t) cited (checked-returns t _ p),
        check_cited-All label cited ts q,
      )
