-- ===== src/Tim/Sealed.antt =====
-- packages/core/src/tim.ts: the members of a signed body.
use arky_foundation.Common.{
  All, ◌≡◌, refl, false, Text, text_eq, List, [], ◌∷◌, ◌++◌, codes, append-nil,
}
use arky_foundation.Json.{Value, str, get_field, of_members}
use arky_foundation.Tim.Create.{without, sealed}

-- No member of a list has the name.
abbrev pub Lacks : Text → List (Text × Value) → Type 0
Lacks k ms = All (λ m. text_eq m.0 k ≡ false) ms

pub get_field-append :
    (k : Text) (xs ys : List (Text × Value))
    → Lacks k xs
    → get_field k (of_members (xs ++ ys)) ≡ get_field k (of_members ys)
unfolding get_field
get_field-append k [] ys h = refl
get_field-append k ((j, v) ∷ xs) ys h = rw (get_field, h.0) (get_field-append k xs ys h.1)

pub without-append :
    (k : Text) (xs ys : List (Text × Value)) (zs : List (Text × Value))
    → Lacks k xs
    → without k (of_members ys) ≡ of_members zs
    → without k (of_members (xs ++ ys)) ≡ of_members (xs ++ zs)
unfolding without
without-append k [] ys zs h e = e
without-append k ((j, v) ∷ xs) ys zs h e = rw (without, h.0, without-append k xs ys zs h.1 e) refl

module _ (body : List (Text × Value)) (cid sig : Text) (no_cid : Lacks (codes "cid") body)
    (no_sig : Lacks (codes "sig") body) where
  pub sealed-cid : get_field (codes "cid") (sealed body cid sig) ≡ str cid
  unfolding get_field
  sealed-cid = get_field-append (codes "cid") body _ no_cid

  pub sealed-sig : get_field (codes "sig") (sealed body cid sig) ≡ str sig
  unfolding get_field
  sealed-sig = get_field-append (codes "sig") body _ no_sig

  -- Without the two members it is the body.
  pub unsealed :
      without (codes "sig") (without (codes "cid") (sealed body cid sig)) ≡ of_members body
  unfolding without
  unsealed =
      rw
        (
          without-append (codes "cid") body ((codes "cid", str cid) ∷ (codes "sig", str sig) ∷ [])
              ((codes "sig", str sig) ∷ []) no_cid refl,
          without-append (codes "sig") body ((codes "sig", str sig) ∷ []) [] no_sig refl,
          append-nil body,
        )
        refl
