-- ===== src/Settler/Keys.antt =====
-- packages/core/src/settler.ts: the key of a request, and what its receipt names.
use arky_foundation.Common.{
  Text, codes, List, [], Option, none, some, ◌≡◌, refl, ap, sym, ◌∙◌, or_else, ◌≢◌, inl, inr,
  some_bind, some-injective, Option-cases,
}
use arky_foundation.Number.{num_zero}
use arky_foundation.Engine.{Engine}
use arky_foundation.Platform.{Bytes, Platform}
use arky_foundation.Json.{Value, Fields, str, obj, get_field, object}
use arky_foundation.Json.Canonical.{canonicalize}
use arky_foundation.Tim.Create.{sign_body, sealed}
use arky_foundation.Settler.Execute.{
  Receipt, ExecutionRequest, ExecuteOptions, args_of, rail_of, or_empty, args_hash, hash_text,
  components, derive_idempotency_key, key_of, receipt_body, new_receipt,
}

-- What the key of a request is derived from; the index of the verb is 0.
abbrev pub components_of :
    ⦃engine : Engine⦄ → ⦃platform : Platform⦄ → ExecutionRequest → Text → Value
components_of req hash =
    components hash (or_else req.commitment_cid []) (or_empty (rail_of req)) req.verb num_zero

-- The key of a request: the one that it supplies, or the hash of the canonical text of its components
-- and of the hash of its arguments.
pub data IsKeyOf ⦃engine : Engine⦄ ⦃platform : Platform⦄ (req : ExecutionRequest) (key : Text)
    : Type 0 where
  supplied : req.idempotency_key ≡ some key → IsKeyOf req key
  derived :
      (arguments text : Text)
      → req.idempotency_key ≡ none
      → canonicalize (obj (args_of req)) ≡ some arguments
      → canonicalize (components_of req (hash_text arguments)) ≡ some text
      → key ≡ hash_text text
      → IsKeyOf req key

-- The receipt is one for this request and this key.
pub record IsReceiptOf (req : ExecutionRequest) (key : Text) (receipt : Receipt) : Type 0 where
  pub names_key : get_field (codes "idempotency_key") receipt ≡ str key
  pub names_verb : get_field (codes "verb") receipt ≡ str req.verb
  pub names_rail : get_field (codes "rail") receipt ≡ or_empty (rail_of req)

key_none-ne : {k : Text} → none ≢ some k
key_none-ne e = cc

module _ ⦃engine : Engine⦄ ⦃platform : Platform⦄ where
  hashed_args :
      (args : Fields) (hash : Text)
      → args_hash (obj args) ≡ some hash
      → (s : Text) × (canonicalize (obj args) ≡ some s) × (hash_text s ≡ hash)
  unfolding args_hash
  hashed_args args hash h =
      let (s, e, k) = some_bind (canonicalize (obj args)) _ h in (s, e, some-injective k)

  -- A derived key is the key of the request.
  derived-IsKeyOf :
      (req : ExecutionRequest) (key : Text)
      → req.idempotency_key ≡ none
      → derive_idempotency_key req.commitment_cid req.verb (rail_of req) (obj (args_of req)) none
        ≡ some key
      → IsKeyOf req key
  unfolding derive_idempotency_key
  derived-IsKeyOf req key n h =
      let (hash, e, k) = some_bind (args_hash (obj (args_of req))) _ h in
      let (s, f, g) = hashed_args (args_of req) hash e in
      let (t, u, v) =
        some_bind (canonicalize (components_of req hash)) (λ s. some (hash_text s)) k in
      derived s t n f (ap (λ x. canonicalize (components_of req x)) g ∙ u) (sym (some-injective v))

  pub key_of-IsKeyOf :
      (req : ExecutionRequest) (key : Text) → key_of req ≡ some key → IsKeyOf req key
  unfolding key_of
  key_of-IsKeyOf req key h = elim (Option-cases req.idempotency_key) [
    | inr (k, e) ↦ supplied (e ∙ rw (key_of, e) at h)
    | inl e ↦ derived-IsKeyOf req key e (rw (key_of, e) at h)
  ]

  IsKeyOf-key_of : (req : ExecutionRequest) (key : Text) → IsKeyOf req key → key_of req ≡ some key
  unfolding key_of derive_idempotency_key args_hash
  IsKeyOf-key_of req key (supplied e) = rw (key_of, e) refl
  IsKeyOf-key_of req key (derived s t n e f g) =
      rw (key_of, n, derive_idempotency_key, args_hash, e, f, g) refl

  pub keyless-IsKeyOf :
      (req : ExecutionRequest) → key_of req ≡ none → (key : Text) → ¬ IsKeyOf req key
  keyless-IsKeyOf req h key k = key_none-ne (sym h ∙ IsKeyOf-key_of req key k)

  sign_body-sealed :
      (body : List (Text × Value)) (seed : Bytes) (kid : Option Text) (receipt : Receipt)
      → sign_body body seed kid ≡ some receipt
      → (cid : Text) × (sig : Text) × (receipt ≡ sealed body cid sig)
  unfolding sign_body
  sign_body-sealed body seed kid receipt h =
      let (s, e, k) = some_bind (canonicalize (object body)) _ h in (_, _, sym (some-injective k))

  pub new_receipt-IsReceiptOf :
      (req : ExecutionRequest) (opts : ExecuteOptions) (key : Text) (receipt : Receipt)
      → new_receipt req opts key ≡ some receipt
      → IsReceiptOf req key receipt
  unfolding new_receipt receipt_body get_field
  new_receipt-IsReceiptOf req opts key receipt h =
      let (hash, e, k) = some_bind (args_hash (obj (args_of req))) _ h in
      let (cid, sig, r) =
        sign_body-sealed (receipt_body req opts key hash) opts.private_key opts.kid receipt k in
      record { names_key = rw r refl; names_verb = rw r refl; names_rail = rw r refl }
