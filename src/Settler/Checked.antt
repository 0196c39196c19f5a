-- ===== src/Settler/Checked.antt =====
-- packages/core/src/settler.ts: what the pre-checks of `execute` guarantee.
use arky_foundation.Common.{
  Text, Bool, true, false, ◌≡◌, refl, codes, List, [], ◌∷◌, none, some, Option, not, if◌then◌else◌,
  keep, All, inl, inr, Bool-cases, ◌≢◌, Run, returns, throws,
}
use arky_foundation.Kernel.Evaluate.{is_registered}
use arky_foundation.Json.Values.{
  Value, get_field, obj, undefined, is_undefined, null, bool, num, str, arr, Fields,
}
use arky_foundation.Settler.Execute.{
  pre_check, validate_amount, ExecutionRequest, is_positive, is_unit, args_of, required_args,
  rail_supported, rail_of, unless_supported,
}

cons-ne : {x : Text} {xs : List Text} → x ∷ xs ≢ []
cons-ne e = cc

none_kept : (f : Text → Bool) (xs : List Text) → keep f xs ≡ [] → All (λ x. f x ≡ false) xs
none_kept f [] h = tt
none_kept f (x ∷ xs) h = elim (Bool-cases (f x)) [
  | inl p ↦ absurd (cons-ne (rw p at h))
  | inr p ↦ (p, none_kept f xs (rw p at h))
]

-- An amount that `validateAmount` passes is absent, or an object with a positive finite value and a
-- unit that is not empty.
pub data IsAmount : Value → Type 0 where
  absent : IsAmount undefined
  positive :
      (a : Fields)
      → is_positive (get_field (codes "value") a) ≡ true
      → is_unit (get_field (codes "unit") a) ≡ true
      → IsAmount (obj a)

both_passed :
    (p q : Bool) (x y : Text)
    → (if not p then some x else if not q then some y else none) ≡ none
    → (p ≡ true) × (q ≡ true)
both_passed false q x y h = cc
both_passed true false x y h = cc
both_passed true true x y h = (refl, refl)

validate_amount-IsAmount : (v : Value) → validate_amount v ≡ none → IsAmount v
unfolding validate_amount
validate_amount-IsAmount undefined h = absent
validate_amount-IsAmount (obj a) h = let (p, q) = both_passed _ _ _ _ h in positive a p q
validate_amount-IsAmount null h = cc
validate_amount-IsAmount (bool x) h = cc
validate_amount-IsAmount (num x) h = cc
validate_amount-IsAmount (str x) h = cc
validate_amount-IsAmount (arr x) h = cc

abbrev verdict : Bool → List Text → Option Text → Run Bool → Run (Option (Text × List Text))
verdict registered missing amount supported =
    if not registered then returns (some (codes "settler.unknown_verb", [])) else (elim missing [
      | m ∷ ms ↦ returns (some (codes "settler.invalid_args", m ∷ ms))
      | [] ↦ elim amount [
        | some e ↦ returns (some (codes "settler.invalid_args", e ∷ []))
        | none ↦ unless_supported supported
      ]
    ])

all_passed :
    (registered : Bool) (missing : List Text) (amount : Option Text) (supported : Run Bool)
    → verdict registered missing amount supported ≡ returns none
    → (registered ≡ true) × (missing ≡ []) × (amount ≡ none) × (supported ≡ returns true)
all_passed false missing amount supported h = cc
all_passed true (m ∷ ms) amount supported h = cc
all_passed true [] (some e) supported h = cc
all_passed true [] none throws h = cc
all_passed true [] none (returns false) h = cc
all_passed true [] none (returns true) h = (refl, refl, refl, refl)

-- The pre-checks pass a request only if its verb is registered, each argument that the verb requires
-- is there, its amount, if any, is an object with a positive finite value and a nonempty unit, and
-- its rail is supported.
pub pre_check-none :
    (req : ExecutionRequest)
    → pre_check req ≡ returns none
    → (is_registered req.verb ≡ true)
      × All (λ k. is_undefined (get_field k (args_of req)) ≡ false) (required_args req.verb)
      × IsAmount (get_field (codes "amount") (args_of req))
      × (rail_supported (rail_of req) ≡ returns true)
unfolding pre_check
pre_check-none req h =
    let args = args_of req in
    let (r, m, a, s) =
      all_passed (is_registered req.verb)
        (keep (λ k. is_undefined (get_field k args)) (required_args req.verb))
        (validate_amount (get_field (codes "amount") args)) (rail_supported (rail_of req)) h in
    (r, none_kept _ (required_args req.verb) m, validate_amount-IsAmount _ a, s)
