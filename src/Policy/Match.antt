-- ===== src/Policy/Match.antt =====
-- packages/mcp/src/policy.ts: which rule `matchRule` finds.
use arky_foundation.Common.{
  Bool, true, false, List, [], ◌∷◌, none, some, Text, codes, text_eq, find, All, ◌≡◌, refl, ◌↔◌,
  Bool-cases, Option-cases, inl, inr, arith, ◌⊎◌, sym, ◌≢◌, ◌∙◌,
}
use arky_foundation.Policy.Rules.{PolicyFile, PolicyRule, match_rule}

find-none :
    (p : PolicyRule → Bool) (xs : List PolicyRule) → find p xs ≡ none → All (λ x. p x ≡ false) xs
find-none p [] h = tt
find-none p (x ∷ xs) h = elim (Bool-cases (p x)) [
  | inl e ↦ absurd (ground arith)
  | inr e ↦ (e, find-none p xs (ground arith))
]

none-find :
    (p : PolicyRule → Bool) (xs : List PolicyRule) → All (λ x. p x ≡ false) xs → find p xs ≡ none
none-find p [] h = refl
none-find p (x ∷ xs) h = rw h.0 (none-find p xs h.1)

some-ne : {r : PolicyRule} → some r ≢ none
some-ne e = cc

found_named :
    (p : PolicyRule → Bool) (xs : List PolicyRule) (r : PolicyRule)
    → find p xs ≡ some r
    → p r ≡ true
found_named p [] r h = cc
found_named p (x ∷ xs) r h = elim (Bool-cases (p x)) [
  | inl e ↦ ground arith
  | inr e ↦ found_named p xs r (ground arith)
]

-- No rule matches a tool exactly if no rule of the policy names it and none names `*`.
match_rule-none_iff :
    (policy : PolicyFile) (tool : Text)
    → (match_rule policy tool ≡ none) ↔ (
        All (λ r. text_eq r.tool tool ≡ false) policy.rules
        × All (λ r. text_eq r.tool (codes "*") ≡ false) policy.rules)
unfolding match_rule
match_rule-none_iff policy tool =
    elim (Option-cases (find (λ r. text_eq r.tool tool) policy.rules)) [
      | inl e ↦ (
        λ h. (find-none _ policy.rules e, find-none _ policy.rules (ground arith)),
        λ k. rw (match_rule, e) (none-find _ policy.rules k.1),
      )
      | inr (r, e) ↦
          (λ h. absurd (ground arith), λ k. absurd (some-ne (sym e ∙ none-find _ policy.rules k.0)))
    ]

-- A matching rule names the tool; or it names `*`, and then no rule names the tool.
match_rule-some :
    (policy : PolicyFile) (tool : Text) (rule : PolicyRule)
    → match_rule policy tool ≡ some rule
    → (text_eq rule.tool tool ≡ true)
      ⊎ ((text_eq rule.tool (codes "*") ≡ true)
          × All (λ r. text_eq r.tool tool ≡ false) policy.rules)
unfolding match_rule
match_rule-some policy tool rule h =
    elim (Option-cases (find (λ r. text_eq r.tool tool) policy.rules)) [
      | inl e ↦ inr (
        found_named (λ r. text_eq r.tool (codes "*")) policy.rules rule (ground arith),
        find-none _ policy.rules e,
      )
      | inr (r, e) ↦ inl (found_named (λ r. text_eq r.tool tool) policy.rules rule (ground arith))
    ]
