-- ===== src/Kernel/Approval.antt =====
-- packages/core/src/kernel.ts: when `evaluateKernel` approves, and what it then authorizes.
use arky_foundation.Common.{
  ◌≡◌, refl, ◌≢◌, ◌⊎◌, inl, inr, ◌↔◌, Bool, true, false, List, [], ◌∷◌, map, Option, none, some,
  Text, All, all, any, arith, Bool-cases, Option-cases, ap,
}
use arky_foundation.Engine.{Engine}
use arky_foundation.Assert.Syntax.{TriState, pass}
use arky_foundation.Assert.Eval.{Symbols}
use arky_foundation.Kernel.Types.{
  MeasureSpec, Verb, ConsequenceSpec, Commitment, Tim, AssertionResult, approved, Decision,
}
use arky_foundation.Kernel.Select.{select_latest}
use arky_foundation.Kernel.Evaluate.{
  assess, bind, on_arrays, is_registered, matches_outcome, all_registered, resolve, aggregate,
  decide, is_pass, assertions_from, evaluate_valid, evaluate_kernel, is_indeterminate,
}

-- The verbs of `vs` are all in the registry.
abbrev pub AreRegistered : List Verb → Type 0
AreRegistered vs = All (λ v. is_registered v.name ≡ true) vs

abbrev pub AllPass : List AssertionResult → Type 0
AllPass rs = All (λ r. r.result ≡ pass) rs

all-All : (p : Verb → Bool) (vs : List Verb) → (all p vs ≡ true) ↔ All (λ v. p v ≡ true) vs
all-All p [] = ground arith
all-All p (v ∷ vs) = ground (arith, all-All p vs)

all_registered_iff :
    (cs : List ConsequenceSpec)
    → (all_registered cs ≡ true) ↔ All (λ c. AreRegistered c.then_verbs) cs
unfolding all_registered
all_registered_iff [] = ground arith
all_registered_iff (c ∷ cs) =
    ground (arith, all-All (λ v. is_registered v.name) c.then_verbs, all_registered_iff cs)

is_pass_iff : (rs : List AssertionResult) → (all is_pass rs ≡ true) ↔ AllPass rs
is_pass_iff [] = ground arith
is_pass_iff (r ∷ rs) = ground (arith, is_pass_iff rs)

any_of_all : (rs : List AssertionResult) → AllPass rs → any is_indeterminate rs ≡ false
any_of_all [] h = refl
any_of_all (r ∷ rs) h = ground (arith, any_of_all rs)

-- The results agree on PASS only if there is one and each is PASS.
aggregate-pass_iff : (rs : List AssertionResult) → (aggregate rs ≡ pass) ↔ ((rs ≢ []) × AllPass rs)
unfolding aggregate
aggregate-pass_iff [] = ground arith
aggregate-pass_iff (r ∷ rs) = ground (arith, is_pass_iff (r ∷ rs), any_of_all (r ∷ rs))

-- The verbs of some consequence of the list.
resolve-AreRegistered :
    (cs : List ConsequenceSpec) (t : TriState)
    → All (λ c. AreRegistered c.then_verbs) cs
    → AreRegistered (resolve cs t)
unfolding resolve
resolve-AreRegistered [] t h = tt
resolve-AreRegistered (c ∷ cs) t h = elim (Bool-cases (matches_outcome c.if_clause t)) [
  | inl e ↦ rw e h.0
  | inr e ↦ rw e (resolve-AreRegistered cs t h.1)
]

-- What a decision with authority rests on.
decide-approved_iff :
    (cs : List ConsequenceSpec) (rs : List AssertionResult) (t : TriState)
    → ((decide cs rs t).status ≡ approved) ↔ ((t ≡ pass) × (resolve cs pass ≢ []))
unfolding decide
decide-approved_iff cs rs t = ground arith

decide-authorized :
    (cs : List ConsequenceSpec) (rs : List AssertionResult) (t : TriState)
    → ((decide cs rs t).authorized ≡ [])
      ⊎ ((decide cs rs t).status ≡ approved) × ((decide cs rs t).authorized ≡ resolve cs pass)
unfolding decide
decide-authorized cs rs t = ground arith

decide-authority :
    (cs : List ConsequenceSpec) (rs : List AssertionResult) (t : TriState)
    → ((decide cs rs t).authorized ≢ []) ↔ ((decide cs rs t).status ≡ approved)
unfolding decide
decide-authority cs rs t = ground arith

decide-assertions :
    (cs : List ConsequenceSpec) (rs : List AssertionResult) (t : TriState)
    → (decide cs rs t).assertions ≡ rs
unfolding decide
decide-assertions cs rs t = ground arith

module _ ⦃engine : Engine⦄ where
  -- One result for each measure, in order, under its name.
  assertions_from-names :
      (symbols : Symbols) (specs : List MeasureSpec) (tims : List Tim) (t : Text)
      → map (λ r. r.name) (assertions_from symbols specs tims t) ≡ map (λ s. s.name) specs
  unfolding assertions_from assess
  assertions_from-names symbols [] tims t = refl
  assertions_from-names symbols (s ∷ specs) tims t = elim (Option-cases (select_latest s tims t)) [
    | inl e ↦
        rw (e, assertions_from)
          (ap (λ ns. s.name ∷ ns) (assertions_from-names symbols specs tims t))
    | inr (tim, e) ↦
        rw (e, assertions_from)
          (unfold assess in
            ap (λ ns. s.name ∷ ns) (assertions_from-names (bind s tim symbols) specs tims t))
  ]

  assertions_from-ne :
      (symbols : Symbols) (specs : List MeasureSpec) (tims : List Tim) (t : Text)
      → (assertions_from symbols specs tims t ≢ []) ↔ (specs ≢ [])
  unfolding assertions_from
  assertions_from-ne symbols [] tims t = ground arith
  assertions_from-ne symbols (s ∷ specs) tims t = ground arith

  -- The decision on a commitment with both arrays is APPROVED exactly when every verb that it names
  -- is registered, there is a measure, every assertion passes, and the first consequence that
  -- matches PASS has a verb.
  pub evaluate_kernel-approved_iff :
      (c : Commitment) (specs : List MeasureSpec) (cs : List ConsequenceSpec) (tims : List Tim)
      (t : Text)
      → c.measure ≡ some specs
      → c.consequence ≡ some cs
      → ((evaluate_kernel c tims t).status ≡ approved) ↔ (
          All (λ k. AreRegistered k.then_verbs) cs
          × (specs ≢ [])
          × AllPass (assertions_from [] specs tims t)
          × (resolve cs pass ≢ []))
  unfolding evaluate_kernel evaluate_valid
  evaluate_kernel-approved_iff c specs cs tims t m k =
      rw (m, k)
        (ground (
          arith,
          all_registered_iff cs,
          aggregate-pass_iff (assertions_from [] specs tims t),
          assertions_from-ne [] specs tims t,
          decide-approved_iff cs (assertions_from [] specs tims t)
              (aggregate (assertions_from [] specs tims t)),
        ))

  -- What a decision authorizes, in terms of the registry and of its own status.
  IsSound : Decision → Type 0
  IsSound d = AreRegistered d.authorized × ((d.authorized ≢ []) ↔ (d.status ≡ approved))

  decide-IsSound :
      (cs : List ConsequenceSpec) (rs : List AssertionResult) (t : TriState)
      → All (λ c. AreRegistered c.then_verbs) cs
      → IsSound (decide cs rs t)
  unfolding IsSound
  decide-IsSound cs rs t h = elim (decide-authorized cs rs t) [
    | inl e ↦ (rw e tt, decide-authority cs rs t)
    | inr (a, e) ↦ (rw e (resolve-AreRegistered cs pass h), decide-authority cs rs t)
  ]

  evaluate_valid-IsSound :
      (specs : List MeasureSpec) (cs : List ConsequenceSpec) (tims : List Tim) (t : Text)
      → IsSound (evaluate_valid specs cs tims t)
  unfolding evaluate_valid
  evaluate_valid-IsSound specs cs tims t = elim (Bool-cases (all_registered cs)) [
    | inl e ↦ rw e (decide-IsSound cs _ _ ((all_registered_iff cs).0 e))
    | inr e ↦ rw e (unfold IsSound in (tt, ground arith))
  ]

  arrays-IsSound :
      (m : Option (List MeasureSpec)) (k : Option (List ConsequenceSpec)) (tims : List Tim)
      (t : Text)
      → IsSound (on_arrays m k tims t)
  unfolding IsSound
  arrays-IsSound (some specs) (some cs) tims t = evaluate_valid-IsSound specs cs tims t
  arrays-IsSound (some specs) none tims t = (tt, ground arith)
  arrays-IsSound none k tims t = (tt, ground arith)

  -- Whatever the commitment and the evidence, a decision authorizes verbs only if it is APPROVED,
  -- and then at least one, and only registered ones.
  pub evaluate_kernel-authorized :
      (c : Commitment) (tims : List Tim) (t : Text)
      → AreRegistered (evaluate_kernel c tims t).authorized
        × (((evaluate_kernel c tims t).authorized ≢ [])
            ↔ ((evaluate_kernel c tims t).status ≡ approved))
  unfolding evaluate_kernel IsSound
  evaluate_kernel-authorized c tims t = arrays-IsSound c.measure c.consequence tims t
