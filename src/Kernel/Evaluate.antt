-- ===== src/Kernel/Evaluate.antt =====
-- packages/core/src/kernel.ts: `evaluateKernel` and `matchesOutcome`.
use arky_foundation.Common.{
  ℕ, Bool, true, false, ◌&&◌, ◌||◌, if◌then◌else◌, ◌==◌, between, all, any, List, [], ◌∷◌, ◌++◌,
  reverse, Option, none, some, Text, codes, text_eq, includes, insert,
}
use arky_foundation.Engine.{Engine}
use arky_foundation.Json.{Value, undefined, null, bool, num, str, arr, obj, Items, nil, cons, get}
use arky_foundation.Assert.Syntax.{Scalar, TriState, pass, fail}
use arky_foundation.Assert.Eval.{Symbols, evaluate_assertion}
use arky_foundation.Kernel.Types.{
  MeasureSpec, Verb, ConsequenceSpec, Commitment, Tim, AssertionResult, DecisionStatus, approved,
  rejected, Decision,
}
use arky_foundation.Kernel.Select.{select_latest}

abbrev pub registered_verbs : List Text
registered_verbs =
    codes "arky:verb/pay@v1"
    ∷ codes "arky:verb/refund@v1"
    ∷ codes "arky:verb/slash@v1"
    ∷ codes "arky:verb/revoke@v1"
    ∷ codes "arky:verb/upgrade@v1"
    ∷ codes "arky:verb/signal@v1"
    ∷ codes "arky:verb/control@v1"
    ∷ []

-- `REGISTERED_VERBS.has(name)`
unfoldable pub is_registered : Text → Bool
unfolding includes
is_registered name = includes name registered_verbs

-- white space and line ends of the language
unfoldable pub is_space : ℕ → Bool
is_space c =
    between 9 13 c
    || c == 32
    || c == 0xa0
    || c == 0x1680
    || between 0x2000 0x200a c
    || between 0x2028 0x2029 c
    || c == 0x202f
    || c == 0x205f
    || c == 0x3000
    || c == 0xfeff

unfoldable pub trim_start : Text → Text
unfolding is_space
trim_start [] = []
trim_start (c ∷ s) = if is_space c then trim_start s else c ∷ s

unfoldable pub trim : Text → Text
unfolding trim_start
trim s = reverse (trim_start (reverse (trim_start s)))

unfoldable pub matches_outcome : Text → TriState → Bool
unfolding trim text_eq
matches_outcome if_clause pass = text_eq (trim if_clause) (codes "PASS")
matches_outcome if_clause fail = text_eq (trim if_clause) (codes "FAIL")
matches_outcome if_clause TriState.indeterminate = text_eq (trim if_clause) (codes "INDETERMINATE")

-- The verbs of every consequence are registered.
unfoldable pub all_registered : List ConsequenceSpec → Bool
unfolding is_registered
all_registered cs = all (λ c. all (λ v. is_registered v.name) c.then_verbs) cs

-- The verbs of the first consequence that matches.
unfoldable pub resolve : List ConsequenceSpec → TriState → List Verb
unfolding matches_outcome
resolve [] overall = []
resolve (c ∷ cs) overall =
    if matches_outcome c.if_clause overall then c.then_verbs else resolve cs overall

abbrev pub is_indeterminate : AssertionResult → Bool
is_indeterminate r = elim r.result [ TriState.indeterminate ↦ true | _ ↦ false ]

abbrev pub is_pass : AssertionResult → Bool
is_pass r = elim r.result [ pass ↦ true | _ ↦ false ]

abbrev pub nonempty {ℓ} : {A : Type ℓ} → List A → Bool
nonempty [] = false
nonempty (x ∷ xs) = true

unfoldable pub aggregate : List AssertionResult → TriState
aggregate rs =
    if any is_indeterminate rs
    then TriState.indeterminate
    else if nonempty rs && all is_pass rs
    then pass
    else fail

unfoldable pub decide : List ConsequenceSpec → List AssertionResult → TriState → Decision
unfolding resolve
decide cs rs TriState.indeterminate = record {
  status = DecisionStatus.indeterminate;
  assertions = rs;
  authorized = [];
  errors = [];
}
decide cs rs pass =
    let verbs = resolve cs pass in
    if nonempty verbs
    then record { status = approved; assertions = rs; authorized = verbs; errors = [] }
    else record { status = rejected; assertions = rs; authorized = []; errors = [] }
decide cs rs fail = record { status = rejected; assertions = rs; authorized = []; errors = [] }

abbrev pub refuse : Text → Decision
refuse code = record { status = rejected; assertions = []; authorized = []; errors = code ∷ [] }

module _ ⦃engine : Engine⦄ where
  -- the text of an array that is ordered: its elements' texts, with commas between them
  unfoldable mutual
    pub join_value : Value → Text
    join_value undefined = []
    join_value null = []
    join_value (bool true) = codes "true"
    join_value (bool false) = codes "false"
    join_value (num n) = engine.text_of_number n
    join_value (str s) = s
    join_value (arr vs) = join_items vs
    join_value (obj fs) = codes "[object Object]"

    pub join_items : Items → Text
    join_items nil = []
    join_items (cons v nil) = join_value v
    join_items (cons v (cons w vs)) = join_value v ++ (b',' ∷ join_items (cons w vs))

  -- A measured value as the assertion language reads it. No object has methods of its own.
  unfoldable pub scalar : Value → Scalar
  unfolding join_value
  scalar undefined = Scalar.undefined
  scalar null = Scalar.null
  scalar (bool b) = Scalar.bool b
  scalar (num n) = Scalar.num n
  scalar (str s) = Scalar.str s
  scalar v = Scalar.object (join_value v)

  abbrev pub nonempty_cid : Option Text → List Text
  nonempty_cid none = []
  nonempty_cid (some []) = []
  nonempty_cid (some (c ∷ s)) = (c ∷ s) ∷ []

  abbrev pub no_receipt : Text → AssertionResult
  no_receipt name = record {
    name = name;
    result = TriState.indeterminate;
    input_value = none;
    unit = none;
    inputs = none;
    error = some (codes "no matching receipts");
  }

  -- `value.value`; that of `null` raises, and is taken to be undefined here.
  unfoldable pub inner_of : Value → Option Scalar
  unfolding scalar get
  inner_of undefined = none
  inner_of v = some (scalar (get (codes "value") v))

  -- The symbols with that of `spec` bound to the value of `tim`.
  abbrev pub bind : MeasureSpec → Tim → Symbols → Symbols
  bind spec tim symbols =
      insert spec.name
        (record { value = scalar tim.value; unit = tim.unit; inner = inner_of tim.value }) symbols

  unfoldable pub assess : MeasureSpec → Tim → Symbols → AssertionResult
  assess spec tim symbols =
      let (result, error) = evaluate_assertion spec.assert (bind spec tim symbols) in
      record {
        name = spec.name;
        result = result;
        input_value = some tim.value;
        unit = tim.unit;
        inputs = some (nonempty_cid tim.cid);
        error = error;
      }

  -- The loop over the measures.
  unfoldable pub assertions_from :
      Symbols → List MeasureSpec → List Tim → Text → List AssertionResult
  assertions_from symbols [] tims eval_time = []
  assertions_from symbols (spec ∷ specs) tims eval_time = elim (select_latest spec tims eval_time) [
    | none ↦ no_receipt spec.name ∷ assertions_from symbols specs tims eval_time
    | some tim ↦
        assess spec tim symbols ∷ assertions_from (bind spec tim symbols) specs tims eval_time
  ]

  unfoldable pub evaluate_valid :
      List MeasureSpec → List ConsequenceSpec → List Tim → Text → Decision
  evaluate_valid specs cs tims eval_time =
      let rs = assertions_from [] specs tims eval_time in
      if all_registered cs
      then decide cs rs (aggregate rs)
      else refuse (codes "kernel.unknown_verb")

  abbrev pub on_arrays :
      Option (List MeasureSpec) → Option (List ConsequenceSpec) → List Tim → Text → Decision
  on_arrays (some specs) (some cs) tims eval_time = evaluate_valid specs cs tims eval_time
  on_arrays _ _ tims eval_time = refuse (codes "kernel.invalid_commitment")

  -- `eval_time` is `opts.time`, or the current time where that is absent.
  unfoldable pub evaluate_kernel : Commitment → List Tim → Text → Decision
  evaluate_kernel c tims eval_time = on_arrays c.measure c.consequence tims eval_time

-- What a run of the Kernel unfolds.
unfoldable pub run_kernel : Unit {0}
unfolding evaluate_kernel evaluate_valid all_registered assertions_from select_latest assess insert
    scalar evaluate_assertion aggregate decide
run_kernel = tt
