-- ===== src/Kernel/Tests.antt =====
-- Runs of the Kernel, and its theorems at a concrete commitment.
use arky_foundation.Assert.Syntax.{pass}
use arky_foundation.Kernel.Evaluate.{run_kernel, evaluate_kernel, assertions_from, resolve}
use arky_foundation.Kernel.Latest.{IsCandidate, IsRanked, select_latest-IsLatest}
use arky_foundation.Kernel.Select.{select_latest, meets, in_window, notary_order}
use arky_foundation.Common.{
  All, codes, List, Text, some, ◌∷◌, [], ◌≡◌, ◌≢◌, none, true, refl, ◌↔◌, Ordering, arith,
}
use arky_foundation.Sample.{sample_engine}
use arky_foundation.Number.{num_one}
use arky_foundation.Json.Values.{bool, null}
use arky_foundation.Kernel.Types.{MeasureSpec, Verb, ConsequenceSpec, Commitment, Tim, approved}
use arky_foundation.Kernel.Approval.{
  evaluate_kernel-approved_iff, AreRegistered, evaluate_kernel-authorized, AllPass,
}

abbrev open_door : MeasureSpec
open_door = record {
  name = codes "open";
  assert = codes "open == true";
  window = none;
  require =
      some (record { min_witnesses = none; device_class = none; code = some (codes "open" ∷ []) });
}

abbrev pay : Verb
pay = record { name = codes "arky:verb/pay@v1"; args = null }

abbrev on_pass : ConsequenceSpec
on_pass = record { if_clause = codes "PASS"; then_verbs = pay ∷ [] }

abbrev commitment : Commitment
commitment = record { measure = some (open_door ∷ []); consequence = some (on_pass ∷ []) }

abbrev evidence : Text → Tim
evidence cid = record {
  ts = codes "5";
  witnesses = none;
  lamport = some num_one;
  identity = codes "a";
  value = bool true;
  unit = none;
  device = none;
  code = some (codes "open");
  cid = some cid;
}

abbrev tims : List Tim
tims = evidence (codes "b") ∷ evidence (codes "c") ∷ []

run : (evaluate_kernel commitment tims (codes "9")).status ≡ approved
unfolding run_kernel
run = refl

evaluate_kernel-approved_iff_example :
    ((evaluate_kernel commitment tims (codes "9")).status ≡ approved) ↔ (
      All (λ k. AreRegistered k.then_verbs) (on_pass ∷ [])
      × (open_door ∷ [] ≢ [])
      × AllPass (assertions_from [] (open_door ∷ []) tims (codes "9"))
      × (resolve (on_pass ∷ []) pass ≢ []))
evaluate_kernel-approved_iff_example =
    evaluate_kernel-approved_iff commitment (open_door ∷ []) (on_pass ∷ []) tims (codes "9") refl
      refl

evaluate_kernel-authorized_example :
    AreRegistered (evaluate_kernel commitment tims (codes "9")).authorized
    × (((evaluate_kernel commitment tims (codes "9")).authorized ≢ [])
        ↔ ((evaluate_kernel commitment tims (codes "9")).status ≡ approved))
evaluate_kernel-authorized_example = evaluate_kernel-authorized commitment tims (codes "9")

selected : select_latest open_door tims (codes "9") ≡ some (evidence (codes "c"))
unfolding run_kernel
selected = refl

ranked : All IsRanked tims
ranked = ground arith

select_latest-IsLatest_example :
    IsCandidate open_door tims (codes "9") (evidence (codes "c"))
    × All
        (λ t.
          meets open_door.require t ≡ true
          → in_window none (codes "9") t ≡ true
          → notary_order (evidence (codes "c")) t ≢ Ordering.lt)
        tims
select_latest-IsLatest_example =
    select_latest-IsLatest open_door tims (codes "9") (evidence (codes "c")) ranked selected
