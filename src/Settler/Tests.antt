-- ===== src/Settler/Tests.antt =====
-- The theorems on executions at a concrete request.
use arky_foundation.Settler.Checked.{pre_check-none, IsAmount}
use arky_foundation.Settler.Idempotency.{execute-repeat}
use arky_foundation.Settler.Ledger.{
  LedgerStep, ledger, left_by, receipt_in, execute-LedgerStep, execute_all, lookup-execute_all,
}
use arky_foundation.Kernel.Evaluate.{is_registered}
use arky_foundation.Sample.{sample_engine}
use arky_foundation.SamplePlatform.{sample_platform}
use arky_foundation.Common.{
  codes, none, some, [], ◌≡◌, ◌≢◌, ◌∷◌, true, lookup, All, refl, false, returns,
}
use arky_foundation.Json.Values.{end, field, str, is_undefined, get_field}
use arky_foundation.Settler.Execute.{
  ExecutionRequest, ExecuteOptions, key_of, pre_check, Receipt, execute, cached, execute_with_key,
  success, args_of, required_args, rail_supported, rail_of, new_receipt, ExecuteResult,
}

abbrev request : ExecutionRequest
request = record {
  verb = codes "arky:verb/signal@v1";
  rail = some (codes "r");
  params = none;
  args = some (field (codes "channel") (str (codes "c")) end);
  commitment_cid = none;
  request_id = none;
  idempotency_key = some (codes "k");
}

abbrev first_options : ExecuteOptions
first_options = record {
  private_key = [];
  kid = none;
  ts = codes "1";
  anchor_target = none;
  store = some [];
}

abbrev stored : Receipt
stored = field (codes "status") (str (codes "success")) end

abbrev options : ExecuteOptions
options = record {
  private_key = [];
  kid = none;
  ts = codes "1";
  anchor_target = none;
  store = some ((codes "k", stored) ∷ []);
}

run : execute request options ≡ (success stored, options.store)
unfolding execute execute_with_key pre_check cached lookup key_of
run = refl

pre_check-none_example :
    (is_registered request.verb ≡ true)
    × All (λ k. is_undefined (get_field k (args_of request)) ≡ false) (required_args request.verb)
    × IsAmount (get_field (codes "amount") (args_of request))
    × (rail_supported (rail_of request) ≡ returns true)
unfolding pre_check
pre_check-none_example = pre_check-none request refl

abbrev sample_receipt_of : ExecuteResult → Receipt
sample_receipt_of (success r) = r
sample_receipt_of _ = end

abbrev first_receipt : Receipt
first_receipt = sample_receipt_of (execute request first_options).0

abbrev second_options : ExecuteOptions
second_options = record {
  private_key = codes "other";
  kid = none;
  ts = codes "2";
  anchor_target = none;
  store = (execute request first_options).1;
}

first_run : (execute request first_options).0 ≡ success first_receipt
unfolding execute execute_with_key pre_check cached lookup key_of new_receipt
first_run = refl

execute-repeat_example :
    execute request second_options ≡ (success first_receipt, second_options.store)
execute-repeat_example =
    execute-repeat request first_options second_options [] first_receipt refl refl first_run

abbrev unknown : ExecutionRequest
unknown = record {
  verb = codes "v";
  rail = none;
  params = none;
  args = none;
  commitment_cid = none;
  request_id = none;
  idempotency_key = none;
}

refused : (receipt : Receipt) → (execute unknown options).0 ≢ success receipt
unfolding execute pre_check
refused receipt e = cc

execute-LedgerStep_example :
    LedgerStep request first_options
      (ledger [])
      (receipt_in (execute request first_options).0)
      (ledger (left_by [] (execute request first_options).1))
execute-LedgerStep_example = execute-LedgerStep request first_options [] refl

lookup-execute_all_example :
    lookup
      (codes "k")
      (execute_all ((unknown, options) ∷ (request, second_options) ∷ []) ((codes "k", stored) ∷ []))
    ≡ some stored
unfolding lookup
lookup-execute_all_example =
    lookup-execute_all ((unknown, options) ∷ (request, second_options) ∷ [])
      ((codes "k", stored) ∷ []) (codes "k") stored refl
