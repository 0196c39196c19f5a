-- ===== src/Kernel/View.antt =====
-- packages/core/src/tim.ts: the parts of a TIM, as JSON, that the Kernel reads.
use arky_foundation.Common.{or_else, Option, none, some, [], codes, List}
use arky_foundation.Json.{Value, Fields, get_field, get, as_text, as_number, items, arr}
use arky_foundation.Kernel.Types.{Tim}

abbrev list_of : Value → Option (List Value)
list_of (arr vs) = some (items vs)
list_of _ = none

-- A member of another type than the interface gives it is taken as absent.
unfoldable pub tim_of : Fields → Tim
unfolding get_field get
tim_of fs =
    let time = get_field (codes "time") fs in
    let measurement = get_field (codes "measurement") fs in
    record {
      ts = or_else (as_text (get (codes "ts") time)) [];
      witnesses = list_of (get (codes "witnesses") time);
      lamport = as_number (get (codes "lamport") (get (codes "ordering") time));
      identity = or_else (as_text (get (codes "id") (get_field (codes "identity") fs))) [];
      value = get (codes "value") measurement;
      unit = as_text (get (codes "unit") measurement);
      device = as_text (get (codes "device") measurement);
      code = as_text (get (codes "code") measurement);
      cid = as_text (get_field (codes "cid") fs);
    }
