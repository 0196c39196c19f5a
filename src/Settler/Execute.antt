-- ===== src/Settler/Execute.antt =====
-- packages/core/src/settler.ts: `execute` with its checks, and the idempotency keys.
use arky_foundation.Common.{
  Bool, true, false, not, ◌&&◌, if◌then◌else◌, List, [], ◌∷◌, ◌++◌, Option, none, some, or_else,
  Text, codes, text_eq, starts_with, take, drop, keep, lookup, insert, Run, returns, throws,
}
use arky_foundation.Number.{Number, num_zero, num_le, is_finite}
use arky_foundation.Engine.{Engine}
use arky_foundation.Platform.{Bytes, Platform}
use arky_foundation.Json.{
  Value, undefined, null, num, str, obj, Fields, end, get_field, object, array, is_undefined,
}
use arky_foundation.Json.Canonical.{canonicalize}
use arky_foundation.Codec.Cid.{to_multibase, multihash_sha256}
use arky_foundation.Kernel.Evaluate.{is_registered}
use arky_foundation.Tim.Create.{is_truthy, sign_body}

-- `VERB_REQUIRED_ARGS`
abbrev pub verb_required_args : List (Text × List Text)
verb_required_args =
    (codes "arky:verb/pay@v1", codes "to" ∷ codes "amount" ∷ [])
    ∷ (codes "arky:verb/refund@v1", codes "payment_ref" ∷ [])
    ∷ (codes "arky:verb/slash@v1", codes "subject" ∷ codes "amount" ∷ [])
    ∷ (codes "arky:verb/revoke@v1", codes "subject" ∷ [])
    ∷ (codes "arky:verb/upgrade@v1", codes "target" ∷ codes "version" ∷ [])
    ∷ (codes "arky:verb/signal@v1", codes "channel" ∷ [])
    ∷ (codes "arky:verb/control@v1", codes "action" ∷ [])
    ∷ []

-- `VERB_REQUIRED_ARGS[verb] ?? []`, for a registered verb
unfoldable pub required_args : Text → List Text
unfolding lookup text_eq
required_args verb = or_else (lookup verb verb_required_args) []

pub record ExecutionRequest : Type 0 where
  pub verb : Text
  pub rail : Option Text
  pub params : Option Fields
  pub args : Option Fields
  pub commitment_cid : Option Text
  pub request_id : Option Text
  pub idempotency_key : Option Text

abbrev pub Receipt : Type 0
Receipt = Fields

pub data ExecuteResult : Type 0 where
  -- `valid: false`, the error and the missing fields
  failed : Text → List Text → ExecuteResult
  -- `valid: true` and the receipt
  success : Receipt → ExecuteResult
  -- an exception left the call
  raised : ExecuteResult

abbrev pub Store : Type 0
Store = List (Text × Receipt)

pub record ExecuteOptions : Type 0 where
  pub private_key : Bytes
  pub kid : Option Text
  -- `opts.ts`, or the current time where that is absent
  pub ts : Text
  pub anchor_target : Option Text
  pub store : Option Store

-- `params.rail` can be any value: a falsy one is supported, and others than texts have no method
-- `startsWith`, so that the call raises.
unfoldable pub rail_supported : Value → Run Bool
unfolding starts_with is_truthy
rail_supported (str rail) = returns (not (starts_with (codes "unknown:") rail))
rail_supported rail = if is_truthy rail then throws else returns true

abbrev pub is_positive : Value → Bool
is_positive (num n) = is_finite n && not (num_le n num_zero)
is_positive _ = false

abbrev pub is_unit : Value → Bool
is_unit (str (c ∷ s)) = true
is_unit _ = false

unfoldable pub validate_amount : Value → Option Text
unfolding is_finite num_le get_field
validate_amount undefined = none
validate_amount (obj a) =
    if not (is_positive (get_field (codes "value") a))
    then some (codes "amount.value")
    else if not (is_unit (get_field (codes "unit") a))
    then some (codes "amount.unit")
    else none
validate_amount _ = some (codes "amount")

-- `req.args ?? req.params ?? {}`
abbrev pub args_of : ExecutionRequest → Fields
args_of req = or_else req.args (or_else req.params end)

-- `req.rail ?? req.params?.rail`
unfoldable pub rail_of : ExecutionRequest → Value
unfolding get_field
rail_of req = elim req.rail [
  | some rail ↦ str rail
  | none ↦ get_field (codes "rail") (or_else req.params end)
]

-- `rail ?? ''`
abbrev pub or_empty : Value → Value
or_empty undefined = str []
or_empty null = str []
or_empty rail = rail

abbrev pub unless_supported : Run Bool → Run (Option (Text × List Text))
unless_supported (returns true) = returns none
unless_supported (returns false) = returns (some (codes "settler.unsupported_rail", []))
unless_supported throws = throws

-- the pre-checks in order: the verb, its arguments, the amount, the rail
unfoldable pub pre_check : ExecutionRequest → Run (Option (Text × List Text))
unfolding is_registered required_args get_field validate_amount rail_supported rail_of
pre_check req =
    let args = args_of req in
    let missing = keep (λ k. is_undefined (get_field k args)) (required_args req.verb) in
    if not (is_registered req.verb)
    then returns (some (codes "settler.unknown_verb", []))
    else (elim missing [
      | m ∷ ms ↦ returns (some (codes "settler.invalid_args", m ∷ ms))
      | [] ↦ elim (validate_amount (get_field (codes "amount") args)) [
        | some e ↦ returns (some (codes "settler.invalid_args", e ∷ []))
        | none ↦ unless_supported (rail_supported (rail_of req))
      ]
    ])

-- `args ?? {}`
abbrev pub or_no_args : Value → Value
or_no_args undefined = obj end
or_no_args null = obj end
or_no_args args = args

module _ ⦃engine : Engine⦄ ⦃platform : Platform⦄ where
  -- the multibase multihash of a canonical text
  abbrev pub hash_text : Text → Text
  hash_text s = to_multibase (multihash_sha256 (platform.encode_utf8 s))

  unfoldable pub args_hash : Value → Option Text
  unfolding canonicalize to_multibase multihash_sha256
  args_hash args = elim (canonicalize (or_no_args args)) [
    | none ↦ none
    | some s ↦ some (hash_text s)
  ]

  abbrev pub components : Text → Text → Value → Text → Number → Value
  components hash commitment_cid rail verb index = object (
      (codes "args_hash", str hash)
      ∷ (codes "commitment_cid", str commitment_cid)
      ∷ (codes "rail", rail)
      ∷ (codes "verb", str verb)
      ∷ (codes "verb_index", num index)
      ∷ [])

  unfoldable pub derive_idempotency_key :
      Option Text → Text → Value → Value → Option Number → Option Text
  unfolding args_hash
  derive_idempotency_key commitment_cid verb rail args index = elim (args_hash args) [
    | none ↦ none
    | some hash ↦
        elim (canonicalize (
          components hash (or_else commitment_cid []) (or_empty rail) verb
            (or_else index num_zero))) [ none ↦ none | some s ↦ some (hash_text s) ]
  ]

  -- `req.idempotency_key ?? deriveIdempotencyKey(…)`
  unfoldable pub key_of : ExecutionRequest → Option Text
  unfolding derive_idempotency_key
  key_of req = elim req.idempotency_key [
    | some key ↦ some key
    | none ↦
        derive_idempotency_key req.commitment_cid req.verb (rail_of req) (obj (args_of req)) none
  ]

  abbrev pub anchor : Text → Text → Value
  anchor target key = object (
      (codes "target", str target)
      ∷ (codes "locator", str (codes "batch-" ++ take 9 (drop 1 key)))
      ∷ (codes "status", str (codes "pending"))
      ∷ [])

  unfoldable pub receipt_body :
      ExecutionRequest → ExecuteOptions → Text → Text → List (Text × Value)
  receipt_body req opts key hash =
      (codes "request_id", str (or_else req.request_id (codes "exec-" ++ take 12 key)))
      ∷ (codes "commitment_cid", str (or_else req.commitment_cid []))
      ∷ (codes "verb", str req.verb)
      ∷ (codes "rail", or_empty (rail_of req))
      ∷ (codes "args_hash", str hash)
      ∷ (codes "idempotency_key", str key)
      ∷ (codes "status", str (codes "success"))
      ∷ (codes "locator", str (codes "MOCK-" ++ take 17 (drop 1 key)))
      ∷ (
        codes "anchors",
        array (anchor (or_else opts.anchor_target (codes "log:arky:transparency@v1")) key ∷ []),
      )
      ∷ (codes "ts", str opts.ts)
      ∷ []

  -- the new receipt of a request; `none` where a canonicalization raises
  unfoldable pub new_receipt : ExecutionRequest → ExecuteOptions → Text → Option Receipt
  unfolding args_hash receipt_body sign_body
  new_receipt req opts key = elim (args_hash (obj (args_of req))) [
    | none ↦ none
    | some hash ↦ sign_body (receipt_body req opts key hash) opts.private_key opts.kid
  ]

  -- `opts.store?.get(key)`
  unfoldable pub cached : Option Store → Text → Option Receipt
  unfolding lookup
  cached none key = none
  cached (some store) key = lookup key store

  -- `opts.store?.set(key, receipt)`
  unfoldable pub remember : Option Store → Text → Receipt → Option Store
  unfolding insert
  remember none key receipt = none
  remember (some store) key receipt = some (insert key receipt store)

  unfoldable pub execute_with_key :
      ExecutionRequest → ExecuteOptions → Text → ExecuteResult × Option Store
  execute_with_key req opts key = elim (cached opts.store key) [
    | some receipt ↦ (success receipt, opts.store)
    | none ↦ elim (new_receipt req opts key) [
      | none ↦ (raised, opts.store)
      | some receipt ↦ (success receipt, remember opts.store key receipt)
    ]
  ]

  -- The result, and the store as the call leaves it.
  unfoldable pub execute : ExecutionRequest → ExecuteOptions → ExecuteResult × Option Store
  execute req opts = elim (pre_check req) [
    | throws ↦ (raised, opts.store)
    | returns (some (error, fields)) ↦ (failed error fields, opts.store)
    | returns none ↦ elim (key_of req) [
      | none ↦ (raised, opts.store)
      | some key ↦ execute_with_key req opts key
    ]
  ]
