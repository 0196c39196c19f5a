-- ===== src/Settler/Ledger.antt =====
-- packages/core/src/settler.ts: the store of receipts as a ledger in which each key is written once.
use mathlib.Core.Path.{fun_ext, subst₂}
use arky_foundation.Common.{
  Text, text_eq, text_eq_iff, if◌then◌else◌, List, [], ◌∷◌, Option, none, some, ◌≡◌, refl, ap, sym,
  ◌∙◌, subst, lookup, lookup-insert, insert, or_else, ◌≢◌, Bool-cases, inl, inr, returns, throws,
}
use arky_foundation.Engine.{Engine}
use arky_foundation.Platform.{Platform}
use arky_foundation.Settler.Execute.{
  Receipt, Store, ExecutionRequest, ExecuteOptions, ExecuteResult, failed, success, raised, execute,
  cached, remember, pre_check, new_receipt,
}
use arky_foundation.Settler.Idempotency.{
  execution, refuses, raises, replays, stores, Raising, broken,
}
use arky_foundation.Settler.Keys.{
  IsKeyOf, IsReceiptOf, key_of-IsKeyOf, keyless-IsKeyOf, new_receipt-IsReceiptOf,
}

-- The abstract store: the receipt of each key that has been settled.
abbrev pub Ledger : Type 0
Ledger = Text → Option Receipt

abbrev pub ledger : Store → Ledger
ledger store key = lookup key store

abbrev pub write : Text → Receipt → Ledger → Ledger
write key receipt l j = if text_eq key j then some receipt else l j

-- Why a request gets no receipt: a check fails or raises, it has no key, or its key is free and no
-- receipt can be made for it.
pub data IsRefused ⦃engine : Engine⦄ ⦃platform : Platform⦄ (req : ExecutionRequest)
    (opts : ExecuteOptions) (l : Ledger) : Type 0 where
  unchecked : pre_check req ≢ returns none → IsRefused req opts l
  keyless : ((key : Text) → ¬ IsKeyOf req key) → IsRefused req opts l
  unsigned :
      (key : Text)
      → IsKeyOf req key
      → l key ≡ none
      → new_receipt req opts key ≡ none
      → IsRefused req opts l

-- What a request may do to a ledger, with the receipt that it gets: it is refused, for a reason; it
-- passes the checks and gets what the ledger has for its key; or it passes them and its key, which is
-- free, gets a receipt of it.
pub data LedgerStep ⦃engine : Engine⦄ ⦃platform : Platform⦄ (req : ExecutionRequest)
    (opts : ExecuteOptions) (l : Ledger) : Option Receipt → Ledger → Type 0 where
  refuse : IsRefused req opts l → LedgerStep req opts l none l
  get_again :
      (key : Text) (receipt : Receipt)
      → pre_check req ≡ returns none
      → IsKeyOf req key
      → l key ≡ some receipt
      → LedgerStep req opts l (some receipt) l
  settle :
      (key : Text) (receipt : Receipt)
      → pre_check req ≡ returns none
      → IsKeyOf req key
      → l key ≡ none
      → IsReceiptOf req key receipt
      → LedgerStep req opts l (some receipt) (write key receipt l)

abbrev pub receipt_in : ExecuteResult → Option Receipt
receipt_in (success receipt) = some receipt
receipt_in (failed e fields) = none
receipt_in raised = none

none-ne : {r : Receipt} → none ≢ some r
none-ne e = cc

throws-ne : {A : Type 0} {a : A} → throws ≢ returns a
throws-ne e = cc

refused-ne : {A : Type 0} {a : A} → returns (some a) ≢ returns none
refused-ne e = cc

module _ ⦃engine : Engine⦄ ⦃platform : Platform⦄ where
  -- What a ledger holds, it keeps.
  LedgerStep-keeps :
      {req : ExecutionRequest} {opts : ExecuteOptions} {l m : Ledger} {o : Option Receipt}
      (key : Text) (receipt : Receipt)
      → LedgerStep req opts l o m
      → l key ≡ some receipt
      → m key ≡ some receipt
  LedgerStep-keeps key receipt (refuse w) h = h
  LedgerStep-keeps key receipt (get_again k r p q e) h = h
  LedgerStep-keeps {l = l} key receipt (settle k r p q free n) h =
      elim (Bool-cases (text_eq k key)) [
        | inl e ↦ absurd (none-ne (sym free ∙ (ap l ((text_eq_iff k key).0 e) ∙ h)))
        | inr e ↦ rw e h
      ]

  Raising-IsRefused :
      (req : ExecutionRequest) (opts : ExecuteOptions) (store : Store)
      → opts.store ≡ some store
      → Raising req opts
      → IsRefused req opts (ledger store)
  unfolding cached
  Raising-IsRefused req opts store s (broken p) = unchecked (λ e. throws-ne (sym p ∙ e))
  Raising-IsRefused req opts store s (Raising.keyless p q) = keyless (keyless-IsKeyOf req q)
  Raising-IsRefused req opts store s (Raising.unsigned key p q u v) =
      unsigned key (key_of-IsKeyOf req key q) (rw s at u) v

  ledger-insert :
      (store : Store) (key : Text) (receipt : Receipt)
      → ledger (insert key receipt store) ≡ write key receipt (ledger store)
  ledger-insert store key receipt = fun_ext λ j. lookup-insert key j receipt store

  abbrev pub left_by : Store → Option Store → Store
  left_by store o = or_else o store

  stepped :
      (req : ExecutionRequest) (opts : ExecuteOptions) (store : Store) (o : Option Store)
      (x : ExecuteResult × Option Store) (e : ExecuteResult)
      → o ≡ some store
      → x ≡ (e, o)
      → receipt_in e ≡ none
      → IsRefused req opts (ledger store)
      → LedgerStep req opts (ledger store) (receipt_in x.0) (ledger (left_by store x.1))
  stepped req opts store o x e s r n w =
      subst₂ (λ a b. LedgerStep req opts (ledger store) a (ledger (left_by store b)))
        (sym n ∙ ap (λ y. receipt_in y.0) (sym r)) (sym s ∙ ap (λ y. y.1) (sym r)) (refuse w)

  -- An execution with a store is a step of the ledger that the store represents. A request that gets
  -- no receipt is refused for a reason: it fails a check, it has no key, or no receipt can be made
  -- for its free key; the ledger stays as it was. Any other request passes the checks. It gets what
  -- the ledger has for its key; or its key is free, and the receipt that it gets names its key, its
  -- verb and its rail and is written under that key. The key is the one that it supplies, or else
  -- the hash of its components.
  pub execute-LedgerStep :
      (req : ExecutionRequest) (opts : ExecuteOptions) (store : Store)
      → opts.store ≡ some store
      → LedgerStep req opts
          (ledger store)
          (receipt_in (execute req opts).0)
          (ledger (left_by store (execute req opts).1))
  unfolding cached remember
  execute-LedgerStep req opts store s = elim (execution req opts) [
    | refuses e p r ↦
        stepped req opts store opts.store (execute req opts) (failed e.0 e.1) s r refl
          (unchecked (λ f. refused-ne (sym p ∙ f)))
    | raises c r ↦
        stepped req opts store opts.store (execute req opts) raised s r refl
          (Raising-IsRefused req opts store s c)
    | replays key receipt p q u r ↦
        subst
          (λ x. LedgerStep req opts (ledger store) (receipt_in x.0) (ledger (left_by store x.1)))
          (sym (r ∙ ap (λ o. (success receipt, o)) s))
          (get_again key receipt p (key_of-IsKeyOf req key q) (rw s at u))
    | stores key receipt p q u v r ↦
        subst
          (λ x. LedgerStep req opts (ledger store) (receipt_in x.0) (ledger (left_by store x.1)))
          (sym (r ∙ ap (λ o. (success receipt, remember o key receipt)) s))
          (subst (λ m. LedgerStep req opts (ledger store) (some receipt) m)
            (sym (ledger-insert store key receipt))
            (settle key receipt p (key_of-IsKeyOf req key q) (rw s at u)
              (new_receipt-IsReceiptOf req opts key receipt v)))
  ]

  -- The store behind a sequence of executions, each with its own request and options.
  unfoldable pub execute_all : List (ExecutionRequest × ExecuteOptions) → Store → Store
  unfolding execute
  execute_all [] store = store
  execute_all ((req, opts) ∷ rest) store =
      execute_all rest (left_by store (execute req (record opts { store = some store })).1)

  -- A key that has a receipt has the same receipt after any sequence of executions.
  pub lookup-execute_all :
      (calls : List (ExecutionRequest × ExecuteOptions)) (store : Store) (key : Text)
      (receipt : Receipt)
      → lookup key store ≡ some receipt
      → lookup key (execute_all calls store) ≡ some receipt
  unfolding execute_all
  lookup-execute_all [] store key receipt h = h
  lookup-execute_all ((req, opts) ∷ rest) store key receipt h =
      lookup-execute_all rest _ key receipt (
        LedgerStep-keeps key receipt
          (execute-LedgerStep req (record opts { store = some store }) store refl) h)
