-- ===== src/Settler/Idempotency.antt =====
-- packages/core/src/settler.ts: what an execution has checked, and what it leaves in the store.
use arky_foundation.Common.{
  ◌≡◌, ◌≢◌, Text, some, Option-cases, inr, inl, List, ◌∙◌, ap, none, Option, lookup-insert,
  text_eq_refl, refl, sym, Run-cases, returns, throws,
}
use arky_foundation.Engine.{Engine}
use arky_foundation.Platform.{Platform}
use arky_foundation.Settler.Execute.{
  Receipt, success, execute, execute_with_key, ExecutionRequest, ExecuteOptions, Store, key_of,
  cached, pre_check, new_receipt, remember, raised, failed, ExecuteResult,
}

module _ ⦃engine : Engine⦄ ⦃platform : Platform⦄ where
  execute_run :
      (req : ExecutionRequest) (opts : ExecuteOptions) (key : Text)
      → pre_check req ≡ returns none
      → key_of req ≡ some key
      → execute req opts ≡ execute_with_key req opts key
  unfolding execute
  execute_run req opts key p q = rw (execute, p, q) refl

  execute_with_key-cached :
      (req : ExecutionRequest) (opts : ExecuteOptions) (key : Text) (receipt : Receipt)
      → cached opts.store key ≡ some receipt
      → execute_with_key req opts key ≡ (success receipt, opts.store)
  unfolding execute_with_key
  execute_with_key-cached req opts key receipt u = rw (execute_with_key, u) refl

  execute_with_key-new :
      (req : ExecutionRequest) (opts : ExecuteOptions) (key : Text) (receipt : Receipt)
      → cached opts.store key ≡ none
      → new_receipt req opts key ≡ some receipt
      → execute_with_key req opts key ≡ (success receipt, remember opts.store key receipt)
  unfolding execute_with_key
  execute_with_key-new req opts key receipt u v = rw (execute_with_key, u, v) refl

  execute_with_key-raised :
      (req : ExecutionRequest) (opts : ExecuteOptions) (key : Text)
      → cached opts.store key ≡ none
      → new_receipt req opts key ≡ none
      → execute_with_key req opts key ≡ (raised, opts.store)
  unfolding execute_with_key
  execute_with_key-raised req opts key u v = rw (execute_with_key, u, v) refl

  execute_refused :
      (req : ExecutionRequest) (opts : ExecuteOptions) (e : Text × List Text)
      → pre_check req ≡ returns (some e)
      → execute req opts ≡ (failed e.0 e.1, opts.store)
  unfolding execute
  execute_refused req opts e p = rw (execute, p) refl

  execute_keyless :
      (req : ExecutionRequest) (opts : ExecuteOptions)
      → pre_check req ≡ returns none
      → key_of req ≡ none
      → execute req opts ≡ (raised, opts.store)
  unfolding execute
  execute_keyless req opts p q = rw (execute, p, q) refl

  execute_broken :
      (req : ExecutionRequest) (opts : ExecuteOptions)
      → pre_check req ≡ throws
      → execute req opts ≡ (raised, opts.store)
  unfolding execute
  execute_broken req opts p = rw (execute, p) refl

  success-injective : {r s : Receipt} → success r ≡ success s → r ≡ s
  success-injective e = cc

  failed-ne :
      {x : ExecuteResult × Option Store} {a : Text} {b : List Text} {o : Option Store} {r : Receipt}
      → x ≡ (failed a b, o)
      → x.0 ≢ success r
  failed-ne e h = cc

  raised-ne :
      {x : ExecuteResult × Option Store} {o : Option Store} {r : Receipt}
      → x ≡ (raised, o)
      → x.0 ≢ success r
  raised-ne e h = cc

  returned :
      {x : ExecuteResult × Option Store} {o : Option Store} {r s : Receipt}
      → x ≡ (success s, o)
      → x.0 ≡ success r
      → s ≡ r
  returned e h = success-injective (sym (ap (λ y. y.0) e) ∙ h)

  -- Why an execution raises: the rail is no text, or there is no key, or no new receipt.
  pub data Raising (req : ExecutionRequest) (opts : ExecuteOptions) : Type 0 where
    broken : pre_check req ≡ throws → Raising req opts
    keyless : pre_check req ≡ returns none → key_of req ≡ none → Raising req opts
    unsigned :
        (key : Text)
        → pre_check req ≡ returns none
        → key_of req ≡ some key
        → cached opts.store key ≡ none
        → new_receipt req opts key ≡ none
        → Raising req opts

  -- What an execution does: it fails or raises and leaves the store as it was, or it returns the
  -- receipt that the store has for the key, or a new receipt that it stores under the key.
  pub data Execution (req : ExecutionRequest) (opts : ExecuteOptions) : Type 0 where
    refuses :
        (e : Text × List Text)
        → pre_check req ≡ returns (some e)
        → execute req opts ≡ (failed e.0 e.1, opts.store)
        → Execution req opts
    raises : Raising req opts → execute req opts ≡ (raised, opts.store) → Execution req opts
    replays :
        (key : Text) (receipt : Receipt)
        → pre_check req ≡ returns none
        → key_of req ≡ some key
        → cached opts.store key ≡ some receipt
        → execute req opts ≡ (success receipt, opts.store)
        → Execution req opts
    stores :
        (key : Text) (receipt : Receipt)
        → pre_check req ≡ returns none
        → key_of req ≡ some key
        → cached opts.store key ≡ none
        → new_receipt req opts key ≡ some receipt
        → execute req opts ≡ (success receipt, remember opts.store key receipt)
        → Execution req opts

  pub execution : (req : ExecutionRequest) (opts : ExecuteOptions) → Execution req opts
  execution req opts = elim (Run-cases (pre_check req)) [
    | inl p ↦ raises (broken p) (execute_broken req opts p)
    | inr (some x, p) ↦ refuses x p (execute_refused req opts x p)
    | inr (none, p) ↦ elim (Option-cases (key_of req)) [
      | inl q ↦ raises (keyless p q) (execute_keyless req opts p q)
      | inr (key, q) ↦
          let run = execute_run req opts key p q in
          elim (Option-cases (cached opts.store key)) [
            | inr (r, u) ↦ replays key r p q u (run ∙ execute_with_key-cached req opts key r u)
            | inl u ↦ elim (Option-cases (new_receipt req opts key)) [
              | inl v ↦
                  raises (unsigned key p q u v) (run ∙ execute_with_key-raised req opts key u v)
              | inr (r, v) ↦ stores key r p q u v (run ∙ execute_with_key-new req opts key r u v)
            ]
          ]
    ]
  ]

  -- An execution that does not return a receipt leaves the store as it was.
  execute-failed :
      (req : ExecutionRequest) (opts : ExecuteOptions)
      → ((receipt : Receipt) → (execute req opts).0 ≢ success receipt)
      → (execute req opts).1 ≡ opts.store
  execute-failed req opts h = elim (execution req opts) [
    | refuses e p r ↦ ap (λ x. x.1) r
    | raises c r ↦ ap (λ x. x.1) r
    | replays key receipt p q u r ↦ ap (λ x. x.1) r
    | stores key receipt p q u v r ↦ absurd (h receipt (ap (λ x. x.0) r))
  ]

  cached-remember :
      (o : Option Store) (store : Store) (key : Text) (receipt : Receipt)
      → o ≡ some store
      → cached (remember o key receipt) key ≡ some receipt
  unfolding cached remember
  cached-remember o store key receipt s =
      rw s (rw (lookup-insert key key receipt store, text_eq_refl key) refl)

  same_key : {o : Option Text} {a b : Text} → o ≡ some a → o ≡ some b → a ≡ b
  same_key p q = cc

  left_in :
      {o o' : Option Store} {key key' : Text} {receipt : Receipt}
      → o ≡ o'
      → key' ≡ key
      → cached o' key' ≡ some receipt
      → cached o key ≡ some receipt
  left_in p q h = rw (p, sym q) h

  -- With a store, the receipt that an execution returns is, under the request's key, in the store
  -- that the execution leaves.
  execute-cached :
      (req : ExecutionRequest) (opts : ExecuteOptions) (store : Store) (receipt : Receipt)
      (key : Text)
      → opts.store ≡ some store
      → key_of req ≡ some key
      → (execute req opts).0 ≡ success receipt
      → cached (execute req opts).1 key ≡ some receipt
  execute-cached req opts store receipt key s k e = elim (execution req opts) [
    | refuses f p r ↦ absurd (failed-ne r e)
    | raises c r ↦ absurd (raised-ne r e)
    | replays key' receipt' p q u r ↦
        left_in (ap (λ x. x.1) r) (same_key q k) (u ∙ ap some (returned r e))
    | stores key' receipt' p q u v r ↦
        left_in (ap (λ x. x.1) r) (same_key q k)
          (cached-remember opts.store store key' receipt' s ∙ ap some (returned r e))
  ]

  -- A request that is executed a second time, with the store that the first execution left, returns
  -- the same receipt and leaves that store, whatever the key, the time and the target of the second
  -- call are, if it has no other idempotency key.
  pub execute-repeat :
      (req : ExecutionRequest) (opts later : ExecuteOptions) (store : Store) (receipt : Receipt)
      → opts.store ≡ some store
      → later.store ≡ (execute req opts).1
      → (execute req opts).0 ≡ success receipt
      → execute req later ≡ (success receipt, later.store)
  execute-repeat req opts later store receipt s l e = elim (execution req opts) [
    | refuses f p r ↦ absurd (failed-ne r e)
    | raises c r ↦ absurd (raised-ne r e)
    | replays key receipt' p q u r ↦
        execute_run req later key p q
        ∙ execute_with_key-cached req later key receipt
            (left_in l refl (execute-cached req opts store receipt key s q e))
    | stores key receipt' p q u v r ↦
        execute_run req later key p q
        ∙ execute_with_key-cached req later key receipt
            (left_in l refl (execute-cached req opts store receipt key s q e))
  ]
