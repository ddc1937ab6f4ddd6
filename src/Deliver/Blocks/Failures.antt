-- ===== src/Deliver/Blocks/Failures.antt =====
-- A failed invocation in `runDeliverTx` of abciapp/service/deliver/delivertx.go: what the contracts
-- have written by then has no effect.
use bcbchain.Base.{
  Bytes, GoMap, ℕ, ◌==◌, Bool, true, false, some, List, [], ◌∷◌, ◌≡◌, ◌⊎◌, refl, sym, ap, ◌∙◌,
  if◌then◌else◌, Outcome, returned, panicked, ◌>>=◌, arith, Bool-cases, Option-cases, inl, inr,
}
use bcbchain.Base.Int.{ℤ, eqb_ℤ}
use bcbchain.Db.{LevelDb, Json}
use bcbchain.Statedb.Tx
use bcbchain.Statedb.Tx.{Tx}
use bcbchain.Helper.{
  Helper, TxMap, find_tx, store_tx, Trans, TransMap, load, store, with_tx, batch_set, rollback_tx,
}
use bcbchain.Helper.Accounts.{AccountJson}
use bcbchain.Helper.Reads.{find_tx-store_tx, load-store_self}
use bcbchain.Deliver.{Receipts}
use bcbchain.Deliver.Types.{Node, BlockDeliver, Transaction, Response, ResponseDeliverTx}
use bcbchain.Deliver.Blocks.{
  with_helper, apply_writes, run_failed, run_ok, invoke_tx, report_invoke_failure,
}
use bcbchain.Deliver.Types.{to_uint64, combine_buffer}

-- A second write to one place takes the place of the first.
store_tx-store_tx : (x : ℕ) (t u : Tx) (m : TxMap) → store_tx x t (store_tx x u m) ≡ store_tx x t m
unfolding store_tx
store_tx-store_tx x t u [] = ground arith
store_tx-store_tx x t u ((j, v) ∷ m) = elim (Bool-cases (j == x)) [
  | inl e ↦ ground (arith, e)
  | inr e ↦ ground (arith, e, store_tx-store_tx x t u m)
]

eqb_refl : (i : ℤ) → eqb_ℤ i i ≡ true
eqb_refl i = ground arith

store-store : (i : ℤ) (t u : Trans) (m : TransMap) → store i t (store i u m) ≡ store i t m
unfolding store
store-store i t u [] = ground (arith, eqb_refl i)
store-store i t u ((j, v) ∷ m) = elim (Bool-cases (eqb_ℤ j i)) [
  | inl e ↦ ground (arith, e)
  | inr e ↦ ground (arith, e, store-store i t u m)
]

find-store_self : (x : ℕ) (t : Tx) (m : TxMap) → find_tx x (store_tx x t m) ≡ some t
find-store_self x t m = ground (arith, find_tx-store_tx x x t m)

module _ (E : LevelDb) (J : Json) where
  -- Two changes of one `Tx` are one.
  with_tx_twice :
      (i : ℤ) (x : ℕ) (f g : Tx → Tx) (h : Helper E)
      → (with_tx E J i x f h >>= with_tx E J i x g) ≡ with_tx E J i x (λ t. g (f t)) h
  with_tx_twice i x f g h = elim (Option-cases (load i h.transaction_map)) [
    | inl e ↦ rw e refl
    | inr (trans, e) ↦ elim (Option-cases (find_tx x trans.tx_map)) [
      | inl e' ↦ rw (e, e') refl
      | inr (tx, e') ↦
          rw
            (
              e,
              e',
              load-store_self i (record trans { tx_map = store_tx x (f tx) trans.tx_map })
                  h.transaction_map,
              find-store_self x (f tx) trans.tx_map,
              store_tx-store_tx x (g (f tx)) (f tx) trans.tx_map,
              store-store i (record trans { tx_map = store_tx x (g (f tx)) trans.tx_map })
                  (record trans { tx_map = store_tx x (f tx) trans.tx_map }) h.transaction_map,
            )
            refl
    ]
  ]

  -- A rollback forgets the writes before it.
  rollback-batch_set :
      (i : ℤ) (x : ℕ) (w : GoMap Bytes) (h : Helper E)
      → (batch_set E J i x w h >>= rollback_tx E J i x) ≡ rollback_tx E J i x h
  unfolding batch_set rollback_tx Tx.batch_set Tx.rollback
  rollback-batch_set i x w h = with_tx_twice i x (Tx.batch_set w) Tx.rollback h

Outcome-cases {ℓ} : {A : Type ℓ} (m : Outcome A) → (m ≡ panicked) ⊎ ((a : A) × (m ≡ returned a))
Outcome-cases panicked = inl refl
Outcome-cases (returned a) = inr (a, refl)

module _ (E : LevelDb) (J : Json) (A : AccountJson) (R : Receipts) (V G : Type 0)
    (N : Node E V G) where
  rollback-apply_writes :
      (i : ℤ) (x : ℕ) (writes : List (GoMap Bytes)) (h : Helper E)
      → (apply_writes E J A R V G N i x writes h >>= rollback_tx E J i x) ≡ rollback_tx E J i x h
  unfolding apply_writes
  rollback-apply_writes i x [] h = refl
  rollback-apply_writes i x (w ∷ writes) h = elim (Outcome-cases (batch_set E J i x w h)) [
    | inl e ↦
        rw (apply_writes, e)
          (sym (sym (rollback-batch_set E J i x w h) ∙ ap (λ m. m >>= rollback_tx E J i x) e))
    | inr (h', e) ↦
        rw (apply_writes, e)
          (rollback-apply_writes i x writes h'
            ∙ (sym (ap (λ m. m >>= rollback_tx E J i x) e) ∙ rollback-batch_set E J i x w h))
  ]

  module _ (tx : Bytes) (transaction : Transaction) (nonce_buffer : GoMap Bytes) where
    abbrev Answer : Type 0
    Answer = (ResponseDeliverTx × GoMap Bytes) × BlockDeliver E V G

    -- What `run_failed` does behind its rollback.
    abbrev reported : Response → BlockDeliver E V G → Outcome Answer
    reported response app₁ =
        report_invoke_failure E J A R V G N tx transaction response app₁ >>= λ r.
        returned
          ((record (r.0.0) { fee = to_uint64 (r.0.2) }, combine_buffer nonce_buffer (r.0.1)), r.1)

    -- It, from the result of the rollback.
    abbrev after_rollback : Response → BlockDeliver E V G → Outcome (Helper E) → Outcome Answer
    after_rollback response app m =
        (m >>= λ helper. returned (record app { fees = record (app.fees) { helper = helper } }))
        >>= reported response

    run_failed-eq :
        (response : Response) (app : BlockDeliver E V G)
        → run_failed E J A R V G N tx transaction response nonce_buffer app
          ≡ after_rollback response app
              (rollback_tx E J (app.fees.trans_id) (app.fees.tx_id) (app.fees.helper))
    unfolding run_failed
    run_failed-eq response app = refl

    failed-apply_writes :
        (response : Response) (writes : List (GoMap Bytes)) (app : BlockDeliver E V G)
        → (with_helper E J A R V G N
              (apply_writes E J A R V G N (app.fees.trans_id) (app.fees.tx_id) writes)
              app
            >>= run_failed E J A R V G N tx transaction response nonce_buffer)
          ≡ run_failed E J A R V G N tx transaction response nonce_buffer app
    failed-apply_writes response writes app =
        let i = app.fees.trans_id in
        let x = app.fees.tx_id in
        let h = app.fees.helper in
        let same = rollback-apply_writes i x writes h in
        rw (run_failed-eq response app)
          (elim (Outcome-cases (apply_writes E J A R V G N i x writes h)) [
            | inl e ↦ rw e (
                ap (after_rollback response app)
                  (sym (ap (λ m. m >>= rollback_tx E J i x) e) ∙ same))
            | inr (h', e) ↦ rw e (
                run_failed-eq response (record app { fees = record (app.fees) { helper = h' } })
                ∙ ap (after_rollback response app)
                    (sym (ap (λ m. m >>= rollback_tx E J i x) e) ∙ same))
          ])

    invoke_tx-run_failed :
        (response : Response) (writes : List (GoMap Bytes)) (app : BlockDeliver E V G)
        → (response.code == N.code_ok) ≡ false
        → invoke_tx E J A R V G N tx transaction nonce_buffer
            (record { response = response; writes = writes })
            app
          ≡ run_failed E J A R V G N tx transaction response nonce_buffer app
    unfolding invoke_tx
    invoke_tx-run_failed response writes app failed =
        let written =
          with_helper E J A R V G N
            (apply_writes E J A R V G N (app.fees.trans_id) (app.fees.tx_id) writes) app in
        let ending : Bool → BlockDeliver E V G → Outcome Answer = λ c app₁.
          if c
          then run_ok E J A R V G N tx transaction response nonce_buffer app₁
          else run_failed E J A R V G N tx transaction response nonce_buffer app₁ in
        ap (λ c. written >>= ending c) failed ∙ failed-apply_writes response writes app

    -- If the contracts answer with an error, runDeliverTx goes on as if they had written nothing:
    -- the response, the buffer and the state of the block are the same for every list of writes.
    pub invoke_tx-failed :
        (response : Response) (writes : List (GoMap Bytes)) (app : BlockDeliver E V G)
        → (response.code == N.code_ok) ≡ false
        → invoke_tx E J A R V G N tx transaction nonce_buffer
            (record { response = response; writes = writes })
            app
          ≡ invoke_tx E J A R V G N tx transaction nonce_buffer
              (record { response = response; writes = [] })
              app
    invoke_tx-failed response writes app failed =
        invoke_tx-run_failed response writes app failed
        ∙ sym (invoke_tx-run_failed response [] app failed)
