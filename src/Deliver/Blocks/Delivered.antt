-- ===== src/Deliver/Blocks/Delivered.antt =====
-- `runDeliverTx` and `deliverBCTx` of abciapp/service/deliver/delivertx.go as a whole.
use bcbchain.Base.{
  carried, Bytes, GoMap, ℕ, ◌>>=◌, codes, ltb, length, false, Option, none, some, [], ◌∷◌, ◌++◌,
  ◌≡◌, refl, sym, ◌∙◌, Outcome, returned, panicked, >>=-eq-returned, Bool-cases, Option-cases, inl,
  inr,
}
use bcbchain.Db.{LevelDb, Json}
use bcbchain.Helper.{Helper, new_tx}
use bcbchain.Helper.Accounts.{AccountJson, set_account_nonce}
use bcbchain.Deliver.{Receipts}
use bcbchain.Deliver.Types.{Node, BlockDeliver, Transaction, ResponseDeliverTx}
use bcbchain.Deliver.Blocks.{
  calc_deliver_hash, report_failure, invoke_tx, run_deliver_tx, parse_tx, deliver_bc_tx,
}
use bcbchain.Deliver.Blocks.Hashes.{AddsHash, invoke_tx-AddsHash}

bind_cong {ℓ ℓ'} :
    {A : Type ℓ} {B : Type ℓ'} (m : Outcome A) (k k' : A → Outcome B)
    → ((a : A) → k a ≡ k' a)
    → (m >>= k) ≡ (m >>= k')
bind_cong panicked k k' same = refl
bind_cong (returned a) k k' same = same a

module _ (E : LevelDb) (J : Json) (A : AccountJson) (R : Receipts) (V G : Type 0)
    (N : Node E V G) where
  -- An answer to a transaction.
  abbrev Answer : Type 0
  Answer = (ResponseDeliverTx × GoMap Bytes) × BlockDeliver E V G

  abbrev reported : ResponseDeliverTx × BlockDeliver E V G → Outcome Answer
  reported r = returned ((r.0, []), r.1)

  failure-AddsHash :
      (tx msg : Bytes) (app app' : BlockDeliver E V G) {r : ResponseDeliverTx × GoMap Bytes}
      → reported (report_failure E J A R V G N tx msg app) ≡ returned (r, app')
      → AddsHash E J A R V G N app app'
  unfolding report_failure calc_deliver_hash
  failure-AddsHash tx msg app app' run = carried (AddsHash E J A R V G N app) run (_, refl, refl)

  -- What follows the test of the nonce.
  abbrev accept :
      Bytes → Transaction → Bytes → Option (GoMap Bytes) → BlockDeliver E V G → Outcome Answer
  accept tx transaction pub_key none app =
      let r = report_failure E J A R V G N tx (codes "SetAccountNonce failed") app in
      returned ((r.0, []), r.1)
  accept tx transaction pub_key (some nonce_buffer) app =
      invoke_tx E J A R V G N tx transaction nonce_buffer
        (Node.invoke N (app.fees.helper) (app.fees.tx_id) (Node.address N pub_key) transaction
          pub_key (Node.calc_code_hash N tx))
        app

  accept-AddsHash :
      (tx : Bytes) (transaction : Transaction) (pub_key : Bytes) (o : Option (GoMap Bytes))
      (app app' : BlockDeliver E V G) {r : ResponseDeliverTx × GoMap Bytes}
      → accept tx transaction pub_key o app ≡ returned (r, app')
      → AddsHash E J A R V G N app app'
  accept-AddsHash tx transaction pub_key none app app' run =
      failure-AddsHash tx (codes "SetAccountNonce failed") app app' run
  accept-AddsHash tx transaction pub_key (some nonce_buffer) app app' run =
      invoke_tx-AddsHash E J A R V G N tx transaction nonce_buffer
        (Node.invoke N (app.fees.helper) (app.fees.tx_id) (Node.address N pub_key) transaction
          pub_key (Node.calc_code_hash N tx))
        app app' run

  -- The block behind the nonce, and behind a new `Tx`.
  abbrev with_state : Helper E → BlockDeliver E V G → BlockDeliver E V G
  with_state helper app = record app { fees = record (app.fees) { helper = helper } }

  abbrev numbered : ℕ → Helper E → BlockDeliver E V G → BlockDeliver E V G
  numbered tx_id helper app = record app {
    fees = record (app.fees) { tx_id = tx_id; helper = helper };
  }

  accept-eq :
      (tx : Bytes) (transaction : Transaction) (pub_key : Bytes) (app : BlockDeliver E V G)
      → ltb N.max_size_note (length (transaction.note)) ≡ false
      → run_deliver_tx E J A R V G N tx transaction pub_key app ≡ (
          set_account_nonce E J A
            (app.fees.trans_id)
            (app.fees.tx_id)
            (N.address pub_key)
            (transaction.nonce)
            (app.fees.helper)
          >>= λ r. accept tx transaction pub_key (r.0) (with_state (r.1) app))
  unfolding run_deliver_tx
  accept-eq tx transaction pub_key app short =
      rw (run_deliver_tx, short)
        (bind_cong
          (set_account_nonce E J A (app.fees.trans_id) (app.fees.tx_id) (N.address pub_key)
            (transaction.nonce) (app.fees.helper))
          _ (λ r. accept tx transaction pub_key (r.0) (with_state (r.1) app))
          (λ r. elim (Option-cases (r.0)) [
            | inl e ↦ rw e refl
            | inr (nonce_buffer, e) ↦ rw e refl
          ]))

  run_deliver_tx-AddsHash :
      (tx : Bytes) (transaction : Transaction) (pub_key : Bytes) (app app' : BlockDeliver E V G)
      {r : ResponseDeliverTx × GoMap Bytes}
      → run_deliver_tx E J A R V G N tx transaction pub_key app ≡ returned (r, app')
      → AddsHash E J A R V G N app app'
  unfolding run_deliver_tx
  run_deliver_tx-AddsHash tx transaction pub_key app app' run =
      elim (Bool-cases (ltb N.max_size_note (length (transaction.note)))) [
        | inl e ↦
            failure-AddsHash tx (codes "tx note is out of range") app app'
              (rw (run_deliver_tx, e) at run)
        | inr short ↦
            let (r, e, rest) =
              >>=-eq-returned
                (set_account_nonce E J A (app.fees.trans_id) (app.fees.tx_id) (N.address pub_key)
                  (transaction.nonce) (app.fees.helper))
                _ (sym (accept-eq tx transaction pub_key app short) ∙ run) in
            accept-AddsHash tx transaction pub_key (r.0) (with_state (r.1) app) app' rest
      ]

  -- What deliverBCTx does with a new `Tx`.
  abbrev deliver_parsed : Bytes → Option (Transaction × Bytes) → BlockDeliver E V G → Outcome Answer
  deliver_parsed tx none app =
      reported (report_failure E J A R V G N tx (codes "tx parse failed") app)
  deliver_parsed tx (some parsed) app = run_deliver_tx E J A R V G N tx (parsed.0) (parsed.1) app

  deliver-eq :
      (tx : Bytes) (app : BlockDeliver E V G)
      → deliver_bc_tx E J A R V G N tx app ≡ (
          new_tx E J (app.fees.trans_id) (app.fees.helper) >>= λ r.
          deliver_parsed tx (parse_tx E J A R V G N tx) (numbered (r.0) (r.1) app))
  unfolding deliver_bc_tx
  deliver-eq tx app = elim (Option-cases (parse_tx E J A R V G N tx)) [
    | inl e ↦ rw (deliver_bc_tx, e) refl
    | inr (parsed, e) ↦ rw (deliver_bc_tx, e) refl
  ]

  deliver_parsed-AddsHash :
      (tx : Bytes) (o : Option (Transaction × Bytes)) (app app' : BlockDeliver E V G)
      {r : ResponseDeliverTx × GoMap Bytes}
      → deliver_parsed tx o app ≡ returned (r, app')
      → AddsHash E J A R V G N app app'
  deliver_parsed-AddsHash tx none app app' run =
      failure-AddsHash tx (codes "tx parse failed") app app' run
  deliver_parsed-AddsHash tx (some parsed) app app' run =
      run_deliver_tx-AddsHash tx (parsed.0) (parsed.1) app app' run

  -- If deliverBCTx does not panic, it adds exactly one hash to the end of the block's list,
  -- whether the transaction is accepted or refused at its text, its note, its nonce or by the
  -- contracts, and it leaves the application state.
  pub deliver_bc_tx-AddsHash :
      (tx : Bytes) (app app' : BlockDeliver E V G) (r : ResponseDeliverTx × GoMap Bytes)
      → deliver_bc_tx E J A R V G N tx app ≡ returned (r, app')
      → (hash : Bytes) × (app'.hash_list ≡ app.hash_list ++ hash ∷ [])
        × (app'.app_state ≡ app.app_state)
  deliver_bc_tx-AddsHash tx app app' r run =
      let (opened, e, rest) =
        >>=-eq-returned (new_tx E J (app.fees.trans_id) (app.fees.helper)) _
          (sym (deliver-eq tx app) ∙ run) in
      deliver_parsed-AddsHash tx (parse_tx E J A R V G N tx) (numbered (opened.0) (opened.1) app)
        app' rest
