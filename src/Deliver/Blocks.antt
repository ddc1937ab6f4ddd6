-- ===== src/Deliver/Blocks.antt =====
-- abciapp/service/deliver/delivertx.go but for its fees, which are in Deliver: from the text of a
-- transaction to its answer and its hash, and the rewards of commit.go. Logging is left out. Proofs
-- are in the children.
pub mod Hashes
pub mod Failures
pub mod Delivered
mod Tests
use bcbchain.Base.{
  Bytes, GoMap, codes, bytes_eq, is_empty, insert, insert_all, ℕ, zero, suc, ◌+◌, ◌%◌, ◌^◌, ◌-◌,
  ◌/◌, Bool, true, false, not, ◌&&◌, ◌||◌, Option, none, some, List, [], ◌∷◌, ◌++◌, map, length,
  ◌==◌, ltb, reverse, if◌then◌else◌, Outcome, returned, panicked, ◌>>=◌, ◌>>◌, panic_if, ◌≡◌,
}
use bcbchain.Base.Sort.{sort_strings}
use bcbchain.Base.Int.{ℤ, pos, negsuc, ◌+ℤ◌}
use bcbchain.Db.{LevelDb, Json}
use bcbchain.Helper
use bcbchain.Helper.{
  Helper, or_panic, new_committable_transaction_id, new_tx, batch_set, rollback_tx, commit_tx,
  commit_block,
}
use bcbchain.Helper.Accounts.{AccountJson, set_account_nonce}
use bcbchain.V1.Keys.{key_of_world_app_state}
use bcbchain.Deliver
use bcbchain.Deliver.{
  KvPair, Receipts, Reward, AppDeliver, wrap_int64, contains_text, has_prefix, reward_so_far,
  emit_fee_receipts,
}
use bcbchain.Deliver.Types.{
  Transaction, Response, Invocation, ResponseDeliverTx, to_uint64, Node, BlockDeliver,
  has_update_validator_receipt, side_chain_genesis_receipt, last_method, big_endian, combine_buffer,
  text_of,
}

module _ (E : LevelDb) (J : Json) (A : AccountJson) (R : Receipts) (V G : Type 0)
    (N : Node E V G) where
  open N use {
    code_ok, err_deliver_tx, max_size_note, invoke, parse_v2, parse_v3, address, calc_code_hash,
    md5, sha3, show,
  }

  abbrev shown : Option ResponseDeliverTx → Bytes
  shown none = []
  shown (some r) = show r

  -- `calcDeliverHash`: nothing is hashed where all three are nil; a nil text is an empty one.
  unfoldable pub calc_deliver_hash :
      Option Bytes → Option ResponseDeliverTx → Bytes → BlockDeliver E V G → BlockDeliver E V G
  calc_deliver_hash none none [] app = app
  calc_deliver_hash tx response state_tx app = record app {
    hash_list = app.hash_list ++ md5 (text_of tx ++ shown response ++ state_tx) ∷ [];
  }

  -- `reportFailure`
  unfoldable pub report_failure :
      Bytes → Bytes → BlockDeliver E V G → ResponseDeliverTx × BlockDeliver E V G
  unfolding calc_deliver_hash
  report_failure tx msg app =
      let response : ResponseDeliverTx = record {
        code = err_deliver_tx;
        log = msg;
        result_data = [];
        tags = [];
        gas_limit = 0;
        gas_used = 0;
        fee = 0;
      } in
      (response, calc_deliver_hash (some tx) (some response) [] app)

  -- The pairs of the block's rewards.
  unfoldable pub reward_pairs : GoMap ℤ → List Bytes → List KvPair
  unfolding big_endian to_uint64
  reward_pairs rewards [] = []
  reward_pairs rewards (k ∷ keys) =
      (k, big_endian 8 (to_uint64 (reward_so_far E J A R k rewards))) ∷ reward_pairs rewards keys

  -- A change of the helper.
  abbrev pub with_helper :
      (Helper E → Outcome (Helper E)) → BlockDeliver E V G → Outcome (BlockDeliver E V G)
  with_helper f app = do
    helper ← f (app.fees.helper)
    returned (record app { fees = record (app.fees) { helper = helper } })

  -- `CommitTx` of the current `Tx`, with the text for the hash and the buffer.
  unfoldable pub commit_current :
      BlockDeliver E V G → Outcome ((Bytes × GoMap Bytes) × BlockDeliver E V G)
  commit_current app = do
    r ← commit_tx E J (app.fees.trans_id) (app.fees.tx_id) (app.fees.helper)
    returned (r.0, record app { fees = record (app.fees) { helper = r.1 } })

  -- `emitFeeReceipts` on the block's fees.
  unfoldable pub emit_fees :
      Transaction
      → Response
      → Bool
      → BlockDeliver E V G
      → Outcome ((List KvPair × ℤ) × BlockDeliver E V G)
  emit_fees transaction response is_ok app = do
    method_id ← last_method (transaction.method_ids)
    r ←
        emit_fee_receipts E J A R (length (transaction.method_ids)) method_id (response.tags) is_ok
          (app.fees)
    returned (r.0, record app { fees = r.1 })

  -- The writes of the contracts, one call of `AdapterSetCallBack` after the other.
  unfoldable pub apply_writes : ℤ → ℕ → List (GoMap Bytes) → Helper E → Outcome (Helper E)
  apply_writes trans_id tx_id [] h = returned h
  apply_writes trans_id tx_id (w ∷ writes) h =
      batch_set E J trans_id tx_id w h >>= λ h'. apply_writes trans_id tx_id writes h'

  -- The response to a transaction whose invocation has failed or not, from its tags and fee.
  abbrev pub response_of : Transaction → Response → List KvPair → ℤ → Bytes → ResponseDeliverTx
  response_of transaction response tags fee result_data = record {
    code = response.code;
    log = response.log;
    result_data = result_data;
    tags = tags;
    gas_limit = to_uint64 (transaction.gas_limit);
    gas_used = to_uint64 (response.gas_used);
    fee = to_uint64 fee;
  }

  -- `reportInvokeFailure`: the fees are committed if there are receipts of them.
  unfoldable pub report_invoke_failure :
      Bytes
      → Transaction
      → Response
      → BlockDeliver E V G
      → Outcome ((ResponseDeliverTx × GoMap Bytes × ℤ) × BlockDeliver E V G)
  unfolding calc_deliver_hash emit_fees commit_current to_uint64
  report_invoke_failure tx transaction response app = do
    (emitted, app₁) ← emit_fees transaction response false app
    let answer = response_of transaction response (emitted.0) (response.fee) []
    (committed, app₂) ←
        (if is_empty (emitted.0) then returned (([], []), app₁) else commit_current app₁)
    returned (
      (answer, committed.1, emitted.1),
      calc_deliver_hash (some tx) (some answer) (committed.0) app₂,
    )

  -- What `runDeliverTx` does after a failed invocation: the writes of the contracts are rolled back.
  unfoldable pub run_failed :
      Bytes
      → Transaction
      → Response
      → GoMap Bytes
      → BlockDeliver E V G
      → Outcome ((ResponseDeliverTx × GoMap Bytes) × BlockDeliver E V G)
  unfolding report_invoke_failure to_uint64
  run_failed tx transaction response nonce_buffer app = do
    app₁ ← with_helper (rollback_tx E J (app.fees.trans_id) (app.fees.tx_id)) app
    (answer, app₂) ← report_invoke_failure tx transaction response app₁
    returned (
      (record (answer.0) { fee = to_uint64 (answer.2) }, combine_buffer nonce_buffer (answer.1)),
      app₂,
    )

  -- `packValidators` and `packSideChainGenesis`, each behind its test.
  unfoldable pub pack_validators : Response → BlockDeliver E V G → BlockDeliver E V G
  pack_validators response app =
      if has_update_validator_receipt (response.tags)
      then record app {
        ud_validator = true;
        validators = Node.validators N (app.fees.helper) (app.fees.trans_id) (app.fees.tx_id);
      }
      else app

  unfoldable pub pack_side_chain_genesis :
      Response → BlockDeliver E V G → Outcome (BlockDeliver E V G)
  pack_side_chain_genesis response app = elim (side_chain_genesis_receipt (response.tags)) [
    | none ↦ returned app
    | some tag ↦ or_panic (Node.side_chain_genesis N (tag.1)) >>= λ genesis.
        returned (record app { sc_genesis = some genesis })
  ]

  -- What `runDeliverTx` does after an invocation that has not failed.
  unfoldable pub run_ok :
      Bytes
      → Transaction
      → Response
      → GoMap Bytes
      → BlockDeliver E V G
      → Outcome ((ResponseDeliverTx × GoMap Bytes) × BlockDeliver E V G)
  unfolding calc_deliver_hash emit_fees commit_current to_uint64 pack_validators
      pack_side_chain_genesis
  run_ok tx transaction response nonce_buffer app = do
    app₁ ← pack_side_chain_genesis response (pack_validators response app)
    (emitted, app₂) ← emit_fees transaction response true app₁
    let answer = response_of transaction response (emitted.0) (emitted.1) (response.result_data)
    (committed, app₃) ← commit_current app₂
    let app₄ = calc_deliver_hash (some tx) (some answer) (committed.0) app₃
    returned (
      (answer, combine_buffer nonce_buffer (committed.1)),
      record app₄ { fee = wrap_int64 (app₄.fee +ℤ response.fee) },
    )

  -- `runDeliverTx` behind the nonce: the contracts are invoked, and have written to the `Tx`.
  unfoldable pub invoke_tx :
      Bytes
      → Transaction
      → GoMap Bytes
      → Invocation
      → BlockDeliver E V G
      → Outcome ((ResponseDeliverTx × GoMap Bytes) × BlockDeliver E V G)
  unfolding run_failed run_ok
  invoke_tx tx transaction nonce_buffer done app = do
    app₁ ← with_helper (apply_writes (app.fees.trans_id) (app.fees.tx_id) (done.writes)) app
    if done.response.code == code_ok
        then run_ok tx transaction (done.response) nonce_buffer app₁
        else run_failed tx transaction (done.response) nonce_buffer app₁

  -- `runDeliverTx`
  unfoldable pub run_deliver_tx :
      Bytes
      → Transaction
      → Bytes
      → BlockDeliver E V G
      → Outcome ((ResponseDeliverTx × GoMap Bytes) × BlockDeliver E V G)
  unfolding invoke_tx report_failure
  run_deliver_tx tx transaction pub_key app =
      let sender = address pub_key in
      if ltb max_size_note (length (transaction.note))
      then (let r = report_failure tx (codes "tx note is out of range") app in
          returned ((r.0, []), r.1))
      else (do
        (accepted, helper) ←
            set_account_nonce E J A (app.fees.trans_id) (app.fees.tx_id) sender (transaction.nonce)
              (app.fees.helper)
        let app₁ : BlockDeliver E V G = record app { fees = record (app.fees) { helper = helper } }
        elim accepted [
          | none ↦
              let r = report_failure tx (codes "SetAccountNonce failed") app₁ in
              returned ((r.0, []), r.1)
          | some nonce_buffer ↦
              invoke_tx tx transaction nonce_buffer
                (invoke helper (app.fees.tx_id) sender transaction pub_key (calc_code_hash tx)) app₁
        ])

  -- The transaction in a text: in base 58, or else in base 64.
  unfoldable pub parse_tx : Bytes → Option (Transaction × Bytes)
  parse_tx tx = elim (parse_v2 tx) [ none ↦ parse_v3 tx | some t ↦ some t ]

  -- `deliverBCTx`, once the chain's id is known
  unfoldable pub deliver_bc_tx :
      Bytes → BlockDeliver E V G → Outcome ((ResponseDeliverTx × GoMap Bytes) × BlockDeliver E V G)
  unfolding run_deliver_tx parse_tx report_failure
  deliver_bc_tx tx app = do
    (tx_id, helper) ← new_tx E J (app.fees.trans_id) (app.fees.helper)
    let app₁ : BlockDeliver E V G = record app {
      fees = record (app.fees) { tx_id = tx_id; helper = helper };
    }
    elim (parse_tx tx) [
      | none ↦ let r = report_failure tx (codes "tx parse failed") app₁ in returned ((r.0, []), r.1)
      | some parsed ↦ run_deliver_tx tx (parsed.0) (parsed.1) app₁
    ]
