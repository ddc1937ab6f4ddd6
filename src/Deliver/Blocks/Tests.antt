-- ===== src/Deliver/Blocks/Tests.antt =====
-- Transactions over the sample database.
use bcbchain.Base.{
  Bytes, GoMap, codes, bytes_eq, lookup, insert, insert_all, false, none, [], ◌∷◌, ◌++◌, ◌≡◌, refl,
  Outcome, returned, panicked,
}
use bcbchain.Base.Int.{pos, ◌+ℤ◌}
use bcbchain.Db.Sample.{sample_db, sample_json}
use bcbchain.Helper.Sample.{sample_accounts}
use bcbchain.Deliver.Types.{
  BlockDeliver, ResponseDeliverTx, Header, Transaction, to_uint64, combine_buffer,
  has_update_validator_receipt, side_chain_genesis_receipt, last_method,
}
use bcbchain.Deliver.Edges.{no_app_state}
use bcbchain.Deliver.{emit_fee_receipts, emit_loop, gather_fees, wrap_int64}
use bcbchain.Base.Sort.{sort_strings}
use bcbchain.Statedb.Snapshot
use bcbchain.Statedb.Tx
use bcbchain.Statedb.Database
use bcbchain.Helper.{new_tx, batch_set, commit_tx, load, store, find_tx, store_tx, read, get, set}
use bcbchain.Helper.Accounts.{set_account_nonce, check_account_nonce, write_nonce}
use bcbchain.Deliver.Blocks.{
  deliver_bc_tx, run_deliver_tx, parse_tx, invoke_tx, run_ok, apply_writes, emit_fees,
  commit_current, calc_deliver_hash, pack_validators, pack_side_chain_genesis,
}
use bcbchain.Deliver.Blocks.Failures.{invoke_tx-failed}
use bcbchain.Deliver.Blocks.Delivered.{deliver_bc_tx-AddsHash}
use bcbchain.Deliver.Sample.{sample_node, answer, sample_receipts, app}

abbrev header : Header
header = record {
  height = 1;
  last_app_hash = [];
  proposer_address = codes "a";
  reward_address = codes "r";
}

abbrev block : BlockDeliver sample_db Bytes Bytes
block = record {
  fees = app;
  block_hash = [];
  block_header = header;
  app_state = record no_app_state { block_height = 1 };
  hash_list = (9 ∷ []) ∷ [];
  sponser = codes "a";
  fee = pos 0;
  ud_validator = false;
  validators = [];
  sc_genesis = none;
}

abbrev transaction : Transaction
transaction = record { nonce = 1; gas_limit = pos 10; note = codes "!"; method_ids = 1 ∷ [] }

invoke_tx-failed_example :
    invoke_tx sample_db sample_json sample_accounts sample_receipts Bytes Bytes sample_node
      (1 ∷ codes "!")
      transaction
      []
      (record { response = answer (codes "!"); writes = ((codes "k", codes "v") ∷ []) ∷ [] })
      block
    ≡ invoke_tx sample_db sample_json sample_accounts sample_receipts Bytes Bytes sample_node
        (1 ∷ codes "!")
        transaction
        []
        (record { response = answer (codes "!"); writes = [] })
        block
unfolding bytes_eq
invoke_tx-failed_example =
    invoke_tx-failed sample_db sample_json sample_accounts sample_receipts Bytes Bytes sample_node
      (1 ∷ codes "!") transaction [] (answer (codes "!")) (((codes "k", codes "v") ∷ []) ∷ []) block
      refl

-- A transaction that succeeds.
abbrev delivered : Outcome ((ResponseDeliverTx × GoMap Bytes) × BlockDeliver sample_db Bytes Bytes)
delivered =
    deliver_bc_tx sample_db sample_json sample_accounts sample_receipts Bytes Bytes sample_node
      (1 ∷ codes "n") block

abbrev result_of :
    Outcome ((ResponseDeliverTx × GoMap Bytes) × BlockDeliver sample_db Bytes Bytes)
    → (ResponseDeliverTx × GoMap Bytes) × BlockDeliver sample_db Bytes Bytes
result_of (returned r) = r
result_of panicked = (
  (
    record {
      code = 0;
      log = [];
      result_data = [];
      tags = [];
      gas_limit = 0;
      gas_used = 0;
      fee = 0;
    },
    [],
  ),
  block,
)

delivered-returned : delivered ≡ returned (result_of delivered)
unfolding deliver_bc_tx run_deliver_tx parse_tx invoke_tx run_ok apply_writes emit_fees
    commit_current calc_deliver_hash pack_validators pack_side_chain_genesis to_uint64
    combine_buffer has_update_validator_receipt side_chain_genesis_receipt last_method
    emit_fee_receipts emit_loop gather_fees wrap_int64 sort_strings new_tx batch_set commit_tx load
    store find_tx store_tx read get set Tx.get Tx.set Tx.batch_set Tx.commit Database.get
    Database.calc_tx_id Snapshot.get set_account_nonce check_account_nonce write_nonce lookup insert
    insert_all bytes_eq ◌+ℤ◌
delivered-returned = refl

deliver_bc_tx-AddsHash_example :
    (hash : Bytes) × ((result_of delivered).1.hash_list ≡ block.hash_list ++ hash ∷ [])
    × ((result_of delivered).1.app_state ≡ block.app_state)
deliver_bc_tx-AddsHash_example =
    deliver_bc_tx-AddsHash sample_db sample_json sample_accounts sample_receipts Bytes Bytes
      sample_node (1 ∷ codes "n") block ((result_of delivered).1) ((result_of delivered).0)
      delivered-returned
