-- ===== src/Deliver/Edges/Tests.antt =====
-- A block over the sample database, with a transaction that succeeds, one that fails and one that
-- cannot be read.
use bcbchain.Base.{
  Bytes, codes, bytes_eq, lookup, insert, insert_all, false, none, List, [], ◌∷◌, ◌≡◌, refl,
  Outcome, returned, panicked,
}
use bcbchain.Base.Int.{pos, ◌+ℤ◌}
use bcbchain.Base.Sort.{sort_strings}
use bcbchain.Db.Sample.{sample_db, sample_json, decode_number, apply_all}
use bcbchain.Statedb.Snapshot
use bcbchain.Statedb.Tx
use bcbchain.Statedb.Database
use bcbchain.Helper.{
  Helper, new_committable_transaction_id, new_tx, batch_set, commit_tx, commit_block, remove,
  rollback_tx, load, store, find_tx, store_tx, read, get, set,
}
use bcbchain.Helper.Accounts.{set_account_nonce, check_account_nonce, write_nonce}
use bcbchain.Helper.Keys.{key_of_account, key_of_account_nonce}
use bcbchain.Helper.Sample.{sample_accounts}
use bcbchain.Deliver.{emit_fee_receipts, emit_loop, gather_fees, wrap_int64}
use bcbchain.Deliver.Types.{
  AppState, BlockDeliver, RequestBeginBlock, to_uint64, combine_buffer,
  has_update_validator_receipt, side_chain_genesis_receipt, last_method, concat, big_endian,
}
use bcbchain.Deliver.Blocks.{
  deliver_bc_tx, run_deliver_tx, parse_tx, invoke_tx, run_ok, apply_writes, emit_fees,
  commit_current, calc_deliver_hash, pack_validators, pack_side_chain_genesis, report_failure,
  run_failed, report_invoke_failure, reward_pairs,
}
use bcbchain.Deliver.Edges.{
  no_app_state, open_block, commit, verified_app_state, get_world_app_state, commit_app_block,
  sealed_state, set_world_app_state,
}
use bcbchain.Deliver.Edges.Opening.{Follows}
use bcbchain.Deliver.Edges.Sealing.{Hashed, Sealed, run_block, deliver_all, run_block-Sealed}
use bcbchain.Deliver.Contracts.{
  get_contracts_with_height, key_of_contract_with_height, get_mine_contract,
}
use bcbchain.Deliver.Turns.{begin_block, end_block, init_or_update_smc, mine, init_loop, mine_loop}
use bcbchain.Base.Decimal.{decimal}
use bcbchain.Deliver.Sample.{sample_node, sample_calls, sample_receipts, app}

abbrev request : RequestBeginBlock
request = record {
  hash = codes "b";
  header = record {
    height = 1;
    last_app_hash = [];
    proposer_address = codes "a";
    reward_address = codes "r";
  };
}

abbrev fresh : Helper sample_db
fresh = record {
  state_db = record {
    sdb = [];
    snapshot_db = Snapshot.set_max_snapshot_count sample_db sample_json 2 [];
    committable_transaction = none;
    last_committable_transaction_id = 0;
    last_rollback_transaction_id = 0;
  };
  transaction_map = [];
  current_committable_transaction = none;
}

abbrev block : BlockDeliver sample_db Bytes Bytes
block = record {
  fees = record app { helper = fresh };
  block_hash = [];
  block_header = request.header;
  app_state = no_app_state;
  hash_list = [];
  sponser = [];
  fee = pos 0;
  ud_validator = false;
  validators = [];
  sc_genesis = none;
}

abbrev txs : List Bytes
txs = (1 ∷ codes "n") ∷ (2 ∷ codes "!") ∷ [] ∷ []

abbrev ran : Outcome (AppState × BlockDeliver sample_db Bytes Bytes)
ran =
    run_block sample_db sample_json sample_accounts sample_receipts Bytes Bytes sample_node
      sample_calls request txs block

abbrev result_of :
    Outcome (AppState × BlockDeliver sample_db Bytes Bytes)
    → AppState × BlockDeliver sample_db Bytes Bytes
result_of (returned r) = r
result_of panicked = (no_app_state, block)

ran-returned : ran ≡ returned (result_of ran)
unfolding deliver_all begin_block open_block verified_app_state get_world_app_state end_block commit
    commit_app_block sealed_state set_world_app_state reward_pairs concat big_endian
    init_or_update_smc get_contracts_with_height init_loop key_of_contract_with_height decimal mine
    get_mine_contract mine_loop new_committable_transaction_id commit_block remove
    Database.new_committable_transaction Database.id Database.commit Database.check_id
    Database.read_origin Database.state_get Snapshot.commit Snapshot.set_max_snapshot_count
    Snapshot.get_int64 deliver_bc_tx run_deliver_tx parse_tx report_failure invoke_tx run_ok
    run_failed report_invoke_failure rollback_tx Tx.rollback apply_writes emit_fees commit_current
    calc_deliver_hash pack_validators pack_side_chain_genesis to_uint64 combine_buffer
    has_update_validator_receipt side_chain_genesis_receipt last_method emit_fee_receipts emit_loop
    gather_fees wrap_int64 sort_strings new_tx batch_set commit_tx load store find_tx store_tx read
    get set Tx.get Tx.set Tx.batch_set Tx.commit Database.get Database.calc_tx_id Snapshot.get
    set_account_nonce check_account_nonce write_nonce lookup insert insert_all bytes_eq ◌+ℤ◌
    Database.set key_of_account key_of_account_nonce decode_number apply_all
ran-returned = refl

run_block-Sealed_example :
    (last : AppState) × (hashes : List Bytes) × Follows sample_db sample_json sample_accounts
      sample_receipts Bytes Bytes sample_node sample_calls request block last
    × Hashed sample_db sample_json sample_accounts sample_receipts Bytes Bytes sample_node
        sample_calls request txs block hashes
    × Sealed sample_db sample_json sample_accounts sample_receipts Bytes Bytes sample_node
        sample_calls last
        ((result_of ran).0)
        hashes
run_block-Sealed_example =
    run_block-Sealed sample_db sample_json sample_accounts sample_receipts Bytes Bytes sample_node
      sample_calls request txs block ((result_of ran).1) ((result_of ran).0) ran-returned
