-- ===== src/Helper/Tests.antt =====
-- Runs of the helper over the sample database, and its theorems at concrete inputs.
use bcbchain.Base.{
  Bytes, GoMap, codes, lookup, insert, bytes_eq, is_empty, ℕ, ◌+◌, ◌%◌, ◌^◌, ◌≡◌, refl, true, some,
  [], ◌∷◌, ◌==◌, ◌||◌, if◌then◌else◌, returned,
}
use bcbchain.Base.Int.{pos}
use bcbchain.Db.Sample.{sample_db, sample_json}
use bcbchain.Statedb.Snapshot
use bcbchain.Statedb.Tx
use bcbchain.Statedb.Tx.{Tx}
use bcbchain.Statedb.Database
use bcbchain.Statedb.Database.{StateDb, new_committable_transaction}
use bcbchain.Statedb.Database.Spec.{overlay}
use bcbchain.Helper.{
  Helper, Trans, load, store, find_tx, store_tx, read, get, set, rollback_tx, commit_tx,
}
use bcbchain.Helper.Reads.{get-set, get-rollback_tx, get-commit_tx, own}
use bcbchain.Helper.Accounts.{check_account_nonce, set_account_nonce, write_nonce}
use bcbchain.Helper.Accounts.Nonces.{check_account_nonce-rollback_tx}
use bcbchain.Helper.Keys.{key_of_account_nonce, key_of_account}
use bcbchain.Helper.Sample.{sample_accounts}

-- Transaction 1 is open, with two `Tx`, one of which has written.
abbrev writer : Tx
writer = record { tx_id = 1; buffer = (codes "a", codes "1") ∷ [] }

abbrev block : Trans
block = record {
  transaction = record {
    transaction_id = 1;
    buffer = (codes "b", codes "2") ∷ [];
    committable = true;
    last_tx_id = 2;
  };
  tx_map = (1, writer) ∷ (2, record { tx_id = 2; buffer = [] }) ∷ [];
}

abbrev opened : Helper sample_db
opened = record {
  state_db = record {
    sdb = [];
    snapshot_db = [];
    committable_transaction = some 1;
    last_committable_transaction_id = 1;
    last_rollback_transaction_id = 0;
  };
  transaction_map = (pos 1, block) ∷ [];
  current_committable_transaction = some (pos 1);
}

abbrev after_set : Helper sample_db
after_set = record opened {
  transaction_map =
      (
        pos 1,
        record block { tx_map = store_tx 1 (Tx.set (codes "a") (codes "7") writer) block.tx_map },
      )
      ∷ [];
}

get-set_example : get sample_db sample_json (pos 1) 1 (codes "a") after_set ≡ returned (codes "7")
unfolding set load store find_tx store_tx Tx.set bytes_eq
get-set_example =
    get-set sample_db sample_json (pos 1) 1 (codes "a") (codes "7") opened after_set refl refl
      (pos 1) 1 (codes "a")

abbrev after_rollback : Helper sample_db
after_rollback = record opened {
  transaction_map =
      (pos 1, record block { tx_map = store_tx 1 (Tx.rollback writer) block.tx_map }) ∷ [];
}

get-rollback_tx_example :
    get sample_db sample_json (pos 1) 1 (codes "a") after_rollback
    ≡ returned (Database.get sample_db sample_json opened.state_db block.transaction (codes "a"))
unfolding rollback_tx load store find_tx store_tx
get-rollback_tx_example =
    get-rollback_tx sample_db sample_json (pos 1) 1 opened after_rollback block refl refl (pos 1) 1
      (codes "a")

get-commit_tx_example :
    (result : Bytes × GoMap Bytes) × (h' : Helper sample_db) × (commit_tx sample_db sample_json
        (pos 1)
        1
        opened
      ≡ returned (result, h'))
    × ((y : ℕ) (k : Bytes)
        → get sample_db sample_json (pos 1) y k h' ≡ (
            if (1 == y) || is_empty (own sample_db sample_json block y k)
            then returned (
                overlay writer.buffer
                  (Database.get sample_db sample_json opened.state_db block.transaction)
                  k)
            else returned (own sample_db sample_json block y k)))
unfolding load find_tx lookup
get-commit_tx_example =
    get-commit_tx sample_db sample_json (pos 1) 1 opened block writer refl refl (refl, tt)

-- The first nonce of an account, and the state that accepts it.
abbrev address : Bytes
address = codes "bcb1"

nonce_accepted :
    (buffer : GoMap Bytes) × (h' : Helper sample_db) × (set_account_nonce sample_db sample_json
        sample_accounts
        (pos 1)
        1
        address
        1
        opened
      ≡ returned (some buffer, h'))
unfolding set_account_nonce write_nonce get read load store find_tx lookup insert bytes_eq
    key_of_account_nonce key_of_account Tx.get Database.get Database.set check_account_nonce
    Snapshot.get
nonce_accepted = (_, _, refl)

nonce_rolled_back :
    (h'' : Helper sample_db) × (rollback_tx sample_db sample_json (pos 1) 1 (nonce_accepted.1)
      ≡ returned h'')
unfolding nonce_accepted rollback_tx load store find_tx
nonce_rolled_back = (_, refl)

check_account_nonce-rollback_tx_example :
    (check_account_nonce sample_db sample_json sample_accounts (pos 1) 1 address 1 opened
      ≡ returned true)
    × ((m : ℕ)
        → check_account_nonce sample_db sample_json sample_accounts
            (pos 1)
            1
            address
            m
            (nonce_rolled_back.0)
          ≡ returned (m == (1 + 1) % 2 ^ 64))
check_account_nonce-rollback_tx_example =
    check_account_nonce-rollback_tx sample_db sample_json sample_accounts (pos 1) 1 address 1 opened
      (nonce_accepted.1) (nonce_rolled_back.0) (nonce_accepted.0) (nonce_accepted.2)
      (nonce_rolled_back.1)
