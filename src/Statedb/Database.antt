-- ===== src/Statedb/Database.antt =====
-- statedb/statedb.go and statedb/transaction.go. The state database points to its committable
-- transaction, which is only compared with nil: here its id, if there is one. A `Transaction`
-- points back to the state database, which the operations take and return.
-- The counters are int64; they grow by one for a block and are taken to stay below 2^63.
pub mod Spec
pub mod Commit
pub mod Views
pub mod Pruning
pub mod Retained
pub mod Rollback
pub mod Versions
pub mod History
pub mod Reopening
mod Tests
use bcbchain.Base.{
  Bytes, GoMap, lookup, insert, insert_all, bytes_eq, is_empty, ℕ, zero, suc, ◌+◌, ◌-◌, Bool, true,
  false, not, Option, none, some, List, [], ◌∷◌, ◌++◌, map, ltb, ◌==◌, if◌then◌else◌, Outcome,
  returned, panicked, ◌>>=◌, ◌>>◌, panic_if,
}
use bcbchain.Base.Int.{ℤ, pos, negsuc, ◌-ℤ◌}
use bcbchain.Db.{LevelDb, Json, BatchOp, put, delete, value_of, is_some}
use bcbchain.Statedb.Keys.{key_of_last_transaction_id}
use bcbchain.Statedb.Buffer.{sorted_bytes}
use bcbchain.Statedb.Snapshot
use bcbchain.Statedb.Snapshot.{write_op, or_panic}

pub record Transaction : Type 0 where
  -- the number behind the id: a rollback transaction has the id - transaction_id
  pub transaction_id : ℕ
  pub buffer : GoMap Bytes
  pub committable : Bool
  pub last_tx_id : ℕ

-- `Transaction.ID`
unfoldable pub id : Transaction → ℤ
id t = if t.committable then pos t.transaction_id else pos 0 -ℤ pos t.transaction_id

-- `calcTxID`: the id of a new `Tx`.
unfoldable pub calc_tx_id : Transaction → ℕ × Transaction
calc_tx_id t = (t.last_tx_id + 1, record t { last_tx_id = t.last_tx_id + 1 })

unfoldable pub set : Bytes → Bytes → Transaction → Transaction
set key value t = record t { buffer = insert key value t.buffer }

unfoldable pub batch_set : GoMap Bytes → Transaction → Transaction
batch_set data' t = record t { buffer = insert_all data' t.buffer }

-- `Transaction.Rollback`
unfoldable pub clear : Transaction → Transaction
clear t = record t { buffer = [] }

unfoldable pub get_buffer : Transaction → Bytes
get_buffer t = sorted_bytes t.buffer

-- `pointer != nil`
abbrev pub is_some_id : Option ℕ → Bool
is_some_id none = false
is_some_id (some id) = true

pub record StateDb (E : LevelDb) : Type 0 where
  pub sdb : E.Db
  pub snapshot_db : E.Db
  pub committable_transaction : Option ℕ
  pub last_committable_transaction_id : ℕ
  pub last_rollback_transaction_id : ℕ

module _ (E : LevelDb) (J : Json) where
  open E use {Db}
  open J use {encode_int, decode_int}

  -- `New`, over the two databases that it opens.
  unfoldable pub new : ℤ → Db → Db → Outcome (StateDb E)
  new (negsuc n) sdb snapshot_db = panicked
  new (pos max_count) sdb snapshot_db = do
    last ← Snapshot.get_int64 E J sdb key_of_last_transaction_id
    returned (record {
      sdb = sdb;
      snapshot_db = Snapshot.set_max_snapshot_count E J max_count snapshot_db;
      committable_transaction = none;
      last_committable_transaction_id = last;
      last_rollback_transaction_id = 0;
    })

  -- `StateDB.Get`
  unfoldable pub state_get : StateDb E → Bytes → Bytes
  state_get s key = Snapshot.get E J s.sdb key

  -- `Transaction.Get`: its own buffer first, an empty value included.
  unfoldable pub get : StateDb E → Transaction → Bytes → Bytes
  get s t key = elim (lookup key t.buffer) [
    | some value ↦ value
    | none ↦ Snapshot.get E J s.sdb key
  ]

  unfoldable pub new_committable_transaction : StateDb E → Outcome (Transaction × StateDb E)
  new_committable_transaction s = do
    panic_if (is_some_id s.committable_transaction)
    returned (
      record {
        transaction_id = s.last_committable_transaction_id + 1;
        buffer = [];
        committable = true;
        last_tx_id = 0;
      },
      record s {
        committable_transaction = some (s.last_committable_transaction_id + 1);
        last_committable_transaction_id = s.last_committable_transaction_id + 1;
      },
    )

  unfoldable pub new_rollback_transaction : StateDb E → Transaction × StateDb E
  new_rollback_transaction s = (
    record {
      transaction_id = s.last_rollback_transaction_id + 1;
      buffer = [];
      committable = false;
      last_tx_id = 0;
    },
    record s { last_rollback_transaction_id = s.last_rollback_transaction_id + 1 },
  )

  -- `checkID`
  unfoldable pub check_id : Db → ℕ → Outcome (Unit {0})
  check_id sdb transaction_id =
      if is_empty (Snapshot.get E J sdb key_of_last_transaction_id)
      then panic_if (not (transaction_id == 1))
      else (do
        last ← or_panic (decode_int (Snapshot.get E J sdb key_of_last_transaction_id))
        panic_if (not (transaction_id == last + 1)))

  -- The values that a commit is about to overwrite.
  unfoldable pub read_origin : Db → GoMap Bytes → GoMap Bytes
  read_origin sdb = map (λ e. (e.0, Snapshot.get E J sdb e.0))

  -- `Transaction.Commit`
  unfoldable pub commit : Transaction → StateDb E → Outcome (StateDb E)
  unfolding check_id read_origin
  commit t s = do
    panic_if (not t.committable)
    check_id s.sdb t.transaction_id
    snapshot_db' ←
        Snapshot.commit E J t.transaction_id (read_origin s.sdb t.buffer) t.buffer s.snapshot_db
    returned (record s {
      sdb = E.commit s.sdb (
          map write_op t.buffer
          ++ put key_of_last_transaction_id (encode_int t.transaction_id) ∷ []);
      snapshot_db = snapshot_db';
      committable_transaction = none;
    })

  -- `StateDB.Rollback`
  unfoldable pub rollback : ℤ → StateDb E → Outcome (StateDb E)
  rollback (negsuc n) s = panicked
  rollback (pos zero) s = panicked
  rollback (pos (suc n)) s = do
    panic_if (is_some_id s.committable_transaction)
    (sdb', snapshot_db') ← Snapshot.rollback E J (suc n) s.sdb s.snapshot_db
    returned (record s { sdb = sdb'; snapshot_db = snapshot_db' })
