-- ===== src/Statedb/Database/Commit.antt =====
-- `Transaction.Commit`: when it goes through, and the databases that it leaves.
use bcbchain.Base.{Bytes, GoMap, ℕ, suc, ◌-◌, ◌≡◌, true, some, none, ◌++◌, returned, arith}
use bcbchain.Db.{LevelDb, Json}
use bcbchain.Statedb.Keys.{key_of_last_transaction_id, key_of_max_snapshot_count}
use bcbchain.Statedb.Snapshot
use bcbchain.Statedb.Snapshot.{write_op, or_panic, is_next_id, snapshot_entries}
use bcbchain.Statedb.Database.{Transaction, StateDb, commit, check_id, read_origin}
use bcbchain.Statedb.Database.Views.{after}

module _ (E : LevelDb) (J : Json) where
  -- The snapshots behind a commit.
  abbrev pub snapshots_after : ℕ → ℕ → GoMap Bytes → GoMap Bytes → E.Db → E.Db
  snapshots_after max_count transaction_id origin_data new_data db = E.commit db (
      Snapshot.check_max_count E J db (transaction_id - max_count)
      ++ snapshot_entries E J max_count transaction_id origin_data new_data)

  -- The state behind a commit.
  abbrev pub committed : ℕ → Transaction → StateDb E → StateDb E
  committed max_count t s = record s {
    sdb = after E J s.sdb t.buffer (J.encode_int t.transaction_id);
    snapshot_db =
        snapshots_after max_count t.transaction_id (read_origin E J s.sdb t.buffer) t.buffer
          s.snapshot_db;
    committable_transaction = none;
  }

  check_id_next :
      (sdb : E.Db) (n : ℕ)
      → Snapshot.get_int64 E J sdb key_of_last_transaction_id ≡ returned n
      → check_id E J sdb (suc n) ≡ returned tt
  unfolding check_id Snapshot.get_int64
  check_id_next sdb n h = ground arith

  snapshot-commit_lem :
      (max_count n : ℕ) (origin_data new_data : GoMap Bytes) (db : E.Db)
      → E.find db key_of_max_snapshot_count ≡ some (J.encode_int max_count)
      → Snapshot.get_int64 E J db key_of_last_transaction_id ≡ returned n
      → Snapshot.commit E J (suc n) origin_data new_data db
        ≡ returned (snapshots_after max_count (suc n) origin_data new_data db)
  unfolding Snapshot.commit Snapshot.get
  snapshot-commit_lem max_count n origin_data new_data db m h =
      rw (m, J.encode_int_nonempty, J.decode_int-encode_int, h) (ground arith)

  pub commit_lem :
      (max_count n : ℕ) (t : Transaction) (s : StateDb E)
      → t.committable ≡ true
      → t.transaction_id ≡ suc n
      → Snapshot.get_int64 E J s.sdb key_of_last_transaction_id ≡ returned n
      → Snapshot.get_int64 E J s.snapshot_db key_of_last_transaction_id ≡ returned n
      → E.find s.snapshot_db key_of_max_snapshot_count ≡ some (J.encode_int max_count)
      → commit E J t s ≡ returned (committed max_count t s)
  unfolding commit
  commit_lem max_count n t s c i h k m =
      rw (c, i, check_id_next s.sdb n h, snapshot-commit_lem max_count n _ _ _ m k)
