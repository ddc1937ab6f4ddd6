-- ===== src/Statedb/Snapshot.antt =====
-- statedb/snapshot.go: for each committed block the values that it overwrote and those that it
-- wrote, in a second database. The `snapshot` object holds pointers to both databases; here an
-- operation takes them and returns what it changed.
use bcbchain.Base.{
  Bytes, GoMap, bytes_eq, is_empty, ℕ, zero, suc, ◌+◌, ◌-◌, Bool, true, not, ◌&&◌, ◌||◌, Option,
  none, some, List, [], ◌∷◌, ◌++◌, map, ltb, ◌==◌, if◌then◌else◌, Outcome, returned, panicked,
  ◌>>=◌, ◌>>◌, panic_if,
}
use bcbchain.Db.{LevelDb, Json, BatchOp, put, delete, value_of, is_some}
use bcbchain.Statedb.Keys.{
  key_of_last_transaction_id, key_of_max_snapshot_count, key_of_origin_data, key_of_new_data,
}

-- `if len(v) == 0 { batch.Delete(k) } else { batch.Set(k, v) }`
unfoldable pub write_op : Bytes × Bytes → BatchOp
write_op (k, v) = if is_empty v then delete k else put k v

-- `jsoniter.Unmarshal` panics in the caller if it fails.
abbrev pub or_panic {ℓ} : {A : Type ℓ} → Option A → Outcome A
or_panic none = panicked
or_panic (some a) = returned a

module _ (E : LevelDb) (J : Json) where
  open E use {Db, find}
  open J use {encode_int, decode_int, encode_map, decode_map}

  -- `db.Get`
  unfoldable pub get : Db → Bytes → Bytes
  get db k = value_of (find db k)

  -- `getInt64`: zero for a missing value
  unfoldable pub get_int64 : Db → Bytes → Outcome ℕ
  unfolding get
  get_int64 db key =
      if is_empty (get db key) then returned 0 else or_panic (decode_int (get db key))

  -- `snapshotDBGet` into an empty map
  unfoldable pub snapshot_db_get : Db → Bytes → Outcome (GoMap Bytes)
  unfolding get
  snapshot_db_get db key =
      if is_empty (get db key) then returned [] else or_panic (decode_map (get db key))

  -- `setMaxSnapshotCount`
  unfoldable pub set_max_snapshot_count : ℕ → Db → Db
  set_max_snapshot_count count db =
      E.commit db (put key_of_max_snapshot_count (encode_int count) ∷ [])

  -- `checkMaxCount`, from its loop's first id down: the deletions that it adds to the batch
  unfoldable pub check_max_count : Db → ℕ → List BatchOp
  check_max_count db zero = []
  check_max_count db (suc id) =
      if is_some (find db (key_of_origin_data (suc id)))
      then delete (key_of_origin_data (suc id))
        ∷ delete (key_of_new_data (suc id))
        ∷ check_max_count db id
      else []

  -- The guard of `snapshot.commit`: 0 means that the snapshots were deleted.
  abbrev pub is_next_id : ℕ → ℕ → Bool
  is_next_id last transaction_id =
      last == 0 || (transaction_id == last + 1 || transaction_id == last)

  -- The entries of `snapshot.commit` behind the deletions.
  abbrev pub snapshot_entries : ℕ → ℕ → GoMap Bytes → GoMap Bytes → List BatchOp
  snapshot_entries max_count transaction_id origin_data new_data =
      if max_count == 0
      then put key_of_last_transaction_id (encode_int transaction_id) ∷ []
      else put (key_of_origin_data transaction_id) (encode_map origin_data)
        ∷ put (key_of_new_data transaction_id) (encode_map new_data)
        ∷ put key_of_last_transaction_id (encode_int transaction_id)
        ∷ []

  -- `snapshot.commit`
  unfoldable pub commit : ℕ → GoMap Bytes → GoMap Bytes → Db → Outcome Db
  unfolding get get_int64 check_max_count
  commit transaction_id origin_data new_data db = do
    panic_if (is_empty (get db key_of_max_snapshot_count))
    max_count ← or_panic (decode_int (get db key_of_max_snapshot_count))
    last ← get_int64 db key_of_last_transaction_id
    panic_if (not (is_next_id last transaction_id))
    returned (
        E.commit db (
          check_max_count db (transaction_id - max_count)
          ++ snapshot_entries max_count transaction_id origin_data new_data))

  -- The comparison of a snapshot's new data with the state database.
  unfoldable pub matches : Db → GoMap Bytes → Bool
  unfolding get
  matches sdb [] = true
  matches sdb ((k, v) ∷ new_data) = bytes_eq v (get sdb k) && matches sdb new_data

  -- `rollbackStateDB`: returns the state database without the transaction.
  unfoldable pub rollback_state_db : Db → ℕ → Db → Outcome Db
  unfolding snapshot_db_get matches write_op
  rollback_state_db snapshot_db transaction_id sdb = do
    new_data ← snapshot_db_get snapshot_db (key_of_new_data transaction_id)
    panic_if (is_empty new_data)
    panic_if (not (matches sdb new_data))
    origin_data ← snapshot_db_get snapshot_db (key_of_origin_data transaction_id)
    panic_if (is_empty origin_data)
    returned (
        E.commit sdb (
          map write_op origin_data
          ++ put key_of_last_transaction_id (encode_int (transaction_id - 1)) ∷ []))

  -- The loop of `rollback`, for `count` ids from `id` down.
  unfoldable pub rollback_loop : Db → ℕ → ℕ → Db → Outcome Db
  unfolding rollback_state_db
  rollback_loop snapshot_db zero id sdb = returned sdb
  rollback_loop snapshot_db (suc count) id sdb = do
    sdb' ← rollback_state_db snapshot_db id sdb
    rollback_loop snapshot_db count (id - 1) sdb'

  -- The deletions that the loop adds to the batch of the snapshot database.
  unfoldable pub rollback_deletions : ℕ → ℕ → List BatchOp
  rollback_deletions zero id = []
  rollback_deletions (suc count) id =
      delete (key_of_new_data id)
      ∷ delete (key_of_origin_data id)
      ∷ rollback_deletions count (id - 1)

  -- `snapshot.rollback` of `count` transactions: returns the state database and the snapshots.
  unfoldable pub rollback : ℕ → Db → Db → Outcome (Db × Db)
  unfolding get_int64 snapshot_db_get rollback_loop rollback_deletions
  rollback count sdb snapshot_db = do
    last ← get_int64 snapshot_db key_of_last_transaction_id
    sdb_last ← get_int64 sdb key_of_last_transaction_id
    panic_if (not (last == sdb_last))
    panic_if (ltb last count)
    origin_data ← snapshot_db_get snapshot_db (key_of_origin_data (last - count + 1))
    panic_if (is_empty origin_data)
    sdb' ← rollback_loop snapshot_db count last sdb
    returned (
      sdb',
      E.commit snapshot_db (
          rollback_deletions count last
          ++ put key_of_last_transaction_id (encode_int (last - count)) ∷ []),
    )
