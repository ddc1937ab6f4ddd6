-- ===== src/Statedb/Database/Reopening.antt =====
-- `New` over existing databases (statedb/statedb.go), and why a rollback wants one: `Rollback` does
-- not reset the counter that `New` reads.
use bcbchain.Base.{
  Bytes, bytes_eq_refl, bytes_ne, ℕ, suc, ◌+◌, ◌-◌, ◌≤◌, ◌≡◌, ◌≢◌, refl, sym, none, some, List,
  length, returned, panicked, ◌>>=◌, arith,
}
use bcbchain.Base.Int.{pos}
use bcbchain.Db.{LevelDb, Json, find_after}
use bcbchain.Statedb.Keys.{
  key_of_last_transaction_id, key_of_max_snapshot_count, key_of_last-ne-key_of_max,
  key_of_origin_data-ne-key_of_max, key_of_new_data-ne-key_of_max,
}
use bcbchain.Statedb.Snapshot
use bcbchain.Statedb.Snapshot.{or_panic, set_max_snapshot_count}
use bcbchain.Statedb.Database.{
  StateDb, new, new_committable_transaction, batch_set, check_id, commit, rollback,
}
use bcbchain.Statedb.Database.Spec.{View}
use bcbchain.Statedb.Database.Retained.{Retained-SameSnapshots}
use bcbchain.Statedb.Database.Versions.{IsAt, length-Retained}
use bcbchain.Statedb.Database.Rollback.{rollback-IsAt}
use bcbchain.Statedb.Database.History.{Writes, IsIdle, run_block}

module _ (E : LevelDb) (J : Json) where
  -- The key of the largest snapshot count is the only one that is written.
  find-set_max :
      (count : ℕ) (db : E.Db) (k : Bytes)
      → key_of_max_snapshot_count ≢ k
      → E.find (set_max_snapshot_count E J count db) k ≡ E.find db k
  unfolding set_max_snapshot_count find_after
  find-set_max count db k ne = rw (E.find-commit, bytes_ne _ _ ne)

  find-set_max_self :
      (count : ℕ) (db : E.Db)
      → E.find (set_max_snapshot_count E J count db) key_of_max_snapshot_count
        ≡ some (J.encode_int count)
  unfolding set_max_snapshot_count find_after
  find-set_max_self count db = rw (E.find-commit, bytes_eq_refl)

  -- New over the databases of a state database that stands at transaction id does not panic and
  -- gives a state database between two blocks at that id, with the same view and versions,
  -- whatever the new largest snapshot count.
  pub new-IsIdle :
      (max max' id : ℕ) (now : View) (before : List View) (s : StateDb E)
      → IsAt E J max id now before s
      → (s' : StateDb E) × (new E J (pos max') s.sdb s.snapshot_db ≡ returned s')
        × IsIdle E J max' id now before s'
  unfolding new Snapshot.get_int64
  new-IsIdle max max' id now before s at = (
    record {
      sdb = s.sdb;
      snapshot_db = set_max_snapshot_count E J max' s.snapshot_db;
      committable_transaction = none;
      last_committable_transaction_id = id;
      last_rollback_transaction_id = 0;
    },
    rw at.sdb_last,
    record {
      at = record {
        view = at.view;
        sdb_last = at.sdb_last;
        snapshot_last =
            rw (find-set_max max' s.snapshot_db _ (λ e. key_of_last-ne-key_of_max (sym e)))
              at.snapshot_last;
        max_count = find-set_max_self max' s.snapshot_db;
        retained =
            Retained-SameSnapshots E J s.snapshot_db _ 0 id now before
              (λ i _ _. (
                find-set_max max' s.snapshot_db _ (λ e. key_of_origin_data-ne-key_of_max i (sym e)),
                find-set_max max' s.snapshot_db _ (λ e. key_of_new_data-ne-key_of_max i (sym e)),
              ))
              (omega (arith, length-Retained E J s.snapshot_db id now before at.retained))
              at.retained;
      };
      closed = refl;
      counter = refl;
    },
  )

  check_id_wrong :
      (sdb : E.Db) (last transaction_id : ℕ)
      → Snapshot.get_int64 E J sdb key_of_last_transaction_id ≡ returned last
      → transaction_id ≢ suc last
      → check_id E J sdb transaction_id ≡ panicked
  unfolding check_id Snapshot.get_int64
  check_id_wrong sdb last transaction_id h ne = ground arith

  -- Rollback does not reset the counter of transaction ids: after a rollback of retained
  -- transactions, committing a next block through the same state database panics.
  pub run_block-rollback :
      (max id n : ℕ) (now : View) (before : List View) (writes : Writes) (s : StateDb E)
      → IsIdle E J max id now before s
      → suc n ≤ length before
      → (do s' ← rollback E J (pos (suc n)) s; run_block E J writes s') ≡ panicked
  unfolding run_block new_committable_transaction batch_set commit
  run_block-rollback max id n now before writes s idle enough =
      let (s', rolled, at, closed, counter) =
        rollback-IsAt E J max id n now before s idle.at idle.closed enough in
      let fits = length-Retained E J s.snapshot_db id now before idle.at.retained in
      rw (rolled, closed, counter)
        (rw (
          check_id_wrong s'.sdb (id - suc n) (s.last_committable_transaction_id + 1) at.sdb_last
            (omega (arith, idle.counter))))
