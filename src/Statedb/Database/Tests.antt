-- ===== src/Statedb/Database/Tests.antt =====
-- Runs of the state database over the sample database, and the theorems at concrete inputs.
use bcbchain.Base.{
  codes, lookup, insert, insert_all, bytes_eq, ◌≡◌, refl, true, none, [], ◌∷◌, returned, panicked,
  ◌>>=◌, arith,
}
use bcbchain.Base.Int.{pos}
use bcbchain.Db.Sample.{sample_db, sample_json, apply_all}
use bcbchain.Statedb.Keys.{key_of_last_transaction_id}
use bcbchain.Statedb.Snapshot
use bcbchain.Statedb.Snapshot.{set_max_snapshot_count}
use bcbchain.Statedb.Database.{Transaction, StateDb, new, commit, rollback}
use bcbchain.Statedb.Database.Spec.{View, overlay, SameView}
use bcbchain.Statedb.Database.Versions.{IsWritable, IsAt, commit-IsAt}
use bcbchain.Statedb.Database.Rollback.{rollback-IsAt}
use bcbchain.Statedb.Database.History.{
  Writes, IsIdle, run_block, run_blocks, run_block-IsIdle, rollback-run_blocks,
}
use bcbchain.Statedb.Database.Reopening.{new-IsIdle, run_block-rollback}

abbrev nothing : View
nothing k = []

-- A new database that keeps two snapshots.
abbrev start : StateDb sample_db
start = record {
  sdb = [];
  snapshot_db = set_max_snapshot_count sample_db sample_json 2 [];
  committable_transaction = none;
  last_committable_transaction_id = 0;
  last_rollback_transaction_id = 0;
}

new-start : new sample_db sample_json (pos 2) [] [] ≡ returned start
unfolding new Snapshot.get_int64 lookup
new-start = refl

start-IsIdle : IsIdle sample_db sample_json 2 0 nothing [] start
unfolding Snapshot.get_int64 set_max_snapshot_count apply_all insert lookup bytes_eq
start-IsIdle = record {
  at = record {
    view = λ k ne. refl;
    sdb_last = refl;
    snapshot_last = refl;
    max_count = refl;
    retained = tt;
  };
  closed = refl;
  counter = refl;
}

abbrev first_block : Writes
first_block = (codes "a", codes "1") ∷ []

abbrev second_block : Writes
second_block = (codes "b", codes "3") ∷ (codes "a", []) ∷ []

first-IsWritable : IsWritable (insert_all first_block [])
unfolding insert_all lookup bytes_eq
first-IsWritable = record { unique = (refl, tt); nonempty = refl; not_reserved = refl }

second-IsWritable : IsWritable (insert_all second_block [])
unfolding insert_all lookup bytes_eq
second-IsWritable = record { unique = (refl, (refl, tt)); nonempty = refl; not_reserved = refl }

rollback-run_blocks_example :
    (s' : StateDb sample_db) × ((do
      s₁ ← run_blocks sample_db sample_json (first_block ∷ second_block ∷ []) start
      rollback sample_db sample_json (pos 2) s₁)
      ≡ returned s')
    × SameView (Snapshot.get sample_db sample_json s'.sdb) nothing
    × (Snapshot.get_int64 sample_db sample_json s'.sdb key_of_last_transaction_id ≡ returned 0)
rollback-run_blocks_example =
    rollback-run_blocks sample_db sample_json 2 0 nothing [] first_block (second_block ∷ []) start
      start-IsIdle (first-IsWritable, (second-IsWritable, tt)) (omega arith)

-- The state behind the first block, and the versions that it can go back through.
abbrev one_block : StateDb sample_db
one_block =
    (run_block-IsIdle sample_db sample_json 2 0 nothing [] first_block start start-IsIdle
      first-IsWritable).0

abbrev first_view : View
first_view = overlay (insert_all first_block []) nothing

one_block-IsIdle : IsIdle sample_db sample_json 2 1 first_view (nothing ∷ []) one_block
one_block-IsIdle =
    (run_block-IsIdle sample_db sample_json 2 0 nothing [] first_block start start-IsIdle
      first-IsWritable).2

abbrev next_transaction : Transaction
next_transaction = record {
  transaction_id = 1;
  buffer = insert_all first_block [];
  committable = true;
  last_tx_id = 0;
}

commit-IsAt_example :
    (s' : StateDb sample_db) × (commit sample_db sample_json next_transaction start ≡ returned s')
    × IsAt sample_db sample_json 2 1 first_view (nothing ∷ []) s'
    × (s'.committable_transaction ≡ none)
    × (s'.last_committable_transaction_id ≡ 0)
commit-IsAt_example =
    commit-IsAt sample_db sample_json 2 0 nothing [] next_transaction start start-IsIdle.at refl
      refl first-IsWritable

rollback-IsAt_example :
    (s' : StateDb sample_db) × (rollback sample_db sample_json (pos 1) one_block ≡ returned s')
    × IsAt sample_db sample_json 2 0 nothing [] s'
    × (s'.committable_transaction ≡ none)
    × (s'.last_committable_transaction_id ≡ one_block.last_committable_transaction_id)
rollback-IsAt_example =
    rollback-IsAt sample_db sample_json 2 1 0 first_view (nothing ∷ []) one_block
      one_block-IsIdle.at one_block-IsIdle.closed (omega arith)

run_block-rollback_example :
    (do
      s' ← rollback sample_db sample_json (pos 1) one_block
      run_block sample_db sample_json second_block s')
    ≡ panicked
run_block-rollback_example =
    run_block-rollback sample_db sample_json 2 1 0 first_view (nothing ∷ []) second_block one_block
      one_block-IsIdle (omega arith)

new-IsIdle_example :
    (s' : StateDb sample_db) × (new sample_db sample_json
        (pos 5)
        one_block.sdb
        one_block.snapshot_db
      ≡ returned s')
    × IsIdle sample_db sample_json 5 1 first_view (nothing ∷ []) s'
new-IsIdle_example =
    new-IsIdle sample_db sample_json 2 5 1 first_view (nothing ∷ []) one_block one_block-IsIdle.at
