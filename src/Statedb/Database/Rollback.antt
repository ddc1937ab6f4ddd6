-- ===== src/Statedb/Database/Rollback.antt =====
-- `StateDB.Rollback` of retained transactions goes through and shows the version before them.
use bcbchain.Base.{
  Bytes, GoMap, is_empty, bytes_eq_refl, bytes_ne, ℕ, zero, suc, ◌+◌, ◌-◌, ◌≤◌, ◌≡◌, refl, sym, ap,
  ◌∙◌, subst, true, false, none, some, List, [], ◌∷◌, ◌++◌, length, drop, returned, ltb, ==_refl,
  arith,
}
use bcbchain.Base.Int.{pos}
use bcbchain.Db.{LevelDb, Json, put, find_after}
use bcbchain.Db.Batch.{find_after-append, find_after-Avoids}
use bcbchain.Statedb.Keys.{
  key_of_last_transaction_id, key_of_max_snapshot_count, key_of_origin_data, key_of_new_data,
  key_of_last-ne-key_of_max, key_of_origin_data-ne-key_of_last, key_of_new_data-ne-key_of_last,
}
use bcbchain.Statedb.Snapshot
use bcbchain.Statedb.Snapshot.{rollback_state_db, rollback_loop, rollback_deletions, matches}
use bcbchain.Statedb.Database.{StateDb, rollback}
use bcbchain.Statedb.Database.Spec.{View, SameView, version}
use bcbchain.Statedb.Database.Views.{after, overlay_same, get-after, get_int64-after}
use bcbchain.Statedb.Database.Retained.{
  Shows, Restores, Retained, SameSnapshots, Retained-SameSnapshots,
}
use bcbchain.Statedb.Database.Pruning.{
  max-Apart, origin-Apart, new-Apart, rollback_deletions-Avoids,
}
use bcbchain.Statedb.Database.Versions.{IsAt, length-Retained}

not_below : (a b : ℕ) → b ≤ a → ltb a b ≡ false
not_below a b h = ground arith

module _ (E : LevelDb) (J : Json) where
  matches-Shows :
      (sdb : E.Db) (now : View) (new_data : GoMap Bytes)
      → SameView (Snapshot.get E J sdb) now
      → Shows now new_data
      → matches E J sdb new_data ≡ true
  unfolding matches
  matches-Shows sdb now [] same shows = refl
  matches-Shows sdb now (e ∷ new_data) same (head, rest) =
      rw (same e.0 head.0, head.1, bytes_eq_refl, matches-Shows sdb now new_data same rest)

  snapshot_db_get_lem :
      (db : E.Db) (key : Bytes) (m : GoMap Bytes)
      → E.find db key ≡ some (J.encode_map m)
      → Snapshot.snapshot_db_get E J db key ≡ returned m
  unfolding Snapshot.snapshot_db_get
  snapshot_db_get_lem db key m h = rw (h, J.encode_map_nonempty, J.decode_map-encode_map)

  -- One transaction is rolled back: the state database behind it.
  rollback_state_db_lem :
      (db sdb : E.Db) (id : ℕ) (now before : View)
      → SameView (Snapshot.get E J sdb) now
      → (r : Restores E J db id now before)
      → rollback_state_db E J db id sdb
        ≡ returned (after E J sdb r.origin_data (J.encode_int (id - 1)))
  unfolding rollback_state_db
  rollback_state_db_lem db sdb id now before same r = rw (
    snapshot_db_get_lem db _ r.new_data r.has_new,
    r.new_nonempty,
    matches-Shows sdb now r.new_data same r.shows,
    snapshot_db_get_lem db _ r.origin_data r.has_origin,
    r.origin_nonempty,
  )

  -- The loop reaches the version before `count` transactions.
  rollback_loop_lem :
      (db sdb : E.Db) (count id : ℕ) (now : View) (before : List View)
      → SameView (Snapshot.get E J sdb) now
      → Snapshot.get_int64 E J sdb key_of_last_transaction_id ≡ returned id
      → count ≤ length before
      → Retained E J db id now before
      → (sdb' : E.Db) × (rollback_loop E J db count id sdb ≡ returned sdb')
        × SameView (Snapshot.get E J sdb') (version now before count)
        × (Snapshot.get_int64 E J sdb' key_of_last_transaction_id ≡ returned (id - count))
        × Retained E J db (id - count) (version now before count) (drop count before)
  unfolding rollback_loop
  rollback_loop_lem db sdb zero id now before same last enough r = (
    sdb,
    refl,
    same,
    rw last (ap returned (omega arith)),
    subst (λ i. Retained E J db i now before) (omega arith) r,
  )
  rollback_loop_lem db sdb (suc count) id now [] same last enough r = absurd (omega arith)
  rollback_loop_lem db sdb (suc count) zero now (v ∷ before) same last enough r = absurd r
  rollback_loop_lem db sdb (suc count) (suc id) now (v ∷ before) same last enough (r, rest) =
      let sdb₁ = after E J sdb r.origin_data (J.encode_int id) in
      let lower : suc id - 1 ≡ id = omega arith in
      let (sdb', run, shows, last', left) =
        rollback_loop_lem db sdb₁ count id v before
          (λ k ne.
            get-after E J sdb r.origin_data _ r.unique k ne
            ∙ overlay_same r.origin_data (Snapshot.get E J sdb) now k (same k ne)
            ∙ r.leads_back k ne)
          (get_int64-after E J sdb r.origin_data _ id r.unique (J.encode_int_nonempty id)
            (J.decode_int-encode_int id))
          (omega arith) rest in
      (
        sdb',
        rw (rollback_state_db_lem db sdb (suc id) now v same r, lower) run,
        shows,
        rw last' (ap returned (omega arith)),
        subst (λ i. Retained E J db i (version v before count) (drop count before)) (omega arith)
            left,
      )

  -- The first snapshot that a rollback looks for is there.
  Retained-origin :
      (db : E.Db) (n id : ℕ) (now : View) (before : List View)
      → suc n ≤ length before
      → Retained E J db id now before
      → (m : GoMap Bytes) × (E.find db (key_of_origin_data (id - suc n + 1))
          ≡ some (J.encode_map m))
        × (is_empty m ≡ false)
  Retained-origin db n id now [] enough r = absurd (omega arith)
  Retained-origin db n zero now (v ∷ before) enough r = absurd r
  Retained-origin db zero (suc id) now (v ∷ before) enough (r, rest) =
      let e : suc id - 1 + 1 ≡ suc id = omega arith in
      (r.origin_data, rw e r.has_origin, r.origin_nonempty)
  Retained-origin db (suc n) (suc id) now (v ∷ before) enough (r, rest) =
      let e : suc id - suc (suc n) + 1 ≡ id - suc n + 1 = omega arith in
      rw e (Retained-origin db n id v before (omega arith) rest)

  -- The snapshots of transactions below those that are rolled back stay.
  kept_below :
      (db : E.Db) (count id : ℕ) (last : Bytes)
      → count ≤ id
      → SameSnapshots E J db
          (E.commit db
            (rollback_deletions E J count id ++ put key_of_last_transaction_id last ∷ []))
          0
          (id - count)
  unfolding find_after
  kept_below db count id last fits i above below = (
    rw (
      E.find-commit,
      find_after-append,
      find_after-Avoids _ (key_of_origin_data i) (E.find db (key_of_origin_data i)) (
          rollback_deletions-Avoids E J (key_of_origin_data i) count id fits
            (origin-Apart _ _ i (λ j high top. omega arith))),
      bytes_ne _ _ (λ e. key_of_origin_data-ne-key_of_last i (sym e)),
    ),
    rw (
      E.find-commit,
      find_after-append,
      find_after-Avoids _ (key_of_new_data i) (E.find db (key_of_new_data i)) (
          rollback_deletions-Avoids E J (key_of_new_data i) count id fits
            (new-Apart _ _ i (λ j high top. omega arith))),
      bytes_ne _ _ (λ e. key_of_new_data-ne-key_of_last i (sym e)),
    ),
  )

  rolled_last :
      (db : E.Db) (count id n : ℕ)
      → Snapshot.get_int64 E J
          (E.commit db (
            rollback_deletions E J count id
            ++ put key_of_last_transaction_id (J.encode_int n) ∷ []))
          key_of_last_transaction_id
        ≡ returned n
  unfolding find_after Snapshot.get_int64
  rolled_last db count id n = rw (
    E.find-commit, find_after-append, bytes_eq_refl, J.encode_int_nonempty, J.decode_int-encode_int,
  )

  rolled_max :
      (db : E.Db) (count id : ℕ) (last : Bytes)
      → count ≤ id
      → E.find
          (E.commit db
            (rollback_deletions E J count id ++ put key_of_last_transaction_id last ∷ []))
          key_of_max_snapshot_count
        ≡ E.find db key_of_max_snapshot_count
  unfolding find_after
  rolled_max db count id last fits = rw (
    E.find-commit,
    find_after-append,
    find_after-Avoids _ key_of_max_snapshot_count (E.find db key_of_max_snapshot_count)
        (rollback_deletions-Avoids E J key_of_max_snapshot_count count id fits (max-Apart _ _)),
    bytes_ne _ _ key_of_last-ne-key_of_max,
  )

  -- If both databases stand at transaction id and can go back through a list of versions, and no
  -- committable transaction is open, Rollback of at least one and at most as many transactions as
  -- there are versions does not panic; the databases then stand at the earlier id, show the
  -- version from before those transactions, and can go back through the remaining versions. The
  -- counter of ids is unchanged.
  pub rollback-IsAt :
      (max id n : ℕ) (now : View) (before : List View) (s : StateDb E)
      → IsAt E J max id now before s
      → s.committable_transaction ≡ none
      → suc n ≤ length before
      → (s' : StateDb E) × (rollback E J (pos (suc n)) s ≡ returned s')
        × IsAt E J max (id - suc n) (version now before (suc n)) (drop (suc n) before) s'
        × (s'.committable_transaction ≡ none)
        × (s'.last_committable_transaction_id ≡ s.last_committable_transaction_id)
  unfolding rollback Snapshot.rollback
  rollback-IsAt max id n now before s at idle enough =
      let fits : suc n ≤ id =
        omega (arith, length-Retained E J s.snapshot_db id now before at.retained) in
      let (m, has, full) = Retained-origin s.snapshot_db n id now before enough at.retained in
      let (sdb', run, shows, last', left) =
        rollback_loop_lem s.snapshot_db s.sdb (suc n) id now before at.view at.sdb_last enough
          at.retained in
      (
        record s {
          sdb = sdb';
          snapshot_db = E.commit s.snapshot_db (
              rollback_deletions E J (suc n) id
              ++ put key_of_last_transaction_id (J.encode_int (id - suc n)) ∷ []);
        },
        rw (
          idle,
          at.snapshot_last,
          at.sdb_last,
          ==_refl id,
          not_below id (suc n) fits,
          snapshot_db_get_lem s.snapshot_db _ m has,
          full,
          run,
        ),
        record {
          view = shows;
          sdb_last = last';
          snapshot_last = rolled_last s.snapshot_db (suc n) id (id - suc n);
          max_count = rolled_max s.snapshot_db (suc n) id _ fits ∙ at.max_count;
          retained =
              Retained-SameSnapshots E J s.snapshot_db _ 0 (id - suc n) _ _
                (kept_below s.snapshot_db (suc n) id _ fits)
                (omega (arith, length-Retained E J s.snapshot_db (id - suc n) _ _ left)) left;
        },
        idle,
        refl,
      )
