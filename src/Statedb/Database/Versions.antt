-- ===== src/Statedb/Database/Versions.antt =====
-- The state database as a stack of versions: a commit pushes one and a rollback pops some.
use bcbchain.Base.{
  Bytes, GoMap, lookup, HasUniqueKeys, entries_found, lookup-map_keys, map_keys-HasUniqueKeys,
  is_empty, ℕ, zero, suc, ◌-◌, ◌≤◌, ◌≡◌, ◌≢◌, refl, sym, ap, ◌∙◌, subst, true, false, none, some,
  List, [], ◌∷◌, All-map, length, take, length-take-le, length-take-le_length, returned, arith,
}
use bcbchain.Db.{LevelDb, Json}
use bcbchain.Statedb.Keys.{
  key_of_last_transaction_id, key_of_max_snapshot_count, key_of_origin_data, key_of_new_data,
  key_of_last-ne-key_of_max, key_of_origin_data-ne-key_of_last, key_of_new_data-ne-key_of_last,
}
use bcbchain.Statedb.Snapshot
use bcbchain.Statedb.Database.{Transaction, StateDb, commit, read_origin}
use bcbchain.Statedb.Database.Spec.{View, overlay, SameView}
use bcbchain.Statedb.Database.Views.{get-after, get_int64-after}
use bcbchain.Statedb.Database.Commit.{commit_lem, committed}
use bcbchain.Statedb.Database.Retained.{
  Shows, Restores, Retained, SameSnapshots, Retained-SameSnapshots,
}
use bcbchain.Statedb.Database.Pruning.{
  max-Apart, origin-Apart, new-Apart, find-commit_other, find-commit_last, find-commit_origin,
  find-commit_new,
}

-- A buffer that a block leaves: it has an entry, and none for the database's own key.
pub record IsWritable (buffer : GoMap Bytes) : Type 0 where
  pub unique : HasUniqueKeys buffer
  pub nonempty : is_empty buffer ≡ false
  pub not_reserved : lookup key_of_last_transaction_id buffer ≡ none

module _ (E : LevelDb) (J : Json) where
  -- Both databases stand at transaction `id`, show `now`, and can go back through `before`.
  pub record IsAt (max id : ℕ) (now : View) (before : List View) (s : StateDb E) : Type 0 where
    pub view : SameView (Snapshot.get E J s.sdb) now
    pub sdb_last : Snapshot.get_int64 E J s.sdb key_of_last_transaction_id ≡ returned id
    pub snapshot_last :
        Snapshot.get_int64 E J s.snapshot_db key_of_last_transaction_id ≡ returned id
    pub max_count : E.find s.snapshot_db key_of_max_snapshot_count ≡ some (J.encode_int max)
    pub retained : Retained E J s.snapshot_db id now before

  Retained-take :
      (db : E.Db) (n id : ℕ) (now : View) (before : List View)
      → Retained E J db id now before
      → Retained E J db id now (take n before)
  Retained-take db zero id now before r = tt
  Retained-take db (suc n) id now [] r = tt
  Retained-take db (suc n) zero now (v ∷ before) r = r
  Retained-take db (suc n) (suc id) now (v ∷ before) (r, rest) =
      (r, Retained-take db n id v before rest)

  pub length-Retained :
      (db : E.Db) (id : ℕ) (now : View) (before : List View)
      → Retained E J db id now before
      → length before ≤ id
  length-Retained db id now [] r = omega arith
  length-Retained db zero now (v ∷ before) r = absurd r
  length-Retained db (suc id) now (v ∷ before) r = omega (arith, length-Retained db id v before r.1)

  Shows-overlay :
      (buffer : GoMap Bytes) (now : View) → IsWritable buffer → Shows (overlay buffer now) buffer
  Shows-overlay buffer now w =
      All-map (λ e. lookup e.0 buffer ≡ some e.1)
        (λ e. (e.0 ≢ key_of_last_transaction_id) × (overlay buffer now e.0 ≡ e.1)) buffer
        (λ e found.
          (λ same. cc (w.not_reserved, found, ap (λ k. lookup k buffer) same), rw (found, overlay)))
        (entries_found buffer w.unique)

  origin-leads_back :
      (sdb : E.Db) (buffer : GoMap Bytes) (now : View)
      → SameView (Snapshot.get E J sdb) now
      → SameView (overlay (read_origin E J sdb buffer) (overlay buffer now)) now
  unfolding read_origin
  origin-leads_back sdb buffer now same k ne =
      ground (arith, lookup-map_keys (Snapshot.get E J sdb) k buffer, same k ne)

  read_origin_nonempty :
      (sdb : E.Db) (buffer : GoMap Bytes)
      → is_empty buffer ≡ false
      → is_empty (read_origin E J sdb buffer) ≡ false
  unfolding read_origin
  read_origin_nonempty sdb [] h = cc
  read_origin_nonempty sdb (e ∷ buffer) h = refl

  Retained-push :
      (db db' : E.Db) (max id : ℕ) (now' now : View) (before : List View)
      → (¬ (max ≡ 0) → Restores E J db' (suc id) now' now)
      → SameSnapshots E J db db' (suc id - max) id
      → Retained E J db id now before
      → Retained E J db' (suc id) now' (take max (now ∷ before))
  Retained-push db db' zero id now' now before added same r = tt
  Retained-push db db' (suc m) id now' now before added same r = (
    added (omega arith),
    Retained-SameSnapshots E J db db' (suc id - suc m) id now (take m before) same
        (omega (
          arith,
          length-take-le {A = View} m before,
          length-take-le_length {A = View} m before,
          length-Retained db id now before r,
        ))
        (Retained-take db m id now before r),
  )

  module _ (max id : ℕ) (now : View) (before : List View) (t : Transaction) (s : StateDb E)
      (at : IsAt max id now before s) (next : t.transaction_id ≡ suc id)
      (w : IsWritable t.buffer) where
    -- The snapshot that the commit adds leads back to the version before it.
    Restores-added :
        ¬ (max ≡ 0)
        → Restores E J
            (committed E J max t s).snapshot_db
            t.transaction_id
            (overlay t.buffer now)
            now
    Restores-added kept = record {
      origin_data = read_origin E J s.sdb t.buffer;
      new_data = t.buffer;
      has_origin = find-commit_origin E J s.snapshot_db _ t.transaction_id max _ t.buffer kept;
      has_new = find-commit_new E J s.snapshot_db _ t.transaction_id max _ t.buffer kept;
      origin_nonempty = read_origin_nonempty s.sdb t.buffer w.nonempty;
      new_nonempty = w.nonempty;
      unique =
          unfold read_origin in map_keys-HasUniqueKeys (Snapshot.get E J s.sdb) t.buffer w.unique;
      shows = Shows-overlay t.buffer now w;
      leads_back = origin-leads_back s.sdb t.buffer now at.view;
    }

    -- The snapshots that are young enough stay.
    kept_snapshots :
        SameSnapshots E J s.snapshot_db (committed E J max t s).snapshot_db (suc id - max) id
    kept_snapshots i above below = (
      find-commit_other E J s.snapshot_db _ t.transaction_id max _ t.buffer (key_of_origin_data i)
          (origin-Apart 0 _ i (λ j _ low. omega arith))
          (origin-Apart _ _ i (λ j high top. omega arith))
          (λ e. key_of_origin_data-ne-key_of_last i (sym e)) (omega arith),
      find-commit_other E J s.snapshot_db _ t.transaction_id max _ t.buffer (key_of_new_data i)
          (new-Apart 0 _ i (λ j _ low. omega arith)) (new-Apart _ _ i (λ j high top. omega arith))
          (λ e. key_of_new_data-ne-key_of_last i (sym e)) (omega arith),
    )

    pub committed-IsAt :
        IsAt max (suc id) (overlay t.buffer now) (take max (now ∷ before)) (committed E J max t s)
    unfolding Snapshot.get_int64
    committed-IsAt = record {
      view = λ k ne.
          get-after E J s.sdb t.buffer _ w.unique k ne
          ∙ ap (λ v. elim (lookup k t.buffer) [ some value ↦ value | none ↦ v ]) (at.view k ne);
      sdb_last =
          get_int64-after E J s.sdb t.buffer _ (suc id) w.unique (J.encode_int_nonempty _)
            (J.decode_int-encode_int _ ∙ ap some next);
      snapshot_last = rw (
        find-commit_last E J s.snapshot_db _ t.transaction_id max _ t.buffer,
        J.encode_int_nonempty,
        J.decode_int-encode_int,
        next,
      );
      max_count =
          find-commit_other E J s.snapshot_db _ t.transaction_id max _ t.buffer
            key_of_max_snapshot_count (max-Apart 0 _) (max-Apart _ _) key_of_last-ne-key_of_max
            (omega arith)
          ∙ at.max_count;
      retained =
          Retained-push s.snapshot_db _ max id (overlay t.buffer now) now before
            (λ kept.
              subst
                (λ i. Restores E J (committed E J max t s).snapshot_db i (overlay t.buffer now) now)
                next (Restores-added kept))
            kept_snapshots at.retained;
    }

  -- If both databases stand at transaction id, show a view and can go back through a list of
  -- versions, then Commit of a committable transaction with the next id and a writable buffer
  -- does not panic; the databases then stand at the next id, show the buffer over the view, and
  -- can go back through the old view and the old versions as far as the largest snapshot count
  -- allows. No committable transaction is left and the counter of ids is unchanged.
  pub commit-IsAt :
      (max id : ℕ) (now : View) (before : List View) (t : Transaction) (s : StateDb E)
      → IsAt max id now before s
      → t.committable ≡ true
      → t.transaction_id ≡ suc id
      → IsWritable t.buffer
      → (s' : StateDb E) × (commit E J t s ≡ returned s')
        × IsAt max (suc id) (overlay t.buffer now) (take max (now ∷ before)) s'
        × (s'.committable_transaction ≡ none)
        × (s'.last_committable_transaction_id ≡ s.last_committable_transaction_id)
  commit-IsAt max id now before t s at c next w = (
    committed E J max t s,
    commit_lem E J max id t s c next at.sdb_last at.snapshot_last at.max_count,
    committed-IsAt max id now before t s at next w,
    refl,
    refl,
  )
