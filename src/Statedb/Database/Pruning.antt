-- ===== src/Statedb/Database/Pruning.antt =====
-- The deletions of old snapshots (`checkMaxCount`) and of rolled back ones, in
-- statedb/snapshot.go, and the entries of a commit: which keys they leave alone.
use bcbchain.Base.{
  Bytes, GoMap, ℕ, zero, suc, ◌-◌, ◌≤◌, ◌<◌, ◌≡◌, ◌≢◌, sym, some, List, ◌++◌, arith, Bool-cases,
  inl, inr, bytes_eq_refl, bytes_ne,
}
use bcbchain.Db.{LevelDb, Json, BatchOp, find_after, is_some}
use bcbchain.Db.Batch.{Avoids, find_after-append, find_after-Avoids}
use bcbchain.Statedb.Keys.{
  key_of_last_transaction_id, key_of_max_snapshot_count, key_of_origin_data, key_of_new_data,
  key_of_origin_data_injective, key_of_new_data_injective, key_of_origin_data-ne-key_of_new_data,
  key_of_origin_data-ne-key_of_last, key_of_new_data-ne-key_of_last,
  key_of_origin_data-ne-key_of_max, key_of_new_data-ne-key_of_max,
}
use bcbchain.Statedb.Snapshot.{check_max_count, rollback_deletions, snapshot_entries}

-- The key belongs to none of the transactions from `low` to `high`.
abbrev pub Apart : Bytes → ℕ → ℕ → Type 0
Apart k low high =
    (j : ℕ) → low < j → j ≤ high → (key_of_origin_data j ≢ k) × (key_of_new_data j ≢ k)

module _ (low high : ℕ) where
  pub last-Apart : Apart key_of_last_transaction_id low high
  last-Apart j _ _ = (key_of_origin_data-ne-key_of_last j, key_of_new_data-ne-key_of_last j)

  pub max-Apart : Apart key_of_max_snapshot_count low high
  max-Apart j _ _ = (key_of_origin_data-ne-key_of_max j, key_of_new_data-ne-key_of_max j)

  module _ (i : ℕ) (outside : (j : ℕ) → low < j → j ≤ high → j ≢ i) where
    pub origin-Apart : Apart (key_of_origin_data i) low high
    origin-Apart j above below = (
      λ e. outside j above below (key_of_origin_data_injective j i e),
      λ e. key_of_origin_data-ne-key_of_new_data i j (sym e),
    )

    pub new-Apart : Apart (key_of_new_data i) low high
    new-Apart j above below = (
      key_of_origin_data-ne-key_of_new_data j i,
      λ e. outside j above below (key_of_new_data_injective j i e),
    )

module _ (E : LevelDb) (J : Json) where
  pub check_max_count-Avoids :
      (db : E.Db) (k : Bytes) (n : ℕ) → Apart k 0 n → Avoids k (check_max_count E J db n)
  unfolding check_max_count
  check_max_count-Avoids db k zero apart = tt
  check_max_count-Avoids db k (suc n) apart =
      elim (Bool-cases (is_some (E.find db (key_of_origin_data (suc n))))) [
        | inl found ↦ rw found (
          (apart (suc n) (omega arith) (omega arith)).0,
          (
            (apart (suc n) (omega arith) (omega arith)).1,
            check_max_count-Avoids db k n (λ j above below. apart j above (omega arith)),
          ),
        )
        | inr missing ↦ rw missing tt
      ]

  pub rollback_deletions-Avoids :
      (k : Bytes) (count id : ℕ)
      → count ≤ id
      → Apart k (id - count) id
      → Avoids k (rollback_deletions E J count id)
  unfolding rollback_deletions
  rollback_deletions-Avoids k zero id fits apart = tt
  rollback_deletions-Avoids k (suc count) id fits apart = (
    (apart id (omega arith) (omega arith)).1,
    (
      (apart id (omega arith) (omega arith)).0,
      rollback_deletions-Avoids k count (id - 1) (omega arith)
          (λ j above below. apart j (omega arith) (omega arith)),
    ),
  )

  -- The entries of a commit of transaction `id`, read back.
  module _ (db : E.Db) (low id max_count : ℕ) (origin_data new_data : GoMap Bytes) where
    abbrev pub entries : List BatchOp
    entries = check_max_count E J db low ++ snapshot_entries E J max_count id origin_data new_data

    -- Keys of other transactions, above those that are dropped, keep their entries.
    pub find-commit_other :
        (k : Bytes)
        → Apart k 0 low
        → Apart k (id - 1) id
        → key_of_last_transaction_id ≢ k
        → 0 < id
        → E.find (E.commit db entries) k ≡ E.find db k
    unfolding find_after
    find-commit_other k old own ne positive =
        let theirs = own id (omega arith) (omega arith) in
        rw
          (
            E.find-commit,
            find_after-append,
            find_after-Avoids _ k (E.find db k) (check_max_count-Avoids db k low old),
          )
          (ground (arith, bytes_ne _ _ ne, bytes_ne _ _ theirs.0, bytes_ne _ _ theirs.1))

    pub find-commit_last :
        E.find (E.commit db entries) key_of_last_transaction_id ≡ some (J.encode_int id)
    unfolding find_after
    find-commit_last =
        rw (E.find-commit, find_after-append)
          (ground (arith, bytes_eq_refl key_of_last_transaction_id))

    module _ (kept : ¬ (max_count ≡ 0)) where
      pub find-commit_origin :
          E.find (E.commit db entries) (key_of_origin_data id) ≡ some (J.encode_map origin_data)
      unfolding find_after
      find-commit_origin =
          rw (E.find-commit, find_after-append)
            (ground (
              arith,
              bytes_eq_refl (key_of_origin_data id),
              bytes_ne _ _ (λ e. key_of_origin_data-ne-key_of_new_data id id (sym e)),
              bytes_ne _ _ (λ e. key_of_origin_data-ne-key_of_last id (sym e)),
            ))

      pub find-commit_new :
          E.find (E.commit db entries) (key_of_new_data id) ≡ some (J.encode_map new_data)
      unfolding find_after
      find-commit_new =
          rw (E.find-commit, find_after-append)
            (ground (
              arith,
              bytes_eq_refl (key_of_new_data id),
              bytes_ne _ _ (λ e. key_of_new_data-ne-key_of_last id (sym e)),
            ))
