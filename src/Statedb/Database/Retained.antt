-- ===== src/Statedb/Database/Retained.antt =====
-- Which earlier versions the snapshots of statedb/snapshot.go can restore, and that they stay
-- restorable while the snapshots of other transactions are added or dropped.
use bcbchain.Base.{
  Bytes, GoMap, HasUniqueKeys, is_empty, ℕ, zero, suc, ◌+◌, ◌≤◌, ◌<◌, ◌≡◌, ◌≢◌, ◌∙◌, false, some,
  List, [], ◌∷◌, All, length, arith,
}
use bcbchain.Db.{LevelDb, Json}
use bcbchain.Statedb.Keys.{key_of_last_transaction_id, key_of_origin_data, key_of_new_data}
use bcbchain.Statedb.Database.Spec.{View, overlay, SameView}

-- An entry of a snapshot's new data is still what the database shows.
abbrev pub Shows : View → GoMap Bytes → Type 0
Shows now new_data = All (λ e. (e.0 ≢ key_of_last_transaction_id) × (now e.0 ≡ e.1)) new_data

module _ (E : LevelDb) (J : Json) where
  -- The snapshot of transaction `id` leads from `now` back to `before`.
  pub record Restores (db : E.Db) (id : ℕ) (now before : View) : Type 0 where
    pub origin_data : GoMap Bytes
    pub new_data : GoMap Bytes
    pub has_origin : E.find db (key_of_origin_data id) ≡ some (J.encode_map origin_data)
    pub has_new : E.find db (key_of_new_data id) ≡ some (J.encode_map new_data)
    pub origin_nonempty : is_empty origin_data ≡ false
    pub new_nonempty : is_empty new_data ≡ false
    pub unique : HasUniqueKeys origin_data
    pub shows : Shows now new_data
    pub leads_back : SameView (overlay origin_data now) before

  -- The snapshots of `id`, `id - 1`, … lead back through the versions of the list.
  abbrev pub Retained : E.Db → ℕ → View → List View → Type 0
  Retained db id now [] = Unit
  Retained db zero now (v ∷ before) = ⊥
  Retained db (suc id) now (v ∷ before) = Restores db (suc id) now v × Retained db id v before

  -- The database has the same snapshot of each transaction above `low`, up to `high`.
  abbrev pub SameSnapshots : E.Db → E.Db → ℕ → ℕ → Type 0
  SameSnapshots db db' low high =
      (i : ℕ)
      → low < i
      → i ≤ high
      → (E.find db' (key_of_origin_data i) ≡ E.find db (key_of_origin_data i))
        × (E.find db' (key_of_new_data i) ≡ E.find db (key_of_new_data i))

  pub Retained-SameSnapshots :
      (db db' : E.Db) (low id : ℕ) (now : View) (before : List View)
      → SameSnapshots db db' low id
      → low + length before ≤ id
      → Retained db id now before
      → Retained db' id now before
  Retained-SameSnapshots db db' low id now [] same fits r = tt
  Retained-SameSnapshots db db' low zero now (v ∷ before) same fits r = r
  Retained-SameSnapshots db db' low (suc id) now (v ∷ before) same fits (r, rest) =
      let kept = same (suc id) (omega arith) (omega arith) in
      (
        record {
          origin_data = r.origin_data;
          new_data = r.new_data;
          has_origin = kept.0 ∙ r.has_origin;
          has_new = kept.1 ∙ r.has_new;
          origin_nonempty = r.origin_nonempty;
          new_nonempty = r.new_nonempty;
          unique = r.unique;
          shows = r.shows;
          leads_back = r.leads_back;
        },
        Retained-SameSnapshots db db' low id v before (λ i above below. same i above (omega arith))
            (omega arith) rest,
      )
