-- ===== src/Statedb/Database/Views.antt =====
-- What a batch of writes does to the values that the state database shows.
use bcbchain.Base.{
  Bytes, GoMap, lookup, HasUniqueKeys, bytes_eq, bytes_eq_iff, bytes_eq_refl, is_empty, ℕ, ◌≡◌,
  refl, ap, Option, none, some, [], ◌∷◌, ◌++◌, map, if◌then◌else◌, false, returned, arith,
}
use bcbchain.Db.{LevelDb, Json, put, find_after, value_of}
use bcbchain.Db.Batch.{find_after-append}
use bcbchain.Statedb.Snapshot
use bcbchain.Statedb.Snapshot.{write_op}
use bcbchain.Statedb.Database.Spec.{View, overlay, SameView}
use bcbchain.Statedb.Keys.{key_of_last_transaction_id}

-- The entry that `Set` or `Delete` leaves for a value.
abbrev pub entry : Bytes → Option Bytes
entry v = if is_empty v then none else some v

pub find_after-write_op :
    (buffer : GoMap Bytes) (k : Bytes) (o : Option Bytes)
    → HasUniqueKeys buffer
    → find_after (map write_op buffer) k o ≡ elim (lookup k buffer) [ some v ↦ entry v | none ↦ o ]
unfolding find_after write_op lookup
find_after-write_op [] k o u = refl
find_after-write_op ((j, v) ∷ b) k o u = ground (
  arith,
  bytes_eq_iff j k,
  find_after-write_op b k o u.1,
  find_after-write_op b k (some v) u.1,
  find_after-write_op b k none u.1,
)

value_of-entry : (v : Bytes) → value_of (entry v) ≡ v
value_of-entry [] = refl
value_of-entry (x ∷ v) = refl

pub overlay_same :
    (buffer : GoMap Bytes) (v w : View) (k : Bytes)
    → v k ≡ w k
    → overlay buffer v k ≡ overlay buffer w k
overlay_same buffer v w k h = ap (λ o. elim (lookup k buffer) [ some x ↦ x | none ↦ o ]) h

module _ (E : LevelDb) (J : Json) (sdb : E.Db) (buffer : GoMap Bytes) (last : Bytes) where
  -- The state database behind the batch of a commit or of a rolled back transaction.
  abbrev pub after : E.Db
  after = E.commit sdb (map write_op buffer ++ put key_of_last_transaction_id last ∷ [])

  pub find-after :
      (k : Bytes)
      → HasUniqueKeys buffer
      → E.find after k ≡ (
          if bytes_eq key_of_last_transaction_id k
          then some last
          else elim (lookup k buffer) [ some v ↦ entry v | none ↦ E.find sdb k ])
  unfolding find_after
  find-after k u = rw (E.find-commit, find_after-append, find_after-write_op buffer k _ u)

  -- Every other key shows the buffer over the old database.
  pub get-after :
      HasUniqueKeys buffer
      → SameView (Snapshot.get E J after) (overlay buffer (Snapshot.get E J sdb))
  unfolding Snapshot.get
  get-after u k ne = rw (find-after k u) (elim_key (lookup k buffer))
    where
      differs : bytes_eq key_of_last_transaction_id k ≡ false
      differs = ground (arith, bytes_eq_iff key_of_last_transaction_id k)

      elim_key :
          (o : Option Bytes)
          → value_of (
              if bytes_eq key_of_last_transaction_id k
              then some last
              else elim o [ some v ↦ entry v | none ↦ E.find sdb k ])
            ≡ elim o [ some value ↦ value | none ↦ value_of (E.find sdb k) ]
      elim_key none = rw differs
      elim_key (some v) = rw differs (value_of-entry v)

  pub get_int64-after :
      (n : ℕ)
      → HasUniqueKeys buffer
      → is_empty last ≡ false
      → J.decode_int last ≡ some n
      → Snapshot.get_int64 E J after key_of_last_transaction_id ≡ returned n
  unfolding Snapshot.get_int64
  get_int64-after n u full e =
      rw (find-after key_of_last_transaction_id u) (rw (bytes_eq_refl, full, e))
