-- ===== src/Db.antt =====
-- What the program uses and does not implement: the key-value database of bclib (bcdb.GILevelDB,
-- its batches included) and the JSON encodings (jsoniter) of the values that statedb/ stores in it.
-- Input and output errors of the database are left out: the program panics on each of them.
pub mod Sample
pub mod Batch
use bcbchain.Base.{
  Bytes, GoMap, ◌≡◌, Option, none, some, List, [], ◌∷◌, ℕ, Bool, true, false, is_empty, bytes_eq,
  if◌then◌else◌,
}

-- One entry of a GILevelDBBatch.
pub data BatchOp : Type 0 where
  put : Bytes → Bytes → BatchOp
  delete : Bytes → BatchOp

-- The entry of `k` after a batch, from the entry before it: the last operation on `k` counts.
unfoldable pub find_after : List BatchOp → Bytes → Option Bytes → Option Bytes
find_after [] k o = o
find_after (put j v ∷ ops) k o = find_after ops k (if bytes_eq j k then some v else o)
find_after (delete j ∷ ops) k o = find_after ops k (if bytes_eq j k then none else o)

pub record LevelDb : Type 1 where
  pub Db : Type 0
  -- `Get` and `Has` in one: the entry of a key, if there is one
  pub find : Db → Bytes → Option Bytes
  -- `Commit` of a batch; `SetSync` is the batch of one entry
  pub commit : Db → List BatchOp → Db
  pub find-commit :
      (d : Db) (ops : List BatchOp) (k : Bytes)
      → find (commit d ops) k ≡ find_after ops k (find d k)

pub record Json : Type 0 where
  pub encode_int : ℕ → Bytes
  pub decode_int : Bytes → Option ℕ
  pub encode_map : GoMap Bytes → Bytes
  pub decode_map : Bytes → Option (GoMap Bytes)
  pub decode_int-encode_int : (n : ℕ) → decode_int (encode_int n) ≡ some n
  pub decode_map-encode_map : (m : GoMap Bytes) → decode_map (encode_map m) ≡ some m
  pub encode_int_nonempty : (n : ℕ) → is_empty (encode_int n) ≡ false
  pub encode_map_nonempty : (m : GoMap Bytes) → is_empty (encode_map m) ≡ false

-- `Get`: the value of a key, nil for a missing one.
abbrev pub value_of : Option Bytes → Bytes
value_of none = []
value_of (some v) = v

-- `Has`
abbrev pub is_some : Option Bytes → Bool
is_some none = false
is_some (some v) = true
