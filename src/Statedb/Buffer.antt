-- ===== src/Statedb/Buffer.antt =====
-- The text of a buffer that goes into the app hash: `Tx.Commit` (statedb/tx.go) and
-- `Transaction.GetBuffer` (statedb/transaction.go) both write it.
pub mod Determinism
use bcbchain.Base.{Bytes, GoMap, lookup, List, [], ◌∷◌, ◌++◌, map}
use bcbchain.Base.Sort.{sort_strings}
use bcbchain.Db.{value_of}

abbrev pub keys_of : GoMap Bytes → List Bytes
keys_of = map (λ e. e.0)

-- The loop over the sorted keys: each key and its value.
pub write_all : GoMap Bytes → List Bytes → Bytes
write_all buffer [] = []
write_all buffer (k ∷ keys) = k ++ (value_of (lookup k buffer) ++ write_all buffer keys)

unfoldable pub sorted_bytes : GoMap Bytes → Bytes
unfolding write_all
sorted_bytes buffer = write_all buffer (sort_strings (keys_of buffer))
