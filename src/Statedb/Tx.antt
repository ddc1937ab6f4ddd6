-- ===== src/Statedb/Tx.antt =====
-- statedb/tx.go: the buffer of one transaction. A `Tx` holds a pointer to its `Transaction`; here
-- the operation that writes there takes that buffer and returns it.
pub mod Commit
mod Tests
use bcbchain.Base.{Bytes, GoMap, lookup, insert, insert_all, ℕ, []}
use bcbchain.Db.{value_of}
use bcbchain.Statedb.Buffer.{sorted_bytes}

pub record Tx : Type 0 where
  pub tx_id : ℕ
  pub buffer : GoMap Bytes

unfoldable pub get : Tx → Bytes → Bytes
get t key = value_of (lookup key t.buffer)

unfoldable pub set : Bytes → Bytes → Tx → Tx
set key value t = record t { buffer = insert key value t.buffer }

unfoldable pub batch_set : GoMap Bytes → Tx → Tx
batch_set data' t = record t { buffer = insert_all data' t.buffer }

-- Returns the text and the map that were committed, the emptied `Tx`, and the new buffer of its
-- transaction.
unfoldable pub commit : Tx → GoMap Bytes → (Bytes × GoMap Bytes) × Tx × GoMap Bytes
commit t transaction_buffer = (
  (sorted_bytes t.buffer, t.buffer),
  record t { buffer = [] },
  insert_all t.buffer transaction_buffer,
)

unfoldable pub rollback : Tx → Tx
rollback t = record t { buffer = [] }
