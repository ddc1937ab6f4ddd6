-- ===== src/Statedb/Tx/Commit.antt =====
-- `Tx.Commit` of statedb/tx.go is deterministic.
use bcbchain.Base.{
  Bytes, GoMap, lookup, lookup-insert_all, HasUniqueKeys, ◌≡◌, sym, ◌∙◌, some, none,
}
use mathlib.Core.Path.{ap₂}
use bcbchain.Statedb.Buffer.Determinism.{sorted_bytes_same}
use bcbchain.Statedb.Tx.{Tx, commit}

-- Tx.Commit does not depend on the order in which Go visits a map: two buffers with the same
-- entries, committed to transactions with the same entries, give the same text for the app hash
-- and leave the transactions with the same entries.
pub commit_deterministic :
    (t u : Tx) (p q : GoMap Bytes)
    → HasUniqueKeys t.buffer
    → HasUniqueKeys u.buffer
    → ((k : Bytes) → lookup k t.buffer ≡ lookup k u.buffer)
    → ((k : Bytes) → lookup k p ≡ lookup k q)
    → ((commit t p).0.0 ≡ (commit u q).0.0)
      × ((k : Bytes) → lookup k (commit t p).2 ≡ lookup k (commit u q).2)
unfolding commit
commit_deterministic t u p q a b same below = (
  sorted_bytes_same t.buffer u.buffer a b same,
  λ k.
      lookup-insert_all k t.buffer p a
      ∙ ap₂ (λ o d. elim o [ some v ↦ some v | none ↦ d ]) (same k) (below k)
      ∙ sym (lookup-insert_all k u.buffer q b),
)
