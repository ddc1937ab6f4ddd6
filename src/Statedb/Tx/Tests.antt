-- ===== src/Statedb/Tx/Tests.antt =====
-- A commit of one buffer in two orders.
use bcbchain.Base.{Bytes, codes, lookup, bytes_eq, bytes_eq_iff, ◌≡◌, refl, [], ◌∷◌, arith}
use bcbchain.Statedb.Tx.{Tx, commit}
use bcbchain.Statedb.Tx.Commit.{commit_deterministic}

abbrev in_one_order : Tx
in_one_order = record { tx_id = 1; buffer = (codes "a", codes "1") ∷ (codes "b", codes "2") ∷ [] }

abbrev in_other_order : Tx
in_other_order = record { tx_id = 1; buffer = (codes "b", codes "2") ∷ (codes "a", codes "1") ∷ [] }

same_entries : (k : Bytes) → lookup k in_one_order.buffer ≡ lookup k in_other_order.buffer
unfolding lookup
same_entries k = ground (arith, bytes_eq_iff (codes "a") k, bytes_eq_iff (codes "b") k)

commit_deterministic_example :
    ((commit in_one_order []).0.0 ≡ (commit in_other_order []).0.0)
    × ((k : Bytes) → lookup k (commit in_one_order []).2 ≡ lookup k (commit in_other_order []).2)
unfolding lookup bytes_eq
commit_deterministic_example =
    commit_deterministic in_one_order in_other_order [] [] (refl, (refl, tt)) (refl, (refl, tt))
      same_entries (λ k. refl)
