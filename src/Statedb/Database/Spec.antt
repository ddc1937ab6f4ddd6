-- ===== src/Statedb/Database/Spec.antt =====
-- What the state database promises: a value for each key, and a stack of earlier versions.
use bcbchain.Base.{Bytes, GoMap, lookup, ℕ, zero, suc, ◌≡◌, ◌≢◌, none, some, List, [], ◌∷◌}
use bcbchain.Statedb.Keys.{key_of_last_transaction_id}

abbrev pub View : Type 0
View = Bytes → Bytes

-- A buffer over a view.
abbrev pub overlay : GoMap Bytes → View → View
overlay buffer v k = elim (lookup k buffer) [ some value ↦ value | none ↦ v k ]

-- The same values, but for the key in which the database keeps its last transaction id.
abbrev pub SameView : View → View → Type 0
SameView v w = (k : Bytes) → k ≢ key_of_last_transaction_id → v k ≡ w k

-- The version before the last `n` commits.
abbrev pub version : View → List View → ℕ → View
version now before zero = now
version now [] (suc n) = now
version now (v ∷ before) (suc n) = version v before n
