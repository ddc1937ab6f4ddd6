-- ===== src/Db/Batch.antt =====
-- What a batch leaves at a key.
use bcbchain.Base.{
  Bytes, bytes_eq, bytes_eq_iff, ◌≡◌, ◌≢◌, refl, Option, none, some, List, [], ◌∷◌, ◌++◌,
  if◌then◌else◌, arith,
}
use bcbchain.Db.{BatchOp, put, delete, find_after}

pub find_after-append :
    (a b : List BatchOp) (k : Bytes) (o : Option Bytes)
    → find_after (a ++ b) k o ≡ find_after b k (find_after a k o)
unfolding find_after
find_after-append [] b k o = refl
find_after-append (put j v ∷ a) b k o = find_after-append a b k (if bytes_eq j k then some v else o)
find_after-append (delete j ∷ a) b k o = find_after-append a b k (if bytes_eq j k then none else o)

-- The key that an operation names.
abbrev pub key_of_op : BatchOp → Bytes
key_of_op (put j v) = j
key_of_op (delete j) = j

-- No operation of the batch names the key.
abbrev pub Avoids : Bytes → List BatchOp → Type 0
Avoids k [] = Unit
Avoids k (op ∷ ops) = (key_of_op op ≢ k) × Avoids k ops

pub find_after-Avoids :
    (ops : List BatchOp) (k : Bytes) (o : Option Bytes) → Avoids k ops → find_after ops k o ≡ o
unfolding find_after
find_after-Avoids [] k o h = refl
find_after-Avoids (put j v ∷ ops) k o h =
    ground (arith, bytes_eq_iff j k, find_after-Avoids ops k o h.1)
find_after-Avoids (delete j ∷ ops) k o h =
    ground (arith, bytes_eq_iff j k, find_after-Avoids ops k o h.1)
