-- ===== src/Db/Sample.antt =====
-- A concrete database and concrete encodings, which show that the assumptions of Db can be met.
use bcbchain.Base.{
  Bytes, GoMap, lookup, insert, lookup-insert, bytes_eq, bytes_eq_iff, is_empty, ℕ, zero, suc, ◌<◌,
  ◌≡◌, refl, ap, ◌∙◌, false, Option, none, some, List, [], ◌∷◌, ◌++◌, length, take, drop,
  length-append, if◌then◌else◌, arith,
}
use bcbchain.Db.{LevelDb, Json, BatchOp, put, delete, find_after}

unfoldable pub remove : Bytes → GoMap Bytes → GoMap Bytes
remove k [] = []
remove k ((j, v) ∷ m) = let rest = remove k m in if bytes_eq j k then rest else (j, v) ∷ rest

lookup-remove :
    (k j : Bytes) (m : GoMap Bytes)
    → lookup j (remove k m) ≡ (if bytes_eq k j then none else lookup j m)
unfolding lookup remove
lookup-remove k j [] = ground arith
lookup-remove k j ((i, v) ∷ m) =
    ground (arith, lookup-remove k j m, bytes_eq_iff i k, bytes_eq_iff i j, bytes_eq_iff k j)

unfoldable pub apply_all : GoMap Bytes → List BatchOp → GoMap Bytes
unfolding remove
apply_all m [] = m
apply_all m (put k v ∷ ops) = apply_all (insert k v m) ops
apply_all m (delete k ∷ ops) = apply_all (remove k m) ops

pub lookup-apply_all :
    (m : GoMap Bytes) (ops : List BatchOp) (k : Bytes)
    → lookup k (apply_all m ops) ≡ find_after ops k (lookup k m)
unfolding apply_all find_after
lookup-apply_all m [] k = refl
lookup-apply_all m (put j v ∷ ops) k =
    lookup-apply_all (insert j v m) ops k ∙ ap (find_after ops k) (lookup-insert j k v m)
lookup-apply_all m (delete j ∷ ops) k =
    lookup-apply_all (remove j m) ops k ∙ ap (find_after ops k) (lookup-remove j k m)

abbrev pub sample_db : LevelDb
sample_db = record {
  Db = GoMap Bytes;
  find = λ m k. lookup k m;
  commit = apply_all;
  find-commit = lookup-apply_all;
}

take-length : (k r : Bytes) → take (length k) (k ++ r) ≡ k
take-length [] r = refl
take-length (c ∷ k) r = ap (◌∷◌ c) (take-length k r)

drop-length : (k r : Bytes) → drop (length k) (k ++ r) ≡ r
drop-length [] r = refl
drop-length (c ∷ k) r = drop-length k r

-- Each entry behind the lengths of its two texts.
unfoldable pub encode_entries : GoMap Bytes → Bytes
encode_entries [] = 0 ∷ []
encode_entries ((k, v) ∷ m) = 1 ∷ length k ∷ length v ∷ (k ++ (v ++ encode_entries m))

unfoldable pub decode_entries : ℕ → Bytes → Option (GoMap Bytes)
decode_entries zero s = none
decode_entries (suc f) (suc t ∷ a ∷ b ∷ s) = elim (decode_entries f (drop b (drop a s))) [
  | none ↦ none
  | some m ↦ some ((take a s, take b (drop a s)) ∷ m)
]
decode_entries (suc f) (zero ∷ s) = some []
decode_entries (suc f) _ = none

decode-encode_entries :
    (f : ℕ) (m : GoMap Bytes) → length m < f → decode_entries f (encode_entries m) ≡ some m
unfolding decode_entries encode_entries
decode-encode_entries zero m h = absurd (omega arith)
decode-encode_entries (suc f) [] h = refl
decode-encode_entries (suc f) ((k, v) ∷ m) h = rw (
  drop-length k (v ++ encode_entries m),
  drop-length v (encode_entries m),
  decode-encode_entries f m (omega arith),
  take-length k (v ++ encode_entries m),
  drop-length k (v ++ encode_entries m),
  take-length v (encode_entries m),
)

length-encode_entries : (m : GoMap Bytes) → length m < length (encode_entries m)
unfolding encode_entries
length-encode_entries [] = omega arith
length-encode_entries ((k, v) ∷ m) = omega (
  arith,
  length-encode_entries m,
  length-append {0} k (v ++ encode_entries m),
  length-append {0} v (encode_entries m),
)

unfoldable pub decode_number : Bytes → Option ℕ
decode_number (n ∷ []) = some n
decode_number _ = none

pub encode_entries_nonempty : (m : GoMap Bytes) → is_empty (encode_entries m) ≡ false
unfolding encode_entries
encode_entries_nonempty [] = refl
encode_entries_nonempty (e ∷ m) = refl

pub decode_number-one : (n : ℕ) → decode_number (n ∷ []) ≡ some n
unfolding decode_number
decode_number-one n = refl

abbrev pub decode_all : Bytes → Option (GoMap Bytes)
decode_all s = decode_entries (length s) s

pub decode_all-encode : (m : GoMap Bytes) → decode_all (encode_entries m) ≡ some m
decode_all-encode m = decode-encode_entries _ m (length-encode_entries m)

abbrev pub sample_json : Json
sample_json = record {
  encode_int = λ n. n ∷ [];
  decode_int = decode_number;
  encode_map = encode_entries;
  decode_map = decode_all;
  decode_int-encode_int = decode_number-one;
  decode_map-encode_map = decode_all-encode;
  encode_int_nonempty = λ n. refl;
  encode_map_nonempty = encode_entries_nonempty;
}
