-- ===== src/Statedb/Buffer/Determinism.antt =====
-- The text that goes into the app hash does not depend on the order in which Go visits a map.
use bcbchain.Base.{
  Bytes, GoMap, lookup, HasUniqueKeys, ◌≡◌, refl, sym, ap, ◌∙◌, List, [], ◌∷◌, arith,
}
use bcbchain.Base.Sort.{sort_strings}
use bcbchain.Base.Sort.Laws.{
  has, IsDistinct, has-sort_strings, sort_strings-IsAscending, ascending_eq,
}
use bcbchain.Db.{is_some}
use bcbchain.Statedb.Buffer.{keys_of, write_all, sorted_bytes}

has-keys_of : (k : Bytes) (m : GoMap Bytes) → has k (keys_of m) ≡ is_some (lookup k m)
unfolding lookup
has-keys_of k [] = refl
has-keys_of k ((j, v) ∷ m) = ground (arith, has-keys_of k m)

keys_of-IsDistinct : (m : GoMap Bytes) → HasUniqueKeys m → IsDistinct (keys_of m)
keys_of-IsDistinct [] u = tt
keys_of-IsDistinct ((k, v) ∷ m) u = (has-keys_of k m ∙ ap is_some u.0, keys_of-IsDistinct m u.1)

write_all_same :
    (a b : GoMap Bytes) (keys : List Bytes)
    → ((k : Bytes) → lookup k a ≡ lookup k b)
    → write_all a keys ≡ write_all b keys
unfolding write_all
write_all_same a b [] same = refl
write_all_same a b (k ∷ keys) same = rw (same k, write_all_same a b keys same)

pub sorted_bytes_same :
    (a b : GoMap Bytes)
    → HasUniqueKeys a
    → HasUniqueKeys b
    → ((k : Bytes) → lookup k a ≡ lookup k b)
    → sorted_bytes a ≡ sorted_bytes b
unfolding sorted_bytes
sorted_bytes_same a b u w same =
    write_all_same a b (sort_strings (keys_of a)) same
    ∙ ap (write_all b) (
        ascending_eq _ _ (sort_strings-IsAscending (keys_of a) (keys_of-IsDistinct a u))
          (sort_strings-IsAscending (keys_of b) (keys_of-IsDistinct b w))
          λ k.
            has-sort_strings k (keys_of a)
            ∙ has-keys_of k a
            ∙ ap is_some (same k)
            ∙ sym (has-keys_of k b)
            ∙ sym (has-sort_strings k (keys_of b)))
