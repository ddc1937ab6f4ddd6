-- ===== src/V1/ChildKeys/Tests.antt =====
-- The lists of child keys at a small list.
use bcbchain.Base.{Bytes, codes, bytes_lt, bytes_eq, some, List, [], ◌∷◌, ◌≡◌, refl, true}
use bcbchain.Helper.Accounts.{contains}
use bcbchain.V1.State.{search_strings, search_loop, key_at, with_child_key, without_child_key}
use bcbchain.V1.Search.{Ascending, AscendsFrom}
use bcbchain.V1.ChildKeys.{with_child_key-Ascending, without_child_key-eq, remove}

abbrev two : List Bytes
two = codes "a" ∷ codes "c" ∷ []

abbrev three : List Bytes
three = codes "a" ∷ codes "b" ∷ codes "c" ∷ []

two_ascend : Ascending two
unfolding Ascending AscendsFrom bytes_lt
two_ascend = (refl, tt)

three_ascend : Ascending three
unfolding Ascending AscendsFrom bytes_lt
three_ascend = (refl, (refl, tt))

with_child_key-Ascending_example : contains (codes "b") three ≡ true
unfolding with_child_key search_strings search_loop key_at bytes_lt bytes_eq
with_child_key-Ascending_example =
    (with_child_key-Ascending two three (codes "b") refl two_ascend).1 (codes "b")

without_child_key-eq_example : without_child_key three (codes "b") ≡ some two
unfolding contains remove bytes_eq
without_child_key-eq_example = without_child_key-eq three (codes "b") three_ascend refl
