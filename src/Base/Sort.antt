-- ===== src/Base/Sort.antt =====
-- `sort.Strings`: an ascending order of byte strings. (Which algorithm Go uses makes no difference
-- to the result, as equal strings are not told apart.)
pub mod Laws
use mathlib.Core.List.{List, [], ◌∷◌}
use bcbchain.Base.Tests.{if◌then◌else◌}
use bcbchain.Base.Text.{Bytes, bytes_lt}

unfoldable pub insert_sorted : Bytes → List Bytes → List Bytes
insert_sorted k [] = k ∷ []
insert_sorted k (j ∷ l) = if bytes_lt j k then j ∷ insert_sorted k l else k ∷ j ∷ l

unfoldable pub sort_strings : List Bytes → List Bytes
unfolding insert_sorted
sort_strings [] = []
sort_strings (k ∷ l) = insert_sorted k (sort_strings l)
