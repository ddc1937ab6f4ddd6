-- ===== src/V1/ChildKeys.antt =====
-- The lists of child keys of abciapp_v1.0/statedb/txstate.go: `addChildKey` puts a key in its place,
-- `deleteChildKey` takes it out.
mod Tests
use bcbchain.Base.{
  Bytes, bytes_eq, bytes_eq_iff, bytes_eq_refl, bytes_lt, bytes_lt_trans, bytes_lt_irrefl,
  bytes_lt_total, ℕ, zero, suc, ◌+◌, ◌≤◌, ◌<◌, Bool, true, false, Option, none, some, List, [], ◌∷◌,
  ◌++◌, length, take, drop, ◌==◌, ◌||◌, ltb, if◌then◌else◌, ◌≡◌, refl, sym, ap, subst, ◌∙◌, arith,
  Bool-cases, inl, inr,
}
use bcbchain.Helper.Accounts.{contains}
use bcbchain.V1.State.{key_at, search_strings, with_child_key, without_child_key}
use bcbchain.V1.Search.{
  AscendsFrom, Ascending, position, position-le-length, none_before, AscendsFrom-tail,
  search_strings-eq-position,
}

-- The plain insertion of a new key and the plain removal of one.
unfoldable pub place : Bytes → List Bytes → List Bytes
place x [] = x ∷ []
place x (k ∷ l) = let rest = place x l in if bytes_lt k x then k ∷ rest else x ∷ k ∷ l

unfoldable pub remove : Bytes → List Bytes → List Bytes
remove x [] = []
remove x (k ∷ l) = let rest = remove x l in if bytes_eq k x then l else k ∷ rest

-- A key before all others is not among them.
absent :
    (k x : Bytes) (l : List Bytes) → AscendsFrom k l → bytes_lt x k ≡ true → contains x l ≡ false
unfolding AscendsFrom contains
absent k x [] asc less = refl
absent k x (j ∷ l) (step, asc) less =
    let far = bytes_lt_trans x k j less step in
    ground (arith, absent j x l asc far, bytes_eq_iff j x, bytes_lt_irrefl x)

split_at :
    (keys : List Bytes) (x : Bytes)
    → take (position keys x) keys ++ x ∷ drop (position keys x) keys ≡ place x keys
unfolding position place
split_at [] x = refl
split_at (k ∷ l) x = elim (Bool-cases (bytes_lt k x)) [
  | inl less ↦ rw less (ap (◌∷◌ k) (split_at l x))
  | inr late ↦ rw late refl
]

at_end :
    (keys : List Bytes) (x : Bytes)
    → position keys x ≡ length keys
    → (contains x keys ≡ false) × (keys ++ x ∷ [] ≡ place x keys)
unfolding position place contains
at_end [] x e = (refl, refl)
at_end (k ∷ l) x e = elim (Bool-cases (bytes_lt k x)) [
  | inr late ↦ absurd (ground (arith, late))
  | inl less ↦
      let (none', same) = at_end l x (ground (arith, less)) in
      (ground (arith, less, bytes_eq_iff k x, bytes_lt_irrefl x), rw less (ap (◌∷◌ k) same))
]

inside :
    (keys : List Bytes) (x : Bytes)
    → Ascending keys
    → position keys x < length keys
    → bytes_eq (key_at (position keys x) keys) x ≡ contains x keys
unfolding position key_at contains Ascending
inside [] x asc short = absurd (omega arith)
inside (k ∷ l) x asc short = elim (Bool-cases (bytes_lt k x)) [
  | inl less ↦ rw less (
      inside l x (AscendsFrom-tail k l asc) (ground (arith, less))
      ∙ ground (arith, less, bytes_eq_iff k x, bytes_lt_irrefl x))
  | inr late ↦ rw late (elim (Bool-cases (bytes_eq k x)) [
    | inl same ↦ rw same refl
    | inr other ↦ rw (other, absent k x l asc (bytes_lt_total k x other late)) refl
  ])
]

pub with_child_key-eq :
    (keys : List Bytes) (x : Bytes)
    → Ascending keys
    → with_child_key keys x ≡ (if contains x keys then none else some (place x keys))
unfolding with_child_key
with_child_key-eq keys x asc =
    let found = search_strings-eq-position keys x asc in
    elim (Bool-cases (position keys x == length keys)) [
      | inl end ↦
          let (none', same) = at_end keys x (ground (arith, end)) in
          rw (found, end, none') (ap some same)
      | inr within ↦
          let short : position keys x < length keys =
            ground (arith, within, position-le-length keys x) in
          rw (found, within, inside keys x asc short, split_at keys x) refl
    ]

AscendsFrom-place :
    (j x : Bytes) (l : List Bytes)
    → AscendsFrom j l
    → bytes_lt j x ≡ true
    → contains x l ≡ false
    → AscendsFrom j (place x l)
unfolding AscendsFrom place contains
AscendsFrom-place j x [] asc less new = (less, tt)
AscendsFrom-place j x (k ∷ l) (step, asc) less new = elim (Bool-cases (bytes_lt k x)) [
  | inl before ↦ rw before (step, AscendsFrom-place k x l asc before (ground (arith, new)))
  | inr after ↦ rw after (less, (bytes_lt_total k x (ground (arith, new)) after, asc))
]

place-Ascending :
    (x : Bytes) (keys : List Bytes)
    → Ascending keys
    → contains x keys ≡ false
    → Ascending (place x keys)
unfolding Ascending AscendsFrom place contains
place-Ascending x [] asc new = tt
place-Ascending x (k ∷ l) asc new = elim (Bool-cases (bytes_lt k x)) [
  | inl before ↦ rw before (AscendsFrom-place k x l asc before (ground (arith, new)))
  | inr after ↦ rw after (bytes_lt_total k x (ground (arith, new)) after, asc)
]

contains-place :
    (x y : Bytes) (keys : List Bytes)
    → contains y (place x keys) ≡ (bytes_eq x y || contains y keys)
unfolding place contains
contains-place x y [] = refl
contains-place x y (k ∷ l) = ground (arith, contains-place x y l)

-- If the stored list ascends and addChildKey stores a new list, the new list ascends too, and it
-- holds the added key and exactly the keys of the old one.
pub with_child_key-Ascending :
    (keys keys' : List Bytes) (x : Bytes)
    → with_child_key keys x ≡ some keys'
    → Ascending keys
    → Ascending keys' × ((y : Bytes) → contains y keys' ≡ (bytes_eq x y || contains y keys))
with_child_key-Ascending keys keys' x stored asc = elim (Bool-cases (contains x keys)) [
  | inl old ↦ absurd (ground (arith, old, with_child_key-eq keys x asc))
  | inr new ↦
      let same : place x keys ≡ keys' = ground (arith, new, with_child_key-eq keys x asc) in
      (
        subst Ascending same (place-Ascending x keys asc new),
        λ y. ap (contains y) (sym same) ∙ contains-place x y keys,
      )
]

cut_at :
    (keys : List Bytes) (x : Bytes)
    → Ascending keys
    → contains x keys ≡ true
    → (position keys x < length keys)
      × (take (position keys x) keys ++ drop (position keys x + 1) keys ≡ remove x keys)
unfolding position remove contains Ascending
cut_at [] x asc old = cc
cut_at (k ∷ l) x asc old = elim (Bool-cases (bytes_lt k x)) [
  | inl less ↦
      let other : bytes_eq k x ≡ false =
        ground (arith, less, bytes_eq_iff k x, bytes_lt_irrefl x) in
      let (short, same) = cut_at l x (AscendsFrom-tail k l asc) (ground (arith, other)) in
      let next : suc (position l x) + 1 ≡ suc (position l x + 1) = omega arith in
      rw (less, other, next) (omega arith, ap (◌∷◌ k) same)
  | inr late ↦ elim (Bool-cases (bytes_eq k x)) [
    | inl found ↦ rw (late, found) (omega arith, refl)
    | inr other ↦ absurd (ground (arith, other, absent k x l asc (bytes_lt_total k x other late)))
  ]
]

-- If the stored list ascends and has the key, deleteChildKey does not run out of the slice and
-- stores the list without that key.
pub without_child_key-eq :
    (keys : List Bytes) (x : Bytes)
    → Ascending keys
    → contains x keys ≡ true
    → without_child_key keys x ≡ some (remove x keys)
unfolding without_child_key
without_child_key-eq keys x asc old =
    let found = search_strings-eq-position keys x asc in
    let (short, same) = cut_at keys x asc old in
    let within : ltb (position keys x) (length keys) ≡ true = ground arith in
    rw (found, within) (ap some same)
