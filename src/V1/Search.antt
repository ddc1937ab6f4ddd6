-- ===== src/V1/Search.antt =====
-- `sort.SearchStrings`, as abciapp_v1.0/statedb/txstate.go uses it, finds the place of a key in an
-- ascending list.
use bcbchain.Base.{
  Bytes, bytes_lt, bytes_lt_trans, ℕ, zero, suc, ◌+◌, ◌/◌, ◌≤◌, ◌<◌, true, false, List, [], ◌∷◌,
  length, ltb, if◌then◌else◌, ◌≡◌, refl, arith, Bool-cases, inl, inr,
}
use bcbchain.V1.State.{key_at, search_loop, search_strings}

-- The keys behind `k` ascend.
unfoldable pub AscendsFrom : Bytes → List Bytes → Type 0
AscendsFrom k [] = Unit
AscendsFrom k (j ∷ l) = (bytes_lt k j ≡ true) × AscendsFrom j l

unfoldable pub Ascending : List Bytes → Type 0
Ascending [] = Unit
Ascending (k ∷ l) = AscendsFrom k l

-- How many keys come before `x`, from the first one on.
unfoldable pub position : List Bytes → Bytes → ℕ
position [] x = 0
position (k ∷ l) x = let rest = position l x in if bytes_lt k x then suc rest else 0

pub position-le-length : (keys : List Bytes) (x : Bytes) → position keys x ≤ length keys
unfolding position
position-le-length [] x = omega arith
position-le-length (k ∷ l) x = ground (arith, position-le-length l x)

below :
    (keys : List Bytes) (x : Bytes) (h : ℕ)
    → h < position keys x
    → bytes_lt (key_at h keys) x ≡ true
unfolding position key_at
below [] x h less = absurd (omega arith)
below (k ∷ l) x zero less = ground arith
below (k ∷ l) x (suc h) less = ground (arith, below l x h)

-- Where a key is not before `x`, none behind it is.
pub none_before :
    (k : Bytes) (l : List Bytes) (x : Bytes)
    → AscendsFrom k l
    → bytes_lt k x ≡ false
    → position l x ≡ 0
unfolding AscendsFrom position
none_before k [] x asc late = refl
none_before k (j ∷ l) x (less, asc) late = ground (arith, bytes_lt_trans k j x)

pub AscendsFrom-tail : (k : Bytes) (l : List Bytes) → AscendsFrom k l → Ascending l
unfolding AscendsFrom Ascending
AscendsFrom-tail k [] asc = tt
AscendsFrom-tail k (j ∷ l) (less, asc) = asc

above :
    (keys : List Bytes) (x : Bytes) (h : ℕ)
    → Ascending keys
    → position keys x ≤ h
    → h < length keys
    → bytes_lt (key_at h keys) x ≡ false
unfolding position key_at Ascending
above [] x h asc late short = absurd (omega arith)
above (k ∷ l) x zero asc late short = ground arith
above (k ∷ l) x (suc h) asc late short =
    ground (arith, above l x h (AscendsFrom-tail k l asc), none_before k l x asc)

search_loop-eq :
    (keys : List Bytes) (x : Bytes) (fuel i j : ℕ)
    → Ascending keys
    → i ≤ position keys x
    → position keys x ≤ j
    → j ≤ length keys
    → j ≤ i + fuel
    → search_loop fuel keys x i j ≡ position keys x
unfolding search_loop
search_loop-eq keys x zero i j asc low high short enough = omega arith
search_loop-eq keys x (suc fuel) i j asc low high short enough = elim (Bool-cases (ltb i j)) [
  | inr stop ↦ rw (search_loop, stop) (ground arith)
  | inl go ↦
      let h = (i + j) / 2 in
      let from : i ≤ h = ground arith in
      let to : h < j = ground arith in
      elim (Bool-cases (bytes_lt (key_at h keys) x)) [
        | inl less ↦
            let right : h < position keys x = ground (arith, above keys x h asc) in
            rw (search_loop, go, less)
              (search_loop-eq keys x fuel (h + 1) j asc (omega arith) high short (omega arith))
        | inr late ↦
            let left : position keys x ≤ h = ground (arith, below keys x h) in
            rw (search_loop, go, late)
              (search_loop-eq keys x fuel i h asc low left (omega arith) (omega arith))
      ]
]

-- On an ascending list the binary search gives the number of keys before the one that is looked
-- for.
pub search_strings-eq-position :
    (keys : List Bytes) (x : Bytes) → Ascending keys → search_strings keys x ≡ position keys x
unfolding search_strings
search_strings-eq-position keys x asc =
    search_loop-eq keys x (length keys) 0 (length keys) asc (omega arith)
      (position-le-length keys x) (omega arith) (omega arith)
