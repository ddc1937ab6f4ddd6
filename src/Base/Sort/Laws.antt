-- ===== src/Base/Sort/Laws.antt =====
-- The sorted list of distinct texts is determined by which texts it holds.
use mathlib.Core.Path.{◌≡◌, refl, ap, ap₂, ◌∙◌}
use mathlib.Core.Logic.{inl, inr}
use mathlib.Core.Bool.{Bool, true, false, ◌||◌}
use mathlib.Core.List.{List, [], ◌∷◌}
use native.Mathlib.Omega.{arith}
use bcbchain.Base.Tests.{Bool-cases}
use bcbchain.Base.Lists.{All, All-map}
use bcbchain.Base.Text.{
  Bytes, bytes_eq, bytes_lt, bytes_eq_refl, bytes_eq→eq, bytes_eq_iff, bytes_lt_irrefl,
  bytes_lt_trans, bytes_lt_total,
}
use bcbchain.Base.Sort.{insert_sorted, sort_strings}

abbrev pub has : Bytes → List Bytes → Bool
has k [] = false
has k (j ∷ l) = bytes_eq j k || has k l

-- No text is listed twice.
abbrev pub IsDistinct : List Bytes → Type 0
IsDistinct [] = Unit
IsDistinct (k ∷ l) = (has k l ≡ false) × IsDistinct l

-- Each text is below all behind it.
abbrev pub IsAscending : List Bytes → Type 0
IsAscending [] = Unit
IsAscending (k ∷ l) = All (λ j. bytes_lt k j ≡ true) l × IsAscending l

has-insert_sorted :
    (k j : Bytes) (l : List Bytes) → has k (insert_sorted j l) ≡ (bytes_eq j k || has k l)
unfolding insert_sorted
has-insert_sorted k j [] = refl
has-insert_sorted k j (i ∷ l) = ground (arith, has-insert_sorted k j l)

pub has-sort_strings : (k : Bytes) (l : List Bytes) → has k (sort_strings l) ≡ has k l
unfolding sort_strings
has-sort_strings k [] = refl
has-sort_strings k (j ∷ l) =
    has-insert_sorted k j (sort_strings l) ∙ ap (λ b. bytes_eq j k || b) (has-sort_strings k l)

All-insert_sorted :
    (i k : Bytes) (l : List Bytes)
    → bytes_lt i k ≡ true
    → All (λ j. bytes_lt i j ≡ true) l
    → All (λ j. bytes_lt i j ≡ true) (insert_sorted k l)
unfolding insert_sorted
All-insert_sorted i k [] h a = (h, tt)
All-insert_sorted i k (j ∷ l) h a = elim (Bool-cases (bytes_lt j k)) [
  | inl below ↦ rw below (a.0, All-insert_sorted i k l h a.1)
  | inr not_below ↦ rw not_below (h, a)
]

insert_sorted-IsAscending :
    (k : Bytes) (l : List Bytes) → has k l ≡ false → IsAscending l → IsAscending (insert_sorted k l)
unfolding insert_sorted
insert_sorted-IsAscending k [] fresh a = (tt, tt)
insert_sorted-IsAscending k (j ∷ l) fresh a = elim (Bool-cases (bytes_lt j k)) [
  | inl below ↦
      rw below (All-insert_sorted j k l below a.0, insert_sorted-IsAscending k l (ground arith) a.1)
  | inr not_below ↦
      let above : bytes_lt k j ≡ true = bytes_lt_total j k (ground arith) not_below in
      rw not_below (
        (
          above,
          All-map (λ i. bytes_lt j i ≡ true) (λ i. bytes_lt k i ≡ true) l
              (λ i h. bytes_lt_trans k j i above h) a.0,
        ),
        a,
      )
]

pub sort_strings-IsAscending : (l : List Bytes) → IsDistinct l → IsAscending (sort_strings l)
unfolding sort_strings
sort_strings-IsAscending [] d = tt
sort_strings-IsAscending (k ∷ l) d =
    insert_sorted-IsAscending k (sort_strings l) (has-sort_strings k l ∙ d.0)
      (sort_strings-IsAscending l d.1)

-- What a list holds above a bound is above it.
All-has :
    (k j : Bytes) (l : List Bytes)
    → All (λ i. bytes_lt k i ≡ true) l
    → has j l ≡ true
    → bytes_lt k j ≡ true
All-has k j [] a h = cc
All-has k j (i ∷ l) a h = elim (Bool-cases (bytes_eq i j)) [
  | inl same ↦ rw (← bytes_eq→eq i j same) a.0
  | inr other ↦ All-has k j l a.1 (ground arith)
]

not_has_self : (k : Bytes) (l : List Bytes) → All (λ i. bytes_lt k i ≡ true) l → has k l ≡ false
not_has_self k l a = elim (Bool-cases (has k l)) [
  | inl h ↦ absurd (ground (arith, All-has k k l a h, bytes_lt_irrefl k))
  | inr h ↦ h
]

heads_equal :
    (x y : Bytes) (a b : List Bytes)
    → IsAscending (x ∷ a)
    → IsAscending (y ∷ b)
    → has x (y ∷ b) ≡ true
    → has y (x ∷ a) ≡ true
    → x ≡ y
heads_equal x y a b p q h k = elim (Bool-cases (bytes_eq x y)) [
  | inl same ↦ bytes_eq→eq x y same
  | inr other ↦ absurd (
      ground (
        arith,
        bytes_eq_iff x y,
        bytes_eq_iff y x,
        All-has x y a p.0,
        All-has y x b q.0,
        bytes_lt_trans x y x,
        bytes_lt_irrefl x,
      ))
]

pub ascending_eq :
    (a b : List Bytes) → IsAscending a → IsAscending b → ((k : Bytes) → has k a ≡ has k b) → a ≡ b
ascending_eq [] [] p q same = refl
ascending_eq [] (y ∷ b) p q same = absurd (ground (arith, same y, bytes_eq_refl y))
ascending_eq (x ∷ a) [] p q same = absurd (ground (arith, same x, bytes_eq_refl x))
ascending_eq (x ∷ a) (y ∷ b) p q same =
    let head =
      heads_equal x y a b p q (ground (arith, same x, bytes_eq_refl x))
        (ground (arith, same y, bytes_eq_refl y)) in
    ap₂ ◌∷◌ head (
      ascending_eq a b p.1 q.1 λ k. ground (
        arith,
        head,
        same k,
        bytes_eq_iff x k,
        bytes_eq_iff y k,
        not_has_self x a p.0,
        not_has_self y b q.0,
      ))
