-- ===== src/V1/Byb/Payees.antt =====
-- `setPayeeBalance` of abciapp_v1.0/contract/tokenbyb/tokenbyb.go: what the amounts that it
-- stores come to, in all and for each chromo.
use bcbchain.Base.{
  Bytes, bytes_eq, bytes_eq_iff, ℕ, ◌+◌, false, Option, none, some, List, [], ◌∷◌, ◌++◌, ◌≡◌, inl,
  inr, refl, ap, All, arith, if◌then◌else◌, Bool-cases, Option-cases,
}
use bcbchain.Base.Int.{ℤ, pos, pos_part, neg_part, ◌+ℤ◌, eqb_ℤ}
use bcbchain.V1.Byb.Chromos.{BybBalance, take_added, add_to_old, not_zero, payee_balance}
use bcbchain.V1.Byb.Rounds.{NotNegative, units}
use bcbchain.V1.Byb.Merging.{add_parts}

-- The units of one chromo.
unfoldable pub units_of : Bytes → List BybBalance → ℕ
units_of chromo [] = 0
units_of chromo (c ∷ cs) =
    let rest = units_of chromo cs in
    if bytes_eq (c.chromo) chromo then pos_part (c.value) + rest else rest

-- Taking the amount of a chromo out of the added ones.
Taken : Bytes → List BybBalance → Option (ℤ × List BybBalance) → Type 0
Taken chromo added none = Unit
Taken chromo added (some (v, added')) =
    (neg_part v ≡ 0)
    × All NotNegative added'
    × (units added ≡ pos_part v + units added')
    × ((k : Bytes)
        → units_of k added
          ≡ (if bytes_eq chromo k then pos_part v + units_of k added' else units_of k added'))

abbrev behind : BybBalance → Option (ℤ × List BybBalance) → Option (ℤ × List BybBalance)
behind n none = none
behind n (some (v, added')) = some (v, n ∷ added')

behind-Taken :
    (chromo : Bytes) (n : BybBalance) (added : List BybBalance) (o : Option (ℤ × List BybBalance))
    → NotNegative n
    → Taken chromo added o
    → Taken chromo (n ∷ added) (behind n o)
unfolding Taken units units_of
behind-Taken chromo n added none h t = tt
behind-Taken chromo n added (some (v, added')) h (p, q, sum, each) =
    (p, (h, q), omega (arith, sum), λ k. ground (arith, each k))

take_added-eq_other :
    (chromo : Bytes) (n : BybBalance) (added : List BybBalance)
    → bytes_eq chromo (n.chromo) ≡ false
    → take_added chromo (n ∷ added) ≡ behind n (take_added chromo added)
unfolding take_added
take_added-eq_other chromo n added e = rw (take_added, e) refl

take_added-Taken :
    (chromo : Bytes) (added : List BybBalance)
    → All NotNegative added
    → Taken chromo added (take_added chromo added)
unfolding take_added Taken units units_of
take_added-Taken chromo [] h = tt
take_added-Taken chromo (n ∷ added) (h, hs) = elim (Bool-cases (bytes_eq chromo (n.chromo))) [
  | inl same ↦
      let eq : chromo ≡ n.chromo = ground (arith, bytes_eq_iff chromo (n.chromo)) in
      rw (take_added, same)
        (h, (refl, hs), omega arith, λ k. ground (arith, ap (λ x. bytes_eq x k) eq))
  | inr other ↦
      rw (take_added-eq_other chromo n added other)
        (behind-Taken chromo n added (take_added chromo added) h (take_added-Taken chromo added hs))
]

-- The total of a list and the units of each chromo in it are those of two others together.
abbrev Together : List BybBalance → List BybBalance → ℕ → (Bytes → ℕ) → Type 0
Together xs ys total each =
    All NotNegative xs
    × All NotNegative ys
    × (units xs + units ys ≡ total)
    × ((k : Bytes) → units_of k xs + units_of k ys ≡ each k)

with_old :
    BybBalance
    → Option (ℤ × List BybBalance)
    → List BybBalance
    → List BybBalance
    → List BybBalance × List BybBalance
with_old c none old added = let rest = add_to_old old added in (c ∷ rest.0, rest.1)
with_old c (some (v, added')) old added =
    let rest = add_to_old old added' in (record c { value = c.value +ℤ v } ∷ rest.0, rest.1)

add_to_old-with_old :
    (c : BybBalance) (old added : List BybBalance)
    → add_to_old (c ∷ old) added ≡ with_old c (take_added (c.chromo) added) old added
unfolding add_to_old with_old
add_to_old-with_old c old added = elim (Option-cases (take_added (c.chromo) added)) [
  | inl e ↦ rw (add_to_old, e, with_old) refl
  | inr (p, e) ↦ rw (add_to_old, e, with_old) refl
]

-- Together with a payee's old amounts, added ones are kept.
abbrev Adds : List BybBalance → List BybBalance → Type 0
Adds old added =
    Together ((add_to_old old added).0) ((add_to_old old added).1) (units old + units added)
      (λ k. units_of k old + units_of k added)

with_old_lem :
    (c : BybBalance) (old added : List BybBalance) (o : Option (ℤ × List BybBalance))
    → NotNegative c
    → All NotNegative added
    → ((l : List BybBalance) → All NotNegative l → Adds old l)
    → Taken (c.chromo) added o
    → Together
        ((with_old c o old added).0)
        ((with_old c o old added).1)
        (units (c ∷ old) + units added)
        (λ k. units_of k (c ∷ old) + units_of k added)
unfolding with_old Taken units units_of
with_old_lem c old added none h h' ih t =
    let (p, q, sum, each) = ih added h' in
    ((h, p), q, omega (arith, sum), λ k. ground (arith, each k))
with_old_lem c old added (some (v, added')) h h' ih (nonneg, positive, taken, each) =
    let (p, q, sum, each') = ih added' positive in
    let (parts, sign) = add_parts (c.value) v h nonneg in
    ((sign, p), q, omega (arith, sum, taken, parts), λ k. ground (arith, each' k, each k, parts))

add_to_old-Adds :
    (old added : List BybBalance) → All NotNegative old → All NotNegative added → Adds old added
unfolding add_to_old units units_of
add_to_old-Adds [] added h h' = (tt, h', omega arith, λ k. omega arith)
add_to_old-Adds (c ∷ old) added (h, hs) h' = rw (add_to_old-with_old c old added) (
    with_old_lem c old added (take_added (c.chromo) added) h h'
      (λ l hl. add_to_old-Adds old l hs hl) (take_added-Taken (c.chromo) added h'))

append_lem :
    (xs ys : List BybBalance)
    → All NotNegative xs
    → All NotNegative ys
    → All NotNegative (xs ++ not_zero ys)
      × (units (xs ++ not_zero ys) ≡ units xs + units ys)
      × ((k : Bytes) → units_of k (xs ++ not_zero ys) ≡ units_of k xs + units_of k ys)
unfolding not_zero units units_of
append_lem [] [] h h' = (tt, omega arith, λ k. omega arith)
append_lem [] (y ∷ ys) h (h', hs') =
    let (p, sum, each) = append_lem [] ys tt hs' in
    elim (Bool-cases (eqb_ℤ (y.value) (pos 0))) [
      | inl e ↦
          let zero' : pos_part (y.value) ≡ 0 = ground arith in
          rw e (p, omega (arith, sum, zero'), λ k. ground (arith, each k, zero'))
      | inr e ↦ rw e ((h', p), omega (arith, sum), λ k. ground (arith, each k))
    ]
append_lem (x ∷ xs) ys (h, hs) h' =
    let (p, sum, each) = append_lem xs ys hs h' in
    ((h, p), omega (arith, sum), λ k. ground (arith, each k))

-- setPayeeBalance stores amounts whose total, for all chromos and for each one, is the old total
-- plus what is added, if no amount is negative; then no stored amount is.
pub units-payee_balance :
    (old added : List BybBalance)
    → All NotNegative old
    → All NotNegative added
    → All NotNegative (payee_balance old added)
      × (units (payee_balance old added) ≡ units old + units added)
      × ((k : Bytes) → units_of k (payee_balance old added) ≡ units_of k old + units_of k added)
unfolding payee_balance
units-payee_balance old added h h' =
    let (p, q, sum, each) = add_to_old-Adds old added h h' in
    let (all, sum', each') = append_lem _ _ p q in
    (all, omega (arith, sum, sum'), λ k. omega (arith, each k, each' k))
