-- ===== src/V1/Byb/Remainder.antt =====
-- The two rounds of `calcAndSetSenderBalance` of abciapp_v1.0/contract/tokenbyb/tokenbyb.go: what
-- the second does with the remainder of the first.
use bcbchain.Base.{
  ℕ, ◌+◌, ◌-◌, ◌*◌, ◌≤◌, ◌<◌, some, List, [], ◌∷◌, ◌≡◌, ◌⊎◌, inl, inr, refl, subst, length, All,
  All-map, arith,
}
use bcbchain.Base.Int.{pos}
use bcbchain.V1.Byb.Chromos.{BybBalance, SafeMath, calc_transfer_byb_chromo}
use bcbchain.V1.Byb.Rounds.{NotNegative, HasUnits, units, count_nonzero}
use bcbchain.V1.Byb.Entries.{calc_total_balance-eq, pos_part-cases}
use bcbchain.V1.Byb.Shares.{count_suc}
use bcbchain.V1.Byb.Splitting.{IsSplit, runs}

pub HasUnits-NotNegative : (cs : List BybBalance) → All HasUnits cs → All NotNegative cs
HasUnits-NotNegative cs h = All-map HasUnits NotNegative cs (λ c u. u.0) h

-- Every amount counts, and is at least a unit.
count_all : (cs : List BybBalance) → All HasUnits cs → count_nonzero cs ≡ length cs
unfolding count_nonzero
count_all [] h = refl
count_all (c ∷ cs) ((h, more), hs) = elim (pos_part-cases (c.value) h) [
  | inl e ↦ absurd (ground (arith, e))
  | inr (n, e) ↦ omega (arith, count_suc c cs n e, count_all cs hs)
]

length-le-units : (cs : List BybBalance) → All HasUnits cs → length cs ≤ units cs
unfolding units
length-le-units [] h = omega arith
length-le-units (c ∷ cs) ((h, more), hs) = omega (arith, length-le-units cs hs)

small :
    (total paid d k : ℕ)
    → 0 < total
    → 0 < d
    → (paid + d) * total + k ≤ total * paid + total * k
    → d < k
small total paid d k ht hd h = grind arith

-- The first round misses less than a unit for each entry that it leaves.
few_left :
    (value total paid k : ℕ)
    → (0 + paid ≡ value) ⊎ (value * total + k ≤ total * paid + total * k)
    → paid < value
    → value ≤ total
    → value - paid < k
few_left value total paid k (inl e) less le = absurd (omega arith)
few_left value total paid k (inr h) less le =
    let eq : value ≡ paid + (value - paid) = omega arith in
    small total paid (value - paid) k (omega arith) (omega arith)
      (subst (λ x. x * total + k ≤ total * paid + total * k) eq h)

all_paid :
    (rest paid k n : ℕ)
    → n ≡ k
    → (0 + paid ≡ rest) ⊎ (n ≤ paid)
    → 0 + paid ≤ rest
    → rest < k
    → paid ≡ rest
all_paid rest paid k n e (inl h) le few = omega arith
all_paid rest paid k n e (inr h) le few = absurd (omega arith)

module _ (M : SafeMath) where
  -- One round over a list.
  pub calc_transfer_byb_chromo-IsSplit :
      (cs : List BybBalance) (value : ℕ)
      → All NotNegative cs
      → 0 < value
      → value ≤ units cs
      → (ns : List BybBalance) × (pay : List BybBalance) × (calc_transfer_byb_chromo M cs
            (pos value)
          ≡ some (ns, pay))
        × IsSplit value (units cs) 0 cs ns pay
  unfolding calc_transfer_byb_chromo
  calc_transfer_byb_chromo-IsSplit cs value h hv le =
      let (ns, pay, run, split) = runs M value (units cs) (omega arith) le cs 0 h (omega arith) in
      (ns, pay, rw (calc_total_balance-eq cs h) run, split)

  -- The second round, over what the first has left.
  pub calc_transfer_byb_chromo-remainder :
      (cs ns pay : List BybBalance) (value : ℕ)
      → IsSplit value (units cs) 0 cs ns pay
      → units pay < value
      → value ≤ units cs
      → (ns' : List BybBalance) × (pay' : List BybBalance) × (calc_transfer_byb_chromo M ns
            (pos (value - units pay))
          ≡ some (ns', pay'))
        × IsSplit (value - units pay) (units ns) 0 ns ns' pay'
        × (units pay' ≡ value - units pay)
  calc_transfer_byb_chromo-remainder cs ns pay value split less le =
      let few = few_left value (units cs) (units pay) (length ns) (split.shares) less le in
      let enough = length-le-units ns (split.keeps) in
      let (ns', pay', run, split') =
        calc_transfer_byb_chromo-IsSplit ns (value - units pay)
          (HasUnits-NotNegative ns (split.keeps)) (omega arith) (omega arith) in
      (
        ns',
        pay',
        run,
        split',
        all_paid (value - units pay) (units pay') (length ns) (count_nonzero ns)
            (count_all ns (split.keeps)) (split'.one_each) (split'.bounded) few,
      )
