-- ===== src/V1/Byb/Entries.antt =====
-- One entry in the loop of `calcTransferBybChromo` of
-- abciapp_v1.0/contract/tokenbyb/tokenbyb.go, and what it does to the totals.
use bcbchain.Base.{ℕ, zero, suc, ◌+◌, ◌-◌, ◌≤◌, List, [], ◌∷◌, ◌≡◌, ◌⊎◌, inl, inr, refl, All, arith}
use bcbchain.Base.Int.{ℤ, pos, negsuc, pos_part, neg_part, ◌+ℤ◌, ◌-ℤ◌}
use bcbchain.V1.Byb.Chromos.{BybBalance, calc_total_balance}
use bcbchain.V1.Byb.Rounds.{NotNegative, units}

-- The chromos of the first list are some of those of the second, in the same order.
pub data SubChromos : List BybBalance → List BybBalance → Type 0 where
  sub_nil : {cs : List BybBalance} → SubChromos [] cs
  sub_skip : {c : BybBalance} {bs cs : List BybBalance} → SubChromos bs cs → SubChromos bs (c ∷ cs)
  sub_both :
      {b c : BybBalance} {bs cs : List BybBalance}
      → b.chromo ≡ c.chromo
      → SubChromos bs cs
      → SubChromos (b ∷ bs) (c ∷ cs)

pub pos_sub : (a b : ℕ) → b ≤ a → pos a -ℤ pos b ≡ pos (a - b)
unfolding ◌-ℤ◌
pos_sub a b h = ground arith

pub pos_add : (a b : ℕ) → pos a +ℤ pos b ≡ pos (a + b)
unfolding ◌+ℤ◌
pos_add a b = ground arith

pub pos_eq : (v : ℤ) → neg_part v ≡ 0 → v ≡ pos (pos_part v)
pos_eq v h = ground arith

pub pos_part-cases : (v : ℤ) → neg_part v ≡ 0 → (v ≡ pos 0) ⊎ ((n : ℕ) × (v ≡ pos (suc n)))
pos_part-cases (pos zero) h = inl refl
pos_part-cases (pos (suc n)) h = inr (n, refl)
pos_part-cases (negsuc n) h = absurd (omega (arith, h))

-- The total of amounts that are not negative.
pub calc_total_balance-eq :
    (cs : List BybBalance) → All NotNegative cs → calc_total_balance cs ≡ pos (units cs)
unfolding calc_total_balance units
calc_total_balance-eq [] h = refl
calc_total_balance-eq (c ∷ cs) (h, hs) =
    rw (pos_eq (c.value) h, calc_total_balance-eq cs hs, pos_add (pos_part (c.value)) (units cs))
      refl
