-- ===== src/V1/Byb/Rounds.antt =====
-- The shares of `calcTransferBybChromo` of abciapp_v1.0/contract/tokenbyb/tokenbyb.go.
use bcbchain.Base.{
  ℕ, suc, ◌+◌, ◌*◌, ◌/◌, ◌≤◌, ◌<◌, some, List, [], ◌∷◌, ◌≡◌, ◌⊎◌, inl, inr, refl, ap, if◌then◌else◌,
  arith, Bool-cases, ltb, ◌==◌,
}
use bcbchain.Base.Int.{pos, pos_part, neg_part, eqb_ℤ}
use bcbchain.V1.Byb.Chromos.{BybBalance, SafeMath, trans_value}

-- An amount that is not negative, and one of at least a unit.
abbrev pub NotNegative : BybBalance → Type 0
NotNegative c = neg_part (c.value) ≡ 0

abbrev pub HasUnits : BybBalance → Type 0
HasUnits c = (neg_part (c.value) ≡ 0) × (0 < pos_part (c.value))

unfoldable pub units : List BybBalance → ℕ
units [] = 0
units (c ∷ cs) = pos_part (c.value) + units cs

-- The number of amounts that are not zero.
unfoldable pub count_nonzero : List BybBalance → ℕ
count_nonzero [] = 0
count_nonzero (c ∷ cs) =
    let rest = count_nonzero cs in if eqb_ℤ (c.value) (pos 0) then rest else suc rest

div_bounds : (a b : ℕ) → 0 < b → (b * (a / b) ≤ a) × (suc a ≤ b * (a / b) + b)
div_bounds a b h = grind arith

share_le : (value total own q : ℕ) → value ≤ total → total * q ≤ value * own → 0 < total → q ≤ own
share_le value total own q hv h ht = grind arith

-- The three outcomes for a share that is not above the entry's own value.
abbrev Given : ℕ → ℕ → ℕ → Type 0
Given surplus share t =
    ((surplus < share) × (t ≡ surplus))
    ⊎ (((share ≡ 0) × (t ≡ 1)) ⊎ ((0 < share) × (share ≤ surplus) × (t ≡ share)))

Given-cases : (surplus share : ℕ) → (t : ℕ) × Given surplus share t
Given-cases surplus share = elim (Bool-cases (ltb surplus share)) [
  | inl e ↦ (surplus, inl (ground arith, refl))
  | inr e ↦ elim (Bool-cases (share == 0)) [
    | inl z ↦ (1, inr (inl (ground arith, refl)))
    | inr z ↦ (share, inr (inr (ground arith, ground arith, refl)))
  ]
]

-- Either the surplus is used up, or the entry gives at least its share, rounded down if not all.
abbrev pub GivesShare : ℕ → ℕ → ℕ → ℕ → ℕ → Type 0
GivesShare value total surplus own t =
    (t ≡ surplus)
    ⊎ (((t ≡ own) × (value * own ≤ total * t))
        ⊎ ((t < own) × (suc (value * own) ≤ total * t + total)))

mul_mono : (a b c : ℕ) → a ≤ b → a * c ≤ b * c
mul_mono a b c h = grind arith

Given-GivesShare :
    (value total surplus own share t : ℕ)
    → Given surplus share t
    → share ≤ own
    → 0 < own
    → suc (value * own) ≤ total * share + total
    → value ≤ total
    → GivesShare value total surplus own t
Given-GivesShare value total surplus own share t (inl (_, e)) le ho upper hv = inl e
Given-GivesShare value total surplus own share t (inr (inl (z, e))) le ho upper hv =
    let all = mul_mono value total own hv in
    elim (Bool-cases (own == 1)) [
      | inl one ↦ inr (inl (ground arith, ground (arith, all)))
      | inr more ↦ inr (inr (ground arith, rw e (ground (arith, ap (λ x. total * x) z))))
    ]
Given-GivesShare value total surplus own share t (inr (inr (_, _, e))) le ho upper hv =
    elim (Bool-cases (own == share)) [
      | inl one ↦ inr (inl (ground arith, rw e (ground (arith, mul_mono value total own hv))))
      | inr more ↦ inr (inr (ground arith, rw e upper))
    ]

module _ (M : SafeMath) (value total : ℕ) where
  -- What one entry gives up.
  pub trans_value_lem :
      (surplus own : ℕ)
      → 0 < total
      → value ≤ total
      → 0 < own
      → 0 < surplus
      → (t : ℕ) × (trans_value M (pos value) (pos total) (pos surplus) (pos own) ≡ some (pos t))
        × (0 < t)
        × (t ≤ own)
        × (t ≤ surplus)
        × GivesShare value total surplus own t
  unfolding trans_value
  trans_value_lem surplus own ht hv ho hs =
      let share = value * own / total in
      let bounds = div_bounds (value * own) total ht in
      let le = share_le value total own share hv (bounds.0) ht in
      let (t, cases) = Given-cases surplus share in
      (
        t,
        rw (SafeMath.mul-pos M value own, SafeMath.div-pos M (value * own) total ht)
            (ground (arith, cases, le)),
        ground (arith, cases),
        ground (arith, cases, le),
        ground (arith, cases),
        Given-GivesShare value total surplus own share t cases le ho (bounds.1) hv,
      )
