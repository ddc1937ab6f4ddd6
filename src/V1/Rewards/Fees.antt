-- ===== src/V1/Rewards/Fees.antt =====
-- When `safeMul` and `calcFee` of abciapp_v1.0/contract/stubapi/invokecontext.go report an error.
use native.Mathlib.Nat.{mul-div_cancel, div-lt_iff_lt-mul}
use bcbchain.Base.{
  ℕ, ◌*◌, ◌/◌, ◌%◌, ◌<◌, true, false, not, ◌||◌, none, some, ◌==◌, ltb, if◌then◌else◌, ◌≡◌, refl,
  arith, Bool-cases, ==_refl, inl, inr,
}
use bcbchain.V1.Reply.{invalid_gas_limit, invalid_gas_price, invalid_fee}
use bcbchain.V1.Rewards.{max_uint64, two_64, safe_mul, calc_fee}

-- The machine's product, divided again, shows whether it is the true one.
quotient_test : (a b : ℕ) → 0 < b → ((a * b) % two_64 / b == a) ≡ ltb (a * b) two_64
quotient_test a b pos' = elim (Bool-cases (ltb (a * b) two_64)) [
  | inl fits ↦
      let same : (a * b) % two_64 ≡ a * b = ground arith in
      rw (fits, same, mul-div_cancel a pos') (==_refl a)
  | inr big ↦
      let less : (a * b) % two_64 < a * b = ground arith in
      let small : (a * b) % two_64 / b < a = (div-lt_iff_lt-mul pos').1 less in
      rw big (ground arith)
]

-- A factor of `max_uint64` overflows with every other one from 2 on.
largest :
    (a b : ℕ)
    → (a == max_uint64 || b == max_uint64) ≡ true
    → 1 < a
    → 1 < b
    → ltb (a * b) two_64 ≡ false
largest a b h ha hb = elim (Bool-cases (a == max_uint64)) [
  | inl e ↦ let eq : a ≡ max_uint64 = ground arith in rw eq (ground arith)
  | inr n ↦ let eq : b ≡ max_uint64 = ground arith in rw eq (ground arith)
]

zero_product : (a b : ℕ) → (a == 0 || b == 0) ≡ true → a * b ≡ 0
zero_product a b h = elim (Bool-cases (a == 0)) [
  | inl e ↦ let eq : a ≡ 0 = ground arith in rw eq (omega arith)
  | inr n ↦ let eq : b ≡ 0 = ground arith in rw eq (omega arith)
]

-- For factors below 2^64, safeMul reports an overflow exactly if the product is not below 2^64,
-- and otherwise returns the product.
pub safe_mul-exact :
    (a b : ℕ)
    → a < two_64
    → b < two_64
    → ((safe_mul a b).1 ≡ not (ltb (a * b) two_64))
      × (ltb (a * b) two_64 ≡ true → (safe_mul a b).0 ≡ a * b)
unfolding safe_mul
safe_mul-exact a b ha hb = elim (Bool-cases (a == 0 || b == 0)) [
  | inl zero' ↦ rw (zero', zero_product a b zero') (refl, λ fits. refl)
  | inr other ↦ elim (Bool-cases (a == 1)) [
    | inl one ↦
        let e : a ≡ 1 = ground arith in
        let product : a * b ≡ b = rw e (omega arith) in
        rw (other, one, product) (ground arith, λ fits. refl)
    | inr more ↦ elim (Bool-cases (b == 1)) [
      | inl one ↦
          let e : b ≡ 1 = ground arith in
          let product : a * b ≡ a = rw e (omega arith) in
          rw (other, more, one, product) (ground arith, λ fits. refl)
      | inr both ↦ elim (Bool-cases (a == max_uint64 || b == max_uint64)) [
        | inl max' ↦
            rw (other, more, both, max', largest a b max' (ground arith) (ground arith))
              (refl, λ e. cc)
        | inr small ↦
            rw (other, more, both, small, quotient_test a b (ground arith))
              (refl, λ fits. ground arith)
      ]
    ]
  ]
]

-- The gas that is paid for.
abbrev pub paid_gas : ℕ → ℕ → ℕ
paid_gas gas gas_limit = if ltb gas_limit gas then gas_limit else gas

-- For arguments below 2^64, calcFee reports an invalid price exactly for the price 0, otherwise
-- an invalid fee exactly if the smaller of gas and limit times the price is not below 2^64,
-- otherwise an invalid limit exactly if the limit is below the gas; a product below 2^64 is the
-- fee.
pub calc_fee-exact :
    (gas gas_limit gas_price : ℕ)
    → gas < two_64
    → gas_limit < two_64
    → gas_price < two_64
    → ((calc_fee gas gas_limit gas_price).1 ≡ (
        if gas_price == 0
        then some invalid_gas_price
        else if ltb (paid_gas gas gas_limit * gas_price) two_64
        then (if ltb gas_limit gas then some invalid_gas_limit else none)
        else some invalid_fee))
      × (ltb (paid_gas gas gas_limit * gas_price) two_64 ≡ true
          → (calc_fee gas gas_limit gas_price).0 ≡ paid_gas gas gas_limit * gas_price)
unfolding calc_fee
calc_fee-exact gas gas_limit gas_price hg hl hp =
    let gas' = paid_gas gas gas_limit in
    let (flag, exact) = safe_mul-exact gas' gas_price (ground arith) hp in
    elim (Bool-cases (gas_price == 0)) [
      | inl zero' ↦
          let e : gas_price ≡ 0 = ground arith in
          let product : gas' * gas_price ≡ 0 = rw e (omega arith) in
          rw (zero', product) (refl, λ fits. refl)
      | inr some' ↦ elim (Bool-cases (ltb (gas' * gas_price) two_64)) [
        | inl fits ↦ rw (some', flag, fits) (refl, λ _. exact fits)
        | inr big ↦ rw (some', flag, big) (refl, λ fits. cc)
      ]
    ]
