-- ===== src/Base/Decimal.antt =====
-- `fmt.Sprintf("%d", n)` for a number that is not negative: that it is injective, and that a reader
-- of digits which stops at a bound gets the number back.
use bcbchain.Base.Tests.{ltb, if◌then◌else◌, Bool-cases}
use bcbchain.Base.Text.{Bytes}
use Prim.Native.Nat.{ℕ, zero, suc, ◌+◌, ◌-◌, ◌*◌, ◌/◌, ◌%◌, ◌<◌, ◌≤◌}
use mathlib.Core.Path.{◌≡◌, refl, subst, sym, ap, ◌∙◌}
use mathlib.Core.Logic.{inl, inr}
use mathlib.Core.List.{[], ◌∷◌, ◌++◌}
use native.Mathlib.Omega.{arith}

decimal_fuel : ℕ → ℕ → Bytes
decimal_fuel zero n = []
decimal_fuel (suc f) n =
    let rest = decimal_fuel f (n / 10) ++ (48 + n % 10) ∷ [] in
    if ltb n 10 then (48 + n) ∷ [] else rest

-- A number has at most as many divisions by ten as its own size, so the fuel is never used up.
unfoldable pub decimal : ℕ → Bytes
unfolding decimal_fuel
decimal n = decimal_fuel (suc n) n

-- The number that a text of digits stands for.
number_from : ℕ → Bytes → ℕ
number_from acc [] = acc
number_from acc (c ∷ s) = number_from (acc * 10 + (c - 48)) s

number_from-append :
    (acc : ℕ) (s : Bytes) (c : ℕ)
    → number_from acc (s ++ c ∷ []) ≡ number_from acc s * 10 + (c - 48)
unfolding number_from
number_from-append acc [] c = refl
number_from-append acc (d ∷ s) c = number_from-append (acc * 10 + (d - 48)) s c

number_from-decimal_fuel : (f n : ℕ) → n < f → number_from 0 (decimal_fuel f n) ≡ n
unfolding decimal_fuel
number_from-decimal_fuel zero n h = elim h [ ]
number_from-decimal_fuel (suc f) n h = elim (Bool-cases (ltb n 10)) [
  | inl small ↦ rw small (unfold number_from in omega arith)
  | inr large ↦ rw large (
      rw number_from-append (rw (number_from-decimal_fuel f (n / 10) (ground arith)) (omega arith)))
]

pub decimal_injective : (m n : ℕ) → decimal m ≡ decimal n → m ≡ n
unfolding decimal
decimal_injective m n e =
    sym (number_from-decimal_fuel (suc m) m (omega arith))
    ∙ ap (number_from 0) e
    ∙ number_from-decimal_fuel (suc n) n (omega arith)

-- A reader of digits that has the number `acc` gets to `n`, and stays below a bound all the way.
unfoldable pub Reads : ℕ → ℕ → Bytes → ℕ → Type 0
Reads bound acc [] n = acc ≡ n
Reads bound acc (c ∷ s) n =
    (48 ≤ c) × (c ≤ 57) × (acc * 10 + (c - 48) < bound) × Reads bound (acc * 10 + (c - 48)) s n

Reads-append :
    (bound acc : ℕ) (s : Bytes) (n c : ℕ)
    → Reads bound acc s n
    → 48 ≤ c
    → c ≤ 57
    → n * 10 + (c - 48) < bound
    → Reads bound acc (s ++ c ∷ []) (n * 10 + (c - 48))
unfolding Reads
Reads-append bound acc [] n c read low high small =
    (low, high, omega (arith, read), ap (λ m. m * 10 + (c - 48)) read)
Reads-append bound acc (d ∷ s) n c (d_low, d_high, d_small, read) low high small =
    (d_low, d_high, d_small, Reads-append bound (acc * 10 + (d - 48)) s n c read low high small)

decimal_fuel-Reads : (bound f n : ℕ) → n < f → n < bound → Reads bound 0 (decimal_fuel f n) n
unfolding decimal_fuel
decimal_fuel-Reads bound zero n h small = elim h [ ]
decimal_fuel-Reads bound (suc f) n h small = elim (Bool-cases (ltb n 10)) [
  | inl digit ↦ rw digit (
      let few : n < 10 = ground arith in
      unfold Reads in (omega arith, omega arith, omega arith, omega arith))
  | inr large ↦ rw large (
      subst (λ m. Reads bound 0 (decimal_fuel f (n / 10) ++ (48 + n % 10) ∷ []) m) (omega arith)
        (Reads-append bound 0 (decimal_fuel f (n / 10)) (n / 10) (48 + n % 10)
          (decimal_fuel-Reads bound f (n / 10) (ground arith) (omega arith)) (omega arith)
          (omega arith) (omega arith)))
]

pub decimal-Reads : (bound n : ℕ) → n < bound → Reads bound 0 (decimal n) n
unfolding decimal
decimal-Reads bound n small = decimal_fuel-Reads bound (suc n) n (omega arith) small
