-- ===== src/Deliver/Fees.antt =====
-- What `distributeFee` of abciapp/service/deliver/delivertx.go pays out of a fee.
use native.Mathlib.Nat.{mul-add}
use bcbchain.Base.{
  ℕ, suc, ◌+◌, ◌*◌, ◌/◌, ◌≤◌, ◌<◌, Bool, false, not, ◌||◌, some, List, [], ◌∷◌, map, length, ◌==◌,
  if◌then◌else◌, Outcome, returned, ◌>>=◌, >>=-eq-returned, ◌≡◌, refl, sym, ap, ◌∙◌, arith,
}
use bcbchain.Base.Int.{ℤ, pos, pos_part, ◌-ℤ◌}
use bcbchain.Db.{LevelDb, Json}
use bcbchain.Helper.Accounts.{AccountJson}
use bcbchain.Deliver.{
  Fee, Transfer, Reward, Receipts, AppDeliver, wrap_int64, nearest_int64, reward_address, pay_award,
  distribute_loop, distribute_fee, charge,
}

-- What the receipts pay together.
unfoldable pub paid : List Transfer → ℕ
paid [] = 0
paid (t ∷ l) = pos_part (t.value) + paid l

unfoldable pub sum : List ℕ → ℕ
sum [] = 0
sum (p ∷ l) = p + sum l

-- The hundredths of per cent that the rewards' texts stand for.
unfoldable pub HasPoints : Receipts → List Reward → List ℕ → Type 0
HasPoints R [] [] = Unit
HasPoints R (reward ∷ l) (p ∷ ps) =
    (Receipts.percent R (reward.reward_percent) ≡ some (pos p)) × HasPoints R l ps
HasPoints R _ _ = ⊥

HasPoints-nonempty :
    (R : Receipts) (l : List Reward) (ps : List ℕ)
    → HasPoints R l ps
    → sum ps ≡ 10000
    → 0 < length l
unfolding HasPoints sum
HasPoints-nonempty R [] [] points all = absurd (omega arith)
HasPoints-nonempty R [] (p ∷ ps) points all = elim points [ ]
HasPoints-nonempty R (reward ∷ l) ps points all = omega arith

-- One more part, rounded down.
add_share :
    (v p ps n rest total : ℕ)
    → total ≡ v * p / 10000 + rest
    → rest * 10000 ≤ v * ps
    → v * ps + n ≤ rest * 10000 + n * 10000
    → (total * 10000 ≤ v * (p + ps)) × (v * (p + ps) + suc n ≤ total * 10000 + suc n * 10000)
add_share v p ps n rest total e low high = let split = mul-add v p ps in (omega arith, omega arith)

module _ (E : LevelDb) (J : Json) (A : AccountJson) (R : Receipts) where
  open R use {percent, award, award-pos}

  -- Each item is paid its part, rounded down: the case of the last reward is never reached.
  loop-paid :
      (count i : ℕ) (l : List Reward) (ps : List ℕ) (fee : Fee) (left : ℤ) (v : ℕ)
      (app app' : AppDeliver E) (receipts : List Transfer)
      → distribute_loop E J A R count i l fee left app ≡ returned (receipts, app')
      → HasPoints R l ps
      → fee.value ≡ pos v
      → i + length l ≤ count
      → (paid receipts * 10000 ≤ v * sum ps)
        × (v * sum ps + length l ≤ paid receipts * 10000 + length l * 10000)
        × (length receipts ≡ length l)
        × (map (λ t. t.value) receipts ≡ map (λ p. pos (v * p / 10000)) ps)
  unfolding distribute_loop paid sum HasPoints
  loop-paid count i [] [] fee left v app app' receipts run points whole fits =
      let none_paid : [] ≡ receipts = cc in
      rw (sym none_paid) (omega arith, omega arith, refl, refl)
  loop-paid count i [] (p ∷ ps) fee left v app app' receipts run points whole fits = elim points [ ]
  loop-paid count i (reward ∷ l) [] fee left v app app' receipts run points whole fits =
      elim points [ ]
  loop-paid count i (reward ∷ l) (p ∷ ps) fee left v app app' receipts run (e, points) whole fits =
      let addr = reward_address E J A R app reward in
      let amount = award (fee.value) (pos p) in
      let receipt : Transfer = record {
        token = fee.token;
        from = fee.from;
        to = addr;
        value = amount;
      } in
      let after : AppDeliver E → Outcome (List Transfer × AppDeliver E) = λ a.
        distribute_loop E J A R count (i + 1) l fee (wrap_int64 (left -ℤ nearest_int64 amount)) a in
      let finish : List Transfer × AppDeliver E → Outcome (List Transfer × AppDeliver E) =
        λ rest. returned (receipt ∷ rest.0, rest.1) in
      let early : (i == count) ≡ false = ground arith in
      let step : distribute_loop E J A R count i (reward ∷ l) fee left app
          ≡ (pay_award E J A R fee addr amount app >>= λ a. after a >>= finish) =
        rw (distribute_loop, e, early) refl in
      let (a, r₁, r₂) =
        >>=-eq-returned (pay_award E J A R fee addr amount app) (λ a. after a >>= finish)
          (sym step ∙ run) in
      let (rest, r₃, r₄) = >>=-eq-returned (after a) finish r₂ in
      let (low, high, count_eq, parts) =
        loop-paid count (i + 1) l ps fee (wrap_int64 (left -ℤ nearest_int64 amount)) v a (rest.1)
          (rest.0) r₃ points whole (omega arith) in
      let cons : receipt ∷ rest.0 ≡ receipts = cc in
      let value_eq : amount ≡ pos (v * p / 10000) =
        ap (λ x. award x (pos p)) whole ∙ award-pos v p in
      let total : paid receipts ≡ v * p / 10000 + paid (rest.0) =
        ap paid (sym cons) ∙ ap (λ x. pos_part x + paid (rest.0)) value_eq in
      let (low', high') =
        add_share v p (sum ps) (length l) (paid (rest.0)) (paid receipts) total low high in
      (
        low',
        high',
        ap length (sym cons) ∙ ap suc count_eq,
        ap (map (λ t. t.value)) (sym cons)
            ∙ (ap (λ x. x ∷ map (λ t. t.value) (rest.0)) value_eq
                ∙ ap (λ x. pos (v * p / 10000) ∷ x) parts),
      )

  -- If distributeFee returns for a fee that is not negative and a strategy whose percentages add
  -- up to 100, it makes one receipt for each reward; each of them, the last one included, pays
  -- its percentage of the fee, rounded down to a unit, so that together they pay at most the fee
  -- and miss it by less than one unit for each reward.
  pub distribute_fee-paid :
      (fee : Fee) (is_ok is_bvm : Bool) (ps : List ℕ) (v : ℕ) (app app' : AppDeliver E)
      (receipts : List Transfer)
      → distribute_fee E J A R fee is_ok is_bvm app ≡ returned (receipts, app')
      → HasPoints R (app.reward_strategy) ps
      → sum ps ≡ 10000
      → fee.value ≡ pos v
      → (paid receipts ≤ v)
        × (v < paid receipts + length receipts)
        × (length receipts ≡ length (app.reward_strategy))
        × (map (λ t. t.value) receipts ≡ map (λ p. pos (v * p / 10000)) ps)
  unfolding distribute_fee
  distribute_fee-paid fee is_ok is_bvm ps v app app' receipts run points all whole =
      let rewards = app.reward_strategy in
      let start : Outcome (AppDeliver E) =
        if not is_ok || is_bvm then charge E J A R fee app else returned app in
      let (app₁, r₁, r₂) =
        >>=-eq-returned start
          (λ a. distribute_loop E J A R (length rewards) 0 rewards fee (fee.value) a) run in
      let (low, high, count_eq, parts) =
        loop-paid (length rewards) 0 rewards ps fee (fee.value) v app₁ app' receipts r₂ points whole
          (omega arith) in
      let product : v * sum ps ≡ v * 10000 = ap (λ x. v * x) all in
      let some_reward = HasPoints-nonempty R rewards ps points all in
      (omega arith, omega arith, count_eq, parts)
