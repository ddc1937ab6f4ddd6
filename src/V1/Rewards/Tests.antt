-- ===== src/V1/Rewards/Tests.antt =====
-- Runs of the fees, the strategies and the division of a fee.
use bcbchain.Base.{
  GoMap, codes, bytes_eq, insert, lookup, ℕ, ◌/◌, true, some, List, [], ◌∷◌, ◌≡◌, refl, arith,
}
use bcbchain.Helper.Accounts.{contains}
use bcbchain.V1.Reply.{invalid_gas_limit}
use bcbchain.V1.Types.{Rewarder, RewardStrategy}
use bcbchain.V1.Rewards.{
  safe_mul, calc_fee, pick, updated, no_strategy, all_before, calcd_rewards, reward_loop,
  reward_value, target, settle, reward_of, atoi, signed, digits, without_point, divisor, zeros,
  index_of_point,
}
use bcbchain.V1.Rewards.Strategies.{Ascends, pick-updated}
use bcbchain.V1.Rewards.Order.{updated-Ascends}
use bcbchain.V1.Rewards.Fees.{safe_mul-exact, calc_fee-exact}
use bcbchain.V1.Rewards.Shares.{total, distinct, shares, calcd_rewards-total}

safe_mul-exact_example : (safe_mul 4294967296 4294967296).1 ≡ true
safe_mul-exact_example = (safe_mul-exact 4294967296 4294967296 (omega arith) (omega arith)).0

-- A limit below the gas is charged, and reported.
calc_fee-exact_example : (calc_fee 600 500 2500).1 ≡ some invalid_gas_limit
calc_fee-exact_example = (calc_fee-exact 600 500 2500 (omega arith) (omega arith) (omega arith)).0

abbrev validators : Rewarder
validators = record { name = codes "validators"; reward_percent = codes "20.00"; address = [] }

abbrev fund : Rewarder
fund = record { name = codes "fund"; reward_percent = codes "79.5"; address = codes "f" }

abbrev since : ℕ → RewardStrategy
since height = record { strategy = validators ∷ fund ∷ []; effect_height = height }

abbrev stored : List RewardStrategy
stored = since 1 ∷ since 5 ∷ since 12 ∷ []

ascending : Ascends 0 stored
unfolding Ascends
ascending = (ground arith, refl, (ground arith, refl, (ground arith, refl, tt)))

pick-updated_example : pick 25 no_strategy (updated 10 (since 20) stored) ≡ since 20
unfolding all_before
pick-updated_example =
    pick-updated 10 25 (since 20) stored ascending refl (ground arith) refl (ground arith)

updated-Ascends_example : Ascends 0 (updated 10 (since 20) stored)
unfolding all_before
updated-Ascends_example = updated-Ascends 10 (since 20) stored ascending refl (ground arith) refl

-- Of 101, the fund gets 80 (79.5 of 100 parts, without the rest), the proposer's rewarder 20 and
-- what is left.
abbrev rewards : GoMap ℕ
rewards = (codes "r", 21) ∷ (codes "f", 80) ∷ []

rewards_found : calcd_rewards (λ a b. a / b) (since 1) 101 (codes "r") ≡ some rewards
unfolding calcd_rewards reward_loop reward_value target settle reward_of atoi signed digits
    without_point divisor zeros index_of_point safe_mul bytes_eq insert lookup
rewards_found = refl

calcd_rewards-total_example : total rewards ≡ 101
unfolding distinct contains target shares reward_value atoi signed digits without_point divisor
    zeros index_of_point safe_mul bytes_eq
calcd_rewards-total_example =
    calcd_rewards-total (λ a b. a / b) (since 1) 101 (codes "r") rewards rewards_found refl
      (ground arith) (ground arith)
