-- ===== src/V1/Rewards.antt =====
-- abciapp_v1.0/contract/stubapi/invokecontext.go: fees, the strategies by which they are divided, and
-- the division. Proofs are in the children.
pub mod Strategies
pub mod Order
pub mod Fees
pub mod Shares
mod Tests
use bcbchain.Base.{
  Bytes, GoMap, codes, bytes_eq, is_empty, lookup, insert, ℕ, zero, suc, ◌+◌, ◌-◌, ◌*◌, ◌/◌, ◌%◌,
  ◌^◌, Bool, true, false, not, ◌&&◌, ◌||◌, Option, none, some, List, [], ◌∷◌, ◌++◌, ◌==◌, ltb, leb,
  length, if◌then◌else◌,
}
use bcbchain.V1.Reply.{
  ErrorCode, low_level_error, invalid_parameter, no_strategys, invalid_gas_limit, invalid_gas_price,
  invalid_fee, TxState, Op, ◌>>=◌, ◌>>◌, pure, fail, fail_if, crash, decoded,
}
use bcbchain.V1.Keys.{key_of_world_app_state}
use bcbchain.V1.Types.{RewardStrategy, Rewarder, StateJson}
use bcbchain.V1.State.{get_strategys, set_strategys}

-- `math.MaxUint64`
abbrev pub max_uint64 : ℕ
max_uint64 = 18446744073709551615

abbrev pub two_64 : ℕ
two_64 = 18446744073709551616

-- `safeMul`: the product as the machine computes it, and whether it is wrong.
unfoldable pub safe_mul : ℕ → ℕ → ℕ × Bool
safe_mul a b =
    if a == 0 || b == 0
    then (0, false)
    else if a == 1
    then (b, false)
    else if b == 1
    then (a, false)
    else if a == max_uint64 || b == max_uint64
    then (0, true)
    else ((a * b) % two_64, not ((a * b) % two_64 / b == a))

-- `calcFee`: the fee, with the error that is reported beside it.
unfoldable pub calc_fee : ℕ → ℕ → ℕ → ℕ × Option ErrorCode
calc_fee gas gas_limit gas_price =
    let real_gas = if ltb gas_limit gas then gas_limit else gas in
    if gas_price == 0
    then (0, some invalid_gas_price)
    else let (fee, overflow) = safe_mul real_gas gas_price in
      if overflow
      then (fee, some invalid_fee)
      else (fee, if ltb gas_limit gas then some invalid_gas_limit else none)

-- A strategy with nothing in it.
abbrev pub no_strategy : RewardStrategy
no_strategy = record { strategy = []; effect_height = 0 }

-- The loop of `GetStrategy`: the strategy that is kept after one more.
unfoldable pub better : ℕ → RewardStrategy → RewardStrategy → RewardStrategy
better height result s =
    if leb (s.effect_height) height
    then if not (is_empty (result.strategy)) && leb (s.effect_height) (result.effect_height)
      then result
      else s
    else result

unfoldable pub pick : ℕ → RewardStrategy → List RewardStrategy → RewardStrategy
pick height result [] = result
pick height result (s ∷ l) = pick height (better height result s) l

-- One round of the loop of `UpdateRewardStrategy`: the strategies that stay, and the newest one that
-- has come into effect.
unfoldable pub keep_step :
    ℕ → List RewardStrategy → RewardStrategy → RewardStrategy → List RewardStrategy × RewardStrategy
keep_step block_height result pre s =
    if leb (s.effect_height) block_height
    then (result, if leb (s.effect_height) (pre.effect_height) then pre else s)
    else if pre.effect_height == 0
    then (result ++ s ∷ [], pre)
    else ((result ++ pre ∷ []) ++ s ∷ [], record pre { effect_height = 0 })

unfoldable pub keep :
    ℕ
    → List RewardStrategy
    → RewardStrategy
    → List RewardStrategy
    → List RewardStrategy × RewardStrategy
keep block_height result pre [] = (result, pre)
keep block_height result pre (s ∷ l) =
    keep block_height ((keep_step block_height result pre s).0)
      ((keep_step block_height result pre s).1) l

-- What stays once the loop is done.
unfoldable pub kept : List RewardStrategy × RewardStrategy → List RewardStrategy
kept (result, pre) = if is_empty result && not (pre.effect_height == 0) then pre ∷ [] else result

-- The list that `UpdateRewardStrategy` stores.
unfoldable pub updated : ℕ → RewardStrategy → List RewardStrategy → List RewardStrategy
updated block_height new l = kept (keep block_height [] no_strategy l) ++ new ∷ []

-- The test of `CheckEffectHeight` on the block height and the stored strategies.
unfoldable pub all_before : ℕ → List RewardStrategy → Bool
all_before effect_height [] = true
all_before effect_height (s ∷ l) = ltb (s.effect_height) effect_height && all_before effect_height l

module _ (J : StateJson) where
  -- The block height of `GetWorldAppState`; a missing state is a nil pointer.
  unfoldable pub block_height : Op ℕ
  block_height s =
      let value = s.state_db key_of_world_app_state in
      if is_empty value then crash s else decoded (StateJson.decode_block_height J value) s

  -- `GetStrategy`
  unfoldable pub get_strategy : Op RewardStrategy
  get_strategy = do
    strategys ← get_strategys J
    fail_if (is_empty strategys) no_strategys
    height ← block_height
    pure (pick (height + 1) no_strategy strategys)

  -- `CheckEffectHeight`
  unfoldable pub check_effect_height : ℕ → Op (Unit {0})
  check_effect_height effect_height = do
    height ← block_height
    fail_if (leb effect_height height) invalid_parameter
    strategys ← get_strategys J
    fail_if (not (all_before effect_height strategys)) invalid_parameter

  -- `UpdateRewardStrategy`
  unfoldable pub update_reward_strategy : Bytes → ℕ → Op (Unit {0})
  update_reward_strategy strategy effect_height = do
    height ← block_height
    strategys ← get_strategys J
    set_strategys J (
        updated height
          (record {
            strategy = StateJson.decode_rewarders J strategy;
            effect_height = effect_height;
          })
          strategys)

-- `strings.Replace(s, ".", "", 1)`
unfoldable pub without_point : Bytes → Bytes
without_point [] = []
without_point (c ∷ s) = let rest = without_point s in if c == 46 then s else c ∷ rest

-- `strings.Index(s, ".")`, none for -1.
unfoldable pub index_of_point : Bytes → Option ℕ
index_of_point [] = none
index_of_point (c ∷ s) =
    let rest = index_of_point s in
    if c == 46 then some 0 else elim rest [ none ↦ none | some i ↦ some (suc i) ]

-- How many zeros the loop puts behind the 1 of the divisor.
unfoldable pub zeros : Bytes → ℕ
unfolding index_of_point
zeros s = elim (index_of_point s) [ none ↦ length s + 2 | some i ↦ length s - i + 1 ]

-- `strconv.Atoi` of the divisor, whose range error leaves the largest int64.
unfoldable pub divisor : Bytes → ℕ
divisor s = if leb (zeros s) 18 then 10 ^ zeros s else 9223372036854775807

-- The number of a text of digits.
unfoldable pub digits : ℕ → Bytes → Option ℕ
digits n [] = some n
digits n (c ∷ s) =
    let rest = digits (n * 10 + (c - 48)) s in if leb 48 c && leb c 57 then rest else none

-- `uint64(i)` of a result of `strconv.Atoi` with a sign, none for an error.
unfoldable pub signed : Bool → Bytes → Option ℕ
signed negative [] = none
signed negative (c ∷ s) = elim (digits 0 (c ∷ s)) [
  | none ↦ none
  | some n ↦
      if negative
      then (if leb n 9223372036854775808 then some ((two_64 - n) % two_64) else none)
      else (if leb n 9223372036854775807 then some n else none)
]

unfoldable pub atoi : Bytes → Option ℕ
atoi [] = none
atoi (c ∷ s) =
    if c == 45 then signed true s else if c == 43 then signed false s else signed false (c ∷ s)

-- `uint64(math.Floor(float64(a) / float64(b)))`
abbrev pub FloorQuotient : Type 0
FloorQuotient = ℕ → ℕ → ℕ

-- The reward of one item of a strategy; none for an error.
unfoldable pub reward_value : FloorQuotient → ℕ → Rewarder → Option ℕ
reward_value floor_quotient value item = elim (atoi (without_point (item.reward_percent))) [
  | none ↦ none
  | some ratio ↦
      let (product, overflow) = safe_mul value ratio in
      if overflow then none else some (floor_quotient product (divisor (item.reward_percent)))
]

-- Who gets it: the proposer's rewarder for the name "validators".
unfoldable pub target : Bytes → Rewarder → Bytes
target rewarder item = if bytes_eq (item.name) (codes "validators") then rewarder else item.address

-- The loop of `CalcdRewards`: the rewards and their sum.
unfoldable pub reward_loop :
    FloorQuotient → ℕ → Bytes → List Rewarder → GoMap ℕ → ℕ → Option (GoMap ℕ × ℕ)
reward_loop Q value rewarder [] rewards sum = some (rewards, sum)
reward_loop Q value rewarder (item ∷ l) rewards sum = elim (reward_value Q value item) [
  | none ↦ none
  | some r ↦
      reward_loop Q value rewarder l (insert (target rewarder item) r rewards) ((sum + r) % two_64)
]

-- `rewardValues[addr]`
unfoldable pub reward_of : Bytes → GoMap ℕ → ℕ
reward_of addr rewards = elim (lookup addr rewards) [ none ↦ 0 | some r ↦ r ]

-- The end of `CalcdRewards`: the rewarder gets what is left.
unfoldable pub settle : ℕ → Bytes → GoMap ℕ → ℕ → Option (GoMap ℕ)
settle value rewarder rewards sum =
    if ltb sum value
    then some (insert rewarder ((reward_of rewarder rewards + (value - sum)) % two_64) rewards)
    else if ltb value sum
    then none
    else some rewards

-- `CalcdRewards`; none for an invalid parameter.
unfoldable pub calcd_rewards : FloorQuotient → RewardStrategy → ℕ → Bytes → Option (GoMap ℕ)
calcd_rewards Q strategy value rewarder =
    elim (reward_loop Q value rewarder (strategy.strategy) [] 0) [
      | none ↦ none
      | some result ↦ settle value rewarder (result.0) (result.1)
    ]
