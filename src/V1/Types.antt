-- ===== src/V1/Types.antt =====
-- abciapp_v1.0/types/types.statedb.go: the values that the state database keeps for the contracts,
-- and their encodings by encoding/json.
use bcbchain.Base.{Bytes, is_empty, ℕ, Bool, false, Option, some, List, ◌≡◌}
use bcbchain.Base.Int.{ℤ}

pub record IssueToken : Type 0 where
  pub address : Bytes
  pub owner : Bytes
  pub version : Bytes
  pub name : Bytes
  pub symbol : Bytes
  pub total_supply : ℤ
  pub add_supply_enabled : Bool
  pub burn_enabled : Bool
  pub gas_price : ℕ

pub record Method : Type 0 where
  pub method_id : Bytes
  pub gas : ℤ
  pub prototype : Bytes

pub record Contract : Type 0 where
  pub address : Bytes
  pub owner : Bytes
  pub name : Bytes
  pub version : Bytes
  pub code_hash : Bytes
  pub methods : List Method
  pub effect_height : ℕ
  pub lose_height : ℕ
  pub chain_version : ℤ
  pub org_id : Bytes

pub record Rewarder : Type 0 where
  pub name : Bytes
  pub reward_percent : Bytes
  pub address : Bytes

pub record RewardStrategy : Type 0 where
  pub strategy : List Rewarder
  pub effect_height : ℕ

-- encoding/json's encodings of the values.
pub record StateJson : Type 0 where
  pub encode_balance : Bytes → ℤ → Bytes
  pub decode_balance : Bytes → Option ℤ
  pub encode_keys : List Bytes → Bytes
  pub decode_keys : Bytes → Option (List Bytes)
  pub encode_token : IssueToken → Bytes
  pub decode_token : Bytes → Option IssueToken
  pub encode_contract : Contract → Bytes
  pub decode_contract : Bytes → Option Contract
  pub encode_address : Bytes → Bytes
  pub decode_address : Bytes → Option Bytes
  pub encode_strategys : List RewardStrategy → Bytes
  pub decode_strategys : Bytes → Option (List RewardStrategy)
  pub encode_price : ℕ → Bytes
  pub decode_price : Bytes → Option ℕ
  -- the block height of the world state
  pub decode_block_height : Bytes → Option ℕ
  -- the rewarders in the text of a strategy; none where the text has an error
  pub decode_rewarders : Bytes → List Rewarder
  pub decode_balance-encode_balance :
      (token : Bytes) (v : ℤ) → decode_balance (encode_balance token v) ≡ some v
  pub encode_balance_nonempty : (token : Bytes) (v : ℤ) → is_empty (encode_balance token v) ≡ false
  pub decode_token-encode_token : (t : IssueToken) → decode_token (encode_token t) ≡ some t
  pub encode_token_nonempty : (t : IssueToken) → is_empty (encode_token t) ≡ false
