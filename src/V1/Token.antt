-- ===== src/V1/Token.antt =====
-- abciapp_v1.0/contract/tokentemplet/tokentemplet.go: the methods of a token's contract. The UDC
-- methods have no statements. Proofs are in the children.
pub mod Transfers
pub mod Success
pub mod Batch
pub mod Storage
pub mod Supply
use bcbchain.Base.{
  Bytes, bytes_eq, ℕ, zero, suc, ◌+◌, Bool, true, false, not, ◌||◌, Option, none, some, List, [],
  ◌∷◌, ◌≡◌, ltb, length, if◌then◌else◌,
}
use bcbchain.Base.Int.{ℤ, pos, ◌+ℤ◌, ◌-ℤ◌, ltb_ℤ, leb_ℤ}
use bcbchain.V1.Reply.{
  low_level_error, invalid_parameter, unsupport_trans_to_self, insufficient_balance,
  invalid_balance, out_of_range, no_authorization, invalid_supply, invalid_gas_price, TxState, Op,
  ◌>>=◌, ◌>>◌, pure, fail_if, ignore_error, decoded,
}
use bcbchain.V1.Types.{StateJson}
use bcbchain.V1.State.{set_balance, get_base_gas_price}
use bcbchain.V1.Context
use bcbchain.V1.Context.{
  InvokeContext, balance, token_supply, set_token_supply, set_token_new_owner,
}

abbrev pub min_token_supply : ℤ
min_token_supply = pos 1000000000

abbrev pub max_accounts_for_batch : ℕ
max_accounts_for_batch = 1000

abbrev pub max_gas_price : ℕ
max_gas_price = 1000000000

-- The sum of `n` copies of a value.
unfoldable pub scale : ℕ → ℤ → ℤ
scale zero v = pos 0
scale (suc n) v = v +ℤ scale n v

-- bclib's bignumber over math/big: its `Multi` may fail. `Add`, `Sub` and `Compare` are those of
-- `big.Int`.
pub record BigNumber : Type 0 where
  pub multi : ℤ → ℕ → Option ℤ
  pub multi-eq-some : (v : ℤ) (n : ℕ) (r : ℤ) → multi v n ≡ some r → r ≡ scale n v

module _ (J : StateJson) where
  -- The sender's part of `Transfer` and `BatchTransfer`, and the owner's of `Burn`, from the old
  -- balance.
  abbrev pub pay_from : InvokeContext → Bytes → ℤ → ℤ → Op (Unit {0})
  pay_from ctx from value old_balance = do
    let new_balance = old_balance -ℤ value
    fail_if (ltb_ℤ new_balance (pos 0)) insufficient_balance
    fail_if (ltb_ℤ old_balance new_balance) invalid_balance
    set_balance J from (ctx.contract_address) new_balance

  abbrev pub pay : InvokeContext → Bytes → ℤ → Op (Unit {0})
  pay ctx from value = balance J from (ctx.contract_address) >>= pay_from ctx from value

  -- The receiver's part.
  abbrev pub receive_to : InvokeContext → Bytes → ℤ → ℤ → Op (Unit {0})
  receive_to ctx to value old_balance = do
    let new_balance = old_balance +ℤ value
    fail_if (ltb_ℤ new_balance old_balance) invalid_balance
    set_balance J to (ctx.contract_address) new_balance

  abbrev pub receive : InvokeContext → Bytes → ℤ → Op (Unit {0})
  receive ctx to value = balance J to (ctx.contract_address) >>= receive_to ctx to value

  -- `Transfer`
  unfoldable pub transfer : InvokeContext → Bytes → ℤ → Op (Unit {0})
  transfer ctx to value = do
    fail_if (ltb_ℤ value (pos 0)) invalid_parameter
    fail_if (bytes_eq (ctx.sender) to) unsupport_trans_to_self
    pay ctx (ctx.sender) value
    receive ctx to value

  -- The loop of `BatchTransfer`
  unfoldable pub receive_all : InvokeContext → List Bytes → ℤ → Op (Unit {0})
  receive_all ctx [] value = pure tt
  receive_all ctx (to ∷ to_list) value = do
    fail_if (bytes_eq (ctx.sender) to) unsupport_trans_to_self
    receive ctx to value
    receive_all ctx to_list value

  -- `BatchTransfer`
  unfoldable pub batch_transfer : BigNumber → InvokeContext → List Bytes → ℤ → Op (Unit {0})
  batch_transfer B ctx to_list value = do
    fail_if (ltb_ℤ value (pos 0)) invalid_parameter
    fail_if (ltb max_accounts_for_batch (length to_list)) out_of_range
    sum ← decoded (BigNumber.multi B value (length to_list))
    fail_if (ltb_ℤ sum value) out_of_range
    pay ctx (ctx.sender) sum
    receive_all ctx to_list value

  -- `AddSupply`
  unfoldable pub add_supply : InvokeContext → ℤ → Op (Unit {0})
  add_supply ctx value = do
    fail_if (leb_ℤ value (pos 0)) invalid_parameter
    fail_if (not (bytes_eq (ctx.sender) (ctx.owner))) no_authorization
    total_supply ← token_supply J ctx
    let new_supply = total_supply +ℤ value
    fail_if (ltb_ℤ new_supply total_supply) invalid_supply
    set_token_supply J ctx new_supply true false
    receive ctx (ctx.owner) value

  -- `Burn`
  unfoldable pub burn : InvokeContext → ℤ → Op (Unit {0})
  burn ctx value = do
    fail_if (ltb_ℤ value (pos 0)) invalid_parameter
    fail_if (not (bytes_eq (ctx.sender) (ctx.owner))) no_authorization
    pay ctx (ctx.owner) value
    total_supply ← ignore_error (pos 0) (token_supply J ctx)
    let new_supply = total_supply -ℤ value
    fail_if (ltb_ℤ total_supply new_supply) invalid_supply
    fail_if (ltb_ℤ new_supply min_token_supply) invalid_supply
    set_token_supply J ctx new_supply false true

  -- `SetOwner`
  unfoldable pub set_owner : InvokeContext → Bytes → Op (Unit {0})
  unfolding transfer
  set_owner ctx new_owner = do
    fail_if (not (bytes_eq (ctx.sender) (ctx.owner))) no_authorization
    owned ← balance J (ctx.owner) (ctx.contract_address)
    transfer ctx new_owner owned
    set_token_new_owner J ctx new_owner

  -- `SetGasPrice`
  unfoldable pub set_gas_price : InvokeContext → ℕ → Op (Unit {0})
  set_gas_price ctx value = do
    fail_if (not (bytes_eq (ctx.sender) (ctx.owner))) no_authorization
    base ← get_base_gas_price J
    fail_if (ltb value base || ltb max_gas_price value) invalid_gas_price
    Context.set_gas_price J ctx value
