-- ===== src/V1/Context.antt =====
-- abciapp_v1.0/contract/stubapi/invokecontext.go and the part of abciapp_v1.0/contract/contract.go
-- that passes it on: what a contract calls, and the reward strategies.
use bcbchain.Base.{
  Bytes, codes, bytes_eq, is_empty, ℕ, Bool, false, not, ◌&&◌, Option, none, some, [], ◌++◌,
  if◌then◌else◌,
}
use bcbchain.Base.Int.{ℤ, pos, eqb_ℤ}
use bcbchain.V1.Reply.{
  ErrorCode, no_token, unsupport_add_supply, unsupport_burn, not_find_contract, dup_name,
  dup_symbol, invalid_addr, no_genesis, Op, ◌>>=◌, ◌>>◌, pure, fail, fail_if, ignore_error,
}
use bcbchain.V1.Types.{IssueToken, Contract, StateJson}
use bcbchain.V1.State.{
  get_token, set_token, get_contract, set_token_contract, delete_contract_addr, get_balance,
  set_balance, get_token_addr_by_name, get_token_addr_by_symbol,
}

-- The fields of `InvokeContext` that the modelled contracts use, with the contract's address of its
-- `TxState`.
pub record InvokeContext : Type 0 where
  pub sender : Bytes
  pub owner : Bytes
  pub contract_address : Bytes

-- A value that must be there.
abbrev pub required {ℓ} : {A : Type ℓ} → ErrorCode → Option A → Op A
required e none = fail e
required e (some a) = pure a

module _ (J : StateJson) where
  -- `Account.Balance` of contract.go: 0 where the balance cannot be read.
  unfoldable pub balance : Bytes → Bytes → Op ℤ
  balance address token_addr = ignore_error (pos 0) (get_balance J address token_addr)

  -- `SetGasPrice`
  unfoldable pub set_gas_price : InvokeContext → ℕ → Op (Unit {0})
  set_gas_price ctx value = do
    found ← get_token J (ctx.contract_address)
    token ← required no_token found
    set_token J (record token { gas_price = value })

  -- `TokenSupply`
  unfoldable pub token_supply : InvokeContext → Op ℤ
  token_supply ctx = do
    found ← get_token J (ctx.contract_address)
    token ← required no_token found
    pure (token.total_supply)

  -- `SetTokenSupply`
  unfoldable pub set_token_supply : InvokeContext → ℤ → Bool → Bool → Op (Unit {0})
  set_token_supply ctx value is_add_supply is_burn = do
    found ← get_token J (ctx.contract_address)
    token ← required no_token found
    fail_if (is_add_supply && not (token.add_supply_enabled)) unsupport_add_supply
    fail_if (is_burn && not (token.burn_enabled)) unsupport_burn
    set_token J (record token { total_supply = value })

  -- `SetTokenNewOwner`
  unfoldable pub set_token_new_owner : InvokeContext → Bytes → Op (Unit {0})
  set_token_new_owner ctx owner = do
    found ← get_token J (ctx.contract_address)
    token ← required no_token found
    set_token J (record token { owner = owner })
    old ← get_contract J (ctx.contract_address)
    old_contract ← required not_find_contract old
    set_token_contract J (record old_contract { owner = owner; chain_version = pos 0; org_id = [] })
    delete_contract_addr J (token.owner) (ctx.contract_address)

  -- `GetTokenIssueContract`
  unfoldable pub get_token_issue_contract : InvokeContext → Op Contract
  get_token_issue_contract ctx = do
    found ← get_contract J (ctx.contract_address)
    required no_genesis found

  -- `NewToken`; the address of the token-templet contract is a value that bclib computes from the
  -- owner and the version of the token-issue contract.
  unfoldable pub new_token :
      (Bytes → Bytes → Bytes)
      → InvokeContext
      → Bytes
      → Bytes
      → Bytes
      → ℤ
      → Bool
      → Bool
      → ℕ
      → Op (Unit {0})
  unfolding get_token_issue_contract
  new_token templet_address ctx addr name symbol total_supply add_enabled burn_enabled gas_price =
      do
        ti_contract ← get_token_issue_contract ctx
        set_token J (record {
          address = addr;
          owner = ctx.sender;
          version = ti_contract.version;
          name = name;
          symbol = symbol;
          total_supply = total_supply;
          add_supply_enabled = add_enabled;
          burn_enabled = burn_enabled;
          gas_price = gas_price;
        })
        found ← get_contract J (templet_address (ti_contract.owner) (ti_contract.version))
        templet ← required invalid_addr found
        set_token_contract J (record {
          address = addr;
          owner = ctx.sender;
          name = codes "token-templet-" ++ name;
          version = templet.version;
          code_hash = templet.code_hash;
          methods = templet.methods;
          effect_height = templet.effect_height;
          lose_height = templet.lose_height;
          chain_version = pos 0;
          org_id = [];
        })
        set_balance J (ctx.sender) addr total_supply

  -- Whether a token of that address may be created again: it has no supply and is the sender's.
  unfoldable pub can_create_again : InvokeContext → Option IssueToken → Bool
  can_create_again ctx none = false
  can_create_again ctx (some t) = eqb_ℤ (t.total_supply) (pos 0) && bytes_eq (t.owner) (ctx.sender)

  -- `CheckNameAndSybmol`
  unfoldable pub check_name_and_symbol : InvokeContext → Bytes → Bytes → Op (Unit {0})
  unfolding can_create_again
  check_name_and_symbol ctx name symbol = do
    addr₁ ← get_token_addr_by_name J name
    addr₂ ← get_token_addr_by_symbol J symbol
    if is_empty addr₁ && is_empty addr₂
        then pure tt
        else (if bytes_eq addr₁ addr₂
            then (do
              t ← ignore_error none (get_token J addr₁)
              fail_if (not (can_create_again ctx t)) dup_name)
            else (if is_empty addr₁ then fail dup_symbol else fail dup_name))
