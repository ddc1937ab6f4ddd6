-- ===== src/V1/Byb/Issue.antt =====
-- abciapp_v1.0/contract/tokenbyb/tokenbyb.go: the first issue of the token, its owner, supply and
-- gas price.
use bcbchain.Base.{
  Bytes, codes, bytes_eq, is_empty, ℕ, ◌+◌, ◌%◌, ◌^◌, Bool, not, ◌&&◌, ◌||◌, Option, none, some,
  List, [], ◌∷◌, ◌++◌, ltb, if◌then◌else◌,
}
use bcbchain.Base.Int.{ℤ, pos, ◌+ℤ◌, ◌-ℤ◌, ltb_ℤ, leb_ℤ, eqb_ℤ}
use bcbchain.V1.Reply.{
  invalid_parameter, unsupport_trans_to_self, insufficient_balance, invalid_balance,
  no_authorization, invalid_supply, invalid_gas_price, invalid_addr, unsupport_add_supply,
  unsupport_burn, byb_initialized, Op, ◌>>=◌, ◌>>◌, pure, fail_if, crash, ignore_error, decoded,
}
use bcbchain.V1.Types.{IssueToken, StateJson}
use bcbchain.V1.Keys.{key_of_world_app_state}
use bcbchain.V1.State.{
  get_token, set_token, get_contract, set_token_contract, delete_contract_addr,
  get_token_addr_by_name, get_token_addr_by_symbol, get_base_gas_price,
}
use bcbchain.V1.Context.{required}
use bcbchain.V1.Token.{max_gas_price}
use bcbchain.V1.Byb.Chromos.{BybBalance, white_chromo}
use bcbchain.V1.Byb.Store.{
  BybJson, TokenByb, get_byb_balance, set_byb_balance, get_db_token, check_address,
}
use bcbchain.V1.Byb.Holders.{is_user, set_first}
use bcbchain.V1.Byb.Receipts.{
  BybReceipt, new_token_receipt, set_owner_receipt, add_supply_receipt, burn_receipt,
  set_gas_price_receipt, on_transfer,
}

abbrev pub byb_name : Bytes
byb_name = codes "BYB"

abbrev pub min_total_supply : ℤ
min_total_supply = pos 1000000000

-- A pointer that is followed without a test.
abbrev pub followed {ℓ} : {A : Type ℓ} → Option A → Op A
followed none = crash
followed (some a) = pure a

abbrev pub white : ℤ → List BybBalance
white value = record { chromo = white_chromo; value = value } ∷ []

module _ (J : StateJson) (B : BybJson) where
  -- The end of `checkBybToken`: the contract of the earlier token ends with the next block.
  unfoldable pub end_contract : TokenByb → Bytes → Op (Unit {0})
  end_contract byb token_addr = do
    found ← get_contract J token_addr
    old ← followed found
    fail_if (bytes_eq (old.address) (byb.contract_address)) byb_initialized
    height ← (λ s. decoded (StateJson.decode_block_height J (s.state_db key_of_world_app_state)) s)
    set_token_contract J (record old { lose_height = (height + 1) % 2 ^ 64 })

  -- `checkBybToken`
  unfoldable pub check_byb_token : TokenByb → Op (Unit {0})
  unfolding end_contract
  check_byb_token byb = do
    addr₁ ← get_token_addr_by_name J byb_name
    addr₂ ← get_token_addr_by_symbol J byb_name
    if is_empty addr₁ && is_empty addr₂ then pure tt else (do
      fail_if (not (bytes_eq addr₁ addr₂)) byb_initialized
      found ← get_token J addr₁
      token ← followed found
      fail_if (not (bytes_eq (token.owner) (byb.sender))) byb_initialized
      fail_if (not (eqb_ℤ (token.total_supply) (pos 0))) byb_initialized
      end_contract byb (token.address))

  -- `initBybToken`
  unfoldable pub init_byb_token : TokenByb → ℤ → Bool → Bool → Op (List BybReceipt)
  init_byb_token byb total_supply add_supply_enabled burn_enabled = do
    found ← get_contract J (byb.contract_address)
    contract ← followed found
    base ← get_base_gas_price J
    let token : IssueToken = record {
      address = contract.address;
      owner = byb.owner;
      version = contract.version;
      name = byb_name;
      symbol = byb_name;
      total_supply = total_supply;
      add_supply_enabled = add_supply_enabled;
      burn_enabled = burn_enabled;
      gas_price = base;
    }
    set_token J token
    set_byb_balance J B byb (byb.contract_acct) (white total_supply)
    pure (
        new_token_receipt token (byb.contract_acct)
        ∷ on_transfer byb [] (byb.contract_acct) (white total_supply))

  -- `Init`
  unfoldable pub init : TokenByb → ℤ → Bool → Bool → Op (List BybReceipt)
  unfolding check_byb_token init_byb_token
  init byb total_supply add_supply_enabled burn_enabled = do
    fail_if (not (bytes_eq (byb.sender) (byb.owner))) no_authorization
    fail_if (ltb_ℤ total_supply min_total_supply) invalid_supply
    check_byb_token byb
    init_byb_token byb total_supply add_supply_enabled burn_enabled

  -- `setOwner`; an error of `DeleteContractAddr` is not reported.
  unfoldable pub change_owner : TokenByb → Bytes → Op (Unit {0})
  change_owner byb new_owner_addr = do
    found ← get_contract J (byb.contract_address)
    contract ← required invalid_addr found
    set_token_contract J (record contract { owner = new_owner_addr })
    ignore_error tt (delete_contract_addr J (byb.owner) (contract.address))
    stored ← get_db_token J B (byb.contract_address)
    token ← required invalid_addr stored
    set_token J (record token { owner = new_owner_addr })

  -- `SetOwner`
  unfoldable pub set_owner : TokenByb → Bytes → Op (List BybReceipt)
  unfolding change_owner
  set_owner byb new_owner_addr = do
    fail_if (not (bytes_eq (byb.sender) (byb.owner))) no_authorization
    fail_if (bytes_eq new_owner_addr (byb.owner)) unsupport_trans_to_self
    role ← check_address J B byb new_owner_addr
    fail_if (not (is_user role)) invalid_parameter
    change_owner byb new_owner_addr
    pure (set_owner_receipt (byb.contract_address) new_owner_addr ∷ [])

  -- `addSupply`
  unfoldable pub raise_supply : TokenByb → ℤ → Op (ℤ × List BybReceipt)
  raise_supply byb value = do
    found ← get_token J (byb.contract_addr)
    token ← required invalid_addr found
    fail_if (not (token.add_supply_enabled)) unsupport_add_supply
    let new_supply = token.total_supply +ℤ value
    fail_if (ltb_ℤ new_supply (token.total_supply)) invalid_supply
    set_token J (record token { total_supply = new_supply })
    owner_byb ← get_byb_balance J B (byb.contract_acct)
    set_first (λ item. item.value +ℤ value) (set_byb_balance J B byb (byb.contract_acct)) owner_byb
    pure (new_supply, on_transfer byb [] (byb.contract_acct) (white value))

  -- `AddSupply`
  unfoldable pub add_supply : TokenByb → ℤ → Op (List BybReceipt)
  unfolding raise_supply
  add_supply byb value = do
    fail_if (leb_ℤ value (pos 0)) invalid_parameter
    fail_if (not (bytes_eq (byb.sender) (byb.owner))) no_authorization
    raised ← raise_supply byb value
    pure (raised.1 ++ add_supply_receipt (byb.contract_address) value (raised.0) ∷ [])

  -- The owner's part of `burn`, on the account's first entry.
  unfoldable pub burn_from : TokenByb → ℤ → List BybBalance → Op (Unit {0})
  burn_from byb value [] = crash
  burn_from byb value (item ∷ items) = do
    fail_if (ltb_ℤ (item.value) value) insufficient_balance
    let new_balance = item.value -ℤ value
    fail_if (leb_ℤ (item.value) new_balance) invalid_balance
    set_byb_balance J B byb (byb.contract_acct) (record item { value = new_balance } ∷ items)

  -- `burn`
  unfoldable pub lower_supply : TokenByb → ℤ → Op (ℤ × List BybReceipt)
  unfolding burn_from
  lower_supply byb value = do
    found ← get_token J (byb.contract_addr)
    token ← required invalid_addr found
    fail_if (not (token.burn_enabled)) unsupport_burn
    fail_if (ltb_ℤ (token.total_supply) value) insufficient_balance
    owner_byb ← get_byb_balance J B (byb.contract_acct)
    burn_from byb value owner_byb
    let new_supply = token.total_supply -ℤ value
    fail_if (leb_ℤ (token.total_supply) new_supply) invalid_supply
    set_token J (record token { total_supply = new_supply })
    pure (new_supply, on_transfer byb (byb.contract_acct) [] (white value))

  -- `Burn`
  unfoldable pub burn : TokenByb → ℤ → Op (List BybReceipt)
  unfolding lower_supply
  burn byb value = do
    fail_if (leb_ℤ value (pos 0)) invalid_parameter
    fail_if (not (bytes_eq (byb.sender) (byb.owner))) no_authorization
    lowered ← lower_supply byb value
    pure (lowered.1 ++ burn_receipt (byb.contract_address) value (lowered.0) ∷ [])

  -- `SetGasPrice`, with `setGasPrice`
  unfoldable pub set_gas_price : TokenByb → ℕ → Op (List BybReceipt)
  set_gas_price byb value = do
    fail_if (not (bytes_eq (byb.sender) (byb.owner))) no_authorization
    base ← get_base_gas_price J
    fail_if (ltb value base || ltb max_gas_price value) invalid_gas_price
    found ← get_token J (byb.contract_addr)
    token ← required invalid_addr found
    set_token J (record token { gas_price = value })
    pure (set_gas_price_receipt (byb.contract_address) value ∷ [])
