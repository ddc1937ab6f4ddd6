-- ===== src/V1/State.antt =====
-- abciapp_v1.0/statedb/txstate.go: what a contract reads and
-- writes. An `error` becomes the code that abciapp_v1.0/contract/stubapi reports for it.
use bcbchain.Base.{
  Bytes, bytes_eq, bytes_lt, is_empty, ℕ, zero, suc, ◌+◌, ◌/◌, Option, none, some, List, [], ◌∷◌,
  ◌++◌, ◌==◌, ltb, if◌then◌else◌, length, take, drop,
}
use bcbchain.Base.Int.{ℤ, pos}
use bcbchain.Statedb.Tx
use bcbchain.V1.Reply.{
  low_level_error, TxState, Op, ◌>>=◌, ◌>>◌, pure, crash, ignore_error, decoded, done, failed,
  crashed,
}
use bcbchain.V1.Types.{IssueToken, Contract, RewardStrategy, StateJson}
use bcbchain.Helper.Keys.{key_of_account, key_of_account_token}
use bcbchain.V1.Keys.{
  key_of_token, key_of_token_all, key_of_token_name, key_of_token_symbol, key_of_contract,
  key_of_contract_all, key_of_account_contracts, key_of_genesis_token, key_of_reward_strategys,
  key_of_token_base_gas_price,
}

-- `TxState.Get`
unfoldable pub get : Bytes → TxState → Bytes
get key s = elim (s.tx) [
  | none ↦ s.state_db key
  | some t ↦ if is_empty (Tx.get t key) then s.state_db key else Tx.get t key
]

-- `TxState.Set`
unfoldable pub set : Bytes → Bytes → Op (Unit {0})
set key value s = elim (s.tx) [
  | none ↦ (failed low_level_error, s)
  | some t ↦ (done tt, record s { tx = some (Tx.set key value t) })
]

-- A stored value: none if nothing is stored.
unfoldable pub load {ℓ} : {A : Type ℓ} → (Bytes → Option A) → Bytes → Op (Option A)
load decode value s =
    if is_empty value then (done none, s) else (decoded (decode value) >>= λ a. pure (some a)) s

-- An element of a slice; the indices that `sort.Search` asks for are in range.
unfoldable pub key_at : ℕ → List Bytes → Bytes
key_at i [] = []
key_at zero (k ∷ keys) = k
key_at (suc i) (k ∷ keys) = key_at i keys

-- The loop of `sort.Search` of Go's standard library, from `i` to `j`; each round makes the range
-- shorter, so that its length is fuel enough.
unfoldable pub search_loop : ℕ → List Bytes → Bytes → ℕ → ℕ → ℕ
search_loop zero keys x i j = i
search_loop (suc fuel) keys x i j =
    let h = (i + j) / 2 in
    let less = bytes_lt (key_at h keys) x in
    let rest = search_loop fuel keys x (if less then h + 1 else i) (if less then j else h) in
    if ltb i j then rest else i

-- `sort.SearchStrings` of Go's standard library
unfoldable pub search_strings : List Bytes → Bytes → ℕ
search_strings keys x = search_loop (length keys) keys x 0 (length keys)

-- The list that `addChildKey` stores, none if the key is in it.
unfoldable pub with_child_key : List Bytes → Bytes → Option (List Bytes)
unfolding search_strings key_at
with_child_key keys child =
    let index = search_strings keys child in
    if index == length keys
    then some (keys ++ child ∷ [])
    else if bytes_eq (key_at index keys) child
    then none
    else some (take index keys ++ child ∷ drop index keys)

-- The list that `deleteChildKey` stores; an index behind the last key is a slice out of range.
unfoldable pub without_child_key : List Bytes → Bytes → Option (List Bytes)
unfolding search_strings
without_child_key keys child =
    let index = search_strings keys child in
    if ltb index (length keys) then some (take index keys ++ drop (index + 1) keys) else none

-- `GetGas` and the UDC orders are not among the operations below.
module _ (J : StateJson) where
  open J use {
    encode_balance, decode_balance, encode_keys, decode_keys, encode_token, decode_token,
    encode_contract, decode_contract, encode_address, decode_address, encode_strategys,
    decode_strategys, encode_price, decode_price,
  }

  -- `getChildKeys`
  unfoldable pub get_child_keys : Bytes → Op (List Bytes)
  get_child_keys key s =
      let value = get key s in
      if is_empty value then (done [], s) else decoded (decode_keys value) s

  -- The end of `addChildKey`: `_ = txState.Set(key, childKeysData)`, nothing for a key that is there.
  unfoldable pub store_child_keys : Bytes → Option (List Bytes) → Op (Unit {0})
  store_child_keys key none = pure tt
  store_child_keys key (some keys) = ignore_error tt (set key (encode_keys keys))

  -- `addChildKey`
  unfoldable pub add_child_key : Bytes → Bytes → Op (Unit {0})
  add_child_key key child = do
    keys ← get_child_keys key
    store_child_keys key (with_child_key keys child)

  -- `deleteChildKey`
  unfoldable pub delete_child_key : Bytes → Bytes → Op (Unit {0})
  delete_child_key key child = do
    keys ← get_child_keys key
    elim (without_child_key keys child) [
      | none ↦ crash
      | some keys' ↦ ignore_error tt (set key (encode_keys keys'))
    ]

  -- `GetBalance`
  unfoldable pub get_balance : Bytes → Bytes → Op ℤ
  get_balance ex_address token_address s =
      let value = get (key_of_account_token ex_address token_address) s in
      if is_empty value then (done (pos 0), s) else decoded (decode_balance value) s

  -- The registration of an account's first balance of a token.
  unfoldable pub register_balance : Bytes → Bytes → Op (Unit {0})
  register_balance ex_address token_address s =
      if is_empty (get (key_of_account_token ex_address token_address) s)
      then add_child_key (key_of_account ex_address) (key_of_account_token ex_address token_address)
          s
      else (done tt, s)

  -- `SetBalance`
  unfoldable pub set_balance : Bytes → Bytes → ℤ → Op (Unit {0})
  set_balance ex_address token_address value = do
    register_balance ex_address token_address
    set (key_of_account_token ex_address token_address) (encode_balance token_address value)

  -- `GetToken`
  unfoldable pub get_token : Bytes → Op (Option IssueToken)
  get_token token_addr s = load decode_token (get (key_of_token token_addr) s) s

  -- `GetGenesisToken`
  unfoldable pub get_genesis_token : Op (Option IssueToken)
  get_genesis_token s = load decode_token (get key_of_genesis_token s) s

  -- `SetToken`
  unfoldable pub set_token : IssueToken → Op (Unit {0})
  set_token issue_token = do
    set (key_of_token (issue_token.address)) (encode_token issue_token)
    add_child_key key_of_token_all (issue_token.address)
    set (key_of_token_name (issue_token.name)) (encode_address (issue_token.address))
    set (key_of_token_symbol (issue_token.symbol)) (encode_address (issue_token.address))

  -- `SetTokenContract`
  unfoldable pub set_token_contract : Contract → Op (Unit {0})
  set_token_contract contract = do
    set (key_of_contract (contract.address)) (encode_contract contract)
    add_child_key key_of_contract_all (contract.address)
    add_child_key (key_of_account_contracts (contract.owner)) (contract.address)
    add_child_key (key_of_account (contract.owner)) (key_of_account_contracts (contract.owner))

  -- `StateDB.GetContract`: it does not look at the Tx.
  unfoldable pub get_contract : Bytes → Op (Option Contract)
  get_contract contract_addr s = load decode_contract (s.state_db (key_of_contract contract_addr)) s

  -- `SetStrategys`
  unfoldable pub set_strategys : List RewardStrategy → Op (Unit {0})
  set_strategys strategys = set key_of_reward_strategys (encode_strategys strategys)

  -- `GetStrategys`
  unfoldable pub get_strategys : Op (List RewardStrategy)
  get_strategys s =
      let value = get key_of_reward_strategys s in
      if is_empty value then (done [], s) else decoded (decode_strategys value) s

  -- `DeleteContractAddr`
  unfoldable pub delete_contract_addr : Bytes → Bytes → Op (Unit {0})
  delete_contract_addr ex_address contract_addr =
      delete_child_key (key_of_account_contracts ex_address) contract_addr

  -- `GetTokenAddrByName` and `GetTokenAddrBySymbol`
  unfoldable pub get_token_addr_by_name : Bytes → Op Bytes
  get_token_addr_by_name name s =
      let value = get (key_of_token_name name) s in
      if is_empty value then (done [], s) else decoded (decode_address value) s

  unfoldable pub get_token_addr_by_symbol : Bytes → Op Bytes
  get_token_addr_by_symbol symbol s =
      let value = get (key_of_token_symbol symbol) s in
      if is_empty value then (done [], s) else decoded (decode_address value) s

  -- `SetBaseGasPrice`
  unfoldable pub set_base_gas_price : ℕ → Op (Unit {0})
  set_base_gas_price gas_price = set key_of_token_base_gas_price (encode_price gas_price)

  -- `GetBaseGasPrice` panics where there is no price.
  unfoldable pub get_base_gas_price : Op ℕ
  get_base_gas_price s =
      let value = get key_of_token_base_gas_price s in
      if is_empty value
      then (crashed, s)
      else elim (decode_price value) [ none ↦ (crashed, s) | some price ↦ (done price, s) ]
