-- ===== src/Deliver/Contracts.antt =====
-- abciapp/service/deliver: a call of one contract at the edges of a block, and `forbidContract` of
-- begin_block.go, with what they read and write through common/statedbhelper. Proofs are in the
-- children.
pub mod Growth
use bcbchain.Base.{
  Bytes, GoMap, codes, bytes_eq, is_empty, ℕ, Bool, true, false, not, ◌&&◌, Option, none, some,
  List, [], ◌∷◌, ◌++◌, ◌==◌, if◌then◌else◌, Outcome, returned, panicked, ◌>>=◌,
}
use bcbchain.Base.Int.{ℤ, pos, ltb_ℤ, eqb_ℤ}
use bcbchain.Base.Decimal.{decimal}
use bcbchain.Db.{LevelDb, Json}
use bcbchain.Statedb.Database
use bcbchain.Helper
use bcbchain.Helper.{Helper, or_panic, new_tx}
use bcbchain.Helper.Accounts.{AccountJson}
use bcbchain.Deliver.{Receipts}
use bcbchain.Deliver.Types.{Header, RequestBeginBlock, Response, Invocation, Node, BlockDeliver}
use bcbchain.Deliver.Blocks.{with_helper, apply_writes, commit_current, calc_deliver_hash}
use bcbchain.Deliver.Edges.{open_block}

-- `std.Contract`, the fields that are not used in one
pub record Contract : Type 0 where
  pub address : Bytes
  pub owner : Bytes
  pub chain_version : ℤ
  pub lose_height : ℕ
  pub rest : Bytes

-- `std.ContractWithEffectHeight`
pub record EffectiveContract : Type 0 where
  pub contract_addr : Bytes
  pub is_upgrade : Bool

-- `std.MineContract`
pub record MineContract : Type 0 where
  pub address : Bytes
  pub mine_height : ℤ

-- The adapter's calls of contracts, with what they have written by their answer, and the JSON, keys,
-- numbers and codes of other packages.
pub record ContractCalls (E : LevelDb) : Type 0 where
  pub err_logic : ℕ
  pub init_or_update : Helper E → ℤ → ℕ → Header → Bytes → Bytes → Bool → Invocation
  pub mine_contract : Helper E → ℤ → ℕ → Header → Bytes → Bytes → Invocation
  -- the key of the sdk, under which the contracts that mine are read
  pub std_key_of_mine_contracts : Bytes
  pub decode_contract : Bytes → Option Contract
  pub encode_contract : Contract → Bytes
  pub decode_effective : Bytes → Option (List EffectiveContract)
  pub decode_mines : Bytes → Option (List MineContract)
  pub encode_mines : List MineContract → Bytes
  -- `strconv.ParseInt` without its error
  pub parse_int : Bytes → ℤ

-- `keyOfContract`, `keyOfContractWithHeight` and `keyOfMineContracts`
unfoldable pub key_of_contract : Bytes → Bytes
key_of_contract addr = codes "/contract/" ++ addr

unfoldable pub key_of_contract_with_height : Bytes → Bytes
key_of_contract_with_height height = codes "/" ++ height

abbrev pub key_of_mine_contracts : Bytes
key_of_mine_contracts = codes "/contract/mines"

-- The contracts that mine without the first one at an address.
unfoldable pub remove_mine : Bytes → List MineContract → List MineContract
remove_mine addr [] = []
remove_mine addr (m ∷ mines) =
    let rest = remove_mine addr mines in if bytes_eq (m.address) addr then mines else m ∷ rest

-- An answer without tags, gas or fee.
abbrev pub plain_response : ℕ → Bytes → Response
plain_response code log = record {
  code = code;
  log = log;
  result_data = [];
  tags = [];
  gas_used = pos 0;
  fee = pos 0;
}

module _ (E : LevelDb) (J : Json) (A : AccountJson) (R : Receipts) (V G : Type 0) (N : Node E V G)
    (C : ContractCalls E) where
  -- An answer with the buffer of the last commit, and the block behind it.
  abbrev pub Called : Type 0
  Called = (Response × GoMap Bytes) × BlockDeliver E V G

  -- `GetContract`
  unfoldable pub get_contract : Bytes → Helper E → Outcome (Option Contract)
  unfolding key_of_contract
  get_contract addr h =
      let value = Database.state_get E J h.state_db (key_of_contract addr) in
      if is_empty value
      then returned none
      else (or_panic (C.decode_contract value) >>= λ contract. returned (some contract))

  -- `GetContractsWithHeight`
  unfoldable pub get_contracts_with_height : ℤ → ℕ → ℕ → Helper E → Outcome (List EffectiveContract)
  unfolding key_of_contract_with_height
  get_contracts_with_height trans_id tx_id height h = do
    value ← Helper.get E J trans_id tx_id (key_of_contract_with_height (decimal height)) h
    if is_empty value then returned [] else or_panic (C.decode_effective value)

  -- `GetMineContract`
  unfoldable pub get_mine_contract : ℤ → ℕ → Helper E → Outcome (List MineContract)
  get_mine_contract trans_id tx_id h = do
    value ← Helper.get E J trans_id tx_id (C.std_key_of_mine_contracts) h
    if is_empty value then returned [] else or_panic (C.decode_mines value)

  -- The contracts that mine, as they were before the block, without a forbidden one.
  unfoldable pub forbid_mining : ℤ → ℕ → Bytes → Helper E → Outcome (Helper E)
  unfolding remove_mine
  forbid_mining trans_id tx_id addr h =
      let value = Database.state_get E J h.state_db (C.std_key_of_mine_contracts) in
      if is_empty value
      then returned h
      else (or_panic (C.decode_mines value) >>= λ mines.
          Helper.set E J trans_id tx_id key_of_mine_contracts
            (C.encode_mines (remove_mine addr mines)) h)

  -- `forbidContract`
  unfoldable pub forbid_contract : ℤ → ℕ → ℕ → Bytes → Helper E → Outcome (Helper E)
  unfolding get_contract key_of_contract forbid_mining
  forbid_contract trans_id tx_id height addr h = do
    found ← get_contract addr h
    contract ← or_panic found
    h₁ ←
        Helper.set E J trans_id tx_id (key_of_contract (contract.address))
          (C.encode_contract (record contract { lose_height = height })) h
    forbid_mining trans_id tx_id addr h₁

  -- A new `Tx` for a call of a contract.
  unfoldable pub with_new_tx : BlockDeliver E V G → Outcome (BlockDeliver E V G)
  with_new_tx app = do
    (tx_id, helper) ← new_tx E J (app.fees.trans_id) (app.fees.helper)
    returned (record app { fees = record (app.fees) { tx_id = tx_id; helper = helper } })

  -- The `Tx` of a call is committed, and its text hashed if there is one.
  unfoldable pub commit_call : BlockDeliver E V G → Outcome (GoMap Bytes × BlockDeliver E V G)
  unfolding commit_current calc_deliver_hash
  commit_call app = do
    (committed, app') ← commit_current E J A R V G N app
    returned (
      committed.1,
      (if is_empty (committed.0)
          then app'
          else calc_deliver_hash E J A R V G N none none (committed.0) app'),
    )

  -- One call of a contract in a new `Tx`: its writes, what a failure adds, and the commit.
  unfoldable pub call_contract :
      (BlockDeliver E V G → Invocation)
      → (BlockDeliver E V G → Helper E → Outcome (Helper E))
      → BlockDeliver E V G
      → Outcome Called
  unfolding commit_call
  call_contract invoke on_failure app = do
    let done = invoke app
    app₁ ←
        with_helper E J A R V G N
          (apply_writes E J A R V G N (app.fees.trans_id) (app.fees.tx_id) (done.writes)) app
    app₂ ←
        (if done.response.code == N.code_ok
          then returned app₁
          else with_helper E J A R V G N (on_failure app₁) app₁)
    (buffer, app₃) ← commit_call app₂
    returned ((record (done.response) { code = N.code_ok }, buffer), app₃)
