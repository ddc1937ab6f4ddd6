-- ===== src/Deliver/Turns.antt =====
-- abciapp/service/deliver: the contracts that have their turn at the edges of a block,
-- `initOrUpdateSMC` and `BCBeginBlock` of begin_block.go, `mine` of end_block.go and `EndBlock` of
-- deliver.go.
pub mod Adding
use bcbchain.Base.{
  Bytes, GoMap, codes, bytes_eq, is_empty, ℕ, Bool, true, false, not, ◌&&◌, Option, none, some,
  List, [], ◌∷◌, ◌++◌, ◌==◌, if◌then◌else◌, Outcome, returned, panicked, ◌>>=◌,
}
use bcbchain.Base.Int.{ℤ, pos, ltb_ℤ, eqb_ℤ}
use bcbchain.Base.Decimal.{decimal}
use bcbchain.Db.{LevelDb, Json}
use bcbchain.Statedb.Database
use bcbchain.Helper
use bcbchain.Helper.{Helper, or_panic, new_tx}
use bcbchain.Helper.Accounts.{AccountJson}
use bcbchain.Deliver.{Receipts}
use bcbchain.Deliver.Types.{Header, RequestBeginBlock, Response, Invocation, Node, BlockDeliver}
use bcbchain.Deliver.Blocks.{with_helper, apply_writes, commit_current, calc_deliver_hash}
use bcbchain.Deliver.Edges.{open_block}
use bcbchain.Deliver.Contracts.{
  Contract, EffectiveContract, MineContract, ContractCalls, plain_response, Called, get_contract,
  get_contracts_with_height, get_mine_contract, forbid_contract, with_new_tx, call_contract,
}

-- `abci.ResponseEndBlock`
pub record ResponseEndBlock (V G : Type 0) : Type 0 where
  pub reward_amount : ℤ
  pub validator_updates : List V
  pub sc_genesis : Option G
  pub chain_version : ℤ

module _ (E : LevelDb) (J : Json) (A : AccountJson) (R : Receipts) (V G : Type 0) (N : Node E V G)
    (C : ContractCalls E) where
  -- The loop of `initOrUpdateSMC`, from the last call's answer and buffer.
  unfoldable pub init_loop :
      List EffectiveContract
      → Response × GoMap Bytes
      → BlockDeliver E V G
      → Outcome (Called E J A R V G N C)
  unfolding with_new_tx get_contract call_contract forbid_contract
  init_loop [] last app = returned (last, app)
  init_loop (v ∷ l) last app = with_new_tx E J A R V G N C app >>= λ app₁.
      get_contract E J A R V G N C (v.contract_addr) (app₁.fees.helper) >>= λ found. elim found [
        | none ↦ returned (
          (
            plain_response (C.err_logic)
                (codes "can not get smart contract to initChain or updateChain when begin block"),
            last.1,
          ),
          app₁,
        )
        | some contract ↦
            call_contract E J A R V G N C
              (λ x.
                C.init_or_update (x.fees.helper) (x.fees.trans_id) (x.fees.tx_id) (x.block_header)
                  (v.contract_addr) (contract.owner) (v.is_upgrade))
              (λ x.
                forbid_contract E J A R V G N C (x.fees.trans_id) (x.fees.tx_id)
                  (x.block_header.height) (v.contract_addr))
              app₁
            >>= λ r. init_loop l (r.0) (r.1)
      ]

  -- `initOrUpdateSMC`
  unfoldable pub init_or_update_smc : BlockDeliver E V G → Outcome (Called E J A R V G N C)
  unfolding get_contracts_with_height init_loop
  init_or_update_smc app = do
    contracts ←
        get_contracts_with_height E J A R V G N C (app.fees.trans_id) (app.fees.tx_id)
          (app.app_state.block_height) (app.fees.helper)
    init_loop contracts (plain_response (N.code_ok) [], []) app

  -- `BCBeginBlock`: the code and log of its answer, with the buffer unless the contracts failed.
  unfoldable pub begin_block :
      RequestBeginBlock
      → BlockDeliver E V G
      → Outcome ((ℕ × Bytes × GoMap Bytes) × BlockDeliver E V G)
  unfolding init_or_update_smc
  begin_block req app = do
    opened ← open_block E J A R V G N req app
    (answer, app') ← init_or_update_smc opened
    returned (
      (if answer.0.code == N.code_ok
          then (N.code_ok, [], answer.1)
          else (answer.0.code, answer.0.log, [])),
      app',
    )

  -- The loop of `mine`; only contracts of version 2 whose height has come mine.
  unfoldable pub mine_loop :
      List MineContract
      → Response × GoMap Bytes
      → BlockDeliver E V G
      → Outcome (Called E J A R V G N C)
  unfolding with_new_tx get_contract call_contract
  mine_loop [] last app = returned (last, app)
  mine_loop (v ∷ l) last app =
      get_contract E J A R V G N C (v.address) (app.fees.helper) >>= λ found. elim found [
        | none ↦ returned (
          (
            plain_response (C.err_logic)
                (codes "can not get smart contract to call mine method when begin block"),
            last.1,
          ),
          app,
        )
        | some contract ↦
            elim (eqb_ℤ (contract.chain_version) (pos 2)
              && not (ltb_ℤ (pos (app.app_state.block_height)) (v.mine_height))) [
                | true ↦ with_new_tx E J A R V G N C app >>= λ app₁.
                    call_contract E J A R V G N C
                      (λ x.
                        C.mine_contract (x.fees.helper) (x.fees.trans_id) (x.fees.tx_id)
                          (x.block_header) (v.address) (contract.owner))
                      (λ _ h. returned h) app₁
                    >>= λ r. mine_loop l (r.0) (r.1)
                | false ↦ mine_loop l last app
              ]
      ]

  -- `mine`
  unfoldable pub mine : BlockDeliver E V G → Outcome (Called E J A R V G N C)
  unfolding get_mine_contract mine_loop
  mine app = do
    contracts ←
        get_mine_contract E J A R V G N C (app.fees.trans_id) (app.fees.tx_id) (app.fees.helper)
    mine_loop contracts (plain_response (N.code_ok) [], []) app

  -- `EndBlock`: new validators and a side chain's genesis are answered once.
  unfoldable pub end_block :
      BlockDeliver E V G → Outcome ((ResponseEndBlock V G × GoMap Bytes) × BlockDeliver E V G)
  unfolding mine
  end_block app = do
    (answer, app') ← mine app
    returned (
      (
        record {
          reward_amount =
              if answer.0.code == N.code_ok && not (is_empty (answer.0.result_data))
              then C.parse_int (answer.0.result_data)
              else pos 0;
          validator_updates = if app'.ud_validator then app'.validators else [];
          sc_genesis = app'.sc_genesis;
          chain_version = app'.app_state.chain_version;
        },
        answer.1,
      ),
      record app' {
        ud_validator = false;
        validators = if app'.ud_validator then [] else app'.validators;
        sc_genesis = none;
      },
    )
