-- ===== src/Deliver/Turns/Adding.antt =====
-- The contracts that have their turn at the edges of a block in abciapp/service/deliver only add
-- hashes to it.
use bcbchain.Base.{
  ℕ, suc, length, arith, carried, Bytes, GoMap, not, ◌&&◌, List, [], ◌∷◌, ◌≡◌, refl, Outcome,
  returned, >>=-eq-returned, Option-cases, Bool-cases, inl, inr,
}
use bcbchain.Base.Int.{pos, ltb_ℤ, eqb_ℤ}
use bcbchain.Db.{LevelDb, Json}
use bcbchain.Helper.{Helper}
use bcbchain.Helper.Accounts.{AccountJson}
use bcbchain.Deliver.{Receipts}
use bcbchain.Deliver.Types.{Response, Invocation, Node, BlockDeliver}
use bcbchain.Deliver.Contracts.{
  EffectiveContract, MineContract, plain_response, ContractCalls, get_contract,
  get_contracts_with_height, get_mine_contract, forbid_contract, with_new_tx, call_contract,
}
use bcbchain.Deliver.Contracts.Growth.{
  Grows, Keeps-Grows, Grows-trans, Grows-same, with_new_tx-Keeps, call_contract-Grows,
}
use bcbchain.Deliver.Turns.{
  init_loop, init_or_update_smc, mine_loop, mine, ResponseEndBlock, end_block,
}

module _ (E : LevelDb) (J : Json) (A : AccountJson) (R : Receipts) (V G : Type 0) (N : Node E V G)
    (C : ContractCalls E) where
  -- A call, and at most as many hashes as there are contracts behind it.
  one_more :
      (n : ℕ) (app app₁ app' : BlockDeliver E V G)
      → Grows E J A R V G N C 1 app app₁
      → Grows E J A R V G N C n app₁ app'
      → Grows E J A R V G N C (suc n) app app'
  one_more n app app₁ app' first (l, few, r, s) =
      let (k, few', p, q) = Grows-trans E J A R V G N C 1 n app app₁ app' first (l, few, r, s) in
      (k, omega arith, p, q)

  one_less :
      (n : ℕ) (app app' : BlockDeliver E V G)
      → Grows E J A R V G N C n app app'
      → Grows E J A R V G N C (suc n) app app'
  one_less n app app' (l, few, r, s) = (l, omega arith, r, s)

  init_loop-Grows :
      (l : List EffectiveContract) (last : Response × GoMap Bytes) (app app' : BlockDeliver E V G)
      {r : Response × GoMap Bytes}
      → init_loop E J A R V G N C l last app ≡ returned (r, app')
      → Grows E J A R V G N C (length l) app app'
  unfolding init_loop
  init_loop-Grows [] last app app' run =
      carried (Grows E J A R V G N C 0 app) run (Grows-same E J A R V G N C 0 app app (refl, refl))
  init_loop-Grows (v ∷ l) last app app' run =
      let (app₁, e₁, r₁) = >>=-eq-returned (with_new_tx E J A R V G N C app) _ run in
      let (found, e₂, r₂) =
        >>=-eq-returned (get_contract E J A R V G N C (v.contract_addr) (app₁.fees.helper)) _ r₁ in
      Keeps-Grows E J A R V G N C (suc (length l)) app app₁ app'
        (with_new_tx-Keeps E J A R V G N C app app₁ e₁)
        (elim (Option-cases found) [
          | inl missing ↦
              carried (Grows E J A R V G N C (suc (length l)) app₁) (rw missing at r₂)
                (Grows-same E J A R V G N C (suc (length l)) app₁ app₁ (refl, refl))
          | inr (contract, e) ↦
              let invoke : BlockDeliver E V G → Invocation = λ x.
                C.init_or_update (x.fees.helper) (x.fees.trans_id) (x.fees.tx_id) (x.block_header)
                  (v.contract_addr) (contract.owner) (v.is_upgrade) in
              let on_failure : BlockDeliver E V G → Helper E → Outcome (Helper E) = λ x.
                forbid_contract E J A R V G N C (x.fees.trans_id) (x.fees.tx_id)
                  (x.block_header.height) (v.contract_addr) in
              let ((answer, app₂), e₃, r₃) =
                >>=-eq-returned (call_contract E J A R V G N C invoke on_failure app₁) _
                  (rw e at r₂) in
              one_more (length l) app₁ app₂ app'
                (call_contract-Grows E J A R V G N C invoke on_failure app₁ app₂ e₃)
                (init_loop-Grows l answer app₂ app' r₃)
        ])

  pub init_or_update_smc-Grows :
      (app app' : BlockDeliver E V G) {r : Response × GoMap Bytes}
      → init_or_update_smc E J A R V G N C app ≡ returned (r, app')
      → (due : List EffectiveContract) × (get_contracts_with_height E J A R V G N C
            (app.fees.trans_id)
            (app.fees.tx_id)
            (app.app_state.block_height)
            (app.fees.helper)
          ≡ returned due)
        × Grows E J A R V G N C (length due) app app'
  unfolding init_or_update_smc
  init_or_update_smc-Grows app app' run =
      let (due, e, rest) =
        >>=-eq-returned
          (get_contracts_with_height E J A R V G N C (app.fees.trans_id) (app.fees.tx_id)
            (app.app_state.block_height) (app.fees.helper))
          _ run in
      (due, e, init_loop-Grows due (plain_response (N.code_ok) [], []) app app' rest)

  -- The call of one contract that mines, if it is due, and of those that follow.
  mine_loop-Grows :
      (l : List MineContract) (last : Response × GoMap Bytes) (app app' : BlockDeliver E V G)
      {r : Response × GoMap Bytes}
      → mine_loop E J A R V G N C l last app ≡ returned (r, app')
      → Grows E J A R V G N C (length l) app app'
  unfolding mine_loop
  mine_loop-Grows [] last app app' run =
      carried (Grows E J A R V G N C 0 app) run (Grows-same E J A R V G N C 0 app app (refl, refl))
  mine_loop-Grows (v ∷ l) last app app' run =
      let (found, e₁, r₁) =
        >>=-eq-returned (get_contract E J A R V G N C (v.address) (app.fees.helper)) _ run in
      elim (Option-cases found) [
        | inl missing ↦
            carried (Grows E J A R V G N C (suc (length l)) app) (rw missing at r₁)
              (Grows-same E J A R V G N C (suc (length l)) app app (refl, refl))
        | inr (contract, e) ↦
            elim (Bool-cases (
              eqb_ℤ (contract.chain_version) (pos 2)
              && not (ltb_ℤ (pos (app.app_state.block_height)) (v.mine_height)))) [
                | inl due ↦
                    let (app₁, e₂, r₂) =
                      >>=-eq-returned (with_new_tx E J A R V G N C app) _ (rw (e, due) at r₁) in
                    let invoke : BlockDeliver E V G → Invocation = λ x.
                      C.mine_contract (x.fees.helper) (x.fees.trans_id) (x.fees.tx_id)
                        (x.block_header) (v.address) (contract.owner) in
                    let ((answer, app₂), e₃, r₃) =
                      >>=-eq-returned
                        (call_contract E J A R V G N C invoke (λ _ h. returned h) app₁) _ r₂ in
                    Keeps-Grows E J A R V G N C (suc (length l)) app app₁ app'
                      (with_new_tx-Keeps E J A R V G N C app app₁ e₂)
                      (one_more (length l) app₁ app₂ app'
                        (call_contract-Grows E J A R V G N C invoke (λ _ h. returned h) app₁ app₂
                          e₃)
                        (mine_loop-Grows l answer app₂ app' r₃))
                | inr early ↦
                    one_less (length l) app app'
                      (mine_loop-Grows l last app app' (rw (e, early) at r₁))
              ]
      ]

  pub end_block-Grows :
      (app app' : BlockDeliver E V G) {r : ResponseEndBlock V G × GoMap Bytes}
      → end_block E J A R V G N C app ≡ returned (r, app')
      → (miners : List MineContract) × (get_mine_contract E J A R V G N C
            (app.fees.trans_id)
            (app.fees.tx_id)
            (app.fees.helper)
          ≡ returned miners)
        × Grows E J A R V G N C (length miners) app app'
  unfolding end_block mine
  end_block-Grows app app' run =
      let ((answer, app₁), e, rest) = >>=-eq-returned (mine E J A R V G N C app) _ run in
      let (miners, e₂, rest₂) =
        >>=-eq-returned
          (get_mine_contract E J A R V G N C (app.fees.trans_id) (app.fees.tx_id) (app.fees.helper))
          _ e in
      (
        miners,
        e₂,
        carried (Grows E J A R V G N C (length miners) app) rest
            (mine_loop-Grows miners (plain_response (N.code_ok) [], []) app app₁ rest₂),
      )
