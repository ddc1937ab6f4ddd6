-- ===== src/App.antt =====
-- abciapp/app/application.go: the dispatch of the calls from Tendermint to the two versions of the
-- application, and the chain version that it goes by. The versions' own services are an argument.
-- Proofs are in the children.
pub mod Versions
pub mod Genesis
pub mod Dispatch
pub mod Upgrades
mod Tests
use bcbchain.Base.{
  Bytes, codes, bytes_eq, is_empty, ℕ, Bool, true, false, not, ◌&&◌, ◌||◌, Option, none, some, List,
  [], ◌∷◌, ◌==◌, length, get_elem?, if◌then◌else◌, Outcome, returned, panicked, ◌>>=◌, ◌>>◌,
  panic_if,
}
use bcbchain.Base.Int.{ℤ, pos, eqb_ℤ}
use bcbchain.Helper.{or_panic}

-- `strings.Split` at a byte.
unfoldable pub split_at : ℕ → Bytes → List Bytes
split_at sep [] = [] ∷ []
split_at sep (c ∷ s) = elim (split_at sep s) [
  | [] ↦ []
  | ◌∷◌ part parts ↦ if c == sep then [] ∷ part ∷ parts else (c ∷ part) ∷ parts
]

-- The answers to a transaction and at the end of a block, the fields that are not used here in one.
pub record TxAnswer : Type 0 where
  pub code : ℕ
  pub log : Bytes
  pub tx_hash : Bytes
  pub rest : Bytes

pub record EndAnswer : Type 0 where
  pub chain_version : ℤ
  pub rest : Bytes

-- What the application calls, over a store that holds all of its state: the checks and deliveries
-- of both versions, where a version 1 transaction is told whether the chain is upgraded.
pub record Services (S : Type 0) : Type 0 where
  pub err_logic : ℕ
  pub calc_code_hash : Bytes → Bytes
  pub check_v1 : Bytes → Bool → S → Outcome (TxAnswer × S)
  pub check_v2 : Bytes → S → Outcome (TxAnswer × S)
  pub deliver_v1 : Bytes → Bool → S → Outcome (TxAnswer × S)
  pub deliver_v2 : Bytes → S → Outcome (TxAnswer × S)
  pub new_v1 : S → Outcome S
  pub init_v1 : Bytes → S → Outcome (Bytes × S)
  pub init_v2 : Bytes → S → Outcome (Bytes × S)
  pub begin_v1 : Bytes → S → Outcome (Bytes × S)
  pub begin_v1_to_v2 : Bytes → S → Outcome (Bytes × S)
  pub begin_v2 : Bytes → S → Outcome (Bytes × S)
  pub end_v1 : Bytes → S → Outcome (EndAnswer × S)
  pub end_v2 : Bytes → S → Outcome (EndAnswer × S)
  pub commit_v1 : S → Outcome (Bytes × S)
  pub commit_v2 : S → Outcome (Bytes × S)
  pub rollback_v2 : S → Outcome (Option Bytes × S)
  -- the chain version in the stored application state
  pub stored_chain_version : S → Outcome ℤ
  -- the stored version at the genesis, and its JSON
  pub genesis_value : S → Bytes
  pub decode_version : Bytes → Option ℤ

-- `BCChainApplication`; `has_v1` is `appv1 != nil`.
pub record Application (S : Type 0) : Type 0 where
  pub chain_version : Option ℤ
  pub update_chain_version : ℤ
  pub has_v1 : Bool
  pub store : S

module _ (S : Type 0) (V : Services S) where
  -- `ChainVersion`: read once and then kept.
  unfoldable pub current_version : Application S → Outcome (ℤ × Application S)
  current_version app = elim (app.chain_version) [
    | some v ↦ returned (v, app)
    | none ↦ V.stored_chain_version (app.store) >>= λ v.
        returned (v, record app { chain_version = some v })
  ]

  -- `checkGenesisChainVersion`
  unfoldable pub genesis_version : S → Outcome ℤ
  genesis_version s =
      if is_empty (V.genesis_value s)
      then returned (pos 0)
      else (or_panic (V.decode_version (V.genesis_value s)) >>= λ v.
          if eqb_ℤ v (pos 0) || eqb_ℤ v (pos 2) then returned v else panicked)

  -- A call of a service on the store.
  abbrev pub on_store :
      {A : Type 0} → (S → Outcome (A × S)) → Application S → Outcome (A × Application S)
  on_store f app = do
    (answer, store) ← f (app.store)
    returned (answer, record app { store = store })

  -- A call of a method of `appv1`, which may be nil.
  abbrev pub on_v1 :
      {A : Type 0} → (S → Outcome (A × S)) → Application S → Outcome (A × Application S)
  on_v1 f app = panic_if (not (app.has_v1)) >> on_store f app

  abbrev pub refusal : Bytes → TxAnswer
  refusal log = record { code = V.err_logic; log = log; tx_hash = []; rest = [] }

  -- The branches of `CheckTx` and `DeliverTx`, by the second part of the transaction.
  unfoldable pub dispatch :
      (Bool → S → Outcome (TxAnswer × S))
      → (S → Outcome (TxAnswer × S))
      → Bytes
      → Bytes
      → Application S
      → Outcome (TxAnswer × Application S)
  unfolding current_version
  dispatch to_v1 to_v2 log part app =
      if bytes_eq part (codes "v1") && app.has_v1
      then (do (version, app') ← current_version app; on_store (to_v1 (eqb_ℤ version (pos 2))) app')
      else if bytes_eq part (codes "v2") || bytes_eq part (codes "v3")
      then (do
        (version, app') ← current_version app
        if eqb_ℤ version (pos 2) then on_store to_v2 app' else returned (refusal log, app'))
      else returned (refusal log, app)

  -- A transaction has five parts.
  unfoldable pub dispatch_parts :
      (Bool → S → Outcome (TxAnswer × S))
      → (S → Outcome (TxAnswer × S))
      → Bytes
      → Bytes
      → List Bytes
      → Application S
      → Outcome (TxAnswer × Application S)
  unfolding dispatch
  dispatch_parts to_v1 to_v2 log wrong_length [] app = returned (refusal wrong_length, app)
  dispatch_parts to_v1 to_v2 log wrong_length (first ∷ parts) app =
      if length parts == 4
      then (or_panic (get_elem? parts 0) >>= λ part. dispatch to_v1 to_v2 log part app)
      else returned (refusal wrong_length, app)

  -- `CheckTx` and `DeliverTx` up to their services; the answer gets the hash of the text.
  unfoldable pub dispatch_tx :
      (Bool → S → Outcome (TxAnswer × S))
      → (S → Outcome (TxAnswer × S))
      → Bytes
      → Bytes
      → Bytes
      → Application S
      → Outcome (TxAnswer × Application S)
  unfolding split_at dispatch_parts
  dispatch_tx to_v1 to_v2 log wrong_length tx app = do
    (answer, app') ← dispatch_parts to_v1 to_v2 log wrong_length (split_at 46 tx) app
    returned (record answer { tx_hash = V.calc_code_hash tx }, app')

  -- `CheckTx` and `DeliverTx`
  unfoldable pub check_tx : Bytes → Application S → Outcome (TxAnswer × Application S)
  unfolding dispatch_tx
  check_tx tx =
      dispatch_tx (V.check_v1 tx) (V.check_v2 tx) (codes "invalid transaction 1")
        (codes "invalid transaction 2") tx

  unfoldable pub deliver_tx : Bytes → Application S → Outcome (TxAnswer × Application S)
  unfolding dispatch_tx
  deliver_tx tx =
      dispatch_tx (V.deliver_v1 tx) (V.deliver_v2 tx) (codes "invalid transaction")
        (codes "invalid transaction") tx

  -- A call by the chain version; others than 0 and 2 are a panic.
  abbrev pub by_version :
      {A : Type 0}
      → (Application S → Outcome (A × Application S))
      → (Application S → Outcome (A × Application S))
      → Application S
      → Outcome (A × Application S)
  by_version to_v1 to_v2 app = do
    (version, app') ← current_version app
    if eqb_ℤ version (pos 0)
        then to_v1 app'
        else if eqb_ℤ version (pos 2)
        then to_v2 app'
        else panicked

  -- A version that was announced by the end of a block holds from its commit on.
  unfoldable pub apply_update : Application S → Application S
  apply_update app = if eqb_ℤ (app.update_chain_version) (pos 0) then app else record app {
    chain_version = some (app.update_chain_version);
    update_chain_version = pos 0;
  }

  -- `Commit`
  unfoldable pub commit : Application S → Outcome (Bytes × Application S)
  unfolding current_version apply_update
  commit app = do
    (answer, app') ← by_version (on_v1 (V.commit_v1)) (on_store (V.commit_v2)) app
    returned (answer, apply_update app')

  -- `BeginBlock`: on an upgraded chain version 1 is told first.
  unfoldable pub begin_v2 : Bytes → Application S → Outcome (Bytes × Application S)
  unfolding genesis_version
  begin_v2 req app = do
    genesis ← genesis_version (app.store)
    (ignored, app') ←
        (if eqb_ℤ genesis (pos 0) then on_v1 (V.begin_v1_to_v2 req) app else returned ([], app))
    on_store (V.begin_v2 req) app'

  unfoldable pub begin_block : Bytes → Application S → Outcome (Bytes × Application S)
  unfolding current_version begin_v2
  begin_block req = by_version (on_v1 (V.begin_v1 req)) (begin_v2 req)

  -- The version in the answer to the end of a block is kept if it is another one.
  unfoldable pub announce : ℤ → Application S → Application S
  announce version app = elim (app.chain_version) [
    | none ↦ app
    | some v ↦ if eqb_ℤ v version then app else record app { update_chain_version = version }
  ]

  -- `EndBlock`
  unfoldable pub end_block : Bytes → Application S → Outcome (EndAnswer × Application S)
  unfolding current_version announce
  end_block req app = do
    (answer, app') ← by_version (on_v1 (V.end_v1 req)) (on_store (V.end_v2 req)) app
    returned (answer, announce (answer.chain_version) app')

  -- `InitChain`, from the version in the request: version 2 does without version 1.
  unfoldable pub init_chain : ℤ → Bytes → Application S → Outcome (Option Bytes × Application S)
  init_chain version req app =
      if eqb_ℤ version (pos 0)
      then (do
        app₁ ←
            (if app.has_v1
              then returned app
              else (V.new_v1 (app.store) >>= λ s.
                  returned (record app { has_v1 = true; store = s })))
        (answer, app₂) ← on_store (V.init_v1 req) app₁
        returned (some answer, app₂))
      else if eqb_ℤ version (pos 2)
      then (do
        (answer, app₁) ← on_store (V.init_v2 req) app
        returned (some answer, record app₁ { has_v1 = false }))
      else returned (none, app)

  -- `Rollback`: the chain version in the application is not read again.
  unfoldable pub rollback : Application S → Outcome (Option Bytes × Application S)
  rollback = on_store (V.rollback_v2)
