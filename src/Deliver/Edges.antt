-- ===== src/Deliver/Edges.antt =====
-- abciapp/service/deliver/begin_block.go and commit.go: the edges of a block. `initOrUpdateSMC` is in
-- Deliver.Turns, and the adapter's Commit, which leaves the program, is left out.
pub mod Opening
pub mod Sealing
mod Tests
use bcbchain.Base.{
  Bytes, codes, is_empty, ℕ, suc, ◌+◌, Bool, true, false, not, Option, none, some, List, [], ◌∷◌,
  ◌++◌, map, ◌==◌, if◌then◌else◌, Outcome, returned, panicked, ◌>>=◌, ◌>>◌, panic_if, ◌≡◌,
}
use bcbchain.Base.Sort.{sort_strings}
use bcbchain.Base.Int.{ℤ, pos}
use bcbchain.Db.{LevelDb, Json}
use bcbchain.Helper
use bcbchain.Helper.{
  Helper, or_panic, new_committable_transaction_id, new_tx, commit_tx, commit_block,
}
use bcbchain.Helper.Accounts.{AccountJson}
use bcbchain.V1.Keys.{key_of_world_app_state}
use bcbchain.Deliver.{AppDeliver, Receipts}
use bcbchain.Deliver.Types.{
  Header, RequestBeginBlock, AppState, Node, BlockDeliver, to_uint64, concat,
}
use bcbchain.Deliver.Blocks.{reward_pairs, with_helper}

-- `&abci.AppState{}`
abbrev pub no_app_state : AppState
no_app_state = record {
  block_height = 0;
  app_hash = [];
  txs_hash_list = [];
  rewards = [];
  fee = 0;
  chain_version = pos 0;
  begin_block = none;
}

module _ (E : LevelDb) (J : Json) (A : AccountJson) (R : Receipts) (V G : Type 0)
    (N : Node E V G) where
  open N use {sha3, encode_app_state, decode_app_state}

  -- `GetWorldAppState`
  unfoldable pub get_world_app_state : ℤ → ℕ → Helper E → Outcome AppState
  get_world_app_state trans_id tx_id h = do
    value ← Helper.get E J trans_id tx_id key_of_world_app_state h
    if is_empty value then returned no_app_state else or_panic (decode_app_state value)

  -- `SetWorldAppState`
  unfoldable pub set_world_app_state : ℤ → ℕ → AppState → Helper E → Outcome (Helper E)
  set_world_app_state trans_id tx_id app_state =
      Helper.set E J trans_id tx_id key_of_world_app_state (encode_app_state app_state)

  -- `getAndVerifyAppState`: the state that the last block left, if the header follows it.
  unfoldable pub verified_app_state : ℤ → ℕ → Header → Helper E → Outcome AppState
  unfolding get_world_app_state
  verified_app_state trans_id tx_id header h = do
    state ← get_world_app_state trans_id tx_id h
    panic_if (not (header.height == state.block_height + 1))
    panic_if (not (Node.equal_fold N (header.last_app_hash) (state.app_hash)))
    returned state

  -- `BCBeginBlock` up to its calls of contracts.
  unfoldable pub open_block : RequestBeginBlock → BlockDeliver E V G → Outcome (BlockDeliver E V G)
  unfolding verified_app_state
  open_block req app = do
    (trans_id, h₁) ← new_committable_transaction_id E J (app.fees.helper)
    (tx_id, h₂) ← new_tx E J trans_id h₁
    state ← verified_app_state trans_id tx_id (req.header) h₂
    returned (record app {
      fees = record (app.fees) {
        trans_id = trans_id;
        tx_id = tx_id;
        rewarder = req.header.reward_address;
        reward_strategy = Node.reward_strategy N h₂ trans_id tx_id (req.header.height);
        rewards = [];
        helper = h₂;
      };
      block_hash = req.hash;
      block_header = req.header;
      app_state = record state { block_height = req.header.height; begin_block = some req };
      hash_list = [];
      sponser = req.header.proposer_address;
      fee = pos 0;
    })

  -- `commitBlock`
  unfoldable pub commit_app_block : BlockDeliver E V G → Outcome (BlockDeliver E V G)
  unfolding set_world_app_state
  commit_app_block app = do
    let trans_id = app.fees.trans_id
    h₁ ← set_world_app_state trans_id (app.fees.tx_id) (app.app_state) (app.fees.helper)
    committed ← commit_tx E J trans_id (app.fees.tx_id) h₁
    h₂ ← commit_block E J trans_id (committed.1)
    returned (record app { fees = record (app.fees) { rewarder = []; helper = h₂ }; sponser = [] })

  -- The application state of a block with transactions: the new application hash covers the last one
  -- and the hash of the block's hashes.
  unfoldable pub sealed_state : BlockDeliver E V G → AppState
  unfolding reward_pairs to_uint64 concat
  sealed_state app = record (app.app_state) {
    app_hash = sha3 (app.app_state.app_hash ++ sha3 (concat (app.hash_list)));
    txs_hash_list = app.hash_list;
    rewards =
        reward_pairs E J A R V G N (app.fees.rewards)
          (sort_strings (map (λ e. e.0) (app.fees.rewards)));
    fee = to_uint64 (app.fee);
  }

  -- `commit`, with the state in its response; `commitEmptyBlock` for a block without hashes.
  unfoldable pub commit : BlockDeliver E V G → Outcome (AppState × BlockDeliver E V G)
  unfolding commit_app_block sealed_state
  commit app =
      if is_empty (app.hash_list)
      then (do
        app' ← commit_app_block app
        returned (
          record no_app_state {
            block_height = app.app_state.block_height;
            app_hash = app.app_state.app_hash;
          },
          app',
        ))
      else (do
        app' ← commit_app_block (record app { app_state = sealed_state app })
        returned (sealed_state app, app'))
