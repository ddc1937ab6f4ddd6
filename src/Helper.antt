-- ===== src/Helper.antt =====
-- common/statedbhelper/statedbhelper.go over statedb/: the open transactions by their ids, the
-- transactions' `Tx` by theirs, and the reads and writes of a `Tx`. Proofs are in the children.
pub mod Keys
pub mod Reads
pub mod Accounts
pub mod Sample
mod Tests
use bcbchain.Base.{
  Bytes, GoMap, is_empty, ℕ, zero, suc, ◌+◌, Bool, true, false, Option, none, some, List, [], ◌∷◌,
  ◌==◌, if◌then◌else◌, Outcome, returned, panicked, ◌>>=◌, ◌>>◌,
}
use bcbchain.Base.Int.{ℤ, pos, negsuc, eqb_ℤ}
use bcbchain.Db.{LevelDb, Json}
use bcbchain.Statedb.Tx
use bcbchain.Statedb.Tx.{Tx}
use bcbchain.Statedb.Database
use bcbchain.Statedb.Database.{Transaction, StateDb}

-- `TxMap`
abbrev pub TxMap : Type 0
TxMap = List (ℕ × Tx)

unfoldable pub find_tx : ℕ → TxMap → Option Tx
find_tx id [] = none
find_tx id ((j, t) ∷ m) = if j == id then some t else find_tx id m

unfoldable pub store_tx : ℕ → Tx → TxMap → TxMap
store_tx id t [] = (id, t) ∷ []
store_tx id t ((j, u) ∷ m) = if j == id then (j, t) ∷ m else (j, u) ∷ store_tx id t m

pub record Trans : Type 0 where
  pub transaction : Transaction
  pub tx_map : TxMap

-- `transactionMap`: a sync.Map from the transactions' ids.
abbrev pub TransMap : Type 0
TransMap = List (ℤ × Trans)

unfoldable pub load : ℤ → TransMap → Option Trans
load id [] = none
load id ((j, t) ∷ m) = if eqb_ℤ j id then some t else load id m

unfoldable pub store : ℤ → Trans → TransMap → TransMap
store id t [] = (id, t) ∷ []
store id t ((j, u) ∷ m) = if eqb_ℤ j id then (j, t) ∷ m else (j, u) ∷ store id t m

unfoldable pub remove : ℤ → TransMap → TransMap
remove id [] = []
remove id ((j, t) ∷ m) = let rest = remove id m in if eqb_ℤ j id then rest else (j, t) ∷ rest

-- The package's variables; of `currentCommittableTransaction` only its id is read.
pub record Helper (E : LevelDb) : Type 0 where
  pub state_db : StateDb E
  pub transaction_map : TransMap
  pub current_committable_transaction : Option ℤ

-- A missing transaction or `Tx` is a panic.
abbrev pub or_panic {ℓ} : {A : Type ℓ} → Option A → Outcome A
or_panic none = panicked
or_panic (some a) = returned a

module _ (E : LevelDb) (J : Json) where
  -- `NewCommittableTransactionID`
  unfoldable pub new_committable_transaction_id : Helper E → Outcome (ℤ × Helper E)
  new_committable_transaction_id h = elim h.current_committable_transaction [
    | some id ↦ returned (id, h)
    | none ↦ Database.new_committable_transaction E J h.state_db >>= λ r. returned (
      Database.id r.0,
      record {
        state_db = r.1;
        transaction_map =
            store (Database.id r.0) (record { transaction = r.0; tx_map = [] }) h.transaction_map;
        current_committable_transaction = some (Database.id r.0);
      },
    )
  ]

  -- `NewRollbackTransactionID`
  unfoldable pub new_rollback_transaction_id : Helper E → ℤ × Helper E
  new_rollback_transaction_id h =
      let (t, s) = Database.new_rollback_transaction E J h.state_db in
      (
        Database.id t,
        record h {
          state_db = s;
          transaction_map =
              store (Database.id t) (record { transaction = t; tx_map = [] }) h.transaction_map;
        },
      )

  -- A change of one open transaction.
  abbrev pub with_trans : ℤ → (Trans → Outcome Trans) → Helper E → Outcome (Helper E)
  with_trans trans_id f h = do
    trans ← or_panic (load trans_id h.transaction_map)
    trans' ← f trans
    returned (record h { transaction_map = store trans_id trans' h.transaction_map })

  -- A change of one `Tx`.
  abbrev pub with_tx : ℤ → ℕ → (Tx → Tx) → Helper E → Outcome (Helper E)
  with_tx trans_id tx_id f = with_trans trans_id λ trans. do
    tx ← or_panic (find_tx tx_id trans.tx_map)
    returned (record trans { tx_map = store_tx tx_id (f tx) trans.tx_map })

  -- `NewTx`
  unfoldable pub new_tx : ℤ → Helper E → Outcome (ℕ × Helper E)
  new_tx trans_id h = do
    trans ← or_panic (load trans_id h.transaction_map)
    let (id, transaction) = Database.calc_tx_id trans.transaction
    returned (
      id,
      record h {
        transaction_map =
            store trans_id
              (record {
                transaction = transaction;
                tx_map = store_tx id (record { tx_id = id; buffer = [] }) trans.tx_map;
              })
              h.transaction_map;
      },
    )

  -- The value that a `Tx` of a transaction sees: a value of its own if it is not empty.
  unfoldable pub read : StateDb E → Trans → ℕ → Bytes → Bytes
  read s trans tx_id key = elim (find_tx tx_id trans.tx_map) [
    | none ↦ Database.get E J s trans.transaction key
    | some tx ↦
        if is_empty (Tx.get tx key) then Database.get E J s trans.transaction key else Tx.get tx key
  ]

  -- `get`
  unfoldable pub get : ℤ → ℕ → Bytes → Helper E → Outcome Bytes
  unfolding read
  get trans_id tx_id key h = elim (load trans_id h.transaction_map) [
    | none ↦
        if eqb_ℤ trans_id (pos 0)
        then returned (Database.state_get E J h.state_db key)
        else panicked
    | some trans ↦ returned (read h.state_db trans tx_id key)
  ]

  -- `set`
  unfoldable pub set : ℤ → ℕ → Bytes → Bytes → Helper E → Outcome (Helper E)
  set trans_id tx_id key value = with_tx trans_id tx_id (Tx.set key value)

  -- `batchSet`
  unfoldable pub batch_set : ℤ → ℕ → GoMap Bytes → Helper E → Outcome (Helper E)
  batch_set trans_id tx_id data' = with_tx trans_id tx_id (Tx.batch_set data')

  -- `RollbackTx`
  unfoldable pub rollback_tx : ℤ → ℕ → Helper E → Outcome (Helper E)
  rollback_tx trans_id tx_id = with_tx trans_id tx_id Tx.rollback

  -- `CommitTx`
  unfoldable pub commit_tx : ℤ → ℕ → Helper E → Outcome ((Bytes × GoMap Bytes) × Helper E)
  commit_tx trans_id tx_id h = do
    trans ← or_panic (load trans_id h.transaction_map)
    tx ← or_panic (find_tx tx_id trans.tx_map)
    let (result, tx', buffer) = Tx.commit tx trans.transaction.buffer
    returned (
      result,
      record h {
        transaction_map =
            store trans_id
              (record {
                transaction = record trans.transaction { buffer = buffer };
                tx_map = store_tx tx_id tx' trans.tx_map;
              })
              h.transaction_map;
      },
    )

  -- `CommitTx2V1`
  unfoldable pub commit_tx2_v1 : ℤ → GoMap Bytes → Helper E → Outcome (Helper E)
  commit_tx2_v1 trans_id tx_buffer = with_trans trans_id λ trans.
      returned (record trans { transaction = Database.batch_set tx_buffer trans.transaction })

  -- `CommitBlock`
  unfoldable pub commit_block : ℤ → Helper E → Outcome (Helper E)
  commit_block trans_id h = do
    trans ← or_panic (load trans_id h.transaction_map)
    s ← Database.commit E J trans.transaction h.state_db
    returned (record {
      state_db = s;
      transaction_map = remove (Database.id trans.transaction) h.transaction_map;
      current_committable_transaction = none;
    })

  -- `RollbackBlock`
  unfoldable pub rollback_block : ℤ → Helper E → Outcome (Helper E)
  rollback_block trans_id h = do
    trans ← or_panic (load trans_id h.transaction_map)
    returned (record {
      state_db = h.state_db;
      transaction_map = remove (Database.id trans.transaction) h.transaction_map;
      current_committable_transaction = elim h.current_committable_transaction [
        | none ↦ none
        | some current ↦ if eqb_ℤ current trans_id then none else some current
      ];
    })

  -- `RollbackStateDB`
  unfoldable pub rollback_state_db : ℤ → Helper E → Outcome (Helper E)
  rollback_state_db count h = do
    s ← Database.rollback E J count h.state_db
    returned (record h { state_db = s })
