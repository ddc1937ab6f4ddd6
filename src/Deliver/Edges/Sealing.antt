-- ===== src/Deliver/Edges/Sealing.antt =====
-- A block from `BCBeginBlock` over its transactions to `commit`, in abciapp/service/deliver.
use bcbchain.Base.{
  ◌≤◌, returned_injective, Bytes, is_empty, suc, ◌+◌, true, some, List, [], ◌∷◌, ◌++◌, length,
  if◌then◌else◌, Outcome, returned, ◌>>=◌, ◌≡◌, refl, sym, ap, subst, ◌∙◌, >>=-eq-returned,
  Bool-cases, inl, inr,
}
use bcbchain.Db.{LevelDb, Json}
use bcbchain.Helper.Accounts.{AccountJson}
use bcbchain.Deliver.{Receipts}
use bcbchain.Deliver.Types.{RequestBeginBlock, AppState, Node, BlockDeliver, concat}
use bcbchain.Deliver.Blocks.{deliver_bc_tx}
use bcbchain.Deliver.Blocks.Delivered.{deliver_bc_tx-AddsHash}
use bcbchain.Deliver.Contracts.{ContractCalls, MineContract, get_mine_contract}
use bcbchain.Deliver.Turns.{begin_block, end_block}
use bcbchain.Deliver.Turns.Adding.{end_block-Grows}
use mathlib.Core.List.{append_assoc, append-nil}
use bcbchain.Deliver.Edges.Opening.{Follows, Started, begin_block-Follows}
use bcbchain.Deliver.Edges.{no_app_state, commit_app_block, sealed_state, commit}

module _ (E : LevelDb) (J : Json) (A : AccountJson) (R : Receipts) (V G : Type 0) (N : Node E V G)
    (C : ContractCalls E) where
  -- The transactions of a block, one after the other.
  unfoldable pub deliver_all : List Bytes → BlockDeliver E V G → Outcome (BlockDeliver E V G)
  deliver_all [] app = returned app
  deliver_all (tx ∷ txs) app = deliver_bc_tx E J A R V G N tx app >>= λ r. deliver_all txs (r.1)

  -- A block: its beginning, its transactions, its end and the commit.
  abbrev pub run_block :
      RequestBeginBlock → List Bytes → BlockDeliver E V G → Outcome (AppState × BlockDeliver E V G)
  run_block req txs app = do
    begun ← begin_block E J A R V G N C req app
    delivered ← deliver_all txs (begun.1)
    ended ← end_block E J A R V G N C delivered
    commit E J A R V G N (ended.1)

  -- Each transaction adds a hash, and none changes the application state.
  deliver_all-hashes :
      (txs : List Bytes) (app app' : BlockDeliver E V G)
      → deliver_all txs app ≡ returned app'
      → (l : List Bytes) × (length l ≡ length txs)
        × (app'.hash_list ≡ app.hash_list ++ l)
        × (app'.app_state ≡ app.app_state)
  unfolding deliver_all
  deliver_all-hashes [] app app' run =
      let same = returned_injective _ _ run in
      (
        [],
        refl,
        ap (λ x. x.hash_list) same ∙ sym (append-nil (app.hash_list)),
        ap (λ x. x.app_state) same,
      )
  deliver_all-hashes (tx ∷ txs) app app' run =
      let ((r, app₁), e, rest) = >>=-eq-returned (deliver_bc_tx E J A R V G N tx app) _ run in
      let (hash, added, kept) = deliver_bc_tx-AddsHash E J A R V G N tx app app₁ r e in
      let (l, count, added', kept') = deliver_all-hashes txs app₁ app' rest in
      (
        hash ∷ l,
        ap suc count,
        added' ∙ (ap (λ x. x ++ l) added ∙ append_assoc (app.hash_list) (hash ∷ []) l),
        kept' ∙ kept,
      )

  -- What `commit` answers to a block that has ended, after the state that the block goes on from.
  pub record Sealed (last sealed : AppState) (hashes : List Bytes) : Type 0 where
    pub height : sealed.block_height ≡ last.block_height + 1
    pub hashes_kept : sealed.txs_hash_list ≡ hashes
    pub hash : sealed.app_hash ≡ (
        if is_empty hashes then last.app_hash else N.sha3 (last.app_hash ++ N.sha3 (concat hashes)))

  -- The hashes of a block: those behind its beginning, at most one for each contract that is due,
  -- exactly one for each transaction, and at most one for each contract that mines.
  pub record Hashed (req : RequestBeginBlock) (txs : List Bytes) (app : BlockDeliver E V G)
      (hashes : List Bytes) : Type 0 where
    pub begun : BlockDeliver E V G
    pub started : Started E J A R V G N C req app begun
    pub delivered : List Bytes
    pub count : length delivered ≡ length txs
    pub full : BlockDeliver E V G
    pub delivers : deliver_all txs begun ≡ returned full
    pub full_hashes : full.hash_list ≡ begun.hash_list ++ delivered
    pub miners : List MineContract
    pub miners_read :
        get_mine_contract E J A R V G N C (full.fees.trans_id) (full.fees.tx_id) (full.fees.helper)
        ≡ returned miners
    pub mined : List Bytes
    pub few : length mined ≤ length miners
    pub all : hashes ≡ full.hash_list ++ mined

  -- The answer to a block without transactions.
  abbrev unsealed : BlockDeliver E V G → AppState
  unsealed app = record no_app_state {
    block_height = app.app_state.block_height;
    app_hash = app.app_state.app_hash;
  }

  commit-answer :
      (app app' : BlockDeliver E V G) (sealed : AppState)
      → commit E J A R V G N app ≡ returned (sealed, app')
      → sealed ≡ (if is_empty (app.hash_list) then unsealed app else sealed_state E J A R V G N app)
  unfolding commit
  commit-answer app app' sealed run = elim (Bool-cases (is_empty (app.hash_list))) [
    | inl e ↦
        let (app₁, e₁, r₁) =
          >>=-eq-returned (commit_app_block E J A R V G N app) _ (rw (commit, e) at run) in
        rw e (ap (λ x. x.0) (returned_injective _ _ r₁))
    | inr e ↦
        let (app₁, e₁, r₁) =
          >>=-eq-returned
            (commit_app_block E J A R V G N
              (record app { app_state = sealed_state E J A R V G N app }))
            _ (rw (commit, e) at run) in
        rw e (ap (λ x. x.0) (returned_injective _ _ r₁))
  ]

  empty-eq : (l : List Bytes) → is_empty l ≡ true → [] ≡ l
  empty-eq [] e = refl
  empty-eq (h ∷ l) e = cc

  answer-Sealed :
      (req : RequestBeginBlock) (last : AppState) (app : BlockDeliver E V G)
      → req.header.height ≡ last.block_height + 1
      → app.app_state ≡ record last { block_height = req.header.height; begin_block = some req }
      → Sealed last
          (if is_empty (app.hash_list) then unsealed app else sealed_state E J A R V G N app)
          (app.hash_list)
  unfolding sealed_state
  answer-Sealed req last app height opened = elim (Bool-cases (is_empty (app.hash_list))) [
    | inl e ↦ rw e (record {
      height = ap (λ x. x.block_height) opened ∙ height;
      hashes_kept = empty-eq (app.hash_list) e;
      hash = rw e (ap (λ x. x.app_hash) opened);
    })
    | inr e ↦ rw e (record {
      height = ap (λ x. x.block_height) opened ∙ height;
      hashes_kept = refl;
      hash = rw e (ap (λ x. N.sha3 (x.app_hash ++ N.sha3 (concat (app.hash_list)))) opened);
    })
  ]

  -- If a block is begun, its transactions are delivered, it is ended and committed, and no step
  -- panics, then the state that had been stored is read, the block's height is the one after it
  -- and the header's last application hash passes the comparison with the stored one; the block's
  -- list of hashes starts empty and has, in this order, at most one hash for each contract that
  -- is due at the height, exactly one for each transaction and at most one for each contract that
  -- mines; the state in the commit's answer has the block's height, that list, and the old
  -- application hash if the list is empty, otherwise the hash of the old one with the hash of all
  -- of the list.
  pub run_block-Sealed :
      (req : RequestBeginBlock) (txs : List Bytes) (app app' : BlockDeliver E V G)
      (sealed : AppState)
      → run_block req txs app ≡ returned (sealed, app')
      → (last : AppState) × (hashes : List Bytes) × Follows E J A R V G N C req app last
        × Hashed req txs app hashes
        × Sealed last sealed hashes
  run_block-Sealed req txs app app' sealed run =
      let ((answer, begun), e, r₁) = >>=-eq-returned (begin_block E J A R V G N C req app) _ run in
      let (full, e₂, r₂) = >>=-eq-returned (deliver_all txs begun) _ r₁ in
      let ((response, ended), e₃, r₃) = >>=-eq-returned (end_block E J A R V G N C full) _ r₂ in
      let (last, follows, opened, started) = begin_block-Follows E J A R V G N C req app begun e in
      let (l, count, added, kept) = deliver_all-hashes txs begun full e₂ in
      let (miners, read, (mined, few, all, kept')) =
        end_block-Grows E J A R V G N C full ended e₃ in
      (
        last,
        ended.hash_list,
        follows,
        record {
          begun = begun;
          started = started;
          delivered = l;
          count = count;
          full = full;
          delivers = e₂;
          full_hashes = added;
          miners = miners;
          miners_read = read;
          mined = mined;
          few = few;
          all = all;
        },
        subst (λ x. Sealed last x (ended.hash_list)) (sym (commit-answer ended app' sealed r₃))
            (answer-Sealed req last ended (follows.height) (kept' ∙ (kept ∙ opened))),
      )
