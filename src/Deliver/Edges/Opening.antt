-- ===== src/Deliver/Edges/Opening.antt =====
-- `BCBeginBlock` of abciapp/service/deliver/begin_block.go goes on from the stored state.
use bcbchain.Base.{
  List, [], ◌++◌, ◌≤◌, length, returned_injective, Bytes, GoMap, ℕ, ◌+◌, Bool, true, false, not,
  some, ◌==◌, Outcome, returned, ◌>>=◌, panic_if, ◌≡◌, refl, sym, ap, subst, ◌∙◌, >>=-eq-returned,
  arith,
}
use bcbchain.Base.Int.{ℤ}
use bcbchain.Db.{LevelDb, Json}
use bcbchain.Helper.{Helper, new_committable_transaction_id, new_tx}
use bcbchain.Helper.Accounts.{AccountJson}
use bcbchain.Deliver.{Receipts}
use bcbchain.Deliver.Types.{Header, RequestBeginBlock, AppState, Node, BlockDeliver}
use bcbchain.Deliver.Contracts.{ContractCalls, EffectiveContract, get_contracts_with_height}
use bcbchain.Deliver.Turns.{begin_block, init_or_update_smc}
use bcbchain.Deliver.Turns.Adding.{init_or_update_smc-Grows}
use bcbchain.Deliver.Edges.{get_world_app_state, verified_app_state, open_block}

-- A test that ends in a panic if it fails has held.
not_panicked : (c : Bool) {u : Unit {0}} → panic_if (not c) ≡ returned u → c ≡ true
not_panicked true run = refl
not_panicked false run = cc

module _ (E : LevelDb) (J : Json) (A : AccountJson) (R : Receipts) (V G : Type 0) (N : Node E V G)
    (C : ContractCalls E) where
  -- The application state that is read in a first `Tx` of the block's transaction.
  abbrev pub stored_app_state : Helper E → Outcome AppState
  stored_app_state h = do
    (trans_id, h₁) ← new_committable_transaction_id E J h
    (tx_id, h₂) ← new_tx E J trans_id h₁
    get_world_app_state E J A R V G N trans_id tx_id h₂

  -- The state that an opened block goes on from.
  pub record Follows (req : RequestBeginBlock) (app : BlockDeliver E V G) (last : AppState)
      : Type 0 where
    pub stored : stored_app_state (app.fees.helper) ≡ returned last
    pub height : req.header.height ≡ last.block_height + 1
    pub hash : N.equal_fold (req.header.last_app_hash) (last.app_hash) ≡ true

  verified_app_state_inversion :
      (i : ℤ) (x : ℕ) (header : Header) (h : Helper E) (last : AppState)
      → verified_app_state E J A R V G N i x header h ≡ returned last
      → (get_world_app_state E J A R V G N i x h ≡ returned last)
        × (header.height ≡ last.block_height + 1)
        × (N.equal_fold (header.last_app_hash) (last.app_hash) ≡ true)
  unfolding verified_app_state
  verified_app_state_inversion i x header h last run =
      let (read, e, r₁) = >>=-eq-returned (get_world_app_state E J A R V G N i x h) _ run in
      let (u, e₂, r₂) =
        >>=-eq-returned (panic_if (not (header.height == read.block_height + 1))) _ r₁ in
      let (v, e₃, r₃) =
        >>=-eq-returned (panic_if (not (N.equal_fold (header.last_app_hash) (read.app_hash)))) _
          r₂ in
      let same = sym (returned_injective _ _ r₃) in
      (
        e ∙ ap returned same,
        subst (λ s. header.height ≡ s.block_height + 1) same
            (ground (arith, not_panicked (header.height == read.block_height + 1) e₂)),
        subst (λ s. N.equal_fold (header.last_app_hash) (s.app_hash) ≡ true) same
            (not_panicked (N.equal_fold (header.last_app_hash) (read.app_hash)) e₃),
      )

  stored-read :
      (h : Helper E) (trans_id : ℤ) (h₁ : Helper E) (tx_id : ℕ) (h₂ : Helper E) (last : AppState)
      → new_committable_transaction_id E J h ≡ returned (trans_id, h₁)
      → new_tx E J trans_id h₁ ≡ returned (tx_id, h₂)
      → get_world_app_state E J A R V G N trans_id tx_id h₂ ≡ returned last
      → stored_app_state h ≡ returned last
  stored-read h trans_id h₁ tx_id h₂ last e e₂ read = rw (e, e₂) read

  open_block-Follows :
      (req : RequestBeginBlock) (app app' : BlockDeliver E V G)
      → open_block E J A R V G N req app ≡ returned app'
      → (last : AppState) × Follows req app last
        × (app'.app_state
            ≡ record last { block_height = req.header.height; begin_block = some req })
        × (app'.hash_list ≡ [])
  unfolding open_block
  open_block-Follows req app app' run =
      let ((trans_id, h₁), e, r₁) =
        >>=-eq-returned (new_committable_transaction_id E J (app.fees.helper)) _ run in
      let ((tx_id, h₂), e₂, r₂) = >>=-eq-returned (new_tx E J trans_id h₁) _ r₁ in
      let (last, e₃, r₃) =
        >>=-eq-returned (verified_app_state E J A R V G N trans_id tx_id (req.header) h₂) _ r₂ in
      let (read, height, hash) =
        verified_app_state_inversion trans_id tx_id (req.header) h₂ last e₃ in
      (
        last,
        record {
          stored = stored-read (app.fees.helper) trans_id h₁ tx_id h₂ last e e₂ read;
          height = height;
          hash = hash;
        },
        ap (λ x. x.app_state) (returned_injective _ _ r₃),
        ap (λ x. x.hash_list) (returned_injective _ _ r₃),
      )

  -- The hashes behind the beginning of a block: at most one for each contract that is due.
  pub record Started (req : RequestBeginBlock) (app begun : BlockDeliver E V G) : Type 0 where
    pub opened : BlockDeliver E V G
    pub opens : open_block E J A R V G N req app ≡ returned opened
    pub due : List EffectiveContract
    pub due_read :
        get_contracts_with_height E J A R V G N C
          (opened.fees.trans_id)
          (opened.fees.tx_id)
          (opened.app_state.block_height)
          (opened.fees.helper)
        ≡ returned due
    pub few : length (begun.hash_list) ≤ length due

  pub begin_block-Follows :
      (req : RequestBeginBlock) (app begun : BlockDeliver E V G) {r : ℕ × Bytes × GoMap Bytes}
      → begin_block E J A R V G N C req app ≡ returned (r, begun)
      → (last : AppState) × Follows req app last
        × (begun.app_state
            ≡ record last { block_height = req.header.height; begin_block = some req })
        × Started req app begun
  unfolding begin_block
  begin_block-Follows req app begun run =
      let (opened, e, r₁) = >>=-eq-returned (open_block E J A R V G N req app) _ run in
      let ((answer, app₁), e₂, r₂) =
        >>=-eq-returned (init_or_update_smc E J A R V G N C opened) _ r₁ in
      let (last, follows, state, fresh) = open_block-Follows req app opened e in
      let (due, read, (l, few, added, kept)) =
        init_or_update_smc-Grows E J A R V G N C opened app₁ e₂ in
      let same = returned_injective _ _ r₂ in
      let count : length (begun.hash_list) ≡ length l =
        ap (λ x. length (x.1.hash_list)) same ∙ ap length (added ∙ ap (λ x. x ++ l) fresh) in
      (
        last,
        follows,
        ap (λ x. x.1.app_state) same ∙ (kept ∙ state),
        record { opened = opened; opens = e; due = due; due_read = read; few = omega arith },
      )
