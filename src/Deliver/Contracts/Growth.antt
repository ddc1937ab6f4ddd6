-- ===== src/Deliver/Contracts/Growth.antt =====
-- The calls of contracts in begin_block.go and end_block.go of abciapp/service/deliver only add
-- hashes to a block.
use bcbchain.Base.{
  ℕ, ◌+◌, ◌≤◌, length, length-append, arith, carried, returned_injective, Bytes, GoMap, is_empty,
  Bool, true, false, none, List, [], ◌∷◌, ◌++◌, ◌==◌, ◌≡◌, refl, sym, ap, ◌∙◌, if◌then◌else◌,
  Outcome, returned, >>=-eq-returned,
}
use mathlib.Core.List.{append_assoc, append-nil}
use bcbchain.Db.{LevelDb, Json}
use bcbchain.Helper.{Helper, new_tx}
use bcbchain.Helper.Accounts.{AccountJson}
use bcbchain.Deliver.{Receipts}
use bcbchain.Deliver.Types.{Response, Invocation, Node, BlockDeliver}
use bcbchain.Deliver.Blocks.{with_helper, apply_writes, commit_current, calc_deliver_hash}
use bcbchain.Deliver.Blocks.Hashes.{Keeps, with_helper-Keeps, commit_current-Keeps}
use bcbchain.Deliver.Contracts.{ContractCalls, with_new_tx, commit_call, call_contract}

module _ (E : LevelDb) (J : Json) (A : AccountJson) (R : Receipts) (V G : Type 0) (N : Node E V G)
    (C : ContractCalls E) where
  -- At most `n` hashes are added at the end, and the application state stays.
  abbrev pub Grows : ℕ → BlockDeliver E V G → BlockDeliver E V G → Type 0
  Grows n app app' =
      (l : List Bytes) × (length l ≤ n)
      × (app'.hash_list ≡ app.hash_list ++ l)
      × (app'.app_state ≡ app.app_state)

  pub Keeps-Grows :
      (n : ℕ) (app app₁ app' : BlockDeliver E V G)
      → Keeps E J A R V G N app app₁
      → Grows n app₁ app'
      → Grows n app app'
  Keeps-Grows n app app₁ app' (p, q) (l, few, r, s) = (l, few, r ∙ ap (λ x. x ++ l) p, s ∙ q)

  pub Grows-trans :
      (m n : ℕ) (app app₁ app' : BlockDeliver E V G)
      → Grows m app app₁
      → Grows n app₁ app'
      → Grows (m + n) app app'
  Grows-trans m n app app₁ app' (k, few, p, q) (l, few', r, s) = (
    k ++ l,
    omega (arith, length-append k l),
    r ∙ (ap (λ x. x ++ l) p ∙ append_assoc (app.hash_list) k l),
    s ∙ q,
  )

  pub Grows-same :
      (n : ℕ) (app app' : BlockDeliver E V G) → Keeps E J A R V G N app app' → Grows n app app'
  Grows-same n app app' (p, q) = ([], omega arith, p ∙ sym (append-nil (app.hash_list)), q)

  pub with_new_tx-Keeps :
      (app app' : BlockDeliver E V G)
      → with_new_tx E J A R V G N C app ≡ returned app'
      → Keeps E J A R V G N app app'
  unfolding with_new_tx
  with_new_tx-Keeps app app' run =
      let (r, e, rest) = >>=-eq-returned (new_tx E J (app.fees.trans_id) (app.fees.helper)) _ run in
      let same = returned_injective _ _ rest in
      (ap (λ x. x.hash_list) same, ap (λ x. x.app_state) same)

  hashed-Grows :
      (text : Bytes) (app : BlockDeliver E V G)
      → Grows 1 app
          (if is_empty text then app else calc_deliver_hash E J A R V G N none none text app)
  unfolding calc_deliver_hash
  hashed-Grows [] app = Grows-same 1 app app (refl, refl)
  hashed-Grows (c ∷ text) app = (_, omega arith, refl, refl)

  commit_call-Grows :
      (app app' : BlockDeliver E V G) {r : GoMap Bytes}
      → commit_call E J A R V G N C app ≡ returned (r, app')
      → Grows 1 app app'
  unfolding commit_call
  commit_call-Grows app app' run =
      let ((committed, app₁), e, rest) = >>=-eq-returned (commit_current E J A R V G N app) _ run in
      let app₂ =
        if is_empty (committed.0)
        then app₁
        else calc_deliver_hash E J A R V G N none none (committed.0) app₁ in
      carried (Grows 1 app) rest (
        Keeps-Grows 1 app app₁ app₂ (commit_current-Keeps E J A R V G N app app₁ e)
          (hashed-Grows (committed.0) app₁))

  -- What a failure adds is a change of the helper.
  failed-Keeps :
      (is_ok : Bool) (f : Helper E → Outcome (Helper E)) (app app' : BlockDeliver E V G)
      → (if is_ok then returned app else with_helper E J A R V G N f app) ≡ returned app'
      → Keeps E J A R V G N app app'
  failed-Keeps true f app app' run =
      let same = returned_injective _ _ run in
      (ap (λ x. x.hash_list) same, ap (λ x. x.app_state) same)
  failed-Keeps false f app app' run = with_helper-Keeps E J A R V G N f app app' run

  pub call_contract-Grows :
      (invoke : BlockDeliver E V G → Invocation)
      (on_failure : BlockDeliver E V G → Helper E → Outcome (Helper E))
      (app app' : BlockDeliver E V G) {r : Response × GoMap Bytes}
      → call_contract E J A R V G N C invoke on_failure app ≡ returned (r, app')
      → Grows 1 app app'
  unfolding call_contract
  call_contract-Grows invoke on_failure app app' run =
      let done = invoke app in
      let write = apply_writes E J A R V G N (app.fees.trans_id) (app.fees.tx_id) (done.writes) in
      let is_ok = done.response.code == N.code_ok in
      let (app₁, e₁, r₁) = >>=-eq-returned (with_helper E J A R V G N write app) _ run in
      let (app₂, e₂, r₂) =
        >>=-eq-returned
          (if is_ok then returned app₁ else with_helper E J A R V G N (on_failure app₁) app₁) _
          r₁ in
      let ((buffer, app₃), e₃, r₃) = >>=-eq-returned (commit_call E J A R V G N C app₂) _ r₂ in
      carried (Grows 1 app) r₃ (
        Keeps-Grows 1 app app₁ app₃ (with_helper-Keeps E J A R V G N write app app₁ e₁) (
          Keeps-Grows 1 app₁ app₂ app₃ (failed-Keeps is_ok (on_failure app₁) app₁ app₂ e₂)
            (commit_call-Grows app₂ app₃ e₃)))
