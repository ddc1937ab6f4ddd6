-- ===== src/Deliver/Blocks/Hashes.antt =====
-- The steps of `deliverBCTx` of abciapp/service/deliver/delivertx.go and the list of hashes.
use bcbchain.Base.{
  Bytes, GoMap, is_empty, ◌==◌, length, Bool, true, false, Option, none, some, List, [], ◌∷◌, ◌++◌,
  ◌≡◌, refl, sym, ap, ◌∙◌, if◌then◌else◌, Outcome, returned, ◌>>=◌, >>=-eq-returned, carried,
  returned_injective, Bool-cases, Option-cases, inl, inr,
}
use bcbchain.Base.Int.{ℤ}
use bcbchain.Db.{LevelDb, Json}
use bcbchain.Helper.{Helper, or_panic, commit_tx, rollback_tx}
use bcbchain.Helper.Accounts.{AccountJson}
use bcbchain.Deliver.{KvPair, Receipts, emit_fee_receipts}
use bcbchain.Deliver.Types.{
  Node, BlockDeliver, AppState, Transaction, Response, Invocation, ResponseDeliverTx, last_method,
  side_chain_genesis_receipt, has_update_validator_receipt,
}
use bcbchain.Deliver.Blocks.{
  with_helper, apply_writes, calc_deliver_hash, emit_fees, commit_current, response_of,
  report_invoke_failure, run_failed, run_ok, pack_validators, pack_side_chain_genesis, invoke_tx,
}

module _ (E : LevelDb) (J : Json) (A : AccountJson) (R : Receipts) (V G : Type 0)
    (N : Node E V G) where
  -- The hashes of the block and its application state stay.
  abbrev pub Keeps : BlockDeliver E V G → BlockDeliver E V G → Type 0
  Keeps app app' = (app'.hash_list ≡ app.hash_list) × (app'.app_state ≡ app.app_state)

  -- One hash is added, and the application state stays.
  abbrev pub AddsHash : BlockDeliver E V G → BlockDeliver E V G → Type 0
  AddsHash app app' =
      (hash : Bytes) × (app'.hash_list ≡ app.hash_list ++ hash ∷ [])
      × (app'.app_state ≡ app.app_state)

  keep_then_add :
      (app app₁ : BlockDeliver E V G) (l : List Bytes) (state : AppState)
      → Keeps app app₁
      → (hash : Bytes) × (l ≡ app₁.hash_list ++ hash ∷ []) × (state ≡ app₁.app_state)
      → (hash : Bytes) × (l ≡ app.hash_list ++ hash ∷ []) × (state ≡ app.app_state)
  keep_then_add app app₁ l state (p, q) (hash, r, s) = (hash, r ∙ ap (λ l. l ++ hash ∷ []) p, s ∙ q)

  calc-AddsHash :
      (tx : Bytes) (answer : ResponseDeliverTx) (state_tx : Bytes) (app : BlockDeliver E V G)
      → AddsHash app (calc_deliver_hash E J A R V G N (some tx) (some answer) state_tx app)
  unfolding calc_deliver_hash
  calc-AddsHash tx answer state_tx app = (_, refl, refl)

  emit_fees-Keeps :
      (transaction : Transaction) (response : Response) (is_ok : Bool)
      (app app' : BlockDeliver E V G) {r : List KvPair × ℤ}
      → emit_fees E J A R V G N transaction response is_ok app ≡ returned (r, app')
      → Keeps app app'
  unfolding emit_fees
  emit_fees-Keeps transaction response is_ok app app' run =
      let (method_id, e, rest) = >>=-eq-returned (last_method (transaction.method_ids)) _ run in
      let (emitted, e', rest') =
        >>=-eq-returned
          (emit_fee_receipts E J A R (length (transaction.method_ids)) method_id (response.tags)
            is_ok (app.fees))
          _ rest in
      let same = returned_injective _ _ rest' in
      (ap (λ x. x.1.hash_list) same, ap (λ x. x.1.app_state) same)

  pub commit_current-Keeps :
      (app app' : BlockDeliver E V G) {r : Bytes × GoMap Bytes}
      → commit_current E J A R V G N app ≡ returned (r, app')
      → Keeps app app'
  unfolding commit_current
  commit_current-Keeps app app' run =
      let (r, e, rest) =
        >>=-eq-returned (commit_tx E J (app.fees.trans_id) (app.fees.tx_id) (app.fees.helper)) _
          run in
      let same = returned_injective _ _ rest in
      (ap (λ x. x.1.hash_list) same, ap (λ x. x.1.app_state) same)

  pub with_helper-Keeps :
      (f : Helper E → Outcome (Helper E)) (app app' : BlockDeliver E V G)
      → with_helper E J A R V G N f app ≡ returned app'
      → Keeps app app'
  with_helper-Keeps f app app' run =
      let (h, e, rest) = >>=-eq-returned (f (app.fees.helper)) _ run in
      let same = returned_injective _ _ rest in
      (ap (λ x. x.hash_list) same, ap (λ x. x.app_state) same)

  Keeps-trans :
      (app app₁ app' : BlockDeliver E V G) → Keeps app app₁ → Keeps app₁ app' → Keeps app app'
  Keeps-trans app app₁ app' (p, q) (r, s) = (r ∙ p, s ∙ q)

  -- The fees are committed only if there are receipts of them.
  fees_committed-Keeps :
      (none_found : Bool) (app app' : BlockDeliver E V G) {r : Bytes × GoMap Bytes}
      → (if none_found then returned (([], []), app) else commit_current E J A R V G N app)
        ≡ returned (r, app')
      → Keeps app app'
  fees_committed-Keeps true app app' run =
      let same = returned_injective _ _ run in
      (ap (λ x. x.1.hash_list) same, ap (λ x. x.1.app_state) same)
  fees_committed-Keeps false app app' run = commit_current-Keeps app app' run

  report_invoke_failure-AddsHash :
      (tx : Bytes) (transaction : Transaction) (response : Response) (app app' : BlockDeliver E V G)
      {r : ResponseDeliverTx × GoMap Bytes × ℤ}
      → report_invoke_failure E J A R V G N tx transaction response app ≡ returned (r, app')
      → AddsHash app app'
  unfolding report_invoke_failure
  report_invoke_failure-AddsHash tx transaction response app app' run =
      let ((emitted, app₁), e, r₁) =
        >>=-eq-returned (emit_fees E J A R V G N transaction response false app) _ run in
      let ((committed, app₂), e', r₂) =
        >>=-eq-returned
          (if is_empty (emitted.0)
            then returned (([], []), app₁)
            else commit_current E J A R V G N app₁)
          _ r₁ in
      let kept =
        Keeps-trans app app₁ app₂ (emit_fees-Keeps transaction response false app app₁ e)
          (fees_committed-Keeps (is_empty (emitted.0)) app₁ app₂ e') in
      let answer = response_of E J A R V G N transaction response (emitted.0) (response.fee) [] in
      carried (AddsHash app) r₂
        (keep_then_add app app₂ _ _ kept (calc-AddsHash tx answer (committed.0) app₂))

  run_failed-AddsHash :
      (tx : Bytes) (transaction : Transaction) (response : Response) (nonce_buffer : GoMap Bytes)
      (app app' : BlockDeliver E V G) {r : ResponseDeliverTx × GoMap Bytes}
      → run_failed E J A R V G N tx transaction response nonce_buffer app ≡ returned (r, app')
      → AddsHash app app'
  unfolding run_failed
  run_failed-AddsHash tx transaction response nonce_buffer app app' run =
      let (app₁, e, r₁) =
        >>=-eq-returned
          (with_helper E J A R V G N (rollback_tx E J (app.fees.trans_id) (app.fees.tx_id)) app) _
          run in
      let ((answer, app₂), e', r₂) =
        >>=-eq-returned (report_invoke_failure E J A R V G N tx transaction response app₁) _ r₁ in
      carried (AddsHash app) r₂ (
        keep_then_add app app₁ _ _
          (with_helper-Keeps (rollback_tx E J (app.fees.trans_id) (app.fees.tx_id)) app app₁ e)
          (report_invoke_failure-AddsHash tx transaction response app₁ app₂ e'))

  pack_validators-Keeps :
      (response : Response) (app : BlockDeliver E V G)
      → Keeps app (pack_validators E J A R V G N response app)
  unfolding pack_validators
  pack_validators-Keeps response app =
      elim (Bool-cases (has_update_validator_receipt (response.tags))) [
        | inl e ↦ rw (pack_validators, e) (refl, refl)
        | inr e ↦ rw (pack_validators, e) (refl, refl)
      ]

  -- What is packed behind the test for a receipt.
  abbrev packed : Option KvPair → BlockDeliver E V G → Outcome (BlockDeliver E V G)
  packed none app = returned app
  packed (some tag) app = or_panic (Node.side_chain_genesis N (tag.1)) >>= λ genesis.
      returned (record app { sc_genesis = some genesis })

  packed-Keeps :
      (o : Option KvPair) (app app' : BlockDeliver E V G)
      → packed o app ≡ returned app'
      → Keeps app app'
  packed-Keeps none app app' run =
      let same = returned_injective _ _ run in
      (ap (λ x. x.hash_list) same, ap (λ x. x.app_state) same)
  packed-Keeps (some tag) app app' run =
      let (genesis, e, rest) =
        >>=-eq-returned (or_panic (Node.side_chain_genesis N (tag.1))) _ run in
      let same = returned_injective _ _ rest in
      (ap (λ x. x.hash_list) same, ap (λ x. x.app_state) same)

  packed-eq :
      (response : Response) (app : BlockDeliver E V G)
      → pack_side_chain_genesis E J A R V G N response app
        ≡ packed (side_chain_genesis_receipt (response.tags)) app
  unfolding pack_side_chain_genesis
  packed-eq response app = elim (Option-cases (side_chain_genesis_receipt (response.tags))) [
    | inl e ↦ rw (pack_side_chain_genesis, e) refl
    | inr (tag, e) ↦ rw (pack_side_chain_genesis, e) refl
  ]

  pack-Keeps :
      (response : Response) (app app' : BlockDeliver E V G)
      → pack_side_chain_genesis E J A R V G N response (pack_validators E J A R V G N response app)
        ≡ returned app'
      → Keeps app app'
  pack-Keeps response app app' run =
      let app₁ = pack_validators E J A R V G N response app in
      Keeps-trans app app₁ app' (pack_validators-Keeps response app) (
        packed-Keeps (side_chain_genesis_receipt (response.tags)) app₁ app'
          (sym (packed-eq response app₁) ∙ run))

  run_ok-AddsHash :
      (tx : Bytes) (transaction : Transaction) (response : Response) (nonce_buffer : GoMap Bytes)
      (app app' : BlockDeliver E V G) {r : ResponseDeliverTx × GoMap Bytes}
      → run_ok E J A R V G N tx transaction response nonce_buffer app ≡ returned (r, app')
      → AddsHash app app'
  unfolding run_ok
  run_ok-AddsHash tx transaction response nonce_buffer app app' run =
      let (app₁, e, r₁) =
        >>=-eq-returned
          (pack_side_chain_genesis E J A R V G N response
            (pack_validators E J A R V G N response app))
          _ run in
      let ((emitted, app₂), e₂, r₂) =
        >>=-eq-returned (emit_fees E J A R V G N transaction response true app₁) _ r₁ in
      let ((committed, app₃), e₃, r₃) = >>=-eq-returned (commit_current E J A R V G N app₂) _ r₂ in
      let kept = Keeps-trans app app₁ app₃ (pack-Keeps response app app₁ e) (
        Keeps-trans app₁ app₂ app₃ (emit_fees-Keeps transaction response true app₁ app₂ e₂)
          (commit_current-Keeps app₂ app₃ e₃)) in
      let answer =
        response_of E J A R V G N transaction response (emitted.0) (emitted.1)
          (response.result_data) in
      carried (AddsHash app) r₃
        (keep_then_add app app₃ _ _ kept (calc-AddsHash tx answer (committed.0) app₃))

  -- Either way behind the invocation.
  branch-AddsHash :
      (is_ok : Bool) (tx : Bytes) (transaction : Transaction) (response : Response)
      (nonce_buffer : GoMap Bytes) (app app' : BlockDeliver E V G)
      {r : ResponseDeliverTx × GoMap Bytes}
      → (if is_ok
          then run_ok E J A R V G N tx transaction response nonce_buffer app
          else run_failed E J A R V G N tx transaction response nonce_buffer app)
        ≡ returned (r, app')
      → AddsHash app app'
  branch-AddsHash true tx transaction response nonce_buffer app app' run =
      run_ok-AddsHash tx transaction response nonce_buffer app app' run
  branch-AddsHash false tx transaction response nonce_buffer app app' run =
      run_failed-AddsHash tx transaction response nonce_buffer app app' run

  pub invoke_tx-AddsHash :
      (tx : Bytes) (transaction : Transaction) (nonce_buffer : GoMap Bytes) (done : Invocation)
      (app app' : BlockDeliver E V G) {r : ResponseDeliverTx × GoMap Bytes}
      → invoke_tx E J A R V G N tx transaction nonce_buffer done app ≡ returned (r, app')
      → AddsHash app app'
  unfolding invoke_tx
  invoke_tx-AddsHash tx transaction nonce_buffer done app app' run =
      let write = apply_writes E J A R V G N (app.fees.trans_id) (app.fees.tx_id) (done.writes) in
      let (app₁, e, r₁) = >>=-eq-returned (with_helper E J A R V G N write app) _ run in
      keep_then_add app app₁ _ _ (with_helper-Keeps write app app₁ e) (
        branch-AddsHash (done.response.code == N.code_ok) tx transaction (done.response)
          nonce_buffer app₁ app' r₁)
