-- ===== src/App/Dispatch.antt =====
-- `DeliverTx` of abciapp/app/application.go for a transaction that is not dispatched.
use bcbchain.Base.{
  Bytes, codes, bytes_eq, Bool, true, false, ◌&&◌, ◌||◌, some, List, [], ◌∷◌, ◌==◌, length, ◌≡◌,
  refl, ap, Outcome, returned, ◌>>=◌, Bool-cases, inl, inr, arith,
}
use bcbchain.Base.Int.{ℤ, pos, eqb_ℤ}
use bcbchain.App.{
  Application, Services, TxAnswer, split_at, refusal, dispatch, dispatch_parts, dispatch_tx,
  deliver_tx,
}
use bcbchain.App.Versions.{At, current_version-At}

-- Whether a transaction with the given parts is for one of the versions that the chain has.
unfoldable pub is_served : ℤ → Bool → List Bytes → Bool
is_served v has_v1 (first ∷ part ∷ parts) =
    length parts == 3
    && (bytes_eq part (codes "v1") && has_v1
        || (bytes_eq part (codes "v2") || bytes_eq part (codes "v3")) && eqb_ℤ v (pos 2))
is_served v has_v1 _ = false

module _ (S : Type 0) (V : Services S) where
  dispatch-refused :
      (to_v1 : Bool → S → Outcome (TxAnswer × S)) (to_v2 : S → Outcome (TxAnswer × S))
      (log part : Bytes) (v u : ℤ) (app : Application S)
      → At S V v u app
      → (bytes_eq part (codes "v1") && app.has_v1
          || (bytes_eq part (codes "v2") || bytes_eq part (codes "v3")) && eqb_ℤ v (pos 2))
        ≡ false
      → dispatch S V to_v1 to_v2 log part app ≡ returned (refusal S V log, app)
  unfolding dispatch
  dispatch-refused to_v1 to_v2 log part v u app known unserved =
      elim (Bool-cases (bytes_eq part (codes "v1") && app.has_v1)) [
        | inl e ↦ absurd (ground (arith, e))
        | inr e ↦ elim (Bool-cases (bytes_eq part (codes "v2") || bytes_eq part (codes "v3"))) [
          | inr e' ↦ rw (dispatch, e, e') refl
          | inl e' ↦
              let old : eqb_ℤ v (pos 2) ≡ false = ground (arith, e, e') in
              simp (dispatch, e, e', current_version-At S V v u app known, old) refl
        ]
      ]

  dispatch_parts-refused :
      (to_v1 : Bool → S → Outcome (TxAnswer × S)) (to_v2 : S → Outcome (TxAnswer × S)) (log : Bytes)
      (parts : List Bytes) (v u : ℤ) (app : Application S)
      → At S V v u app
      → is_served v (app.has_v1) parts ≡ false
      → dispatch_parts S V to_v1 to_v2 log log parts app ≡ returned (refusal S V log, app)
  unfolding dispatch_parts is_served
  dispatch_parts-refused to_v1 to_v2 log [] v u app known unserved = refl
  dispatch_parts-refused to_v1 to_v2 log (first ∷ []) v u app known unserved = refl
  dispatch_parts-refused to_v1 to_v2 log (first ∷ part ∷ parts) v u app known unserved =
      elim (Bool-cases (length parts == 3)) [
        | inl e ↦
            let five : (length (part ∷ parts) == 4) ≡ true = ground arith in
            rw (dispatch_parts, five)
              (dispatch-refused to_v1 to_v2 log part v u app known (ground (arith, e)))
        | inr e ↦
            let other : (length (part ∷ parts) == 4) ≡ false = ground arith in
            rw (dispatch_parts, other) refl
      ]

  -- If the chain version is known, DeliverTx answers with a logic error and the hash of the text,
  -- and changes nothing, unless the transaction has five parts and its second part is v1 where
  -- version 1 is there, or v2 or v3 on a chain of version 2.
  pub deliver_tx-refused :
      (tx : Bytes) (v : ℤ) (app : Application S)
      → app.chain_version ≡ some v
      → is_served v (app.has_v1) (split_at 46 tx) ≡ false
      → deliver_tx S V tx app
        ≡ returned (
          record {
            code = V.err_logic;
            log = codes "invalid transaction";
            tx_hash = V.calc_code_hash tx;
            rest = [];
          },
          app,
        )
  unfolding deliver_tx dispatch_tx
  deliver_tx-refused tx v app version unserved =
      ap (λ m. m >>= λ r. returned (record (r.0) { tx_hash = V.calc_code_hash tx }, r.1))
        (dispatch_parts-refused (V.deliver_v1 tx) (V.deliver_v2 tx) (codes "invalid transaction")
          (split_at 46 tx) v (app.update_chain_version) app
          (record { version = version; update = refl }) unserved)
