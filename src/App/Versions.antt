-- ===== src/App/Versions.antt =====
-- Which calls of abciapp/app/application.go keep the chain version, and what a commit makes of it.
use bcbchain.Base.{
  Bytes, codes, bytes_eq, Bool, true, false, not, ◌&&◌, ◌||◌, some, List, [], ◌∷◌, ◌==◌, length,
  get_elem?, ◌≡◌, refl, sym, ap, subst, ◌∙◌, if◌then◌else◌, Outcome, returned, panic_if,
  >>=-eq-returned, carried, returned_injective, Bool-cases, inl, inr, arith,
}
use bcbchain.Base.Int.{ℤ, pos, eqb_ℤ}
use bcbchain.Helper.{or_panic}
use bcbchain.App.{
  Application, Services, TxAnswer, EndAnswer, split_at, current_version, genesis_version, on_store,
  on_v1, refusal, dispatch, dispatch_parts, dispatch_tx, by_version, apply_update, commit, begin_v2,
  begin_block, announce, end_block,
}

pub eqb_ℤ-eq : (a b : ℤ) → eqb_ℤ a b ≡ true → a ≡ b
eqb_ℤ-eq a b e = ground (arith, e)

module _ (S : Type 0) (V : Services S) where
  -- The chain version is known to be `v`, and the pending one is `u`.
  pub record At (v u : ℤ) (app : Application S) : Type 0 where
    pub version : app.chain_version ≡ some v
    pub update : app.update_chain_version ≡ u

  pub current_version-At :
      (v u : ℤ) (app : Application S) → At v u app → current_version S V app ≡ returned (v, app)
  unfolding current_version
  current_version-At v u app known = simp (current_version, known.version) refl

  -- A call that keeps the version and the pending one.
  abbrev pub KeepsAt : (A : Type 0) → (Application S → Outcome (A × Application S)) → Type 0
  KeepsAt A f =
      (v u : ℤ) (app app' : Application S) (r : A)
      → f app ≡ returned (r, app')
      → At v u app
      → At v u app'

  pub on_store-KeepsAt : {A : Type 0} (f : S → Outcome (A × S)) → KeepsAt A (on_store S V f)
  on_store-KeepsAt f v u app app' r run known =
      let ((answer, s), e, rest) = >>=-eq-returned (f (app.store)) _ run in
      carried (At v u) rest (record { version = known.version; update = known.update })

  on_v1-KeepsAt : {A : Type 0} (f : S → Outcome (A × S)) → KeepsAt A (on_v1 S V f)
  on_v1-KeepsAt f v u app app' r run known =
      let (t, e, rest) = >>=-eq-returned (panic_if (not (app.has_v1))) _ run in
      on_store-KeepsAt f v u app app' r rest known

  by_version-KeepsAt :
      {A : Type 0} (to_v1 to_v2 : Application S → Outcome (A × Application S))
      → KeepsAt A to_v1
      → KeepsAt A to_v2
      → KeepsAt A (by_version S V to_v1 to_v2)
  by_version-KeepsAt to_v1 to_v2 keeps_v1 keeps_v2 v u app app' r run known =
      let run' = rw (current_version-At v u app known) at run in
      elim (Bool-cases (eqb_ℤ v (pos 0))) [
        | inl e ↦ keeps_v1 v u app app' r (rw e at run') known
        | inr e ↦ elim (Bool-cases (eqb_ℤ v (pos 2))) [
          | inl e' ↦ keeps_v2 v u app app' r (rw (e, e') at run') known
          | inr e' ↦ absurd (ground (arith, rw (e, e') at run'))
        ]
      ]

  pub returned-KeepsAt : {A : Type 0} (a : A) → KeepsAt A (λ app. returned (a, app))
  returned-KeepsAt a v u app app' r run known = carried (At v u) run known

  -- A transaction for version 2, on a chain whose version is known.
  upgraded-KeepsAt :
      (to_v2 : S → Outcome (TxAnswer × S)) (log : Bytes) (is_upgraded : Bool)
      → KeepsAt TxAnswer
          (λ app. if is_upgraded then on_store S V to_v2 app else returned (refusal S V log, app))
  upgraded-KeepsAt to_v2 log true = on_store-KeepsAt to_v2
  upgraded-KeepsAt to_v2 log false = returned-KeepsAt (refusal S V log)

  dispatch-KeepsAt :
      (to_v1 : Bool → S → Outcome (TxAnswer × S)) (to_v2 : S → Outcome (TxAnswer × S))
      (log part : Bytes)
      → KeepsAt TxAnswer (dispatch S V to_v1 to_v2 log part)
  unfolding dispatch
  dispatch-KeepsAt to_v1 to_v2 log part v u app app' r run known =
      elim (Bool-cases (bytes_eq part (codes "v1") && app.has_v1)) [
        | inl e ↦
            on_store-KeepsAt (to_v1 (eqb_ℤ v (pos 2))) v u app app' r
              (simp (dispatch, e, current_version-At v u app known) at run) known
        | inr e ↦ elim (Bool-cases (bytes_eq part (codes "v2") || bytes_eq part (codes "v3"))) [
          | inl e' ↦
              upgraded-KeepsAt to_v2 log (eqb_ℤ v (pos 2)) v u app app' r
                (simp (dispatch, e, e', current_version-At v u app known) at run) known
          | inr e' ↦
              returned-KeepsAt (refusal S V log) v u app app' r (rw (dispatch, e, e') at run) known
        ]
      ]

  dispatch_parts-KeepsAt :
      (to_v1 : Bool → S → Outcome (TxAnswer × S)) (to_v2 : S → Outcome (TxAnswer × S))
      (log wrong_length : Bytes) (parts : List Bytes)
      → KeepsAt TxAnswer (dispatch_parts S V to_v1 to_v2 log wrong_length parts)
  unfolding dispatch_parts
  dispatch_parts-KeepsAt to_v1 to_v2 log wrong_length [] v u app app' r run known =
      returned-KeepsAt (refusal S V wrong_length) v u app app' r run known
  dispatch_parts-KeepsAt to_v1 to_v2 log wrong_length (first ∷ parts) v u app app' r run known =
      elim (Bool-cases (length parts == 4)) [
        | inl e ↦
            let (part, e', rest) =
              >>=-eq-returned (or_panic (get_elem? parts 0)) _ (rw (dispatch_parts, e) at run) in
            dispatch-KeepsAt to_v1 to_v2 log part v u app app' r rest known
        | inr e ↦
            returned-KeepsAt (refusal S V wrong_length) v u app app' r
              (rw (dispatch_parts, e) at run) known
      ]

  pub dispatch_tx-KeepsAt :
      (to_v1 : Bool → S → Outcome (TxAnswer × S)) (to_v2 : S → Outcome (TxAnswer × S))
      (log wrong_length tx : Bytes)
      → KeepsAt TxAnswer (dispatch_tx S V to_v1 to_v2 log wrong_length tx)
  unfolding dispatch_tx
  dispatch_tx-KeepsAt to_v1 to_v2 log wrong_length tx v u app app' r run known =
      let ((answer, app₁), e, rest) =
        >>=-eq-returned (dispatch_parts S V to_v1 to_v2 log wrong_length (split_at 46 tx) app) _
          run in
      carried (At v u) rest (
        dispatch_parts-KeepsAt to_v1 to_v2 log wrong_length (split_at 46 tx) v u app app₁ answer e
          known)

  told-KeepsAt :
      (is_old : Bool) (req : Bytes)
      → KeepsAt Bytes
          (λ app. if is_old then on_v1 S V (V.begin_v1_to_v2 req) app else returned ([], app))
  told-KeepsAt true req = on_v1-KeepsAt (V.begin_v1_to_v2 req)
  told-KeepsAt false req = returned-KeepsAt []

  begin_v2-KeepsAt : (req : Bytes) → KeepsAt Bytes (begin_v2 S V req)
  unfolding begin_v2
  begin_v2-KeepsAt req v u app app' r run known =
      let (genesis, e, r₁) = >>=-eq-returned (genesis_version S V (app.store)) _ run in
      let ((ignored, app₁), e₂, r₂) =
        >>=-eq-returned
          (if eqb_ℤ genesis (pos 0)
            then on_v1 S V (V.begin_v1_to_v2 req) app
            else returned ([], app))
          _ r₁ in
      on_store-KeepsAt (V.begin_v2 req) v u app₁ app' r r₂
        (told-KeepsAt (eqb_ℤ genesis (pos 0)) req v u app app₁ ignored e₂ known)

  pub begin_block-KeepsAt : (req : Bytes) → KeepsAt Bytes (begin_block S V req)
  unfolding begin_block
  begin_block-KeepsAt req =
      by_version-KeepsAt (on_v1 S V (V.begin_v1 req)) (begin_v2 S V req)
        (on_v1-KeepsAt (V.begin_v1 req)) (begin_v2-KeepsAt req)

  announce-At :
      (v u version : ℤ) (app : Application S)
      → At v u app
      → At v (if eqb_ℤ v version then u else version) (announce S V version app)
  unfolding announce
  announce-At v u version app known = elim (Bool-cases (eqb_ℤ v version)) [
    | inl e ↦ simp (announce, known.version, e) known
    | inr e ↦ simp (announce, known.version, e) (record { version = refl; update = refl })
  ]

  pub end_block-At :
      (req : Bytes) (v u : ℤ) (app app' : Application S) (r : EndAnswer)
      → end_block S V req app ≡ returned (r, app')
      → At v u app
      → At v (if eqb_ℤ v (r.chain_version) then u else r.chain_version) app'
  unfolding end_block
  end_block-At req v u app app' r run known =
      let ((answer, app₁), e, rest) =
        >>=-eq-returned
          (by_version S V (on_v1 S V (V.end_v1 req)) (on_store S V (V.end_v2 req)) app) _ run in
      let kept =
        by_version-KeepsAt (on_v1 S V (V.end_v1 req)) (on_store S V (V.end_v2 req))
          (on_v1-KeepsAt (V.end_v1 req)) (on_store-KeepsAt (V.end_v2 req)) v u app app₁ answer e
          known in
      subst (λ x. At v (if eqb_ℤ v (x.chain_version) then u else x.chain_version) app')
        (ap (λ x. x.0) (sym (returned_injective _ _ rest)))
        (carried (At v (if eqb_ℤ v (answer.chain_version) then u else answer.chain_version)) rest
          (announce-At v u (answer.chain_version) app₁ kept))

  apply_update-At :
      (v u : ℤ) (app : Application S)
      → At v u app
      → At (if eqb_ℤ u (pos 0) then v else u) (pos 0) (apply_update S V app)
  unfolding apply_update
  apply_update-At v u app known = elim (Bool-cases (eqb_ℤ u (pos 0))) [
    | inl e ↦
        let unchanged = ap (λ x. eqb_ℤ x (pos 0)) (known.update) ∙ e in
        simp (apply_update, e, unchanged)
          (record { version = known.version; update = known.update ∙ eqb_ℤ-eq u (pos 0) e })
    | inr e ↦
        let changed = ap (λ x. eqb_ℤ x (pos 0)) (known.update) ∙ e in
        simp (apply_update, e, changed) (record { version = ap some (known.update); update = refl })
  ]

  pub commit-At :
      (v u : ℤ) (app app' : Application S) (r : Bytes)
      → commit S V app ≡ returned (r, app')
      → At v u app
      → At (if eqb_ℤ u (pos 0) then v else u) (pos 0) app'
  unfolding commit
  commit-At v u app app' r run known =
      let ((answer, app₁), e, rest) =
        >>=-eq-returned (by_version S V (on_v1 S V (V.commit_v1)) (on_store S V (V.commit_v2)) app)
          _ run in
      carried (At (if eqb_ℤ u (pos 0) then v else u) (pos 0)) rest (
        apply_update-At v u app₁ (
          by_version-KeepsAt (on_v1 S V (V.commit_v1)) (on_store S V (V.commit_v2))
            (on_v1-KeepsAt (V.commit_v1)) (on_store-KeepsAt (V.commit_v2)) v u app app₁ answer e
            known))
