-- ===== src/App/Upgrades.antt =====
-- Blocks and sequences of calls through abciapp/app/application.go, and the chain version behind
-- them.
use bcbchain.Base.{
  Bytes, codes, ◌||◌, false, Option, some, List, [], ◌∷◌, ◌≡◌, refl, sym, ap, subst, ◌∙◌,
  if◌then◌else◌, Outcome, returned, ◌>>=◌, >>=-eq-returned, returned_injective, Bool-cases, inl,
  inr, arith,
}
use bcbchain.Base.Int.{ℤ, pos, eqb_ℤ}
use bcbchain.App.{
  Application, Services, TxAnswer, EndAnswer, by_version, on_v1, check_tx, deliver_tx, begin_block,
  begin_v2, end_block, commit, init_chain, rollback,
}
use bcbchain.App.Genesis.{init_chain-KeepsAt}
use bcbchain.App.Versions.{
  At, KeepsAt, eqb_ℤ-eq, on_store-KeepsAt, current_version-At, dispatch_tx-KeepsAt,
  begin_block-KeepsAt, end_block-At, commit-At,
}

-- One call of the application.
pub data Step (S : Type 0) (V : Services S) : Application S → Application S → Type 0 where
  checks :
      (tx : Bytes) (r : TxAnswer) (app app' : Application S)
      → check_tx S V tx app ≡ returned (r, app')
      → Step S V app app'
  delivers :
      (tx : Bytes) (r : TxAnswer) (app app' : Application S)
      → deliver_tx S V tx app ≡ returned (r, app')
      → Step S V app app'
  begins :
      (req r : Bytes) (app app' : Application S)
      → begin_block S V req app ≡ returned (r, app')
      → Step S V app app'
  ends :
      (req : Bytes) (r : EndAnswer) (app app' : Application S)
      → end_block S V req app ≡ returned (r, app')
      → Step S V app app'
  commits :
      (r : Bytes) (app app' : Application S)
      → commit S V app ≡ returned (r, app')
      → Step S V app app'
  inits :
      (version : ℤ) (req : Bytes) (r : Option Bytes) (app app' : Application S)
      → init_chain S V version req app ≡ returned (r, app')
      → Step S V app app'
  rolls_back :
      (r : Option Bytes) (app app' : Application S)
      → rollback S V app ≡ returned (r, app')
      → Step S V app app'

pub data Steps (S : Type 0) (V : Services S) : Application S → Application S → Type 0 where
  stop : (app : Application S) → Steps S V app app
  next :
      (app app₁ app' : Application S) → Step S V app app₁ → Steps S V app₁ app' → Steps S V app app'

module _ (S : Type 0) (V : Services S) where
  -- The transactions of a block, one after the other.
  unfoldable pub deliver_each : List Bytes → Application S → Outcome (Application S)
  deliver_each [] app = returned app
  deliver_each (tx ∷ txs) app = deliver_tx S V tx app >>= λ r. deliver_each txs (r.1)

  deliver_each-At :
      (txs : List Bytes) (v u : ℤ) (app app' : Application S)
      → deliver_each txs app ≡ returned app'
      → At S V v u app
      → At S V v u app'
  unfolding deliver_each deliver_tx
  deliver_each-At [] v u app app' run known =
      subst (At S V v u) (sym (returned_injective _ _ run)) known
  deliver_each-At (tx ∷ txs) v u app app' run known =
      let ((r, app₁), e, rest) = >>=-eq-returned (deliver_tx S V tx app) _ run in
      deliver_each-At txs v u app₁ app' rest (
        dispatch_tx-KeepsAt S V (V.deliver_v1 tx) (V.deliver_v2 tx) (codes "invalid transaction")
          (codes "invalid transaction") tx v u app app₁ r e known)

  -- A block: the answer to its end, the application before the commit, and the one behind it.
  abbrev pub run_block :
      Bytes
      → List Bytes
      → Bytes
      → Application S
      → Outcome (EndAnswer × Application S × Application S)
  run_block req txs end_req app = do
    begun ← begin_block S V req app
    full ← deliver_each txs (begun.1)
    ended ← end_block S V end_req full
    committed ← commit S V (ended.1)
    returned (ended.0, ended.1, committed.1)

  pending_version :
      (v w : ℤ)
      → (if eqb_ℤ (if eqb_ℤ v w then pos 0 else w) (pos 0)
          then v
          else if eqb_ℤ v w
          then pos 0
          else w)
        ≡ (if eqb_ℤ v w || eqb_ℤ w (pos 0) then v else w)
  pending_version v w = elim (Bool-cases (eqb_ℤ v w)) [ inl e ↦ rw e refl | inr e ↦ rw e refl ]

  -- For an application that knows its chain version and has no pending one, if a block is begun,
  -- its transactions are delivered, it is ended and committed without a panic, then the version
  -- stays until the commit; behind it the version is the one in the answer to the end of the
  -- block, but the old one if that is 0, and nothing is pending.
  pub run_block-version :
      (req end_req : Bytes) (txs : List Bytes) (v : ℤ) (app ended app' : Application S)
      (r : EndAnswer)
      → app.chain_version ≡ some v
      → app.update_chain_version ≡ pos 0
      → run_block req txs end_req app ≡ returned (r, ended, app')
      → (ended.chain_version ≡ some v)
        × (app'.chain_version
            ≡ some (
                if eqb_ℤ v (r.chain_version) || eqb_ℤ (r.chain_version) (pos 0)
                then v
                else r.chain_version))
        × (app'.update_chain_version ≡ pos 0)
  run_block-version req end_req txs v app ended app' r version update run =
      let ((a, begun), e, r₁) = >>=-eq-returned (begin_block S V req app) _ run in
      let (full, e₂, r₂) = >>=-eq-returned (deliver_each txs begun) _ r₁ in
      let ((answer, app₃), e₃, r₃) = >>=-eq-returned (end_block S V end_req full) _ r₂ in
      let ((c, app₄), e₄, r₄) = >>=-eq-returned (commit S V app₃) _ r₃ in
      let at_end = end_block-At S V end_req v (pos 0) full app₃ answer e₃ (
        deliver_each-At txs v (pos 0) begun full e₂ (
          begin_block-KeepsAt S V req v (pos 0) app begun a e
            (record { version = version; update = update }))) in
      let at_last = commit-At S V v _ app₃ app₄ c e₄ at_end in
      let same = returned_injective _ _ r₄ in
      (
        ap (λ x. x.1.chain_version) same ∙ at_end.version,
        ap (λ x. x.2.chain_version) same
            ∙ (at_last.version
                ∙ (ap some (pending_version v (answer.chain_version))
                    ∙ ap
                        (λ x. some (
                          if eqb_ℤ v (x.0.chain_version) || eqb_ℤ (x.0.chain_version) (pos 0)
                          then v
                          else x.0.chain_version))
                        (sym same))),
        ap (λ x. x.2.update_chain_version) same ∙ at_last.update,
      )

  -- The chain version is known and is not 0.
  pub record IsUpgraded (app : Application S) : Type 0 where
    pub version : ℤ
    pub update : ℤ
    pub at : At S V version update app
    pub nonzero : eqb_ℤ version (pos 0) ≡ false

  -- A call that keeps the version keeps a chain upgraded.
  kept-IsUpgraded :
      {A : Type 0} (f : Application S → Outcome (A × Application S))
      → KeepsAt S V A f
      → (r : A) (app app' : Application S) → f app ≡ returned (r, app')
      → IsUpgraded app
      → IsUpgraded app'
  kept-IsUpgraded f keeps r app app' run known = record {
    version = known.version;
    update = known.update;
    at = keeps (known.version) (known.update) app app' r run (known.at);
    nonzero = known.nonzero;
  }

  nonzero_commit :
      (v u : ℤ) → eqb_ℤ v (pos 0) ≡ false → eqb_ℤ (if eqb_ℤ u (pos 0) then v else u) (pos 0) ≡ false
  nonzero_commit v u nonzero = elim (Bool-cases (eqb_ℤ u (pos 0))) [
    | inl e ↦ rw e nonzero
    | inr e ↦ rw e e
  ]

  Step-IsUpgraded :
      (app app' : Application S) → Step S V app app' → IsUpgraded app → IsUpgraded app'
  unfolding check_tx deliver_tx rollback
  Step-IsUpgraded app app' (checks tx r _ _ run) known =
      kept-IsUpgraded (check_tx S V tx)
        (dispatch_tx-KeepsAt S V (V.check_v1 tx) (V.check_v2 tx) (codes "invalid transaction 1")
          (codes "invalid transaction 2") tx)
        r app app' run known
  Step-IsUpgraded app app' (delivers tx r _ _ run) known =
      kept-IsUpgraded (deliver_tx S V tx)
        (dispatch_tx-KeepsAt S V (V.deliver_v1 tx) (V.deliver_v2 tx) (codes "invalid transaction")
          (codes "invalid transaction") tx)
        r app app' run known
  Step-IsUpgraded app app' (begins req r _ _ run) known =
      kept-IsUpgraded (begin_block S V req) (begin_block-KeepsAt S V req) r app app' run known
  Step-IsUpgraded app app' (ends req r _ _ run) known = record {
    version = known.version;
    update = if eqb_ℤ (known.version) (r.chain_version) then known.update else r.chain_version;
    at = end_block-At S V req (known.version) (known.update) app app' r run (known.at);
    nonzero = known.nonzero;
  }
  Step-IsUpgraded app app' (commits r _ _ run) known = record {
    version = if eqb_ℤ (known.update) (pos 0) then known.version else known.update;
    update = pos 0;
    at = commit-At S V (known.version) (known.update) app app' r run (known.at);
    nonzero = nonzero_commit (known.version) (known.update) (known.nonzero);
  }
  Step-IsUpgraded app app' (inits version req r _ _ run) known =
      kept-IsUpgraded (init_chain S V version req) (init_chain-KeepsAt S V version req) r app app'
        run known
  Step-IsUpgraded app app' (rolls_back r _ _ run) known =
      kept-IsUpgraded (rollback S V) (on_store-KeepsAt S V (V.rollback_v2)) r app app' run known

  Steps-IsUpgraded :
      (app app' : Application S) → Steps S V app app' → IsUpgraded app → IsUpgraded app'
  Steps-IsUpgraded app app' (stop _) known = known
  Steps-IsUpgraded app app' (next _ app₁ _ s rest) known =
      Steps-IsUpgraded app₁ app' rest (Step-IsUpgraded app app₁ s known)

  -- A call by the version that returns is one of version 2.
  by_version-upgraded :
      {A : Type 0} (to_v1 to_v2 : Application S → Outcome (A × Application S)) (r : A)
      (app app' : Application S)
      → by_version S V to_v1 to_v2 app ≡ returned (r, app')
      → IsUpgraded app
      → (app.chain_version ≡ some (pos 2)) × (to_v2 app ≡ returned (r, app'))
  by_version-upgraded to_v1 to_v2 r app app' run known =
      let run' = rw (current_version-At S V (known.version) (known.update) app (known.at)) at run in
      elim (Bool-cases (eqb_ℤ (known.version) (pos 2))) [
        | inl e ↦ (
          known.at.version ∙ ap some (eqb_ℤ-eq (known.version) (pos 2) e),
          rw (known.nonzero, e) at run',
        )
        | inr e ↦ absurd (ground (arith, rw (known.nonzero, e) at run'))
      ]

  -- Once an application knows a chain version other than 0, then behind every sequence of
  -- CheckTx, DeliverTx, BeginBlock, EndBlock, Commit, InitChain and Rollback that does not panic,
  -- a BeginBlock that returns finds chain version 2 and is the one of version 2.
  pub Steps-begin_block :
      (v : ℤ) (app app' app'' : Application S) (req r : Bytes)
      → app.chain_version ≡ some v
      → eqb_ℤ v (pos 0) ≡ false
      → Steps S V app app'
      → begin_block S V req app' ≡ returned (r, app'')
      → (app'.chain_version ≡ some (pos 2)) × (begin_v2 S V req app' ≡ returned (r, app''))
  unfolding begin_block
  Steps-begin_block v app app' app'' req r version nonzero s run =
      by_version-upgraded (on_v1 S V (V.begin_v1 req)) (begin_v2 S V req) r app' app'' run (
        Steps-IsUpgraded app app' s (record {
          version = v;
          update = app.update_chain_version;
          at = record { version = version; update = refl };
          nonzero = nonzero;
        }))
