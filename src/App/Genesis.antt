-- ===== src/App/Genesis.antt =====
-- `InitChain` of abciapp/app/application.go and a chain version that is already known.
use bcbchain.Base.{
  Bytes, Bool, true, false, Option, none, ◌≡◌, sym, subst, if◌then◌else◌, returned, ◌>>=◌,
  >>=-eq-returned, carried, returned_injective, Bool-cases, inl, inr,
}
use bcbchain.Base.Int.{ℤ, pos, eqb_ℤ}
use bcbchain.App.{Application, Services, on_store, init_chain}
use bcbchain.App.Versions.{At, KeepsAt, on_store-KeepsAt, returned-KeepsAt}

module _ (S : Type 0) (V : Services S) where
  -- What `InitChain` does to version 1 has no effect on the chain version.
  started_v1-At :
      (has : Bool) (v u : ℤ) (app app' : Application S)
      → (if has
          then returned app
          else (V.new_v1 (app.store) >>= λ s. returned (record app { has_v1 = true; store = s })))
        ≡ returned app'
      → At S V v u app
      → At S V v u app'
  started_v1-At true v u app app' run known =
      subst (At S V v u) (sym (returned_injective _ _ run)) known
  started_v1-At false v u app app' run known =
      let (s, e, rest) = >>=-eq-returned (V.new_v1 (app.store)) _ run in
      subst (At S V v u) (sym (returned_injective _ _ rest))
        (record { version = known.version; update = known.update })

  pub init_chain-KeepsAt :
      (version : ℤ) (req : Bytes) → KeepsAt S V (Option Bytes) (init_chain S V version req)
  unfolding init_chain
  init_chain-KeepsAt version req v u app app' r run known =
      elim (Bool-cases (eqb_ℤ version (pos 0))) [
        | inl e ↦
            let (app₁, e₁, r₁) =
              >>=-eq-returned
                (if app.has_v1
                  then returned app
                  else (V.new_v1 (app.store) >>= λ s.
                      returned (record app { has_v1 = true; store = s })))
                _ (rw (init_chain, e) at run) in
            let ((answer, app₂), e₂, r₂) =
              >>=-eq-returned (on_store S V (V.init_v1 req) app₁) _ r₁ in
            carried (At S V v u) r₂ (
              on_store-KeepsAt S V (V.init_v1 req) v u app₁ app₂ answer e₂
                (started_v1-At (app.has_v1) v u app app₁ e₁ known))
        | inr e ↦ elim (Bool-cases (eqb_ℤ version (pos 2))) [
          | inl e' ↦
              let ((answer, app₁), e₁, r₁) =
                >>=-eq-returned (on_store S V (V.init_v2 req) app) _
                  (rw (init_chain, e, e') at run) in
              let kept = on_store-KeepsAt S V (V.init_v2 req) v u app app₁ answer e₁ known in
              carried (At S V v u) r₁ (record { version = kept.version; update = kept.update })
          | inr e' ↦ returned-KeepsAt S V none v u app app' r (rw (init_chain, e, e') at run) known
        ]
      ]
