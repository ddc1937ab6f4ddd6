-- ===== src/V1/Token/Storage.antt =====
-- The token that abciapp_v1.0/statedb/txstate.go stores, and `SetTokenSupply` of
-- abciapp_v1.0/contract/stubapi/invokecontext.go.
use bcbchain.Base.{
  ◌++◌, Bytes, codes, bytes_eq, is_empty, Bool, false, not, ◌&&◌, Option, none, some, ◌≡◌, refl,
  sym, ap, subst, ◌∙◌, Bool-cases, inl, inr,
}
use bcbchain.Base.Int.{ℤ}
use bcbchain.Helper.Keys.{key_of_account_token}
use bcbchain.V1.Keys.{
  has_slash, to_lower, key_of_token, key_of_token_all, key_of_token_name, key_of_token_symbol,
  token_ne_slashed,
}
use bcbchain.V1.Reply.{
  passed_guard, TxState, Op, done, ◌>>=◌, ◌>>◌, fail_if, >>=_inversion, decoded, continue, pure,
  no_token, unsupport_add_supply, unsupport_burn,
}
use bcbchain.V1.Types.{StateJson, IssueToken}
use bcbchain.V1.State.{get, set, get_token, set_token, add_child_key, load}
use bcbchain.V1.Frame.{Keeps, set-Keeps, get-set, >>=-Keeps, add_child_key-Keeps}
use bcbchain.V1.Balances.{held, amount}
use bcbchain.V1.Context.{InvokeContext, required, token_supply, set_token_supply}
use bcbchain.V1.Token.Transfers.{has}

decoded_reply {ℓ} :
    {A : Type ℓ} (o : Option A) (s s' : TxState)
    → ((decoded o >>= λ a. pure (some a)) s).0 ≡ ((decoded o >>= λ a. pure (some a)) s').0
decoded_reply none s s' = refl
decoded_reply (some a) s s' = refl

decoded_state {ℓ} :
    {A : Type ℓ} (o : Option A) (s : TxState) → ((decoded o >>= λ a. pure (some a)) s).1 ≡ s
decoded_state none s = refl
decoded_state (some a) s = refl

module _ (J : StateJson) where
  open J use {
    encode_token, decode_token, decode_token-encode_token, encode_token_nonempty, encode_address,
  }

  -- A token is stored under an address.
  abbrev pub Stored : Bytes → IssueToken → TxState → Type 0
  Stored addr t s = get_token J addr s ≡ (done (some t), s)

  load_reply :
      (value : Bytes) (s s' : TxState)
      → (load decode_token value s).0 ≡ (load decode_token value s').0
  unfolding load
  load_reply value s s' = elim (Bool-cases (is_empty value)) [
    | inl e ↦ rw e refl
    | inr e ↦ rw e (decoded_reply (decode_token value) s s')
  ]

  load_state : (value : Bytes) (s : TxState) → (load decode_token value s).1 ≡ s
  unfolding load
  load_state value s = elim (Bool-cases (is_empty value)) [
    | inl e ↦ rw e refl
    | inr e ↦ rw e (decoded_state (decode_token value) s)
  ]

  pub Stored-get :
      (addr : Bytes) (t : IssueToken) (s s' : TxState)
      → get (key_of_token addr) s' ≡ get (key_of_token addr) s
      → Stored addr t s
      → Stored addr t s'
  unfolding get_token
  Stored-get addr t s s' e stored =
      let reply =
        ap (λ v. (load decode_token v s').0) e
        ∙ (load_reply (get (key_of_token addr) s) s' s ∙ ap (λ r. r.0) stored) in
      λ i. (reply i, load_state (get (key_of_token addr) s') s' i)

  Stored-set :
      (t : IssueToken) (s s' : TxState) {u : Unit {0}}
      → set (key_of_token (t.address)) (encode_token t) s ≡ (done u, s')
      → Stored (t.address) t s'
  unfolding get_token load
  Stored-set t s s' run =
      rw
        (
          get-set (key_of_token (t.address)) (encode_token t) s s' run (encode_token_nonempty t),
          load,
          encode_token_nonempty t,
          decode_token-encode_token t,
        )
        refl

  -- The rest of `SetToken` behind its first write.
  abbrev set_token_rest : IssueToken → Op (Unit {0})
  set_token_rest t =
      add_child_key J key_of_token_all (t.address)
      >> (set (key_of_token_name (t.name)) (encode_address (t.address))
          >> set (key_of_token_symbol (t.symbol)) (encode_address (t.address)))

  set_token_rest-Keeps :
      (t : IssueToken) (k : Bytes)
      → bytes_eq key_of_token_all k ≡ false
      → bytes_eq (key_of_token_name (t.name)) k ≡ false
      → bytes_eq (key_of_token_symbol (t.symbol)) k ≡ false
      → Keeps k (set_token_rest t)
  set_token_rest-Keeps t k p q r =
      let address = encode_address (t.address) in
      let set_symbol = set (key_of_token_symbol (t.symbol)) address in
      >>=-Keeps k (add_child_key J key_of_token_all (t.address))
        (λ _. set (key_of_token_name (t.name)) address >> set_symbol)
        (add_child_key-Keeps J key_of_token_all (t.address) k p)
        (λ _.
          >>=-Keeps k (set (key_of_token_name (t.name)) address) (λ _. set_symbol)
            (set-Keeps (key_of_token_name (t.name)) address k q)
            (λ _. set-Keeps (key_of_token_symbol (t.symbol)) address k r))

  -- `SetToken` stores the token under its address and leaves every balance alone.
  pub Stored-set_token :
      (t : IssueToken) (s s' : TxState) {u : Unit {0}}
      → set_token J t s ≡ (done u, s')
      → has_slash (t.address) ≡ false
      → Stored (t.address) t s'
  unfolding set_token key_of_token_name key_of_token_symbol
  Stored-set_token t s s' run base58 =
      let (u, s₁, first, rest) =
        >>=_inversion (set (key_of_token (t.address)) (encode_token t)) (λ _. set_token_rest t) s
          run in
      Stored-get (t.address) t s₁ s'
        (ap (λ r. get (key_of_token (t.address)) (r.1)) (sym rest)
          ∙ set_token_rest-Keeps t (key_of_token (t.address))
              (token_ne_slashed (t.address) (codes "all") (codes "0") base58)
              (token_ne_slashed (t.address) (codes "name") (to_lower (t.name)) base58)
              (token_ne_slashed (t.address) (codes "symbol") (to_lower (t.symbol)) base58) s₁)
        (Stored-set t s s₁ first)

  -- `SetToken` writes no key of an account.
  pub set_token-Keeps_account :
      (t : IssueToken) (rest : Bytes) → Keeps (codes "/account/ex/" ++ rest) (set_token J t)
  unfolding set_token key_of_token key_of_token_name key_of_token_symbol bytes_eq
  set_token-Keeps_account t rest =
      let k = codes "/account/ex/" ++ rest in
      >>=-Keeps k (set (key_of_token (t.address)) (encode_token t)) (λ _. set_token_rest t)
        (set-Keeps (key_of_token (t.address)) (encode_token t) k refl)
        (λ _. set_token_rest-Keeps t k refl refl refl)

  pub held-set_token :
      (t : IssueToken) (s s' : TxState) {u : Unit {0}}
      → set_token J t s ≡ (done u, s')
      → (token b : Bytes) → held J token b s' ≡ held J token b s
  unfolding held key_of_account_token
  held-set_token t s s' run token b = ap (amount J) (
      ap (λ r. get (key_of_account_token b token) (r.1)) (sym run)
      ∙ set_token-Keeps_account t (b ++ (codes "/token/" ++ token)) s)

module _ (J : StateJson) (ctx : InvokeContext) where
  abbrev address : Bytes
  address = ctx.contract_address

  -- What follows a read of the contract's token, if there is one.
  token_then {ℓ} :
      {A : Type ℓ} (f : IssueToken → Op A) (s : TxState) (t : IssueToken)
      → Stored J address t s
      → (get_token J address >>= λ found. required no_token found >>= f) s ≡ f t s
  token_then f s t stored =
      ap (λ r. continue (r.0) (λ found. required no_token found >>= f) (r.1)) stored

  pub token_supply-eq :
      (s : TxState) (t : IssueToken)
      → Stored J address t s
      → token_supply J ctx s ≡ (done (t.total_supply), s)
  unfolding token_supply
  token_supply-eq s t stored = token_then (λ token. pure (token.total_supply)) s t stored

  -- `SetTokenSupply` changes the supply alone.
  pub set_token_supply_done :
      (value : ℤ) (is_add is_burn : Bool) (s s' : TxState) (t : IssueToken) {u : Unit {0}}
      → set_token_supply J ctx value is_add is_burn s ≡ (done u, s')
      → Stored J address t s
      → t.address ≡ address
      → has_slash address ≡ false
      → Stored J address (record t { total_supply = value }) s'
        × ((b : Bytes) → has J ctx b s' ≡ has J ctx b s)
  unfolding set_token_supply
  set_token_supply_done value is_add is_burn s s' t run stored own base58 =
      let new : IssueToken = record t { total_supply = value } in
      let can_burn = fail_if (is_burn && not (t.burn_enabled)) unsupport_burn >> set_token J new in
      let (p, r₁) =
        passed_guard (is_add && not (t.add_supply_enabled)) unsupport_add_supply can_burn s s' (
          sym (
            token_then
              (λ token.
                fail_if (is_add && not (token.add_supply_enabled)) unsupport_add_supply
                >> (fail_if (is_burn && not (token.burn_enabled)) unsupport_burn
                    >> set_token J (record token { total_supply = value })))
              s t stored)
          ∙ run) in
      let (q, r₂) =
        passed_guard (is_burn && not (t.burn_enabled)) unsupport_burn (set_token J new) s s' r₁ in
      (
        subst (λ a. Stored J a new s') own
            (Stored-set_token J new s s' r₂ (subst (λ a. has_slash a ≡ false) (sym own) base58)),
        held-set_token J new s s' r₂ address,
      )
