-- ===== src/V1/Token/Supply.antt =====
-- What `AddSupply` and `Burn` of abciapp_v1.0/contract/tokentemplet/tokentemplet.go do to the supply
-- and to the balances.
use bcbchain.Base.{
  Bytes, bytes_eq, bytes_eq_iff, Bool, true, false, not, ◌≡◌, refl, sym, ap, ◌∙◌, if◌then◌else◌,
  arith,
}
use bcbchain.Base.Int.{ℤ, pos, ◌+ℤ◌, ◌-ℤ◌, ◌≤ℤ◌, ltb_ℤ, leb_ℤ}
use bcbchain.Helper.Keys.{key_of_account, key_of_account_token}
use bcbchain.V1.Keys.{has_slash, key_of_token}
use bcbchain.V1.Reply.{
  passed_guard, ErrorCode, TxState, Op, done, ◌>>=◌, ◌>>◌, fail_if, >>=_inversion, continue,
  insufficient_balance, invalid_balance, invalid_parameter, no_authorization, invalid_supply,
  ignore_error, value_or,
}
use bcbchain.V1.Types.{StateJson, IssueToken}
use bcbchain.V1.State.{get, set_balance}
use bcbchain.V1.Frame.{Keeps, >>=-Keeps}
use bcbchain.V1.Balances.{set_balance-Keeps, balance-eq-held}
use bcbchain.V1.Context.{InvokeContext, token_supply, set_token_supply, balance}
use bcbchain.V1.Token.{pay, pay_from, receive, receive_to, add_supply, burn, min_token_supply}
use bcbchain.V1.Token.Transfers.{has, held-pay, held-receive}
use bcbchain.V1.Token.Storage.{Stored, Stored-get, token_supply-eq, set_token_supply_done}

module _ (J : StateJson) (ctx : InvokeContext) where
  fail_if-Keeps : (k : Bytes) (c : Bool) (e : ErrorCode) → Keeps k (fail_if c e)
  fail_if-Keeps k true e s = refl
  fail_if-Keeps k false e s = refl

  balance-Keeps : (addr k : Bytes) → Keeps k (balance J addr (ctx.contract_address))
  balance-Keeps addr k s = ap (λ r. get k (r.1)) (balance-eq-held J addr (ctx.contract_address) s)

  set_balance-Keeps_token :
      (addr : Bytes) (v : ℤ)
      → Keeps (key_of_token (ctx.contract_address)) (set_balance J addr (ctx.contract_address) v)
  unfolding key_of_token key_of_account key_of_account_token bytes_eq
  set_balance-Keeps_token addr v =
      set_balance-Keeps J addr (ctx.contract_address) v (key_of_token (ctx.contract_address)) refl
        refl

  -- Neither part of a transfer touches the token.
  pay-Keeps_token :
      (from : Bytes) (v : ℤ) → Keeps (key_of_token (ctx.contract_address)) (pay J ctx from v)
  pay-Keeps_token from v =
      let k = key_of_token (ctx.contract_address) in
      >>=-Keeps k (balance J from (ctx.contract_address)) (pay_from J ctx from v)
        (balance-Keeps from k)
        (λ old.
          let new = old -ℤ v in
          let write = set_balance J from (ctx.contract_address) new in
          >>=-Keeps k (fail_if (ltb_ℤ new (pos 0)) insufficient_balance)
            (λ _. fail_if (ltb_ℤ old new) invalid_balance >> write)
            (fail_if-Keeps k (ltb_ℤ new (pos 0)) insufficient_balance)
            (λ _.
              >>=-Keeps k (fail_if (ltb_ℤ old new) invalid_balance) (λ _. write)
                (fail_if-Keeps k (ltb_ℤ old new) invalid_balance)
                (λ _. set_balance-Keeps_token from new)))

  receive-Keeps_token :
      (to : Bytes) (v : ℤ) → Keeps (key_of_token (ctx.contract_address)) (receive J ctx to v)
  receive-Keeps_token to v =
      let k = key_of_token (ctx.contract_address) in
      >>=-Keeps k (balance J to (ctx.contract_address)) (receive_to J ctx to v) (balance-Keeps to k)
        (λ old.
          >>=-Keeps k (fail_if (ltb_ℤ (old +ℤ v) old) invalid_balance)
            (λ _. set_balance J to (ctx.contract_address) (old +ℤ v))
            (fail_if-Keeps k (ltb_ℤ (old +ℤ v) old) invalid_balance)
            (λ _. set_balance-Keeps_token to (old +ℤ v)))

  Stored-kept :
      {A : Type 0} (m : Op A) (s s' : TxState) (t : IssueToken) {a : A}
      → Keeps (key_of_token (ctx.contract_address)) m
      → m s ≡ (done a, s')
      → Stored J (ctx.contract_address) t s
      → Stored J (ctx.contract_address) t s'
  Stored-kept m s s' t kept run stored =
      Stored-get J (ctx.contract_address) t s s'
        (ap (λ r. get (key_of_token (ctx.contract_address)) (r.1)) (sym run) ∙ kept s) stored

  -- If AddSupply succeeds on a stored token whose address is that of the contract, and the
  -- addresses have no slash, the sender is the owner, the stored supply has grown by the value
  -- with the other fields kept, the owner has the value more and every other account what it had.
  pub add_supply-balances :
      (value : ℤ) (s s' : TxState) (t : IssueToken)
      → add_supply J ctx value s ≡ (done tt, s')
      → Stored J (ctx.contract_address) t s
      → t.address ≡ ctx.contract_address
      → has_slash (ctx.contract_address) ≡ false
      → has_slash (ctx.owner) ≡ false
      → (ctx.sender ≡ ctx.owner)
        × Stored J (ctx.contract_address) (record t { total_supply = t.total_supply +ℤ value }) s'
        × ((b : Bytes)
            → has J ctx b s'
              ≡ (if bytes_eq (ctx.owner) b then has J ctx b s +ℤ value else has J ctx b s))
  unfolding add_supply
  add_supply-balances value s s' t run stored own base58 base58' =
      let supply = t.total_supply in
      let credit = receive J ctx (ctx.owner) value in
      let raise : ℤ → Op (Unit {0}) = λ old.
        fail_if (ltb_ℤ (old +ℤ value) old) invalid_supply
        >> (set_token_supply J ctx (old +ℤ value) true false >> credit) in
      let (positive, r₁) =
        passed_guard (leb_ℤ value (pos 0)) invalid_parameter
          (fail_if (not (bytes_eq (ctx.sender) (ctx.owner))) no_authorization
            >> (token_supply J ctx >>= raise))
          s s' run in
      let (allowed, r₂) =
        passed_guard (not (bytes_eq (ctx.sender) (ctx.owner))) no_authorization
          (token_supply J ctx >>= raise) s s' r₁ in
      let r₃ : raise supply s ≡ (done tt, s') =
        ap (λ r. continue (r.0) raise (r.1)) (sym (token_supply-eq J ctx s t stored)) ∙ r₂ in
      let (sound, r₄) =
        passed_guard (ltb_ℤ (supply +ℤ value) supply) invalid_supply
          (set_token_supply J ctx (supply +ℤ value) true false >> credit) s s' r₃ in
      let (u, s₁, raised, credited) =
        >>=_inversion (set_token_supply J ctx (supply +ℤ value) true false) (λ _. credit) s r₄ in
      let (stored', same) =
        set_token_supply_done J ctx (supply +ℤ value) true false s s₁ t raised stored own base58 in
      (
        ground (arith, allowed, bytes_eq_iff (ctx.sender) (ctx.owner)),
        Stored-kept credit s₁ s' (record t { total_supply = supply +ℤ value })
            (receive-Keeps_token (ctx.owner) value) credited stored',
        λ b. ground (
          arith,
          held-receive J ctx (ctx.owner) value s₁ s' credited base58' b,
          same b,
          same (ctx.owner),
          bytes_eq_iff (ctx.owner) b,
        ),
      )

  -- If Burn succeeds on a stored token whose address is that of the contract, and the addresses
  -- have no slash, the sender is the owner and had the value, at least the smallest supply is
  -- left, the stored supply has fallen by the value with the other fields kept, the owner has the
  -- value less and every other account what it had.
  pub burn-balances :
      (value : ℤ) (s s' : TxState) (t : IssueToken)
      → burn J ctx value s ≡ (done tt, s')
      → Stored J (ctx.contract_address) t s
      → t.address ≡ ctx.contract_address
      → has_slash (ctx.contract_address) ≡ false
      → has_slash (ctx.owner) ≡ false
      → (ctx.sender ≡ ctx.owner)
        × (value ≤ℤ has J ctx (ctx.owner) s)
        × (min_token_supply ≤ℤ (t.total_supply -ℤ value))
        × Stored J (ctx.contract_address) (record t { total_supply = t.total_supply -ℤ value }) s'
        × ((b : Bytes)
            → has J ctx b s'
              ≡ (if bytes_eq (ctx.owner) b then has J ctx b s -ℤ value else has J ctx b s))
  unfolding burn
  burn-balances value s s' t run stored own base58 base58' =
      let debit = pay J ctx (ctx.owner) value in
      let write : ℤ → Op (Unit {0}) = λ new. set_token_supply J ctx new false true in
      let check : ℤ → Op (Unit {0}) =
        λ new. fail_if (ltb_ℤ new min_token_supply) invalid_supply >> write new in
      let lower : ℤ → Op (Unit {0}) =
        λ old. fail_if (ltb_ℤ old (old -ℤ value)) invalid_supply >> check (old -ℤ value) in
      let new = t.total_supply -ℤ value in
      let get_supply = ignore_error (pos 0) (token_supply J ctx) in
      let denied = not (bytes_eq (ctx.sender) (ctx.owner)) in
      let (positive, r₁) =
        passed_guard (ltb_ℤ value (pos 0)) invalid_parameter
          (fail_if denied no_authorization >> (debit >> (get_supply >>= lower))) s s' run in
      let (allowed, r₂) =
        passed_guard denied no_authorization (debit >> (get_supply >>= lower)) s s' r₁ in
      let (u, s₁, paid, r₃) = >>=_inversion debit (λ _. get_supply >>= lower) s r₂ in
      let (enough, left) = held-pay J ctx (ctx.owner) value s s₁ paid base58' in
      let stored₁ = Stored-kept debit s s₁ t (pay-Keeps_token (ctx.owner) value) paid stored in
      let r₄ : lower (t.total_supply) s₁ ≡ (done tt, s') =
        ap (λ r. continue (value_or (pos 0) (r.0)) lower (r.1))
          (sym (token_supply-eq J ctx s₁ t stored₁))
        ∙ r₃ in
      let (sound, r₅) =
        passed_guard (ltb_ℤ (t.total_supply) new) invalid_supply (check new) s₁ s' r₄ in
      let (large, r₆) =
        passed_guard (ltb_ℤ new min_token_supply) invalid_supply (write new) s₁ s' r₅ in
      let (stored', same) =
        set_token_supply_done J ctx new false true s₁ s' t r₆ stored₁ own base58 in
      (
        ground (arith, allowed, bytes_eq_iff (ctx.sender) (ctx.owner)),
        enough,
        ground (arith, large),
        stored',
        λ b. ground (arith, same b, left b, bytes_eq_iff (ctx.owner) b),
      )
