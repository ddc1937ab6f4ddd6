-- ===== src/V1/Byb/Burning.antt =====
-- What `Burn` of abciapp_v1.0/contract/tokenbyb/tokenbyb.go does to the supply and to the contract's
-- account.
use bcbchain.Base.{bytes_eq, bytes_eq_iff, false, not, List, [], ◌∷◌, ◌++◌, ◌≡◌, sym, ◌∙◌, arith}
use bcbchain.Base.Int.{ℤ, pos, ◌-ℤ◌, ◌≤ℤ◌, ltb_ℤ, leb_ℤ}
use bcbchain.V1.Keys.{has_slash}
use bcbchain.V1.Reply.{
  TxState, Op, done, ◌>>=◌, ◌>>◌, pure, fail_if, >>=_inversion, passed_guard, done_injective,
  invalid_parameter, no_authorization, invalid_supply, invalid_balance, insufficient_balance,
  unsupport_burn,
}
use bcbchain.V1.Types.{StateJson, IssueToken}
use bcbchain.V1.State.{set_token}
use bcbchain.V1.Token.Storage.{Stored}
use bcbchain.V1.Byb.Chromos.{BybBalance, calc_total_balance}
use bcbchain.V1.Byb.Store.{BybJson, TokenByb, get_byb_balance, set_byb_balance}
use bcbchain.V1.Byb.Receipts.{BybReceipt, burn_receipt, on_transfer}
use bcbchain.V1.Byb.Issue.{white, burn_from, lower_supply, burn}
use bcbchain.V1.Byb.Stored.{Owns}
use bcbchain.V1.Byb.Supply.{
  Sets, token_then, amounts_then, first_amount, supply_set, Owns-set_token,
}

module _ (J : StateJson) (B : BybJson) (byb : TokenByb) where
  lowered-amounts :
      (value : ℤ) (s s' : TxState) (t : IssueToken) (item : BybBalance) (items : List BybBalance)
      (lowered : ℤ × List BybReceipt)
      → lower_supply J B byb value s ≡ (done lowered, s')
      → Stored J (byb.contract_addr) t s
      → t.address ≡ byb.contract_addr
      → has_slash (byb.contract_addr) ≡ false
      → has_slash (byb.contract_acct) ≡ false
      → Owns J B (byb.contract_acct) (item ∷ items) s
      → (value ≤ℤ t.total_supply)
        × (value ≤ℤ item.value)
        × Stored J (byb.contract_addr) (record t { total_supply = t.total_supply -ℤ value }) s'
        × Owns J B (byb.contract_acct) (record item { value = item.value -ℤ value } ∷ items) s'
        × Sets J B byb
            (calc_total_balance (record item { value = item.value -ℤ value } ∷ items))
            s
            s'
  unfolding lower_supply burn_from
  lowered-amounts value s s' t item items lowered run stored own base58 base58' owns =
      let result : ℤ → ℤ × List BybReceipt =
        λ x. (x, on_transfer byb (byb.contract_acct) [] (white value)) in
      let write : IssueToken → Op (ℤ × List BybReceipt) = λ token.
        set_token J (record token { total_supply = token.total_supply -ℤ value })
        >> pure (result (token.total_supply -ℤ value)) in
      let sink : IssueToken → Op (ℤ × List BybReceipt) = λ token.
        fail_if (leb_ℤ (token.total_supply) (token.total_supply -ℤ value)) invalid_supply
        >> write token in
      let debit : IssueToken → List BybBalance → Op (ℤ × List BybReceipt) =
        λ token l. burn_from J B byb value l >> sink token in
      let check : IssueToken → Op (ℤ × List BybReceipt) = λ token.
        fail_if (ltb_ℤ (token.total_supply) value) insufficient_balance
        >> (get_byb_balance J B (byb.contract_acct) >>= debit token) in
      let enabled : IssueToken → Op (ℤ × List BybReceipt) =
        λ token. fail_if (not (token.burn_enabled)) unsupport_burn >> check token in
      let (on, r₁) =
        passed_guard (not (t.burn_enabled)) unsupport_burn (check t) s s'
          (sym (token_then J B byb enabled s t stored) ∙ run) in
      let (enough, r₂) =
        passed_guard (ltb_ℤ (t.total_supply) value) insufficient_balance
          (get_byb_balance J B (byb.contract_acct) >>= debit t) s s' r₁ in
      let (u, s₁, burnt, r₃) =
        >>=_inversion (burn_from J B byb value (item ∷ items)) (λ _. sink t) s
          (sym (amounts_then J B byb (debit t) s (item ∷ items) owns) ∙ r₂) in
      let less : BybBalance = record item { value = item.value -ℤ value } in
      let store = set_byb_balance J B byb (byb.contract_acct) (less ∷ items) in
      let (enough', b₁) =
        passed_guard (ltb_ℤ (item.value) value) insufficient_balance
          (fail_if (leb_ℤ (item.value) (item.value -ℤ value)) invalid_balance >> store) s s₁
          burnt in
      let (falls, b₂) =
        passed_guard (leb_ℤ (item.value) (item.value -ℤ value)) invalid_balance store s s₁ b₁ in
      let (stored₁, owns₁, balances) = first_amount J B byb less items s s₁ b₂ base58' t stored in
      let new_supply = t.total_supply -ℤ value in
      let (sinks, r₄) =
        passed_guard (leb_ℤ (t.total_supply) new_supply) invalid_supply (write t) s₁ s' r₃ in
      let new : IssueToken = record t { total_supply = new_supply } in
      let (u₂, s₂, written, r₅) =
        >>=_inversion (set_token J new) (λ _. pure (result new_supply)) s₁ r₄ in
      let (_, same) = done_injective (result new_supply) lowered s₂ s' r₅ in
      let (stored₂, same₂) = supply_set J B byb t new_supply s₁ s₂ written own base58 in
      let owns₂ =
        Owns-set_token J B byb new s₁ s₂ written (byb.contract_acct) (less ∷ items) owns₁ in
      (
        ground (arith, enough),
        ground (arith, enough'),
        rw same stored₂,
        rw same owns₂,
        λ b. rw same (same₂ b ∙ balances b),
      )

  -- If Burn succeeds on a stored token whose address is that of the contract, the addresses have
  -- no slash and the contract's account has a list of amounts that is not empty, then the sender
  -- is the owner, the value is at least one unit and neither above the supply nor above the first
  -- amount of the account; the stored supply has fallen by the value with the other fields kept,
  -- the first amount too, the account's balance is the total of its amounts, and every other
  -- balance is what it was.
  pub burn-amounts :
      (value : ℤ) (s s' : TxState) (t : IssueToken) (item : BybBalance) (items : List BybBalance)
      (receipts : List BybReceipt)
      → burn J B byb value s ≡ (done receipts, s')
      → Stored J (byb.contract_addr) t s
      → t.address ≡ byb.contract_addr
      → has_slash (byb.contract_addr) ≡ false
      → has_slash (byb.contract_acct) ≡ false
      → Owns J B (byb.contract_acct) (item ∷ items) s
      → (byb.sender ≡ byb.owner)
        × (pos 1 ≤ℤ value)
        × (value ≤ℤ t.total_supply)
        × (value ≤ℤ item.value)
        × Stored J (byb.contract_addr) (record t { total_supply = t.total_supply -ℤ value }) s'
        × Owns J B (byb.contract_acct) (record item { value = item.value -ℤ value } ∷ items) s'
        × Sets J B byb
            (calc_total_balance (record item { value = item.value -ℤ value } ∷ items))
            s
            s'
  unfolding burn
  burn-amounts value s s' t item items receipts run stored own base58 base58' owns =
      let finish : ℤ × List BybReceipt → Op (List BybReceipt) =
        λ lowered. pure (lowered.1 ++ burn_receipt (byb.contract_address) value (lowered.0) ∷ []) in
      let denied = not (bytes_eq (byb.sender) (byb.owner)) in
      let (positive, r₁) =
        passed_guard (leb_ℤ value (pos 0)) invalid_parameter
          (fail_if denied no_authorization >> (lower_supply J B byb value >>= finish)) s s' run in
      let (allowed, r₂) =
        passed_guard denied no_authorization (lower_supply J B byb value >>= finish) s s' r₁ in
      let (lowered, s₁, lower, r₃) = >>=_inversion (lower_supply J B byb value) finish s r₂ in
      let (_, same) =
        done_injective (lowered.1 ++ burn_receipt (byb.contract_address) value (lowered.0) ∷ [])
          receipts s₁ s' r₃ in
      let (enough, enough', kept, owned, balances) =
        lowered-amounts value s s₁ t item items lowered lower stored own base58 base58' owns in
      (
        ground (arith, allowed, bytes_eq_iff (byb.sender) (byb.owner)),
        ground arith,
        enough,
        enough',
        rw same kept,
        rw same owned,
        rw same balances,
      )
